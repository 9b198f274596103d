-- ===== src/Lease/Manager.antt =====
-- internal/lease/lease.go: acquiring a lease. The manager owns the hot index, the selector and the
-- catalog here; `assign` is the proxy pool's callback. The clock stands still during one attempt.
use grokbuild_pool.Base.{
  ℕ, zero, suc, ◌+◌, ℤ, pos_part, ltb_ℤ, String, Bool, true, false, not, ◌&&◌, ◌||◌, List, [],
  Option, none, some, if◌then◌else◌, ◌==◌, ◌/=◌, string_eq, insert, Result, ok, err, trim_space,
}
use grokbuild_pool.Hot.Meta.{IdSet, lifecycle_active}
use grokbuild_pool.Hot.Index.{Index, get, add_inflight, promote}
use grokbuild_pool.Selector.Config.{Float64}
use grokbuild_pool.Selector.Pick.{Selector, pick_excluding}
use grokbuild_pool.Lease.Catalog.{Account, Catalog, get_account, set_proxy}
use grokbuild_pool.Lease.Config.{Config}
use grokbuild_pool.Lease.Cooldown.{ModelCool, model_cooldown_active}

pub record Lease : Type 0 where
  pub account_id : String
  pub revision : ℕ
  pub access_token : String
  pub proxy_url : String
  pub proxy_mode : String
  pub sticky_key : String
  pub model : String
  pub attempt : ℕ

pub data LeaseError : Type 0 where
  no_account catalog_failed not_usable model_cooling requires_proxy inflight_failed : LeaseError
  invalid_input patch_failed cancelled : LeaseError

abbrev pub is_no_account : LeaseError → Bool
is_no_account no_account = true
is_no_account _ = false

abbrev pub ProxyAssigner : Type 0
ProxyAssigner = String → Option (String × String)

unfoldable pub account_usable : Account → ℤ → Bool
account_usable a now =
    if not a.enabled || a.manual_disabled
    then false
    else if (a.lifecycle /= "") && (a.lifecycle /= lifecycle_active)
    then false
    else if ltb_ℤ now a.cooldown_until
    then false
    else if a.access_token == ""
    then false
    else true

module _ (f : Float64) where
  pub record Manager : Type 0 where
    pub cat : Catalog
    pub idx : Index
    pub sel : Selector f
    pub cfg : Config
    pub model_cool : ModelCool
    pub require_proxy : Bool
    pub assign : Option ProxyAssigner
    -- The calls of the failure reporter, the last one first.
    pub reported : List (String × String)

  -- The pool's answer for an account without a proxy: a URL that is not blank.
  unfoldable pub assigned : Manager → String → Option (String × String)
  assigned m id = elim m.assign [
    | none ↦ none
    | some call ↦ elim (call id) [
      | none ↦ none
      | some pair ↦
          if trim_space pair.0 == "" then none else some (trim_space pair.0, trim_space pair.1)
    ]
  ]

  -- The binding is kept in the catalog, and then in the hot index.
  unfoldable pub bind_proxy : ℤ → Manager → String → String × String → Manager
  bind_proxy now m id pair =
      let (cat', saved) = set_proxy now m.cat id pair.0 pair.1 in
      let m' = record m { cat = cat' } in
      elim saved [
        | err e ↦ m'
        | ok done ↦ elim (get m.idx id) [
          | none ↦ m'
          | some meta ↦ record m' {
            idx = (promote m.idx (record meta { proxy_url = pair.0; proxy_mode = pair.1 })).0;
          }
        ]
      ]

  -- The egress of the lease: the account's own, or one from the pool.
  unfoldable pub egress : ℤ → Manager → String → Account → Manager × (String × String)
  unfolding assigned bind_proxy
  egress now m id a =
      if trim_space a.proxy_url /= ""
      then (m, (trim_space a.proxy_url, trim_space a.proxy_mode))
      else elim (assigned m id) [
        | none ↦ (m, ("", trim_space a.proxy_mode))
        | some pair ↦ (bind_proxy now m id pair, pair)
      ]

  unfoldable pub lease_of : Account → String × String → String → String → ℕ → Lease
  lease_of a pair key model attempt = record {
    account_id = a.id;
    revision = pos_part a.revision;
    access_token = a.access_token;
    proxy_url = pair.0;
    proxy_mode = pair.1;
    sticky_key = key;
    model = model;
    attempt = attempt;
  }

  -- The slot of the lease.
  unfoldable pub seat : Manager → String → Lease → Manager × Result LeaseError Lease
  seat m id l =
      let (idx', added) = add_inflight m.idx id in
      elim added [ err e ↦ (m, err inflight_failed) | ok done ↦ (record m { idx = idx' }, ok l) ]

  -- From the egress to the lease.
  unfoldable pub admit :
      ℤ → Manager → String → Account → String → String → ℕ → Manager × Result LeaseError Lease
  unfolding egress lease_of seat
  admit now m id a key model attempt =
      let (m', pair) = egress now m id a in
      if (pair.0 == "") && m.require_proxy
      then (m', err requires_proxy)
      else seat m' id (lease_of a pair key model attempt)

  -- The cooldown of the model is looked up, which may drop it, only where a model is given.
  unfoldable pub check_model : ℤ → Manager → String → String → Manager × Bool
  check_model now m id model =
      if model == ""
      then (m, false)
      else (let (mc, active) = model_cooldown_active m.model_cool id model now in
          (record m { model_cool = mc }, active))

  -- Everything after the pick.
  unfoldable pub lease_account :
      ℤ → Manager → String → String → String → ℕ → Manager × Result LeaseError Lease
  unfolding check_model admit
  lease_account now m id key model attempt = elim (get_account m.cat id) [
    | err e ↦ (m, err catalog_failed)
    | ok a ↦
        if not (account_usable a now)
        then (m, err not_usable)
        else (let (m', cooling) = check_model now m id model in
            if cooling then (m', err model_cooling) else admit now m' id a key model attempt)
  ]

  -- `draw` and `uniform` are the random numbers of the attempt; `tried` grows by the id.
  unfoldable pub acquire_once :
      ℤ
      → Manager
      → String
      → String
      → IdSet
      → ℕ
      → (ℕ → ℕ → ℕ)
      → (ℕ → f.F)
      → Manager × (IdSet × Result LeaseError Lease)
  unfolding lease_account
  acquire_once now m key model tried attempt draw uniform =
      let (sel', picked) = pick_excluding f now m.idx m.sel now key tried draw uniform in
      let m' = record m { sel = sel' } in
      elim picked [
        | none ↦ (m', (tried, err no_account))
        | some id ↦
            if id == ""
            then (m', (tried, err no_account))
            else (let (m'', answer) = lease_account now m' id key model attempt in
                (m'', (insert id tt tried, answer)))
      ]

  -- The loop of `Acquire`: the clock and the random numbers of each attempt are given; the context
  -- does not end. `last` is the error of the attempt before.
  unfoldable pub acquire_loop :
      (ℕ → ℤ)
      → (ℕ → ℕ → ℕ → ℕ)
      → (ℕ → ℕ → f.F)
      → ℕ
      → ℕ
      → Manager
      → String
      → String
      → IdSet
      → LeaseError
      → Manager × Result LeaseError Lease
  unfolding acquire_once
  acquire_loop clock draw uniform zero attempt m key model tried last = (m, err last)
  acquire_loop clock draw uniform (suc left) attempt m key model tried last =
      let (m', (tried', answer)) =
        acquire_once (clock attempt) m key model tried attempt (draw attempt) (uniform attempt) in
      let go : LeaseError → Manager × Result LeaseError Lease =
        acquire_loop clock draw uniform left (attempt + 1) m' key model tried' in
      elim answer [
        | ok lease ↦ (m', ok lease)
        | err e ↦ if is_no_account e then (m', err no_account) else go e
      ]

  unfoldable pub acquire :
      (ℕ → ℤ)
      → (ℕ → ℕ → ℕ → ℕ)
      → (ℕ → ℕ → f.F)
      → Manager
      → String
      → String
      → Manager × Result LeaseError Lease
  unfolding acquire_loop
  acquire clock draw uniform m key model =
      acquire_loop clock draw uniform (pos_part m.cfg.max_attempts) 1 m key model [] no_account
