-- ===== src/Lease/Acquired.antt =====
-- internal/lease/lease.go: what an acquired lease promises, and the slot it takes.
pub mod Loop
use grokbuild_pool.Base.{
  ℕ, zero, suc, ◌+◌, ◌≤◌, ◌<◌, ℤ, pos, pos_part, ◌≤ℤ◌, ltb_ℤ, inc32, Bool, true, false, not, ◌&&◌,
  ◌||◌, ◌≡◌, ◌≢◌, refl, sym, ap, ◌∙◌, subst, List, [], ◌∷◌, Option, none, some, inl, inr, arith,
  if◌then◌else◌, if_split, option_split, result_split, String, ◌==◌, ◌/=◌, string_eq, eq_iff,
  lookup, insert, lookup-insert, Result, ok, err, Option-cases, Result-cases, trim_space,
}
use grokbuild_pool.Hot.Meta.{HotMeta, IdSet, excluded, resolve_now}
use grokbuild_pool.Hot.Index.{Index, get, update_entry, add_inflight, promote}
use grokbuild_pool.Hot.Inflight.{live}
use grokbuild_pool.Hot.Valid.{IsNamed, IsValid}
use grokbuild_pool.Selector.Config.{Float64}
use grokbuild_pool.Selector.Pick.{pick_excluding}
use grokbuild_pool.Selector.Picks.{IsPick, pick_excluding-IsPick}
use grokbuild_pool.Lease.Catalog.{Account, Catalog, CatalogError, get_account, set_proxy}
use grokbuild_pool.Lease.Manager.{
  Manager, Lease, LeaseError, account_usable, assigned, bind_proxy, egress, lease_of, seat, admit,
  requires_proxy, check_model, lease_account, acquire_once, acquire_loop, acquire, is_no_account,
  no_account,
}
use grokbuild_pool.Lease.Released.{IsSame, IsSame-refl, IsSame-trans, promote-IsSame}

-- The account rows stand under their own ids.
abbrev pub IsKeyed : Catalog → Type 0
IsKeyed c = (k : String) (a : Account) → lookup k c.accounts ≡ some a → a.id ≡ k

pub live-add_inflight :
    (idx : Index) (id j : String)
    → live (add_inflight idx id).0 j ≡ (
        if (id == "") || idx.is_closed
        then live idx j
        else if id == j
        then elim (live idx id) [ none ↦ none | some n ↦ some (inc32 n) ]
        else live idx j)
unfolding add_inflight update_entry
live-add_inflight idx id j = elim (Option-cases (lookup id idx.hot)) [
  | inl missing ↦ ground (arith, eq_iff id j)
  | inr (m, at) ↦
      ground
        (arith, eq_iff id j, lookup-insert id j (record m { inflight = inc32 m.inflight }) idx.hot)
]

pub add_inflight_same :
    (idx idx' : Index) (id j : String)
    → IsSame idx idx'
    → live (add_inflight idx' id).0 j ≡ live (add_inflight idx id).0 j
add_inflight_same idx idx' id j s = ground (
  arith,
  live-add_inflight idx id j,
  live-add_inflight idx' id j,
  s.counts j,
  s.counts id,
  s.opened,
)

-- When AddInflight succeeds: the account is known, and its count is the one that grows.
pub live-added :
    (idx : Index) (id : String)
    → (add_inflight idx id).1 ≡ ok tt
    → (n : ℤ) × ((live idx id ≡ some n)
        × ((j : String)
            → live (add_inflight idx id).0 j ≡ (if id == j then some (inc32 n) else live idx j)))
unfolding add_inflight update_entry
live-added idx id done = elim (Option-cases (lookup id idx.hot)) [
  | inl missing ↦ absurd (ground (arith, done, missing))
  | inr (m, at) ↦ (
    m.inflight,
    (
      ground arith,
      λ j. ground (
        arith,
        eq_iff id j,
        lookup-insert id j (record m { inflight = inc32 m.inflight }) idx.hot,
      ),
    ),
  )
]

added_same :
    (idx idx' : Index) (id : String)
    → IsSame idx idx'
    → (add_inflight idx' id).1 ≡ ok tt
    → (add_inflight idx id).1 ≡ ok tt
unfolding add_inflight update_entry
added_same idx idx' id s done = elim (Option-cases (lookup id idx.hot)) [
  | inl missing ↦ absurd (ground (arith, done, missing, s.counts id))
  | inr (m, at) ↦ ground (arith, s.opened)
]

-- What an attempt that started from `m` may have done: a lease is for a usable account of the row
-- it names, with an egress where one is required, and has taken one slot; an error took none.
module _ (f : Float64) where
  pub record IsLeased (now : ℤ) (m m' : Manager f) (id : String) (l : Lease) : Type 0 where
    pub account : Account
    pub row : get_account m.cat id ≡ ok account
    pub usable : account_usable account now ≡ true
    pub is_lease : (l.account_id ≡ account.id) × (l.access_token ≡ account.access_token)
    pub proxied : m.require_proxy ≡ true → l.proxy_url ≢ ""
    pub added : (add_inflight m.idx id).1 ≡ ok tt
    pub slot : (j : String) → live m'.idx j ≡ live (add_inflight m.idx id).0 j

  unfoldable pub Attempted : ℤ → Manager f → String → Manager f × Result LeaseError Lease → Type 0
  Attempted now m id r = elim r.1 [ err e ↦ IsSame m.idx r.0.idx | ok l ↦ IsLeased now m r.0 id l ]

  bind_proxy-IsSame :
      (now : ℤ) (m : Manager f) (id : String) (pair : String × String)
      → IsNamed m.idx.hot
      → IsSame m.idx (bind_proxy f now m id pair).idx
  unfolding bind_proxy get
  bind_proxy-IsSame now m id pair n =
      result_split (λ (r : Manager f). IsSame m.idx r.idx) (set_proxy now m.cat id pair.0 pair.1).1
        (λ _ _.
          option_split (λ (r : Manager f). IsSame m.idx r.idx) (get m.idx id)
            (λ _. IsSame-refl m.idx)
            (λ meta e.
              promote-IsSame m.idx (record meta { proxy_url = pair.0; proxy_mode = pair.1 }) meta
                (ap (λ k. lookup k m.idx.hot) (n id meta e) ∙ e)))
        (λ _ _. IsSame-refl m.idx)

  egress-IsSame :
      (now : ℤ) (m : Manager f) (id : String) (a : Account)
      → IsNamed m.idx.hot
      → IsSame m.idx (egress f now m id a).0.idx
  unfolding egress
  egress-IsSame now m id a n =
      if_split (λ (r : Manager f × (String × String)). IsSame m.idx r.0.idx)
        (trim_space a.proxy_url /= "") (λ _. IsSame-refl m.idx)
        (λ _.
          option_split (λ (r : Manager f × (String × String)). IsSame m.idx r.0.idx)
            (assigned f m id) (λ _. IsSame-refl m.idx)
            (λ pair _. bind_proxy-IsSame now m id pair n))

  egress-require :
      (now : ℤ) (m : Manager f) (id : String) (a : Account)
      → (egress f now m id a).0.require_proxy ≡ m.require_proxy
  unfolding egress bind_proxy
  egress-require now m id a = ground arith

  admit-Attempted :
      (now : ℤ) (m m0 : Manager f) (id : String) (a : Account) (key model : String) (attempt : ℕ)
      → IsNamed m.idx.hot
      → m.idx ≡ m0.idx
      → m.require_proxy ≡ m0.require_proxy
      → get_account m0.cat id ≡ ok a
      → account_usable a now ≡ true
      → Attempted now m0 id (admit f now m id a key model attempt)
  unfolding Attempted admit lease_of seat
  admit-Attempted now m m0 id a key model attempt n same req row fit =
      let (m', pair) = egress f now m id a in
      let start : IsSame m0.idx m.idx = subst (IsSame m0.idx) (sym same) (IsSame-refl m0.idx) in
      let kept : IsSame m0.idx m'.idx =
        IsSame-trans m0.idx m.idx m'.idx start (egress-IsSame now m id a n) in
      let P = λ (r : Manager f × Result LeaseError Lease). Attempted now m0 id r in
      if_split P ((pair.0 == "") && m.require_proxy) {x = (m', err requires_proxy)}
        {y = seat f m' id (lease_of f a pair key model attempt)} (λ _. kept)
        (λ free.
          result_split P (add_inflight m'.idx id).1
            (λ done done_at. record {
              account = a;
              row = row;
              usable = fit;
              is_lease = (refl, refl);
              proxied = λ need. ground (arith, egress-require now m id a, eq_iff pair.0 "");
              added = added_same m0.idx m'.idx id kept done_at;
              slot = λ j. add_inflight_same m0.idx m'.idx id j kept;
            })
            (λ e _. kept))

  check_model-idx :
      (now : ℤ) (m : Manager f) (id model : String)
      → ((check_model f now m id model).0.idx ≡ m.idx)
        × ((check_model f now m id model).0.require_proxy ≡ m.require_proxy)
  unfolding check_model
  check_model-idx now m id model =
      if_split (λ (r : Manager f × Bool). (r.0.idx ≡ m.idx) × (r.0.require_proxy ≡ m.require_proxy))
        (model == "") (λ _. (refl, refl)) (λ _. (refl, refl))

  pub lease_account-Attempted :
      (now : ℤ) (m : Manager f) (id : String) (key model : String) (attempt : ℕ)
      → IsNamed m.idx.hot
      → Attempted now m id (lease_account f now m id key model attempt)
  unfolding Attempted lease_account
  lease_account-Attempted now m id key model attempt n =
      let P = λ (r : Manager f × Result LeaseError Lease). Attempted now m id r in
      let (m', cooling) = check_model f now m id model in
      let (same, req) = check_model-idx now m id model in
      result_split P (get_account m.cat id)
        (λ a row.
          if_split P (not (account_usable a now)) (λ _. IsSame-refl m.idx)
            (λ fit.
              if_split P cooling (λ _. subst (IsSame m.idx) (sym same) (IsSame-refl m.idx))
                (λ _.
                  admit-Attempted now m' m id a key model attempt
                    (subst (λ i. IsNamed i.hot) (sym same) n) same req row (ground arith))))
        (λ e _. IsSame-refl m.idx)

  -- What one attempt promises: an error leaves every live count and the named ids as they were; a
  -- lease comes with an account that could be picked at that time and had not been tried, whose row
  -- is usable, and takes one slot of it, and the account is tried from then on.
  unfoldable pub IsAttempt :
      ℤ → Manager f → IdSet → Manager f × (IdSet × Result LeaseError Lease) → Type 0
  IsAttempt now m tried r = elim r.1.1 [
    | err e ↦ IsSame m.idx r.0.idx
    | ok l ↦
        (id : String) × (IsPick m.idx (resolve_now now now) tried id
          × (IsLeased now m r.0 id l × (excluded r.1.0 id ≡ true)))
  ]

  lease_account-IsAttempt :
      (now : ℤ) (m m' : Manager f) (id : String) (tried : IdSet)
      → m'.idx ≡ m.idx
      → m'.cat ≡ m.cat
      → m'.require_proxy ≡ m.require_proxy
      → IsPick m.idx (resolve_now now now) tried id
      → (r : Manager f × Result LeaseError Lease) → Attempted now m' id r
      → IsAttempt now m tried (r.0, (insert id tt tried, r.1))
  unfolding IsAttempt Attempted excluded
  lease_account-IsAttempt now m m' id tried si sc sr pick (m'', err e) h =
      subst (λ i. IsSame i m''.idx) si h
  lease_account-IsAttempt now m m' id tried si sc sr pick (m'', ok l) h = (
    id,
    (
      pick,
      (
        record {
          account = h.account;
          row = ap (λ c. get_account c id) (sym sc) ∙ h.row;
          usable = h.usable;
          is_lease = h.is_lease;
          proxied = λ need. h.proxied (sr ∙ need);
          added = ap (λ i. (add_inflight i id).1) (sym si) ∙ h.added;
          slot = λ j. h.slot j ∙ ap (λ i. live (add_inflight i id).0 j) si;
        },
        ground (arith, lookup-insert id id tt tried, eq_iff id id),
      ),
    ),
  )

  -- One attempt on a valid index either fails and leaves every live count as it was, or gives a
  -- lease: for an account that could be picked at that time and was not yet tried, whose row is
  -- usable, with a proxy where one is required; it takes one slot of that account and of no other,
  -- and the account counts as tried from then on.
  pub acquire_once-IsAttempt :
      (now : ℤ) (m : Manager f) (key model : String) (tried : IdSet) (attempt : ℕ)
      (draw : ℕ → ℕ → ℕ) (uniform : ℕ → f.F)
      → IsValid m.idx
      → IsAttempt now m tried (acquire_once f now m key model tried attempt draw uniform)
  unfolding acquire_once IsAttempt Attempted excluded
  acquire_once-IsAttempt now m key model tried attempt draw uniform v =
      let P = λ (r : Manager f × (IdSet × Result LeaseError Lease)). IsAttempt now m tried r in
      let (sel', picked) = pick_excluding f now m.idx m.sel now key tried draw uniform in
      let m' = record m { sel = sel' } in
      option_split P picked (λ _. IsSame-refl m.idx)
        (λ id at.
          if_split P (id == "") (λ _. IsSame-refl m.idx)
            (λ _.
              let good = lease_account-Attempted now m' id key model attempt v.sound.named in
              let pick =
                pick_excluding-IsPick f now m.idx m.sel now key tried draw uniform id v at in
              lease_account-IsAttempt now m m' id tried refl refl refl pick
                (lease_account f now m' id key model attempt) good))
