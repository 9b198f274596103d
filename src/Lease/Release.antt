-- ===== src/Lease/Release.antt =====
-- internal/lease/lease.go: ending a lease. `dead` says that the caller's context has ended.
use grokbuild_pool.Base.{
  ℕ, ℤ, pos, ◌+ℤ◌, ltb_ℤ, leb_ℤ, eqb_ℤ, String, Bool, true, false, not, ◌&&◌, ◌||◌, ◌∷◌, Option,
  none, some, if◌then◌else◌, ◌==◌, ◌/=◌, string_eq, Result, ok, err, trim_space,
}
use grokbuild_pool.Hot.Meta.{HotMeta, lifecycle_quarantined}
use grokbuild_pool.Hot.Index.{Index, get, sub_inflight, set_cooldown, promote}
use grokbuild_pool.Selector.Config.{Float64}
use grokbuild_pool.Selector.Pick.{clear_sticky_account, clear_sticky_key}
use grokbuild_pool.Lease.Catalog.{
  Account, Catalog, CatalogError, HealthPatch, no_patch, get_account, patch_health, not_found,
}
use grokbuild_pool.Lease.Config.{Config}
use grokbuild_pool.Lease.Cooldown.{decay_failure_count, cooldown_seconds, set_model_cooldown_err}
use grokbuild_pool.Lease.Manager.{
  Manager, Lease, LeaseError, invalid_input, catalog_failed, patch_failed, cancelled,
}

pub record CallResult : Type 0 where
  pub status_code : ℤ
  pub retry_after : ℤ
  pub success : Bool

-- The decimal digits of a status code, `fmt.Sprintf("upstream %d", code)`, are given by `show`.
unfoldable pub last_error_of : (ℤ → String) → ℤ → String
last_error_of show code =
    if eqb_ℤ code (pos 403)
    then "forbidden"
    else if eqb_ℤ code (pos 0)
    then "upstream network error"
    else show code

unfoldable pub applies_cooldown : ℤ → Bool
applies_cooldown code =
    eqb_ℤ code (pos 429) || (eqb_ℤ code (pos 401) || (eqb_ℤ code (pos 402) || eqb_ℤ code (pos 403)))

unfoldable pub clears_sticky : Config → ℤ → Bool
clears_sticky cfg code =
    if eqb_ℤ code (pos 401) || (eqb_ℤ code (pos 402) || eqb_ℤ code (pos 403))
    then true
    else if eqb_ℤ code (pos 429)
    then cfg.clear_sticky_on_429
    else if eqb_ℤ code (pos 0) || leb_ℤ (pos 500) code
    then cfg.clear_sticky_on_5xx
    else false

-- The streak of 403 answers, this one included.
unfoldable pub forbidden_streak : Account → ℤ
forbidden_streak cur =
    if cur.last_error == "forbidden"
    then (if ltb_ℤ (cur.failure_count +ℤ pos 1) (pos 2) then pos 2 else cur.failure_count +ℤ pos 1)
    else pos 1

unfoldable pub quarantines : Config → Account → ℤ → Bool
unfolding forbidden_streak
quarantines cfg cur code =
    (eqb_ℤ code (pos 401)
      && leb_ℤ cfg.unauthorized_quarantine_after (cur.consecutive_unauthorized +ℤ pos 1))
    || ((eqb_ℤ code (pos 403)
          && (ltb_ℤ (pos 0) cfg.forbidden_quarantine_after
              && leb_ℤ cfg.forbidden_quarantine_after (forbidden_streak cur)))
        || (eqb_ℤ code (pos 402) && cfg.quarantine_on_payment_required))

-- A 429 of a known model cools the model and not the account.
abbrev pub cools_model : ℤ → String → Bool
cools_model code model = eqb_ℤ code (pos 429) && (trim_space model /= "")

unfoldable pub failure_patch : (ℤ → String) → Config → Account → ℤ → String → ℤ → ℤ → HealthPatch
unfolding last_error_of applies_cooldown quarantines
failure_patch show cfg cur code model now until = record no_patch {
  failure_count = some (cur.failure_count +ℤ pos 1);
  last_used_at = some now;
  last_error = some (last_error_of show code);
  cooldown_until =
      if applies_cooldown code && not (cools_model code model) then some until else none;
  consecutive_unauthorized =
      if eqb_ℤ code (pos 401) then some (cur.consecutive_unauthorized +ℤ pos 1) else none;
  lifecycle = if quarantines cfg cur code then some lifecycle_quarantined else none;
  enabled = if quarantines cfg cur code then some false else none;
}

-- `if meta, ok := m.idx.Get(id); ok { ...; m.idx.Promote(meta) }`.
unfoldable pub sync_meta : Index → String → (HotMeta → HotMeta) → Index
sync_meta idx id change = elim (get idx id) [
  | none ↦ idx
  | some meta ↦ (promote idx (change meta)).0
]

abbrev pub quarantine_meta : ℤ → HotMeta → HotMeta
quarantine_meta until meta = record meta {
  enabled = false;
  lifecycle = lifecycle_quarantined;
  cooldown_until = until;
}

abbrev pub or_else {ℓ} : {A : Type ℓ} → Option A → A → A
or_else none d = d
or_else (some a) d = a

-- What the hot meta takes from the patch.
unfoldable pub meta_after : HealthPatch → ℤ → HotMeta → HotMeta
meta_after p fc meta = record meta {
  failure_score = fc;
  cooldown_until = or_else p.cooldown_until meta.cooldown_until;
  enabled = or_else p.enabled meta.enabled;
  lifecycle = or_else p.lifecycle meta.lifecycle;
}

module _ (f : Float64) where
  unfoldable pub clear_sticky : Manager f → Lease → Manager f
  clear_sticky m l =
      let sel' = clear_sticky_account f m.sel l.account_id in
      record m { sel = if l.sticky_key == "" then sel' else clear_sticky_key f sel' l.sticky_key }

  unfoldable pub clear_sticky_if : Bool → Manager f → Lease → Manager f
  unfolding clear_sticky
  clear_sticky_if yes_ m l = if yes_ then clear_sticky m l else m

  -- The cooldown of the model or of the account, and the quarantine in the hot index.
  unfoldable pub cool_down : Manager f → Lease → Account → ℤ → ℤ → Manager f
  unfolding sync_meta quarantines
  cool_down m l cur code until =
      let cooled =
        if cools_model code l.model
        then record m {
          model_cool = set_model_cooldown_err m.model_cool l.account_id l.model until;
        }
        else record m { idx = (set_cooldown m.idx l.account_id until).0 } in
      if quarantines m.cfg cur code
      then record cooled { idx = sync_meta cooled.idx l.account_id (quarantine_meta until) }
      else cooled

  unfoldable pub report_proxy : (ℤ → String) → Manager f → Lease → ℤ → Manager f
  unfolding last_error_of
  report_proxy show m l code =
      if (l.proxy_url /= "")
        && (eqb_ℤ code (pos 0) || (eqb_ℤ code (pos 403) || leb_ℤ (pos 500) code))
      then record m { reported = (l.proxy_url, last_error_of show code) ∷ m.reported }
      else m

  abbrev pub Answer : Type 0
  Answer = Manager f × Result LeaseError (Unit {0})

  -- The patch of the row, and the hot meta after it. A row that is gone is no error.
  unfoldable pub store_health : ℤ → Manager f → String → HealthPatch → (HotMeta → HotMeta) → Answer
  unfolding sync_meta
  store_health now m id p change =
      let (cat', saved) = patch_health now m.cat id p in
      elim saved [
        | err e ↦ (m, elim e [ not_found ↦ ok tt | _ ↦ err patch_failed ])
        | ok done ↦ (record m { cat = cat'; idx = sync_meta m.idx id change }, ok tt)
      ]

  unfoldable pub success_patch : Catalog → String → ℤ → HealthPatch
  success_patch cat id now = record no_patch {
    success_count =
        some (elim (get_account cat id) [ err e ↦ pos 1 | ok cur ↦ cur.success_count +ℤ pos 1 ]);
    failure_count = some (elim (get_account cat id) [
      | err e ↦ pos 0
      | ok cur ↦ decay_failure_count cur.failure_count
    ]);
    last_success_at = some now;
    last_used_at = some now;
    consecutive_unauthorized = some (pos 0);
    clear_last_error = true;
  }

  unfoldable pub release_success : ℤ → Manager f → Lease → Answer
  unfolding success_patch store_health
  release_success now m l =
      let p = success_patch m.cat l.account_id now in
      store_health now m l.account_id p
        (λ meta. record meta { failure_score = or_else p.failure_count (pos 0) })

  -- The failure of a known row.
  unfoldable pub fail_account :
      (ℤ → String) → (ℕ → ℕ) → ℤ → Manager f → Lease → Account → CallResult → Answer
  unfolding cool_down clear_sticky_if report_proxy store_health failure_patch meta_after
  fail_account show draw now m l cur r =
      let code = r.status_code in
      let fc = cur.failure_count +ℤ pos 1 in
      let until = now +ℤ cooldown_seconds draw m.cfg code r.retry_after fc in
      let p = failure_patch show m.cfg cur code l.model now until in
      let cooled = if applies_cooldown code then cool_down m l cur code until else m in
      let cleared = clear_sticky_if (clears_sticky m.cfg code) cooled l in
      store_health now (report_proxy show cleared l code) l.account_id p (meta_after p fc)

  -- The failure of a row that cannot be read: one that is gone is no error.
  unfoldable pub fail_unknown : CatalogError → Manager f → Lease → ℤ → Answer
  unfolding clear_sticky_if clears_sticky
  fail_unknown not_found m l code = (clear_sticky_if (clears_sticky m.cfg code) m l, ok tt)
  fail_unknown _ m l code = (m, err catalog_failed)

  unfoldable pub release_failure :
      (ℤ → String) → (ℕ → ℕ) → ℤ → Manager f → Lease → CallResult → Answer
  unfolding fail_account fail_unknown
  release_failure show draw now m l r = elim (get_account m.cat l.account_id) [
    | ok cur ↦ fail_account show draw now m l cur r
    | err e ↦ fail_unknown e m l r.status_code
  ]

  unfoldable pub release :
      (ℤ → String) → (ℕ → ℕ) → ℤ → Bool → Manager f → Lease → CallResult → Answer
  unfolding release_success release_failure
  release show draw now dead m l r =
      if l.account_id == ""
      then (m, err invalid_input)
      else (let m' = record m { idx = (sub_inflight m.idx l.account_id).0 } in
          if dead
          then (m', err cancelled)
          else if r.success
          then release_success now m' l
          else release_failure show draw now m' l r)
