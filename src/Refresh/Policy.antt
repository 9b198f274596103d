-- ===== src/Refresh/Policy.antt =====
-- internal/refresh/policy.go: the default policy.
use Prim.Native.Char.{len_utf8}
use grokbuild_pool.Base.{
  ℕ, ◌-◌, ℤ, pos, ◌+ℤ◌, ltb, ltb_ℤ, leb_ℤ, String, Bool, true, false, ◌&&◌, Option, none, some,
  if◌then◌else◌, ◌==◌, string_eq, Result, ok, err,
}
use grokbuild_pool.Hot.Meta.{lifecycle_quarantined}
use grokbuild_pool.Lease.Catalog.{
  Account, Catalog, CatalogError, HealthPatch, no_patch, get_account, patch_health,
}
use grokbuild_pool.Refresh.Config.{
  Rate, Config, normalize, default_cooldown_on_fail_sec, default_quarantine_after,
}

pub data RefreshError : Type 0 where
  cancelled invalid_input : RefreshError
  oauth_failed : String → RefreshError
  catalog_failed not_persisted : CatalogError → RefreshError

pub record DefaultPolicy : Type 0 where
  pub cooldown_sec : ℤ
  pub cooldown_cap_sec : ℤ
  pub quarantine_after : ℤ

unfoldable pub new_default_policy : (f : Rate) → Config f → DefaultPolicy
unfolding normalize
new_default_policy f given =
    let cfg = normalize f given in
    record {
      cooldown_sec = cfg.cooldown_on_fail_sec;
      cooldown_cap_sec = cfg.cooldown_cap_sec;
      quarantine_after = cfg.quarantine_after;
    }

unfoldable pub cool_for : DefaultPolicy → ℤ
cool_for p =
    let cool =
      if leb_ℤ p.cooldown_sec (pos 0) then default_cooldown_on_fail_sec else p.cooldown_sec in
    if ltb_ℤ (pos 0) p.cooldown_cap_sec && ltb_ℤ p.cooldown_cap_sec cool
    then p.cooldown_cap_sec
    else cool

-- The characters of the first n bytes. Where the cut falls inside a character, the source keeps a
-- part of it, and this none.
unfoldable pub clip : ℕ → String → String
clip n String.[] = String.[]
clip n (String.◌∷◌ c s) =
    let rest = clip (n - len_utf8 c) s in
    if ltb n (len_utf8 c) then String.[] else String.◌∷◌ c rest

abbrev pub onto : String → String → String
onto String.[] t = t
onto (String.◌∷◌ c s) t = String.◌∷◌ c (onto s t)

unfoldable pub failure_message : Option String → String
unfolding clip
failure_message none = "refresh failed"
failure_message (some text) = clip 240 (onto "refresh failed: " text)

unfoldable pub threshold : DefaultPolicy → ℤ
threshold p =
    if leb_ℤ p.quarantine_after (pos 0) then default_quarantine_after else p.quarantine_after

unfoldable pub refresh_failure_patch : DefaultPolicy → ℤ → Account → Option String → HealthPatch
unfolding cool_for failure_message threshold
refresh_failure_patch p now cur text =
    let cu = cur.consecutive_unauthorized +ℤ pos 1 in
    let patch : HealthPatch = record no_patch {
      failure_count = some (cur.failure_count +ℤ pos 1);
      cooldown_until = some (now +ℤ cool_for p);
      last_error = some (failure_message text);
      consecutive_unauthorized = some cu;
    } in
    if leb_ℤ (threshold p) cu
    then record patch { lifecycle = some lifecycle_quarantined; enabled = some false }
    else patch

abbrev pub of_catalog {ℓ} :
    {A : Type ℓ} → Catalog × Result CatalogError A → Catalog × Result RefreshError A
of_catalog (c, ok a) = (c, ok a)
of_catalog (c, err e) = (c, err (catalog_failed e))

-- `dead` says whether the context has ended.
unfoldable pub on_refresh_failure :
    DefaultPolicy
    → Bool
    → ℤ
    → Catalog
    → String
    → Option String
    → Catalog × Result RefreshError (Unit {0})
unfolding refresh_failure_patch
on_refresh_failure p dead now c id text =
    if id == "" then (c, ok tt) else if dead then (c, err cancelled) else elim (get_account c id) [
      | err e ↦ (c, err (catalog_failed e))
      | ok cur ↦ of_catalog (patch_health now c id (refresh_failure_patch p now cur text))
    ]

unfoldable pub on_refresh_success :
    Bool → ℤ → Catalog → String → Catalog × Result RefreshError (Unit {0})
on_refresh_success dead now c id =
    if id == ""
    then (c, ok tt)
    else if dead
    then (c, err cancelled)
    else of_catalog (
        patch_health now c id
          (record no_patch { consecutive_unauthorized = some (pos 0); clear_last_error = true }))
