-- ===== src/Lease/Catalog.antt =====
-- internal/catalog: the account rows, PatchHealth and SetProxy. The database answers as SQL says;
-- that it may fail to answer is not modelled.
use grokbuild_pool.Base.{
  ℤ, pos, ◌+ℤ◌, String, Bool, false, List, Option, none, some, if◌then◌else◌, ◌==◌, string_eq,
  lookup, insert, Result, ok, err, trim_space,
}

pub record Account : Type 0 where
  pub id : String
  pub revision : ℤ
  pub identity_key : String
  pub email : String
  pub name : String
  pub priority : ℤ
  pub enabled : Bool
  pub manual_disabled : Bool
  pub lifecycle : String
  pub access_token : String
  pub refresh_token : String
  pub expires_at : ℤ
  pub proxy_mode : String
  pub proxy_url : String
  pub failure_count : ℤ
  pub success_count : ℤ
  pub cooldown_until : ℤ
  pub last_error : String
  pub last_used_at : Option ℤ
  pub last_success_at : Option ℤ
  pub last_refresh_at : Option ℤ
  pub consecutive_unauthorized : ℤ
  pub quarantine_fp : String
  pub purge_after : Option ℤ
  pub billing_json : String
  pub created_at : ℤ
  pub updated_at : ℤ

pub record HealthPatch : Type 0 where
  pub enabled : Option Bool
  pub manual_disabled : Option Bool
  pub lifecycle : Option String
  pub failure_count : Option ℤ
  pub success_count : Option ℤ
  pub cooldown_until : Option ℤ
  pub last_error : Option String
  pub last_used_at : Option ℤ
  pub last_success_at : Option ℤ
  pub last_refresh_at : Option ℤ
  pub consecutive_unauthorized : Option ℤ
  pub quarantine_fp : Option String
  pub purge_after : Option ℤ
  pub billing_json : Option String
  pub clear_last_error : Bool

-- The patch that changes nothing, `catalog.HealthPatch{}`.
abbrev pub no_patch : HealthPatch
no_patch = record {
  enabled = none;
  manual_disabled = none;
  lifecycle = none;
  failure_count = none;
  success_count = none;
  cooldown_until = none;
  last_error = none;
  last_used_at = none;
  last_success_at = none;
  last_refresh_at = none;
  consecutive_unauthorized = none;
  quarantine_fp = none;
  purge_after = none;
  billing_json = none;
  clear_last_error = false;
}

pub data CatalogError : Type 0 where
  not_found cas_conflict closed invalid_input : CatalogError

pub record Catalog : Type 0 where
  pub accounts : List (String × Account)
  pub is_closed : Bool

unfoldable pub get_account : Catalog → String → Result CatalogError Account
get_account c id =
    if c.is_closed
    then err closed
    else if id == ""
    then err invalid_input
    else elim (lookup id c.accounts) [ none ↦ err not_found | some a ↦ ok a ]

-- A field of a patch that is nil leaves the value.
abbrev pub or_keep {ℓ} : {A : Type ℓ} → Option A → A → A
or_keep none old = old
or_keep (some v) old = v

abbrev pub or_keep_some {ℓ} : {A : Type ℓ} → Option A → Option A → Option A
or_keep_some none old = old
or_keep_some (some v) old = some v

unfoldable pub merge : ℤ → Account → HealthPatch → Account
merge clock a p = record a {
  enabled = or_keep p.enabled a.enabled;
  manual_disabled = or_keep p.manual_disabled a.manual_disabled;
  lifecycle = or_keep p.lifecycle a.lifecycle;
  failure_count = or_keep p.failure_count a.failure_count;
  success_count = or_keep p.success_count a.success_count;
  cooldown_until = or_keep p.cooldown_until a.cooldown_until;
  last_error = if p.clear_last_error then "" else or_keep p.last_error a.last_error;
  last_used_at = or_keep_some p.last_used_at a.last_used_at;
  last_success_at = or_keep_some p.last_success_at a.last_success_at;
  last_refresh_at = or_keep_some p.last_refresh_at a.last_refresh_at;
  consecutive_unauthorized = or_keep p.consecutive_unauthorized a.consecutive_unauthorized;
  quarantine_fp = or_keep p.quarantine_fp a.quarantine_fp;
  purge_after = or_keep_some p.purge_after a.purge_after;
  billing_json = or_keep p.billing_json a.billing_json;
  revision = a.revision +ℤ pos 1;
  updated_at = clock;
}

abbrev pub sets_empty_lifecycle : HealthPatch → Bool
sets_empty_lifecycle p = elim p.lifecycle [ none ↦ false | some l ↦ l == "" ]

unfoldable pub patch_health :
    ℤ → Catalog → String → HealthPatch → Catalog × Result CatalogError (Unit {0})
unfolding merge
patch_health clock c id p =
    if c.is_closed
    then (c, err closed)
    else if id == ""
    then (c, err invalid_input)
    else elim (lookup id c.accounts) [
      | none ↦ (c, err not_found)
      | some a ↦
          if sets_empty_lifecycle p
          then (c, err invalid_input)
          else (record c { accounts = insert id (merge clock a p) c.accounts }, ok tt)
    ]

unfoldable pub set_proxy :
    ℤ → Catalog → String → String → String → Catalog × Result CatalogError (Unit {0})
set_proxy clock c given_id url mode =
    let id = trim_space given_id in
    if c.is_closed
    then (c, err closed)
    else if id == ""
    then (c, err invalid_input)
    else elim (lookup id c.accounts) [
      | none ↦ (c, err not_found)
      | some a ↦ (
        record c {
          accounts =
              insert id
                (record a {
                  proxy_url = trim_space url;
                  proxy_mode = if trim_space mode == "" then a.proxy_mode else trim_space mode;
                  revision = a.revision +ℤ pos 1;
                  updated_at = clock;
                })
                c.accounts;
        },
        ok tt,
      )
    ]
