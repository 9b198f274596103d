-- ===== src/Catalog/Tests.antt =====
-- internal/catalog: concrete inputs.
use grokbuild_pool.Base.{
  ℤ, pos, String, true, false, List, [], ◌∷◌, Option, none, some, ◌≡◌, ◌≢◌, refl, arith, string_eq,
  eq_iff, lookup, delete, trim_space, keep, take, ok, err,
}
use grokbuild_pool.Lease.Catalog.{Account, Catalog, cas_conflict, no_patch}
use grokbuild_pool.Catalog.Rows.{
  TokenSet, update_tokens, upsert_imported_many, clean_ids, batch_delete, delete_each,
}
use grokbuild_pool.Catalog.Writes.{patch, imports, Write}
use grokbuild_pool.Catalog.Cas.{meanwhile, stale_update-refused}
use grokbuild_pool.Catalog.Imports.{KeepsHealth, upsert_imported_many-KeepsHealth}
use grokbuild_pool.Catalog.Listing.{
  list_eligible, page_rows, order_by, place, is_before, may_serve, hot_meta,
}
use grokbuild_pool.Catalog.Sorted.{IsTable}
use grokbuild_pool.Hot.Index.{Index, new}
use grokbuild_pool.Hot.Load.{load_eligible, load_commit}
use grokbuild_pool.Catalog.Batches.{queried}
use grokbuild_pool.Catalog.Loaded.{best_metas, load_eligible-best}
use grokbuild_pool.Catalog.Pages.{list_eligible-pages}

-- An account with its id, revision and priority.
abbrev pub account : String → ℤ → ℤ → Account
account id revision priority = record {
  id = id;
  revision = revision;
  identity_key = "";
  email = "";
  name = "";
  priority = priority;
  enabled = true;
  manual_disabled = false;
  lifecycle = "active";
  access_token = "old";
  refresh_token = "again";
  expires_at = pos 10;
  proxy_mode = "";
  proxy_url = "";
  failure_count = pos 0;
  success_count = pos 0;
  cooldown_until = pos 0;
  last_error = "";
  last_used_at = none;
  last_success_at = none;
  last_refresh_at = none;
  consecutive_unauthorized = pos 0;
  quarantine_fp = "";
  purge_after = none;
  billing_json = "";
  created_at = pos 1;
  updated_at = pos 1;
}

abbrev pub cat : Catalog
cat = record {
  accounts =
      ("a", account "a" (pos 3) (pos 1))
      ∷ ("b", account "b" (pos 1) (pos 5))
      ∷ ("c", account "c" (pos 1) (pos 1))
      ∷ [];
  is_closed = false;
}

abbrev pub fresh : TokenSet
fresh = record { access_token = "new"; refresh_token = "next"; expires_at = pos 900 }

-- A patch and an import come between the two updates.
abbrev between : List Write
between = patch (pos 8) "a" no_patch ∷ imports (pos 8) (account "a" (pos 0) (pos 0) ∷ []) ∷ []

pub named_new : ◌≢◌ {A = String} "new" ""
named_new e = ground (arith, eq_iff "new" "", e)

pub named_next : ◌≢◌ {A = String} "next" ""
named_next e = ground (arith, eq_iff "next" "", e)

won : (update_tokens (pos 7) cat "a" (pos 3) fresh).1 ≡ ok tt
unfolding update_tokens lookup
won = refl

stale_update-refused_example :
    update_tokens (pos 9) (meanwhile (pos 7) cat "a" (pos 3) fresh between) "a" (pos 3) fresh
    ≡ (meanwhile (pos 7) cat "a" (pos 3) fresh between, err cas_conflict)
stale_update-refused_example =
    stale_update-refused (pos 7) (pos 9) cat "a" (pos 3) fresh fresh between won named_new
      named_next

there_a : lookup "a" cat.accounts ≡ some (account "a" (pos 3) (pos 1))
unfolding lookup
there_a = refl

upsert_imported_many-KeepsHealth_example :
    KeepsHealth "a"
      (account "a" (pos 3) (pos 1))
      (upsert_imported_many (pos 8) cat (account "a" (pos 0) (pos 0) ∷ [])).0.accounts
upsert_imported_many-KeepsHealth_example =
    upsert_imported_many-KeepsHealth (pos 8) cat (account "a" (pos 0) (pos 0) ∷ []) "a"
      (account "a" (pos 3) (pos 1)) there_a

abbrev no_probe : String → Option ℤ
no_probe json = none

cat-IsTable : IsTable cat.accounts
unfolding lookup
cat-IsTable = (
  (
    (refl, λ e. ground (arith, eq_iff "a" "", e)),
    (
      (refl, λ e. ground (arith, eq_iff "b" "", e)),
      ((refl, λ e. ground (arith, eq_iff "c" "", e)), tt),
    ),
  ),
  (refl, (refl, (refl, tt))),
)

first_page :
    list_eligible no_probe (pos 5) cat (pos 2) ""
    ≡ ok (hot_meta (account "b" (pos 1) (pos 5)) ∷ hot_meta (account "a" (pos 3) (pos 1)) ∷ [])
unfolding list_eligible page_rows order_by place is_before may_serve keep take
first_page = refl

second_page :
    list_eligible no_probe (pos 5) cat (pos 1) "a"
    ≡ ok (hot_meta (account "c" (pos 1) (pos 1)) ∷ [])
unfolding list_eligible page_rows order_by place is_before may_serve keep take lookup
second_page = refl

list_eligible-pages_example :
    list_eligible no_probe (pos 5) cat (pos 3) ""
    ≡ ok (
        hot_meta (account "b" (pos 1) (pos 5))
        ∷ hot_meta (account "a" (pos 3) (pos 1))
        ∷ hot_meta (account "c" (pos 1) (pos 1))
        ∷ [])
unfolding hot_meta
list_eligible-pages_example =
    list_eligible-pages no_probe (pos 5) cat 1 0 "" (hot_meta (account "b" (pos 1) (pos 5)) ∷ [])
      (hot_meta (account "c" (pos 1) (pos 1)) ∷ []) (hot_meta (account "a" (pos 3) (pos 1)))
      cat-IsTable first_page second_page

-- A deletion takes each id once, trimmed, and says which were there.
batch_delete_test : (batch_delete cat (" b " ∷ "b" ∷ "z" ∷ [])).1 ≡ ok ("b" ∷ [])
unfolding batch_delete clean_ids trim_space delete_each lookup delete
batch_delete_test = refl

-- An empty hot set with room for two.
abbrev hot : Index
hot = new (pos 2) (pos 0)

hot_live : hot.is_closed ≡ false
unfolding new
hot_live = refl

load_eligible-best_example :
    load_eligible (queried no_probe (pos 5) cat) hot
    ≡ load_commit hot (best_metas no_probe (pos 5) cat hot)
load_eligible-best_example = load_eligible-best no_probe (pos 5) cat hot cat-IsTable refl hot_live
