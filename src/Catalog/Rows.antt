-- ===== src/Catalog/Rows.antt =====
-- internal/catalog/catalog.go: UpsertMany, UpsertImportedMany, UpdateTokens, BatchSetManualEnabled
-- and BatchDelete. A transaction that is rolled back leaves the rows as they were; the batches of at
-- most 400 ids that one transaction runs are one statement here.
use grokbuild_pool.Base.{
  ℕ, zero, suc, ◌-◌, ℤ, pos, ◌+ℤ◌, ltb_ℤ, leb_ℤ, String, Bool, true, false, not, ◌||◌, List, [],
  ◌∷◌, none, some, if◌then◌else◌, ◌==◌, string_eq, int_eq, lookup, insert, delete, has, Result, ok,
  err, trim_space,
}
use grokbuild_pool.Hot.Meta.{lifecycle_active}
use grokbuild_pool.Lease.Catalog.{
  Account, Catalog, CatalogError, not_found, cas_conflict, closed, invalid_input,
}

pub record TokenSet : Type 0 where
  pub access_token : String
  pub refresh_token : String
  pub expires_at : ℤ

abbrev pub Rows : Type 0
Rows = List (String × Account)

abbrev pub upsert_chunk_size : ℕ
upsert_chunk_size = 500

-- `validateAccountForUpsert`.
abbrev pub is_complete : Account → Bool
is_complete a = not ((a.id == "") || ((a.access_token == "") || (a.refresh_token == "")))

abbrev pub or_default : String → String → String
or_default d s = if s == "" then d else s

abbrev pub or_now : ℤ → ℤ → ℤ
or_now now t = if t == pos 0 then now else t

-- The row that an insert writes.
unfoldable pub new_row : ℤ → Account → Account
new_row now a = record a {
  revision = if leb_ℤ a.revision (pos 0) then pos 1 else a.revision;
  lifecycle = or_default lifecycle_active a.lifecycle;
  created_at = or_now now a.created_at;
  updated_at = or_now now a.updated_at;
}

-- The loop of `UpsertMany` with `left` rows to go in the chunk: `done` is committed, `work` is the
-- open transaction.
unfoldable pub upsert_loop :
    ℤ → ℕ → Rows → Rows → List Account → Rows × Result CatalogError (Unit {0})
unfolding new_row
upsert_loop now left done work [] = (work, ok tt)
upsert_loop now zero done work (a ∷ accounts) =
    let next = insert a.id (new_row now a) work in
    let rest = upsert_loop now (upsert_chunk_size - 1) work next accounts in
    if is_complete a then rest else (work, err invalid_input)
upsert_loop now (suc left) done work (a ∷ accounts) =
    let next = insert a.id (new_row now a) work in
    let rest = upsert_loop now left done next accounts in
    if is_complete a then rest else (done, err invalid_input)

unfoldable pub upsert_many : ℤ → Catalog → List Account → Catalog × Result CatalogError (Unit {0})
unfolding upsert_loop
upsert_many now c accounts =
    if c.is_closed
    then (c, err closed)
    else (let (rows, r) = upsert_loop now upsert_chunk_size c.accounts c.accounts accounts in
        (record c { accounts = rows }, r))

-- The update of a row that is there: credentials and identity, not health or the switches.
unfoldable pub imported_row : ℤ → Account → Account → Account
imported_row now old a = record old {
  revision = old.revision +ℤ pos 1;
  identity_key = or_default old.identity_key a.identity_key;
  email = or_default old.email a.email;
  name = or_default old.name a.name;
  access_token = a.access_token;
  refresh_token = a.refresh_token;
  expires_at = a.expires_at;
  proxy_mode = or_default old.proxy_mode a.proxy_mode;
  proxy_url = or_default old.proxy_url a.proxy_url;
  updated_at = or_now now a.updated_at;
}

abbrev pub import_row : ℤ → Rows → Account → Account
import_row now rows a = elim (lookup a.id rows) [
  | none ↦ new_row now a
  | some old ↦ imported_row now old a
]

unfoldable pub import_loop : ℤ → Rows → List Account → Result CatalogError Rows
unfolding new_row imported_row
import_loop now rows [] = ok rows
import_loop now rows (a ∷ accounts) =
    let rest = import_loop now (insert a.id (import_row now rows a) rows) accounts in
    if is_complete a then rest else err invalid_input

unfoldable pub upsert_imported_many :
    ℤ → Catalog → List Account → Catalog × Result CatalogError (Unit {0})
unfolding import_loop
upsert_imported_many now c accounts =
    if c.is_closed then (c, err closed) else elim (import_loop now c.accounts accounts) [
      | ok rows ↦ (record c { accounts = rows }, ok tt)
      | err e ↦ (c, err e)
    ]

unfoldable pub with_tokens : ℤ → ℤ → TokenSet → Account → Account
with_tokens now expected tokens a = record a {
  access_token = tokens.access_token;
  refresh_token = tokens.refresh_token;
  expires_at = tokens.expires_at;
  revision = expected +ℤ pos 1;
  last_refresh_at = some now;
  updated_at = now;
}

-- A compare-and-swap on the revision.
unfoldable pub update_tokens :
    ℤ → Catalog → String → ℤ → TokenSet → Catalog × Result CatalogError (Unit {0})
unfolding with_tokens
update_tokens now c id expected tokens =
    if c.is_closed
    then (c, err closed)
    else if id == ""
    then (c, err invalid_input)
    else if (tokens.access_token == "") || (tokens.refresh_token == "")
    then (c, err invalid_input)
    else if ltb_ℤ expected (pos 1)
    then (c, err invalid_input)
    else elim (lookup id c.accounts) [
      | none ↦ (c, err not_found)
      | some a ↦
          if a.revision == expected
          then (
            record c { accounts = insert id (with_tokens now expected tokens a) c.accounts },
            ok tt,
          )
          else (c, err cas_conflict)
    ]

abbrev is_in : String → List String → Bool
is_in id [] = false
is_in id (x ∷ ids) = if x == id then true else is_in id ids

-- Trimmed, without the empty ones and without repetitions.
unfoldable pub clean_ids : List String → List String → List String
clean_ids seen [] = []
clean_ids seen (raw ∷ ids) =
    let id = trim_space raw in
    let rest = clean_ids seen ids in
    let more = clean_ids (id ∷ seen) ids in if (id == "") || is_in id seen then rest else id ∷ more

unfoldable pub switched : ℤ → Bool → Account → Account
switched now enable a = record a {
  enabled = enable;
  manual_disabled = not enable;
  revision = a.revision +ℤ pos 1;
  updated_at = now;
}

-- The update of the rows that are there, with their ids.
unfoldable pub switch_each : ℤ → Bool → Rows → List String → Rows × List String
unfolding switched
switch_each now enable rows [] = (rows, [])
switch_each now enable rows (id ∷ ids) = elim (lookup id rows) [
  | none ↦ switch_each now enable rows ids
  | some a ↦
      let (rows', hit) = switch_each now enable (insert id (switched now enable a) rows) ids in
      (rows', id ∷ hit)
]

unfoldable pub batch_set_manual_enabled :
    ℤ → Catalog → List String → Bool → Catalog × Result CatalogError (List String)
unfolding clean_ids switch_each
batch_set_manual_enabled now c ids enable =
    if c.is_closed then (c, err closed) else elim (clean_ids [] ids) [
      | [] ↦ (c, err invalid_input)
      | id ∷ clean ↦
          let (rows, hit) = switch_each now enable c.accounts (id ∷ clean) in
          (record c { accounts = rows }, ok hit)
    ]

unfoldable pub delete_each : Rows → List String → Rows × List String
delete_each rows [] = (rows, [])
delete_each rows (id ∷ ids) =
    let (rows', hit) = delete_each (delete id rows) ids in
    if has id rows then (rows', id ∷ hit) else (rows', hit)

unfoldable pub batch_delete : Catalog → List String → Catalog × Result CatalogError (List String)
unfolding clean_ids delete_each
batch_delete c ids = if c.is_closed then (c, err closed) else elim (clean_ids [] ids) [
  | [] ↦ (c, err invalid_input)
  | id ∷ clean ↦
      let (rows, hit) = delete_each c.accounts (id ∷ clean) in
      (record c { accounts = rows }, ok hit)
]
