-- ===== src/Catalog/Imports.antt =====
-- internal/catalog/catalog.go (UpsertImportedMany): what an import leaves alone.
use grokbuild_pool.Base.{
  ℤ, pos, +ℤ_parts, ◌≤ℤ◌, String, List, [], ◌∷◌, some, ◌≡◌, refl, ap, subst, arith, if_split,
  result_split, Bool-cases, inl, inr, ◌==◌, string_eq, lookup, insert, lookup-insert, Result, ok,
  err, eq_iff,
}
use grokbuild_pool.Lease.Catalog.{Account, Catalog, CatalogError}
use grokbuild_pool.Catalog.Rows.{
  Rows, upsert_imported_many, import_loop, import_row, imported_row, is_complete,
}

-- a with the credentials, the identity, the proxy, the revision and the time of b.
abbrev pub credentials_of : Account → Account → Account
credentials_of b a = record a {
  revision = b.revision;
  identity_key = b.identity_key;
  email = b.email;
  name = b.name;
  access_token = b.access_token;
  refresh_token = b.refresh_token;
  expires_at = b.expires_at;
  proxy_mode = b.proxy_mode;
  proxy_url = b.proxy_url;
  updated_at = b.updated_at;
}

-- The rows have one under id that differs from a in these alone, and is no older.
abbrev pub KeepsHealth : String → Account → Rows → Type 0
KeepsHealth id a rows =
    (b : Account) × (lookup id rows ≡ some b)
    × (b ≡ credentials_of b a)
    × (a.revision ≤ℤ b.revision)

module _ (id : String) (a : Account) where
  import_row-KeepsHealth :
      (now : ℤ) (rows : Rows) (new : Account)
      → KeepsHealth id a rows
      → KeepsHealth id a (insert new.id (import_row now rows new) rows)
  unfolding imported_row
  import_row-KeepsHealth now rows new (b, there, same, old) = elim (Bool-cases (new.id == id)) [
    | inl e ↦
        let found : lookup new.id rows ≡ some b = ground (arith, eq_iff new.id id, e, there) in
        (
          imported_row now b new,
          ground (arith, lookup-insert new.id id (import_row now rows new) rows, e, found),
          ap (credentials_of (imported_row now b new)) same,
          omega (arith, +ℤ_parts b.revision (pos 1), old),
        )
    | inr e ↦ (
      b,
      ground (arith, lookup-insert new.id id (import_row now rows new) rows, e, there),
      same,
      old,
    )
  ]

  abbrev Imported : Result CatalogError Rows → Type 0
  Imported (ok rows) = KeepsHealth id a rows
  Imported (err e) = Unit

  import_loop-KeepsHealth :
      (now : ℤ) (accounts : List Account) (rows : Rows)
      → KeepsHealth id a rows
      → Imported (import_loop now rows accounts)
  unfolding import_loop
  import_loop-KeepsHealth now [] rows h = h
  import_loop-KeepsHealth now (new ∷ accounts) rows h =
      if_split Imported (is_complete new)
        (λ _.
          import_loop-KeepsHealth now accounts (insert new.id (import_row now rows new) rows)
            (import_row-KeepsHealth now rows new h))
        (λ _. tt)

-- An import of any accounts, whether it succeeds or not, leaves every row that was there with its
-- switches, lifecycle, cooldown, counts, last error, times and billing as they were: at most the
-- tokens, the identity, the proxy, the revision and the time of the update change, and the revision
-- does not fall.
pub upsert_imported_many-KeepsHealth :
    (now : ℤ) (c : Catalog) (accounts : List Account) (id : String) (a : Account)
    → lookup id c.accounts ≡ some a
    → KeepsHealth id a (upsert_imported_many now c accounts).0.accounts
unfolding upsert_imported_many
upsert_imported_many-KeepsHealth now c accounts id a there =
    let P : Catalog × Result CatalogError (Unit {0}) → Type 0 =
      λ x. KeepsHealth id a (x.0).accounts in
    let start : KeepsHealth id a c.accounts = (a, there, refl, omega arith) in
    if_split P c.is_closed (λ _. start)
      (λ _.
        result_split P (import_loop now c.accounts accounts)
          (λ rows e.
            subst (Imported id a) e (import_loop-KeepsHealth id a now accounts c.accounts start))
          (λ _ _. start))
