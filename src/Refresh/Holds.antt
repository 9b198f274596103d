-- ===== src/Refresh/Holds.antt =====
-- internal/refresh/service.go: the row that holds the tokens of an answer.
use grokbuild_pool.Base.{
  ℤ, pos, String, Bool, true, false, some, ◌≡◌, ◌≢◌, refl, sym, subst, arith, if_split, ◌==◌,
  string_eq, eq_iff, lookup, insert, lookup-insert, Result, ok,
}
use grokbuild_pool.Lease.Catalog.{
  Account, Catalog, CatalogError, HealthPatch, no_patch, get_account, merge,
}
use grokbuild_pool.Lease.Released.Quarantine.{patch_health_known}
use grokbuild_pool.Catalog.Rows.{TokenSet, update_tokens, with_tokens}
use grokbuild_pool.Catalog.Cas.{update_tokens-written}
use grokbuild_pool.Refresh.Policy.{RefreshError, on_refresh_success, of_catalog}
use grokbuild_pool.Refresh.Service.{tokens_of}

-- The account's row holds these tokens, and they have an access token.
abbrev pub HoldsRow : Catalog → String → TokenSet → Type 0
HoldsRow c id t =
    (a : Account) × (get_account c id ≡ ok a) × (tokens_of a ≡ t) × (t.access_token ≢ "")

pub get_account-found :
    (c : Catalog) (id : String) (a : Account)
    → get_account c id ≡ ok a
    → ((id == "") ≡ false) × (c.is_closed ≡ false) × (lookup id c.accounts ≡ some a)
unfolding get_account
get_account-found c id a h = (ground (arith, h), ground (arith, h), ground (arith, h))

pub get_account-insert :
    (c : Catalog) (id : String) (row : Account)
    → c.is_closed ≡ false
    → (id == "") ≡ false
    → get_account (record c { accounts = insert id row c.accounts }) id ≡ ok row
unfolding get_account
get_account-insert c id row opened named =
    rw (opened, named) ground (arith, lookup-insert id id row c.accounts, eq_iff id id)

pub update_tokens-HoldsRow :
    (now : ℤ) (c : Catalog) (id : String) (expected : ℤ) (t : TokenSet)
    → (update_tokens now c id expected t).1 ≡ ok tt
    → t.access_token ≢ ""
    → HoldsRow (update_tokens now c id expected t).0 id t
unfolding with_tokens
update_tokens-HoldsRow now c id expected t won access =
    let (a, e, found, opened, named, positive, same) =
      update_tokens-written now c id expected t won in
    rw same (
      with_tokens now expected t a,
      get_account-insert c id (with_tokens now expected t a) opened named,
      refl,
      access,
    )

pub on_refresh_success-HoldsRow :
    (dead : Bool) (now : ℤ) (c : Catalog) (id : String) (t : TokenSet)
    → HoldsRow c id t
    → HoldsRow (on_refresh_success dead now c id).0 id t
unfolding on_refresh_success merge
on_refresh_success-HoldsRow dead now c id t (a, row, same, access) =
    let p : HealthPatch = record no_patch {
      consecutive_unauthorized = some (pos 0);
      clear_last_error = true;
    } in
    let (named, opened, there) = get_account-found c id a row in
    let patched =
      patch_health_known now c id p a (λ e. ground (arith, named, eq_iff id "", e)) row refl in
    rw named (
      if_split (λ (x : Catalog × Result RefreshError (Unit {0})). HoldsRow (x.0) id t) dead
        (λ _. (a, row, same, access))
        (λ _.
          subst (λ (x : Catalog × Result CatalogError (Unit {0})). HoldsRow ((of_catalog x).0) id t)
            (sym patched)
            (merge now a p, get_account-insert c id (merge now a p) opened named, same, access)))
