-- ===== src/Refresh/Keyed.antt =====
-- internal/catalog/catalog.go: every row keeps its id, whatever is written.
use grokbuild_pool.Base.{
  ℕ, zero, suc, ◌-◌, ℤ, pos, ◌+ℤ◌, String, List, [], ◌∷◌, none, some, ◌≡◌, refl, arith, string_eq,
  eq_iff, lookup, insert, delete, has, lookup-insert, lookup-delete, ◌∙◌, false, if_split, Result,
  ok, err,
}
use grokbuild_pool.Lease.Catalog.{Account, Catalog, CatalogError, invalid_input}
use grokbuild_pool.Catalog.Rows.{
  Rows, new_row, is_complete, upsert_chunk_size, upsert_loop, upsert_many, clean_ids, delete_each,
  batch_delete,
}
use grokbuild_pool.Catalog.Writes.{Write, write, write-Kept}
use grokbuild_pool.Refresh.Others.{Other, changes, deletes, upserts, other, others}

abbrev pub IsKeyed : Rows → Type 0
IsKeyed rows = (j : String) (a : Account) → lookup j rows ≡ some a → a.id ≡ j

abbrev IsOpenKeyed : Catalog → Type 0
IsOpenKeyed c = (c.is_closed ≡ false) × IsKeyed c.accounts

insert-IsKeyed :
    (k : String) (row : Account) (rows : Rows)
    → row.id ≡ k
    → IsKeyed rows
    → IsKeyed (insert k row rows)
insert-IsKeyed k row rows own keyed j a there =
    ground (arith, lookup-insert k j row rows, eq_iff k j, keyed j a, there, own)

bump-IsKeyed :
    (k : String) (a row : Account) (rows : Rows)
    → lookup k rows ≡ some a
    → row.revision ≡ a.revision +ℤ pos 1
    → row.id ≡ a.id
    → IsKeyed rows
    → IsKeyed (insert k row rows)
bump-IsKeyed k a row rows there later same keyed =
    insert-IsKeyed k row rows (same ∙ keyed k a there) keyed

add-IsKeyed :
    (row : Account) (rows : Rows)
    → lookup row.id rows ≡ none
    → IsKeyed rows
    → IsKeyed (insert row.id row rows)
add-IsKeyed row rows gone keyed = insert-IsKeyed row.id row rows refl keyed

write-IsKeyed : (c : Catalog) (w : Write) → IsOpenKeyed c → IsOpenKeyed (write c w)
write-IsKeyed = write-Kept IsKeyed bump-IsKeyed add-IsKeyed

delete_each-IsKeyed :
    (ids : List String) (rows : Rows) → IsKeyed rows → IsKeyed (delete_each rows ids).0
unfolding delete_each
delete_each-IsKeyed [] rows keyed = keyed
delete_each-IsKeyed (k ∷ ids) rows keyed =
    let rest =
      delete_each-IsKeyed ids (delete k rows)
        (λ j a there. ground (arith, lookup-delete k j rows, eq_iff k j, keyed j a)) in
    if_split (λ (x : Rows × List String). IsKeyed x.0) (has k rows) (λ _. rest) (λ _. rest)

batch_delete-IsKeyed :
    (c : Catalog) (ids : List String) → IsOpenKeyed c → IsOpenKeyed (batch_delete c ids).0
unfolding batch_delete
batch_delete-IsKeyed c ids h =
    if_split (λ (x : Catalog × Result CatalogError (List String)). IsOpenKeyed x.0) c.is_closed
      (λ _. h) (λ _. go (clean_ids [] ids))
  where
    go :
        (clean : List String)
        → IsOpenKeyed
            (elim clean as (λ _. Catalog × Result CatalogError (List String)) [
              | [] ↦ (c, err invalid_input)
              | j ∷ more ↦
                  let (rows, hit) = delete_each c.accounts (j ∷ more) in
                  (record c { accounts = rows }, ok hit)
            ]).0
    go [] = h
    go (j ∷ more) = (h.0, delete_each-IsKeyed (j ∷ more) c.accounts h.1)

upsert_loop-IsKeyed :
    (now : ℤ) (left : ℕ) (done work : Rows) (accounts : List Account)
    → IsKeyed done
    → IsKeyed work
    → IsKeyed (upsert_loop now left done work accounts).0
unfolding upsert_loop new_row
upsert_loop-IsKeyed now left done work [] kd kw = kw
upsert_loop-IsKeyed now zero done work (a ∷ accounts) kd kw =
    if_split (λ (x : Rows × Result CatalogError (Unit {0})). IsKeyed x.0) (is_complete a)
      (λ _.
        upsert_loop-IsKeyed now (upsert_chunk_size - 1) work (insert a.id (new_row now a) work)
          accounts kw (insert-IsKeyed a.id (new_row now a) work refl kw))
      (λ _. kw)
upsert_loop-IsKeyed now (suc left) done work (a ∷ accounts) kd kw =
    if_split (λ (x : Rows × Result CatalogError (Unit {0})). IsKeyed x.0) (is_complete a)
      (λ _.
        upsert_loop-IsKeyed now left done (insert a.id (new_row now a) work) accounts kd
          (insert-IsKeyed a.id (new_row now a) work refl kw))
      (λ _. kd)

upsert_many-IsKeyed :
    (now : ℤ) (c : Catalog) (accounts : List Account)
    → IsOpenKeyed c
    → IsOpenKeyed (upsert_many now c accounts).0
unfolding upsert_many
upsert_many-IsKeyed now c accounts h =
    if_split (λ (x : Catalog × Result CatalogError (Unit {0})). IsOpenKeyed x.0) c.is_closed
      (λ _. h)
      (λ _. (h.0, upsert_loop-IsKeyed now upsert_chunk_size c.accounts c.accounts accounts h.1 h.1))

other-IsKeyed : (c : Catalog) (o : Other) → IsOpenKeyed c → IsOpenKeyed (other c o)
unfolding other
other-IsKeyed c (changes w) h = write-IsKeyed c w h
other-IsKeyed c (deletes ids) h = batch_delete-IsKeyed c ids h
other-IsKeyed c (upserts now accounts) h = upsert_many-IsKeyed now c accounts h

pub others-IsKeyed : (os : List Other) (c : Catalog) → IsOpenKeyed c → IsOpenKeyed (others c os)
unfolding others
others-IsKeyed [] c h = h
others-IsKeyed (o ∷ os) c h = others-IsKeyed os (other c o) (other-IsKeyed c o h)
