-- ===== src/Catalog/Writes.antt =====
-- internal/catalog/catalog.go: the writes that raise a revision, and what all of them keep.
use grokbuild_pool.Base.{
  ℤ, pos, ◌+ℤ◌, String, Bool, false, List, [], ◌∷◌, none, some, ◌≡◌, refl, subst, arith, if_split,
  option_split, ◌==◌, string_eq, int_eq, lookup, insert, Result, ok, err, result_split, ltb_ℤ, ◌||◌,
  trim_space, eqb_ℤ_iff,
}
use grokbuild_pool.Lease.Catalog.{
  Account, Catalog, HealthPatch, CatalogError, invalid_input, merge, patch_health, set_proxy,
  sets_empty_lifecycle,
}
use grokbuild_pool.Catalog.Rows.{
  Rows, TokenSet, upsert_imported_many, import_loop, import_row, imported_row, new_row, is_complete,
  update_tokens, with_tokens, batch_set_manual_enabled, switch_each, switched, clean_ids,
}

-- The writes that raise the revision of the row they change.
pub data Write : Type 0 where
  patch : ℤ → String → HealthPatch → Write
  proxy : ℤ → String → String → String → Write
  tokens : ℤ → String → ℤ → TokenSet → Write
  imports : ℤ → List Account → Write
  switches : ℤ → List String → Bool → Write

unfoldable pub write : Catalog → Write → Catalog
write c (patch now id p) = (patch_health now c id p).0
write c (proxy now id url mode) = (set_proxy now c id url mode).0
write c (tokens now id expected t) = (update_tokens now c id expected t).0
write c (imports now accounts) = (upsert_imported_many now c accounts).0
write c (switches now ids enable) = (batch_set_manual_enabled now c ids enable).0

unfoldable pub writes : Catalog → List Write → Catalog
unfolding write
writes c [] = c
writes c (w ∷ ws) = writes (write c w) ws

-- P is kept where a row is written at the next revision, under its id, and where one is added.
module _ (P : Rows → Type 0)
    (bump : (j : String) (a row : Account) (rows : Rows)
      → lookup j rows ≡ some a
      → row.revision ≡ a.revision +ℤ pos 1
      → row.id ≡ a.id
      → P rows
      → P (insert j row rows))
    (add : (row : Account) (rows : Rows)
      → lookup row.id rows ≡ none
      → P rows
      → P (insert row.id row rows)) where
  abbrev pub Kept : Catalog → Type 0
  Kept c = (c.is_closed ≡ false) × P c.accounts

  -- What an operation answers with keeps P.
  abbrev Ends {ℓ} : {A : Type ℓ} → Catalog × Result CatalogError A → Type 0
  Ends answer = Kept (answer.0)

  patch-Kept :
      (now : ℤ) (c : Catalog) (j : String) (p : HealthPatch)
      → Kept c
      → Ends (patch_health now c j p)
  unfolding patch_health merge
  patch-Kept now c j p h =
      if_split Ends c.is_closed (λ _. h)
        (λ _.
          if_split Ends (j == "") (λ _. h)
            (λ _.
              option_split Ends (lookup j c.accounts) (λ _. h)
                (λ a e.
                  if_split Ends (sets_empty_lifecycle p) (λ _. h)
                    (λ _. (h.0, bump j a (merge now a p) c.accounts e refl refl h.1)))))

  proxy-Kept :
      (now : ℤ) (c : Catalog) (j url mode : String) → Kept c → Ends (set_proxy now c j url mode)
  unfolding set_proxy
  proxy-Kept now c j url mode h =
      if_split Ends c.is_closed (λ _. h)
        (λ _.
          if_split Ends (trim_space j == "") (λ _. h)
            (λ _.
              option_split Ends (lookup (trim_space j) c.accounts) (λ _. h)
                (λ a e. (h.0, bump (trim_space j) a _ c.accounts e refl refl h.1))))

  tokens-Kept :
      (now : ℤ) (c : Catalog) (j : String) (expected : ℤ) (t : TokenSet)
      → Kept c
      → Ends (update_tokens now c j expected t)
  unfolding update_tokens with_tokens
  tokens-Kept now c j expected t h =
      if_split Ends c.is_closed (λ _. h)
        (λ _.
          if_split Ends (j == "") (λ _. h)
            (λ _.
              if_split Ends ((t.access_token == "") || (t.refresh_token == "")) (λ _. h)
                (λ _.
                  if_split Ends (ltb_ℤ expected (pos 1)) (λ _. h)
                    (λ _.
                      option_split Ends (lookup j c.accounts) (λ _. h)
                        (λ a e.
                          if_split Ends (a.revision == expected)
                            (λ same. (
                              h.0,
                              bump j a (with_tokens now expected t a) c.accounts e
                                  (ground (arith, eqb_ℤ_iff a.revision expected, same)) refl h.1,
                            ))
                            (λ _. h))))))

  import_row-P :
      (now : ℤ) (rows : Rows) (a : Account) → P rows → P (insert a.id (import_row now rows a) rows)
  unfolding imported_row new_row
  import_row-P now rows a =
      option_split (λ (row : Account). P rows → P (insert a.id row rows)) (lookup a.id rows)
        (λ gone. add (new_row now a) rows gone)
        (λ old there. bump a.id old (imported_row now old a) rows there refl refl)

  abbrev Imported : Result CatalogError Rows → Type 0
  Imported (ok rows) = P rows
  Imported (err e) = Unit

  import_loop-P :
      (now : ℤ) (accounts : List Account) (rows : Rows)
      → P rows
      → Imported (import_loop now rows accounts)
  unfolding import_loop
  import_loop-P now [] rows h = h
  import_loop-P now (a ∷ accounts) rows h =
      if_split Imported (is_complete a)
        (λ _.
          import_loop-P now accounts (insert a.id (import_row now rows a) rows)
            (import_row-P now rows a h))
        (λ _. tt)

  imports-Kept :
      (now : ℤ) (c : Catalog) (accounts : List Account)
      → Kept c
      → Ends (upsert_imported_many now c accounts)
  unfolding upsert_imported_many
  imports-Kept now c accounts h =
      let kept = import_loop-P now accounts c.accounts h.1 in
      if_split Ends c.is_closed (λ _. h)
        (λ _.
          result_split Ends (import_loop now c.accounts accounts)
            (λ rows e. (h.0, subst Imported e kept)) (λ _ _. h))

  switch_each-P :
      (now : ℤ) (enable : Bool) (ids : List String) (rows : Rows)
      → P rows
      → P ((switch_each now enable rows ids).0)
  unfolding switch_each switched
  switch_each-P now enable [] rows h = h
  switch_each-P now enable (j ∷ ids) rows h =
      option_split (λ (x : Rows × List String). P (x.0)) (lookup j rows)
        (λ _. switch_each-P now enable ids rows h)
        (λ a e.
          switch_each-P now enable ids (insert j (switched now enable a) rows)
            (bump j a (switched now enable a) rows e refl refl h))

  switches-Kept :
      (now : ℤ) (c : Catalog) (ids : List String) (enable : Bool)
      → Kept c
      → Ends (batch_set_manual_enabled now c ids enable)
  unfolding batch_set_manual_enabled
  switches-Kept now c ids enable h = if_split Ends c.is_closed (λ _. h) (λ _. go (clean_ids [] ids))
    where
      go :
          (clean : List String)
          → Ends (elim clean as (λ _. Catalog × Result CatalogError (List String)) [
            | [] ↦ (c, err invalid_input)
            | j ∷ more ↦
                let (rows, hit) = switch_each now enable c.accounts (j ∷ more) in
                (record c { accounts = rows }, ok hit)
          ])
      go [] = h
      go (j ∷ more) = (h.0, switch_each-P now enable (j ∷ more) c.accounts h.1)

  pub write-Kept : (c : Catalog) (w : Write) → Kept c → Kept (write c w)
  unfolding write
  write-Kept c (patch now j p) h = patch-Kept now c j p h
  write-Kept c (proxy now j url mode) h = proxy-Kept now c j url mode h
  write-Kept c (tokens now j expected t) h = tokens-Kept now c j expected t h
  write-Kept c (imports now accounts) h = imports-Kept now c accounts h
  write-Kept c (switches now ids enable) h = switches-Kept now c ids enable h

  pub writes-Kept : (ws : List Write) (c : Catalog) → Kept c → Kept (writes c ws)
  unfolding writes
  writes-Kept [] c h = h
  writes-Kept (w ∷ ws) c h = writes-Kept ws (write c w) (write-Kept c w h)
