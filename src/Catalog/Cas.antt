-- ===== src/Catalog/Cas.antt =====
-- internal/catalog/catalog.go: what the revision check of UpdateTokens is worth among the other
-- writes.
use grokbuild_pool.Base.{
  ℤ, pos, ◌+ℤ◌, +ℤ_parts, ◌<ℤ◌, ◌≤ℤ◌, String, false, List, none, some, ◌≡◌, ◌≢◌, arith,
  Option-cases, Bool-cases, inl, inr, ◌==◌, string_eq, int_eq, lookup, insert, lookup-insert, ok,
  err, eq_iff, eqb_ℤ_iff,
}
use grokbuild_pool.Lease.Catalog.{Account, Catalog, cas_conflict}
use grokbuild_pool.Catalog.Rows.{Rows, TokenSet, update_tokens, with_tokens}
use grokbuild_pool.Catalog.Writes.{Write, writes, writes-Kept}

module _ (r : ℤ) (id : String) where
  -- The row is there, at a later revision than r.
  abbrev pub IsPast : Rows → Type 0
  IsPast rows = (a : Account) × (lookup id rows ≡ some a) × (r <ℤ a.revision)

  abbrev pub IsOpenPast : Catalog → Type 0
  IsOpenPast c = (c.is_closed ≡ false) × IsPast c.accounts

  insert-IsPast :
      (j : String) (row : Account) (rows : Rows)
      → ((old : Account) → lookup j rows ≡ some old → r <ℤ old.revision → r <ℤ row.revision)
      → IsPast rows
      → IsPast (insert j row rows)
  insert-IsPast j row rows up (a, there, past) = elim (Bool-cases (j == id)) [
    | inl e ↦ (
      row,
      ground (arith, lookup-insert j id row rows),
      up a (ground (arith, eq_iff j id, there, e)) past,
    )
    | inr e ↦ (a, ground (arith, lookup-insert j id row rows), past)
  ]

  later : (a b : Account) → b.revision ≡ a.revision +ℤ pos 1 → r <ℤ a.revision → r <ℤ b.revision
  later a b e h = rw e (omega (arith, +ℤ_parts a.revision (pos 1), h))

  -- A write of one row, at the revision after the one that was read.
  bump-IsPast :
      (j : String) (a row : Account) (rows : Rows)
      → lookup j rows ≡ some a
      → row.revision ≡ a.revision +ℤ pos 1
      → row.id ≡ a.id
      → IsPast rows
      → IsPast (insert j row rows)
  bump-IsPast j a row rows there e same past =
      insert-IsPast j row rows (λ old found h. later old row (ground (arith, there, found, e)) h)
        past

  add-IsPast :
      (row : Account) (rows : Rows)
      → lookup row.id rows ≡ none
      → IsPast rows
      → IsPast (insert row.id row rows)
  add-IsPast row rows gone past =
      insert-IsPast row.id row rows (λ old there. absurd (ground (arith, gone, there))) past

  pub writes-IsOpenPast : (ws : List Write) (c : Catalog) → IsOpenPast c → IsOpenPast (writes c ws)
  writes-IsOpenPast = writes-Kept IsPast bump-IsPast add-IsPast

-- What a token update that succeeds has found, and what it leaves.
abbrev pub TokensWritten : ℤ → Catalog → String → ℤ → TokenSet → Type 0
TokensWritten now c id expected t =
    (a : Account) × (lookup id c.accounts ≡ some a)
    × (a.revision ≡ expected)
    × (c.is_closed ≡ false)
    × ((id == "") ≡ false)
    × (pos 1 ≤ℤ expected)
    × (update_tokens now c id expected t
        ≡ (record c { accounts = insert id (with_tokens now expected t a) c.accounts }, ok tt))

module _ (now : ℤ) (c : Catalog) (id : String) (expected : ℤ) (t : TokenSet) where
  pub update_tokens-written :
      (update_tokens now c id expected t).1 ≡ ok tt → TokensWritten now c id expected t
  unfolding update_tokens
  update_tokens-written won = elim (Option-cases (lookup id c.accounts)) [
    | inl e ↦ absurd (ground (arith, won, e))
    | inr (a, e) ↦ elim (Bool-cases (a.revision == expected)) [
      | inl same ↦ (
        a,
        e,
        ground (arith, eqb_ℤ_iff a.revision expected, same),
        ground (arith, won, e),
        ground (arith, won, e),
        ground (arith, won, e),
        ground (arith, won, e, same),
      )
      | inr other ↦ absurd (ground (arith, won, e, other))
    ]
  ]

  -- It leaves the row past the revision that it expected.
  pub written-IsOpenPast :
      TokensWritten now c id expected t
      → IsOpenPast expected id (update_tokens now c id expected t).0
  unfolding with_tokens
  written-IsOpenPast (a, e, found, opened, named, positive, same) =
      let next = with_tokens now expected t a in
      rw same (
        opened,
        (
          next,
          ground (arith, lookup-insert id id next c.accounts, eq_iff id id),
          omega (arith, +ℤ_parts expected (pos 1)),
        ),
      )

  -- Past that revision, the update is refused.
  past-refused :
      t.access_token ≢ ""
      → t.refresh_token ≢ ""
      → (id == "") ≡ false
      → pos 1 ≤ℤ expected
      → IsOpenPast expected id c
      → update_tokens now c id expected t ≡ (c, err cas_conflict)
  unfolding update_tokens
  past-refused access refresh named positive (opened, (a, there, past)) =
      let other : (a.revision == expected) ≡ false =
        ground (arith, eqb_ℤ_iff a.revision expected, past) in
      ground (arith, other, there, opened, eq_iff t.access_token "", eq_iff t.refresh_token "")

-- The rows after an update and the writes that follow it.
abbrev pub meanwhile : ℤ → Catalog → String → ℤ → TokenSet → List Write → Catalog
meanwhile now c id expected won ws = writes (update_tokens now c id expected won).0 ws

-- Once the tokens of an account were written over revision r, every later update of them that expects
-- r and has two tokens is refused with a conflict and changes nothing, whatever patches, proxy writes,
-- imports, switches and token updates come in between.
pub stale_update-refused :
    (now at : ℤ) (c : Catalog) (id : String) (expected : ℤ) (won lost : TokenSet) (ws : List Write)
    → (update_tokens now c id expected won).1 ≡ ok tt
    → lost.access_token ≢ ""
    → lost.refresh_token ≢ ""
    → update_tokens at (meanwhile now c id expected won ws) id expected lost
      ≡ (meanwhile now c id expected won ws, err cas_conflict)
stale_update-refused now at c id expected won lost ws first access refresh =
    let (a, e, found, opened, named, positive, same) =
      update_tokens-written now c id expected won first in
    let past =
      written-IsOpenPast now c id expected won (a, e, found, opened, named, positive, same) in
    past-refused at (meanwhile now c id expected won ws) id expected lost access refresh named
      positive (writes-IsOpenPast expected id ws (update_tokens now c id expected won).0 past)
