-- ===== src/Catalog/Pages.antt =====
-- internal/catalog/catalog.go (ListEligible): the pages fit together.
use grokbuild_pool.Base.{
  ℕ, map-append, suc, ◌+◌, ℤ, pos, String, true, false, List, [], ◌∷◌, ◌++◌, Option, none, some,
  map, ◌≡◌, ◌≢◌, refl, sym, ap, ◌∙◌, subst, arith, Bool-cases, Option-cases, inl, inr, ◌==◌,
  string_eq, eq_iff, lookup, keep, take, All, All-keep, ok,
}
use grokbuild_pool.Hot.Meta.{HotMeta}
use grokbuild_pool.Lease.Catalog.{Account, Catalog}
use grokbuild_pool.Catalog.Rows.{Rows}
use grokbuild_pool.Catalog.Listing.{
  is_before, order_by, row_of, may_serve, hot_meta, page_rows, list_eligible,
}
use grokbuild_pool.Catalog.Sorted.{
  IsSorted, IsTable, Keyed, All-keep-All, order_by-All, order_by-IsSorted, keep-IsSorted,
}
use grokbuild_pool.Catalog.Cuts.{
  All-take, All-last, take_past, keep-keep, map_last, append_not_nil, ok_inj, found-All, suc_plus,
}

-- The rows that a query may list, in order.
abbrev serving : (String → Option ℤ) → ℤ → Rows → List Account
serving probe now rows = keep (may_serve probe now) (order_by is_before (map row_of rows))

module _ (probe : String → Option ℤ) (now : ℤ) (rows : Rows) (table : IsTable rows) where
  serving-IsSorted : IsSorted (serving probe now rows)
  serving-IsSorted =
      keep-IsSorted (may_serve probe now) (order_by is_before (map row_of rows))
        (order_by-IsSorted rows table)

  serving-All : (P : Account → Type 0) → All P (map row_of rows) → All P (serving probe now rows)
  serving-All P h =
      All-keep-All P (may_serve probe now) (order_by is_before (map row_of rows))
        (order_by-All P (map row_of rows) h)

  last_row :
      (n : ℕ) (P : Account → Type 0) (listed heads : List Account) (x : Account)
      → All P listed
      → take n listed ≡ heads ++ x ∷ []
      → P x
  last_row n P listed heads x h e = All-last P heads x (subst (All P) e (All-take P n listed h))

  -- The page past x, where x is a row that the cursor lists.
  pub page_first :
      (n : ℕ) (after : String)
      → (after == "") ≡ true
      → page_rows probe now rows (pos n) after ≡ take n (serving probe now rows)
  unfolding page_rows
  page_first n after e = rw e refl

  page_lost :
      (n : ℕ) (after : String)
      → (after == "") ≡ false
      → lookup after rows ≡ none
      → page_rows probe now rows (pos n) after ≡ []
  unfolding page_rows
  page_lost n after e gone = rw (e, gone) refl

  page_cursor :
      (n : ℕ) (after : String) (cur : Account)
      → (after == "") ≡ false
      → lookup after rows ≡ some cur
      → page_rows probe now rows (pos n) after
        ≡ take n (keep (is_before cur) (serving probe now rows))
  unfolding page_rows
  page_cursor n after cur e there = rw (e, there) refl

  page_rows-past :
      (k : ℕ) (x : Account)
      → lookup x.id rows ≡ some x
      → x.id ≢ ""
      → page_rows probe now rows (pos k) x.id ≡ take k (keep (is_before x) (serving probe now rows))
  page_rows-past k x there named =
      page_cursor k x.id x (ground (arith, eq_iff x.id "", named)) there

  named-All : (entries : Rows) → Keyed entries → All (λ a. a.id ≢ "") (map row_of entries)
  named-All [] keyed = tt
  named-All (e ∷ entries) keyed = (keyed.0.1, named-All entries keyed.1)

  -- The page past the last row of a page, for any sorted part of the rows.
  next_of :
      (n k : ℕ) (listed heads : List Account) (x : Account)
      → IsSorted listed
      → All (λ a. lookup a.id rows ≡ some a) listed
      → All (λ a. a.id ≢ "") listed
      → keep (is_before x) listed ≡ keep (is_before x) (serving probe now rows)
      → take n listed ≡ heads ++ x ∷ []
      → take (n + k) listed ≡ (heads ++ x ∷ []) ++ page_rows probe now rows (pos k) x.id
  next_of n k listed heads x sorted found named narrow h =
      take_past n k listed heads x sorted h
      ∙ ap (λ r. (heads ++ x ∷ []) ++ r)
          (ap (take k) narrow
            ∙ sym (
                page_rows-past k x
                  (last_row n (λ a. lookup a.id rows ≡ some a) listed heads x found h)
                  (last_row n (λ a. a.id ≢ "") listed heads x named h)))

  pub page_rows-next :
      (n k : ℕ) (after : String) (heads : List Account) (x : Account)
      → page_rows probe now rows (pos n) after ≡ heads ++ x ∷ []
      → page_rows probe now rows (pos (n + k)) after
        ≡ (heads ++ x ∷ []) ++ page_rows probe now rows (pos k) x.id
  page_rows-next n k after heads x h =
      let all_rows = serving probe now rows in
      let found = serving-All (λ a. lookup a.id rows ≡ some a) (found-All rows table) in
      let named = serving-All (λ a. a.id ≢ "") (named-All rows table.0) in
      elim (Bool-cases (after == "")) [
        | inl e ↦
            page_first (n + k) after e
            ∙ next_of n k all_rows heads x serving-IsSorted found named refl
                (sym (page_first n after e) ∙ h)
        | inr e ↦ elim (Option-cases (lookup after rows)) [
          | inl gone ↦ absurd (append_not_nil heads x (sym (page_lost n after e gone) ∙ h))
          | inr (cur, there) ↦
              let listed = keep (is_before cur) all_rows in
              let h' : take n listed ≡ heads ++ x ∷ [] =
                sym (page_cursor n after cur e there) ∙ h in
              let beyond : is_before cur x ≡ true =
                last_row n (λ a. is_before cur a ≡ true) listed heads x
                  (All-keep (is_before cur) all_rows (λ a q. q)) h' in
              page_cursor (n + k) after cur e there
              ∙ next_of n k listed heads x (keep-IsSorted (is_before cur) all_rows serving-IsSorted)
                  (All-keep-All (λ a. lookup a.id rows ≡ some a) (is_before cur) all_rows found)
                  (All-keep-All (λ a. a.id ≢ "") (is_before cur) all_rows named)
                  (keep-keep cur x all_rows beyond) h'
        ]
      ]

module _ (probe : String → Option ℤ) (now : ℤ) (c : Catalog) (n : ℕ) (after : String) where
  abbrev answered : List HotMeta
  answered = map hot_meta (page_rows probe now c.accounts (pos (suc n)) after)

  pub list_eligible_open :
      c.is_closed ≡ false → list_eligible probe now c (pos (suc n)) after ≡ ok answered
  unfolding list_eligible
  list_eligible_open e = rw e ground arith

  list_eligible_inv :
      (listed : List HotMeta)
      → list_eligible probe now c (pos (suc n)) after ≡ ok listed
      → (c.is_closed ≡ false) × (answered ≡ listed)
  unfolding list_eligible
  list_eligible_inv listed h = elim (Bool-cases c.is_closed) [
    | inl e ↦ absurd (ground (arith, h, e))
    | inr e ↦ (e, ok_inj (sym (list_eligible_open e) ∙ h))
  ]

-- A page that is not empty, and the page whose cursor is the id of its last row, are together the
-- page of both limits: the second goes on where the first ended, without a gap and without a
-- repetition. The limits are positive, the catalog is the same, and the rows stand under their own
-- ids, which are distinct and not empty.
pub list_eligible-pages :
    (probe : String → Option ℤ) (now : ℤ) (c : Catalog) (n k : ℕ) (after : String)
    (front next : List HotMeta) (last : HotMeta)
    → IsTable c.accounts
    → list_eligible probe now c (pos (suc n)) after ≡ ok (front ++ last ∷ [])
    → list_eligible probe now c (pos (suc k)) last.id ≡ ok next
    → list_eligible probe now c (pos (suc n + suc k)) after ≡ ok ((front ++ last ∷ []) ++ next)
unfolding hot_meta
list_eligible-pages probe now c n k after front next last table first second =
    let (opened, page) = list_eligible_inv probe now c n after (front ++ last ∷ []) first in
    let (opened', page') = list_eligible_inv probe now c k last.id next second in
    let (heads, x, rows, same, at_end) =
      map_last (page_rows probe now c.accounts (pos (suc n)) after) front last page in
    let both = page_rows-next probe now c.accounts table (suc n) (suc k) after heads x rows in
    let head_metas : map hot_meta (heads ++ x ∷ []) ≡ front ++ last ∷ [] =
      sym (ap (map hot_meta) rows) ∙ page in
    let id_of : x.id ≡ last.id = ap (λ (m : HotMeta). m.id) at_end in
    let rest : map hot_meta (page_rows probe now c.accounts (pos (suc k)) x.id) ≡ next =
      ap (λ i. map hot_meta (page_rows probe now c.accounts (pos (suc k)) i)) id_of ∙ page' in
    rw (suc_plus n (suc k)) (
      list_eligible_open probe now c (n + suc k) after opened
      ∙ ap ok (
          rw⁻¹ (suc_plus n (suc k)) (ap (map hot_meta) both)
          ∙ (map-append hot_meta (heads ++ x ∷ [])
                (page_rows probe now c.accounts (pos (suc k)) x.id)
              ∙ (λ i. head_metas i ++ rest i))))
