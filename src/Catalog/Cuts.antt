-- ===== src/Catalog/Cuts.antt =====
-- internal/catalog/catalog.go (ListEligible): cutting a sorted list into pages.
use grokbuild_pool.Base.{
  ℕ, zero, suc, ◌+◌, true, false, List, [], ◌∷◌, ◌++◌, some, map, ◌≡◌, ◌≢◌, refl, sym, ap, ◌∙◌,
  subst, arith, Bool-cases, inl, inr, ◌==◌, string_eq, eq_iff, lookup, keep, take, All, Result, ok,
}
use grokbuild_pool.Hot.Meta.{HotMeta}
use grokbuild_pool.Lease.Catalog.{Account, CatalogError}
use grokbuild_pool.Catalog.Rows.{Rows}
use grokbuild_pool.Catalog.Listing.{is_before, row_of, hot_meta}
use grokbuild_pool.Catalog.Sorted.{
  IsSorted, IsTable, absent-All, All-imp, is_before_trans, is_before_irrefl,
}

pub All-take {ℓ κ} :
    {A : Type ℓ} (P : A → Type κ) (n : ℕ) (xs : List A) → All P xs → All P (take n xs)
unfolding take
All-take P zero xs h = tt
All-take P (suc n) [] h = tt
All-take P (suc n) (x ∷ xs) h = (h.0, All-take P n xs h.1)

pub All-last {ℓ κ} :
    {A : Type ℓ} (P : A → Type κ) (front : List A) (x : A) → All P (front ++ x ∷ []) → P x
All-last P [] x h = h.0
All-last P (y ∷ front) x h = All-last P front x h.1

-- The tests after the first row of a sorted list drop that row alone.
keep_later :
    (a : Account) (rows : List Account)
    → All (λ b. is_before a b ≡ true) rows
    → keep (is_before a) rows ≡ rows
unfolding keep
keep_later a [] h = refl
keep_later a (b ∷ rows) h = rw (h.0, keep_later a rows h.1) refl

keep_past :
    (a b : Account) (rows : List Account)
    → is_before a b ≡ false
    → keep (is_before a) (b ∷ rows) ≡ keep (is_before a) rows
unfolding keep
keep_past a b rows h = rw h refl

pub suc_plus : (n k : ℕ) → suc n + k ≡ suc (n + k)
suc_plus n k = omega arith

take_nil : (n : ℕ) → take {A = Account} n [] ≡ []
unfolding take
take_nil zero = refl
take_nil (suc n) = refl

take_none : (n k : ℕ) (rows : List Account) → take n rows ≡ [] → take (n + k) rows ≡ take k rows
unfolding take
take_none zero k rows h = ap (λ m. take m rows) (omega arith)
take_none (suc n) k [] h = take_nil (suc n + k) ∙ sym (take_nil k)
take_none (suc n) k (a ∷ rows) h = absurd (ground arith)

-- A page of a sorted list, and the page past its last row.
pub take_past :
    (n k : ℕ) (rows front : List Account) (x : Account)
    → IsSorted rows
    → take n rows ≡ front ++ x ∷ []
    → take (n + k) rows ≡ (front ++ x ∷ []) ++ take k (keep (is_before x) rows)
unfolding take
take_past zero k rows [] x s h = absurd (ground arith)
take_past zero k rows (y ∷ front) x s h = absurd (ground arith)
take_past (suc n) k [] [] x s h = absurd (ground arith)
take_past (suc n) k [] (y ∷ front) x s h = absurd (ground arith)
take_past (suc n) k (a ∷ rows) [] x s h =
    let same : a ≡ x = ground arith in
    let none_left : take n rows ≡ [] = ground arith in
    let cut : keep (is_before x) (a ∷ rows) ≡ rows =
      subst (λ y. keep (is_before y) (a ∷ rows) ≡ rows) same
        (keep_past a a rows (is_before_irrefl a) ∙ keep_later a rows s.0) in
    rw (suc_plus n k, cut) (λ i. same i ∷ take_none n k rows none_left i)
take_past (suc n) k (a ∷ rows) (y ∷ front) x s h =
    let same : a ≡ y = ground arith in
    let more : take n rows ≡ front ++ x ∷ [] = ground arith in
    let first : is_before a x ≡ true =
      All-last (λ b. is_before a b ≡ true) front x
        (subst (All (λ b. is_before a b ≡ true)) more
          (All-take (λ b. is_before a b ≡ true) n rows s.0)) in
    let later : is_before x a ≡ false =
      ground (arith, is_before_trans a x a, is_before_irrefl a, first) in
    rw (suc_plus n k, keep_past x a rows later)
      (λ i. same i ∷ take_past n k rows front x s.1 more i)

-- A narrower cursor needs not ask the wider one.
pub keep-keep :
    (cur x : Account) (rows : List Account)
    → is_before cur x ≡ true
    → keep (is_before x) (keep (is_before cur) rows) ≡ keep (is_before x) rows
unfolding keep
keep-keep cur x [] h = refl
keep-keep cur x (a ∷ rows) h = elim (Bool-cases (is_before cur a)) [
  | inl e ↦ rw e (ground (arith, keep-keep cur x rows h))
  | inr e ↦
      let past : is_before x a ≡ false = ground (arith, is_before_trans cur x a h, e) in
      rw (e, past) (keep-keep cur x rows h)
]

pub map_last :
    (rows : List Account) (front : List HotMeta) (last : HotMeta)
    → map hot_meta rows ≡ front ++ last ∷ []
    → (heads : List Account) × (x : Account) × (rows ≡ heads ++ x ∷ [])
      × (map hot_meta heads ≡ front)
      × (hot_meta x ≡ last)
map_last [] [] last h = absurd (ground arith)
map_last [] (m ∷ front) last h = absurd (ground arith)
map_last (a ∷ []) [] last h = ([], a, refl, refl, ground arith)
map_last (a ∷ b ∷ rows) [] last h = absurd (ground arith)
map_last (a ∷ rows) (m ∷ front) last h =
    let (heads, x, e, f, l) = map_last rows front last (ground arith) in
    (a ∷ heads, x, ap (λ r. a ∷ r) e, ground (arith, f), l)

All-and {ℓ κ} :
    {A : Type ℓ} (P Q : A → Type κ) (xs : List A) → All P xs → All Q xs → All (λ x. P x × Q x) xs
All-and P Q [] h k = tt
All-and P Q (x ∷ xs) h k = ((h.0, k.0), All-and P Q xs h.1 k.1)

pub ok_inj :
    {xs ys : List HotMeta} → ◌≡◌ {A = Result CatalogError (List HotMeta)} (ok xs) (ok ys) → xs ≡ ys
ok_inj h = ground (arith, h)

pub append_not_nil : (front : List Account) (x : Account) → [] ≢ front ++ x ∷ []
append_not_nil [] x h = ground (arith, h)
append_not_nil (y ∷ front) x h = ground (arith, h)

-- A row of a table is found under its id.
pub found-All :
    (rows : Rows) → IsTable rows → All (λ a. lookup a.id rows ≡ some a) (map row_of rows)
unfolding lookup
found-All [] table = tt
found-All ((k, a) ∷ rows) (keyed, uniq) =
    let own : (k == a.id) ≡ true = (eq_iff k a.id).1 keyed.0.0 in
    (
      rw own refl,
      All-imp (map row_of rows) (λ b both. ground (arith, eq_iff k b.id, both))
          (All-and (λ b. k ≢ b.id) (λ b. lookup b.id rows ≡ some b) (map row_of rows)
            (absent-All k rows keyed.1 uniq.0) (found-All rows (keyed.1, uniq.1))),
    )
