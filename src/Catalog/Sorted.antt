-- ===== src/Catalog/Sorted.antt =====
-- internal/catalog/catalog.go (ListEligible): the order of the rows.
use grokbuild_pool.Base.{
  String, Bool, true, false, List, [], ◌∷◌, map, ◌≡◌, ◌≢◌, subst, arith, if_split, string_eq,
  eq_iff, lookup, has, IsUniq, keep, All, str_lt_trans, str_lt_irrefl, str_lt_total,
}
use grokbuild_pool.Lease.Catalog.{Account}
use grokbuild_pool.Catalog.Rows.{Rows}
use grokbuild_pool.Catalog.Listing.{is_before, place, order_by, row_of}

pub is_before_trans :
    (a b c : Account) → is_before a b ≡ true → is_before b c ≡ true → is_before a c ≡ true
unfolding is_before
is_before_trans a b c h k = ground (arith, h, k, str_lt_trans a.id b.id c.id)

pub is_before_irrefl : (a : Account) → is_before a a ≡ false
unfolding is_before
is_before_irrefl a = ground (arith, str_lt_irrefl a.id)

pub is_before_total : (a b : Account) → a.id ≢ b.id → is_before a b ≡ false → is_before b a ≡ true
unfolding is_before
is_before_total a b apart h = ground (arith, h, str_lt_total a.id b.id apart)

pub All-imp {ℓ κ} :
    {A : Type ℓ} {P Q : A → Type κ} (xs : List A) → ((x : A) → P x → Q x) → All P xs → All Q xs
All-imp [] f h = tt
All-imp (x ∷ xs) f h = (f x h.0, All-imp xs f h.1)

pub All-keep-All {ℓ κ} :
    {A : Type ℓ} (P : A → Type κ) (test : A → Bool) (xs : List A) → All P xs → All P (keep test xs)
unfolding keep
All-keep-All P test [] h = tt
All-keep-All P test (x ∷ xs) h =
    if_split (All P) (test x) (λ _. (h.0, All-keep-All P test xs h.1))
      (λ _. All-keep-All P test xs h.1)

place-All :
    (P : Account → Type 0) (a : Account) (sorted : List Account)
    → P a
    → All P sorted
    → All P (place is_before a sorted)
unfolding place
place-All P a [] h k = (h, tt)
place-All P a (b ∷ sorted) h k =
    if_split (All P) (is_before a b) (λ _. (h, k)) (λ _. (k.0, place-All P a sorted h k.1))

pub order_by-All :
    (P : Account → Type 0) (rows : List Account) → All P rows → All P (order_by is_before rows)
unfolding order_by
order_by-All P [] h = tt
order_by-All P (a ∷ rows) h = place-All P a (order_by is_before rows) h.0 (order_by-All P rows h.1)

abbrev pub IsSorted : List Account → Type 0
IsSorted [] = Unit {0}
IsSorted (a ∷ rows) = All (λ b. is_before a b ≡ true) rows × IsSorted rows

place-IsSorted :
    (a : Account) (sorted : List Account)
    → All (λ b. a.id ≢ b.id) sorted
    → IsSorted sorted
    → IsSorted (place is_before a sorted)
unfolding place
place-IsSorted a [] apart h = (tt, tt)
place-IsSorted a (b ∷ sorted) apart h =
    if_split IsSorted (is_before a b)
      (λ first. ((first, All-imp sorted (λ c. is_before_trans a b c first) h.0), h))
      (λ second. (
        place-All (λ c. is_before b c ≡ true) a sorted (is_before_total a b apart.0 second) h.0,
        place-IsSorted a sorted apart.1 h.1,
      ))

-- Each row stands under its own id, which is not empty, and no id twice.
abbrev pub IsTable : Rows → Type 0
IsTable rows = All (λ (e : String × Account). (e.0 ≡ e.1.id) × (e.1.id ≢ "")) rows × IsUniq rows

abbrev pub Keyed : Rows → Type 0
Keyed rows = All (λ (e : String × Account). (e.0 ≡ e.1.id) × (e.1.id ≢ "")) rows

pub absent-All :
    (k : String) (rows : Rows)
    → Keyed rows
    → has k rows ≡ false
    → All (λ b. k ≢ b.id) (map row_of rows)
unfolding lookup
absent-All k [] keyed gone = tt
absent-All k ((j, b) ∷ rows) keyed gone = (
  λ e. ground (arith, gone, eq_iff j k, keyed.0.0, e),
  absent-All k rows keyed.1 (ground (arith, gone)),
)

pub order_by-IsSorted :
    (rows : Rows) → IsTable rows → IsSorted (order_by is_before (map row_of rows))
unfolding order_by
order_by-IsSorted [] table = tt
order_by-IsSorted ((k, a) ∷ rows) (keyed, uniq) =
    place-IsSorted a (order_by is_before (map row_of rows))
      (order_by-All (λ b. a.id ≢ b.id) (map row_of rows)
        (subst (λ j. All (λ b. j ≢ b.id) (map row_of rows)) keyed.0.0
          (absent-All k rows keyed.1 uniq.0)))
      (order_by-IsSorted rows (keyed.1, uniq.1))

pub keep-IsSorted :
    (test : Account → Bool) (rows : List Account) → IsSorted rows → IsSorted (keep test rows)
unfolding keep
keep-IsSorted test [] h = tt
keep-IsSorted test (a ∷ rows) h =
    if_split IsSorted (test a)
      (λ _. (All-keep-All (λ b. is_before a b ≡ true) test rows h.0, keep-IsSorted test rows h.1))
      (λ _. keep-IsSorted test rows h.1)
