-- ===== src/Base/Lists.antt =====
-- Slices as lists, measured and indexed by native numbers.
use Prim.Native.Nat.{ℕ, zero, suc, ◌+◌, ◌-◌, ◌≤◌, ◌<◌}
use mathlib.Core.Path.{◌≡◌, refl, ap}
use mathlib.Core.Bool.{Bool, true, ◌&&◌}
use mathlib.Core.Logic.{inl, inr}
use mathlib.Core.List.{List, [], ◌∷◌, ◌++◌, map}
use mathlib.Core.Option.{Option, none, some}
use native.Mathlib.Omega.{arith}
use grokbuild_pool.Base.Tests.{ltb, eqb, if◌then◌else◌, Bool-cases}

module _ {ℓ} {A : Type ℓ} where
  abbrev pub length : List A → ℕ
  length [] = 0
  length (x ∷ xs) = suc (length xs)

  unfoldable pub get_elem? : List A → ℕ → Option A
  get_elem? [] i = none
  get_elem? (x ∷ xs) zero = some x
  get_elem? (x ∷ xs) (suc i) = get_elem? xs i

  unfoldable pub get_or : List A → ℕ → A → A
  get_or [] i d = d
  get_or (x ∷ xs) zero d = x
  get_or (x ∷ xs) (suc i) d = get_or xs i d

  unfoldable pub set : List A → ℕ → A → List A
  set [] i v = []
  set (x ∷ xs) zero v = v ∷ xs
  set (x ∷ xs) (suc i) v = x ∷ set xs i v

  unfoldable pub take : ℕ → List A → List A
  take zero xs = []
  take (suc n) [] = []
  take (suc n) (x ∷ xs) = x ∷ take n xs

  -- A predicate of every element.
  abbrev pub All {κ} : (A → Type κ) → List A → Type κ
  All P [] = Unit
  All P (x ∷ xs) = P x × All P xs

  -- `for _, x := range xs { if test(x) { out = append(out, x) } }`.
  unfoldable pub keep : (A → Bool) → List A → List A
  keep test [] = []
  keep test (x ∷ xs) = if test x then x ∷ keep test xs else keep test xs

  pub length-append : (xs ys : List A) → length (xs ++ ys) ≡ length xs + length ys
  length-append [] ys = omega arith
  length-append (x ∷ xs) ys = omega (arith, length-append xs ys)

  pub length-set : (xs : List A) (i : ℕ) (v : A) → length (set xs i v) ≡ length xs
  unfolding set
  length-set [] i v = refl
  length-set (x ∷ xs) zero v = refl
  length-set (x ∷ xs) (suc i) v = ap suc (length-set xs i v)

  pub length-take : (n : ℕ) (xs : List A) → n ≤ length xs → length (take n xs) ≡ n
  unfolding take
  length-take zero xs h = refl
  length-take (suc n) [] h = absurd (omega arith)
  length-take (suc n) (x ∷ xs) h = omega (arith, length-take n xs (omega arith))

  pub length-take-le : (n : ℕ) (xs : List A) → length (take n xs) ≤ n
  unfolding take
  length-take-le zero xs = omega arith
  length-take-le (suc n) [] = omega arith
  length-take-le (suc n) (x ∷ xs) = omega (arith, length-take-le n xs)

  pub length-keep-le : (test : A → Bool) (xs : List A) → length (keep test xs) ≤ length xs
  unfolding keep
  length-keep-le test [] = omega arith
  length-keep-le test (x ∷ xs) = ground (arith, length-keep-le test xs)

  pub get_elem?-append :
      (xs ys : List A) (j : ℕ)
      → get_elem? (xs ++ ys) j
        ≡ (if ltb j (length xs) then get_elem? xs j else get_elem? ys (j - length xs))
  unfolding get_elem?
  get_elem?-append [] ys j = ground arith
  get_elem?-append (x ∷ xs) ys zero = ground arith
  get_elem?-append (x ∷ xs) ys (suc j) = ground (arith, get_elem?-append xs ys j)

  pub get_elem?-set :
      (xs : List A) (i j : ℕ) (v : A)
      → get_elem? (set xs i v) j ≡ (if eqb i j && ltb i (length xs) then some v else get_elem? xs j)
  unfolding get_elem? set
  get_elem?-set [] i j v = ground arith
  get_elem?-set (x ∷ xs) zero zero v = ground arith
  get_elem?-set (x ∷ xs) zero (suc j) v = ground arith
  get_elem?-set (x ∷ xs) (suc i) zero v = ground arith
  get_elem?-set (x ∷ xs) (suc i) (suc j) v = ground (arith, get_elem?-set xs i j v)

  pub get_elem?-take :
      (n : ℕ) (xs : List A) (j : ℕ)
      → get_elem? (take n xs) j ≡ (if ltb j n then get_elem? xs j else none)
  unfolding get_elem? take
  get_elem?-take zero xs j = ground arith
  get_elem?-take (suc n) [] j = ground arith
  get_elem?-take (suc n) (x ∷ xs) zero = ground arith
  get_elem?-take (suc n) (x ∷ xs) (suc j) = ground (arith, get_elem?-take n xs j)

  pub get_elem?_lt : (xs : List A) (j : ℕ) {x : A} → get_elem? xs j ≡ some x → j < length xs
  unfolding get_elem?
  get_elem?_lt [] j h = ground arith
  get_elem?_lt (x ∷ xs) zero h = omega arith
  get_elem?_lt (x ∷ xs) (suc j) h = omega (arith, get_elem?_lt xs j h)

  -- A read in range.
  pub get_elem?_or :
      (xs : List A) (j : ℕ) (d : A) → j < length xs → get_elem? xs j ≡ some (get_or xs j d)
  unfolding get_elem? get_or
  get_elem?_or [] j d h = absurd (omega arith)
  get_elem?_or (x ∷ xs) zero d h = refl
  get_elem?_or (x ∷ xs) (suc j) d h = get_elem?_or xs j d (omega arith)

  pub All-keep {κ} :
      {P : A → Type κ} (test : A → Bool) (xs : List A)
      → ((x : A) → test x ≡ true → P x)
      → All P (keep test xs)
  unfolding keep
  All-keep test [] h = tt
  All-keep test (x ∷ xs) h = elim (Bool-cases (test x)) [
    | inl e ↦ rw e (h x e, All-keep test xs h)
    | inr e ↦ rw e (All-keep test xs h)
  ]

  pub All-append {κ} : (P : A → Type κ) (xs ys : List A) → All P xs → All P ys → All P (xs ++ ys)
  All-append P [] ys a b = b
  All-append P (x ∷ xs) ys a b = (a.0, All-append P xs ys a.1 b)

  -- Membership, kept as a position.
  abbrev pub At : A → List A → Type ℓ
  At a xs = (i : ℕ) × (get_elem? xs i ≡ some a)

pub length-map {ℓ κ} :
    {A : Type ℓ} {B : Type κ} (f : A → B) (xs : List A) → length (map f xs) ≡ length xs
length-map f [] = refl
length-map f (x ∷ xs) = ap suc (length-map f xs)

pub map-append {ℓ κ} :
    {A : Type ℓ} {B : Type κ} (f : A → B) (xs ys : List A) → map f (xs ++ ys) ≡ map f xs ++ map f ys
map-append f [] ys = refl
map-append f (x ∷ xs) ys = ap (λ r. f x ∷ r) (map-append f xs ys)
