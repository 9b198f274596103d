-- ===== src/Base/Maps.antt =====
-- Go maps as association lists. The order of the entries stands for the order in which the
-- runtime would iterate; no law below depends on it.
use Prim.Native.Nat.{◌+◌, ◌-◌, ◌<◌}
use mathlib.Core.Path.{◌≡◌, refl}
use mathlib.Core.Bool.{Bool, true, false}
use mathlib.Core.Option.{Option, none, some}
use mathlib.Core.List.{List, [], ◌∷◌}
use native.Mathlib.Omega.{arith}
use grokbuild_pool.Base.Tests.{if◌then◌else◌}
use grokbuild_pool.Base.Lists.{length}
use grokbuild_pool.Base.Text.{Eq, ◌==◌}

module _ {ℓ κ} {K : Type ℓ} {V : Type κ} ⦃e : Eq K⦄ where
  unfoldable pub lookup : K → List (K × V) → Option V
  lookup key [] = none
  lookup key ((other, val) ∷ rest) = if other == key then some val else lookup key rest

  -- A write to a key that is there keeps its place.
  unfoldable pub insert : K → V → List (K × V) → List (K × V)
  insert key new [] = (key, new) ∷ []
  insert key new ((other, old) ∷ rest) =
      if other == key then (key, new) ∷ rest else (other, old) ∷ insert key new rest

  unfoldable pub delete : K → List (K × V) → List (K × V)
  delete k [] = []
  delete k ((j, w) ∷ m) = if j == k then delete k m else (j, w) ∷ delete k m

  -- `_, ok := m[k]`.
  abbrev pub has : K → List (K × V) → Bool
  has k m = elim (lookup k m) [ none ↦ false | some _ ↦ true ]

  -- No key stands twice, as in every Go map.
  abbrev pub IsUniq : List (K × V) → Type 0
  IsUniq [] = Unit {0}
  IsUniq ((k, v) ∷ m) = (has k m ≡ false) × IsUniq m

  pub lookup-insert :
      (key j : K) (new : V) (rest : List (K × V))
      → lookup j (insert key new rest) ≡ (if key == j then some new else lookup j rest)
  unfolding lookup insert
  lookup-insert key j new [] = refl
  lookup-insert key j new ((i, old) ∷ rest) =
      ground
        (arith, e.same_iff i j, e.same_iff key j, e.same_iff i key, lookup-insert key j new rest)

  pub lookup-delete :
      (k j : K) (m : List (K × V)) → lookup j (delete k m) ≡ (if k == j then none else lookup j m)
  unfolding lookup delete
  lookup-delete k j [] = ground arith
  lookup-delete k j ((i, w) ∷ m) =
      ground (arith, e.same_iff k j, e.same_iff i k, e.same_iff i j, lookup-delete k j m)

  pub delete_absent : (k : K) (m : List (K × V)) → has k m ≡ false → delete k m ≡ m
  unfolding lookup delete
  delete_absent k [] h = refl
  delete_absent k ((i, w) ∷ m) h = ground (arith, delete_absent k m)

  pub insert-IsUniq : (k : K) (v : V) (m : List (K × V)) → IsUniq m → IsUniq (insert k v m)
  unfolding lookup insert
  insert-IsUniq k v [] u = (refl, tt)
  insert-IsUniq k v ((i, w) ∷ m) u =
      ground (arith, e.same_iff i k, e.same_iff k i, lookup-insert k i v m, insert-IsUniq k v m u.1)

  pub delete-IsUniq : (k : K) (m : List (K × V)) → IsUniq m → IsUniq (delete k m)
  unfolding lookup delete
  delete-IsUniq k [] u = tt
  delete-IsUniq k ((i, w) ∷ m) u =
      ground (arith, lookup-delete k i m, e.same_iff k i, delete-IsUniq k m u.1)

  pub length-insert :
      (k : K) (v : V) (m : List (K × V))
      → length (insert k v m) ≡ (if has k m then length m else length m + 1)
  unfolding lookup insert
  length-insert k v [] = refl
  length-insert k v ((i, w) ∷ m) = ground (arith, length-insert k v m)

  pub has-length : (k : K) (m : List (K × V)) → has k m ≡ true → 0 < length m
  unfolding lookup
  has-length k [] h = cc
  has-length k (x ∷ m) h = omega arith

  pub length-delete :
      (k : K) (m : List (K × V))
      → IsUniq m
      → length (delete k m) ≡ (if has k m then length m - 1 else length m)
  unfolding lookup delete
  length-delete k [] u = refl
  length-delete k ((i, w) ∷ m) u =
      ground (arith, e.same_iff i k, delete_absent k m, has-length k m, length-delete k m u.1)
