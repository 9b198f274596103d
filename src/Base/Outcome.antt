-- ===== src/Base/Outcome.antt =====
-- A value or an error.
use mathlib.Core.Path.{◌≡◌, refl}
use mathlib.Core.Logic.{◌⊎◌, inl, inr}

pub data Result {ℓ κ} (E : Type ℓ) (A : Type κ) : Type (ℓ ⊔ κ) where
  ok : A → Result E A
  err : E → Result E A

pub Result-cases {ℓ κ} :
    {E : Type ℓ} {A : Type κ} (r : Result E A) → ((a : A) × (r ≡ ok a)) ⊎ ((e : E) × (r ≡ err e))
Result-cases (ok a) = inl (a, refl)
Result-cases (err e) = inr (e, refl)

pub result_split {ℓ κ μ ν} :
    {E : Type ℓ} {A : Type κ} {B : Type μ} (P : B → Type ν) (r : Result E A) {f : A → B} {g : E → B}
    → ((a : A) → r ≡ ok a → P (f a))
    → ((e : E) → r ≡ err e → P (g e))
    → P (elim r [ ok a ↦ f a | err e ↦ g e ])
result_split P (ok a) h k = h a refl
result_split P (err e) h k = k e refl
