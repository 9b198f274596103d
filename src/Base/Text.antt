-- ===== src/Base/Text.antt =====
-- Texts and the equality and order of map keys.
use Prim.Native.Nat.{ℕ, Ordering}
use Prim.Native.Char.{code}
use Prim.Native.String.{String, compare}
use text.Mathlib.Text.{◌==◌ as str_eq}
use text.Mathlib.TextEquality.{eq_iff}
use mathlib.Core.Path.{◌≡◌}
use mathlib.Core.Logic.{◌↔◌}
use mathlib.Core.Bool.{Bool, true, false, not, ◌&&◌, ◌||◌}
use grokbuild_pool.Base.Tests.{leb, eqb, if◌then◌else◌}
use grokbuild_pool.Base.Int.{ℤ, eqb_ℤ, eqb_ℤ_iff}

pub record Eq {ℓ} (A : Type ℓ) : Type ℓ where
  pub same : (x y : A) → Bool
  pub same_iff : (x y : A) → (same x y ≡ true) ↔ (x ≡ y)

infix 50 ◌==◌ ◌/=◌
abbrev pub ◌/=◌ {ℓ} : {A : Type ℓ} ⦃e : Eq A⦄ → A → A → Bool
◌/=◌ ⦃e⦄ a b = not (e.same a b)

abbrev pub ◌==◌ {ℓ} : {A : Type ℓ} ⦃e : Eq A⦄ → A → A → Bool
◌==◌ ⦃e⦄ x y = e.same x y

instance abbrev pub int_eq : Eq ℤ
int_eq = record { same = eqb_ℤ; same_iff = eqb_ℤ_iff }

instance abbrev pub string_eq : Eq String
string_eq = record { same = str_eq; same_iff = eq_iff }

-- Byte order, which on UTF-8 is the order of the code points.
abbrev pub str_lt : String → String → Bool
str_lt s t = elim (compare s t) [ Ordering.lt ↦ true | _ ↦ false ]

-- `unicode.IsSpace`: the white space of Unicode.
abbrev is_space : ℕ → Bool
is_space c =
    (leb 9 c && leb c 13)
    || (eqb c 32
        || (eqb c 0x85
            || (eqb c 0xA0
                || (eqb c 0x1680
                    || (eqb c 0x202F
                        || ((leb 0x2000 c && leb c 0x200A)
                            || (eqb c 0x2028
                                || (eqb c 0x2029 || (eqb c 0x205F || eqb c 0x3000)))))))))

trim_left : String → String
trim_left String.[] = String.[]
trim_left (String.◌∷◌ c s) =
    let rest = trim_left s in if is_space (code c) then rest else String.◌∷◌ c s

is_blank : String → Bool
is_blank String.[] = true
is_blank (String.◌∷◌ c s) = let rest = is_blank s in if is_space (code c) then rest else false

trim_right : String → String
unfolding is_blank
trim_right String.[] = String.[]
trim_right (String.◌∷◌ c s) =
    let rest = trim_right s in if is_blank (String.◌∷◌ c s) then String.[] else String.◌∷◌ c rest

-- `strings.TrimSpace`.
unfoldable pub trim_space : String → String
unfolding trim_left trim_right
trim_space s = trim_right (trim_left s)

-- `strings.HasPrefix` and `strings.TrimPrefix`.
unfoldable pub has_prefix : String → String → Bool
has_prefix String.[] s = true
has_prefix (String.◌∷◌ c p) String.[] = false
has_prefix (String.◌∷◌ c p) (String.◌∷◌ d s) = eqb (code c) (code d) && has_prefix p s

drop_prefix : String → String → String
drop_prefix String.[] s = s
drop_prefix (String.◌∷◌ c p) String.[] = String.[]
drop_prefix (String.◌∷◌ c p) (String.◌∷◌ d s) = drop_prefix p s

unfoldable pub trim_prefix : String → String → String
unfolding has_prefix drop_prefix
trim_prefix p s = if has_prefix p s then drop_prefix p s else s
