-- ===== src/Base/Order.antt =====
-- The byte order of texts is a strict total order.
use Prim.Native.Nat.{◌<◌}
use Prim.Native.Char.{Char, code}
use Prim.Native.String.compare
use Prim.Native.String.{String}
use text.Mathlib.TextEquality.{Char-path}
use text.Mathlib.TextPositions.{compare_refl}
use mathlib.Core.Path.{◌≡◌, refl}
use mathlib.Core.Logic.{◌≢◌, ◌⊎◌}
use mathlib.Core.Bool.{true, false}
use native.Mathlib.Omega.{arith}
use grokbuild_pool.Base.Text.{str_lt}

-- The codes decide, and where they are equal the rest does.
str_lt_head :
    (c d : Char) (s t : String) → code c < code d → str_lt (String.◌∷◌ c s) (String.◌∷◌ d t) ≡ true
str_lt_head c d s t h = ground (arith, compare.cons-cons c d s t, h)

str_lt_tail :
    (c d : Char) (s t : String)
    → code c ≡ code d
    → str_lt (String.◌∷◌ c s) (String.◌∷◌ d t) ≡ str_lt s t
str_lt_tail c d s t h = ground (arith, compare.cons-cons c d s t, h)

str_lt_inv :
    (c d : Char) (s t : String)
    → str_lt (String.◌∷◌ c s) (String.◌∷◌ d t) ≡ true
    → (code c < code d) ⊎ ((code c ≡ code d) × (str_lt s t ≡ true))
str_lt_inv c d s t h = ground (arith, compare.cons-cons c d s t, h)

pub str_lt_trans : (s t u : String) → str_lt s t ≡ true → str_lt t u ≡ true → str_lt s u ≡ true
str_lt_trans s String.[] String.[] h k = ground (arith, k, compare.nil-nil)
str_lt_trans s (String.◌∷◌ d t) String.[] h k = ground (arith, k, compare.cons-nil d t)
str_lt_trans String.[] t (String.◌∷◌ e u) h k = ground (arith, compare.nil-cons e u)
str_lt_trans (String.◌∷◌ c s) String.[] (String.◌∷◌ e u) h k =
    ground (arith, h, compare.cons-nil c s)
str_lt_trans (String.◌∷◌ c s) (String.◌∷◌ d t) (String.◌∷◌ e u) h k = ground (
  arith,
  str_lt_inv c d s t h,
  str_lt_inv d e t u k,
  str_lt_trans s t u,
  str_lt_head c e s u,
  str_lt_tail c e s u,
)

pub str_lt_irrefl : (s : String) → str_lt s s ≡ false
str_lt_irrefl s = ground (arith, compare_refl s)

pub str_lt_total : (s t : String) → s ≢ t → str_lt s t ≡ false → str_lt t s ≡ true
str_lt_total String.[] String.[] e h = absurd (e refl)
str_lt_total String.[] (String.◌∷◌ d t) e h = ground (arith, h, compare.nil-cons d t)
str_lt_total (String.◌∷◌ c s) String.[] e h = ground (arith, compare.nil-cons c s)
str_lt_total (String.◌∷◌ c s) (String.◌∷◌ d t) e h =
    let differ : code c ≡ code d → s ≢ t = λ q r. e (λ i. String.◌∷◌ (Char-path c d q i) (r i)) in
    ground (
      arith,
      h,
      differ,
      str_lt_head c d s t,
      str_lt_head d c t s,
      str_lt_tail c d s t,
      str_lt_tail d c t s,
      str_lt_total s t,
    )
