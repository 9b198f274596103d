-- ===== src/Clients/Cost.antt =====
-- internal/clients/usage.go: what a request costs.
use Prim.Native.Nat.{max}
use grokbuild_pool.Base.{
  ℤ, pos, ◌+ℤ◌, ◌≤ℤ◌, ltb_ℤ, String, Bool, true, false, Option, none, some, if◌then◌else◌, ◌&&◌,
  ◌||◌, ℕ, ◌<◌, ◌+◌, ◌/◌, ◌≡◌, wrap64, quot, arith, List, string_eq, lookup,
}

abbrev pub floor_zero : ℤ → ℤ
floor_zero n = if ltb_ℤ n (pos 0) then pos 0 else n

unfoldable pub usage_cost_from_tokens : ℤ → ℤ → ℤ
usage_cost_from_tokens input output =
    let cost = quot (wrap64 (floor_zero input +ℤ floor_zero output)) 1000 in
    if ltb_ℤ cost (pos 1) then pos 1 else cost

-- A usage object holds the fields that `asInt64` reads as numbers.
abbrev or_else : Option ℤ → Option ℤ → Option ℤ
or_else (some a) o = some a
or_else none o = o

abbrev or_zero : Option ℤ → ℤ
or_zero (some a) = a
or_zero none = pos 0

abbrev is_some : Option ℤ → Bool
is_some (some a) = true
is_some none = false

unfoldable pub cost_from_usage_map : List (String × ℤ) → Option ℤ
unfolding usage_cost_from_tokens
cost_from_usage_map m =
    let input = or_else (lookup "input_tokens" m) (lookup "prompt_tokens" m) in
    let output = or_else (lookup "output_tokens" m) (lookup "completion_tokens" m) in
    if is_some input || is_some output
    then some (usage_cost_from_tokens (or_zero input) (or_zero output))
    else if is_some (lookup "total_tokens" m) && ltb_ℤ (pos 0) (or_zero (lookup "total_tokens" m))
    then some (usage_cost_from_tokens (or_zero (lookup "total_tokens" m)) (pos 0))
    else none

-- Every cost is at least 1, also where the sum of the two counts wraps around.
usage_cost_from_tokens-positive : (a b : ℤ) → pos 1 ≤ℤ usage_cost_from_tokens a b
unfolding usage_cost_from_tokens
usage_cost_from_tokens-positive a b = ground arith

wrap64-pos : (n : ℕ) → n < 9223372036854775808 → wrap64 (pos n) ≡ pos n
unfolding wrap64
wrap64-pos n fits = ground arith

plus_floors : (a b : ℕ) → floor_zero (pos a) +ℤ floor_zero (pos b) ≡ pos (a + b)
unfolding ◌+ℤ◌
plus_floors a b = ground arith

-- Where the sum of two counts is below 2^63, a request costs one unit for each thousand tokens,
-- rounded down, and at least one unit.
usage_cost_from_tokens_lem :
    (a b : ℕ)
    → a + b < 9223372036854775808
    → usage_cost_from_tokens (pos a) (pos b) ≡ pos (max 1 ((a + b) / 1000))
unfolding usage_cost_from_tokens quot
usage_cost_from_tokens_lem a b fits = rw (plus_floors a b, wrap64-pos (a + b) fits) (ground arith)
