-- ===== src/Lease/Backoff.antt =====
-- internal/lease/lease.go (cooldownSeconds, decayFailureCount): bounds of a cooldown.
use native.Mathlib.Nat.{mul-le-mul_left, mul-le-mul_right, pow-suc}
use grokbuild_pool.Base.{
  ℕ, zero, suc, ◌+◌, ◌-◌, ◌*◌, ◌/◌, ◌^◌, ◌≤◌, ◌<◌, ℤ, pos, pos_part, ◌-ℤ◌, ◌*ℤ◌, ◌≤ℤ◌, ◌<ℤ◌,
  +ℤ_parts, -ℤ_parts, eq_of_parts, shl64, mul64, quot, wrap64, ◌≡◌, refl, ap, ◌∙◌, arith,
  if◌then◌else◌, ltb, leb, Bool-cases, inl, inr,
}
use grokbuild_pool.Lease.Config.{Config}
use grokbuild_pool.Lease.Cooldown.{
  decay_failure_count, floor_at, cap_at, backoff, capped_seconds, jittered, cooldown_seconds,
}

-- The cap holds before the jitter.
capped_seconds-bounds :
    (cfg : Config) (code retry fc : ℤ)
    → pos 0 <ℤ cfg.cooldown_cap_sec
    → (pos 1 ≤ℤ capped_seconds cfg code retry fc)
      × (capped_seconds cfg code retry fc ≤ℤ cfg.cooldown_cap_sec)
unfolding capped_seconds
capped_seconds-bounds cfg code retry fc h = (ground arith, ground arith)

times : (a b : ℕ) → pos a *ℤ pos b ≡ pos (a * b)
unfolding ◌*ℤ◌
times a b = ground arith

wrap64_small : (x : ℕ) → x < 2 ^ 63 → wrap64 (pos x) ≡ pos x
unfolding wrap64
wrap64_small x h = ground arith

quot_pos : (x : ℕ) → quot (pos x) 100 ≡ pos (x / 100)
unfolding quot
quot_pos x = refl

mul64_small : (a b : ℕ) → a * b < 2 ^ 63 → mul64 (pos a) (pos b) ≡ pos (a * b)
unfolding mul64
mul64_small a b h = ap wrap64 (times a b) ∙ wrap64_small (a * b) h

-- Jitter of at most 100 percent of n seconds.
jittered-bounds :
    (draw : ℕ → ℕ) (j n : ℕ)
    → ((k : ℕ) → 0 < k → draw k < k)
    → j ≤ 100
    → 1 ≤ n
    → n < 2 ^ 50
    → (pos 1 ≤ℤ jittered draw (pos j) (pos n))
      × (jittered draw (pos j) (pos n) ≤ℤ pos (n + n * j / 100))
unfolding jittered
jittered-bounds draw j n fair hj hn big =
    let small : n * j ≤ n * 100 = mul-le-mul_left n hj in
    let delta = n * j / 100 in
    let same : quot (mul64 (pos n) (pos j)) 100 ≡ pos delta =
      ap (λ z. quot z 100) (mul64_small n j (omega (arith, small))) ∙ quot_pos (n * j) in
    let d = draw (2 * delta + 1) in
    rw same (
      ground (
        arith,
        small,
        fair (2 * delta + 1),
        -ℤ_parts (pos n) (pos delta),
        +ℤ_parts (pos n -ℤ pos delta) (pos d),
      ))

cap_monotone : (n top j : ℕ) → n ≤ top → n + n * j / 100 ≤ top + top * j / 100
cap_monotone n top j h = omega (arith, mul-le-mul_right j h)

-- With a cap from 1 to below 2^50 seconds, a jitter of 0 to 100 percent and draws in their range, a
-- cooldown is at least one second and at most the cap and the jitter's share of it on top.
pub cooldown_seconds-bounds :
    (draw : ℕ → ℕ) (cfg : Config) (cap j : ℕ) (code retry fc : ℤ)
    → ((k : ℕ) → 0 < k → draw k < k)
    → cfg.cooldown_cap_sec ≡ pos cap
    → 0 < cap
    → cap < 2 ^ 50
    → cfg.cooldown_jitter_pct ≡ pos j
    → j ≤ 100
    → (pos 1 ≤ℤ cooldown_seconds draw cfg code retry fc)
      × (cooldown_seconds draw cfg code retry fc ≤ℤ pos (cap + cap * j / 100))
unfolding cooldown_seconds
cooldown_seconds-bounds draw cfg cap j code retry fc fair ec hc big ej hj =
    let sec = capped_seconds cfg code retry fc in
    let within = capped_seconds-bounds cfg code retry fc (ground (arith, ec)) in
    let n = pos_part sec in
    let at_n : sec ≡ pos n = ground (arith, within) in
    let low : n ≤ cap = ground (arith, within, ec) in
    let r = jittered-bounds draw j n fair hj (ground (arith, within)) (omega (arith, low, big)) in
    rw (ej, at_n) (r.0, ground (arith, r.1, cap_monotone n cap j low))

-- A 429 without Retry-After doubles the base with every failure, up to the limit of the exponent,
-- while the result fits an int64.
backoff-doubles :
    (cfg : Config) (base e top : ℕ)
    → cfg.cooldown_base_sec ≡ pos base
    → cfg.cooldown_exp_max ≡ pos top
    → base * 2 ^ (if ltb top e then top else e) < 2 ^ 63
    → backoff cfg (pos (suc e)) ≡ pos (base * 2 ^ (if ltb top e then top else e))
unfolding backoff shl64
backoff-doubles cfg base e top eb et h =
    let k = if ltb top e then top else e in
    let shift : pos_part (cap_at (floor_at (pos (suc e) -ℤ pos 1) (pos 0)) cfg.cooldown_exp_max)
        ≡ k =
      ground (arith, et, -ℤ_parts (pos (suc e)) (pos 1)) in
    rw (shift, eb) (ap wrap64 (times base (2 ^ k)) ∙ wrap64_small (base * 2 ^ k) h)

-- The failure score after n successes in a row.
unfoldable pub decay_times : ℕ → ℤ → ℤ
decay_times zero fc = fc
decay_times (suc n) fc = decay_times n (decay_failure_count fc)

decay_step : (n : ℕ) → decay_failure_count (pos n) ≡ pos ((n - 1) / 2)
unfolding decay_failure_count quot
decay_step n = elim (Bool-cases (leb n 0)) [
  | inl low ↦ ground arith
  | inr up ↦
      let less : pos n -ℤ pos 1 ≡ pos (n - 1) =
        eq_of_parts (pos n -ℤ pos 1) (pos (n - 1)) (ground (arith, -ℤ_parts (pos n) (pos 1))) in
      rw less (ground arith)
]

-- A failure score below 2^n is gone after n successes in a row.
decay_times-forgives : (n score : ℕ) → score < 2 ^ n → decay_times n (pos score) ≡ pos 0
unfolding decay_times
decay_times-forgives zero score h = ground (arith, h)
decay_times-forgives (suc n) score h =
    ap (decay_times n) (decay_step score)
    ∙ decay_times-forgives n ((score - 1) / 2) (omega (arith, pow-suc 2 n))
