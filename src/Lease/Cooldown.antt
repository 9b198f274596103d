-- ===== src/Lease/Cooldown.antt =====
-- internal/lease/lease.go: how long an account cools down, and the cooldowns of single models.
-- `draw n` is the answer of `Int63n(n)`; a Duration is a count of nanoseconds, and its `Seconds()`
-- is taken to be exact. The shift count is not negative while CooldownExpMax is not.
use grokbuild_pool.Base.{
  ℕ, ◌+◌, ◌*◌, ℤ, pos, pos_part, ◌+ℤ◌, ◌-ℤ◌, ltb_ℤ, leb_ℤ, eqb_ℤ, shl64, mul64, quot, String, Bool,
  true, false, List, [], ◌∷◌, none, some, if◌then◌else◌, ◌==◌, ◌||◌, string_eq, lookup, insert,
  delete,
}
use grokbuild_pool.Lease.Config.{Config}

unfoldable pub decay_failure_count : ℤ → ℤ
decay_failure_count fc = if leb_ℤ fc (pos 0) then pos 0 else quot (fc -ℤ pos 1) 2

abbrev pub floor_at : ℤ → ℤ → ℤ
floor_at n low = if ltb_ℤ n low then low else n

abbrev pub cap_at : ℤ → ℤ → ℤ
cap_at n top = if ltb_ℤ top n then top else n

-- `int64(retryAfter.Seconds())`.
abbrev pub seconds : ℤ → ℤ
seconds d = quot d 1_000_000_000

-- The exponential back-off of a 429 without Retry-After.
unfoldable pub backoff : Config → ℤ → ℤ
backoff cfg failure_count =
    shl64 cfg.cooldown_base_sec
      (pos_part (cap_at (floor_at (failure_count -ℤ pos 1) (pos 0)) cfg.cooldown_exp_max))

unfoldable pub base_seconds : Config → ℤ → ℤ → ℤ → ℤ
unfolding backoff
base_seconds cfg code retry_after failure_count =
    if eqb_ℤ code (pos 429)
    then (if ltb_ℤ (pos 0) retry_after
        then floor_at (seconds retry_after) (pos 1)
        else backoff cfg failure_count)
    else if eqb_ℤ code (pos 403)
    then (if ltb_ℤ (pos 0) retry_after
        then floor_at cfg.forbidden_cooldown_sec (seconds retry_after)
        else cfg.forbidden_cooldown_sec)
    else if eqb_ℤ code (pos 401)
    then cfg.unauthorized_cooldown_sec
    else if eqb_ℤ code (pos 402)
    then cfg.payment_required_cooldown_sec
    else cfg.cooldown_base_sec

-- The cap and the floor of one second.
unfoldable pub capped_seconds : Config → ℤ → ℤ → ℤ → ℤ
unfolding base_seconds
capped_seconds cfg code retry_after failure_count =
    floor_at (cap_at (base_seconds cfg code retry_after failure_count) cfg.cooldown_cap_sec) (pos 1)

unfoldable pub jittered : (ℕ → ℕ) → ℤ → ℤ → ℤ
jittered draw j sec =
    let delta = quot (mul64 sec j) 100 in
    if ltb_ℤ (pos 0) j
    then (if ltb_ℤ (pos 0) delta
        then floor_at ((sec -ℤ delta) +ℤ pos (draw (2 * pos_part delta + 1))) (pos 1)
        else sec)
    else sec

unfoldable pub cooldown_seconds : (ℕ → ℕ) → Config → ℤ → ℤ → ℤ → ℤ
unfolding capped_seconds jittered
cooldown_seconds draw cfg code retry_after failure_count =
    jittered draw cfg.cooldown_jitter_pct (capped_seconds cfg code retry_after failure_count)

-- account -> model -> unix until.
abbrev pub ModelCool : Type 0
ModelCool = List (String × List (String × ℤ))

abbrev pub models_of : ModelCool → String → List (String × ℤ)
models_of mc id = elim (lookup id mc) [ none ↦ [] | some mm ↦ mm ]

-- The write-through to the catalog's table of model cooldowns is not modelled.
unfoldable pub set_model_cooldown_err : ModelCool → String → String → ℤ → ModelCool
set_model_cooldown_err mc id model until =
    if (id == "") || ((model == "") || leb_ℤ until (pos 0))
    then mc
    else insert id (insert model until (models_of mc id)) mc

-- `until := mm[model]`, which is 0 for a missing model.
abbrev pub until_of : ModelCool → String → String → ℤ
until_of mc id model = elim (lookup model (models_of mc id)) [ none ↦ pos 0 | some u ↦ u ]

unfoldable pub model_cooldown_active : ModelCool → String → String → ℤ → ModelCool × Bool
model_cooldown_active mc id model now =
    if (id == "") || (model == "") then (mc, false) else elim (lookup id mc) [
      | none ↦ (mc, false)
      | some mm ↦
          if leb_ℤ (until_of mc id model) now
          then (
            elim (delete model mm) [ [] ↦ delete id mc | p ∷ ps ↦ insert id (p ∷ ps) mc ],
            false,
          )
          else (mc, true)
    ]

unfoldable pub model_cooldown_until : ModelCool → String → String → ℤ
model_cooldown_until mc id model = until_of mc id model
