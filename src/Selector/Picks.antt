-- ===== src/Selector/Picks.antt =====
-- internal/selector/selector.go (PickExcluding): what a pick promises, whatever the strategy, the
-- draws and the arithmetic of the scores are.
use grokbuild_pool.Base.{
  ℕ, ◌+◌, ◌<◌, ℤ, pos, pos_part, leb_ℤ, Bool, true, false, ◌&&◌, ◌||◌, ◌≡◌, refl, ap, ◌∙◌, subst,
  List, [], ◌∷◌, Option, none, some, inl, inr, ◌⊎◌, arith, length, if◌then◌else◌, if_split,
  option_split, All, Option-cases, String, string_eq, eq_iff, ◌==◌, ◌/=◌, str_lt, lookup,
}
use grokbuild_pool.Hot.Meta.{HotMeta, IdSet, excluded, resolve_now}
use grokbuild_pool.Hot.Index.{Index, get}
use grokbuild_pool.Hot.Valid.{IsValid}
use grokbuild_pool.Hot.Picked.{MayPick, sample_eligible-MayPick}
use grokbuild_pool.Hot.Sample.{sample_eligible}
use grokbuild_pool.Selector.Sticky.{get_pair}
use grokbuild_pool.Selector.Config.{Float64, Config}
use grokbuild_pool.Selector.Pick.{
  Selector, score_with, sample_jitter, best_loop, best_of, pow2_pick, stable_rr_pick, strategy_pick,
  usable, reselect, pick_excluding,
}
use grokbuild_pool.Selector.RoundRobin.{stable_rr_pick-IsHighest}

-- An id of an account that may be picked.
unfoldable pub IsPick : Index → ℤ → IdSet → String → Type 0
IsPick idx time exclude id = (m : HotMeta) × ((m.id ≡ id) × MayPick idx time exclude m)

resolve_twice : (clock now : ℤ) → resolve_now clock (resolve_now clock now) ≡ resolve_now clock now
resolve_twice clock now = ground arith

All-id :
    (idx : Index) (time : ℤ) (exclude : IdSet) (ms : List HotMeta)
    → All (MayPick idx time exclude) ms
    → All (λ m. IsPick idx time exclude m.id ⊎ (m.id ≡ "")) ms
unfolding IsPick
All-id idx time exclude [] h = tt
All-id idx time exclude (m ∷ ms) h = (inl (m, (refl, h.0)), All-id idx time exclude ms h.1)

module _ (f : Float64) where
  best_loop-All :
      (P : String → Type 0) (cfg : Config f.F) (uniform : ℕ → f.F) (i : ℕ) (sc : f.F) (id : String)
      (ms : List HotMeta)
      → P id
      → All (λ m. P m.id) ms
      → P (best_loop f cfg uniform i sc id ms)
  unfolding best_loop
  best_loop-All P cfg uniform i sc id [] h k = h
  best_loop-All P cfg uniform i sc id (m ∷ ms) h k =
      let sc' = score_with f cfg m (sample_jitter f (uniform i) cfg.jitter_amp) in
      if_split P (f.lt sc sc' || (f.eq sc' sc && str_lt m.id id))
        (λ _. best_loop-All P cfg uniform (i + 1) sc' m.id ms k.0 k.1)
        (λ _. best_loop-All P cfg uniform (i + 1) sc id ms h k.1)

  best_of-All :
      (P : String → Type 0) (cfg : Config f.F) (uniform : ℕ → f.F) (ms : List HotMeta)
      → (0 < length ms) ⊎ P ""
      → All (λ m. P m.id) ms
      → P (best_of f cfg uniform ms)
  unfolding best_of
  best_of-All P cfg uniform [] (inl h) k = absurd (omega arith)
  best_of-All P cfg uniform [] (inr h) k = h
  best_of-All P cfg uniform (m ∷ ms) h k = best_loop-All P cfg uniform 1 _ m.id ms k.0 k.1

  pow2_pick-IsPick :
      (clock : ℤ) (idx : Index) (now : ℤ) (exclude : IdSet) (cfg : Config f.F) (draw : ℕ → ℕ → ℕ)
      (uniform : ℕ → f.F) (id : String)
      → IsValid idx
      → pow2_pick f clock idx now exclude cfg draw uniform ≡ some id
      → IsPick idx (resolve_now clock now) exclude id
  unfolding pow2_pick IsPick
  pow2_pick-IsPick clock idx now exclude cfg draw uniform id v e =
      let time = resolve_now clock now in
      let k = if leb_ℤ cfg.pow2_k (pos 0) then 1 else pos_part cfg.pow2_k in
      let P : String → Type 0 = λ j. IsPick idx time exclude j ⊎ (j ≡ "") in
      let ms = sample_eligible clock idx now k exclude draw in
      let best = best_of f cfg uniform ms in
      let good =
        best_of-All P cfg uniform ms (inr (inr refl))
          (All-id idx time exclude ms (sample_eligible-MayPick clock idx now k exclude draw v)) in
      elim good [
        | inl p ↦ subst (IsPick idx time exclude) (ground (arith, eq_iff best "")) p
        | inr blank ↦ ground (arith, eq_iff best "")
      ]

  stable_rr_pick-IsPick :
      (clock : ℤ) (idx : Index) (now : ℤ) (exclude : IdSet) (cursor : ℕ) (id : String)
      → IsValid idx
      → elim (stable_rr_pick clock idx now exclude cursor).1 [ none ↦ none | some m ↦ some m.id ]
        ≡ some id
      → IsPick idx (resolve_now clock now) exclude id
  unfolding IsPick
  stable_rr_pick-IsPick clock idx now exclude cursor id v e =
      elim (Option-cases (stable_rr_pick clock idx now exclude cursor).1) [
        | inl missing ↦ ground arith
        | inr (m, at) ↦ (
          m,
          (ground arith, (stable_rr_pick-IsHighest clock idx now exclude cursor m v at).may_pick),
        )
      ]

  strategy_pick-IsPick :
      (clock : ℤ) (idx : Index) (s : Selector f) (now : ℤ) (exclude : IdSet) (draw : ℕ → ℕ → ℕ)
      (uniform : ℕ → f.F) (id : String)
      → IsValid idx
      → (strategy_pick f clock idx s now exclude draw uniform).1 ≡ some id
      → IsPick idx (resolve_now clock now) exclude id
  unfolding strategy_pick
  strategy_pick-IsPick clock idx s now exclude draw uniform id v =
      if_split
        (λ (r : ℕ × Option String). r.1 ≡ some id → IsPick idx (resolve_now clock now) exclude id)
        ((s.cfg.strategy == "stable_rr")
          || ((s.cfg.strategy == "round_robin") || (s.cfg.strategy == "rr")))
        (λ _ e. stable_rr_pick-IsPick clock idx now exclude s.rr_cursor id v e)
        (λ _ e. pow2_pick-IsPick clock idx now exclude s.cfg draw uniform id v e)

  usable-IsPick :
      (idx : Index) (time : ℤ) (exclude : IdSet) (id : String)
      → IsValid idx
      → usable f idx time exclude id ≡ true
      → IsPick idx time exclude id
  unfolding usable IsPick get
  usable-IsPick idx time exclude id v h = elim (Option-cases (get idx id)) [
    | inl missing ↦ ground arith
    | inr (m, at) ↦
        let same = v.sound.named id m at in
        (
          m,
          (
            same,
            record {
              stored = ap (λ j. lookup j idx.hot) same ∙ at;
              qualifies = ground arith;
              allowed = ground (arith, ap (excluded exclude) same);
            },
          ),
        )
  ]

  Promised : Index → ℤ → IdSet → Selector f × Option String → Type 0
  Promised idx time exclude r = (id : String) → r.1 ≡ some id → IsPick idx time exclude id

  reselect-IsPick :
      (clock : ℤ) (idx : Index) (s : Selector f) (now : ℤ) (key : String) (exclude : IdSet)
      (draw : ℕ → ℕ → ℕ) (uniform : ℕ → f.F) (was : Bool)
      → IsValid idx
      → Promised idx
          (resolve_now clock now)
          exclude
          (reselect f clock idx s now key exclude draw uniform was)
  unfolding reselect Promised
  reselect-IsPick clock idx s now key exclude draw uniform was v id e =
      strategy_pick-IsPick clock idx s now exclude draw uniform id v (ground arith)

  -- Whatever a pick from a valid index answers is an account in the hot set that is eligible at the
  -- time of the pick, below the in-flight limit, and not excluded, by the sticky binding as well
  -- as by either strategy.
  pub pick_excluding-IsPick :
      (clock : ℤ) (idx : Index) (s : Selector f) (now : ℤ) (key : String) (exclude : IdSet)
      (draw : ℕ → ℕ → ℕ) (uniform : ℕ → f.F) (id : String)
      → IsValid idx
      → (pick_excluding f clock idx s now key exclude draw uniform).1 ≡ some id
      → IsPick idx (resolve_now clock now) exclude id
  unfolding pick_excluding Promised
  pick_excluding-IsPick clock idx s given key exclude draw uniform id v =
      let now = resolve_now clock given in
      let s' = record s { sticky = (get_pair s.sticky now key).0 } in
      let again : (b : Bool)
          → Promised idx now exclude (reselect f clock idx s' now key exclude draw uniform b) =
        λ b.
          subst
            (λ t. Promised idx t exclude (reselect f clock idx s' now key exclude draw uniform b))
            (resolve_twice clock given)
            (reselect-IsPick clock idx s' now key exclude draw uniform b v) in
      let P = λ (r : Selector f × Option String). r.1 ≡ some id → IsPick idx now exclude id in
      option_split P (get_pair s.sticky now key).1 (λ _. again false id)
        (λ pair bound.
          if_split P (usable f idx now exclude pair.0)
            (λ h e. usable-IsPick idx now exclude id v (ground arith))
            (λ _.
              if_split P (usable f idx now exclude pair.1)
                (λ h e. usable-IsPick idx now exclude id v (ground arith))
                (λ _. again ((pair.0 /= "") || (pair.1 /= "")) id)))
