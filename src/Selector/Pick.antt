-- ===== src/Selector/Pick.antt =====
-- internal/selector/selector.go: picking an account. `draw t n` is the answer of the t-th call of
-- `Intn(n)` and `uniform i` of the i-th call of `Float64()` during one pick.
use grokbuild_pool.Base.{
  ℕ, suc, ◌+◌, ◌%◌, ◌^◌, ℤ, pos, negsuc, pos_part, ltb_ℤ, leb_ℤ, eqb_ℤ, String, Bool, false, not,
  ◌&&◌, ◌||◌, List, [], ◌∷◌, Option, none, some, length, get_elem?, if◌then◌else◌, ◌==◌, ◌/=◌,
  string_eq, str_lt,
}
use grokbuild_pool.Hot.Meta.{HotMeta, IdSet, excluded, resolve_now}
use grokbuild_pool.Hot.Index.{Index, get, eligible_meta, eligible}
use grokbuild_pool.Hot.Sample.{sample_eligible}
use grokbuild_pool.Selector.Sticky.{
  StickyLru, new_sticky_lru, get_pair, put, put_secondary, delete_key, delete_account,
}
use grokbuild_pool.Selector.Config.{Float64, Config, normalize, strategy_stable_rr}

-- `int32(-1 << 30)`.
abbrev pub lowest_priority : ℤ
lowest_priority = negsuc 1073741823

-- The accounts of the highest priority among those not excluded.
unfoldable pub best_layer : IdSet → ℤ → List HotMeta → List HotMeta → List HotMeta
best_layer exclude best cands_rev [] = cands_rev
best_layer exclude best cands_rev (m ∷ all) =
    let higher = best_layer exclude m.priority (m ∷ []) all in
    let equal = best_layer exclude best (m ∷ cands_rev) all in
    let rest = best_layer exclude best cands_rev all in
    if excluded exclude m.id
    then rest
    else if ltb_ℤ best m.priority
    then higher
    else if eqb_ℤ m.priority best
    then equal
    else rest

unfoldable pub rev_onto : List HotMeta → List HotMeta → List HotMeta
rev_onto [] acc = acc
rev_onto (m ∷ ms) acc = rev_onto ms (m ∷ acc)

-- One round of the insertion sort: `sorted` is the prefix before position i, last element first,
-- and m moves left past the ids that are greater.
unfoldable pub sink : HotMeta → List HotMeta → List HotMeta
sink m [] = m ∷ []
sink m (x ∷ sorted) = if str_lt m.id x.id then x ∷ sink m sorted else m ∷ x ∷ sorted

unfoldable pub sort_loop : List HotMeta → List HotMeta → List HotMeta
unfolding sink
sort_loop sorted [] = sorted
sort_loop sorted (m ∷ ms) = sort_loop (sink m sorted) ms

unfoldable pub sort_by_id : List HotMeta → List HotMeta
unfolding sort_loop rev_onto
sort_by_id cands = rev_onto (sort_loop [] cands) []

-- The candidates in the order of their ids.
unfoldable pub candidates : ℤ → Index → ℤ → IdSet → List HotMeta
unfolding best_layer sort_by_id rev_onto
candidates clock idx now exclude =
    sort_by_id (rev_onto (best_layer exclude lowest_priority [] (eligible clock idx now)) [])

-- `idx := int(s.rrCursor % uint64(len(cands)))`, and the cursor wraps at 2^64. Nothing is picked
-- and the cursor stays where there is no candidate.
unfoldable pub take_turn : ℕ → List HotMeta → ℕ × Option HotMeta
take_turn cursor [] = (cursor, none)
take_turn cursor (c ∷ cs) = ((cursor + 1) % 2 ^ 64, get_elem? (c ∷ cs) (cursor % suc (length cs)))

unfoldable pub stable_rr_pick : ℤ → Index → ℤ → IdSet → ℕ → ℕ × Option HotMeta
unfolding candidates take_turn
stable_rr_pick clock idx now exclude cursor = take_turn cursor (candidates clock idx now exclude)

module _ (f : Float64) where
  unfoldable pub score_with : Config f.F → HotMeta → f.F → f.F
  score_with cfg m jitter =
      f.add
        (f.sub
          (f.sub (f.mul cfg.w_priority (f.of_int m.priority))
            (f.mul cfg.w_inflight (f.of_int m.inflight)))
          (f.mul cfg.w_failure (f.of_int m.failure_score)))
        jitter

  unfoldable pub sample_jitter : f.F → f.F → f.F
  sample_jitter u amp =
      if f.eq amp (f.of_int (pos 0))
      then f.of_int (pos 0)
      else f.mul (f.sub (f.mul u (f.of_int (pos 2))) (f.of_int (pos 1))) amp

  -- The loop from the second round on, with the best so far.
  unfoldable pub best_loop : Config f.F → (ℕ → f.F) → ℕ → f.F → String → List HotMeta → String
  unfolding score_with sample_jitter
  best_loop cfg uniform i best_score best_id [] = best_id
  best_loop cfg uniform i best_score best_id (m ∷ picked) =
      let sc = score_with cfg m (sample_jitter (uniform i) cfg.jitter_amp) in
      let taken = best_loop cfg uniform (i + 1) sc m.id picked in
      let kept = best_loop cfg uniform (i + 1) best_score best_id picked in
      if f.lt best_score sc || (f.eq sc best_score && str_lt m.id best_id) then taken else kept

  unfoldable pub best_of : Config f.F → (ℕ → f.F) → List HotMeta → String
  unfolding best_loop
  best_of cfg uniform [] = ""
  best_of cfg uniform (m ∷ picked) =
      best_loop cfg uniform 1 (score_with cfg m (sample_jitter (uniform 0) cfg.jitter_amp)) m.id
        picked

  unfoldable pub pow2_pick :
      ℤ → Index → ℤ → IdSet → Config f.F → (ℕ → ℕ → ℕ) → (ℕ → f.F) → Option String
  unfolding best_of
  pow2_pick clock idx now exclude cfg draw uniform =
      let k = if leb_ℤ cfg.pow2_k (pos 0) then 1 else pos_part cfg.pow2_k in
      let id = best_of cfg uniform (sample_eligible clock idx now k exclude draw) in
      if id == "" then none else some id

  -- The hot index is shared with the lease manager and is an argument of each call.
  pub record Selector : Type 0 where
    pub cfg : Config f.F
    pub sticky : StickyLru
    pub rr_cursor : ℕ
    pub primary_hits : ℕ
    pub secondary_hits : ℕ
    pub reselects : ℕ

  unfoldable pub new_selector : Config f.F → Selector
  new_selector given =
      let c = normalize f given in
      record {
        cfg = c;
        sticky = new_sticky_lru c.sticky_max c.sticky_ttl_sec;
        rr_cursor = 0;
        primary_hits = 0;
        secondary_hits = 0;
        reselects = 0;
      }

  unfoldable pub apply_config : Selector → Config f.F → Selector
  apply_config s given =
      let c = record given {
        strategy = if given.strategy == "" then strategy_stable_rr else given.strategy;
        max_attempts = if ltb_ℤ given.max_attempts (pos 1) then pos 1 else given.max_attempts;
        pow2_k = if ltb_ℤ given.pow2_k (pos 1) then pos 1 else given.pow2_k;
        sticky_max = if ltb_ℤ given.sticky_max (pos 0) then pos 0 else given.sticky_max;
      } in
      let same =
        eqb_ℤ s.cfg.sticky_ttl_sec c.sticky_ttl_sec && eqb_ℤ s.cfg.sticky_max c.sticky_max in
      record s {
        cfg = c;
        sticky = if same then s.sticky else new_sticky_lru c.sticky_max c.sticky_ttl_sec;
      }

  -- The strategy's choice and the cursor after it.
  unfoldable pub strategy_pick :
      ℤ → Index → Selector → ℤ → IdSet → (ℕ → ℕ → ℕ) → (ℕ → f.F) → ℕ × Option String
  unfolding stable_rr_pick pow2_pick
  strategy_pick clock idx s now exclude draw uniform =
      if (s.cfg.strategy == strategy_stable_rr)
        || ((s.cfg.strategy == "round_robin") || (s.cfg.strategy == "rr"))
      then (let (cursor, picked) = stable_rr_pick clock idx now exclude s.rr_cursor in
          (cursor, elim picked [ none ↦ none | some m ↦ some m.id ]))
      else (s.rr_cursor, pow2_pick clock idx now exclude s.cfg draw uniform)

  -- May a bound account be picked at this time?
  unfoldable pub usable : Index → ℤ → IdSet → String → Bool
  usable idx now exclude id =
      (id /= "")
      && (not (excluded exclude id)
          && elim (get idx id) [ none ↦ false | some m ↦ eligible_meta idx m now ])

  -- Part 2 of `PickExcluding`: a new choice, which is bound to the key.
  unfoldable pub reselect :
      ℤ
      → Index
      → Selector
      → ℤ
      → String
      → IdSet
      → (ℕ → ℕ → ℕ)
      → (ℕ → f.F)
      → Bool
      → Selector × Option String
  unfolding strategy_pick
  reselect clock idx s now key exclude draw uniform was_bound =
      let (cursor, picked) = strategy_pick clock idx s now exclude draw uniform in
      let s' = record s { rr_cursor = cursor } in
      elim picked [
        | none ↦ (s', none)
        | some id ↦ (
          if key == "" then s' else record s' {
            sticky = put s'.sticky now key id;
            reselects = if was_bound then s'.reselects + 1 else s'.reselects;
          },
          some id,
        )
      ]

  unfoldable pub pick_excluding :
      ℤ → Index → Selector → ℤ → String → IdSet → (ℕ → ℕ → ℕ) → (ℕ → f.F) → Selector × Option String
  unfolding reselect usable
  pick_excluding clock idx s given_now key exclude draw uniform =
      let now = resolve_now clock given_now in
      let (sticky', found) = get_pair s.sticky now key in
      let s' = record s { sticky = sticky' } in
      elim found [
        | none ↦ reselect clock idx s' now key exclude draw uniform false
        | some pair ↦
            if usable idx now exclude pair.0
            then (record s' { primary_hits = s'.primary_hits + 1 }, some pair.0)
            else if usable idx now exclude pair.1
            then (
              record s' {
                sticky = put s'.sticky now key pair.1;
                secondary_hits = s'.secondary_hits + 1;
              },
              some pair.1,
            )
            else reselect clock idx s' now key exclude draw uniform
                ((pair.0 /= "") || (pair.1 /= ""))
      ]

  unfoldable pub bind_sticky : ℤ → Selector → String → String → Selector
  bind_sticky clock s key account_id = record s { sticky = put s.sticky clock key account_id }

  unfoldable pub bind_sticky_secondary : ℤ → Selector → String → String → Selector
  bind_sticky_secondary clock s key account_id = record s {
    sticky = put_secondary s.sticky clock key account_id;
  }

  unfoldable pub clear_sticky_key : Selector → String → Selector
  clear_sticky_key s key = record s { sticky = delete_key s.sticky key }

  unfoldable pub clear_sticky_account : Selector → String → Selector
  clear_sticky_account s account_id = record s { sticky = delete_account s.sticky account_id }
