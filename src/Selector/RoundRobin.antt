-- ===== src/Selector/RoundRobin.antt =====
-- internal/selector/selector.go (stableRRPick): what the round robin chooses.
use grokbuild_pool.Base.{
  ℕ, ◌%◌, ◌<◌, ℤ, ◌≤ℤ◌, ◌<ℤ◌, ◌⊎◌, eq_of_parts, ltb_ℤ, eqb_ℤ, eqb_ℤ_iff, String, Bool, true, false,
  ◌≡◌, refl, ap, ◌∙◌, subst, List, [], ◌∷◌, map, keep, some, inl, inr, arith, length, get_elem?,
  if◌then◌else◌, if_split, ◌==◌, string_eq, eq_iff, lookup, IsUniq, All, Bool-cases,
}
use grokbuild_pool.Hot.Meta.{HotMeta, IdSet, excluded, resolve_now}
use grokbuild_pool.Hot.Index.{Index, HotMap, get, eligible_meta, eligible}
use grokbuild_pool.Hot.Valid.{IsValid}
use grokbuild_pool.Hot.Picked.{MayPick}
use grokbuild_pool.Selector.Order.{
  rev_onto-All, sort_by_id-All, All-get_elem?, length-rev_onto, length-sort_by_id,
}
use grokbuild_pool.Selector.Pick.{
  best_layer, rev_onto, candidates, take_turn, stable_rr_pick, lowest_priority,
}

-- The layer holds accounts that are not excluded, all of one priority, which no other account that
-- is not excluded exceeds.
Layer : (HotMeta → Type 0) → IdSet → ℤ → HotMeta → Type 0
Layer P exclude best m = P m × ((excluded exclude m.id ≡ false) × (m.priority ≡ best))

Below : IdSet → ℤ → HotMeta → Type 0
Below exclude best m = excluded exclude m.id ≡ false → m.priority ≤ℤ best

record IsLayer (P : HotMeta → Type 0) (exclude : IdSet) (best : ℤ) (all cands : List HotMeta)
    : Type 0 where
  top : ℤ
  layer : All (Layer P exclude top) cands
  above : best ≤ℤ top
  below : All (Below exclude top) all

best_layer-IsLayer :
    (P : HotMeta → Type 0) (exclude : IdSet) (best : ℤ) (cands all : List HotMeta)
    → All (Layer P exclude best) cands
    → All P all
    → IsLayer P exclude best all (best_layer exclude best cands all)
unfolding best_layer Layer Below
best_layer-IsLayer P exclude best cands [] h k = record {
  top = best;
  layer = h;
  above = ground arith;
  below = tt;
}
best_layer-IsLayer P exclude best cands (m ∷ all) h k =
    if_split (IsLayer P exclude best (m ∷ all)) (excluded exclude m.id)
      (λ out.
        let r = best_layer-IsLayer P exclude best cands all h k.1 in
        record {
          top = r.top;
          layer = r.layer;
          above = r.above;
          below = (λ b. ground arith, r.below);
        })
      (λ free.
        if_split (IsLayer P exclude best (m ∷ all)) (ltb_ℤ best m.priority)
          (λ up.
            let r =
              best_layer-IsLayer P exclude m.priority (m ∷ []) all ((k.0, (free, refl)), tt) k.1 in
            record {
              top = r.top;
              layer = r.layer;
              above = ground (arith, r.above);
              below = (λ b. r.above, r.below);
            })
          (λ low.
            if_split (IsLayer P exclude best (m ∷ all)) (eqb_ℤ m.priority best)
              (λ same.
                let r =
                  best_layer-IsLayer P exclude best (m ∷ cands) all
                    ((k.0, (free, (eqb_ℤ_iff m.priority best).0 same)), h) k.1 in
                record {
                  top = r.top;
                  layer = r.layer;
                  above = r.above;
                  below = (λ b. ground (arith, r.above), r.below);
                })
              (λ less.
                let r = best_layer-IsLayer P exclude best cands all h k.1 in
                record {
                  top = r.top;
                  layer = r.layer;
                  above = r.above;
                  below = (λ b. ground (arith, r.above), r.below);
                })))

-- What holds of the eligible accounts, and what holds of all of them.
module _ (P : HotMeta → Type 0) (f : HotMeta → Bool) where
  eligible-All :
      (full hot : HotMap)
      → ((k : String) (m : HotMeta) → lookup k hot ≡ some m → lookup k full ≡ some m)
      → IsUniq hot
      → ((k : String) (m : HotMeta) → lookup k full ≡ some m → f m ≡ true → P m)
      → All P (keep f (map (λ e. e.1) hot))
  unfolding keep lookup
  eligible-All full [] sub u h = tt
  eligible-All full ((k, m) ∷ hot) sub u h =
      let rest =
        eligible-All full hot (λ j m' e. sub j m' (ground (arith, u.0, eq_iff k j))) u.1 h in
      if_split (All P) (f m) (λ on. (h k m (sub k m (ground (arith, eq_iff k k))) on, rest))
        (λ off. rest)

  keep-head :
      (b : Bool) (w : HotMeta) (xs : List HotMeta)
      → b ≡ true
      → All P (if b then w ∷ xs else xs)
      → P w
  keep-head true w xs e h = h.0
  keep-head false w xs e h = ground arith

  keep-tail :
      (b : Bool) (w : HotMeta) (xs : List HotMeta) → All P (if b then w ∷ xs else xs) → All P xs
  keep-tail true w xs h = h.1
  keep-tail false w xs h = h

  All-eligible :
      (hot : HotMap) (k : String) (m : HotMeta)
      → All P (keep f (map (λ e. e.1) hot))
      → lookup k hot ≡ some m
      → f m ≡ true
      → P m
  unfolding keep lookup
  All-eligible [] k m h e on = ground arith
  All-eligible ((j, w) ∷ hot) k m h e on = elim (Bool-cases (j == k)) [
    | inl same ↦
        let wm : w ≡ m = ground arith in
        subst P wm (keep-head (f w) w (keep f (map (λ e. e.1) hot)) (ap f wm ∙ on) h)
    | inr other ↦
        All-eligible hot k m (keep-tail (f w) w (keep f (map (λ e. e.1) hot)) h) (ground arith) on
  ]

-- What an eligible entry of the index is.
MayHold : Index → ℤ → HotMeta → Type 0
MayHold idx time m = (get idx m.id ≡ some m) × (eligible_meta idx m time ≡ true)

-- The candidates: accounts that may be picked, of the highest priority among those.
pub record IsHighest (idx : Index) (time : ℤ) (exclude : IdSet) (m : HotMeta) : Type 0 where
  pub may_pick : MayPick idx time exclude m
  pub highest : (m' : HotMeta) → MayPick idx time exclude m' → m'.priority ≤ℤ m.priority

eligible-IsLayer :
    (clock : ℤ) (idx : Index) (now : ℤ) (exclude : IdSet)
    → IsValid idx
    → IsLayer
        (MayHold idx (resolve_now clock now))
        exclude
        lowest_priority
        (eligible clock idx now)
        (best_layer exclude lowest_priority [] (eligible clock idx now))
unfolding eligible MayHold get
eligible-IsLayer clock idx now exclude v =
    let time = resolve_now clock now in
    best_layer-IsLayer (MayHold idx time) exclude lowest_priority [] (eligible clock idx now) tt (
      eligible-All (MayHold idx time) (λ m. eligible_meta idx m time) idx.hot idx.hot (λ k m e. e)
        v.sound.uniq (λ k m e on. (ground (arith, v.sound.named k m e), on)))

All-weaken :
    (P Q : HotMeta → Type 0) (ms : List HotMeta) → ((m : HotMeta) → P m → Q m) → All P ms → All Q ms
All-weaken P Q [] f h = tt
All-weaken P Q (m ∷ ms) f h = (f m h.0, All-weaken P Q ms f h.1)

-- The accounts of the layer are the stored ones.
pub best_layer-stored :
    (clock : ℤ) (idx : Index) (now : ℤ) (exclude : IdSet)
    → IsValid idx
    → All
        (λ (m : HotMeta). get idx m.id ≡ some m)
        (best_layer exclude lowest_priority [] (eligible clock idx now))
unfolding Layer MayHold
best_layer-stored clock idx now exclude v =
    let r = eligible-IsLayer clock idx now exclude v in
    All-weaken (Layer (MayHold idx (resolve_now clock now)) exclude r.top)
      (λ (m : HotMeta). get idx m.id ≡ some m)
      (best_layer exclude lowest_priority [] (eligible clock idx now)) (λ m l. l.0.0) r.layer

below-MayPick :
    (clock : ℤ) (idx : Index) (now : ℤ) (exclude : IdSet) (top : ℤ)
    → All (Below exclude top) (eligible clock idx now)
    → (m : HotMeta) → MayPick idx (resolve_now clock now) exclude m
    → m.priority ≤ℤ top
unfolding eligible Below get
below-MayPick clock idx now exclude top h m p =
    All-eligible (Below exclude top) (λ m. eligible_meta idx m (resolve_now clock now)) idx.hot m.id
      m h p.stored p.qualifies p.allowed

candidates-IsHighest :
    (clock : ℤ) (idx : Index) (now : ℤ) (exclude : IdSet)
    → IsValid idx
    → All (IsHighest idx (resolve_now clock now) exclude) (candidates clock idx now exclude)
unfolding candidates Layer MayHold
candidates-IsHighest clock idx now exclude v =
    let time = resolve_now clock now in
    let P = IsHighest idx time exclude in
    let all = eligible clock idx now in
    let r = eligible-IsLayer clock idx now exclude v in
    sort_by_id-All P (rev_onto (best_layer exclude lowest_priority [] all) []) (
      rev_onto-All P (best_layer exclude lowest_priority [] all) []
        (All-weaken (Layer (MayHold idx time) exclude r.top) P
          (best_layer exclude lowest_priority [] all)
          (λ m l. record {
            may_pick = record { stored = l.0.0; qualifies = l.0.1; allowed = l.1.0 };
            highest = λ m' p.
                ground (arith, l.1.1, below-MayPick clock idx now exclude r.top r.below m' p);
          })
          r.layer)
        tt)

take_turn-at :
    (cursor : ℕ) (ms : List HotMeta) (m : HotMeta)
    → (take_turn cursor ms).1 ≡ some m
    → get_elem? ms (cursor % length ms) ≡ some m
unfolding take_turn
take_turn-at cursor [] m e = ground arith
take_turn-at cursor (c ∷ cs) m e = e

-- The round robin picks, from a valid index, an account that may be picked, of the highest priority
-- among all accounts that may be picked.
pub stable_rr_pick-IsHighest :
    (clock : ℤ) (idx : Index) (now : ℤ) (exclude : IdSet) (cursor : ℕ) (m : HotMeta)
    → IsValid idx
    → (stable_rr_pick clock idx now exclude cursor).1 ≡ some m
    → IsHighest idx (resolve_now clock now) exclude m
unfolding stable_rr_pick
stable_rr_pick-IsHighest clock idx now exclude cursor m v e =
    let P = IsHighest idx (resolve_now clock now) exclude in
    let cands = candidates clock idx now exclude in
    All-get_elem? P cands _ m (candidates-IsHighest clock idx now exclude v)
      (take_turn-at cursor cands m e)

-- An empty layer means that every account is excluded or below the lowest priority.
Sunk : IdSet → ℤ → HotMeta → Type 0
Sunk exclude best m = excluded exclude m.id ≡ false → m.priority <ℤ best

best_layer-grows :
    (exclude : IdSet) (best : ℤ) (cands all : List HotMeta)
    → 0 < length cands
    → 0 < length (best_layer exclude best cands all)
unfolding best_layer
best_layer-grows exclude best cands [] h = h
best_layer-grows exclude best cands (m ∷ all) h =
    if_split (λ (r : List HotMeta). 0 < length r) (excluded exclude m.id)
      (λ _. best_layer-grows exclude best cands all h)
      (λ _.
        if_split (λ (r : List HotMeta). 0 < length r) (ltb_ℤ best m.priority)
          (λ _. best_layer-grows exclude m.priority (m ∷ []) all (omega arith))
          (λ _.
            if_split (λ (r : List HotMeta). 0 < length r) (eqb_ℤ m.priority best)
              (λ _. best_layer-grows exclude best (m ∷ cands) all (omega arith))
              (λ _. best_layer-grows exclude best cands all h)))

best_layer-cases :
    (exclude : IdSet) (best : ℤ) (cands all : List HotMeta)
    → (0 < length (best_layer exclude best cands all)) ⊎ All (Sunk exclude best) all
unfolding best_layer Sunk
best_layer-cases exclude best cands [] = inr tt
best_layer-cases exclude best cands (m ∷ all) =
    let Goal : List HotMeta → Type 0 = λ r. (0 < length r) ⊎ All (Sunk exclude best) (m ∷ all) in
    if_split Goal (excluded exclude m.id)
      (λ out. elim (best_layer-cases exclude best cands all) [
        | inl p ↦ inl p
        | inr s ↦ inr (λ b. ground arith, s)
      ])
      (λ _.
        if_split Goal (ltb_ℤ best m.priority)
          (λ _. inl (best_layer-grows exclude m.priority (m ∷ []) all (omega arith)))
          (λ low.
            if_split Goal (eqb_ℤ m.priority best)
              (λ _. inl (best_layer-grows exclude best (m ∷ cands) all (omega arith)))
              (λ ne. elim (best_layer-cases exclude best cands all) [
                | inl p ↦ inl p
                | inr s ↦
                    inr (
                      λ b. ground (arith, eqb_ℤ_iff m.priority best, eq_of_parts m.priority best),
                      s,
                    )
              ])))

pub candidates-found :
    (clock : ℤ) (idx : Index) (now : ℤ) (exclude : IdSet) (m : HotMeta)
    → MayPick idx (resolve_now clock now) exclude m
    → lowest_priority ≤ℤ m.priority
    → 0 < length (candidates clock idx now exclude)
unfolding candidates eligible Sunk get
candidates-found clock idx now exclude m p h =
    let all = eligible clock idx now in
    let layer = best_layer exclude lowest_priority [] all in
    elim (best_layer-cases exclude lowest_priority [] all) [
      | inl found ↦ omega (arith, length-sort_by_id (rev_onto layer []), length-rev_onto layer [])
      | inr sunk ↦
          let low =
            All-eligible (Sunk exclude lowest_priority)
              (λ m. eligible_meta idx m (resolve_now clock now)) idx.hot m.id m sunk p.stored
              p.qualifies p.allowed in
          absurd (omega (arith, low, h))
    ]
