-- ===== src/Hot/Picked.antt =====
-- internal/hot/index.go (SampleEligible): what the sample holds, and that it is empty only when no
-- account qualifies.
use grokbuild_pool.Base.{
  ℕ, zero, suc, ◌+◌, ◌*◌, ◌≤◌, ◌<◌, ℤ, ltb, leb, String, true, false, ◌≡◌, refl, List, [], ◌∷◌,
  Option, none, some, arith, length, length-append, get_or, All, All-append, string_eq, has,
  if◌then◌else◌, ◌&&◌, ◌||◌, if_split,
}
use grokbuild_pool.Hot.Meta.{HotMeta, IdSet, excluded, resolve_now}
use grokbuild_pool.Hot.Index.{Index, get, eligible_meta}
use grokbuild_pool.Hot.Sample.{
  candidate, range_from, swap, shuffle_loop, probe_loop, fill_loop, max_attempts, append_found,
  mark_found, is_found, sample_at, sample_eligible,
}
use grokbuild_pool.Hot.Valid.{IsValid}

-- An account that may be picked: in the set under its id, eligible, and not excluded.
pub record MayPick (idx : Index) (now : ℤ) (exclude : IdSet) (m : HotMeta) : Type 0 where
  pub stored : get idx m.id ≡ some m
  pub qualifies : eligible_meta idx m now ≡ true
  pub allowed : excluded exclude m.id ≡ false

candidate-MayPick :
    (idx : Index) (now : ℤ) (exclude : IdSet) (id : String) (m : HotMeta)
    → IsValid idx
    → candidate idx now exclude id ≡ some m
    → MayPick idx now exclude m × (m.id ≡ id)
unfolding candidate get
candidate-MayPick idx now exclude id m v e = (
  record {
    stored = ground (arith, v.sound.named id m);
    qualifies = ground arith;
    allowed = ground (arith, v.sound.named id m);
  },
  ground (arith, v.sound.named id m),
)

-- The other way round: an account that may be picked is the candidate of its id.
pub MayPick-candidate :
    (idx : Index) (now : ℤ) (exclude : IdSet) (m : HotMeta)
    → MayPick idx now exclude m
    → candidate idx now exclude m.id ≡ some m
unfolding candidate get
MayPick-candidate idx now exclude m p = ground (arith, p)

abbrev AllMayPick : Index → ℤ → IdSet → Option HotMeta → Type 0
AllMayPick idx now exclude none = Unit {0}
AllMayPick idx now exclude (some m) = MayPick idx now exclude m

pub length-append_found :
    (picked : List HotMeta) (found : Option HotMeta)
    → length picked ≤ length (append_found picked found)
unfolding append_found
length-append_found picked none = omega arith
length-append_found picked (some m) = omega (arith, length-append picked (m ∷ []))

length-append_found-le :
    (picked : List HotMeta) (found : Option HotMeta)
    → length (append_found picked found) ≤ length picked + 1
unfolding append_found
length-append_found-le picked none = omega arith
length-append_found-le picked (some m) = omega (arith, length-append picked (m ∷ []))

pub append_found-pos :
    (picked : List HotMeta) {found : Option HotMeta} {m : HotMeta}
    → found ≡ some m
    → 0 < length (append_found picked found)
unfolding append_found
append_found-pos picked {m} e = rw e (omega (arith, length-append picked (m ∷ [])))

module _ (idx : Index) (now : ℤ) (exclude : IdSet) (v : IsValid idx) where
  abbrev Fine : List HotMeta → Type 0
  Fine picked = All (MayPick idx now exclude) picked

  Fine-append_found :
      (picked : List HotMeta) (found : Option HotMeta)
      → AllMayPick idx now exclude found
      → Fine picked
      → Fine (append_found picked found)
  unfolding append_found
  Fine-append_found picked none a f = f
  Fine-append_found picked (some m) a f =
      All-append (MayPick idx now exclude) picked (m ∷ []) f (a, tt)

  found-AllMayPick :
      (id : String) (found : Option HotMeta)
      → candidate idx now exclude id ≡ found
      → AllMayPick idx now exclude found
  found-AllMayPick id none e = tt
  found-AllMayPick id (some m) e = (candidate-MayPick idx now exclude id m v e).0

  -- The same behind the test of `seen`.
  unseen-AllMayPick :
      (id : String) (seen : IdSet)
      → AllMayPick idx now exclude (if has id seen then none else candidate idx now exclude id)
  unseen-AllMayPick id seen =
      if_split (AllMayPick idx now exclude) (has id seen) (λ _. tt)
        (λ _. found-AllMayPick id (candidate idx now exclude id) refl)

  shuffle_loop-Fine :
      (k : ℕ) (draw : ℕ → ℕ → ℕ) (rounds i : ℕ) (idxs : List ℕ) (picked : List HotMeta)
      → Fine picked
      → Fine (shuffle_loop idx now exclude k draw rounds i idxs picked)
  unfolding shuffle_loop
  shuffle_loop-Fine k draw zero i idxs picked f = f
  shuffle_loop-Fine k draw (suc rounds) i idxs picked f =
      let idxs' = swap idxs i (i + draw i (suc rounds)) in
      let id = get_or idx.ids (get_or idxs' i 0) "" in
      let found = candidate idx now exclude id in
      if_split Fine (ltb (length picked) k)
        (λ _.
          shuffle_loop-Fine k draw rounds (i + 1) idxs' (append_found picked found)
            (Fine-append_found picked found (found-AllMayPick id found refl) f))
        (λ _. f)

  probe_loop-Fine :
      (k : ℕ) (draw : ℕ → ℕ → ℕ) (attempts t : ℕ) (seen : IdSet) (picked : List HotMeta)
      → Fine picked
      → Fine (probe_loop idx now exclude k draw attempts t seen picked).1
  unfolding probe_loop
  probe_loop-Fine k draw zero t seen picked f = f
  probe_loop-Fine k draw (suc attempts) t seen picked f =
      let id = get_or idx.ids (draw t (length idx.ids)) "" in
      let found = if has id seen then none else candidate idx now exclude id in
      if_split (λ (r : IdSet × List HotMeta). Fine r.1) (ltb (length picked) k)
        (λ _.
          probe_loop-Fine k draw attempts (t + 1) (mark_found seen id found)
            (append_found picked found)
            (Fine-append_found picked found (unseen-AllMayPick id seen) f))
        (λ _. f)

  fill_loop-Fine :
      (k : ℕ) (ids : List String) (seen : IdSet) (picked : List HotMeta)
      → Fine picked
      → Fine (fill_loop idx now exclude k ids seen picked)
  unfolding fill_loop
  fill_loop-Fine k [] seen picked f = f
  fill_loop-Fine k (id ∷ ids) seen picked f =
      let found = if has id seen then none else candidate idx now exclude id in
      let kept = Fine-append_found picked found (unseen-AllMayPick id seen) f in
      if_split Fine (is_found found && leb k (length (append_found picked found))) (λ _. kept)
        (λ _. fill_loop-Fine k ids (mark_found seen id found) (append_found picked found) kept)

  sample_at-Fine : (k : ℕ) (draw : ℕ → ℕ → ℕ) → Fine (sample_at idx now k exclude draw)
  unfolding sample_at
  sample_at-Fine k draw =
      let n = length idx.ids in
      let k' = if ltb n k then n else k in
      let probed = probe_loop idx now exclude k' draw (max_attempts k') 0 [] [] in
      let probed-Fine = probe_loop-Fine k' draw (max_attempts k') 0 [] [] tt in
      if_split Fine (leb k 0 || leb n 0) (λ _. tt)
        λ _.
          if_split Fine (leb n (k' * 4)) (λ _. shuffle_loop-Fine k' draw n 0 (range_from 0 n) [] tt)
            λ _.
              if_split Fine (ltb (length probed.1) k')
                (λ _. fill_loop-Fine k' idx.ids probed.0 probed.1 probed-Fine) (λ _. probed-Fine)

-- On a valid index every account in the sample is stored under its id, qualifies at the time asked
-- for (the clock's, where that is not positive), and is not excluded.
pub sample_eligible-MayPick :
    (clock : ℤ) (idx : Index) (now : ℤ) (k : ℕ) (exclude : IdSet) (draw : ℕ → ℕ → ℕ)
    → IsValid idx
    → All
        (MayPick idx (resolve_now clock now) exclude)
        (sample_eligible clock idx now k exclude draw)
unfolding sample_eligible
sample_eligible-MayPick clock idx now k exclude draw v =
    sample_at-Fine idx (resolve_now clock now) exclude v k draw
