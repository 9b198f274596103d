-- ===== src/Hot/Complete.antt =====
-- internal/hot/index.go (SampleEligible): the sample is empty only when no account may be picked.
use grokbuild_pool.Base.{
  ℕ, zero, suc, ◌+◌, ◌*◌, ◌≤◌, ◌<◌, ℤ, ltb, leb, eqb, String, ◌≡◌, refl, List, [], ◌∷◌, Option,
  none, some, arith, length, get_elem?, get_or, set, get_elem?-set, get_elem?_or, length-set,
  get_elem?_lt, length-append, string_eq, lookup, insert, has, if◌then◌else◌, ◌&&◌, ◌||◌, if_split,
  Option-cases, inl, inr, ◌⊎◌, ap, subst, sym,
}
use grokbuild_pool.Hot.Meta.{HotMeta, IdSet, resolve_now}
use grokbuild_pool.Hot.Index.{Index, get}
use grokbuild_pool.Hot.Sample.{
  candidate, range_from, swap, append_found, mark_found, is_found, shuffle_loop, probe_loop,
  fill_loop, max_attempts, sample_at, sample_eligible,
}
use grokbuild_pool.Hot.Valid.{IsValid}
use grokbuild_pool.Hot.Picked.{MayPick, MayPick-candidate, length-append_found, append_found-pos}

get_elem?-range_from : (i n p : ℕ) → p < n → get_elem? (range_from i n) p ≡ some (i + p)
unfolding get_elem?
get_elem?-range_from i zero p h = elim h [ ]
get_elem?-range_from i (suc n) zero h = ground arith
get_elem?-range_from i (suc n) (suc p) h = ground (arith, get_elem?-range_from (i + 1) n p)

length-range_from : (i n : ℕ) → length (range_from i n) ≡ n
length-range_from i zero = refl
length-range_from i (suc n) = ap suc (length-range_from (i + 1) n)

length-swap : (xs : List ℕ) (i j : ℕ) → length (swap xs i j) ≡ length xs
length-swap xs i j = ground (
  arith,
  length-set xs i (get_or xs j 0),
  length-set (set xs i (get_or xs j 0)) j (get_or xs i 0),
)

-- Where the value at `p` is after a swap of `i` and `j`, which lie in range.
moved : ℕ → ℕ → ℕ → ℕ
moved i j p = if eqb p j then i else if eqb p i then j else p

get_elem?-swap :
    (xs : List ℕ) (i j p t : ℕ)
    → i < length xs
    → j < length xs
    → get_elem? xs p ≡ some t
    → get_elem? (swap xs i j) (moved i j p) ≡ some t
unfolding moved
get_elem?-swap xs i j p t hi hj e = ground (
  arith,
  get_elem?-set xs i (moved i j p) (get_or xs j 0),
  get_elem?-set (set xs i (get_or xs j 0)) j (moved i j p) (get_or xs i 0),
  length-set xs i (get_or xs j 0),
  get_elem?_or xs i 0,
  get_elem?_or xs j 0,
)

moved_cases : (i j p : ℕ) → i ≤ p → i ≤ j → (moved i j p ≡ i) ⊎ (i + 1 ≤ moved i j p)
unfolding moved
moved_cases i j p low high = ground arith

get_or_of_elem : (xs : List ℕ) (i : ℕ) {t : ℕ} → get_elem? xs i ≡ some t → get_or xs i 0 ≡ t
get_or_of_elem xs i {t} e = ground (arith, get_elem?_or xs i 0, get_elem?_lt xs i {x = t})

module _ (idx : Index) (now : ℤ) (exclude : IdSet) (k : ℕ) (draw : ℕ → ℕ → ℕ) where
  shuffle_grows :
      (rounds i : ℕ) (idxs : List ℕ) (picked : List HotMeta)
      → length picked ≤ length (shuffle_loop idx now exclude k draw rounds i idxs picked)
  unfolding shuffle_loop
  shuffle_grows zero i idxs picked = omega arith
  shuffle_grows (suc rounds) i idxs picked =
      let idxs' = swap idxs i (i + draw i (suc rounds)) in
      let found = candidate idx now exclude (get_or idx.ids (get_or idxs' i 0) "") in
      ground (
        arith,
        shuffle_grows rounds (i + 1) idxs' (append_found picked found),
        length-append_found picked found,
      )

  -- A pick stays.
  found_now :
      (rounds i : ℕ) (idxs : List ℕ) (picked : List HotMeta) (found : Option HotMeta) (m : HotMeta)
      → found ≡ some m
      → 0 < length (shuffle_loop idx now exclude k draw rounds i idxs (append_found picked found))
  found_now rounds i idxs picked found m e =
      omega
        (arith, append_found-pos picked e, shuffle_grows rounds i idxs (append_found picked found))

  -- A candidate at a place that is not yet visited is found, unless another was.
  shuffle_finds :
      (rounds i : ℕ) (idxs : List ℕ) (picked : List HotMeta) (p t : ℕ) (m : HotMeta)
      → 0 < k
      → ((s n : ℕ) → 0 < n → draw s n < n)
      → length idxs ≡ i + rounds
      → i ≤ p
      → get_elem? idxs p ≡ some t
      → candidate idx now exclude (get_or idx.ids t "") ≡ some m
      → 0 < length (shuffle_loop idx now exclude k draw rounds i idxs picked)
  unfolding shuffle_loop
  shuffle_finds zero i idxs picked p t m hk fair size low at e =
      absurd (omega (arith, get_elem?_lt idxs p at))
  shuffle_finds (suc rounds) i idxs picked p t m hk fair size low at e =
      let j = i + draw i (suc rounds) in
      let idxs' = swap idxs i j in
      let found = candidate idx now exclude (get_or idx.ids (get_or idxs' i 0) "") in
      let in_range = fair i (suc rounds) (omega arith) in
      let there = get_elem?-swap idxs i j p t (omega arith) (omega arith) at in
      let here : moved i j p ≡ i → get_or idxs' i 0 ≡ t =
        λ q. get_or_of_elem idxs' i (subst (λ x. get_elem? idxs' x ≡ some t) q there) in
      let later : i + 1 ≤ moved i j p
          → 0
            < length (
                shuffle_loop idx now exclude k draw rounds (i + 1) idxs'
                  (append_found picked found)) =
        λ far.
          shuffle_finds rounds (i + 1) idxs' (append_found picked found) (moved i j p) t m hk fair
            (omega (arith, length-swap idxs i j)) far there e in
      if_split (λ (r : List HotMeta). 0 < length r) (ltb (length picked) k) {y = picked}
        (λ _. elim (moved_cases i j p low (omega arith)) [
          | inl q ↦ found_now rounds (i + 1) idxs' picked found m (
              subst (λ x. candidate idx now exclude (get_or idx.ids x "") ≡ some m) (sym (here q))
                e)
          | inr far ↦ later far
        ])
        (λ full. ground arith)

after_probe :
    (seen : IdSet) (id : String) (picked : List HotMeta) (found : Option HotMeta)
    → ((seen ≡ []) × (picked ≡ [])) ⊎ (0 < length picked)
    → ((mark_found seen id found ≡ []) × (append_found picked found ≡ []))
      ⊎ (0 < length (append_found picked found))
unfolding append_found mark_found
after_probe seen id picked none h = h
after_probe seen id picked (some m) h = inr (omega (arith, length-append picked (m ∷ [])))

-- An account in the set has a place in the id list.
position :
    (idx : Index) (m : HotMeta) {now : ℤ} {exclude : IdSet}
    → IsValid idx
    → MayPick idx now exclude m
    → (t : ℕ) × (get_elem? idx.ids t ≡ some m.id)
unfolding get
position idx m v p = elim (Option-cases (lookup m.id idx.pos_of)) [
  | inl e ↦ absurd (ground (arith, v.sound.same m.id, p.stored))
  | inr (t, e) ↦ (t, v.sound.dense.placed m.id t e)
]

-- The scan finds a candidate that is not yet seen.
module _ (idx : Index) (now : ℤ) (exclude : IdSet) (k : ℕ) where
  fill_grows :
      (ids : List String) (seen : IdSet) (picked : List HotMeta)
      → length picked ≤ length (fill_loop idx now exclude k ids seen picked)
  unfolding fill_loop
  fill_grows [] seen picked = omega arith
  fill_grows (id ∷ ids) seen picked =
      let found = if has id seen then none else candidate idx now exclude id in
      ground (
        arith,
        fill_grows ids (mark_found seen id found) (append_found picked found),
        length-append_found picked found,
      )

  -- One round of the scan, by what it finds.
  fill_round :
      (j : String) (ids : List String) (o : Option HotMeta)
      → (o ≡ none → 0 < length (fill_loop idx now exclude k ids [] []))
      → 0
        < length (
            if is_found o && leb k (length (append_found [] o))
            then append_found [] o
            else fill_loop idx now exclude k ids (mark_found [] j o) (append_found [] o))
  unfolding append_found mark_found
  fill_round j ids none rest = rest refl
  fill_round j ids (some m) rest =
      if_split (λ (r : List HotMeta). 0 < length r) (leb k 1) {x = m ∷ []} (λ _. omega arith)
        (λ _. omega (arith, fill_grows ids (insert j tt []) (m ∷ [])))

  fill_finds :
      (ids : List String) (t : ℕ) (id : String) (m : HotMeta)
      → get_elem? ids t ≡ some id
      → candidate idx now exclude id ≡ some m
      → 0 < length (fill_loop idx now exclude k ids [] [])
  unfolding fill_loop get_elem? lookup
  fill_finds [] t id m at e = cc
  fill_finds (j ∷ ids) zero id m at e =
      fill_round j ids (candidate idx now exclude j) (λ q. ground arith)
  fill_finds (j ∷ ids) (suc t) id m at e =
      fill_round j ids (candidate idx now exclude j) (λ _. fill_finds ids t id m at e)

  -- Probing either picks something or leaves `seen` empty.
  probe_cases :
      (draw : ℕ → ℕ → ℕ) (attempts t : ℕ) (seen : IdSet) (picked : List HotMeta)
      → ((seen ≡ []) × (picked ≡ [])) ⊎ (0 < length picked)
      → let r = probe_loop idx now exclude k draw attempts t seen picked in
        ((r.0 ≡ []) × (r.1 ≡ [])) ⊎ (0 < length r.1)
  unfolding probe_loop
  probe_cases draw zero t seen picked h = h
  probe_cases draw (suc attempts) t seen picked h =
      let id = get_or idx.ids (draw t (length idx.ids)) "" in
      let found = if has id seen then none else candidate idx now exclude id in
      if_split (λ (r : IdSet × List HotMeta). ((r.0 ≡ []) × (r.1 ≡ [])) ⊎ (0 < length r.1))
        (ltb (length picked) k) {y = (seen, picked)}
        (λ _.
          probe_cases draw attempts (t + 1) (mark_found seen id found) (append_found picked found)
            (after_probe seen id picked found h))
        (λ _. h)

-- Sampling one or more accounts from a valid index, with draws in their range, gives at least one
-- whenever there is an account that may be picked at that time; so an empty sample means that every
-- account is excluded, cooling, disabled or at its in-flight limit.
pub sample_eligible-finds :
    (clock : ℤ) (idx : Index) (now : ℤ) (k : ℕ) (exclude : IdSet) (draw : ℕ → ℕ → ℕ) (m : HotMeta)
    → IsValid idx
    → 0 < k
    → ((s n : ℕ) → 0 < n → draw s n < n)
    → MayPick idx (resolve_now clock now) exclude m
    → 0 < length (sample_eligible clock idx now k exclude draw)
unfolding sample_eligible sample_at get
sample_eligible-finds clock idx now k exclude draw m v hk fair p =
    let time = resolve_now clock now in
    let n = length idx.ids in
    let k' = if ltb n k then n else k in
    let (t, at) = position idx m v p in
    let e = MayPick-candidate idx time exclude m p in
    let room : 0 < n = omega (arith, get_elem?_lt idx.ids t at) in
    let probed = probe_loop idx time exclude k' draw (max_attempts k') 0 [] [] in
    let k'-pos : 0 < k' = ground arith in
    if_split (λ (r : List HotMeta). 0 < length r) (leb k 0 || leb n 0) {x = []} (λ z. ground arith)
      λ _.
        if_split (λ (r : List HotMeta). 0 < length r) (leb n (k' * 4))
          (λ _.
            shuffle_finds idx time exclude k' draw n 0 (range_from 0 n) [] t t m k'-pos fair
              (omega (arith, length-range_from 0 n)) (omega arith)
              (ground (arith, get_elem?-range_from 0 n t, get_elem?_lt idx.ids t {x = m.id}))
              (ground (arith, get_elem?_or idx.ids t "", get_elem?_lt idx.ids t {x = m.id})))
          λ _.
            if_split (λ (r : List HotMeta). 0 < length r) (ltb (length probed.1) k') {y = probed.1}
              (λ _.
                elim (probe_cases idx time exclude k' draw (max_attempts k') 0 [] []
                  (inl (refl, refl))) [
                    | inl (a, b) ↦ rw (a, b) (fill_finds idx time exclude k' idx.ids t m.id m at e)
                    | inr some_picked ↦
                        omega (arith, fill_grows idx time exclude k' idx.ids probed.0 probed.1)
                  ])
              (λ full. ground arith)
