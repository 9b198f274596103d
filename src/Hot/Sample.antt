-- ===== src/Hot/Sample.antt =====
-- internal/hot/index.go (SampleEligible): k distinct eligible entries at random. `draw t n` is the
-- answer of the t-th call of `intn(n)`.
use grokbuild_pool.Base.{
  ℕ, zero, suc, ◌+◌, ◌*◌, ℤ, ltb, leb, String, Bool, true, false, ◌&&◌, ◌||◌, List, [], ◌∷◌, ◌++◌,
  Option, none, some, length, get_or, set, if◌then◌else◌, string_eq, lookup, insert, has,
}
use grokbuild_pool.Hot.Meta.{HotMeta, IdSet, excluded, resolve_now}
use grokbuild_pool.Hot.Index.{Index, eligible_meta}

-- The candidate that an id stands for, if it is not excluded, is in the hot set and is eligible.
unfoldable pub candidate : Index → ℤ → IdSet → String → Option HotMeta
candidate idx now exclude id = if excluded exclude id then none else elim (lookup id idx.hot) [
  | none ↦ none
  | some m ↦ if eligible_meta idx m now then some m else none
]

abbrev pub range_from : ℕ → ℕ → List ℕ
range_from i zero = []
range_from i (suc n) = i ∷ range_from (i + 1) n

abbrev pub swap : List ℕ → ℕ → ℕ → List ℕ
swap xs i j = set (set xs i (get_or xs j 0)) j (get_or xs i 0)

-- `picked = append(picked, m); seen[id] = struct{}{}` for a candidate, nothing otherwise.
unfoldable pub append_found : List HotMeta → Option HotMeta → List HotMeta
append_found picked none = picked
append_found picked (some m) = picked ++ m ∷ []

unfoldable pub mark_found : IdSet → String → Option HotMeta → IdSet
mark_found seen id none = seen
mark_found seen id (some m) = insert id tt seen

-- The fast path: a partial Fisher-Yates shuffle over all positions. `rounds` is what is left of n.
unfoldable pub shuffle_loop :
    Index → ℤ → IdSet → ℕ → (ℕ → ℕ → ℕ) → ℕ → ℕ → List ℕ → List HotMeta → List HotMeta
shuffle_loop idx now exclude k draw zero i idxs picked = picked
shuffle_loop idx now exclude k draw (suc rounds) i idxs picked =
    let idxs' = swap idxs i (i + draw i (suc rounds)) in
    let found = candidate idx now exclude (get_or idx.ids (get_or idxs' i 0) "") in
    let rest =
      shuffle_loop idx now exclude k draw rounds (i + 1) idxs' (append_found picked found) in
    if ltb (length picked) k then rest else picked

-- The slow path: random probes, without those seen.
unfoldable pub probe_loop :
    Index → ℤ → IdSet → ℕ → (ℕ → ℕ → ℕ) → ℕ → ℕ → IdSet → List HotMeta → IdSet × List HotMeta
probe_loop idx now exclude k draw zero t seen picked = (seen, picked)
probe_loop idx now exclude k draw (suc attempts) t seen picked =
    let id = get_or idx.ids (draw t (length idx.ids)) "" in
    let found = if has id seen then none else candidate idx now exclude id in
    let rest =
      probe_loop idx now exclude k draw attempts (t + 1) (mark_found seen id found)
        (append_found picked found) in
    if ltb (length picked) k then rest else (seen, picked)

abbrev pub is_found : Option HotMeta → Bool
is_found none = false
is_found (some m) = true

-- The linear scan that fills up, with its `break`.
unfoldable pub fill_loop : Index → ℤ → IdSet → ℕ → List String → IdSet → List HotMeta → List HotMeta
fill_loop idx now exclude k [] seen picked = picked
fill_loop idx now exclude k (id ∷ ids) seen picked =
    let found = if has id seen then none else candidate idx now exclude id in
    let picked' = append_found picked found in
    let rest = fill_loop idx now exclude k ids (mark_found seen id found) picked' in
    if is_found found && leb k (length picked') then picked' else rest

abbrev pub max_attempts : ℕ → ℕ
max_attempts k = if ltb (k * 16) 32 then 32 else k * 16

unfoldable pub probe_and_fill : Index → ℤ → IdSet → ℕ → (ℕ → ℕ → ℕ) → List HotMeta
unfolding probe_loop fill_loop
probe_and_fill idx now exclude k draw =
    let (seen, picked) = probe_loop idx now exclude k draw (max_attempts k) 0 [] [] in
    if ltb (length picked) k then fill_loop idx now exclude k idx.ids seen picked else picked

-- `k` is the caller's count; no more than the hot set holds are sampled.
unfoldable pub sample_at : Index → ℤ → ℕ → IdSet → (ℕ → ℕ → ℕ) → List HotMeta
unfolding shuffle_loop probe_and_fill candidate append_found mark_found
sample_at idx now k exclude draw =
    let n = length idx.ids in
    let k' = if ltb n k then n else k in
    if leb k 0 || leb n 0
    then []
    else if leb n (k' * 4)
    then shuffle_loop idx now exclude k' draw n 0 (range_from 0 n) []
    else probe_and_fill idx now exclude k' draw

unfoldable pub sample_eligible : ℤ → Index → ℤ → ℕ → IdSet → (ℕ → ℕ → ℕ) → List HotMeta
unfolding sample_at
sample_eligible clock idx now k exclude draw = sample_at idx (resolve_now clock now) k exclude draw
