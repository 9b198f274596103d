-- ===== src/Selector/Alike.antt =====
-- internal/selector/selector.go (stableRRPick): the order of the map does not show in the candidates.
use mathlib.Core.List.{Permᴰ}
use grokbuild_pool.Base.{
  ℤ, String, ◌≡◌, ◌≢◌, refl, sym, ap, ◌∙◌, List, [], ◌∷◌, Option, some, inl, inr, arith, string_eq,
  eq_iff, str_lt_trans, str_lt_irrefl, str_lt_total, All, Bool-cases, ◌==◌,
}
use grokbuild_pool.Hot.Meta.{HotMeta, IdSet, eligible_with_inflight_cap, resolve_now}
use grokbuild_pool.Hot.Valid.{IsValid}
use grokbuild_pool.Hot.Index.{Index, get, eligible_meta, eligible}
use grokbuild_pool.Selector.Pick.{
  best_layer, rev_onto, sink, sort_loop, sort_by_id, candidates, lowest_priority,
}
use grokbuild_pool.Selector.Order.{rev_onto-All}
use grokbuild_pool.Selector.RoundRobin.{best_layer-stored}
use grokbuild_pool.Selector.Reorder.{
  Permᴰ-R, values, values-Permᴰ, rev_onto-Permᴰ, best_layer-Permᴰ,
}

sink_apart :
    (m n : HotMeta) (sorted : List HotMeta)
    → m.id ≢ n.id
    → sink m (sink n sorted) ≡ sink n (sink m sorted)
unfolding sink
sink_apart m n [] differ =
    ground (arith, str_lt_total m.id n.id differ, str_lt_trans m.id n.id m.id, str_lt_irrefl m.id)
sink_apart m n (x ∷ sorted) differ = ground (
  arith,
  sink_apart m n sorted differ,
  str_lt_total m.id n.id differ,
  str_lt_trans m.id n.id m.id,
  str_lt_irrefl m.id,
  str_lt_trans m.id n.id x.id,
  str_lt_trans n.id m.id x.id,
)

-- Two accounts sink to the same places in either order, unless they share an id and differ.
sink_exchange :
    (m n : HotMeta) (sorted : List HotMeta)
    → (m.id ≡ n.id → m ≡ n)
    → sink m (sink n sorted) ≡ sink n (sink m sorted)
sink_exchange m n sorted distinct = elim (Bool-cases (m.id == n.id)) [
  | inl same ↦
      let e = distinct (ground (arith, same, eq_iff m.id n.id)) in
      ap (λ z. sink m (sink z sorted)) (sym e) ∙ ap (λ z. sink z (sink m sorted)) e
  | inr other ↦ sink_apart m n sorted (λ e. ground (arith, other, eq_iff m.id n.id, e))
]

-- Where `known` gives the one account of each id, all rearrangements are sorted alike.
module _ (known : String → Option HotMeta) where
  abbrev IsKnown : HotMeta → Type 0
  IsKnown m = known m.id ≡ some m

  known_distinct : (m n : HotMeta) → IsKnown m → IsKnown n → m.id ≡ n.id → m ≡ n
  known_distinct m n h k e = ground (arith, h, k, ap known e)

  SortsAlike : List HotMeta → List HotMeta → Type 0
  SortsAlike l l' =
      All IsKnown l
      → All IsKnown l' × ((sorted : List HotMeta) → sort_loop sorted l ≡ sort_loop sorted l')

  sort_loop-Permᴰ : {l l' : List HotMeta} → Permᴰ l l' → SortsAlike l l'
  unfolding sort_loop SortsAlike
  sort_loop-Permᴰ =
      Permᴰ-R SortsAlike (λ h. (h, λ sorted. refl))
        (λ m l l' alike h. let (k, same) = alike h.1 in ((h.0, k), λ sorted. same (sink m sorted)))
        (λ m n l h. (
          (h.1.0, (h.0, h.1.1)),
          λ sorted.
              ap (λ z. sort_loop z l) (sink_exchange n m sorted (known_distinct n m h.1.0 h.0)),
        ))
        (λ l l' l'' alike alike' h.
          let (k, same) = alike h in
          let (k', same') = alike' k in (k', λ sorted. same sorted ∙ same' sorted))

-- The same accounts under the same limit, in any order: what one more walk over the map may see.
pub record IsReordered (idx idx' : Index) : Type 0 where
  pub perm : Permᴰ idx.hot idx'.hot
  pub max_same : idx'.max_inflight ≡ idx.max_inflight

-- The candidates of a map that is one rearranged are the same list.
pub candidates-reordered :
    (clock : ℤ) (idx idx' : Index) (now : ℤ) (exclude : IdSet)
    → IsValid idx
    → IsReordered idx idx'
    → candidates clock idx' now exclude ≡ candidates clock idx now exclude
unfolding candidates eligible eligible_meta sort_by_id SortsAlike
candidates-reordered clock idx idx' now exclude v r =
    let time = resolve_now clock now in
    let known = λ (id : String). get idx id in
    let test = λ (m : HotMeta). eligible_meta idx m time in
    let test' = λ (m : HotMeta). eligible_meta idx' m time in
    let all = values test idx.hot in
    let all' = values test idx'.hot in
    let layer = best_layer exclude lowest_priority [] all in
    let layers =
      rev_onto-Permᴰ (best_layer-Permᴰ exclude (values-Permᴰ test r.perm) lowest_priority []) [] []
        Permᴰ.nil in
    let stored : All (IsKnown known) (rev_onto layer []) =
      rev_onto-All (IsKnown known) layer [] (best_layer-stored clock idx now exclude v) tt in
    let alike = (sort_loop-Permᴰ known layers stored).1 [] in
    ap
      (λ max.
        rev_onto
          (sort_loop [] (
            rev_onto
              (best_layer exclude lowest_priority []
                (values (λ m. eligible_with_inflight_cap m time max) idx'.hot))
              []))
          [])
      r.max_same
    ∙ ap (λ l. rev_onto l []) (sym alike)
