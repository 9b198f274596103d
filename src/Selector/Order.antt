-- ===== src/Selector/Order.antt =====
-- internal/selector/selector.go (stableRRPick): what sorting the candidates keeps.
use grokbuild_pool.Base.{
  ℕ, zero, suc, ◌+◌, ◌≡◌, refl, subst, List, [], ◌∷◌, some, arith, length, get_elem?, if_split,
  string_eq, str_lt, All,
}
use grokbuild_pool.Hot.Meta.{HotMeta}
use grokbuild_pool.Selector.Pick.{rev_onto, sink, sort_loop, sort_by_id}

-- Reversing and sorting keep what holds of every element, and the length.
module _ (P : HotMeta → Type 0) where
  pub rev_onto-All : (ms acc : List HotMeta) → All P ms → All P acc → All P (rev_onto ms acc)
  unfolding rev_onto
  rev_onto-All [] acc h k = k
  rev_onto-All (m ∷ ms) acc h k = rev_onto-All ms (m ∷ acc) h.1 (h.0, k)

  sink-All : (m : HotMeta) (sorted : List HotMeta) → P m → All P sorted → All P (sink m sorted)
  unfolding sink
  sink-All m [] h k = (h, tt)
  sink-All m (x ∷ sorted) h k =
      if_split (All P) (str_lt m.id x.id) (λ _. (k.0, sink-All m sorted h k.1)) (λ _. (h, k))

  sort_loop-All : (sorted ms : List HotMeta) → All P sorted → All P ms → All P (sort_loop sorted ms)
  unfolding sort_loop
  sort_loop-All sorted [] h k = h
  sort_loop-All sorted (m ∷ ms) h k = sort_loop-All (sink m sorted) ms (sink-All m sorted k.0 h) k.1

  pub sort_by_id-All : (ms : List HotMeta) → All P ms → All P (sort_by_id ms)
  unfolding sort_by_id
  sort_by_id-All ms h = rev_onto-All (sort_loop [] ms) [] (sort_loop-All [] ms tt h) tt

  pub All-get_elem? :
      (ms : List HotMeta) (i : ℕ) (m : HotMeta) → All P ms → get_elem? ms i ≡ some m → P m
  unfolding get_elem?
  All-get_elem? [] i m h e = ground arith
  All-get_elem? (x ∷ ms) zero m h e = subst P (ground arith) h.0
  All-get_elem? (x ∷ ms) (suc i) m h e = All-get_elem? ms i m h.1 e

pub length-rev_onto : (ms acc : List HotMeta) → length (rev_onto ms acc) ≡ length ms + length acc
unfolding rev_onto
length-rev_onto [] acc = omega arith
length-rev_onto (m ∷ ms) acc = omega (arith, length-rev_onto ms (m ∷ acc))

length-sink : (m : HotMeta) (sorted : List HotMeta) → length (sink m sorted) ≡ length sorted + 1
unfolding sink
length-sink m [] = refl
length-sink m (x ∷ sorted) = ground (arith, length-sink m sorted)

length-sort_loop :
    (sorted ms : List HotMeta) → length (sort_loop sorted ms) ≡ length sorted + length ms
unfolding sort_loop
length-sort_loop sorted [] = omega arith
length-sort_loop sorted (m ∷ ms) =
    omega (arith, length-sort_loop (sink m sorted) ms, length-sink m sorted)

pub length-sort_by_id : (ms : List HotMeta) → length (sort_by_id ms) ≡ length ms
unfolding sort_by_id
length-sort_by_id ms = omega (arith, length-rev_onto (sort_loop [] ms) [], length-sort_loop [] ms)
