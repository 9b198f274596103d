-- ===== src/Selector/Rotation.antt =====
-- internal/selector/selector.go (stableRRPick): how a sequence of picks goes round.
use native.Mathlib.Nat.{
  mod-lt, mod-eq_of_lt, add-mod-mod, div-add-mod, mul-add-mod_self_left, add-mod_right,
}
use grokbuild_pool.Base.{
  ℕ, zero, suc, ◌+◌, ◌-◌, ◌*◌, ◌/◌, ◌%◌, ◌^◌, ◌<◌, ℤ, ◌≡◌, refl, ap, ◌∙◌, List, [], ◌∷◌, Option,
  some, arith, length, get_elem?, string_eq,
}
use grokbuild_pool.Hot.Meta.{HotMeta, IdSet}
use grokbuild_pool.Hot.Index.{Index}
use grokbuild_pool.Hot.Valid.{IsValid}
use grokbuild_pool.Selector.Alike.{IsReordered, candidates-reordered}
use grokbuild_pool.Selector.Pick.{candidates, take_turn, stable_rr_pick}

-- The pick that follows j picks, each with its own index.
unfoldable pub later_pick : ℤ → (ℕ → Index) → ℤ → IdSet → ℕ → ℕ → ℕ × Option HotMeta
later_pick clock idxs now exclude cursor zero = stable_rr_pick clock (idxs 0) now exclude cursor
later_pick clock idxs now exclude cursor (suc j) =
    later_pick clock (λ k. idxs (suc k)) now exclude
      (stable_rr_pick clock (idxs 0) now exclude cursor).0 j

round_trip : (c i n : ℕ) → i < n → (c + (i + (n - c % n)) % n) % n ≡ i
round_trip c i n h =
    let x = i + (n - c % n) in
    let q = c / n in
    let whole : c + x ≡ n * q + (i + n) =
      omega (arith, div-add-mod c n, mod-lt c {m = n} (omega arith)) in
    add-mod-mod c x n
    ∙ (ap (λ z. z % n) whole
        ∙ (mul-add-mod_self_left n q (i + n) ∙ (add-mod_right i n ∙ mod-eq_of_lt h)))

turn_in_range :
    (cursor : ℕ) (ms : List HotMeta)
    → 0 < length ms
    → take_turn cursor ms ≡ ((cursor + 1) % 2 ^ 64, get_elem? ms (cursor % length ms))
unfolding take_turn
turn_in_range cursor [] h = absurd (omega arith)
turn_in_range cursor (c ∷ cs) h = refl

later_pick_at :
    (clock : ℤ) (idxs : ℕ → Index) (now : ℤ) (exclude : IdSet) (cands : List HotMeta) (cursor j : ℕ)
    → ((k : ℕ) → candidates clock (idxs k) now exclude ≡ cands)
    → 0 < length cands
    → cursor + j < 2 ^ 64
    → (later_pick clock idxs now exclude cursor j).1 ≡ get_elem? cands ((cursor + j) % length cands)
unfolding later_pick stable_rr_pick
later_pick_at clock idxs now exclude cands cursor zero same h b =
    ap (λ l. (take_turn cursor l).1) (same 0)
    ∙ (ap (λ r. r.1) (turn_in_range cursor cands h)
        ∙ ap (λ c. get_elem? cands (c % length cands)) (omega arith))
later_pick_at clock idxs now exclude cands cursor (suc j) same h b =
    let next : (take_turn cursor (candidates clock (idxs 0) now exclude)).0 ≡ cursor + 1 =
      ap (λ l. (take_turn cursor l).0) (same 0)
      ∙ (ap (λ r. r.0) (turn_in_range cursor cands h) ∙ mod-eq_of_lt (omega arith)) in
    ap (λ c. (later_pick clock (λ k. idxs (suc k)) now exclude c j).1) next
    ∙ (later_pick_at clock (λ k. idxs (suc k)) now exclude cands (cursor + 1) j (λ k. same (suc k))
          h (omega arith)
        ∙ ap (λ c. get_elem? cands (c % length cands)) (omega arith))

-- The round robin is fair whatever order each pick meets the map in: from a valid index, while the
-- accounts, the limit on them and the excluded ones stay the same and the cursor does not wrap around,
-- each candidate is picked by one of the next n picks, where n is the number of candidates; before
-- each pick the map may have been put in another order.
pub stable_rr_pick-fair :
    (clock : ℤ) (idx : Index) (idxs : ℕ → Index) (now : ℤ) (exclude : IdSet) (cursor i : ℕ)
    (m : HotMeta)
    → (let cands = candidates clock idx now exclude in
        IsValid idx
        → ((k : ℕ) → IsReordered idx (idxs k))
        → i < length cands
        → get_elem? cands i ≡ some m
        → cursor + length cands < 2 ^ 64
        → (j : ℕ) × ((j < length cands)
            × ((later_pick clock idxs now exclude cursor j).1 ≡ some m)))
stable_rr_pick-fair clock idx idxs now exclude cursor i m v reordered h e b =
    let cands = candidates clock idx now exclude in
    let n = length cands in
    let j = (i + (n - cursor % n)) % n in
    let small : j < n = mod-lt (i + (n - cursor % n)) {m = n} (omega arith) in
    (
      j,
      (
        small,
        later_pick_at clock idxs now exclude cands cursor j
              (λ k. candidates-reordered clock idx (idxs k) now exclude v (reordered k))
              (omega arith) (omega arith)
            ∙ (ap (λ k. get_elem? cands k) (round_trip cursor i n h) ∙ e),
      ),
    )
