-- ===== src/Proxy/Health.antt =====
-- internal/proxypool/pool.go: what a pick, a failure and a replacement promise.
use grokbuild_pool.Base.{
  ℕ, zero, suc, ◌+◌, ◌*◌, ◌%◌, ◌^◌, ◌≤◌, ◌<◌, ℤ, pos, ◌≤ℤ◌, -ℤ_parts, String, true, ◌≡◌, refl, sym,
  ap, ◌∙◌, subst, arith, List, [], ◌∷◌, some, length, get_elem?, All, if_split, option_split,
  string_eq, trim_space,
}
use grokbuild_pool.Proxy.Pool.{
  Node, is_healthy, healthy, least, lowers_to, choose, pick, fail_seconds, fail_exponent,
  healthy_count, assign_least_accounts,
}

-- An index of a healthy node.
unfoldable pub IsHealthyAt : ℤ → List Node → ℕ → Type 0
IsHealthyAt now nodes i = (n : Node) × ((get_elem? nodes i ≡ some n) × (is_healthy now n ≡ true))

healthy-All :
    (now : ℤ) (full : List Node) (i : ℕ) (nodes : List Node)
    → ((j : ℕ) → get_elem? nodes j ≡ get_elem? full (i + j))
    → All (IsHealthyAt now full) (healthy now i nodes)
unfolding healthy get_elem? IsHealthyAt
healthy-All now full i [] same = tt
healthy-All now full i (n ∷ nodes) same =
    let rest =
      healthy-All now full (i + 1) nodes (λ j. same (suc j) ∙ ap (get_elem? full) (omega arith)) in
    if_split (All (IsHealthyAt now full)) (is_healthy now n)
      (λ well. ((n, (ap (get_elem? full) (omega arith) ∙ sym (same 0), well)), rest)) (λ _. rest)

least-All :
    (P : ℕ → Type 0) (nodes : List Node) (i : ℕ) (idxs : List ℕ)
    → P i
    → All P idxs
    → P (least nodes i idxs)
unfolding least
least-All P nodes i [] h k = h
least-All P nodes i (j ∷ idxs) h k =
    if_split P _ {x = least nodes j idxs} {y = least nodes i idxs}
      (λ _. least-All P nodes j idxs k.0 k.1) (λ _. least-All P nodes i idxs h k.1)

All-at : (P : ℕ → Type 0) (is : List ℕ) (k j : ℕ) → All P is → get_elem? is k ≡ some j → P j
unfolding get_elem?
All-at P [] k j h e = ground arith
All-at P (i ∷ is) zero j h e = subst P (ground arith) h.0
All-at P (i ∷ is) (suc k) j h e = All-at P is k j h.1 e

choose-All :
    (P : ℕ → Type 0) (hash : String → ℕ) (nodes : List Node) (account mode : String) (i : ℕ)
    (idxs : List ℕ)
    → P i
    → All P idxs
    → P (choose hash nodes account mode i idxs)
unfolding choose
choose-All P hash nodes account mode i idxs h k =
    if_split P (lowers_to (trim_space mode) assign_least_accounts)
      (λ _. least-All P nodes i idxs h k)
      (λ _.
        option_split P (get_elem? (i ∷ idxs) (hash (trim_space account) % suc (length idxs)))
          (λ _. h) (λ j e. All-at P (i ∷ idxs) _ j (h, k) e))

pick-of :
    (hash : String → ℕ) (mode_of : String → String) (now : ℤ) (nodes : List Node)
    (account mode : String) (is : List ℕ)
    → healthy now 0 nodes ≡ is
    → All (IsHealthyAt now nodes) is
    → 0 < length is
    → (i : ℕ) × (IsHealthyAt now nodes i
        × ((n : Node)
            → get_elem? nodes i ≡ some n
            → (pick hash mode_of now nodes account mode).1 ≡ some (n.url, mode_of n.url)))
unfolding pick
pick-of hash mode_of now nodes account mode [] e h found = absurd (omega arith)
pick-of hash mode_of now nodes account mode (i ∷ is) e h found = (
  choose hash nodes account mode i is,
  (
    choose-All (IsHealthyAt now nodes) hash nodes account mode i is h.0 h.1,
    λ n at. rw (pick, e, at) refl,
  ),
)

-- A pick of either mode finds a node whenever one is healthy, and what it answers is the URL of a
-- healthy node.
pub pick-healthy :
    (hash : String → ℕ) (mode_of : String → String) (now : ℤ) (nodes : List Node)
    (account mode : String)
    → 0 < healthy_count now nodes
    → (i : ℕ) × (IsHealthyAt now nodes i
        × ((n : Node)
            → get_elem? nodes i ≡ some n
            → (pick hash mode_of now nodes account mode).1 ≡ some (n.url, mode_of n.url)))
unfolding healthy_count
pick-healthy hash mode_of now nodes account mode h =
    pick-of hash mode_of now nodes account mode (healthy now 0 nodes) refl
      (healthy-All now nodes 0 nodes (λ j. ap (get_elem? nodes) (omega arith))) h

power_bounds : (k : ℕ) → k ≤ 4 → (30 ≤ 30 * 2 ^ k) × (30 * 2 ^ k ≤ 480)
power_bounds zero h = (omega arith, omega arith)
power_bounds (suc zero) h = (omega arith, omega arith)
power_bounds (suc (suc zero)) h = (omega arith, omega arith)
power_bounds (suc (suc (suc zero))) h = (omega arith, omega arith)
power_bounds (suc (suc (suc (suc zero)))) h = (omega arith, omega arith)
power_bounds (suc (suc (suc (suc (suc k))))) h = absurd (omega arith)

fail_exponent-le : (n : ℤ) → (fail_exponent n ≤ 4) × (n ≤ℤ pos 1 → fail_exponent n ≡ 0)
unfolding fail_exponent
fail_exponent-le n = (ground (arith, -ℤ_parts n (pos 1)), λ h. ground (arith, -ℤ_parts n (pos 1)))

-- A failed node cools down for at least 30 seconds and at most 480, so the cap of 900 is never
-- reached, and for exactly 30 seconds after a first failure.
pub fail_seconds-bounds :
    (n : ℤ)
    → (pos 30 ≤ℤ fail_seconds n)
      × ((fail_seconds n ≤ℤ pos 480) × (n ≤ℤ pos 1 → fail_seconds n ≡ pos 30))
unfolding fail_seconds
fail_seconds-bounds n =
    let k = fail_exponent n in
    let b = power_bounds k (fail_exponent-le n).0 in
    (ground (arith, b), (ground (arith, b), λ h. rw (fail_seconds, (fail_exponent-le n).1 h) refl))
