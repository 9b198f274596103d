-- ===== src/Clients/Gate/Limits.antt =====
-- internal/clients/store.go: the limits of the gate through any sequence of calls.
use grokbuild_pool.Base.{
  ℤ, pos, ◌+ℤ◌, ◌-ℤ◌, ◌≤ℤ◌, ◌<ℤ◌, +ℤ_parts, -ℤ_parts, eq_of_parts, ltb_ℤ, leb_ℤ, eqb_ℤ_iff, String,
  false, List, [], ◌∷◌, Option, none, some, if◌then◌else◌, ◌==◌, string_eq, eq_iff, lookup, insert,
  lookup-insert, lookup-delete, ok, ◌≡◌, refl, ap, arith, if_split,
}
use grokbuild_pool.Clients.Gate.{
  Gate, RpmWindow, GateAnswer, current_inflight, fresh_window, take_slot, acquire_slot,
  release_slot, forget_token,
}

-- One token's share of the gate: its count and its window.
pub record IsWithin (max rpm : ℤ) (g : Gate) (id : String) : Type 0 where
  pub floor : pos 0 ≤ℤ current_inflight g id
  pub cap : pos 0 <ℤ max → current_inflight g id ≤ℤ max
  pub rate : (w : RpmWindow) → lookup id g.rpm_win ≡ some w → pos 0 <ℤ rpm → w.count ≤ℤ rpm

-- The limits of each token.
abbrev pub Limits : Type 0
Limits = String → ℤ × ℤ

abbrev pub AllWithin : Limits → Gate → Type 0
AllWithin limits g = (id : String) → IsWithin (limits id).0 (limits id).1 g id

pub data GateCall : Type 0 where
  acquire : ℤ → String → GateCall
  release : String → GateCall
  forget : String → GateCall

-- Every acquisition is made with the limits of its token.
unfoldable pub gate_call : Limits → Gate → GateCall → Gate
gate_call limits g (acquire now id) = (acquire_slot now g id (limits id).0 (limits id).1).0
gate_call limits g (release id) = release_slot g id
gate_call limits g (forget id) = forget_token g id

unfoldable pub gate_calls : Limits → Gate → List GateCall → Gate
unfolding gate_call
gate_calls limits g [] = g
gate_calls limits g (c ∷ cs) = gate_calls limits (gate_call limits g c) cs

window_kept :
    (g : Gate) (id j : String) (max r : ℤ) (w : Option RpmWindow) (v : RpmWindow)
    → ((u : RpmWindow) → lookup j g.rpm_win ≡ some u → pos 0 <ℤ r → u.count ≤ℤ r)
    → ((id ≡ j) → (u : RpmWindow) → w ≡ some u → u.count <ℤ r)
    → lookup j (take_slot g id max w).0.rpm_win ≡ some v
    → pos 0 <ℤ r
    → v.count ≤ℤ r
unfolding take_slot
window_kept g id j max r none v h k e p = ground (arith, h v)
window_kept g id j max r (some u) v h k e p = ground (
  arith,
  h v,
  λ (q : id ≡ j). k q u refl,
  eq_iff id j,
  lookup-insert id j (record u { count = u.count +ℤ pos 1 }) g.rpm_win,
  +ℤ_parts u.count (pos 1),
)

take_slot-IsWithin :
    (g : Gate) (id j : String) (max m r : ℤ) (w : Option RpmWindow)
    → IsWithin m r g j
    → ((id ≡ j) → (max ≡ m) × ((v : RpmWindow) → w ≡ some v → v.count <ℤ r))
    → IsWithin m r (take_slot g id max w).0 j
unfolding take_slot current_inflight
take_slot-IsWithin g id j max m r w h k =
    let cur = current_inflight g id in
    record {
      floor = ground (
        arith,
        h.floor,
        h.cap,
        k,
        eq_iff id j,
        lookup-insert id j (cur +ℤ pos 1) g.inflight,
        +ℤ_parts cur (pos 1),
      );
      cap = λ p. ground (
        arith,
        h.floor,
        h.cap p,
        k,
        eq_iff id j,
        lookup-insert id j (cur +ℤ pos 1) g.inflight,
        +ℤ_parts cur (pos 1),
      );
      rate = λ v e p. window_kept g id j max r w v h.rate (λ e. (k e).1) e p;
    }

-- The window that `AcquireSlot` stores before it counts.
opened : Gate → String → RpmWindow → Gate
opened g id w = record g { rpm_win = insert id w g.rpm_win }

opened-IsWithin :
    (now : ℤ) (g : Gate) (id j : String) (m r : ℤ)
    → IsWithin m r g j
    → IsWithin m r (opened g id (fresh_window now g id)) j
unfolding opened fresh_window current_inflight
opened-IsWithin now g id j m r h = record {
  floor = h.floor;
  cap = h.cap;
  rate = λ v e p. ground (
    arith,
    h.rate v,
    h.rate (fresh_window now g id),
    eq_iff id j,
    lookup-insert id j (fresh_window now g id) g.rpm_win,
  );
}

acquire-within :
    (limits : Limits) (now : ℤ) (g : Gate) (id : String)
    → AllWithin limits g
    → AllWithin limits (acquire_slot now g id (limits id).0 (limits id).1).0
unfolding acquire_slot opened
acquire-within limits now g id h j =
    let w = fresh_window now g id in
    let m = (limits id).0 in
    let r = (limits id).1 in
    let P = λ (a : GateAnswer). IsWithin (limits j).0 (limits j).1 a.0 j in
    if_split P (id == "") (λ blank. h j)
      (λ named.
        if_split P (ltb_ℤ (pos 0) r)
          (λ limited.
            if_split P (leb_ℤ r w.count) (λ full. opened-IsWithin now g id j _ _ (h j))
              (λ room.
                take_slot-IsWithin (opened g id w) id j m _ _ (some w)
                  (opened-IsWithin now g id j _ _ (h j))
                  (λ e.
                    (ap (λ i. (limits i).0) e, λ u q. ground (arith, ap (λ i. (limits i).1) e)))))
          (λ free.
            take_slot-IsWithin g id j m _ _ none (h j)
              (λ e. (ap (λ i. (limits i).0) e, λ u q. ground arith))))

release-within :
    (limits : Limits) (g : Gate) (id : String)
    → AllWithin limits g
    → AllWithin limits (release_slot g id)
unfolding release_slot current_inflight
release-within limits g id h j =
    let n = current_inflight g id in
    record {
      floor = ground (
        arith,
        (h j).floor,
        eq_iff id j,
        lookup-insert id j (n -ℤ pos 1) g.inflight,
        lookup-delete id j g.inflight,
        lookup-delete id j (insert id (n -ℤ pos 1) g.inflight),
        -ℤ_parts n (pos 1),
      );
      cap = λ p. ground (
        arith,
        (h j).floor,
        (h j).cap p,
        eq_iff id j,
        lookup-insert id j (n -ℤ pos 1) g.inflight,
        lookup-delete id j g.inflight,
        lookup-delete id j (insert id (n -ℤ pos 1) g.inflight),
        -ℤ_parts n (pos 1),
      );
      rate = λ v e p. (h j).rate v (ground arith) p;
    }

forget-within :
    (limits : Limits) (g : Gate) (id : String)
    → AllWithin limits g
    → AllWithin limits (forget_token g id)
unfolding forget_token current_inflight
forget-within limits g id h j = record {
  floor = ground (arith, (h j).floor, lookup-delete id j g.inflight);
  cap = λ p. ground (arith, (h j).floor, (h j).cap p, lookup-delete id j g.inflight);
  rate = λ v e p. (h j).rate v (ground (arith, lookup-delete id j g.rpm_win)) p;
}

gate_call-within :
    (limits : Limits) (g : Gate) (c : GateCall)
    → AllWithin limits g
    → AllWithin limits (gate_call limits g c)
unfolding gate_call
gate_call-within limits g (acquire now id) h = acquire-within limits now g id h
gate_call-within limits g (release id) h = release-within limits g id h
gate_call-within limits g (forget id) h = forget-within limits g id h

-- While every token keeps its limits, no sequence of acquisitions, releases and deletions takes a
-- token's count below zero or above its limit, or a window above its rate, where these are limited.
pub gate_calls-AllWithin :
    (limits : Limits) (g : Gate) (cs : List GateCall)
    → AllWithin limits g
    → AllWithin limits (gate_calls limits g cs)
unfolding gate_calls
gate_calls-AllWithin limits g [] h = h
gate_calls-AllWithin limits g (c ∷ cs) h =
    gate_calls-AllWithin limits (gate_call limits g c) cs (gate_call-within limits g c h)

acquire_granted :
    (now : ℤ) (g : Gate) (id : String) (max rpm : ℤ)
    → (acquire_slot now g id max rpm).1 ≡ ok tt
    → ((id == "") ≡ false)
      × ((acquire_slot now g id max rpm).0.inflight
          ≡ insert id (current_inflight g id +ℤ pos 1) g.inflight)
unfolding acquire_slot take_slot current_inflight
acquire_granted now g id max rpm e = ground arith

current-release_slot :
    (g : Gate) (id j : String)
    → (id == "") ≡ false
    → (let n = current_inflight g id in
        pos 0 <ℤ n
        → current_inflight (release_slot g id) j
          ≡ (if id == j then n -ℤ pos 1 else current_inflight g j))
unfolding release_slot current_inflight
current-release_slot g id j named h =
    let n = current_inflight g id in
    ground (
      arith,
      eq_iff id j,
      lookup-insert id j (n -ℤ pos 1) g.inflight,
      lookup-delete id j (insert id (n -ℤ pos 1) g.inflight),
      eqb_ℤ_iff (n -ℤ pos 1) (pos 0),
    )

-- A release gives back what a granted acquisition took: every token has the count it had before,
-- when the token that took the slot had a count that was not negative.
pub release-acquire :
    (now : ℤ) (g : Gate) (id j : String) (max rpm : ℤ)
    → pos 0 ≤ℤ current_inflight g id
    → (acquire_slot now g id max rpm).1 ≡ ok tt
    → current_inflight (release_slot (acquire_slot now g id max rpm).0 id) j ≡ current_inflight g j
unfolding current_inflight
release-acquire now g id j max rpm h granted =
    let n = current_inflight g id in
    let (named, added) = acquire_granted now g id max rpm granted in
    let g' = (acquire_slot now g id max rpm).0 in
    ground (
      arith,
      current-release_slot g' id j named,
      added,
      lookup-insert id j (n +ℤ pos 1) g.inflight,
      lookup-insert id id (n +ℤ pos 1) g.inflight,
      eq_iff id id,
      eq_iff id j,
      ap (lookup id) added,
      ap (lookup j) added,
      +ℤ_parts n (pos 1),
      -ℤ_parts (n +ℤ pos 1) (pos 1),
      eq_of_parts ((n +ℤ pos 1) -ℤ pos 1) n,
    )
