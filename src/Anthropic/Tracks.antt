-- ===== src/Anthropic/Tracks.antt =====
-- internal/protocol/anthropic/stream.go: how the blocks of the translator stand to the indices that
-- the client has open.
use grokbuild_pool.Base.{
  ℕ, ◌+◌, ◌≤◌, ◌<◌, eqb, String, Bool, true, false, Option, none, some, ◌==◌, string_eq, eq_iff,
  ◌≡◌, ◌≢◌, ◌⊎◌, inl, inr, refl, sym, ap, subst, ◌∙◌, arith, Bool-cases,
}
use grokbuild_pool.Anthropic.Frames.{set_open}
use grokbuild_pool.Anthropic.Stream.{Block}

-- The places that a block is kept in.
pub data Slot : Type 0 where
  of_thinking : Slot
  of_key : String → Slot

pub slot_cases : (j k : Slot) → (j ≡ k) ⊎ (j ≢ k)
slot_cases of_thinking of_thinking = inl refl
slot_cases of_thinking (of_key y) = inr (λ e. cc)
slot_cases (of_key x) of_thinking = inr (λ e. cc)
slot_cases (of_key x) (of_key y) = elim (Bool-cases (x == y)) [
  | inl e ↦ inl (ap of_key ((eq_iff x y).0 e))
  | inr e ↦ inr (λ p. ground (arith, eq_iff x y))
]

-- `free` is the client's bound on new indices and `open_at` the indices that it has open.
pub record Tracks (get : Slot → Option Block) (next free : ℕ) (open_at : ℕ → Bool) : Type 0 where
  pub above : free ≤ next
  pub low : (k : Slot) (b : Block) → get k ≡ some b → b.index < next
  pub held : (k : Slot) (b : Block) → get k ≡ some b → b.stopped ≡ false → open_at b.index ≡ true
  pub apart :
      (k j : Slot) (b d : Block) → get k ≡ some b → get j ≡ some d → b.index ≡ d.index → k ≡ j
  pub owned :
      (i : ℕ)
      → open_at i ≡ true
      → (k : Slot) × (b : Block) × (get k ≡ some b) × (b.index ≡ i) × (b.stopped ≡ false)

same_block : {o : Option Block} (b d : Block) → o ≡ some b → o ≡ some d → b ≡ d
same_block b d e f = cc

index_of : {b d : Block} → b ≡ d → b.index ≡ d.index
index_of e = ap (λ (x : Block). x.index) e

stopped_of : {b d : Block} → b ≡ d → b.stopped ≡ d.stopped
stopped_of e = ap (λ (x : Block). x.stopped) e

-- A change at one place.
module _ {get get' : Slot → Option Block} {next free : ℕ} {open_at : ℕ → Bool}
    (t : Tracks get next free open_at) (k : Slot) (rest : (j : Slot) → j ≢ k → get' j ≡ get j) where
  origin :
      (j : Slot) (d : Block)
      → get' j ≡ some d
      → ((j ≡ k) × (get' k ≡ some d)) ⊎ ((j ≢ k) × (get j ≡ some d))
  origin j d e = elim (slot_cases j k) [
    | inl same ↦ inl (same, subst (λ i. get' i ≡ some d) same e)
    | inr other ↦ inr (other, sym (rest j other) ∙ e)
  ]

  -- Blocks have indices of their own, when the block in that place has.
  apart_after :
      ((d f : Block) (i : Slot) → get' k ≡ some d → get i ≡ some f → d.index ≡ f.index → k ≡ i)
      → (j i : Slot) (d f : Block) → get' j ≡ some d
      → get' i ≡ some f
      → d.index ≡ f.index
      → j ≡ i
  apart_after own j i d f e e' same = elim (origin j d e) [
    | inl (jk, at) ↦ elim (origin i f e') [
      | inl (ik, at') ↦ jk ∙ sym ik
      | inr (other, at') ↦ jk ∙ own d f i at at' same
    ]
    | inr (other, at) ↦ elim (origin i f e') [
      | inl (ik, at') ↦ sym (own f d j at' at (sym same)) ∙ sym ik
      | inr (other', at') ↦ t.apart j i d f at at' same
    ]
  ]

  -- A block that starts takes the next index.
  pub begun :
      (b : Block)
      → get k ≡ none
      → get' k ≡ some b
      → b.index ≡ next
      → b.stopped ≡ false
      → Tracks get' (next + 1) (next + 1) (set_open open_at next true)
  begun b empty new at_next running = record {
    above = omega arith;
    low = λ j d e. elim (origin j d e) [
      | inl (same, at) ↦ ground arith
      | inr (other, at) ↦ omega (arith, t.low j d at)
    ];
    held = λ j d e r. elim (origin j d e) [
      | inl (same, at) ↦ ground arith
      | inr (other, at) ↦ ground (arith, t.held j d at r)
    ];
    apart = apart_after (λ d f i at at' same. ground (arith, t.low i f at'));
    owned = λ i e. elim (Bool-cases (eqb next i)) [
      | inl h ↦ (k, b, new, ground arith, running)
      | inr h ↦
          let (j, d, at, at_i, going) = t.owned i (ground arith) in
          (j, d, rest j (λ same. cc (subst (λ i. get i ≡ some d) same at)) ∙ at, at_i, going)
    ];
  }

  -- A block that shows that something has been written stays as it is for the client.
  pub grown :
      (b b' : Block)
      → get k ≡ some b
      → get' k ≡ some b'
      → b'.index ≡ b.index
      → b'.stopped ≡ b.stopped
      → Tracks get' next free open_at
  grown b b' old new same_index same_stop = record {
    above = t.above;
    low = λ j d e. elim (origin j d e) [
      | inl (same, at) ↦ ground (arith, t.low k b old)
      | inr (other, at) ↦ t.low j d at
    ];
    held = λ j d e r. elim (origin j d e) [
      | inl (same, at) ↦
          let now = same_block d b' at new in
          subst (λ n. open_at n ≡ true) (sym (index_of now ∙ same_index))
            (t.held k b old (sym (stopped_of now ∙ same_stop) ∙ r))
      | inr (other, at) ↦ t.held j d at r
    ];
    apart = apart_after (λ d f i at at' same.
        t.apart k i b f old at' (sym (index_of (same_block d b' at new) ∙ same_index) ∙ same));
    owned = λ i e.
        let (j, d, at, at_i, going) = t.owned i e in
        elim (slot_cases j k) [
          | inl same ↦
              let was = same_block d b (subst (λ i. get i ≡ some d) same at) old in
              (
                k,
                b',
                new,
                same_index ∙ sym (index_of was) ∙ at_i,
                same_stop ∙ sym (stopped_of was) ∙ going,
              )
          | inr other ↦ (j, d, rest j other ∙ at, at_i, going)
        ];
  }

  -- A block that stops, or is gone, is closed for the client.
  pub ended :
      (b : Block)
      → get k ≡ some b
      → ((d : Block) → get' k ≡ some d → (d.index ≡ b.index) × (d.stopped ≡ true))
      → Tracks get' next free (set_open open_at b.index false)
  ended b old new = record {
    above = t.above;
    low = λ j d e. elim (origin j d e) [
      | inl (same, at) ↦ ground (arith, t.low k b old, new d at)
      | inr (other, at) ↦ t.low j d at
    ];
    held = λ j d e r. elim (origin j d e) [
      | inl (same, at) ↦ ground (arith, new d at)
      | inr (other, at) ↦
          let apart : b.index ≢ d.index = λ same. other (sym (t.apart k j b d old at same)) in
          ground (arith, t.held j d at r)
    ];
    apart = apart_after (λ d f i at at' same. t.apart k i b f old at' (sym (new d at).0 ∙ same));
    owned = λ i e.
        let (j, d, at, at_i, going) = t.owned i (ground arith) in
        let apart : b.index ≢ i = λ same. ground arith in
        (
          j,
          d,
          rest j (λ same.
                apart (
                  sym (index_of (same_block d b (subst (λ i. get i ≡ some d) same at) old)) ∙ at_i))
              ∙ at,
          at_i,
          going,
        );
  }
