-- ===== src/Anthropic/Live.antt =====
-- internal/protocol/anthropic/stream.go: what has been written so far is a stream that a client can
-- follow, and the translator knows what the client has open.
use grokbuild_pool.Base.{
  String, Bool, true, false, List, ◌∷◌, Option, some, ◌==◌, string_eq, eq_iff, lookup, insert,
  lookup-insert, IsUniq, insert-IsUniq, ◌≡◌, ◌≢◌, ◌⊎◌, inl, inr, refl, sym, ap, subst, ◌∙◌, arith,
  Bool-cases, option_split, if_split,
}
use grokbuild_pool.Anthropic.Exec.{Answer, Leads, modify, ◌>>=◌}
use grokbuild_pool.Anthropic.Frames.{
  Frame, Delta, block_delta, block_stop, Client, set_open, Step, start, grow, stop, Follows, event,
}
use grokbuild_pool.Anthropic.Stream.{
  Stream, Block, ThinkingOptions, write_event, ensure_start, mark_emitted, mark_stopped, emit_delta,
  stop_key,
}
use grokbuild_pool.Anthropic.Tracks.{Slot, of_thinking, of_key, Tracks, begun, grown, ended}

abbrev pub slot_get : Option Block → List (String × Block) → Slot → Option Block
slot_get t blocks of_thinking = t
slot_get t blocks (of_key key) = lookup key blocks

pub record Linked (s : Stream) (c : Client) : Type 0 where
  pub same_start : c.started ≡ s.started
  pub not_closing : c.closing ≡ false
  pub not_ended : c.ended ≡ false
  pub tracks : Tracks (slot_get s.thinking_block s.blocks) s.next_index c.next c.open_at
  pub uniq : IsUniq s.blocks
  pub awake :
      (b : Block)
      → s.thinking_block ≡ some b
      → (b.stopped ≡ false) × (s.thinking_options.enabled ≡ true)

-- The writer has failed and takes no more, or the translator and the client agree. With `must` the
-- message has started too.
pub record Live (fails : List Frame → Bool) (must : Bool) (s : Stream) : Type 0 where
  pub client : Client
  pub follows : Follows s.out_rev client
  pub state : (fails s.out_rev ≡ true) ⊎ Linked s client
  pub begun : must ≡ true → s.started ≡ true
  pub going : s.finished ≡ false

module _ (fails : List Frame → Bool) (clock_id : List Frame → String) (must : Bool) where
  pub Live-Linked :
      (s : Stream) (v : Live fails must s) → fails s.out_rev ≡ false → Linked s v.client
  Live-Linked s v fine = elim v.state [ inl broken ↦ cc | inr l ↦ l ]

  -- A state with the same output after the writer has failed.
  pub stuck :
      (s s' : Stream)
      → Live fails must s
      → fails s.out_rev ≡ true
      → s'.out_rev ≡ s.out_rev
      → s'.started ≡ s.started
      → s'.finished ≡ s.finished
      → Live fails must s'
  stuck s s' v broken same same_start same_finish = record {
    client = v.client;
    follows = subst (λ out. Follows out v.client) (sym same) v.follows;
    state = inl (ap fails same ∙ broken);
    begun = λ h. same_start ∙ v.begun h;
    going = same_finish ∙ v.going;
  }

  -- An event that a client accepts.
  pub accepted :
      (s s' : Stream) (v : Live fails must s) (frame : Frame) (c' : Client)
      → s'.out_rev ≡ frame ∷ s.out_rev
      → (must ≡ true → s'.started ≡ true)
      → s'.finished ≡ false
      → Step v.client frame c'
      → Linked s' c'
      → Live fails must s'
  accepted s s' v frame c' written begun going step linked = record {
    client = c';
    follows = subst (λ out. Follows out c') (sym written) (event v.follows step);
    state = inr linked;
    begun = begun;
    going = going;
  }

  -- A change that neither the client nor the blocks see.
  pub aside :
      (s s' : Stream)
      → s'.out_rev ≡ s.out_rev
      → s'.started ≡ s.started
      → s'.finished ≡ s.finished
      → s'.blocks ≡ s.blocks
      → s'.next_index ≡ s.next_index
      → s'.thinking_block ≡ s.thinking_block
      → s'.thinking_options ≡ s.thinking_options
      → Live fails must s
      → Live fails must s'
  aside s s' same_out same_start same_finish same_blocks same_next same_thinking same_options v =
      elim v.state [
        | inl broken ↦ stuck s s' v broken same_out same_start same_finish
        | inr l ↦ record {
          client = v.client;
          follows = subst (λ out. Follows out v.client) (sym same_out) v.follows;
          state = inr (record {
            same_start = l.same_start ∙ sym same_start;
            not_closing = l.not_closing;
            not_ended = l.not_ended;
            tracks = rw (same_thinking, same_blocks, same_next) l.tracks;
            uniq = rw same_blocks l.uniq;
            awake = λ b e.
                let (running, on) = l.awake b (sym same_thinking ∙ e) in
                (running, ap (λ (o : ThinkingOptions). o.enabled) same_options ∙ on);
          });
          begun = λ h. same_start ∙ v.begun h;
          going = same_finish ∙ v.going;
        }
      ]

  -- An event of a block: the write, and what is noted of it after.
  pub written :
      (frame : Frame) (note : Stream → Stream) (s : Stream)
      → Live fails must s
      → (fails s.out_rev ≡ false
          → Live fails must (note (record s { out_rev = frame ∷ s.out_rev })))
      → Live fails must ((write_event fails clock_id frame >>= λ _. modify note) s).0
  unfolding write_event ◌>>=◌
  written frame note s v rest = elim (Bool-cases (fails s.out_rev)) [
    | inl broken ↦ rw broken v
    | inr fine ↦ rw fine (rest fine)
  ]

  key_apart : (j key : String) → of_key j ≢ of_key key → (key == j) ≡ false
  key_apart j key other = elim (Bool-cases (key == j)) [
    | inl e ↦ absurd (other (ap of_key (sym ((eq_iff key j).0 e))))
    | inr e ↦ e
  ]

  -- Storing a block leaves the other places.
  pub insert_rest :
      (t : Option Block) (blocks : List (String × Block)) (key : String) (b : Block) (j : Slot)
      → j ≢ of_key key
      → slot_get t (insert key b blocks) j ≡ slot_get t blocks j
  insert_rest t blocks key b of_thinking other = refl
  insert_rest t blocks key b (of_key j) other =
      rw (lookup-insert key j b blocks, key_apart j key other) refl

  pub insert_same :
      (blocks : List (String × Block)) (key : String) (b : Block)
      → lookup key (insert key b blocks) ≡ some b
  insert_same blocks key b = ground (arith, lookup-insert key key b blocks, eq_iff key key)

  -- Another thinking block leaves the blocks of the map.
  pub thinking_rest :
      (t t' : Option Block) (blocks : List (String × Block)) (j : Slot)
      → j ≢ of_thinking
      → slot_get t' blocks j ≡ slot_get t blocks j
  thinking_rest t t' blocks of_thinking other = absurd (other refl)
  thinking_rest t t' blocks (of_key j) other = refl

  unfoldable pub LiveAfter : Stream × Answer (Unit {0}) → Type 0
  LiveAfter r = Live fails must r.0

  noted_grown :
      (s : Stream) (v : Live fails must s) (key : String) (b : Block) (delta : Delta)
      → lookup key s.blocks ≡ some b
      → b.stopped ≡ false
      → fails s.out_rev ≡ false
      → Live fails must
          (mark_emitted key b (record s { out_rev = block_delta b.index delta ∷ s.out_rev }))
  unfolding mark_emitted
  noted_grown s v key b delta at running fine =
      let l = Live-Linked s v fine in
      accepted s _ v _ v.client refl v.begun v.going
        (grow l.not_closing l.not_ended (l.tracks.held (of_key key) b at running))
        (record {
          same_start = l.same_start;
          not_closing = l.not_closing;
          not_ended = l.not_ended;
          tracks =
              grown l.tracks (of_key key)
                (insert_rest s.thinking_block s.blocks key (record b { emitted = true })) b
                (record b { emitted = true }) at
                (insert_same s.blocks key (record b { emitted = true })) refl refl;
          uniq = insert-IsUniq key (record b { emitted = true }) s.blocks l.uniq;
          awake = l.awake;
        })

  pub emit_delta-Live :
      (key : String) (delta : Delta)
      → Leads (Live fails must) (Live fails must) (emit_delta fails clock_id key delta)
  unfolding emit_delta LiveAfter
  emit_delta-Live key delta = record {
    at = λ s v.
        option_split LiveAfter (lookup key s.blocks) (λ _. v)
          (λ b at.
            if_split LiveAfter b.stopped (λ _. v)
              (λ running.
                written (block_delta b.index delta) (mark_emitted key b) s v
                  (noted_grown s v key b delta at running)));
  }

  pub noted_stopped :
      (s : Stream) (v : Live fails must s) (key : String) (b : Block)
      → lookup key s.blocks ≡ some b
      → b.stopped ≡ false
      → fails s.out_rev ≡ false
      → Live fails must (mark_stopped key b (record s { out_rev = block_stop b.index ∷ s.out_rev }))
  unfolding mark_stopped
  noted_stopped s v key b at running fine =
      let l = Live-Linked s v fine in
      accepted s _ v _ (record v.client { open_at = set_open v.client.open_at b.index false }) refl
        v.begun v.going (stop l.not_closing l.not_ended (l.tracks.held (of_key key) b at running))
        (record {
          same_start = l.same_start;
          not_closing = l.not_closing;
          not_ended = l.not_ended;
          tracks =
              ended l.tracks (of_key key)
                (insert_rest s.thinking_block s.blocks key (record b { stopped = true })) b at
                (λ d e. ground (arith, insert_same s.blocks key (record b { stopped = true })));
          uniq = insert-IsUniq key (record b { stopped = true }) s.blocks l.uniq;
          awake = l.awake;
        })

  pub stop_key-Live :
      (key : String) → Leads (Live fails must) (Live fails must) (stop_key fails clock_id key)
  unfolding stop_key LiveAfter
  stop_key-Live key = record {
    at = λ s v.
        option_split LiveAfter (lookup key s.blocks) (λ _. v)
          (λ b at.
            if_split LiveAfter b.stopped (λ _. v)
              (λ running.
                written (block_stop b.index) (mark_stopped key b) s v
                  (noted_stopped s v key b at running)));
  }

-- The message starts, or had started.
pub ensure_start-Live :
    (fails : List Frame → Bool) (clock_id : List Frame → String) (must : Bool) (id model : String)
    → Leads (Live fails must) (Live fails true) (ensure_start fails clock_id id model)
unfolding ensure_start write_event
ensure_start-Live fails clock_id must id model = record {
  at = λ s v.
      let P = λ (r : Stream × Answer (Unit {0})). Live fails true r.0 in
      if_split P s.started
        (λ old. record {
          client = v.client;
          follows = v.follows;
          state = v.state;
          begun = λ _. old;
          going = v.going;
        })
        (λ fresh.
          if_split P (fails s.out_rev)
            (λ broken. record {
              client = v.client;
              follows = v.follows;
              state = inl broken;
              begun = λ _. refl;
              going = v.going;
            })
            (λ fine.
              let l = Live-Linked fails clock_id must s v fine in
              record {
                client = record v.client { started = true };
                follows = event v.follows (start (l.same_start ∙ fresh) l.not_ended);
                state = inr (record {
                  same_start = refl;
                  not_closing = l.not_closing;
                  not_ended = l.not_ended;
                  tracks = l.tracks;
                  uniq = l.uniq;
                  awake = l.awake;
                });
                begun = λ _. refl;
                going = v.going;
              }));
}
