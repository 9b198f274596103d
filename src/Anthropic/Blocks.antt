-- ===== src/Anthropic/Blocks.antt =====
-- internal/protocol/anthropic/stream.go and thinking_stream.go: blocks that start, and the thinking
-- block.
use grokbuild_pool.Base.{
  ◌+◌, String, Bool, true, false, not, List, ◌∷◌, none, some, ◌==◌, string_eq, lookup, insert,
  insert-IsUniq, ◌≡◌, refl, ◌∙◌, arith, Bool-cases, inl, inr, option_split, if_split,
}
use grokbuild_pool.Anthropic.Exec.{Leads, modify, ◌>>=◌}
use grokbuild_pool.Anthropic.Frames.{
  Frame, BlockHead, Delta, thinking, signature_delta, thinking_delta, block_start, block_delta,
  block_stop, set_open, begin, grow, stop,
}
use grokbuild_pool.Anthropic.Stream.{
  Stream, Block, write_event, open_block, write_signature, close_thinking, finalize_thinking,
  open_thinking, emit_thinking,
}
use grokbuild_pool.Anthropic.Tracks.{of_thinking, of_key, begun, grown, ended}
use grokbuild_pool.Anthropic.Live.{
  Live, Live-Linked, stuck, accepted, aside, written, insert_rest, insert_same, thinking_rest,
  LiveAfter,
}

module _ (fails : List Frame → Bool) (clock_id : List Frame → String) where
  -- Where the index is taken before the write.
  started_write :
      (must : Bool) (frame : Frame) (note : Stream → Stream) (s : Stream)
      → Live fails must s
      → (fails s.out_rev ≡ false
          → Live fails must
              (note (record s { next_index = s.next_index + 1; out_rev = frame ∷ s.out_rev })))
      → Live fails must
          ((write_event fails clock_id frame >>= λ _. modify note)
            (record s { next_index = s.next_index + 1 })).0
  unfolding write_event ◌>>=◌
  started_write must frame note s v rest = elim (Bool-cases (fails s.out_rev)) [
    | inl broken ↦ rw broken (
        stuck fails clock_id must s (record s { next_index = s.next_index + 1 }) v broken refl refl
          refl)
    | inr fine ↦ rw fine (rest fine)
  ]

  pub open_block-Live :
      (key : String) (head : BlockHead) (block : Block) (s : Stream)
      → Live fails true s
      → lookup key s.blocks ≡ none
      → block.stopped ≡ false
      → Live fails true (open_block fails clock_id key head block s).0
  unfolding open_block ◌>>=◌
  open_block-Live key head block s v absent running =
      let new = record block { index = s.next_index } in
      started_write true (block_start s.next_index head)
        (λ (t : Stream). record t { blocks = insert key new t.blocks }) s v
        (λ fine.
          let l = Live-Linked fails clock_id true s v fine in
          accepted fails clock_id true s _ v _
            (record v.client {
              next = s.next_index + 1;
              open_at = set_open v.client.open_at s.next_index true;
            })
            refl v.begun v.going
            (begin (l.same_start ∙ v.begun refl) l.not_closing l.not_ended l.tracks.above)
            (record {
              same_start = l.same_start;
              not_closing = l.not_closing;
              not_ended = l.not_ended;
              tracks =
                  begun l.tracks (of_key key)
                    (insert_rest fails clock_id true s.thinking_block s.blocks key new) new absent
                    (insert_same fails clock_id true s.blocks key new) refl running;
              uniq = insert-IsUniq key new s.blocks l.uniq;
              awake = l.awake;
            }))

  pub open_thinking-Live :
      (s : Stream)
      → Live fails true s
      → s.thinking_block ≡ none
      → s.thinking_options.enabled ≡ true
      → Live fails true (open_thinking fails clock_id s).0
  unfolding open_thinking ◌>>=◌
  open_thinking-Live s v absent on =
      let new : Block = record {
        index = s.next_index;
        kind = "thinking";
        call_id = "";
        name = "";
        emitted = false;
        stopped = false;
      } in
      started_write true (block_start s.next_index thinking)
        (λ (t : Stream). record t { thinking_block = some new; thinking_stop_pending = false }) s v
        (λ fine.
          let l = Live-Linked fails clock_id true s v fine in
          accepted fails clock_id true s _ v _
            (record v.client {
              next = s.next_index + 1;
              open_at = set_open v.client.open_at s.next_index true;
            })
            refl v.begun v.going
            (begin (l.same_start ∙ v.begun refl) l.not_closing l.not_ended l.tracks.above)
            (record {
              same_start = l.same_start;
              not_closing = l.not_closing;
              not_ended = l.not_ended;
              tracks =
                  begun l.tracks of_thinking
                    (thinking_rest fails clock_id true s.thinking_block (some new) s.blocks) new
                    absent refl refl refl;
              uniq = l.uniq;
              awake = λ b e. (ground arith, on);
            }))

  module _ (must : Bool) where
    -- A delta of the thinking block.
    thinking_delta-Live :
        (b : Block) (delta : Delta) (emitted : Bool) (s : Stream)
        → Live fails must s
        → s.thinking_block ≡ some b
        → fails s.out_rev ≡ false
        → Live fails must (record s {
          out_rev = block_delta b.index delta ∷ s.out_rev;
          thinking_block = some (record b { emitted = emitted });
        })
    thinking_delta-Live b delta emitted s v at fine =
        let l = Live-Linked fails clock_id must s v fine in
        accepted fails clock_id must s _ v _ v.client refl v.begun v.going
          (grow l.not_closing l.not_ended (l.tracks.held of_thinking b at (l.awake b at).0))
          (record {
            same_start = l.same_start;
            not_closing = l.not_closing;
            not_ended = l.not_ended;
            tracks =
                grown l.tracks of_thinking
                  (thinking_rest fails clock_id must s.thinking_block
                    (some (record b { emitted = emitted })) s.blocks)
                  b (record b { emitted = emitted }) at refl refl refl;
            uniq = l.uniq;
            awake = λ d e. (ground (arith, (l.awake b at).0), (l.awake b at).1);
          })

    pub emit_thinking-Live :
        (said : String)
        → Leads (Live fails must) (Live fails must) (emit_thinking fails clock_id said)
    unfolding emit_thinking LiveAfter
    emit_thinking-Live said = record {
      at = λ s v.
          option_split (LiveAfter fails clock_id must) s.thinking_block (λ _. v)
            (λ b at.
              written fails clock_id must (block_delta b.index (thinking_delta said))
                (λ (t : Stream). record t { thinking_block = some (record b { emitted = true }) }) s
                v (thinking_delta-Live b (thinking_delta said) true s v at));
    }

    signed-Live :
        (b : Block) (delta : Delta) (s : Stream)
        → Live fails must s
        → s.thinking_block ≡ some b
        → fails s.out_rev ≡ false
        → Live fails must (record s { out_rev = block_delta b.index delta ∷ s.out_rev })
    signed-Live b delta s v at fine =
        let l = Live-Linked fails clock_id must s v fine in
        accepted fails clock_id must s _ v _ v.client refl v.begun v.going
          (grow l.not_closing l.not_ended (l.tracks.held of_thinking b at (l.awake b at).0))
          (record {
            same_start = l.same_start;
            not_closing = l.not_closing;
            not_ended = l.not_ended;
            tracks = l.tracks;
            uniq = l.uniq;
            awake = l.awake;
          })

    closed-Live :
        (b : Block) (clear : Bool) (s : Stream)
        → Live fails must s
        → s.thinking_block ≡ some b
        → fails s.out_rev ≡ false
        → Live fails must
            (close_thinking clear (record s { out_rev = block_stop b.index ∷ s.out_rev }))
    unfolding close_thinking
    closed-Live b clear s v at fine =
        let l = Live-Linked fails clock_id must s v fine in
        accepted fails clock_id must s _ v _
          (record v.client { open_at = set_open v.client.open_at b.index false }) refl v.begun
          v.going (stop l.not_closing l.not_ended (l.tracks.held of_thinking b at (l.awake b at).0))
          (record {
            same_start = l.same_start;
            not_closing = l.not_closing;
            not_ended = l.not_ended;
            tracks =
                ended l.tracks of_thinking
                  (thinking_rest fails clock_id must s.thinking_block none s.blocks) b at
                  (λ d e. cc);
            uniq = l.uniq;
            awake = λ d e. cc;
          })

    stop_thinking :
        (b : Block) (clear : Bool) (s : Stream)
        → Live fails must s
        → s.thinking_block ≡ some b
        → Live fails must
            ((write_event fails clock_id (block_stop b.index) >>= λ _.
                modify (close_thinking clear))
              s).0
    stop_thinking b clear s v at =
        written fails clock_id must (block_stop b.index) (close_thinking clear) s v
          (closed-Live b clear s v at)

    sign_and_stop :
        (b : Block) (clear : Bool) (s : Stream)
        → Live fails must s
        → s.thinking_block ≡ some b
        → Live fails must
            ((write_signature fails clock_id b >>= λ _.
                (write_event fails clock_id (block_stop b.index) >>= λ _.
                modify (close_thinking clear)))
              s).0
    unfolding write_signature ◌>>=◌ write_event
    sign_and_stop b clear s v at = elim (Bool-cases (s.thinking_signature == "")) [
      | inl unsigned ↦ rw unsigned (stop_thinking b clear s v at)
      | inr signed ↦ elim (Bool-cases (fails s.out_rev)) [
        | inl broken ↦ rw (signed, broken) v
        | inr fine ↦
            let delta = signature_delta s.thinking_signature in
            rw (signed, fine)
              (stop_thinking b clear (record s { out_rev = block_delta b.index delta ∷ s.out_rev })
                (signed-Live b delta s v at fine) at)
      ]
    ]

    pub finalize_thinking-Live :
        (clear : Bool)
        → Leads (Live fails must) (Live fails must) (finalize_thinking fails clock_id clear)
    unfolding finalize_thinking LiveAfter
    finalize_thinking-Live clear = record {
      at = λ s v.
          if_split (LiveAfter fails clock_id must) (not s.thinking_options.enabled) (λ _. v)
            (λ _.
              option_split (LiveAfter fails clock_id must) s.thinking_block
                (λ _. aside fails clock_id must s _ refl refl refl refl refl refl refl v)
                (λ b at. sign_and_stop b clear s v at));
    }
