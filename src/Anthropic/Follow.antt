-- ===== src/Anthropic/Follow.antt =====
-- internal/protocol/anthropic/stream.go: whatever events come, what is written is a stream that a
-- client can follow, up to its end.
use grokbuild_pool.Base.{
  ℕ, pos, String, Bool, true, false, not, ◌&&◌, List, [], ◌∷◌, none, some, if◌then◌else◌, ◌==◌,
  ◌/=◌, string_eq, lookup, ltb_ℤ, ◌≡◌, ◌⊎◌, inl, inr, refl, sym, subst, ◌≢◌, arith, if_split, All,
}
use grokbuild_pool.Anthropic.Exec.{
  Exec, Answer, done, write_failed, bad_json, unexpected_eof, continue, Leads, Leads-if, Leads-last,
  bind_at, modify, ignore, pure, ◌>>=◌,
}
use grokbuild_pool.Anthropic.Frames.{Frame, Client, Follows, nothing, fresh_client}
use grokbuild_pool.Anthropic.Stream.{Stream, Block, ThinkingOptions, new_stream, ensure_start}
use grokbuild_pool.Anthropic.Process.{
  Event, Payload, blank, end_of_stream, invalid, event, Response, or_none, or_usage, finish_stop,
  on_created, on_completed, on_failed, process_event, process_data, pipe,
}
use grokbuild_pool.Anthropic.Tracks.{Slot, of_thinking, of_key}
use grokbuild_pool.Anthropic.Live.{Live, slot_get, aside, ensure_start-Live}
use grokbuild_pool.Anthropic.Writes.{weaken}
use grokbuild_pool.Anthropic.Ending.{Over, Good, live, over, loosen, finish-Good, fail-Good}
use grokbuild_pool.Anthropic.Cases.{
  emit_final_output-Live, on_text_delta-Live, on_reasoning_added-Live, on_reasoning_delta-Live,
  on_part_added-Live, on_part_done-Live, on_item_added-Live, on_arguments_delta-Live,
  on_arguments_done-Live, on_item_done-Live,
}

module _ (fails : List Frame → Bool) (clock_id : List Frame → String) (itoa : ℕ → String) where
  abbrev Runs : Exec Stream (Unit {0}) → Type 0
  Runs m = Leads (Live fails false) (Good fails) m

  runs : (m : Exec Stream (Unit {0})) → Leads (Live fails false) (Live fails false) m → Runs m
  runs m k = record { at = λ s v. live (k.at s v) }

  on_created-Good : (e : Event) → Runs (on_created fails clock_id itoa e)
  unfolding on_created ◌>>=◌
  on_created-Good e = record {
    at = λ s v.
        let r = or_none e.response in
        let usage' =
          if ltb_ℤ (pos 0) r.input_tokens
          then record s.usage { input_tokens = r.input_tokens }
          else s.usage in
        let t = record s { usage = usage' } in
        let v' = aside fails clock_id false s t refl refl refl refl refl refl refl v in
        live (
          weaken fails false _ (
            (ensure_start-Live fails clock_id false r.id
                (if s.request_model == "" then r.model else s.request_model)).at
              t v'));
  }

  usage_note-Live :
      (r : Response)
      → Leads
          (Live fails true)
          (Live fails true)
          (modify (λ (t : Stream). record t { usage = or_usage r.usage t.usage }))
  usage_note-Live r = record {
    at = λ s v. aside fails clock_id true s _ refl refl refl refl refl refl refl v;
  }

  finish_stop-Good :
      (incomplete : Bool)
      → Leads (Live fails true) (Good fails) (finish_stop fails clock_id itoa incomplete)
  unfolding finish_stop
  finish_stop-Good incomplete = record {
    at = λ s v. (finish-Good fails clock_id itoa true _ s.usage).at s v;
  }

  on_completed-Good :
      (incomplete : Bool) (e : Event) → Runs (on_completed fails clock_id itoa incomplete e)
  unfolding on_completed ignore
  on_completed-Good incomplete e = record {
    at = λ s v.
        let r = or_none e.response in
        let named = (r.id /= "") && (s.msg_id == "") in
        let id = if named then r.id else s.msg_id in
        let model = if named then s.request_model else s.model in
        let v' = (ensure_start-Live fails clock_id false id model).at s v in
        bind_at (Good fails) (ignore (ensure_start fails clock_id id model)) _ s
          (live (weaken fails false _ v'))
          (λ _ _.
            (Leads-last _ _ (λ t w. live (loosen fails true t w)) (usage_note-Live r)
                (λ _.
                  Leads-last _ _ (λ t w. live (loosen fails true t w))
                    (emit_final_output-Live fails clock_id itoa 0 r.output)
                    (λ _. finish_stop-Good incomplete))).at
              _ v');
  }

  on_failed-Good : (e : Event) → Runs (on_failed fails clock_id itoa e)
  unfolding on_failed
  on_failed-Good e = fail-Good fails clock_id itoa _ _

  pending-Good : Runs (modify (λ (s : Stream). record s { thinking_stop_pending = true }))
  pending-Good = record {
    at = λ s v. live (aside fails clock_id false s _ refl refl refl refl refl refl refl v);
  }

  pure-Good : Runs (pure tt)
  pure-Good = record { at = λ s v. live v }

  process_event-Good : (e : Event) → Runs (process_event fails clock_id itoa e)
  unfolding process_event
  process_event-Good e = Leads-if _ _ _ (on_created-Good e) (
      Leads-if _ _ _ (runs _ (on_text_delta-Live fails clock_id itoa e)) (
        Leads-if _ _ _ (runs _ (on_reasoning_added-Live fails clock_id itoa e)) (
          Leads-if _ _ _ (runs _ (on_reasoning_delta-Live fails clock_id itoa e)) (
            Leads-if _ _ _ pending-Good (
              Leads-if _ _ _ (runs _ (on_part_added-Live fails clock_id itoa e)) (
                Leads-if _ _ _ (runs _ (on_part_done-Live fails clock_id itoa e)) (
                  Leads-if _ _ _ (runs _ (on_item_added-Live fails clock_id itoa e)) (
                    Leads-if _ _ _ (runs _ (on_arguments_delta-Live fails clock_id itoa e)) (
                      Leads-if _ _ _ (runs _ (on_arguments_done-Live fails clock_id itoa e)) (
                        Leads-if _ _ _ (runs _ (on_item_done-Live fails clock_id itoa e)) (
                          Leads-if _ _ _ (on_completed-Good false e) (
                            Leads-if _ _ _ (on_completed-Good true e) (
                              Leads-if _ _ _ (on_failed-Good e) (
                                Leads-if _ _ _ (fail-Good fails clock_id itoa _ _)
                                  pure-Good))))))))))))))

  process_data-Good : (p : Payload) → Runs (process_data fails clock_id itoa p)
  unfolding process_data
  process_data-Good blank = pure-Good
  process_data-Good end_of_stream = record {
    at = λ s v.
        if_split (λ (r : Stream × Answer (Unit {0})). Good fails r.0) (s.started && not s.finished)
          (λ _. (finish-Good fails clock_id itoa false "" s.usage).at s v) (λ _. live v);
  }
  process_data-Good invalid = record { at = λ s v. live v }
  process_data-Good (event e) = process_event-Good e

  -- After the event that ends the message there is no other event.
  abbrev pub IsInert : Payload → Type 0
  IsInert blank = Unit {0}
  IsInert end_of_stream = Unit {0}
  IsInert invalid = Unit {0}
  IsInert (event e) = ⊥

  unfoldable pub IsOrderly : Stream → List Payload → Type 0
  IsOrderly s [] = Unit {0}
  IsOrderly s (p ∷ ps) =
      let s' = (process_data fails clock_id itoa p s).0 in
      ((s'.finished ≡ true) × All IsInert ps) ⊎ ((s'.finished ≡ false) × IsOrderly s' ps)

  -- What a client gets: it can follow all of it, and at the end of a run without an error the
  -- message has ended and all its blocks are closed.
  pub record IsFollowed (r : Stream × Answer (Unit {0})) : Type 0 where
    pub client : Client
    pub follows : Follows r.0.out_rev client
    pub complete : r.1 ≡ done tt → (client.ended ≡ true) × ((i : ℕ) → client.open_at i ≡ false)

  done_again :
      (s : Stream)
      → s.finished ≡ true
      → process_data fails clock_id itoa end_of_stream s ≡ (s, done tt)
  unfolding process_data
  done_again s ended = ground arith

  inert-Over :
      (ps : List Payload) (s : Stream)
      → All IsInert ps
      → Over s
      → IsFollowed (pipe fails clock_id itoa ps s)
  unfolding pipe process_data ◌>>=◌
  inert-Over [] s quiet o = record {
    client = o.client;
    follows = rw o.finished o.follows;
    complete = λ _. (o.ended, o.all_shut);
  }
  inert-Over (blank ∷ ps) s quiet o = inert-Over ps s quiet.1 o
  inert-Over (end_of_stream ∷ ps) s quiet o =
      subst
        (λ (r : Stream × Answer (Unit {0})).
          IsFollowed (continue r.1 (λ _. pipe fails clock_id itoa ps) r.0))
        (sym (done_again s o.finished)) (inert-Over ps s quiet.1 o)
  inert-Over (invalid ∷ ps) s quiet o = record {
    client = o.client;
    follows = o.follows;
    complete = λ e. cc;
  }
  inert-Over (event e ∷ ps) s quiet o = absurd quiet.0

  ended-Over : (s : Stream) → Good fails s → s.finished ≡ true → Over s
  ended-Over s (live v) ended = cc v.going
  ended-Over s (over o) ended = o

  going-Live : (s : Stream) → Good fails s → s.finished ≡ false → Live fails false s
  going-Live s (live v) going = v
  going-Live s (over o) going = cc o.finished

  Good-Follows : (s : Stream) → Good fails s → (c : Client) × Follows s.out_rev c
  Good-Follows s (live v) = (v.client, v.follows)
  Good-Follows s (over o) = (o.client, o.follows)

  -- A run that goes on, or has stopped by an error.
  continue-IsFollowed :
      (a : Answer (Unit {0})) (rest : Exec Stream (Unit {0})) (s : Stream)
      → Good fails s
      → (a ≡ done tt → IsFollowed (rest s))
      → IsFollowed (continue a (λ _. rest) s)
  continue-IsFollowed (done tt) rest s g k = k refl
  continue-IsFollowed write_failed rest s g k = record {
    client = (Good-Follows s g).0;
    follows = (Good-Follows s g).1;
    complete = λ e. cc;
  }
  continue-IsFollowed bad_json rest s g k = record {
    client = (Good-Follows s g).0;
    follows = (Good-Follows s g).1;
    complete = λ e. cc;
  }
  continue-IsFollowed unexpected_eof rest s g k = record {
    client = (Good-Follows s g).0;
    follows = (Good-Follows s g).1;
    complete = λ e. cc;
  }

  pipe_lem :
      (ps : List Payload) (s : Stream)
      → Live fails false s
      → IsOrderly s ps
      → IsFollowed (pipe fails clock_id itoa ps s)
  unfolding pipe IsOrderly ◌>>=◌
  pipe_lem [] s v orderly = record {
    client = v.client;
    follows = rw v.going v.follows;
    complete = λ e. ground (arith, v.going);
  }
  pipe_lem (p ∷ ps) s v orderly =
      let m = process_data fails clock_id itoa p in
      let g = (process_data-Good p).at s v in
      continue-IsFollowed (m s).1 (pipe fails clock_id itoa ps) (m s).0 g (λ _. elim orderly [
        | inl (ended, quiet) ↦ inert-Over ps (m s).0 quiet (ended-Over (m s).0 g ended)
        | inr (going, rest) ↦ pipe_lem ps (m s).0 (going-Live (m s).0 g going) rest
      ])

  nowhere : (k : Slot) (b : Block) → slot_get none [] k ≢ some b
  unfolding lookup
  nowhere of_thinking b e = cc
  nowhere (of_key key) b e = cc

  new_stream-Live :
      (request_model : String) (options : ThinkingOptions)
      → Live fails false (new_stream request_model options)
  unfolding new_stream fresh_client
  new_stream-Live request_model options = record {
    client = fresh_client;
    follows = nothing;
    state = inr (record {
      same_start = refl;
      not_closing = refl;
      not_ended = refl;
      tracks = record {
        above = omega arith;
        low = λ k b e. absurd (nowhere k b e);
        held = λ k b e r. absurd (nowhere k b e);
        apart = λ k j b d e f h. absurd (nowhere k b e);
        owned = λ i e. cc;
      };
      uniq = tt;
      awake = λ b e. cc;
    });
    begun = λ e. cc;
    going = refl;
  }

  -- Whatever upstream sends, what the translator has written when it returns is a stream that a
  -- client can follow from its start: blocks start under new indices, deltas and stops are of blocks
  -- that are open, and the message ends once, after all its blocks, and is followed by nothing. If
  -- it returns without an error, the message has ended and all blocks are closed. Writes may fail
  -- from any point on and JSON may be invalid. No further event may come after the one that ends the
  -- message.
  pub pipe-IsFollowed :
      (request_model : String) (options : ThinkingOptions) (ps : List Payload)
      → IsOrderly (new_stream request_model options) ps
      → IsFollowed (pipe fails clock_id itoa ps (new_stream request_model options))
  pipe-IsFollowed request_model options ps orderly =
      pipe_lem ps (new_stream request_model options) (new_stream-Live request_model options) orderly
