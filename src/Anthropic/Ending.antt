-- ===== src/Anthropic/Ending.antt =====
-- internal/protocol/anthropic/stream.go: Finish and Fail leave a stream that has ended.
use grokbuild_pool.Base.{
  ℕ, ℤ, String, Bool, true, false, List, [], ◌∷◌, none, string_eq, ◌≡◌, ◌⊎◌, inl, inr, refl, sym,
  subst, ◌∙◌, arith, Bool-cases, if_split,
}
use grokbuild_pool.Anthropic.Exec.{Exec, Answer, Leads, bind_at, modify, ◌>>=◌}
use grokbuild_pool.Anthropic.Frames.{Frame, message_stop, error, Client, Follows, event, Step}
use grokbuild_pool.Anthropic.Stream.{
  Stream, Usage, write_event, ensure_start, finalize_thinking, write_signature, close_thinking,
}
use grokbuild_pool.Anthropic.Process.{
  open_blocks, stop_each, stop_all_blocks, end_message, finish, fail,
}
use grokbuild_pool.Anthropic.Live.{Live, Live-Linked, ensure_start-Live}
use grokbuild_pool.Anthropic.Blocks.{finalize_thinking-Live}
use grokbuild_pool.Anthropic.Closing.{
  Entries, AllStopped, stop_each-Stopped, open_blocks-Lists, all_closed, finalize_quiet,
}

-- The stream has ended, with every block closed.
pub record Over (s : Stream) : Type 0 where
  pub client : Client
  pub follows : Follows s.out_rev client
  pub ended : client.ended ≡ true
  pub all_shut : (i : ℕ) → client.open_at i ≡ false
  pub finished : s.finished ≡ true

-- The translator may go on, or the stream has ended.
pub data Good (fails : List Frame → Bool) (s : Stream) : Type 0 where
  live : Live fails false s → Good fails s
  over : Over s → Good fails s

pub loosen :
    (fails : List Frame → Bool) (must : Bool) (s : Stream) → Live fails must s → Live fails false s
loosen fails must s v = record {
  client = v.client;
  follows = v.follows;
  state = v.state;
  begun = λ e. cc;
  going = v.going;
}

module _ (fails : List Frame → Bool) (clock_id : List Frame → String) (itoa : ℕ → String) where
  abbrev Broken : Stream → Type 0
  Broken s = fails s.out_rev ≡ true

  -- Nothing is written any more.
  finalize-Broken : (clear : Bool) → Leads Broken Broken (finalize_thinking fails clock_id clear)
  unfolding finalize_thinking write_signature close_thinking write_event ◌>>=◌
  finalize-Broken clear = record { at = λ s broken. ground arith }

  stop_each_stuck :
      (entries : Entries) (s : Stream) → Broken s → (stop_each fails clock_id itoa entries s).0 ≡ s
  unfolding stop_each write_event ◌>>=◌
  stop_each_stuck [] s broken = refl
  stop_each_stuck ((key, b) ∷ rest) s broken = rw broken refl

  -- Nothing is open at the end, unless the writer has failed.
  abbrev IsReady : Stream → Type 0
  IsReady s = Broken s ⊎ ((s.thinking_block ≡ none) × AllStopped s.blocks)

  good : (must : Bool) (s : Stream) → Live fails must s → Good fails s
  good must s v = live (loosen fails must s v)

  stopping :
      (must : Bool) (last : Exec Stream (Unit {0})) (s : Stream)
      → Live fails must s
      → Broken s ⊎ (s.thinking_block ≡ none)
      → ((t : Stream) → Live fails must t → IsReady t → Good fails (last t).0)
      → Good fails ((stop_all_blocks fails clock_id itoa >>= λ _. last) s).0
  unfolding stop_all_blocks
  stopping must last s v quiet rest =
      let m : Exec Stream (Unit {0}) = stop_all_blocks fails clock_id itoa in
      let stuck_at = λ (broken : Broken s).
        let same = stop_each_stuck (open_blocks s) s broken in
        bind_at (Good fails) m (λ _. last) s (subst (Good fails) (sym same) (good must s v))
          (λ _ _.
            subst (λ (t : Stream). Good fails (last t).0) (sym same) (rest s v (inl broken))) in
      elim quiet [
        | inl broken ↦ stuck_at broken
        | inr none_there ↦ elim v.state [
          | inl broken ↦ stuck_at broken
          | inr l ↦
              let stopped =
                stop_each-Stopped fails clock_id itoa must (open_blocks s) s v
                  (open_blocks-Lists s l.uniq) in
              bind_at (Good fails) m (λ _. last) s (good must (m s).0 stopped.live)
                (λ a did.
                  rest (m s).0 stopped.live (inr (stopped.kept ∙ none_there, stopped.all did)))
        ]
      ]

  closing :
      (must : Bool) (last : Exec Stream (Unit {0})) (s : Stream)
      → Live fails must s
      → ((t : Stream) → Live fails must t → IsReady t → Good fails (last t).0)
      → Good fails
          ((finalize_thinking fails clock_id true >>= λ _.
              (stop_all_blocks fails clock_id itoa >>= λ _. last))
            s).0
  closing must last s v rest =
      let s' = (finalize_thinking fails clock_id true s).0 in
      let v' = (finalize_thinking-Live fails clock_id must true).at s v in
      bind_at (Good fails) (finalize_thinking fails clock_id true) _ s (good must s' v') (λ _ did.
        elim v.state [
          | inl broken ↦ stopping must last s' v' (inl ((finalize-Broken true).at s broken)) rest
          | inr l ↦
              stopping must last s' v'
                (inr (finalize_quiet fails clock_id itoa true s v.client l did)) rest
        ])

  closed_at :
      (must : Bool) (s : Stream) (v : Live fails must s)
      → IsReady s
      → fails s.out_rev ≡ false
      → (i : ℕ) → v.client.open_at i ≡ false
  closed_at must s v ready fine = elim ready [
    | inl broken ↦ cc
    | inr (quiet, stopped) ↦
        all_closed fails clock_id itoa s v.client (Live-Linked fails clock_id must s v fine) quiet
          stopped
  ]

  writes :
      (frame : Frame) (last : Exec Stream (Unit {0})) (s : Stream)
      → (fails s.out_rev ≡ true → Good fails s)
      → (fails s.out_rev ≡ false → Good fails (last (record s { out_rev = frame ∷ s.out_rev })).0)
      → Good fails ((write_event fails clock_id frame >>= λ _. last) s).0
  unfolding write_event ◌>>=◌
  writes frame last s unwritten rest = elim (Bool-cases (fails s.out_rev)) [
    | inl broken ↦ rw broken (unwritten broken)
    | inr fine ↦ rw fine (rest fine)
  ]

  end_message-Good :
      (reason : String) (usage : Usage) (s : Stream)
      → Live fails true s
      → IsReady s
      → Good fails (end_message fails clock_id itoa reason usage s).0
  unfolding end_message
  end_message-Good reason usage s v ready =
      writes _ _ s (λ _. good true s v)
        (λ fine.
          let l = Live-Linked fails clock_id true s v fine in
          let shut = closed_at true s v ready fine in
          let ending : Client = record v.client { closing = true } in
          let followed =
            event v.follows
              (Step.close (l.same_start ∙ v.begun refl) l.not_closing l.not_ended shut) in
          writes message_stop _ _
            (λ broken. live (record {
              client = ending;
              follows = followed;
              state = inl broken;
              begun = λ e. cc;
              going = v.going;
            }))
            (λ _. over (record {
              client = record ending { ended = true };
              follows = event followed (Step.finish refl l.not_ended);
              ended = refl;
              all_shut = shut;
              finished = refl;
            })))

  pub finish-Good :
      (must : Bool) (reason : String) (usage : Usage)
      → Leads (Live fails must) (Good fails) (finish fails clock_id itoa reason usage)
  unfolding finish
  finish-Good must reason usage = record {
    at = λ s v.
        if_split (λ (r : Stream × Answer (Unit {0})). Good fails r.0) s.finished
          (λ _. good must s v)
          (λ _.
            let v' = (ensure_start-Live fails clock_id must s.msg_id s.model).at s v in
            bind_at (Good fails) (ensure_start fails clock_id s.msg_id s.model) _ s (good true _ v')
              (λ _ _.
                closing true (end_message fails clock_id itoa reason usage) _ v'
                  (λ t w ready. end_message-Good reason usage t w ready)));
  }

  fail_last :
      (status : ℤ) (message : String) (s : Stream)
      → Live fails false s
      → IsReady s
      → Good fails
          ((write_event fails clock_id (error status message) >>= λ _.
              modify (λ (t : Stream). record t { failed = true; finished = true }))
            s).0
  fail_last status message s v ready =
      writes (error status message) _ s (λ _. live v)
        (λ fine.
          let l = Live-Linked fails clock_id false s v fine in
          let shut = closed_at false s v ready fine in
          over (record {
            client = record v.client { ended = true };
            follows = event v.follows (Step.fail l.not_closing l.not_ended shut);
            ended = refl;
            all_shut = shut;
            finished = refl;
          }))

  pub fail-Good :
      (status : ℤ) (message : String)
      → Leads (Live fails false) (Good fails) (fail fails clock_id itoa status message)
  unfolding fail
  fail-Good status message = record {
    at = λ s v.
        if_split (λ (r : Stream × Answer (Unit {0})). Good fails r.0) s.finished (λ _. live v)
          (λ _. closing false _ s v (λ t w ready. fail_last status message t w ready));
  }
