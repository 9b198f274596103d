-- ===== src/Anthropic/Cases.antt =====
-- internal/protocol/anthropic/stream.go: the cases of ProcessData keep the stream one that a client
-- can follow.
use grokbuild_pool.Base.{
  ℕ, ◌+◌, String, Bool, true, false, not, ◌&&◌, ◌||◌, List, [], ◌∷◌, ◌==◌, string_eq, lookup, ◌≡◌,
  inl, inr, refl, Bool-cases, if_split,
}
use grokbuild_pool.Anthropic.Exec.{
  Exec, Leads, Leads-pure, Leads-gets, Leads-if, Leads-bind, bind_at, modify, pure, ◌>>=◌,
}
use grokbuild_pool.Anthropic.Frames.{Frame}
use grokbuild_pool.Anthropic.Stream.{
  Stream, normalize_reasoning_key, normalize_block_key, first_non_empty, capture_signature,
  write_text,
}
use grokbuild_pool.Anthropic.Process.{
  Item, Event, is_none, is_emitted, has_emitted, no_reasoning, note_reasoning, note_item,
  final_summary, final_signature, start_again, emit_final_reasoning, write_texts,
  emit_final_message, complete_tool, emit_final_item, emit_final_output, on_text_delta,
  on_reasoning_added, on_reasoning_delta, on_part_added, on_part_done, on_item_added,
  on_arguments_delta, on_arguments_done, on_message_done, on_reasoning_done, on_item_done,
}
use grokbuild_pool.Anthropic.Live.{Live, LiveAfter, aside, ensure_start-Live}
use grokbuild_pool.Anthropic.Blocks.{finalize_thinking-Live}
use grokbuild_pool.Anthropic.Writes.{
  weaken, ensure_thinking_block-Live, think-Live, start_thinking_part-Live, ensure_text_block-Live,
  ensure_tool_block-Live, write_text-Live, write_tool_args-Live, stop_block-Live,
}

module _ (fails : List Frame → Bool) (clock_id : List Frame → String) (itoa : ℕ → String) where
  pub start_again-Live :
      (must : Bool) → Leads (Live fails must) (Live fails true) (start_again fails clock_id itoa)
  unfolding start_again
  start_again-Live must = record {
    at = λ s v. (ensure_start-Live fails clock_id must s.msg_id s.model).at s v;
  }

  -- What runs after the message has started.
  pub starting :
      (must : Bool) {A : Type 0} (m : Exec Stream A)
      → Leads (Live fails true) (Live fails true) m
      → Leads (Live fails must) (Live fails must) (start_again fails clock_id itoa >>= λ _. m)
  starting must m k = record {
    at = λ s v.
        let v' = (start_again-Live must).at s v in
        bind_at (Live fails must) (start_again fails clock_id itoa) (λ _. m) s
          (weaken fails must _ v') (λ _ _. weaken fails must _ (k.at _ v'));
  }

  pub complete_tool-Live :
      (key call_id name args : String)
      → Leads
          (Live fails true)
          (Live fails true)
          (complete_tool fails clock_id itoa key call_id name args)
  unfolding complete_tool
  complete_tool-Live key call_id name args =
      Leads-bind _ _ (ensure_tool_block-Live fails clock_id key call_id name) (λ block.
        Leads-bind _ _ (Leads-gets _) (λ shown.
          Leads-bind _ _
            (Leads-if shown _ _ (Leads-pure tt)
              (write_tool_args-Live fails clock_id key call_id name args))
            (λ _. stop_block-Live fails clock_id true key "tool")))

  pub write_texts-Live :
      (key : String) (texts : List String)
      → Leads (Live fails true) (Live fails true) (write_texts fails clock_id itoa false key texts)
  unfolding write_texts
  write_texts-Live key [] = Leads-pure tt
  write_texts-Live key (said ∷ more) = Leads-bind _ _ (Leads-pure tt) (λ _.
      Leads-bind _ _ (write_text-Live fails clock_id key said) (λ _. write_texts-Live key more))

  silent_text :
      (key said : String) → (said == "") ≡ true → write_text fails clock_id key said ≡ pure tt
  unfolding write_text
  silent_text key said silent = rw silent refl

  starting_write :
      (key said : String) (rest : Exec Stream (Unit {0}))
      → Leads (Live fails false) (Live fails false) rest
      → Leads (Live fails false) (Live fails false) (
          start_again fails clock_id itoa >>= λ _.
          (write_text fails clock_id key said >>= λ _. rest))
  starting_write key said rest k = record {
    at = λ s v.
        let v' = (start_again-Live false).at s v in
        bind_at (Live fails false) (start_again fails clock_id itoa) _ s (weaken fails false _ v')
          (λ _ _.
            let w = (write_text-Live fails clock_id key said).at _ v' in
            bind_at (Live fails false) (write_text fails clock_id key said) (λ _. rest) _
              (weaken fails false _ w) (λ _ _. k.at _ (weaken fails false _ w)));
  }

  -- A text that is not empty starts the message.
  pub write_texts-starting :
      (key : String) (texts : List String)
      → Leads (Live fails false) (Live fails false) (write_texts fails clock_id itoa true key texts)
  unfolding write_texts
  write_texts-starting key [] = Leads-pure tt
  write_texts-starting key (said ∷ more) = elim (Bool-cases (said == "")) [
    | inl silent ↦
        rw (silent, silent_text key said silent)
          (Leads-bind _ _ (Leads-pure tt)
            (λ _. Leads-bind _ _ (Leads-pure tt) (λ _. write_texts-starting key more)))
    | inr spoken ↦ rw spoken (
        starting_write key said (write_texts fails clock_id itoa true key more)
          (write_texts-starting key more))
  ]

  module _ (must : Bool) where
    emit_final_reasoning-note :
        (key signature : String)
        → Leads (Live fails must) (Live fails must) (modify (note_reasoning key signature))
    unfolding note_reasoning
    emit_final_reasoning-note key signature = record {
      at = λ s v. aside fails clock_id must s _ refl refl refl refl refl refl refl v;
    }

    note_item-Live :
        (key encrypted : String)
        → Leads (Live fails must) (Live fails must) (modify (note_item key encrypted))
    unfolding note_item capture_signature LiveAfter
    note_item-Live key encrypted = record {
      at = λ s v.
          if_split (Live fails must) (not s.thinking_options.enabled || encrypted == "")
            (λ _. aside fails clock_id must s _ refl refl refl refl refl refl refl v)
            (λ _. aside fails clock_id must s _ refl refl refl refl refl refl refl v);
    }

    pub emit_final_reasoning-Live :
        (item : Item) (fallback : String)
        → Leads
            (Live fails must)
            (Live fails must)
            (emit_final_reasoning fails clock_id itoa item fallback)
    unfolding emit_final_reasoning LiveAfter
    emit_final_reasoning-Live item fallback = record {
      at = λ s v.
          let key = normalize_reasoning_key (first_non_empty (item.id ∷ fallback ∷ [])) in
          if_split (LiveAfter fails clock_id must) (no_reasoning key item s) (λ _. v)
            (λ _.
              (Leads-bind _ _ (emit_final_reasoning-note key (final_signature item s)) (λ _.
                  Leads-bind _ _ (ensure_thinking_block-Live fails clock_id must) (λ _.
                    Leads-bind _ _ (think-Live fails clock_id must (final_summary item s))
                      (λ _. finalize_thinking-Live fails clock_id must true)))).at
                s v);
    }

  -- The cases of the events, before the message ends.
  pub emit_final_message-Live :
      (item : Item) (key : String)
      → Leads (Live fails true) (Live fails true) (emit_final_message fails clock_id itoa item key)
  unfolding emit_final_message LiveAfter
  emit_final_message-Live item key = record {
    at = λ s v.
        let block = lookup (normalize_block_key "text" key) s.blocks in
        if_split (LiveAfter fails clock_id true) (is_none block && has_emitted "text" s.blocks)
          (λ _. v)
          (λ _.
            if_split (LiveAfter fails clock_id true) (is_emitted block)
              (λ _. (stop_block-Live fails clock_id true key "text").at s v)
              (λ _.
                (Leads-bind _ _ (write_texts-Live key item.texts)
                    (λ _. stop_block-Live fails clock_id true key "text")).at
                  s v));
  }

  pub emit_final_item-Live :
      (i : ℕ) (item : Item)
      → Leads (Live fails true) (Live fails true) (emit_final_item fails clock_id itoa i item)
  unfolding emit_final_item
  emit_final_item-Live i item = Leads-if _ _ _ (emit_final_reasoning-Live true item _) (
      Leads-if _ _ _ (emit_final_message-Live item _)
        (Leads-if _ _ _ (complete_tool-Live _ _ _ _) (Leads-pure tt)))

  pub emit_final_output-Live :
      (i : ℕ) (items : List Item)
      → Leads (Live fails true) (Live fails true) (emit_final_output fails clock_id itoa i items)
  unfolding emit_final_output
  emit_final_output-Live i [] = Leads-pure tt
  emit_final_output-Live i (item ∷ items) =
      Leads-bind _ _ (emit_final_item-Live i item) (λ _. emit_final_output-Live (i + 1) items)

  pub on_text_delta-Live :
      (e : Event)
      → Leads (Live fails false) (Live fails false) (on_text_delta fails clock_id itoa e)
  unfolding on_text_delta
  on_text_delta-Live e = starting false _ (write_text-Live fails clock_id _ _)

  pub on_reasoning_added-Live :
      (e : Event)
      → Leads (Live fails false) (Live fails false) (on_reasoning_added fails clock_id itoa e)
  unfolding on_reasoning_added
  on_reasoning_added-Live e = starting false _ (start_thinking_part-Live fails clock_id true _)

  pub on_reasoning_delta-Live :
      (e : Event)
      → Leads (Live fails false) (Live fails false) (on_reasoning_delta fails clock_id itoa e)
  unfolding on_reasoning_delta
  on_reasoning_delta-Live e = starting false _ (
      Leads-bind _ _ (Leads-gets _) (λ running.
        Leads-bind _ _
          (Leads-if _ _ _ (start_thinking_part-Live fails clock_id true _) (Leads-pure tt))
          (λ _. think-Live fails clock_id true _)))

  pub on_part_added-Live :
      (e : Event)
      → Leads (Live fails false) (Live fails false) (on_part_added fails clock_id itoa e)
  unfolding on_part_added
  on_part_added-Live e =
      Leads-if _ _ _
        (starting false _
          (Leads-bind _ _ (ensure_text_block-Live fails clock_id _) (λ _. Leads-pure tt)))
        (Leads-pure tt)

  pub on_part_done-Live :
      (e : Event) → Leads (Live fails false) (Live fails false) (on_part_done fails clock_id itoa e)
  unfolding on_part_done
  on_part_done-Live e =
      Leads-if _ _ _
        (Leads-bind _ _ (Leads-gets _) (λ block.
          Leads-bind _ _
            (Leads-if _ _ _ (starting false _ (write_text-Live fails clock_id _ _)) (Leads-pure tt))
            (λ _. stop_block-Live fails clock_id false _ "text")))
        (Leads-pure tt)

  pub on_item_added-Live :
      (e : Event)
      → Leads (Live fails false) (Live fails false) (on_item_added fails clock_id itoa e)
  unfolding on_item_added
  on_item_added-Live e = starting false _ (
      Leads-if _ _ _ (note_item-Live true _ _) (
        Leads-if _ _ _
          (Leads-bind _ _ (ensure_tool_block-Live fails clock_id _ _ _)
            (λ _. write_tool_args-Live fails clock_id _ _ _ _))
          (Leads-pure tt)))

  pub on_arguments_delta-Live :
      (e : Event)
      → Leads (Live fails false) (Live fails false) (on_arguments_delta fails clock_id itoa e)
  unfolding on_arguments_delta
  on_arguments_delta-Live e = starting false _ (write_tool_args-Live fails clock_id _ _ _ _)

  pub on_arguments_done-Live :
      (e : Event)
      → Leads (Live fails false) (Live fails false) (on_arguments_done fails clock_id itoa e)
  unfolding on_arguments_done
  on_arguments_done-Live e = starting false _ (complete_tool-Live _ _ _ _)

  on_message_done-Live :
      (e : Event)
      → Leads (Live fails false) (Live fails false) (on_message_done fails clock_id itoa e)
  unfolding on_message_done
  on_message_done-Live e = Leads-bind _ _ (Leads-gets _) (λ block.
      Leads-bind _ _ (Leads-if _ _ _ (Leads-pure tt) (write_texts-starting _ _))
        (λ _. stop_block-Live fails clock_id false _ "text"))

  on_reasoning_done-Live :
      (e : Event)
      → Leads (Live fails false) (Live fails false) (on_reasoning_done fails clock_id itoa e)
  unfolding on_reasoning_done
  on_reasoning_done-Live e = Leads-bind _ _ (note_item-Live false _ _) (λ _.
      Leads-bind _ _ (Leads-gets _) (λ running.
        Leads-if _ _ _ (emit_final_reasoning-Live false _ _)
          (finalize_thinking-Live fails clock_id false true)))

  pub on_item_done-Live :
      (e : Event) → Leads (Live fails false) (Live fails false) (on_item_done fails clock_id itoa e)
  unfolding on_item_done
  on_item_done-Live e = Leads-if _ _ _ (on_reasoning_done-Live e) (
      Leads-if _ _ _ (starting false _ (complete_tool-Live _ _ _ _))
        (Leads-if _ _ _ (on_message_done-Live e) (Leads-pure tt)))
