-- ===== src/Anthropic/Writes.antt =====
-- internal/protocol/anthropic/stream.go and thinking_stream.go: what the translator does for an event
-- keeps the stream one that a client can follow.
use grokbuild_pool.Base.{
  String, Bool, true, false, not, ◌||◌, List, [], ◌∷◌, none, ◌==◌, string_eq, lookup, ◌≡◌, refl,
  ◌∙◌, arith, option_split, if_split,
}
use grokbuild_pool.Anthropic.Exec.{Exec, Leads, Leads-pure, Leads-if, Leads-bind, bind_at, modify}
use grokbuild_pool.Anthropic.Frames.{Frame, text_delta, input_json_delta, text}
use grokbuild_pool.Anthropic.Stream.{
  Stream, write_event, ensure_start, open_once, open_block, stop_block, normalize_block_key,
  normalize_reasoning_key, first_non_empty, finish_thinking_before_content, open_thinking,
  ensure_thinking_block, start_thinking_part, emit_thinking, think, ensure_text_block,
  ensure_tool_block, write_text, write_tool_args,
}
use grokbuild_pool.Anthropic.Live.{
  Live, LiveAfter, aside, ensure_start-Live, emit_delta-Live, stop_key-Live,
}
use grokbuild_pool.Anthropic.Blocks.{
  open_block-Live, open_thinking-Live, emit_thinking-Live, finalize_thinking-Live,
}

pub weaken :
    (fails : List Frame → Bool) (must : Bool) (s : Stream) → Live fails true s → Live fails must s
weaken fails must s v = record {
  client = v.client;
  follows = v.follows;
  state = v.state;
  begun = λ _. v.begun refl;
  going = v.going;
}

module _ (fails : List Frame → Bool) (clock_id : List Frame → String) (must : Bool) where
  ensure_start_rest :
      (id model : String) (s : Stream)
      → ((ensure_start fails clock_id id model s).0.thinking_block ≡ s.thinking_block)
        × ((ensure_start fails clock_id id model s).0.thinking_options ≡ s.thinking_options)
  unfolding ensure_start write_event
  ensure_start_rest id model s = ground arith

  pub ensure_thinking_block-Live :
      Leads (Live fails must) (Live fails must) (ensure_thinking_block fails clock_id)
  unfolding ensure_thinking_block LiveAfter
  ensure_thinking_block-Live = record {
    at = λ s v.
        if_split (LiveAfter fails clock_id must) (not s.thinking_options.enabled) (λ _. v)
          (λ on.
            option_split (LiveAfter fails clock_id must) s.thinking_block
              (λ absent.
                let s' = (ensure_start fails clock_id s.msg_id s.model s).0 in
                let v' = (ensure_start-Live fails clock_id must s.msg_id s.model).at s v in
                let (same, same_options) = ensure_start_rest s.msg_id s.model s in
                bind_at (Live fails must) (ensure_start fails clock_id s.msg_id s.model)
                  (λ _. open_thinking fails clock_id) s (weaken fails must s' v')
                  (λ _ _. weaken fails must (open_thinking fails clock_id s').0 (
                    open_thinking-Live fails clock_id s' v' (same ∙ absent)
                      (rw same_options (ground arith)))))
              (λ b at. v));
  }

  pub think-Live :
      (said : String) → Leads (Live fails must) (Live fails must) (think fails clock_id said)
  unfolding think LiveAfter
  think-Live said = record {
    at = λ s v.
        if_split (LiveAfter fails clock_id must)
          (not s.thinking_options.enabled
            || (s.thinking_options.display == "omitted" || said == ""))
          (λ _. v)
          (λ _.
            (Leads-bind (ensure_thinking_block fails clock_id)
                (λ _. emit_thinking fails clock_id said) ensure_thinking_block-Live
                (λ _. emit_thinking-Live fails clock_id must said)).at
              s v);
  }

  pub finish_thinking-Live :
      Leads (Live fails must) (Live fails must) (finish_thinking_before_content fails clock_id)
  unfolding finish_thinking_before_content LiveAfter
  finish_thinking-Live = record {
    at = λ s v.
        option_split (LiveAfter fails clock_id must) s.thinking_block (λ _. v)
          (λ b _. (finalize_thinking-Live fails clock_id must true).at s v);
  }

  key_note-Live :
      (key : String)
      → Leads
          (Live fails must)
          (Live fails must)
          (modify (λ (t : Stream). record t { current_reasoning_key = key }))
  key_note-Live key = record {
    at = λ s v. aside fails clock_id must s _ refl refl refl refl refl refl refl v;
  }

  pub start_thinking_part-Live :
      (key : String)
      → Leads (Live fails must) (Live fails must) (start_thinking_part fails clock_id key)
  unfolding start_thinking_part LiveAfter
  start_thinking_part-Live key = record {
    at = λ s v.
        if_split (LiveAfter fails clock_id must) (not s.thinking_options.enabled) (λ _. v)
          (λ _.
            (Leads-bind _ _
                (Leads-if _ _ _ (finalize_thinking-Live fails clock_id must false) (Leads-pure tt))
                (λ _.
                  Leads-bind _ _ (key_note-Live (normalize_reasoning_key key))
                    (λ _. ensure_thinking_block-Live))).at
              s v);
  }

module _ (fails : List Frame → Bool) (clock_id : List Frame → String) where
  open_once-Live :
      (key : String) (begin : Exec Stream (Unit {0}))
      → ((s : Stream)
          → Live fails true s
          → lookup key s.blocks ≡ none
          → Live fails true (begin s).0)
      → Leads (Live fails true) (Live fails true) (open_once key begin)
  unfolding open_once LiveAfter
  open_once-Live key begin begins = record {
    at = λ s v.
        option_split (LiveAfter fails clock_id true) (lookup key s.blocks)
          (λ absent. begins s v absent) (λ b _. v);
  }

  tool_note-Live :
      Leads
        (Live fails true)
        (Live fails true)
        (modify (λ (s : Stream). record s { has_tool_use = true }))
  tool_note-Live = record {
    at = λ s v. aside fails clock_id true s _ refl refl refl refl refl refl refl v;
  }

  pub ensure_text_block-Live :
      (key : String)
      → Leads (Live fails true) (Live fails true) (ensure_text_block fails clock_id key)
  unfolding ensure_text_block
  ensure_text_block-Live key = Leads-bind _ _ (finish_thinking-Live fails clock_id true) (λ _.
      Leads-bind _ _
        (open_once-Live (normalize_block_key "text" key) _ (λ s v absent.
          open_block-Live fails clock_id (normalize_block_key "text" key) text _ s v absent refl))
        (λ _. Leads-pure (normalize_block_key "text" key)))

  pub ensure_tool_block-Live :
      (key call_id name : String)
      → Leads
          (Live fails true)
          (Live fails true)
          (ensure_tool_block fails clock_id key call_id name)
  unfolding ensure_tool_block
  ensure_tool_block-Live key call_id name =
      let key' = normalize_block_key "tool" (first_non_empty (key ∷ call_id ∷ [])) in
      Leads-bind _ _ (finish_thinking-Live fails clock_id true) (λ _.
        Leads-bind _ _
          (open_once-Live key' _ (λ s v absent.
            bind_at (Live fails true) (open_block fails clock_id key' _ _) _ s
              (open_block-Live fails clock_id key' _ _ s v absent refl)
              (λ a _.
                tool_note-Live.at _ (open_block-Live fails clock_id key' _ _ s v absent refl))))
          (λ _. Leads-pure key'))

  pub write_text-Live :
      (key said : String)
      → Leads (Live fails true) (Live fails true) (write_text fails clock_id key said)
  unfolding write_text
  write_text-Live key said = Leads-if (said == "") _ _ (Leads-pure tt) (
      Leads-bind _ _ (ensure_text_block-Live key)
        (λ block. emit_delta-Live fails clock_id true block (text_delta said)))

  pub write_tool_args-Live :
      (key call_id name args : String)
      → Leads
          (Live fails true)
          (Live fails true)
          (write_tool_args fails clock_id key call_id name args)
  unfolding write_tool_args
  write_tool_args-Live key call_id name args = Leads-if (args == "") _ _ (Leads-pure tt) (
      Leads-bind _ _ (ensure_tool_block-Live key call_id name)
        (λ block. emit_delta-Live fails clock_id true block (input_json_delta args)))

  pub stop_block-Live :
      (must : Bool) (key kind : String)
      → Leads (Live fails must) (Live fails must) (stop_block fails clock_id key kind)
  unfolding stop_block
  stop_block-Live must key kind = stop_key-Live fails clock_id must (normalize_block_key kind key)
