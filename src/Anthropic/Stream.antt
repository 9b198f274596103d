-- ===== src/Anthropic/Stream.antt =====
-- internal/protocol/anthropic/stream.go and thinking_stream.go: the translator and the blocks that
-- it writes. A pointer to a block is its key in `blocks`; the thinking block has its own field. An
-- event is written whole or not at all, and what a failed write leaves is not modelled.
use Prim.Native.String.{◌++◌}
use grokbuild_pool.Base.{
  ℕ, ◌+◌, ℤ, pos, String, Bool, true, false, not, ◌||◌, List, [], ◌∷◌, Option, none, some,
  if◌then◌else◌, ◌==◌, string_eq, lookup, insert, trim_space, has_prefix, trim_prefix,
}
use grokbuild_pool.Anthropic.Exec.{Exec, done, write_failed, pure, modify, ◌>>=◌, ◌>>◌}
use grokbuild_pool.Anthropic.Frames.{
  Frame, message_start, block_start, block_delta, block_stop, BlockHead, text, thinking, tool_use,
  Delta, text_delta, input_json_delta, thinking_delta, signature_delta,
}

pub record Usage : Type 0 where
  pub input_tokens : ℤ
  pub output_tokens : ℤ

-- `Kind` is "text", "tool" or "thinking".
pub record Block : Type 0 where
  pub index : ℕ
  pub kind : String
  pub call_id : String
  pub name : String
  pub emitted : Bool
  pub stopped : Bool

pub record ThinkingOptions : Type 0 where
  pub enabled : Bool
  pub display : String

pub record Stream : Type 0 where
  pub msg_id : String
  pub model : String
  pub request_model : String
  pub has_tool_use : Bool
  pub started : Bool
  pub finished : Bool
  pub failed : Bool
  pub usage : Usage
  pub out_rev : List Frame
  pub thinking_options : ThinkingOptions
  pub blocks : List (String × Block)
  pub next_index : ℕ
  pub thinking_block : Option Block
  pub thinking_signature : String
  pub thinking_stop_pending : Bool
  pub current_reasoning_key : String
  pub completed_reasoning : List String

unfoldable pub new_stream : String → ThinkingOptions → Stream
new_stream request_model options = record {
  msg_id = "";
  model = request_model;
  request_model = request_model;
  has_tool_use = false;
  started = false;
  finished = false;
  failed = false;
  usage = record { input_tokens = pos 0; output_tokens = pos 0 };
  out_rev = [];
  thinking_options = options;
  blocks = [];
  next_index = 0;
  thinking_block = none;
  thinking_signature = "";
  thinking_stop_pending = false;
  current_reasoning_key = "";
  completed_reasoning = [];
}

unfoldable pub normalize_block_key : String → String → String
normalize_block_key kind given =
    let trimmed = trim_space given in
    let key = if trimmed == "" then "default" else trimmed in
    let prefix = kind ++ ":" in if has_prefix prefix key then key else prefix ++ key

unfoldable pub normalize_reasoning_key : String → String
normalize_reasoning_key given =
    let key = trim_space given in
    if key == ""
    then "reasoning:default"
    else if has_prefix "reasoning:" key
    then key
    else "reasoning:" ++ key

-- The first value that is not blank, trimmed, or the default.
unfoldable pub first_non_blank : String → List String → String
first_non_blank default [] = default
first_non_blank default (v ∷ vs) =
    let rest = first_non_blank default vs in if trim_space v == "" then rest else trim_space v

-- `streamItemKey` and `firstNonEmptyStream`.
unfoldable pub stream_item_key : List String → String
unfolding first_non_blank
stream_item_key = first_non_blank "default"

unfoldable pub first_non_empty : List String → String
unfolding first_non_blank
first_non_empty = first_non_blank ""

unfoldable pub mark_emitted : String → Block → Stream → Stream
mark_emitted key b s = record s { blocks = insert key (record b { emitted = true }) s.blocks }

unfoldable pub mark_stopped : String → Block → Stream → Stream
mark_stopped key b s = record s { blocks = insert key (record b { stopped = true }) s.blocks }

unfoldable pub close_thinking : Bool → Stream → Stream
close_thinking clear s = record s {
  completed_reasoning =
      if s.current_reasoning_key == ""
      then s.completed_reasoning
      else s.current_reasoning_key ∷ s.completed_reasoning;
  thinking_block = none;
  thinking_stop_pending = false;
  thinking_signature = if clear then "" else s.thinking_signature;
  current_reasoning_key = if clear then "" else s.current_reasoning_key;
}

abbrev thinking_start : ℕ → Block
thinking_start i = record {
  index = i;
  kind = "thinking";
  call_id = "";
  name = "";
  emitted = false;
  stopped = false;
}

unfoldable pub capture_signature : String → String → Stream → Stream
capture_signature key signature s =
    if not s.thinking_options.enabled || signature == "" then s else record s {
      current_reasoning_key =
          if trim_space key == ""
          then s.current_reasoning_key
          else normalize_reasoning_key (trim_space key);
      thinking_signature = signature;
    }

abbrev block_of : String → String → String → Block
block_of kind call_id name = record {
  index = 0;
  kind = kind;
  call_id = call_id;
  name = name;
  emitted = false;
  stopped = false;
}

abbrev is_pending : Option Block → Bool → Bool
is_pending none pending = false
is_pending (some b) pending = pending

-- A block that the map has is taken as it is.
unfoldable pub open_once : String → Exec Stream (Unit {0}) → Exec Stream (Unit {0})
open_once key begin s = elim (lookup key s.blocks) [ some b ↦ (s, done tt) | none ↦ begin s ]

-- Whether the next write fails, and the identifier made from the clock, by what has been written.
module _ (fails : List Frame → Bool) (clock_id : List Frame → String) where
  unfoldable pub write_event : Frame → Exec Stream (Unit {0})
  write_event frame s =
      if fails s.out_rev
      then (s, write_failed)
      else (record s { out_rev = frame ∷ s.out_rev }, done tt)

  unfoldable pub message_id : List Frame → String → String
  message_id frames given =
      let id = if given == "" then clock_id frames else given in
      if has_prefix "resp_" id then "msg_" ++ trim_prefix "resp_" id else id

  unfoldable pub ensure_start : String → String → Exec Stream (Unit {0})
  unfolding write_event message_id
  ensure_start given_id given_model s =
      let id = message_id s.out_rev given_id in
      let by_request = if given_model == "" then s.request_model else given_model in
      let model' = if by_request == "" then s.model else by_request in
      if s.started
      then (s, done tt)
      else write_event (message_start id model' s.usage.input_tokens)
          (record s { msg_id = id; model = model'; started = true })

  -- A block of the map takes the next index, and is stored when its start has been written.
  unfoldable pub open_block : String → BlockHead → Block → Exec Stream (Unit {0})
  open_block key head block s =
      let new = record block { index = s.next_index } in
      (do
        modify (λ (t : Stream). record t { next_index = t.next_index + 1 })
        write_event (block_start new.index head)
        modify (λ (t : Stream). record t { blocks = insert key new t.blocks }))
        s

  -- The delta of a block that has not been stopped.
  unfoldable pub emit_delta : String → Delta → Exec Stream (Unit {0})
  unfolding mark_emitted
  emit_delta key delta s = elim (lookup key s.blocks) [
    | none ↦ (s, done tt)
    | some b ↦
        if b.stopped
        then (s, done tt)
        else (do write_event (block_delta b.index delta); modify (mark_emitted key b)) s
  ]

  unfoldable pub stop_key : String → Exec Stream (Unit {0})
  unfolding mark_stopped
  stop_key key s = elim (lookup key s.blocks) [
    | none ↦ (s, done tt)
    | some b ↦
        if b.stopped
        then (s, done tt)
        else (do write_event (block_stop b.index); modify (mark_stopped key b)) s
  ]

  unfoldable pub stop_block : String → String → Exec Stream (Unit {0})
  stop_block key kind = stop_key (normalize_block_key kind key)

  -- thinking_stream.go
  unfoldable pub write_signature : Block → Exec Stream (Unit {0})
  write_signature b s =
      if s.thinking_signature == ""
      then (s, done tt)
      else write_event (block_delta b.index (signature_delta s.thinking_signature)) s

  unfoldable pub finalize_thinking : Bool → Exec Stream (Unit {0})
  unfolding write_signature close_thinking
  finalize_thinking clear s =
      if not s.thinking_options.enabled then (s, done tt) else elim s.thinking_block [
        | none ↦
            (record s { thinking_signature = if clear then "" else s.thinking_signature }, done tt)
        | some b ↦
            (do write_signature b; write_event (block_stop b.index); modify (close_thinking clear))
              s
      ]

  unfoldable pub finish_thinking_before_content : Exec Stream (Unit {0})
  finish_thinking_before_content s = elim s.thinking_block [
    | none ↦ (s, done tt)
    | some b ↦ finalize_thinking true s
  ]

  unfoldable pub open_thinking : Exec Stream (Unit {0})
  open_thinking s =
      let b = thinking_start s.next_index in
      (do
        modify (λ (t : Stream). record t { next_index = t.next_index + 1 })
        write_event (block_start b.index thinking)
        modify
            (λ (t : Stream). record t { thinking_block = some b; thinking_stop_pending = false }))
        s

  unfoldable pub ensure_thinking_block : Exec Stream (Unit {0})
  ensure_thinking_block s =
      if not s.thinking_options.enabled then (s, done tt) else elim s.thinking_block [
        | some b ↦ (s, done tt)
        | none ↦ (do ensure_start s.msg_id s.model; open_thinking) s
      ]

  unfoldable pub start_thinking_part : String → Exec Stream (Unit {0})
  start_thinking_part key s =
      let pending = is_pending s.thinking_block s.thinking_stop_pending in
      if not s.thinking_options.enabled
      then (s, done tt)
      else (do
        (if pending then finalize_thinking false else pure tt)
        modify (λ (t : Stream). record t { current_reasoning_key = normalize_reasoning_key key })
        ensure_thinking_block)
          s

  unfoldable pub emit_thinking : String → Exec Stream (Unit {0})
  emit_thinking said s = elim s.thinking_block [
    | none ↦ (s, done tt)
    | some b ↦
        (do
          write_event (block_delta b.index (thinking_delta said))
          modify (λ (t : Stream). record t { thinking_block = some (record b { emitted = true }) }))
          s
  ]

  unfoldable pub think : String → Exec Stream (Unit {0})
  think said s =
      if not s.thinking_options.enabled || (s.thinking_options.display == "omitted" || said == "")
      then (s, done tt)
      else (do ensure_thinking_block; emit_thinking said) s

  -- The blocks for text and for tools; the answer is the key of the block.
  unfoldable pub ensure_text_block : String → Exec Stream String
  ensure_text_block given =
      let key = normalize_block_key "text" given in
      do
        finish_thinking_before_content
        open_once key (open_block key text (block_of "text" "" ""))
        pure key

  unfoldable pub open_tool : String → String → String → Exec Stream (Unit {0})
  open_tool key id name = do
    open_block key (tool_use id name) (block_of "tool" id name)
    modify (λ (s : Stream). record s { has_tool_use = true })

  unfoldable pub ensure_tool_block : String → String → String → Exec Stream String
  unfolding open_tool
  ensure_tool_block given call_id name =
      let key = normalize_block_key "tool" (first_non_empty (given ∷ call_id ∷ [])) in
      let id = if call_id == "" then trim_prefix "tool:" key else call_id in
      do
        finish_thinking_before_content
        open_once key (open_tool key id (if name == "" then "tool" else name))
        pure key

  unfoldable pub write_text : String → String → Exec Stream (Unit {0})
  write_text key said =
      if said == ""
      then pure tt
      else (do block ← ensure_text_block key; emit_delta block (text_delta said))

  unfoldable pub write_tool_args : String → String → String → String → Exec Stream (Unit {0})
  write_tool_args key call_id name args =
      if args == ""
      then pure tt
      else (do block ← ensure_tool_block key call_id name; emit_delta block (input_json_delta args))
