-- ===== src/Anthropic/Process.antt =====
-- internal/protocol/anthropic/stream.go: what each event of the Responses stream does. An event is
-- given with its JSON decoded: a field has the text that `rawString` or the struct tag reads.
use Prim.Native.String.{◌++◌}
use grokbuild_pool.Base.{
  ℕ, ◌+◌, ltb, ℤ, pos, ltb_ℤ, leb_ℤ, String, Bool, true, false, not, ◌&&◌, ◌||◌, List, [], ◌∷◌,
  Option, none, some, if◌then◌else◌, ◌==◌, ◌/=◌, string_eq, int_eq, lookup, keep, trim_space,
}
use grokbuild_pool.Anthropic.Exec.{
  Exec, done, bad_json, unexpected_eof, pure, gets, modify, ignore, ◌>>=◌, ◌>>◌,
}
use grokbuild_pool.Anthropic.Frames.{Frame, block_stop, message_delta, message_stop, error}
use grokbuild_pool.Anthropic.Stream.{
  Stream, Block, Usage, normalize_block_key, normalize_reasoning_key, stream_item_key,
  first_non_empty, write_event, ensure_start, mark_stopped, stop_block, finalize_thinking,
  start_thinking_part, ensure_thinking_block, think, capture_signature, ensure_text_block,
  ensure_tool_block, write_text, write_tool_args,
}

-- An item of the output. `texts` are the texts that `extractMessageTextBlocks` finds, which are
-- not empty, and `summary` is what `extractReasoningSummary` reads.
pub record Item : Type 0 where
  pub kind : String
  pub id : String
  pub call_id : String
  pub name : String
  pub arguments : String
  pub encrypted_content : String
  pub texts : List String
  pub summary : String

-- `input_tokens` is what the struct tag reads, `usage` what `extractUsage` reads of a usage that is
-- there.
pub record Response : Type 0 where
  pub id : String
  pub model : String
  pub input_tokens : ℤ
  pub usage : Option Usage
  pub output : List Item
  pub error_message : String
  pub error_code : String

abbrev pub no_response : Response
no_response = record {
  id = "";
  model = "";
  input_tokens = pos 0;
  usage = none;
  output = [];
  error_message = "";
  error_code = "";
}

-- `status_code` is the number that `strconv.Atoi` reads, `error_text` what `FormatErrorMessage` finds.
pub record Event : Type 0 where
  pub kind : String
  pub item_id : String
  pub output_index : String
  pub content_index : String
  pub call_id : String
  pub name : String
  pub delta : String
  pub arguments : String
  pub part_type : String
  pub part_text : String
  pub item : Item
  pub response : Option Response
  pub status_code : Option ℤ
  pub error_text : String

pub data Payload : Type 0 where
  blank end_of_stream invalid : Payload
  event : Event → Payload

abbrev event_key : Event → String
event_key e = stream_item_key (e.item_id ∷ e.output_index ∷ e.content_index ∷ [])

abbrev reasoning_event_key : Event → String
reasoning_event_key e = normalize_reasoning_key (first_non_empty (e.item_id ∷ e.output_index ∷ []))

abbrev or_else : String → String → String
or_else s t = if s == "" then t else s

-- The blocks that are still open, by their index.
unfoldable pub insert_by_index : String × Block → List (String × Block) → List (String × Block)
insert_by_index e [] = e ∷ []
insert_by_index e (f ∷ rest) =
    if ltb e.1.index f.1.index then e ∷ f ∷ rest else f ∷ insert_by_index e rest

unfoldable pub sort_by_index : List (String × Block) → List (String × Block)
unfolding insert_by_index
sort_by_index [] = []
sort_by_index (e ∷ rest) = insert_by_index e (sort_by_index rest)

unfoldable pub open_blocks : Stream → List (String × Block)
unfolding sort_by_index
open_blocks s = sort_by_index (keep (λ e. not e.1.stopped) s.blocks)

abbrev pub is_none : Option Block → Bool
is_none none = true
is_none (some b) = false

abbrev pub is_emitted : Option Block → Bool
is_emitted none = false
is_emitted (some b) = b.emitted

abbrev pub or_none : Option Response → Response
or_none none = no_response
or_none (some r) = r

abbrev pub or_usage : Option Usage → Usage → Usage
or_usage none old = old
or_usage (some u) old = u

unfoldable pub has_emitted : String → List (String × Block) → Bool
has_emitted kind [] = false
has_emitted kind ((key, b) ∷ rest) = ((b.kind == kind) && b.emitted) || has_emitted kind rest

abbrev contains : String → List String → Bool
contains key [] = false
contains key (k ∷ ks) = (k == key) || contains key ks

abbrev or_nonzero : ℤ → ℤ → ℤ
or_nonzero n m = if (n == pos 0) && ltb_ℤ (pos 0) m then m else n

unfoldable pub final_summary : Item → Stream → String
final_summary item s = if s.thinking_options.display == "omitted" then "" else item.summary

unfoldable pub final_signature : Item → Stream → String
final_signature item s = or_else item.encrypted_content s.thinking_signature

-- A reasoning item that is not shown: it has been shown, or says nothing.
unfoldable pub no_reasoning : String → Item → Stream → Bool
unfolding final_summary final_signature
no_reasoning key item s =
    not s.thinking_options.enabled
    || (contains key s.completed_reasoning
        || ((final_summary item s == "") && (final_signature item s == "")))

unfoldable pub note_reasoning : String → String → Stream → Stream
note_reasoning key signature s = record s {
  current_reasoning_key = key;
  thinking_signature = or_else signature s.thinking_signature;
}

-- The reasoning key of an item, and the signature that comes with it.
unfoldable pub note_item : String → String → Stream → Stream
note_item key encrypted s =
    capture_signature key encrypted (record s { current_reasoning_key = key })

-- `strconv.Itoa`, for the keys of the items of a final output.
module _ (fails : List Frame → Bool) (clock_id : List Frame → String) (itoa : ℕ → String) where
  -- `t.EnsureStart(t.State.MsgID, t.State.Model)`.
  unfoldable pub start_again : Exec Stream (Unit {0})
  start_again s = ensure_start fails clock_id s.msg_id s.model s

  unfoldable pub stop_each : List (String × Block) → Exec Stream (Unit {0})
  stop_each [] = pure tt
  stop_each ((key, b) ∷ rest) = do
    write_event fails clock_id (block_stop b.index)
    modify (mark_stopped key b)
    stop_each rest

  unfoldable pub stop_all_blocks : Exec Stream (Unit {0})
  unfolding stop_each open_blocks
  stop_all_blocks s = stop_each (open_blocks s) s

  unfoldable pub end_message : String → Usage → Exec Stream (Unit {0})
  end_message given usage s =
      let reason =
        if given == "" then (if s.has_tool_use then "tool_use" else "end_turn") else given in
      (do
        write_event fails clock_id (
            message_delta reason (or_nonzero usage.input_tokens s.usage.input_tokens)
              (or_nonzero usage.output_tokens s.usage.output_tokens))
        write_event fails clock_id message_stop
        modify (λ (t : Stream). record t { finished = true }))
        s

  unfoldable pub finish : String → Usage → Exec Stream (Unit {0})
  unfolding end_message
  finish reason usage s =
      if s.finished
      then (s, done tt)
      else (do
        ensure_start fails clock_id s.msg_id s.model
        finalize_thinking fails clock_id true
        stop_all_blocks
        end_message reason usage)
          s

  unfoldable pub fail : ℤ → String → Exec Stream (Unit {0})
  fail status message s =
      if s.finished
      then (s, done tt)
      else (do
        finalize_thinking fails clock_id true
        stop_all_blocks
        write_event fails clock_id (error status message)
        modify (λ (t : Stream). record t { failed = true; finished = true }))
          s

  unfoldable pub emit_final_reasoning : Item → String → Exec Stream (Unit {0})
  emit_final_reasoning item fallback s =
      let key = normalize_reasoning_key (first_non_empty (item.id ∷ fallback ∷ [])) in
      if no_reasoning key item s
      then (s, done tt)
      else (do
        modify (note_reasoning key (final_signature item s))
        ensure_thinking_block fails clock_id
        think fails clock_id (final_summary item s)
        finalize_thinking fails clock_id true)
          s

  -- The texts of a message, each as a delta.
  unfoldable pub write_texts : Bool → String → List String → Exec Stream (Unit {0})
  write_texts start key [] = pure tt
  write_texts start key (said ∷ more) = do
    (if start && (said /= "") then start_again else pure tt)
    write_text fails clock_id key said
    write_texts start key more

  unfoldable pub emit_final_message : Item → String → Exec Stream (Unit {0})
  emit_final_message item key s =
      let block = lookup (normalize_block_key "text" key) s.blocks in
      if is_none block && has_emitted "text" s.blocks
      then (s, done tt)
      else if is_emitted block
      then stop_block fails clock_id key "text" s
      else (do write_texts false key item.texts; stop_block fails clock_id key "text") s

  -- The arguments of a tool call that has shown none, and the end of its block.
  unfoldable pub complete_tool : String → String → String → String → Exec Stream (Unit {0})
  complete_tool key call_id name args = do
    block ← ensure_tool_block fails clock_id key call_id name
    shown ← gets (λ (s : Stream). is_emitted (lookup block s.blocks))
    (if shown then pure tt else write_tool_args fails clock_id key call_id name args)
    stop_block fails clock_id key "tool"

  unfoldable pub emit_final_item : ℕ → Item → Exec Stream (Unit {0})
  emit_final_item i item =
      let call_id = first_non_empty (item.call_id ∷ item.id ∷ []) in
      if item.kind == "reasoning"
      then emit_final_reasoning item ("final-reasoning-" ++ itoa i)
      else if item.kind == "message"
      then emit_final_message item (stream_item_key (item.id ∷ ("final-" ++ itoa i) ∷ []))
      else if item.kind == "function_call"
      then complete_tool (stream_item_key (item.id ∷ call_id ∷ ("final-" ++ itoa i) ∷ [])) call_id
          item.name (or_else item.arguments "{}")
      else pure tt

  unfoldable pub emit_final_output : ℕ → List Item → Exec Stream (Unit {0})
  unfolding emit_final_item
  emit_final_output i [] = pure tt
  emit_final_output i (item ∷ items) = do emit_final_item i item; emit_final_output (i + 1) items

  -- The cases of `ProcessData`.
  unfoldable pub on_created : Event → Exec Stream (Unit {0})
  on_created e s =
      let r = or_none e.response in
      let model = or_else s.request_model r.model in
      let usage' =
        if ltb_ℤ (pos 0) r.input_tokens
        then record s.usage { input_tokens = r.input_tokens }
        else s.usage in
      (do
        modify (λ (t : Stream). record t { usage = usage' })
        ensure_start fails clock_id r.id model)
        s

  unfoldable pub on_text_delta : Event → Exec Stream (Unit {0})
  on_text_delta e = do start_again; write_text fails clock_id (event_key e) e.delta

  unfoldable pub on_reasoning_added : Event → Exec Stream (Unit {0})
  on_reasoning_added e = do start_again; start_thinking_part fails clock_id (reasoning_event_key e)

  unfoldable pub on_reasoning_delta : Event → Exec Stream (Unit {0})
  on_reasoning_delta e = do
    start_again
    running ← gets (λ (s : Stream). s.thinking_block)
    (if is_none running
        then start_thinking_part fails clock_id (reasoning_event_key e)
        else pure tt)
    think fails clock_id e.delta

  unfoldable pub on_part_added : Event → Exec Stream (Unit {0})
  on_part_added e =
      if e.part_type == "output_text"
      then (do start_again; ensure_text_block fails clock_id (event_key e); pure tt)
      else pure tt

  unfoldable pub on_part_done : Event → Exec Stream (Unit {0})
  on_part_done e =
      if e.part_type == "output_text"
      then (do
        block ← gets (λ (s : Stream). lookup (normalize_block_key "text" (event_key e)) s.blocks)
        (if not (is_emitted block) && (e.part_text /= "")
            then (do start_again; write_text fails clock_id (event_key e) e.part_text)
            else pure tt)
        stop_block fails clock_id (event_key e) "text")
      else pure tt

  unfoldable pub on_item_added : Event → Exec Stream (Unit {0})
  on_item_added e =
      let item = e.item in
      let reasoning_key =
        normalize_reasoning_key (first_non_empty (item.id ∷ reasoning_event_key e ∷ [])) in
      let call_id = or_else item.call_id item.id in
      let key = stream_item_key (item.id ∷ call_id ∷ event_key e ∷ []) in
      do
        start_again
        (if item.kind == "reasoning"
            then modify (note_item reasoning_key item.encrypted_content)
            else if item.kind == "function_call"
            then (do
              ensure_tool_block fails clock_id key call_id item.name
              write_tool_args fails clock_id key call_id item.name item.arguments)
            else pure tt)

  unfoldable pub on_arguments_delta : Event → Exec Stream (Unit {0})
  on_arguments_delta e =
      let call_id = or_else e.call_id e.item_id in
      let key = stream_item_key (e.item_id ∷ call_id ∷ event_key e ∷ []) in
      do start_again; write_tool_args fails clock_id key call_id e.name e.delta

  unfoldable pub on_arguments_done : Event → Exec Stream (Unit {0})
  on_arguments_done e =
      let call_id = or_else e.call_id e.item_id in
      let key = stream_item_key (e.item_id ∷ call_id ∷ event_key e ∷ []) in
      do start_again; complete_tool key call_id e.name e.arguments

  unfoldable pub on_message_done : Event → Exec Stream (Unit {0})
  on_message_done e =
      let key = stream_item_key (e.item.id ∷ event_key e ∷ []) in
      do
        block ← gets (λ (s : Stream). lookup (normalize_block_key "text" key) s.blocks)
        (if is_emitted block then pure tt else write_texts true key e.item.texts)
        stop_block fails clock_id key "text"

  unfoldable pub on_reasoning_done : Event → Exec Stream (Unit {0})
  on_reasoning_done e =
      let item = e.item in
      let key = normalize_reasoning_key (first_non_empty (item.id ∷ reasoning_event_key e ∷ [])) in
      do
        modify (note_item key item.encrypted_content)
        running ← gets (λ (s : Stream). s.thinking_block)
        (if is_none running
            then emit_final_reasoning item key
            else finalize_thinking fails clock_id true)

  unfoldable pub on_item_done : Event → Exec Stream (Unit {0})
  unfolding on_message_done on_reasoning_done
  on_item_done e =
      let item = e.item in
      let call_id = or_else item.call_id item.id in
      let key = stream_item_key (item.id ∷ call_id ∷ event_key e ∷ []) in
      if item.kind == "reasoning"
      then on_reasoning_done e
      else if item.kind == "function_call"
      then (do start_again; complete_tool key call_id item.name item.arguments)
      else if item.kind == "message"
      then on_message_done e
      else pure tt

  unfoldable pub finish_stop : Bool → Exec Stream (Unit {0})
  finish_stop incomplete s =
      finish
        (if s.has_tool_use then "tool_use" else if incomplete then "max_tokens" else "end_turn")
        s.usage s

  unfoldable pub on_completed : Bool → Event → Exec Stream (Unit {0})
  unfolding emit_final_output finish_stop
  on_completed incomplete e s =
      let r = or_none e.response in
      let named = (r.id /= "") && (s.msg_id == "") in
      (do
        ignore (
            ensure_start fails clock_id (if named then r.id else s.msg_id)
              (if named then s.request_model else s.model))
        modify (λ (t : Stream). record t { usage = or_usage r.usage t.usage })
        emit_final_output 0 r.output
        finish_stop incomplete)
        s

  unfoldable pub on_failed : Event → Exec Stream (Unit {0})
  on_failed e =
      let r = or_none e.response in
      let said = trim_space r.error_message in
      let status = elim e.status_code as (λ _. ℤ) [
        | none ↦ pos 502
        | some n ↦ if leb_ℤ (pos 400) n && leb_ℤ n (pos 599) then n else pos 502
      ] in
      fail status (or_else (or_else said (trim_space r.error_code)) "upstream response failed")

  unfoldable pub process_event : Event → Exec Stream (Unit {0})
  process_event e =
      if (e.kind == "response.created") || (e.kind == "response.in_progress")
      then on_created e
      else if e.kind == "response.output_text.delta"
      then on_text_delta e
      else if e.kind == "response.reasoning_summary_part.added"
      then on_reasoning_added e
      else if (e.kind == "response.reasoning_summary_text.delta")
          || (e.kind == "response.reasoning_text.delta")
      then on_reasoning_delta e
      else if e.kind == "response.reasoning_summary_part.done"
      then modify (λ (s : Stream). record s { thinking_stop_pending = true })
      else if e.kind == "response.content_part.added"
      then on_part_added e
      else if e.kind == "response.content_part.done"
      then on_part_done e
      else if e.kind == "response.output_item.added"
      then on_item_added e
      else if e.kind == "response.function_call_arguments.delta"
      then on_arguments_delta e
      else if e.kind == "response.function_call_arguments.done"
      then on_arguments_done e
      else if e.kind == "response.output_item.done"
      then on_item_done e
      else if e.kind == "response.completed"
      then on_completed false e
      else if e.kind == "response.incomplete"
      then on_completed true e
      else if e.kind == "response.failed"
      then on_failed e
      else if e.kind == "error"
      then fail (pos 502) e.error_text
      else pure tt

  unfoldable pub process_data : Payload → Exec Stream (Unit {0})
  process_data blank = pure tt
  process_data end_of_stream =
      λ s. if s.started && not s.finished then finish "" s.usage s else (s, done tt)
  process_data invalid = λ s. (s, bad_json)
  process_data (event e) = process_event e

  -- `PipeResponsesSSE`: the payloads in turn, up to the first failure; a stream that ends without a
  -- terminal event is cut off.
  unfoldable pub pipe : List Payload → Exec Stream (Unit {0})
  pipe [] s = if s.finished then (s, done tt) else (s, unexpected_eof)
  pipe (p ∷ ps) s = (process_data p >>= λ _. pipe ps) s
