-- ===== src/Anthropic/Tests.antt =====
-- internal/protocol/anthropic: concrete inputs.
use grokbuild_pool.Base.{
  ℕ, pos, String, Bool, false, List, [], ◌∷◌, some, none, ◌≡◌, refl, inl, inr, string_eq, lookup,
  insert, keep, trim_space, has_prefix, trim_prefix,
}
use grokbuild_pool.Anthropic.Exec.{◌>>=◌, ignore}
use grokbuild_pool.Anthropic.Frames.{
  Frame, text, tool_use, text_delta, input_json_delta, message_start, block_start, block_delta,
  block_stop, message_delta, message_stop,
}
use grokbuild_pool.Anthropic.Stream.{
  ThinkingOptions, new_stream, ensure_start, finalize_thinking, normalize_block_key,
  stream_item_key, first_non_empty, first_non_blank, write_event, write_text, write_tool_args,
  ensure_text_block, ensure_tool_block, finish_thinking_before_content, open_once, open_block,
  open_tool, emit_delta, stop_block, stop_key, mark_emitted, mark_stopped, message_id,
}
use grokbuild_pool.Anthropic.Process.{
  Item, no_response, Event, Payload, event, end_of_stream, process_data, process_event, pipe,
  on_created, on_text_delta, on_completed, on_item_done, complete_tool, finish, stop_all_blocks,
  start_again, emit_final_item, emit_final_message, emit_final_output, emit_final_reasoning,
  end_message, finish_stop, has_emitted, insert_by_index, sort_by_index, open_blocks, stop_each,
}
use grokbuild_pool.Anthropic.Follow.{IsOrderly, IsFollowed, pipe-IsFollowed}

abbrev no_item : Item
no_item = record {
  kind = "";
  id = "";
  call_id = "";
  name = "";
  arguments = "";
  encrypted_content = "";
  texts = [];
  summary = "";
}

abbrev named : String → Event
named kind = record {
  kind = kind;
  item_id = "";
  output_index = "";
  content_index = "";
  call_id = "";
  name = "";
  delta = "";
  arguments = "";
  part_type = "";
  part_text = "";
  item = no_item;
  response = none;
  status_code = none;
  error_text = "";
}

abbrev payloads : List Payload
payloads =
    event (record (named "response.created") {
      response = some (record no_response { id = "resp_1"; model = "m" });
    })
    ∷ event (record (named "response.output_text.delta") { item_id = "i"; delta = "Hi" })
    ∷ event (record (named "response.output_item.done") {
      item = record no_item { kind = "function_call"; call_id = "c"; name = "f"; arguments = "{}" };
    })
    ∷ event (record (named "response.completed") {
      response = some (record no_response {
        usage = some (record { input_tokens = pos 3; output_tokens = pos 2 });
      });
    })
    ∷ end_of_stream
    ∷ []

abbrev no_thinking : ThinkingOptions
no_thinking = record { enabled = false; display = "" }

abbrev never : List Frame → Bool
never frames = false

abbrev clock_text : List Frame → String
clock_text frames = "msg_7"

abbrev digit : ℕ → String
digit n = "0"

pipe_frames :
    (pipe never clock_text digit payloads (new_stream "" no_thinking)).0.out_rev
    ≡ message_stop
      ∷ message_delta "tool_use" (pos 3) (pos 2)
      ∷ block_stop 0
      ∷ block_stop 1
      ∷ block_delta 1 (input_json_delta "{}")
      ∷ block_start 1 (tool_use "c" "f")
      ∷ block_delta 0 (text_delta "Hi")
      ∷ block_start 0 text
      ∷ message_start "msg_1" "m" (pos 0)
      ∷ []
unfolding process_data process_event pipe on_created on_text_delta on_completed on_item_done
    complete_tool finish stop_all_blocks start_again emit_final_item emit_final_message
    emit_final_output emit_final_reasoning end_message finish_stop has_emitted insert_by_index
    sort_by_index open_blocks stop_each new_stream ensure_start finalize_thinking
    normalize_block_key stream_item_key first_non_empty first_non_blank write_event write_text
    write_tool_args ensure_text_block ensure_tool_block finish_thinking_before_content open_once
    open_block open_tool emit_delta stop_block stop_key mark_emitted mark_stopped message_id ◌>>=◌
    ignore lookup insert keep has_prefix trim_prefix trim_space
pipe_frames = refl

orderly : IsOrderly never clock_text digit (new_stream "" no_thinking) payloads
unfolding process_data process_event pipe on_created on_text_delta on_completed on_item_done
    complete_tool finish stop_all_blocks start_again emit_final_item emit_final_message
    emit_final_output emit_final_reasoning end_message finish_stop has_emitted insert_by_index
    sort_by_index open_blocks stop_each new_stream ensure_start finalize_thinking
    normalize_block_key stream_item_key first_non_empty first_non_blank write_event write_text
    write_tool_args ensure_text_block ensure_tool_block finish_thinking_before_content open_once
    open_block open_tool emit_delta stop_block stop_key mark_emitted mark_stopped message_id ◌>>=◌
    ignore lookup insert keep has_prefix trim_prefix trim_space IsOrderly
orderly = (inr (refl, inr (refl, inr (refl, inl (refl, (tt, tt))))))

pipe-IsFollowed_example :
    IsFollowed never clock_text digit
      (pipe never clock_text digit payloads (new_stream "" no_thinking))
pipe-IsFollowed_example = pipe-IsFollowed never clock_text digit "" no_thinking payloads orderly
