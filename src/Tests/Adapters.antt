-- ===== src/Tests/Adapters.antt =====
-- internal/headroom/adapter.go at one exchange: a reply shortens the only text of a chat body.
use cpa_plugin_token_saver.Common.{List, [], if◌then◌else◌, none, refl, some, true, ◌∷◌, ◌≡◌}
use cpa_plugin_token_saver.Protocol.{eligible, is_listed}
use cpa_plugin_token_saver.Text.{Bytes, bytes_eq, codes, decimal, decimal_from, trim_space}
use cpa_plugin_token_saver.Headroom.Adapter.{
  Decoder, Items, Projection, TextTarget, Value, add_target, array, count, decode_object,
  decode_value, entry, field, item, item_at, no_field, no_item, object, set_field, set_item, string,
}
use cpa_plugin_token_saver.Headroom.Circuit.{begin, finish, new_circuit}
use cpa_plugin_token_saver.Headroom.Client.{
  Client, Outcome, applied, compress, compress_circuit, decode_array, decode_messages, exchange,
  judge, new_client, read_body, read_limited, read_response, run_slot, select_slot,
}
use cpa_plugin_token_saver.Json.Marshal.{
  escape_ascii, escape_from, escape_unit, marshal_string, utf8_width,
}
use cpa_plugin_token_saver.Tests.Client.{answered, json}
use cpa_plugin_token_saver.Tests.Payloads.{chat_body, chat_gjson, chat_pair}
use cpa_plugin_token_saver.Headroom.Adapter.Application.{
  Projections, apply, apply_projected, apply_projection, changed_edits, finish_apply, in_order,
  project_to, rewrite,
}
use cpa_plugin_token_saver.Headroom.Adapter.Chat.{
  project_content, project_message, project_messages, project_openai_chat, valid_openai_role,
  validate_openai_tool_fields,
}
use cpa_plugin_token_saver.Headroom.Adapter.Validation.{
  clone_values, decode_all, deep_equal, field_count, judge_masked, mask_target, mask_targets,
  replace_content, replace_projected_text, validate,
}
use cpa_plugin_token_saver.Protocol.Payload.Rewrite.{insert_edit, sort_edits, splice}
use cpa_plugin_token_saver.Headroom.Adapter.Application.Laws.{IsResult, IsSent, apply-IsResult}
use cpa_plugin_token_saver.Headroom.Adapter.Validation.Untouched.{IsReply, SameAt, validate-SameAt}

abbrev message_of : Bytes → Value
message_of content = object (
    entry (codes "role") (string (codes "tool")) (
      entry (codes "tool_call_id") (string (codes "7"))
        (entry (codes "content") (string content) no_field)))

-- A text that is not the body or the reply's message stands for the marshalled messages.
abbrev decode_text : Bytes → Value
decode_text raw =
    if bytes_eq raw chat_body
    then object (entry (codes "messages") (array (item (message_of (codes "hi")) no_item)) no_field)
    else (if bytes_eq raw (codes "[1]")
        then message_of (codes "h")
        else array (item (message_of (codes "hi")) no_item))

abbrev decoder : Decoder
decoder = record {
  valid = λ raw. true;
  unique_object_keys = λ raw. true;
  decode = λ raw. some (decode_text raw, true);
  marshal = λ values. some (codes "[]");
  marshal_request = λ values model. some (codes "{}");
}

abbrev no_others : Projections
no_others = record {
  project_responses = λ body. none;
  project_claude = λ body. none;
  project_gemini = λ body. none;
  project_antigravity = λ body. none;
}

abbrev chat_target : TextTarget
chat_target = record {
  start = 57;
  end = 61;
  message_index = 0;
  block_index = none;
  original = codes "hi";
}

abbrev chat_projection : Projection
chat_projection = record {
  messages = item (message_of (codes "hi")) no_item;
  targets = chat_target ∷ [];
}

validates : validate decoder chat_projection (codes "[1]" ∷ []) ≡ some (codes "h" ∷ [])
unfolding validate decode_all decode_value clone_values mask_targets mask_target judge_masked
    replace_projected_text replace_content item_at set_item field set_field count deep_equal
    field_count bytes_eq
validates = refl

-- A projection of two messages, whose first one has no target.
abbrev two_messages : Projection
two_messages = record {
  messages = item (message_of (codes "hi")) (item (message_of (codes "hi")) no_item);
  targets = record chat_target { message_index = 1 } ∷ [];
}

abbrev two_decoder : Decoder
two_decoder = record decoder {
  decode = λ raw.
      if bytes_eq raw (codes "[1]")
      then some (message_of (codes "h"), true)
      else (if bytes_eq raw (codes "[2]")
          then some (message_of (codes "hi"), true)
          else some (array two_messages.messages, true));
}

abbrev two_replies : List Bytes
two_replies = codes "[2]" ∷ codes "[1]" ∷ []

validates_two : validate two_decoder two_messages two_replies ≡ some (codes "h" ∷ [])
unfolding validate decode_all decode_value clone_values mask_targets mask_target judge_masked
    replace_projected_text replace_content item_at set_item field set_field count deep_equal
    field_count bytes_eq
validates_two = refl

validate-SameAt_example :
    (actual : Items) × (expected : Items) × IsReply two_decoder two_messages two_replies actual
      expected
    × SameAt (item_at 0 expected) (item_at 0 actual)
validate-SameAt_example =
    validate-SameAt two_decoder two_messages two_replies (codes "h" ∷ []) 0 validates_two (refl, tt)

abbrev run : Client × Bytes × Outcome
run =
    apply chat_gjson json decoder no_others (new_client 100) answered chat_pair (codes "m")
      chat_body

apply_runs :
    (run.1 ≡ codes "{\"messages\":[{\"role\":\"tool\",\"tool_call_id\":\"7\",\"content\":\"h\"}]}")
    × (run.2 ≡ applied)
unfolding apply eligible is_listed project_to apply_projected apply_projection finish_apply rewrite
    changed_edits sort_edits insert_edit in_order splice marshal_string escape_from utf8_width
    escape_unit escape_ascii project_openai_chat project_messages project_message project_content
    add_target validate_openai_tool_fields valid_openai_role decode_object decimal decimal_from
    compress compress_circuit begin select_slot run_slot exchange read_response read_body
    read_limited decode_messages decode_array judge new_client new_circuit trim_space finish
    validate decode_all decode_value clone_values mask_targets mask_target judge_masked
    replace_projected_text replace_content item_at set_item field set_field count deep_equal
    field_count bytes_eq
apply_runs = (refl, refl)

apply-IsResult_example :
    IsResult
      (λ out.
        (eligible chat_pair ≡ true)
        × IsSent decoder json answered
            (project_to chat_gjson decoder no_others chat_pair.to chat_body)
            chat_body
            out)
      chat_body
      run.1
      run.2
apply-IsResult_example =
    apply-IsResult chat_gjson json decoder no_others (new_client 100) answered chat_pair (codes "m")
      chat_body
