-- ===== src/Protocol/Payload/Views.antt =====
-- internal/protocol/payload.go: the walk over each provider's messages, and `View`.
use cpa_plugin_token_saver.Common.{
  Bool, Option, [], if◌then◌else◌, length, none, not, some, ℕ, ◌&&◌, ◌++◌, ◌==◌, ◌||◌,
}
use cpa_plugin_token_saver.Json.{Gjson}
use cpa_plugin_token_saver.Protocol.{Pair, eligible}
use cpa_plugin_token_saver.Text.{Bytes, bytes_eq, codes}
use cpa_plugin_token_saver.Protocol.Payload.{
  Payload, SlotKind, add, for_each, index_string, is_error_object, slot_claude_messages,
  slot_gemini, slot_openai_chat, slot_openai_responses, string_at,
}
pub mod Anchored
pub mod Walks
pub mod Target

-- The path of an element below another.
abbrev pub item_path : Bytes → ℕ → Bytes
item_path base i = base ++ (codes "." ++ index_string i)

module _ (g : Gjson) where
  -- The loop over the blocks of an answer, of which those of the given types are text.
  unfoldable pub add_block :
      (Bytes → Bool) → Bytes → Bytes → SlotKind → Bool → ℕ → g.Value → Payload → Payload
  add_block is_text path result_id kind error j block p =
      if g.is_object block && is_text (string_at g p.raw (item_path path j ++ codes ".type"))
      then add g p (g.get_bytes p.raw (item_path path j ++ codes ".text")) result_id kind error
      else p

  -- The content of one answer: a text, or an array of blocks.
  unfoldable pub add_content : (Bytes → Bool) → Bytes → Bytes → SlotKind → Bool → Payload → Payload
  add_content is_text path result_id kind error p =
      let content = g.get_bytes p.raw path in
      if g.is_string content
      then add g p content result_id kind error
      else (if not (g.is_array content)
          then p
          else for_each g (add_block is_text path result_id kind error) 0 (g.array content) p)

  abbrev is_text_type : Bytes → Bool
  is_text_type t = bytes_eq t (codes "text")

  -- The first guard in each of the four loops.
  abbrev pub is_no_tool : Bytes → Bytes → g.Value → Bool
  is_no_tool raw base message =
      not (g.is_object message)
      || not (bytes_eq (string_at g raw (base ++ codes ".role")) (codes "tool"))

  unfoldable pub chat_message : ℕ → g.Value → Payload → Payload
  chat_message i message p =
      let base = item_path (codes "messages") i in
      let result_id = string_at g p.raw (base ++ codes ".tool_call_id") in
      if is_no_tool p.raw base message
      then p
      else (if bytes_eq result_id []
          then p
          else add_content is_text_type (base ++ codes ".content") result_id slot_openai_chat
              (is_error_object g p.raw base) p)

  unfoldable pub openai_chat : Payload → Option Payload
  openai_chat p =
      let messages = g.get_bytes p.raw (codes "messages") in
      if not (g.is_array messages)
      then none
      else some (for_each g chat_message 0 (g.array messages) p)

  abbrev is_output_type : Bytes → Bool
  is_output_type t =
      bytes_eq t (codes "custom_tool_call_output")
      || bytes_eq t (codes "function_call_output")
      || bytes_eq t (codes "local_shell_call_output")
      || bytes_eq t (codes "apply_patch_call_output")

  abbrev is_responses_text : Bytes → Bool
  is_responses_text t = bytes_eq t (codes "input_text") || bytes_eq t (codes "output_text")

  abbrev pub is_no_output : Bytes → Bytes → g.Value → Bool
  is_no_output raw base item =
      not (g.is_object item) || not (is_output_type (string_at g raw (base ++ codes ".type")))

  unfoldable pub responses_item : ℕ → g.Value → Payload → Payload
  responses_item i item p =
      let base = item_path (codes "input") i in
      let result_id = string_at g p.raw (base ++ codes ".call_id") in
      if is_no_output p.raw base item
      then p
      else (if bytes_eq result_id []
          then p
          else add_content is_responses_text (base ++ codes ".output") result_id
              slot_openai_responses (is_error_object g p.raw base) p)

  unfoldable pub openai_responses : Payload → Option Payload
  openai_responses p =
      let input = g.get_bytes p.raw (codes "input") in
      if not (g.is_array input) then none else some (for_each g responses_item 0 (g.array input) p)

  abbrev pub is_no_result : Bytes → Bytes → g.Value → Bool
  is_no_result raw base block =
      not (g.is_object block)
      || not (bytes_eq (string_at g raw (base ++ codes ".type")) (codes "tool_result"))

  -- The body of the loop over the blocks of a message.
  unfoldable pub claude_block : Bytes → ℕ → g.Value → Payload → Payload
  claude_block path j block p =
      let base = item_path path j in
      let result_id = string_at g p.raw (base ++ codes ".tool_use_id") in
      if is_no_result p.raw base block
      then p
      else (if bytes_eq result_id []
          then p
          else add_content is_text_type (base ++ codes ".content") result_id slot_claude_messages
              (is_error_object g p.raw base) p)

  unfoldable pub claude_message : ℕ → g.Value → Payload → Payload
  claude_message i message p =
      let path = item_path (codes "messages") i ++ codes ".content" in
      let content = g.get_bytes p.raw path in
      if not (g.is_object message) || not (g.is_array content)
      then p
      else for_each g (claude_block path) 0 (g.array content) p

  unfoldable pub claude_messages : Payload → Option Payload
  claude_messages p =
      let messages = g.get_bytes p.raw (codes "messages") in
      if not (g.is_array messages)
      then none
      else some (for_each g claude_message 0 (g.array messages) p)

  abbrev pub id_or_name : Bytes → Bytes → Bytes
  id_or_name raw base =
      let id = string_at g raw (base ++ codes ".id") in
      if bytes_eq id [] then string_at g raw (base ++ codes ".name") else id

  abbrev pub is_no_response : Bytes → Bytes → g.Value → Bool
  is_no_response raw base part = not (g.is_object part) || not (g.is_object (g.get_bytes raw base))

  unfoldable pub gemini_part : Bytes → ℕ → g.Value → Payload → Payload
  gemini_part path j part p =
      let base = item_path path j ++ codes ".functionResponse" in
      if is_no_response p.raw base part
      then p
      else (if bytes_eq (id_or_name p.raw base) []
          then p
          else add g p (g.get_bytes p.raw (base ++ codes ".response.result"))
              (id_or_name p.raw base) slot_gemini
              (is_error_object g p.raw base
                || g.exists (g.get_bytes p.raw (base ++ codes ".response.error"))))

  unfoldable pub gemini_content : Bytes → ℕ → g.Value → Payload → Payload
  gemini_content contents_path i content p =
      let path = item_path contents_path i ++ codes ".parts" in
      let parts = g.get_bytes p.raw path in
      if not (g.is_object content) || not (g.is_array parts)
      then p
      else for_each g (gemini_part path) 0 (g.array parts) p

  unfoldable pub gemini_at : Bytes → Payload → Option Payload
  gemini_at contents_path p =
      let contents = g.get_bytes p.raw contents_path in
      if not (g.is_array contents)
      then none
      else some (for_each g (gemini_content contents_path) 0 (g.array contents) p)

  -- The `switch` of `View`.
  unfoldable pub view_target : Bytes → Payload → Option Payload
  view_target to p =
      if bytes_eq to (codes "openai")
      then openai_chat p
      else (if bytes_eq to (codes "openai-response") || bytes_eq to (codes "codex")
          then openai_responses p
          else (if bytes_eq to (codes "claude")
              then claude_messages p
              else (if bytes_eq to (codes "gemini")
                  then gemini_at (codes "contents") p
                  else (if bytes_eq to (codes "antigravity")
                      then gemini_at (codes "request.contents") p
                      else none))))

  unfoldable pub view : Bytes → Pair → Option Payload
  view body route =
      if length body == 0 || not (eligible route) || not (g.valid body)
      then none
      else (if not (g.is_object (g.parse_bytes body))
          then none
          else view_target route.to (record { raw = body; slots = [] }))
