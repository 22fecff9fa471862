-- ===== src/Headroom/Adapter/Chat.antt =====
-- internal/headroom/adapter.go: `projectOpenAIChat`, with the checks of a message.
use cpa_plugin_token_saver.Common.{
  Bool, Option, [], false, if◌then◌else◌, length, none, not, some, suc, true, ℕ, ◌&&◌, ◌++◌, ◌==◌,
  ◌||◌,
}
use cpa_plugin_token_saver.Json.{Gjson}
use cpa_plugin_token_saver.Text.{Bytes, bytes_eq, codes, decimal}
use cpa_plugin_token_saver.Headroom.Adapter.{
  Decoder, Fields, Items, Projection, Value, add_target, array, as_array, as_object, as_string,
  count, decode_object, field, is_nil, is_text, item, no_item, null_value, string,
}
pub mod Roles
pub mod Walked

unfoldable pub valid_openai_role : Bytes → Bool
unfolding bytes_eq
valid_openai_role role =
    bytes_eq role (codes "system")
    || bytes_eq role (codes "developer")
    || bytes_eq role (codes "user")
    || bytes_eq role (codes "assistant")
    || bytes_eq role (codes "tool")

-- A string that is there and is not empty.
abbrev is_filled : Option Bytes → Bool
is_filled none = false
is_filled (some s) = not (length s == 0)

abbrev is_given : Option Bytes → Bool
is_given none = false
is_given (some s) = true

abbrev valid_function : Option Fields → Bool
valid_function none = false
valid_function (some function) =
    is_filled (as_string (field (codes "name") function))
    && is_given (as_string (field (codes "arguments") function))

abbrev valid_call : Option Fields → Bool
valid_call none = false
valid_call (some call) =
    is_text (codes "function") (as_string (field (codes "type") call))
    && is_filled (as_string (field (codes "id") call))
    && valid_function (as_object (field (codes "function") call))

unfoldable pub valid_calls : Items → Bool
valid_calls no_item = true
valid_calls (item raw_call calls) = valid_call (as_object (some raw_call)) && valid_calls calls

-- The `tool_calls` that are there.
abbrev valid_tool_calls : Bytes → Option Value → Bool
valid_tool_calls role none = true
valid_tool_calls role (some raw_calls) =
    bytes_eq role (codes "assistant")
    && elim (as_array (some raw_calls)) [ none ↦ false | some calls ↦ valid_calls calls ]

unfoldable pub validate_openai_tool_fields : Fields → Bytes → Bool
validate_openai_tool_fields message role =
    (not (bytes_eq role (codes "tool"))
      || is_filled (as_string (field (codes "tool_call_id") message)))
    && valid_tool_calls role (field (codes "tool_calls") message)

abbrev pub is_mutable : Bytes → Bool
is_mutable role = not (bytes_eq role (codes "system")) && not (bytes_eq role (codes "developer"))

-- The text of a block whose type is `text`.
unfoldable pub block_text : Value → Option Bytes
block_text raw_block = elim (as_object (some raw_block)) [
  | none ↦ none
  | some block ↦
      if not (is_text (codes "text") (as_string (field (codes "type") block)))
      then none
      else as_string (field (codes "text") block)
]

module _ (g : Gjson) (body : Bytes) where
  abbrev message_path : ℕ → Bytes
  message_path message_index = codes "messages." ++ (decimal message_index ++ codes ".content")

  abbrev block_path : ℕ → ℕ → Bytes
  block_path message_index block_index =
      message_path message_index ++ (codes "." ++ (decimal block_index ++ codes ".text"))

  unfoldable pub project_block : Bool → ℕ → ℕ → Value → Projection → Option Projection
  project_block mutable message_index block_index raw_block p = elim (block_text raw_block) [
    | none ↦ none
    | some text ↦
        if mutable
        then add_target g p body (block_path message_index block_index) message_index
            (some block_index) text
        else some p
  ]

  unfoldable pub project_blocks : Bool → ℕ → ℕ → Items → Projection → Option Projection
  project_blocks mutable message_index block_index no_item p = some p
  project_blocks mutable message_index block_index (item raw_block blocks) p =
      elim (project_block mutable message_index block_index raw_block p) [
        | none ↦ none
        | some p' ↦ project_blocks mutable message_index (suc block_index) blocks p'
      ]

  -- The content of a message, none where the key is missing.
  unfoldable pub project_content :
      Fields → Bytes → ℕ → Option Value → Projection → Option Projection
  project_content message role message_index none p =
      if bytes_eq role (codes "assistant") && not (is_nil (field (codes "tool_calls") message))
      then some p
      else none
  project_content message role message_index (some (string typed)) p =
      if is_mutable role
      then add_target g p body (message_path message_index) message_index none typed
      else some p
  project_content message role message_index (some (array typed)) p =
      project_blocks (is_mutable role) message_index 0 typed p
  project_content message role message_index (some null_value) p =
      if bytes_eq role (codes "assistant") && not (is_nil (field (codes "tool_calls") message))
      then some p
      else none
  project_content message role message_index (some _) p = none

  unfoldable pub project_message : ℕ → Value → Projection → Option Projection
  project_message message_index raw_message p = elim (as_object (some raw_message)) [
    | none ↦ none
    | some message ↦ elim (as_string (field (codes "role") message)) [
      | none ↦ none
      | some role ↦
          if valid_openai_role role && validate_openai_tool_fields message role
          then project_content message role message_index (field (codes "content") message) p
          else none
    ]
  ]

  unfoldable pub project_messages : ℕ → Items → Projection → Option Projection
  project_messages message_index no_item p = some p
  project_messages message_index (item raw_message messages) p =
      elim (project_message message_index raw_message p) [
        | none ↦ none
        | some p' ↦ project_messages (suc message_index) messages p'
      ]

  unfoldable pub project_openai_chat : Decoder → Option Projection
  project_openai_chat d = elim (decode_object d body) [
    | none ↦ none
    | some root ↦ elim (as_array (field (codes "messages") root)) [
      | none ↦ none
      | some messages ↦
          if count messages == 0
          then none
          else project_messages 0 messages (record { messages = messages; targets = [] })
    ]
  ]
