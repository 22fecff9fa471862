-- ===== src/Prompt/Shapes.antt =====
-- internal/prompt/inject.go: the shapes that the instructions can be added to.
use cpa_plugin_token_saver.Common.{
  Bool, List, [], false, if◌then◌else◌, length, not, true, ◌&&◌, ◌++◌, ◌==◌, ◌||◌, ◌∷◌,
}
use cpa_plugin_token_saver.Config.{is_one_of}
use cpa_plugin_token_saver.Json.{Gjson}
use cpa_plugin_token_saver.Text.{Bytes, bytes_eq, codes}

module _ (g : Gjson) where
  -- An array that is not empty.
  abbrev is_filled : g.Value → Bool
  is_filled v = g.is_array v && not (length (g.array v) == 0)

  -- A loop that returns false at the first element that fails.
  unfoldable pub all_values : (g.Value → Bool) → List g.Value → Bool
  all_values test [] = true
  all_values test (v ∷ vs) = if not (test v) then false else all_values test vs

  abbrev is_openai_message : g.Value → Bool
  is_openai_message message =
      g.is_object message
      && is_one_of
          (codes "system"
            ∷ codes "developer"
            ∷ codes "user"
            ∷ codes "assistant"
            ∷ codes "tool"
            ∷ codes "function"
            ∷ [])
          (g.string (g.value_at message (codes "role")))

  unfoldable pub valid_openai_messages : g.Value → Bool
  unfolding all_values
  valid_openai_messages message_list =
      if not (is_filled message_list)
      then false
      else all_values is_openai_message (g.array message_list)

  -- An item of another type than a message.
  abbrev is_typed_item : g.Value → Bool
  is_typed_item item =
      let kind = g.value_at item (codes "type") in
      g.is_string kind
      && not (bytes_eq (g.string kind) [])
      && not (bytes_eq (g.string kind) (codes "message"))

  abbrev is_role_item : g.Value → Bool
  is_role_item item =
      let role = g.value_at item (codes "role") in
      g.exists role
      && is_one_of (codes "system" ∷ codes "developer" ∷ codes "user" ∷ codes "assistant" ∷ [])
          (g.string role)
      && g.exists (g.value_at item (codes "content"))

  unfoldable pub is_responses_item : g.Value → Bool
  is_responses_item item =
      if not (g.is_object item)
      then false
      else (if is_typed_item item then true else is_role_item item)

  unfoldable pub valid_responses_input : g.Value → Bool
  unfolding all_values is_responses_item
  valid_responses_input input =
      if not (is_filled input) then false else all_values is_responses_item (g.array input)

  abbrev is_claude_message : g.Value → Bool
  is_claude_message message =
      g.is_object message
      && g.exists (g.value_at message (codes "content"))
      && is_one_of (codes "user" ∷ codes "assistant" ∷ [])
          (g.string (g.value_at message (codes "role")))

  unfoldable pub valid_claude_messages : g.Value → Bool
  unfolding all_values
  valid_claude_messages message_list =
      if not (is_filled message_list)
      then false
      else all_values is_claude_message (g.array message_list)

  abbrev is_gemini_content : g.Value → Bool
  is_gemini_content content =
      g.is_object content
      && g.is_array (g.value_at content (codes "parts"))
      && is_one_of (codes "user" ∷ codes "model" ∷ [])
          (g.string (g.value_at content (codes "role")))

  unfoldable pub valid_gemini_contents : g.Value → Bool
  unfolding all_values
  valid_gemini_contents contents =
      if not (is_filled contents) then false else all_values is_gemini_content (g.array contents)

  -- `gjson.Get(system.Raw, "parts")` is `get_bytes` of the raw text.
  unfoldable pub valid_gemini_shape : Bytes → Bytes → Bool
  unfolding valid_gemini_contents
  valid_gemini_shape body prefix =
      let camel = g.get_bytes body (prefix ++ codes "systemInstruction") in
      let snake = g.get_bytes body (prefix ++ codes "system_instruction") in
      let system = if not (g.exists camel) then snake else camel in
      if not (valid_gemini_contents (g.get_bytes body (prefix ++ codes "contents")))
      then false
      else (if g.exists camel && g.exists snake
          then false
          else not (g.exists system)
            || (g.is_object system && g.is_array (g.get_bytes (g.raw system) (codes "parts"))))

  unfoldable pub supported_shape : Bytes → Bytes → Bool
  unfolding valid_openai_messages valid_responses_input valid_claude_messages valid_gemini_shape
  supported_shape body target =
      let instructions = g.get_bytes body (codes "instructions") in
      let system = g.get_bytes body (codes "system") in
      if bytes_eq target (codes "openai")
      then valid_openai_messages (g.get_bytes body (codes "messages"))
      else (if bytes_eq target (codes "openai-response") || bytes_eq target (codes "codex")
          then valid_responses_input (g.get_bytes body (codes "input"))
            && (not (g.exists instructions) || g.is_string instructions)
          else (if bytes_eq target (codes "claude")
              then valid_claude_messages (g.get_bytes body (codes "messages"))
                && (not (g.exists system) || g.is_string system || g.is_array system)
              else (if bytes_eq target (codes "gemini")
                  then valid_gemini_shape body []
                  else (if bytes_eq target (codes "antigravity")
                      then g.is_object (g.get_bytes body (codes "request"))
                        && valid_gemini_shape body (codes "request.")
                      else false))))
