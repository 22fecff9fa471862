-- ===== src/Prompt/Insert.antt =====
-- internal/prompt/inject.go: the places where an instruction goes, and the insertion of bytes.
use cpa_plugin_token_saver.Common.{
  Bool, List, Option, [], drop, false, if◌then◌else◌, length, ltb, negsuc, none, not, pos, some,
  take, true, ℕ, ℤ, ◌&&◌, ◌++◌, ◌+◌, ◌-◌, ◌==◌, ◌||◌, ◌∷◌,
}
use cpa_plugin_token_saver.Json.{Gjson}
use cpa_plugin_token_saver.Text.{Bytes, bytes_eq, codes, index_of, trim_right}
use cpa_plugin_token_saver.Json.Marshal.{marshal_string}
use cpa_plugin_token_saver.Protocol.Payload.{slice}

-- An offset and a length, as ints.
abbrev pub plus : ℤ → ℕ → ℤ
plus (pos i) n = pos (i + n)
plus (negsuc i) n = if ltb i n then pos (n - i - 1) else negsuc (i - n)

unfoldable pub insert_bytes : Bytes → ℤ → Bytes → Bytes
insert_bytes body (negsuc n) insertion = body
insert_bytes body (pos position) insertion =
    if ltb (length body) position || length insertion == 0
    then body
    else take position body ++ (insertion ++ drop position body)

-- The bytes that strings.TrimRight takes from an object.
abbrev pub is_json_space : ℕ → Bool
is_json_space c = c == 32 || c == 9 || c == 13 || c == 10

unfoldable pub message_part : Bytes → Bytes
message_part text = codes "{\"role\":\"system\",\"content\":" ++ (marshal_string text ++ codes "}")

unfoldable pub text_part : Bytes → Bytes → Bytes
text_part kind text =
    codes "{\"type\":"
    ++ (marshal_string kind ++ (codes ",\"text\":" ++ (marshal_string text ++ codes "}")))

unfoldable pub gemini_text_part : Bytes → Bytes
gemini_text_part text = codes "{\"text\":" ++ (marshal_string text ++ codes "}")

module _ (g : Gjson) where
  unfoldable pub select_text : List g.Value → Bool → Option g.Value
  select_text [] first = none
  select_text (v ∷ vs) true = some v
  select_text (v ∷ []) false = some v
  select_text (v ∷ w ∷ vs) false = select_text (w ∷ vs) false

  -- The body of the loop over the parts.
  abbrev is_text_block : Bytes → g.Value → Bool
  is_text_block required_type part =
      let kind = g.value_at part (codes "type") in
      g.is_object part
      && (bytes_eq required_type [] || (g.is_string kind && bytes_eq (g.string kind) required_type))
      && g.is_string (g.value_at part (codes "text"))

  unfoldable pub text_blocks : Bytes → List g.Value → List g.Value
  text_blocks required_type [] = []
  text_blocks required_type (part ∷ parts) =
      let rest = text_blocks required_type parts in
      if is_text_block required_type part then g.value_at part (codes "text") ∷ rest else rest

  unfoldable pub text_block_targets : g.Value → Bytes → List g.Value
  text_block_targets array required_type = text_blocks required_type (g.array array)

  -- The texts and the arrays of the messages of the system and of the developer.
  unfoldable pub instruction_targets : Bytes → List g.Value → List g.Value × List g.Value
  instruction_targets text_type [] = ([], [])
  instruction_targets text_type (message ∷ others) =
      let rest = instruction_targets text_type others in
      let role = g.string (g.value_at message (codes "role")) in
      let content = g.value_at message (codes "content") in
      if not (g.is_object message)
        || (not (bytes_eq role (codes "system")) && not (bytes_eq role (codes "developer")))
      then rest
      else (if g.is_string content
          then (content ∷ rest.0, rest.1)
          else (if g.is_array content
              then (text_block_targets content text_type ++ rest.0, content ∷ rest.1)
              else rest))

  unfoldable pub message_instruction_targets : Bytes → Bytes → Bytes → List g.Value × List g.Value
  message_instruction_targets body array_path text_type =
      instruction_targets text_type (g.array (g.get_bytes body array_path))

  -- Where in the raw text the block goes, and the block with its blank line.
  unfoldable pub placed : g.Value → Bytes → Bytes → ℕ × Bytes
  placed target block before_marker =
      let last = length (g.raw target) - 1 in
      let spaced = if bytes_eq (g.string target) [] then block else codes "\n\n" ++ block in
      if bytes_eq before_marker []
      then (last, spaced)
      else elim (index_of (g.raw target) before_marker) [
        | some marker ↦ (marker, block ++ codes "\n\n")
        | none ↦ (last, spaced)
      ]

  unfoldable pub inject_json_string : Bytes → g.Value → Bytes → Bytes → Bytes
  inject_json_string body target block before_marker =
      let (position, insertion) = placed target block before_marker in
      let encoded = marshal_string insertion in
      if not (g.is_string target) || ltb (length (g.raw target)) 2
      then body
      else insert_bytes body (plus (g.index target) position) (slice 1 (length encoded - 1) encoded)

  unfoldable pub prepend_array_item : Bytes → g.Value → Bytes → Bytes
  prepend_array_item body array item =
      let insertion = if length (g.array array) == 0 then item else item ++ codes "," in
      if not (g.is_array array) || ltb (length (g.raw array)) 2
      then body
      else insert_bytes body (plus (g.index array) 1) insertion

  unfoldable pub append_array_item : Bytes → g.Value → Bytes → Bytes
  append_array_item body array item =
      let insertion = if length (g.array array) == 0 then item else codes "," ++ item in
      if not (g.is_array array) || ltb (length (g.raw array)) 2
      then body
      else insert_bytes body (plus (g.index array) (length (g.raw array) - 1)) insertion

  unfoldable pub append_object_field : Bytes → g.Value → Bytes → Bytes → Bytes
  append_object_field body object key value =
      let raw = trim_right is_json_space (g.raw object) in
      if not (g.is_object object) || ltb (length raw) 2
      then body
      else insert_bytes body (plus (g.index object) (length raw - 1))
          (codes "," ++ (marshal_string key ++ (codes ":" ++ value)))

  unfoldable pub append_root_field : Bytes → Bytes → Bytes → Bytes
  append_root_field body key value = append_object_field body (g.parse_bytes body) key value
