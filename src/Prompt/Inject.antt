-- ===== src/Prompt/Inject.antt =====
-- internal/prompt/inject.go: `Inject` and its stages.
use cpa_plugin_token_saver.Common.{
  Bool, List, Option, [], false, if◌then◌else◌, length, none, not, some, take, true, ◌&&◌, ◌++◌,
  ◌-◌, ◌==◌, ◌||◌, ◌∷◌,
}
use cpa_plugin_token_saver.Json.{Gjson}
use cpa_plugin_token_saver.Protocol.{Pair, eligible}
use cpa_plugin_token_saver.Text.{Bytes, bytes_eq, codes, contains}
use cpa_plugin_token_saver.Json.Marshal.{marshal_string}
use cpa_plugin_token_saver.Prompt.Faces.{caveman_prompts, ponytail_prompts}
use cpa_plugin_token_saver.Prompt.Insert.{
  append_array_item, append_object_field, append_root_field, gemini_text_part, inject_json_string,
  message_instruction_targets, message_part, prepend_array_item, select_text, text_block_targets,
  text_part,
}
use cpa_plugin_token_saver.Prompt.Shapes.{supported_shape}

abbrev pub caveman_start : Bytes
caveman_start = codes "[CPA_TOKEN_SAVER_CAVEMAN_START]"

abbrev pub caveman_end : Bytes
caveman_end = codes "[CPA_TOKEN_SAVER_CAVEMAN_END]"

abbrev pub ponytail_start : Bytes
ponytail_start = codes "[CPA_TOKEN_SAVER_PONYTAIL_START]"

abbrev pub ponytail_end : Bytes
ponytail_end = codes "[CPA_TOKEN_SAVER_PONYTAIL_END]"

pub record PromptOptions : Type 0 where
  pub caveman_level : Bytes
  pub ponytail_level : Bytes

pub record PromptStage : Type 0 where
  pub start : Bytes
  pub end : Bytes
  pub prompt : Bytes
  pub insert_before : Bytes
  pub first : Bool

-- The lookup in a map of prompts.
unfoldable pub prompt_of : List (Bytes × Bytes) → Bytes → Option Bytes
prompt_of [] level = none
prompt_of ((name, text) ∷ prompts) level =
    let rest = prompt_of prompts level in if bytes_eq name level then some text else rest

unfoldable pub caveman_prompt : Bytes → Option Bytes
caveman_prompt level = prompt_of caveman_prompts level

unfoldable pub ponytail_prompt : Bytes → Option Bytes
ponytail_prompt level = prompt_of ponytail_prompts level

abbrev pub caveman_stage : Bytes → PromptStage
caveman_stage text = record {
  start = caveman_start;
  end = caveman_end;
  prompt = text;
  insert_before = ponytail_start;
  first = true;
}

abbrev pub ponytail_stage : Bytes → PromptStage
ponytail_stage text = record {
  start = ponytail_start;
  end = ponytail_end;
  prompt = text;
  insert_before = [];
  first = false;
}

abbrev pub block_of : PromptStage → Bytes
block_of stage = stage.start ++ (codes "\n" ++ (stage.prompt ++ (codes "\n" ++ stage.end)))

module _ (g : Gjson) where
  unfoldable pub inject_openai : Bytes → Bytes → PromptStage → Bytes
  inject_openai body block stage =
      let targets = message_instruction_targets g body (codes "messages") (codes "text") in
      elim (select_text g targets.0 stage.first) [
        | some selected ↦ inject_json_string g body selected block stage.insert_before
        | none ↦ elim (select_text g targets.1 stage.first) [
          | some selected ↦ append_array_item g body selected (text_part (codes "text") block)
          | none ↦
              prepend_array_item g body (g.get_bytes body (codes "messages")) (message_part block)
        ]
      ]

  unfoldable pub inject_responses : Bytes → Bytes → PromptStage → Bytes
  inject_responses body block stage =
      let instructions = g.get_bytes body (codes "instructions") in
      let targets = message_instruction_targets g body (codes "input") (codes "input_text") in
      let texts = if g.is_string instructions then instructions ∷ targets.0 else targets.0 in
      elim (select_text g texts stage.first) [
        | some selected ↦ inject_json_string g body selected block stage.insert_before
        | none ↦ elim (select_text g targets.1 stage.first) [
          | some selected ↦ append_array_item g body selected (text_part (codes "input_text") block)
          | none ↦ append_root_field g body (codes "instructions") (marshal_string block)
        ]
      ]

  unfoldable pub inject_claude : Bytes → Bytes → PromptStage → Bytes
  inject_claude body block stage =
      let system = g.get_bytes body (codes "system") in
      if g.is_string system
      then inject_json_string g body system block stage.insert_before
      else (if g.is_array system
          then elim (select_text g (text_block_targets g system (codes "text")) stage.first) [
            | some selected ↦ inject_json_string g body selected block stage.insert_before
            | none ↦ append_array_item g body system (text_part (codes "text") block)
          ]
          else append_root_field g body (codes "system") (marshal_string block))

  -- The key of the system instruction that is there.
  abbrev pub system_key : Bytes → Bytes → Bytes
  system_key body prefix =
      if g.exists (g.get_bytes body (prefix ++ codes "systemInstruction"))
      then prefix ++ codes "systemInstruction"
      else prefix ++ codes "system_instruction"

  -- The parent of a new system instruction; the prefix is "" or "request.".
  abbrev pub parent_of : Bytes → Bytes → g.Value
  parent_of body prefix =
      if bytes_eq prefix []
      then g.parse_bytes body
      else g.get_bytes body (take (length prefix - 1) prefix)

  unfoldable pub inject_gemini_at : Bytes → Bytes → PromptStage → Bytes → Bytes
  inject_gemini_at body block stage prefix =
      let key = system_key body prefix in
      let parts = g.get_bytes body (key ++ codes ".parts") in
      if g.exists (g.get_bytes body key)
      then elim (select_text g (text_block_targets g parts []) stage.first) [
        | some selected ↦ inject_json_string g body selected block stage.insert_before
        | none ↦ append_array_item g body parts (gemini_text_part block)
      ]
      else append_object_field g body (parent_of body prefix) (codes "systemInstruction")
          (codes "{\"parts\":[" ++ (gemini_text_part block ++ codes "]}"))

  -- The `switch` of `injectStage`.
  unfoldable pub inject_target : Bytes → Bytes → Bytes → PromptStage → Bytes
  inject_target body target block stage =
      if bytes_eq target (codes "openai")
      then inject_openai body block stage
      else (if bytes_eq target (codes "openai-response") || bytes_eq target (codes "codex")
          then inject_responses body block stage
          else (if bytes_eq target (codes "claude")
              then inject_claude body block stage
              else (if bytes_eq target (codes "gemini")
                  then inject_gemini_at body block stage []
                  else (if bytes_eq target (codes "antigravity")
                      then inject_gemini_at body block stage (codes "request.")
                      else body))))

  unfoldable pub inject_stage : Bytes → Bytes → PromptStage → Bytes
  inject_stage body target stage =
      if contains body stage.start || contains body stage.end
      then body
      else inject_target body target (block_of stage) stage

  -- A stage whose level is known.
  unfoldable pub inject_known : Bytes → Bytes → Option PromptStage → Bytes
  inject_known body target none = body
  inject_known body target (some stage) = inject_stage body target stage

  -- What `Inject` asks of a body before it adds anything.
  abbrev pub is_refused_body : Bytes → Pair → Bool
  is_refused_body body route =
      length body == 0
      || not (eligible route)
      || not (g.valid body)
      || not (g.is_object (g.parse_bytes body))
      || not (supported_shape g body route.to)

  unfoldable pub inject : Bytes → Pair → PromptOptions → Bytes
  inject body route options =
      let caveman_known : Option PromptStage = elim (caveman_prompt options.caveman_level) [
        | none ↦ none
        | some text ↦ some (caveman_stage text)
      ] in
      let ponytail_known : Option PromptStage = elim (ponytail_prompt options.ponytail_level) [
        | none ↦ none
        | some text ↦ some (ponytail_stage text)
      ] in
      if bytes_eq options.caveman_level [] && bytes_eq options.ponytail_level []
      then body
      else (if is_refused_body body route
          then body
          else inject_known (inject_known body route.to caveman_known) route.to ponytail_known)
