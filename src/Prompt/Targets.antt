-- ===== src/Prompt/Targets.antt =====
-- The instruction of a stage is only added, whatever the target.
use cpa_plugin_token_saver.Common.{
  Bool-cases, Option-cases, [], if◌then◌else◌, inl, inr, refl, true, ◌++◌, ◌||◌, ◌∷◌, ◌≡◌,
}
use cpa_plugin_token_saver.Json.{Gjson}
use cpa_plugin_token_saver.Text.{Bytes, bytes_eq, codes}
use cpa_plugin_token_saver.Prompt.Added.{
  IsAdded, append_array_item-IsAdded, append_object_field-IsAdded, gemini_text_part-Within,
  inject_json_string-IsAdded, message_part-Within, prepend_array_item-IsAdded, text_part-Within,
}
use cpa_plugin_token_saver.Prompt.Inject.{
  PromptStage, inject_claude, inject_gemini_at, inject_openai, inject_responses, inject_target,
  system_key,
}
use cpa_plugin_token_saver.Prompt.Insert.{
  append_root_field, message_instruction_targets, select_text, text_block_targets,
}
use cpa_plugin_token_saver.Prompt.Marked.{
  Within-append_left, Within-append_right, is_plain, marshal_string-Within,
}

module _ (g : Gjson) (marker : Bytes) (plain : is_plain marker ≡ true) (rest : Bytes) where
  inject_openai-IsAdded :
      (body : Bytes) (stage : PromptStage)
      → IsAdded marker body (inject_openai g body (marker ++ rest) stage)
  unfolding inject_openai
  inject_openai-IsAdded body stage =
      let targets = message_instruction_targets g body (codes "messages") (codes "text") in
      elim (Option-cases (select_text g targets.0 stage.first)) [
        | inr (v, text) ↦
            rw (text, inject_openai)
              (inject_json_string-IsAdded g marker plain rest body v stage.insert_before)
        | inl no_text ↦ elim (Option-cases (select_text g targets.1 stage.first)) [
          | inr (v, array) ↦
              rw (no_text, array, inject_openai)
                (append_array_item-IsAdded g marker plain rest body v _
                  (text_part-Within g marker plain rest (codes "text")))
          | inl no_array ↦
              rw (no_text, no_array, inject_openai)
                (prepend_array_item-IsAdded g marker plain rest body _ _
                  (message_part-Within g marker plain rest))
        ]
      ]

  inject_responses-IsAdded :
      (body : Bytes) (stage : PromptStage)
      → IsAdded marker body (inject_responses g body (marker ++ rest) stage)
  unfolding inject_responses append_root_field
  inject_responses-IsAdded body stage =
      let instructions = g.get_bytes body (codes "instructions") in
      let targets = message_instruction_targets g body (codes "input") (codes "input_text") in
      let texts = if g.is_string instructions then instructions ∷ targets.0 else targets.0 in
      elim (Option-cases (select_text g texts stage.first)) [
        | inr (v, text) ↦
            rw (text, inject_responses)
              (inject_json_string-IsAdded g marker plain rest body v stage.insert_before)
        | inl no_text ↦ elim (Option-cases (select_text g targets.1 stage.first)) [
          | inr (v, array) ↦
              rw (no_text, array, inject_responses)
                (append_array_item-IsAdded g marker plain rest body v _
                  (text_part-Within g marker plain rest (codes "input_text")))
          | inl no_array ↦
              rw (no_text, no_array, inject_responses)
                (append_object_field-IsAdded g marker plain rest body _ _ _
                  (marshal_string-Within marker rest plain))
        ]
      ]

  inject_claude-IsAdded :
      (body : Bytes) (stage : PromptStage)
      → IsAdded marker body (inject_claude g body (marker ++ rest) stage)
  unfolding inject_claude append_root_field
  inject_claude-IsAdded body stage =
      let system = g.get_bytes body (codes "system") in
      let texts = text_block_targets g system (codes "text") in
      elim (Bool-cases (g.is_string system)) [
        | inl is_text ↦
            rw (is_text, inject_claude)
              (inject_json_string-IsAdded g marker plain rest body system stage.insert_before)
        | inr several ↦ elim (Bool-cases (g.is_array system)) [
          | inr absent ↦
              rw (several, absent, inject_claude)
                (append_object_field-IsAdded g marker plain rest body _ _ _
                  (marshal_string-Within marker rest plain))
          | inl blocks ↦ elim (Option-cases (select_text g texts stage.first)) [
            | inr (v, text) ↦
                rw (several, blocks, text, inject_claude)
                  (inject_json_string-IsAdded g marker plain rest body v stage.insert_before)
            | inl no_text ↦
                rw (several, blocks, no_text, inject_claude)
                  (append_array_item-IsAdded g marker plain rest body system _
                    (text_part-Within g marker plain rest (codes "text")))
          ]
        ]
      ]

  inject_gemini_at-IsAdded :
      (body : Bytes) (stage : PromptStage) (prefix : Bytes)
      → IsAdded marker body (inject_gemini_at g body (marker ++ rest) stage prefix)
  unfolding inject_gemini_at
  inject_gemini_at-IsAdded body stage prefix =
      let key = system_key g body prefix in
      let parts = g.get_bytes body (key ++ codes ".parts") in
      elim (Bool-cases (g.exists (g.get_bytes body key))) [
        | inr absent ↦
            rw (absent, inject_gemini_at)
              (append_object_field-IsAdded g marker plain rest body _ _ _ (
                Within-append_left marker _ (codes "{\"parts\":[") (
                  Within-append_right marker _ (codes "]}")
                    (gemini_text_part-Within g marker plain rest))))
        | inl there ↦
            elim (Option-cases (select_text g (text_block_targets g parts []) stage.first)) [
              | inr (v, text) ↦
                  rw (there, text, inject_gemini_at)
                    (inject_json_string-IsAdded g marker plain rest body v stage.insert_before)
              | inl no_text ↦
                  rw (there, no_text, inject_gemini_at)
                    (append_array_item-IsAdded g marker plain rest body parts _
                      (gemini_text_part-Within g marker plain rest))
            ]
      ]

  pub inject_target-IsAdded :
      (body target : Bytes) (stage : PromptStage)
      → IsAdded marker body (inject_target g body target (marker ++ rest) stage)
  unfolding inject_target
  inject_target-IsAdded body target stage = elim (Bool-cases (bytes_eq target (codes "openai"))) [
    | inl c1 ↦ rw (c1, inject_target) (inject_openai-IsAdded body stage)
    | inr c1 ↦
        elim (Bool-cases
          (bytes_eq target (codes "openai-response") || bytes_eq target (codes "codex"))) [
            | inl c2 ↦ rw (c1, c2, inject_target) (inject_responses-IsAdded body stage)
            | inr c2 ↦ elim (Bool-cases (bytes_eq target (codes "claude"))) [
              | inl c3 ↦ rw (c1, c2, c3, inject_target) (inject_claude-IsAdded body stage)
              | inr c3 ↦ elim (Bool-cases (bytes_eq target (codes "gemini"))) [
                | inl c4 ↦
                    rw (c1, c2, c3, c4, inject_target) (inject_gemini_at-IsAdded body stage [])
                | inr c4 ↦ elim (Bool-cases (bytes_eq target (codes "antigravity"))) [
                  | inl c5 ↦
                      rw (c1, c2, c3, c4, c5, inject_target)
                        (inject_gemini_at-IsAdded body stage (codes "request."))
                  | inr c5 ↦ rw (c1, c2, c3, c4, c5, inject_target) (inl refl)
                ]
              ]
            ]
          ]
  ]
