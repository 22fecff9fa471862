-- ===== src/Protocol/Payload/Views/Walks.antt =====
-- Each provider's walk keeps the slots anchored in the body.
use cpa_plugin_token_saver.Common.{
  Bool, Bool-cases, [], arith, false, inl, inr, subst, sym, if◌then◌else◌, not, refl, true, ℕ, ◌++◌,
  ◌||◌, ◌≡◌,
}
use cpa_plugin_token_saver.Json.{Gjson}
use cpa_plugin_token_saver.Text.{Bytes, bytes_eq, bytes_eq_sound, codes}
use cpa_plugin_token_saver.Protocol.Payload.{
  Payload, SlotKind, slot_claude_messages, slot_gemini, slot_openai_chat, slot_openai_responses,
  string_at,
}
use cpa_plugin_token_saver.Protocol.Payload.Views.{
  chat_message, claude_block, claude_message, gemini_content, gemini_part, id_or_name, is_no_output,
  is_no_response, is_no_result, is_no_tool, item_path, responses_item,
}
use cpa_plugin_token_saver.Protocol.Payload.Views.Anchored.{
  Answers, IsAnswer, IsStringAt, IsTextPath, IsView, add-IsView, add_content-IsView,
  for_each-IsView,
}

module _ (g : Gjson) where
  -- A walk is taken only for an element that is not refused.
  guarded-IsView :
      (body : Bytes) (kind : SlotKind) (refused : Bool) (p q : Payload)
      → IsView g body kind p
      → (refused ≡ false → IsView g body kind q)
      → IsView g body kind (if refused then p else q)
  guarded-IsView body kind true p q h k = h
  guarded-IsView body kind false p q h k = k refl

  -- A string that is read and is not empty stands there.
  string_at-IsStringAt :
      (raw path : Bytes)
      → bytes_eq (string_at g raw path) [] ≡ false
      → IsStringAt g raw path (string_at g raw path)
  unfolding string_at bytes_eq
  string_at-IsStringAt raw path = elim (Bool-cases (g.is_string (g.get_bytes raw path))) [
    | inl text ↦ λ h. (text, rw (text, string_at) refl)
    | inr other_value ↦ rw (other_value, string_at) (λ h. ground arith)
  ]

  read_IsStringAt :
      (raw path text : Bytes)
      → bytes_eq text [] ≡ false
      → bytes_eq (string_at g raw path) text ≡ true
      → IsStringAt g raw path text
  read_IsStringAt raw path text filled h =
      let same = bytes_eq_sound (string_at g raw path) text h in
      subst (IsStringAt g raw path) same
        (string_at-IsStringAt raw path (subst (λ t. bytes_eq t [] ≡ false) (sym same) filled))

  -- What is read of the body that a view is of.
  moved_Answers :
      (body : Bytes) (kind : SlotKind) (base id path : Bytes) (p : Payload)
      → IsView g body kind p
      → bytes_eq id [] ≡ false
      → IsAnswer g p.raw kind base id
      → IsTextPath kind base path
      → Answers g body kind id path
  moved_Answers body kind base id path p h named answer text =
      (named, (base, subst (λ b. IsAnswer g b kind base id) h.same answer, text))

  pub chat_message-IsView :
      (body : Bytes) (i : ℕ) (message : g.Value) (p : Payload)
      → IsView g body slot_openai_chat p
      → IsView g body slot_openai_chat (chat_message g i message p)
  unfolding chat_message bytes_eq
  chat_message-IsView body i message p h =
      let base = item_path (codes "messages") i in
      guarded-IsView body slot_openai_chat (is_no_tool g p.raw base message) p _ h (λ accepted.
        guarded-IsView body slot_openai_chat
          (bytes_eq (string_at g p.raw (base ++ codes ".tool_call_id")) []) p _ h
          (λ named.
            let id = string_at g p.raw (base ++ codes ".tool_call_id") in
            let role =
              read_IsStringAt p.raw (base ++ codes ".role") (codes "tool") refl (ground arith) in
            let answer : IsAnswer g p.raw slot_openai_chat base id =
              ((i, refl), role, string_at-IsStringAt p.raw _ named) in
            add_content-IsView g body slot_openai_chat _ _ _ _ p
              (λ q there. moved_Answers body slot_openai_chat base id q p h named answer there) h))

  pub responses_item-IsView :
      (body : Bytes) (i : ℕ) (item : g.Value) (p : Payload)
      → IsView g body slot_openai_responses p
      → IsView g body slot_openai_responses (responses_item g i item p)
  unfolding responses_item
  responses_item-IsView body i item p h =
      let base = item_path (codes "input") i in
      guarded-IsView body slot_openai_responses (is_no_output g p.raw base item) p _ h (λ accepted.
        guarded-IsView body slot_openai_responses
          (bytes_eq (string_at g p.raw (base ++ codes ".call_id")) []) p _ h
          (λ named.
            let id = string_at g p.raw (base ++ codes ".call_id") in
            let answer : IsAnswer g p.raw slot_openai_responses base id =
              ((i, refl), string_at-IsStringAt p.raw _ named) in
            add_content-IsView g body slot_openai_responses _ _ _ _ p
              (λ q there. moved_Answers body slot_openai_responses base id q p h named answer there)
              h))

  claude_block-IsView :
      (body : Bytes) (i j : ℕ) (block : g.Value) (p : Payload)
      → IsView g body slot_claude_messages p
      → IsView g body slot_claude_messages
          (claude_block g (item_path (codes "messages") i ++ codes ".content") j block p)
  unfolding claude_block bytes_eq
  claude_block-IsView body i j block p h =
      let base = item_path (item_path (codes "messages") i ++ codes ".content") j in
      guarded-IsView body slot_claude_messages (is_no_result g p.raw base block) p _ h (λ accepted.
        guarded-IsView body slot_claude_messages
          (bytes_eq (string_at g p.raw (base ++ codes ".tool_use_id")) []) p _ h
          (λ named.
            let id = string_at g p.raw (base ++ codes ".tool_use_id") in
            let result =
              read_IsStringAt p.raw (base ++ codes ".type") (codes "tool_result") refl
                (ground arith) in
            let answer : IsAnswer g p.raw slot_claude_messages base id =
              ((i, j, refl), result, string_at-IsStringAt p.raw _ named) in
            add_content-IsView g body slot_claude_messages _ _ _ _ p
              (λ q there. moved_Answers body slot_claude_messages base id q p h named answer there)
              h))

  pub claude_message-IsView :
      (body : Bytes) (i : ℕ) (message : g.Value) (p : Payload)
      → IsView g body slot_claude_messages p
      → IsView g body slot_claude_messages (claude_message g i message p)
  unfolding claude_message
  claude_message-IsView body i message p h =
      let path = item_path (codes "messages") i ++ codes ".content" in
      guarded-IsView body slot_claude_messages
        (not (g.is_object message) || not (g.is_array (g.get_bytes p.raw path))) p _ h
        (λ is_filled.
          for_each-IsView g body slot_claude_messages (claude_block g path)
            (claude_block-IsView body i) 0 _ p h)

  -- The identifier of a response: its own, or the name of its function.
  id_or_name-IsAnswer :
      (raw contents : Bytes) (i j : ℕ)
      → (let base =
            item_path (item_path contents i ++ codes ".parts") j ++ codes ".functionResponse" in
          bytes_eq (id_or_name g raw base) [] ≡ false
          → IsAnswer g raw slot_gemini base (id_or_name g raw base))
  id_or_name-IsAnswer raw contents i j =
      let base =
        item_path (item_path contents i ++ codes ".parts") j ++ codes ".functionResponse" in
      elim (Bool-cases (bytes_eq (string_at g raw (base ++ codes ".id")) [])) [
        | inl missing ↦
            rw missing
              (λ named. ((contents, i, j, refl), inr (refl, string_at-IsStringAt raw _ named)))
        | inr has_id ↦
            rw has_id (λ named. ((contents, i, j, refl), inl (string_at-IsStringAt raw _ has_id)))
      ]

  gemini_part-IsView :
      (body contents : Bytes) (i j : ℕ) (part : g.Value) (p : Payload)
      → IsView g body slot_gemini p
      → IsView g body slot_gemini (gemini_part g (item_path contents i ++ codes ".parts") j part p)
  unfolding gemini_part
  gemini_part-IsView body contents i j part p h =
      let base =
        item_path (item_path contents i ++ codes ".parts") j ++ codes ".functionResponse" in
      guarded-IsView body slot_gemini (is_no_response g p.raw base part) p _ h (λ accepted.
        guarded-IsView body slot_gemini (bytes_eq (id_or_name g p.raw base) []) p _ h (λ named.
          add-IsView g body slot_gemini _ p _ _
            (moved_Answers body slot_gemini base (id_or_name g p.raw base) _ p h named
              (id_or_name-IsAnswer p.raw contents i j named) refl)
            h))

  pub gemini_content-IsView :
      (body path : Bytes) (i : ℕ) (content : g.Value) (p : Payload)
      → IsView g body slot_gemini p
      → IsView g body slot_gemini (gemini_content g path i content p)
  unfolding gemini_content
  gemini_content-IsView body path i content p h =
      let parts = item_path path i ++ codes ".parts" in
      guarded-IsView body slot_gemini
        (not (g.is_object content) || not (g.is_array (g.get_bytes p.raw parts))) p _ h
        (λ is_filled.
          for_each-IsView g body slot_gemini (gemini_part g parts) (gemini_part-IsView body path i)
            0 _ p h)
