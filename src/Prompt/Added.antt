-- ===== src/Prompt/Added.antt =====
-- An instruction is only added: the bytes of the body stay, and what is added has the marker in it.
use cpa_plugin_token_saver.Common.{
  Bool, Bool-cases, Option-cases, [], append_assoc, drop, false, if◌then◌else◌, inl, inr, length,
  ltb, negsuc, not, pos, refl, subst, sym, take, take-append-drop, true, ℤ, ◌++◌, ◌-◌, ◌==◌, ◌||◌,
  ◌≡◌, ◌⊎◌,
}
use cpa_plugin_token_saver.Json.{Gjson}
use cpa_plugin_token_saver.Text.{Bytes, bytes_eq, codes, index_of, trim_right}
use cpa_plugin_token_saver.Json.Marshal.{escape_from, marshal_string}
use cpa_plugin_token_saver.Prompt.Insert.{
  append_array_item, append_object_field, gemini_text_part, inject_json_string, insert_bytes,
  is_json_space, message_part, placed, prepend_array_item, text_part,
}
use cpa_plugin_token_saver.Prompt.Marked.{
  Within, Within-append_left, Within-append_right, escaped-Within, is_ascii, is_plain,
  marshal_string-Within, slice-marshal_string,
}
use cpa_plugin_token_saver.Protocol.Payload.{slice}

-- The body comes back, or with one piece inserted that has the marker in it.
abbrev pub IsAdded : Bytes → Bytes → Bytes → Type 0
IsAdded marker body out =
    (out ≡ body)
    ⊎ ((before : Bytes) × (piece : Bytes) × (after : Bytes) × (body ≡ before ++ after)
        × (out ≡ before ++ (piece ++ after))
        × Within marker piece)

insert_bytes-IsAdded :
    (m body : Bytes) (position : ℤ) (piece : Bytes)
    → Within m piece
    → IsAdded m body (insert_bytes body position piece)
unfolding insert_bytes
insert_bytes-IsAdded m body (negsuc n) piece h = inl refl
insert_bytes-IsAdded m body (pos n) piece h =
    elim (Bool-cases (ltb (length body) n || length piece == 0)) [
      | inl refused ↦ rw (refused, insert_bytes) (inl refl)
      | inr fits ↦
          rw (fits, insert_bytes)
            (inr (take n body, piece, drop n body, sym (take-append-drop n body), refl, h))
    ]

-- A guard before an insertion.
guarded-IsAdded :
    (m body : Bytes) (refused : Bool) (out : Bytes)
    → IsAdded m body out
    → IsAdded m body (if refused then body else out)
guarded-IsAdded m body true out h = inl refl
guarded-IsAdded m body false out h = h

chosen-Within :
    (m : Bytes) (b : Bool) (x y : Bytes) → Within m x → Within m y → Within m (if b then x else y)
chosen-Within m true x y h k = h
chosen-Within m false x y h k = k

-- The block of a stage: the marker and a rest.
module _ (g : Gjson) (marker : Bytes) (plain : is_plain marker ≡ true) (rest : Bytes) where
  abbrev block : Bytes
  block = marker ++ rest

  abbrev IsPlaced : Bytes → Type 0
  IsPlaced text =
      (pre : Bytes) × (post : Bytes) × (is_ascii pre ≡ true) × (text ≡ pre ++ (marker ++ post))

  spaced-IsPlaced : (empty : Bool) → IsPlaced (if empty then block else codes "\n\n" ++ block)
  spaced-IsPlaced true = ([], rest, refl, refl)
  spaced-IsPlaced false = (codes "\n\n", rest, refl, refl)

  placed-IsPlaced :
      (target : g.Value) (before_marker : Bytes) → IsPlaced (placed g target block before_marker).1
  unfolding placed
  placed-IsPlaced target before_marker = elim (Bool-cases (bytes_eq before_marker [])) [
    | inl last ↦ rw (last, placed) (spaced-IsPlaced (bytes_eq (g.string target) []))
    | inr marked ↦ elim (Option-cases (index_of (g.raw target) before_marker)) [
      | inl unmarked ↦
          rw (marked, unmarked, placed) (spaced-IsPlaced (bytes_eq (g.string target) []))
      | inr (i, found) ↦
          rw (marked, found, placed)
            ([], rest ++ codes "\n\n", refl, append_assoc marker rest (codes "\n\n"))
    ]
  ]

  inner-Within :
      (text : Bytes)
      → IsPlaced text
      → Within marker (slice 1 (length (marshal_string text) - 1) (marshal_string text))
  inner-Within text (pre, post, ascii, e) =
      subst (Within marker) (sym (slice-marshal_string text)) (
        subst (λ t. Within marker (escape_from (length t) t)) (sym e)
          (escaped-Within marker pre post plain ascii))

  pub inject_json_string-IsAdded :
      (body : Bytes) (target : g.Value) (before_marker : Bytes)
      → IsAdded marker body (inject_json_string g body target block before_marker)
  unfolding inject_json_string
  inject_json_string-IsAdded body target before_marker =
      guarded-IsAdded marker body (not (g.is_string target) || ltb (length (g.raw target)) 2) _ (
        insert_bytes-IsAdded marker body _ _ (
          inner-Within (placed g target block before_marker).1
            (placed-IsPlaced target before_marker)))

  pub prepend_array_item-IsAdded :
      (body : Bytes) (array : g.Value) (item : Bytes)
      → Within marker item
      → IsAdded marker body (prepend_array_item g body array item)
  unfolding prepend_array_item
  prepend_array_item-IsAdded body array item h =
      guarded-IsAdded marker body (not (g.is_array array) || ltb (length (g.raw array)) 2) _ (
        insert_bytes-IsAdded marker body _ _ (
          chosen-Within marker (length (g.array array) == 0) _ _ h
            (Within-append_right marker item (codes ",") h)))

  pub append_array_item-IsAdded :
      (body : Bytes) (array : g.Value) (item : Bytes)
      → Within marker item
      → IsAdded marker body (append_array_item g body array item)
  unfolding append_array_item
  append_array_item-IsAdded body array item h =
      guarded-IsAdded marker body (not (g.is_array array) || ltb (length (g.raw array)) 2) _ (
        insert_bytes-IsAdded marker body _ _ (
          chosen-Within marker (length (g.array array) == 0) _ _ h
            (Within-append_left marker item (codes ",") h)))

  pub append_object_field-IsAdded :
      (body : Bytes) (object : g.Value) (key value : Bytes)
      → Within marker value
      → IsAdded marker body (append_object_field g body object key value)
  unfolding append_object_field
  append_object_field-IsAdded body object key value h =
      guarded-IsAdded marker body
        (not (g.is_object object) || ltb (length (trim_right is_json_space (g.raw object))) 2) _
        (insert_bytes-IsAdded marker body _ _ (
          Within-append_left marker _ (codes ",") (
            Within-append_left marker _ (marshal_string key)
              (Within-append_left marker value (codes ":") h))))

  pub message_part-Within : Within marker (message_part block)
  unfolding message_part
  message_part-Within =
      Within-append_left marker _ (codes "{\"role\":\"system\",\"content\":")
        (Within-append_right marker _ (codes "}") (marshal_string-Within marker rest plain))

  pub text_part-Within : (kind : Bytes) → Within marker (text_part kind block)
  unfolding text_part
  text_part-Within kind = Within-append_left marker _ (codes "{\"type\":") (
      Within-append_left marker _ (marshal_string kind) (
        Within-append_left marker _ (codes ",\"text\":")
          (Within-append_right marker _ (codes "}") (marshal_string-Within marker rest plain))))

  pub gemini_text_part-Within : Within marker (gemini_text_part block)
  unfolding gemini_text_part
  gemini_text_part-Within =
      Within-append_left marker _ (codes "{\"text\":")
        (Within-append_right marker _ (codes "}") (marshal_string-Within marker rest plain))
