-- ===== src/Tests/Payloads.antt =====
-- internal/protocol/payload.go at concrete inputs, with a small reader of one body.
use cpa_plugin_token_saver.Common.{
  List, [], ap, arith, false, if◌then◌else◌, inl, inr, length, none≢some, pos, pos_part, refl, some,
  some-injective, subst, suc, sym, true, zero, ℕ, ℤ, ◌++◌, ◌<◌, ◌∙◌, ◌∷◌, ◌≡◌, ◌≢◌, ◌≤◌,
}
use cpa_plugin_token_saver.Json.{Gjson}
use cpa_plugin_token_saver.Protocol.{Pair, eligible, is_listed}
use cpa_plugin_token_saver.Text.{Bytes, bytes_eq, codes}
use cpa_plugin_token_saver.Json.Marshal.{
  escape_ascii, escape_from, escape_unit, marshal_string, utf8_width,
}
use cpa_plugin_token_saver.Protocol.Payload.{
  Payload, TextSlot, add, add_at, for_each, index_string, is_error_object, slice, slot_openai_chat,
  string_at,
}
use cpa_plugin_token_saver.Protocol.Payload.Rewrite.{
  Edit, edits_of, insert_edit, rewrite, slot_at, sort_edits, splice, valid_edits,
}
use cpa_plugin_token_saver.Protocol.Payload.Views.{
  add_content, chat_message, openai_chat, view, view_target,
}
use cpa_plugin_token_saver.Protocol.Payload.Rewrite.Apart.{IsApart, KeyedOnce}
use cpa_plugin_token_saver.Protocol.Payload.Rewrite.Laws.{rewrite_all, rewrite_own}
use cpa_plugin_token_saver.Protocol.Payload.Rewrite.Offered.{Has, IsOffered, edit_of}
use cpa_plugin_token_saver.Protocol.Payload.Rewrite.Spliced.{IsSpliced}
use cpa_plugin_token_saver.Protocol.Payload.Rewrite.Walked.{SameMap, rewrite-SameMap, swapped}

-- What the reader of the example finds: absent_value, an object, an array of one object, or a string with
-- its offset.
pub data Reading : Type 0 where
  absent_value an_object an_array : Reading
  a_string : Bytes → ℕ → Reading

abbrev pub chat_body : Bytes
chat_body = codes "{\"messages\":[{\"role\":\"tool\",\"tool_call_id\":\"7\",\"content\":\"hi\"}]}"

abbrev find_path : Bytes → Reading
find_path path =
    if bytes_eq path (codes "messages")
    then an_array
    else (if bytes_eq path (codes "messages.0.role")
        then a_string (codes "tool") 21
        else (if bytes_eq path (codes "messages.0.tool_call_id")
            then a_string (codes "7") 43
            else (if bytes_eq path (codes "messages.0.content")
                then a_string (codes "hi") 57
                else absent_value)))

abbrev pub chat_gjson : Gjson
chat_gjson = record {
  Value = Reading;
  json_valid = λ b. true;
  valid = λ b. true;
  parse_bytes = λ b. an_object;
  value_at =
      λ v path. if bytes_eq path (codes "role") then a_string (codes "user") 0 else absent_value;
  get_bytes = λ b path. find_path path;
  is_object = λ v. elim v [ an_object ↦ true | _ ↦ false ];
  is_array = λ v. elim v [ an_array ↦ true | _ ↦ false ];
  array = λ v. elim v [ an_array ↦ an_object ∷ [] | _ ↦ [] ];
  is_string = λ v. elim v [ a_string s i ↦ true | _ ↦ false ];
  string = λ v. elim v [ a_string s i ↦ s | _ ↦ [] ];
  exists = λ v. elim v [ absent_value ↦ false | _ ↦ true ];
  truth = λ v. false;
  raw = λ v. elim v [
    | a_string s i ↦ 34 ∷ (s ++ 34 ∷ [])
    | an_array ↦ codes "[{}]"
    | an_object ↦ codes "{}"
    | absent_value ↦ []
  ];
  index = λ v. elim v [ a_string s i ↦ pos i | _ ↦ pos 0 ];
}

abbrev pub chat_pair : Pair
chat_pair = record { from = codes "openai"; to = codes "openai" }

abbrev pub chat_slot : TextSlot
chat_slot = record {
  text = codes "hi";
  result_id = codes "7";
  kind = slot_openai_chat;
  error = false;
  start = 57;
  end = 61;
}

abbrev pub chat_view : Payload
chat_view = record { raw = chat_body; slots = chat_slot ∷ [] }

pub view-chat_body : view chat_gjson chat_body chat_pair ≡ some chat_view
unfolding view eligible is_listed view_target openai_chat chat_message for_each add_content add
    add_at string_at is_error_object index_string bytes_eq
view-chat_body = refl

abbrev new_texts : List (ℤ × Bytes)
new_texts = (pos 0, codes "ok") ∷ []

rewrite_runs :
    rewrite chat_view new_texts
    ≡ codes "{\"messages\":[{\"role\":\"tool\",\"tool_call_id\":\"7\",\"content\":\"ok\"}]}"
unfolding rewrite edits_of slot_at sort_edits insert_edit valid_edits splice marshal_string
    escape_from utf8_width escape_unit escape_ascii
rewrite_runs = refl

only_slot : (i : ℕ) (s : TextSlot) → slot_at (chat_slot ∷ []) i ≡ some s → (i ≡ 0) × (s ≡ chat_slot)
unfolding slot_at
only_slot zero s e = (refl, sym (some-injective e))
only_slot (suc i) s e = absurd (none≢some e)

pub chat_view-IsApart : IsApart chat_view
chat_view-IsApart = record {
  filled = λ i s e.
      subst (λ t. (t.start < t.end) × (t.end ≤ length chat_body)) (sym (only_slot i s e).1)
        (omega arith, omega arith);
  apart = λ i j s t e f d. absurd (d ((only_slot i s e).0 ∙ sym (only_slot j t f).0));
}

new_texts-KeyedOnce : KeyedOnce new_texts
new_texts-KeyedOnce = (λ u h. absurd h.lower, tt)

rewrite_all_example :
    (es : List Edit) × IsSpliced 0 es chat_body (rewrite chat_view new_texts)
    × ((e : Edit) → Has e es → IsOffered (chat_slot ∷ []) new_texts e)
    × ((index : ℕ) (text : Bytes) (slot : TextSlot)
        → Has (pos index, text) new_texts
        → slot_at (chat_slot ∷ []) index ≡ some slot
        → Has (edit_of slot text) es)
rewrite_all_example = rewrite_all chat_view new_texts chat_view-IsApart new_texts-KeyedOnce

abbrev own_texts : List (ℤ × Bytes)
own_texts = (pos 0, codes "hi") ∷ []

own_text :
    (index : ℕ) (text : Bytes) (slot : TextSlot)
    → Has (pos index, text) own_texts
    → slot_at (chat_slot ∷ []) index ≡ some slot
    → marshal_string text ≡ slice slot.start slot.end chat_body
unfolding marshal_string escape_from utf8_width escape_unit escape_ascii
own_text index text slot (inr h) found = absurd h.lower
own_text index text slot (inl same) found =
    subst (λ t. marshal_string t ≡ slice slot.start slot.end chat_body) (ap (λ r. r.1) same)
      (subst (λ s. marshal_string (codes "hi") ≡ slice s.start s.end chat_body)
        (sym (only_slot index slot found).1) refl)

rewrite_own_example : rewrite chat_view own_texts ≡ chat_body
rewrite_own_example = rewrite_own chat_view own_texts own_text

abbrev two_texts : List (ℤ × Bytes)
two_texts = (pos 0, codes "a") ∷ (pos 1, codes "b") ∷ []

abbrev swapped_texts : List (ℤ × Bytes)
swapped_texts = (pos 1, codes "b") ∷ (pos 0, codes "a") ∷ []

zero≢one : ◌≢◌ {A = ℕ} 0 1
zero≢one e = omega arith

two_texts-SameMap : SameMap two_texts swapped_texts
two_texts-SameMap =
    swapped (pos 0, codes "a") (pos 1, codes "b") [] (λ e. absurd (zero≢one (ap pos_part e)))

rewrite-SameMap_example : rewrite chat_view two_texts ≡ rewrite chat_view swapped_texts
rewrite-SameMap_example =
    rewrite-SameMap chat_view two_texts swapped_texts chat_view-IsApart two_texts-SameMap
