-- ===== src/Protocol/Payload.antt =====
-- internal/protocol/payload.go: the recognized text fields of a payload. What gjson answers is an
-- argument. Offsets do not overflow an int: a body is in memory.
use cpa_plugin_token_saver.Common.{
  Bool, List, [], drop, if◌then◌else◌, length, ltb, negsuc, not, pos, suc, take, zero, ℕ, ◌%◌, ◌++◌,
  ◌+◌, ◌-◌, ◌/◌, ◌==◌, ◌||◌, ◌∷◌,
}
use cpa_plugin_token_saver.Json.{Gjson}
use cpa_plugin_token_saver.Text.{Bytes, bytes_eq, codes}
pub mod Views
pub mod Rewrite
pub mod IndexString

pub data SlotKind : Type 0 where
  slot_openai_chat slot_openai_responses slot_claude_messages slot_gemini : SlotKind

pub record TextSlot : Type 0 where
  pub text : Bytes
  pub result_id : Bytes
  pub kind : SlotKind
  pub error : Bool
  pub start : ℕ
  pub end : ℕ

pub record Payload : Type 0 where
  pub raw : Bytes
  pub slots : List TextSlot

-- s[start:end].
abbrev pub slice : ℕ → ℕ → Bytes → Bytes
slice start end s = take (end - start) (drop start s)

-- The loop over the digits, which are filled in from the back; an array of 20 of them.
unfoldable pub digits_from : ℕ → ℕ → Bytes → Bytes
digits_from zero index digits = digits
digits_from (suc room) index digits =
    let rest = digits_from room (index / 10) ((48 + index % 10) ∷ digits) in
    if index == 0 then digits else rest

unfoldable pub index_string : ℕ → Bytes
unfolding digits_from
index_string index = if ltb index 10 then (48 + index) ∷ [] else digits_from 20 index []

module _ (g : Gjson) where
  unfoldable pub string_at : Bytes → Bytes → Bytes
  string_at raw path =
      let result = g.get_bytes raw path in if not (g.is_string result) then [] else g.string result

  unfoldable pub is_error_object : Bytes → Bytes → Bool
  is_error_object raw base =
      g.truth (g.get_bytes raw (base ++ codes ".is_error"))
      || bytes_eq (string_at raw (base ++ codes ".status")) (codes "error")

  -- The last guard and the new slot of `add`, from the offset on.
  unfoldable pub add_at : Payload → g.Value → Bytes → SlotKind → Bool → ℕ → Payload
  add_at p result result_id kind error start =
      let end = start + length (g.raw result) in
      if ltb (length p.raw) end || not (bytes_eq (slice start end p.raw) (g.raw result))
      then p
      else record p {
        slots =
            p.slots
            ++ record {
              text = g.string result;
              result_id = result_id;
              kind = kind;
              error = error;
              start = start;
              end = end;
            }
              ∷ [];
      }

  unfoldable pub add : Payload → g.Value → Bytes → SlotKind → Bool → Payload
  add p result result_id kind error =
      if not (g.is_string result) then p else elim (g.index result) [
        | negsuc n ↦ p
        | pos start ↦ add_at p result result_id kind error start
      ]

  -- A loop over an array, with the index of each element.
  unfoldable pub for_each : (ℕ → g.Value → Payload → Payload) → ℕ → List g.Value → Payload → Payload
  for_each step i [] p = p
  for_each step i (v ∷ vs) p = for_each step (suc i) vs (step i v p)
