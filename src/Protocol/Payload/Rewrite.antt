-- ===== src/Protocol/Payload/Rewrite.antt =====
-- internal/protocol/payload.go: `Rewrite`, which replaces the texts of slots.
use cpa_plugin_token_saver.Common.{
  Bool, List, Option, [], drop, false, if◌then◌else◌, length, ltb, negsuc, none, pos, some, suc,
  true, zero, ℕ, ℤ, ◌++◌, ◌+◌, ◌-◌, ◌==◌, ◌||◌, ◌∷◌,
}
use cpa_plugin_token_saver.Text.{Bytes}
use cpa_plugin_token_saver.Json.Marshal.{marshal_string}
use cpa_plugin_token_saver.Protocol.Payload.{Payload, TextSlot, slice}
pub mod Spliced
pub mod Offered
pub mod Apart
pub mod Laws
pub mod Walked

pub record Edit : Type 0 where
  pub start : ℕ
  pub end : ℕ
  pub raw : Bytes

unfoldable pub slot_at : List TextSlot → ℕ → Option TextSlot
slot_at [] index = none
slot_at (slot ∷ slots) zero = some slot
slot_at (slot ∷ slots) (suc index) = slot_at slots index

-- The first loop. The replacements stand in the order in which the map is walked, which is any.
unfoldable pub edits_of : List TextSlot → List (ℤ × Bytes) → List Edit
unfolding slot_at
edits_of slots [] = []
edits_of slots ((negsuc n, text) ∷ left) = edits_of slots left
edits_of slots ((pos index, text) ∷ left) =
    let rest = edits_of slots left in
    elim (slot_at slots index) [
      | none ↦ rest
      | some slot ↦ record { start = slot.start; end = slot.end; raw = marshal_string text } ∷ rest
    ]

-- sort.Slice by the start. Where two edits have one start their order is any, as that of the map is.
unfoldable pub insert_edit : Edit → List Edit → List Edit
insert_edit e [] = e ∷ []
insert_edit e (f ∷ fs) =
    let rest = insert_edit e fs in if ltb f.start e.start then f ∷ rest else e ∷ f ∷ fs

unfoldable pub sort_edits : List Edit → List Edit
unfolding insert_edit
sort_edits [] = []
sort_edits (e ∷ es) = insert_edit e (sort_edits es)

abbrev pub is_misplaced : ℕ → ℕ → Edit → Bool
is_misplaced size previous_end e = ltb e.start previous_end || ltb e.end e.start || ltb size e.end

-- The second loop: the edits that are kept.
unfoldable pub valid_edits : ℕ → ℕ → List Edit → List Edit
valid_edits size previous_end [] = []
valid_edits size previous_end (e ∷ es) = elim (is_misplaced size previous_end e) [
  | true ↦ valid_edits size previous_end es
  | false ↦ e ∷ valid_edits size e.end es
]

-- The third loop and the tail.
unfoldable pub splice : Bytes → ℕ → List Edit → Bytes
splice raw previous_end [] = drop previous_end raw
splice raw previous_end (e ∷ es) = slice previous_end e.start raw ++ (e.raw ++ splice raw e.end es)

-- `outputLength`, the capacity that is made for the output.
unfoldable pub output_length : ℕ → List Edit → ℕ
output_length size [] = size
output_length size (e ∷ es) = output_length (size + length e.raw - (e.end - e.start)) es

abbrev pub planned_edits : Payload → List (ℤ × Bytes) → List Edit
planned_edits p replacements =
    valid_edits (length p.raw) 0 (sort_edits (edits_of p.slots replacements))

unfoldable pub rewrite : Payload → List (ℤ × Bytes) → Bytes
unfolding edits_of sort_edits valid_edits splice
rewrite p replacements =
    if length replacements == 0 || length p.raw == 0
    then p.raw
    else (if length (edits_of p.slots replacements) == 0
        then p.raw
        else (if length (planned_edits p replacements) == 0
            then p.raw
            else splice p.raw 0 (planned_edits p replacements)))
