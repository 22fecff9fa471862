-- ===== src/Protocol/Payload/Rewrite/Offered.antt =====
-- Which replacements become edits, and which edits are left after the sort and the checks.
use cpa_plugin_token_saver.Common.{
  Bool-cases, List, Option-cases, [], ap, inl, inr, length, ltb, negsuc, negsuc≢pos, pos, pos_part,
  refl, some, ℕ, ℤ, ◌↔◌, ◌∙◌, ◌∷◌, ◌≡◌, ◌⊎◌,
}
use cpa_plugin_token_saver.Text.{Bytes}
use cpa_plugin_token_saver.Json.Marshal.{marshal_string}
use cpa_plugin_token_saver.Protocol.Payload.{Payload, TextSlot}
use cpa_plugin_token_saver.Protocol.Payload.Rewrite.{
  Edit, edits_of, insert_edit, is_misplaced, planned_edits, slot_at, sort_edits, valid_edits,
}
use mathlib.Core.Logic.{Lift}

abbrev pub Has {ℓ} : {A : Type ℓ} → A → List A → Type ℓ
Has a [] = Lift {0, ℓ} ⊥
Has a (b ∷ l) = (b ≡ a) ⊎ Has a l

abbrev pub edit_of : TextSlot → Bytes → Edit
edit_of slot text = record { start = slot.start; end = slot.end; raw = marshal_string text }

-- The edit writes a replacement that is asked for at its slot.
abbrev pub IsOffered : List TextSlot → List (ℤ × Bytes) → Edit → Type 0
IsOffered slots replacements e =
    (index : ℕ) × (text : Bytes) × (slot : TextSlot) × Has (pos index, text) replacements
    × (slot_at slots index ≡ some slot)
    × (edit_of slot text ≡ e)

later :
    (slots : List TextSlot) (r : ℤ × Bytes) (left : List (ℤ × Bytes)) (e : Edit)
    → IsOffered slots left e
    → IsOffered slots (r ∷ left) e
later slots r left e (index, text, slot, asked, found, same) =
    (index, text, slot, inr asked, found, same)

pub edits_of-IsOffered :
    (slots : List TextSlot) (replacements : List (ℤ × Bytes)) (e : Edit)
    → Has e (edits_of slots replacements)
    → IsOffered slots replacements e
unfolding edits_of
edits_of-IsOffered slots [] e = λ h. absurd h.lower
edits_of-IsOffered slots ((negsuc n, text) ∷ left) e =
    λ h. later slots _ left e (edits_of-IsOffered slots left e h)
edits_of-IsOffered slots ((pos index, text) ∷ left) e = elim (Option-cases (slot_at slots index)) [
  | inl none_there ↦
      rw (none_there, edits_of) (λ h. later slots _ left e (edits_of-IsOffered slots left e h))
  | inr (slot, found) ↦
      rw (found, edits_of)
        (λ h. elim h [
          | inl same ↦ (index, text, slot, inl refl, found, same)
          | inr further ↦ later slots _ left e (edits_of-IsOffered slots left e further)
        ])
]

pub edits_of-Has :
    (slots : List TextSlot) (replacements : List (ℤ × Bytes)) (index : ℕ) (text : Bytes)
    (slot : TextSlot)
    → Has (pos index, text) replacements
    → slot_at slots index ≡ some slot
    → Has (edit_of slot text) (edits_of slots replacements)
unfolding edits_of
edits_of-Has slots [] index text slot h found = absurd h.lower
edits_of-Has slots ((negsuc n, u) ∷ left) index text slot (inl e) found =
    absurd (negsuc≢pos (ap (λ r. r.0) e))
edits_of-Has slots ((negsuc n, u) ∷ left) index text slot (inr h) found =
    edits_of-Has slots left index text slot h found
edits_of-Has slots ((pos i, u) ∷ left) index text slot (inl e) found =
    let same : i ≡ index = ap (λ r. pos_part r.0) e in
    let there : slot_at slots i ≡ some slot = ap (slot_at slots) same ∙ found in
    rw (there, edits_of) (inl (ap (λ r. edit_of slot r.1) e))
edits_of-Has slots ((pos i, u) ∷ left) index text slot (inr h) found =
    elim (Option-cases (slot_at slots i)) [
      | inl none_there ↦ rw (none_there, edits_of) (edits_of-Has slots left index text slot h found)
      | inr (s, there) ↦
          rw (there, edits_of) (inr (edits_of-Has slots left index text slot h found))
    ]

pub insert_edit-Has : (a e : Edit) (es : List Edit) → Has e (insert_edit a es) ↔ Has e (a ∷ es)
unfolding insert_edit
insert_edit-Has a e [] = (λ h. h, λ h. h)
insert_edit-Has a e (f ∷ fs) = elim (Bool-cases (ltb f.start a.start)) [
  | inr stop ↦ rw (stop, insert_edit) (λ h. h, λ h. h)
  | inl beyond ↦
      let (there, back) = insert_edit-Has a e fs in
      rw (beyond, insert_edit)
        (
          λ h. elim h [
            | inl same ↦ inr (inl same)
            | inr further ↦ elim (there further) [ inl same ↦ inl same | inr rest ↦ inr (inr rest) ]
          ],
          λ h. elim h [
            | inl same ↦ inr (back (inl same))
            | inr further ↦ elim further [ inl same ↦ inl same | inr rest ↦ inr (back (inr rest)) ]
          ],
        )
]

pub sort_edits-Has : (e : Edit) (es : List Edit) → Has e (sort_edits es) ↔ Has e es
unfolding sort_edits
sort_edits-Has e [] = (λ h. h, λ h. h)
sort_edits-Has e (a ∷ es) =
    let (there, back) = insert_edit-Has a e (sort_edits es) in
    let (from_sorted, to_sorted) = sort_edits-Has e es in
    (
      λ h. elim (there h) [ inl same ↦ inl same | inr rest ↦ inr (from_sorted rest) ],
      λ h. elim h [ inl same ↦ back (inl same) | inr rest ↦ back (inr (to_sorted rest)) ],
    )

pub valid_edits-Has :
    (size offset : ℕ) (e : Edit) (es : List Edit) → Has e (valid_edits size offset es) → Has e es
unfolding valid_edits
valid_edits-Has size offset e [] = λ h. h
valid_edits-Has size offset e (f ∷ fs) = elim (Bool-cases (is_misplaced size offset f)) [
  | inl misplaced ↦ rw (misplaced, valid_edits) (λ h. inr (valid_edits-Has size offset e fs h))
  | inr placed ↦
      rw (placed, valid_edits)
        (λ h. elim h [
          | inl same ↦ inl same
          | inr rest ↦ inr (valid_edits-Has size f.end e fs rest)
        ])
]

pub planned_edits-IsOffered :
    (p : Payload) (replacements : List (ℤ × Bytes)) (e : Edit)
    → Has e (planned_edits p replacements)
    → IsOffered p.slots replacements e
planned_edits-IsOffered p replacements e h = edits_of-IsOffered p.slots replacements e (
    (sort_edits-Has e (edits_of p.slots replacements)).0
      (valid_edits-Has (length p.raw) 0 e (sort_edits (edits_of p.slots replacements)) h))
