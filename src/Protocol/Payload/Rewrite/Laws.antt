-- ===== src/Protocol/Payload/Rewrite/Laws.antt =====
-- What `Rewrite` comes to.
use cpa_plugin_token_saver.Common.{
  Bool-cases, List, [], ap, arith, false, if◌then◌else◌, inl, inr, length, pos, refl, some, subst,
  ℕ, ℤ, ◌+◌, ◌-◌, ◌<◌, ◌==◌, ◌∙◌, ◌∷◌, ◌≡◌,
}
use cpa_plugin_token_saver.Text.{Bytes}
use cpa_plugin_token_saver.Json.Marshal.{marshal_string}
use cpa_plugin_token_saver.Protocol.Payload.{Payload, TextSlot, slice}
use cpa_plugin_token_saver.Protocol.Payload.Rewrite.{
  Edit, edits_of, output_length, planned_edits, rewrite, slot_at, sort_edits, splice, valid_edits,
}
use cpa_plugin_token_saver.Protocol.Payload.Rewrite.Apart.{
  IsApart, KeyedOnce, sort_edits-Ordered, valid_edits-Ordered_same,
}
use cpa_plugin_token_saver.Protocol.Payload.Rewrite.Offered.{
  Has, IsOffered, edit_of, edits_of-Has, planned_edits-IsOffered, sort_edits-Has,
}
use cpa_plugin_token_saver.Protocol.Payload.Rewrite.Spliced.{
  AllSame, IsSpliced, output_length-splice, splice-IsSpliced, splice_same, valid_edits-Ordered,
}

cons_filled {ℓ} : {A : Type ℓ} (a : A) (l : List A) → (length (a ∷ l) == 0) ≡ false
cons_filled a l = ground arith

none_valid :
    (raw : Bytes) (es : List Edit)
    → (if length es == 0 then raw else splice raw 0 es) ≡ splice raw 0 es
unfolding splice
none_valid raw [] = refl
none_valid raw (e ∷ es) = rw (cons_filled e es) refl

none_left :
    (raw : Bytes) (es : List Edit)
    → (if length es == 0
        then raw
        else (if length (valid_edits (length raw) 0 (sort_edits es)) == 0
            then raw
            else splice raw 0 (valid_edits (length raw) 0 (sort_edits es))))
      ≡ splice raw 0 (valid_edits (length raw) 0 (sort_edits es))
unfolding valid_edits sort_edits splice
none_left raw [] = refl
none_left raw (e ∷ es) =
    rw (cons_filled e es) (none_valid raw (valid_edits (length raw) 0 (sort_edits (e ∷ es))))

pub rewrite-splice :
    (p : Payload) (replacements : List (ℤ × Bytes))
    → rewrite p replacements
      ≡ (if length p.raw == 0 then p.raw else splice p.raw 0 (planned_edits p replacements))
unfolding rewrite splice edits_of sort_edits valid_edits
rewrite-splice p [] = elim (Bool-cases (length p.raw == 0)) [
  | inl empty ↦ rw (empty, rewrite) refl
  | inr filled ↦ rw (filled, rewrite) refl
]
rewrite-splice p (r ∷ left) = elim (Bool-cases (length p.raw == 0)) [
  | inl empty ↦ rw (cons_filled r left, empty, rewrite) refl
  | inr filled ↦
      rw (cons_filled r left, filled, rewrite) (none_left p.raw (edits_of p.slots (r ∷ left)))
]

-- A payload without bytes has no edit that is made.
abbrev made_edits : Payload → List (ℤ × Bytes) → List Edit
made_edits p replacements = if length p.raw == 0 then [] else planned_edits p replacements

rewrite-made_edits :
    (p : Payload) (replacements : List (ℤ × Bytes))
    → IsSpliced 0 (made_edits p replacements) p.raw (rewrite p replacements)
rewrite-made_edits p replacements = elim (Bool-cases (length p.raw == 0)) [
  | inl empty ↦ rw (rewrite-splice p replacements, empty) refl
  | inr filled ↦
      rw (rewrite-splice p replacements, filled)
        (splice-IsSpliced p.raw 0 (planned_edits p replacements)
          (valid_edits-Ordered (length p.raw) 0 _ (omega arith)))
]

made_edits-IsOffered :
    (p : Payload) (replacements : List (ℤ × Bytes)) (e : Edit)
    → Has e (made_edits p replacements)
    → IsOffered p.slots replacements e
made_edits-IsOffered p replacements e = elim (Bool-cases (length p.raw == 0)) [
  | inl empty ↦ rw (empty) (λ h. absurd h.lower)
  | inr filled ↦ rw (filled) (planned_edits-IsOffered p replacements e)
]

-- `Rewrite` only splices edits into the payload, each of which writes a replacement at its slot.
pub rewrite-IsSpliced :
    (p : Payload) (replacements : List (ℤ × Bytes))
    → (es : List Edit) × IsSpliced 0 es p.raw (rewrite p replacements)
      × ((e : Edit) → Has e es → IsOffered p.slots replacements e)
rewrite-IsSpliced p replacements = (
  made_edits p replacements,
  rewrite-made_edits p replacements,
  made_edits-IsOffered p replacements,
)

pub planned_edits-IsApart :
    (p : Payload) (replacements : List (ℤ × Bytes))
    → IsApart p
    → KeyedOnce replacements
    → planned_edits p replacements ≡ sort_edits (edits_of p.slots replacements)
planned_edits-IsApart p replacements clear distinct =
    valid_edits-Ordered_same (length p.raw) 0 (sort_edits (edits_of p.slots replacements))
      (sort_edits-Ordered p replacements clear distinct)

made_edits-Has :
    (p : Payload) (replacements : List (ℤ × Bytes))
    → IsApart p
    → KeyedOnce replacements
    → (index : ℕ) (text : Bytes) (slot : TextSlot) → Has (pos index, text) replacements
    → slot_at p.slots index ≡ some slot
    → Has (edit_of slot text) (made_edits p replacements)
made_edits-Has p replacements clear distinct index text slot asked found =
    let (some_byte, inside) = clear.filled index slot found in
    let filled : (length p.raw == 0) ≡ false = (ground arith) in
    rw (filled, planned_edits-IsApart p replacements clear distinct)
      ((sort_edits-Has (edit_of slot text) (edits_of p.slots replacements)).1
        (edits_of-Has p.slots replacements index text slot asked found))

-- If the slots stand apart and each key of the map occurs once, `Rewrite` is the payload with edits
-- spliced in, which all write a replacement at its slot, and every replacement of a slot is among
-- them.
pub rewrite_all :
    (p : Payload) (replacements : List (ℤ × Bytes))
    → IsApart p
    → KeyedOnce replacements
    → (es : List Edit) × IsSpliced 0 es p.raw (rewrite p replacements)
      × ((e : Edit) → Has e es → IsOffered p.slots replacements e)
      × ((index : ℕ) (text : Bytes) (slot : TextSlot)
          → Has (pos index, text) replacements
          → slot_at p.slots index ≡ some slot
          → Has (edit_of slot text) es)
rewrite_all p replacements clear distinct = (
  made_edits p replacements,
  rewrite-made_edits p replacements,
  made_edits-IsOffered p replacements,
  λ index text slot asked found.
      made_edits-Has p replacements clear distinct index text slot asked found,
)

offered-AllSame :
    (p : Payload) (replacements : List (ℤ × Bytes)) (es : List Edit)
    → ((index : ℕ) (text : Bytes) (slot : TextSlot)
        → Has (pos index, text) replacements
        → slot_at p.slots index ≡ some slot
        → marshal_string text ≡ slice slot.start slot.end p.raw)
    → ((e : Edit) → Has e es → IsOffered p.slots replacements e)
    → AllSame p.raw es
offered-AllSame p replacements [] own offered = tt
offered-AllSame p replacements (e ∷ es) own offered =
    let (index, text, slot, asked, found, same) = offered e (inl refl) in
    (
      subst (λ f. f.raw ≡ slice f.start f.end p.raw) same (own index text slot asked found),
      offered-AllSame p replacements es own (λ f h. offered f (inr h)),
    )

-- If every replacement is encoded as what stands at its slot, `Rewrite` gives the payload back byte
-- for byte.
pub rewrite_own :
    (p : Payload) (replacements : List (ℤ × Bytes))
    → ((index : ℕ) (text : Bytes) (slot : TextSlot)
        → Has (pos index, text) replacements
        → slot_at p.slots index ≡ some slot
        → marshal_string text ≡ slice slot.start slot.end p.raw)
    → rewrite p replacements ≡ p.raw
rewrite_own p replacements own = elim (Bool-cases (length p.raw == 0)) [
  | inl empty ↦ rw (rewrite-splice p replacements, empty) refl
  | inr filled ↦
      rw (rewrite-splice p replacements, filled)
        (splice_same p.raw 0 (planned_edits p replacements)
          (valid_edits-Ordered (length p.raw) 0 _ (omega arith))
          (offered-AllSame p replacements (planned_edits p replacements) own
            (planned_edits-IsOffered p replacements)))
]

-- The capacity that is made for the output is its length.
pub output_length-rewrite :
    (p : Payload) (replacements : List (ℤ × Bytes))
    → 0 < length p.raw
    → output_length (length p.raw) (planned_edits p replacements) ≡ length (rewrite p replacements)
output_length-rewrite p replacements h =
    let filled : (length p.raw == 0) ≡ false = (ground arith) in
    let whole : length p.raw ≡ 0 + (length p.raw - 0) = (omega arith) in
    rw (rewrite-splice p replacements, filled)
      (ap (λ n. output_length n (planned_edits p replacements)) whole
        ∙ output_length-splice p.raw 0 0 (planned_edits p replacements)
            (valid_edits-Ordered (length p.raw) 0 _ (omega arith))
        ∙ omega arith)
