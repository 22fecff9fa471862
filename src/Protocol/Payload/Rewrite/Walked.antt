-- ===== src/Protocol/Payload/Rewrite/Walked.antt =====
-- The order in which Go walks the map of replacements does not matter.
use cpa_plugin_token_saver.Common.{
  List, Option-cases, [], ap, arith, if◌then◌else◌, inl, inr, length, negsuc, none, pos, refl, some,
  sym, ℕ, ℤ, ◌==◌, ◌∙◌, ◌∷◌, ◌≡◌, ◌≢◌,
}
use cpa_plugin_token_saver.Text.{Bytes}
use cpa_plugin_token_saver.Protocol.Payload.{Payload, TextSlot}
use cpa_plugin_token_saver.Protocol.Payload.Rewrite.{
  edits_of, insert_edit, rewrite, slot_at, sort_edits, splice, valid_edits,
}
use cpa_plugin_token_saver.Protocol.Payload.Rewrite.Apart.{IsApart, insert_edit_comm}
use cpa_plugin_token_saver.Protocol.Payload.Rewrite.Laws.{rewrite-splice}
use cpa_plugin_token_saver.Protocol.Payload.Rewrite.Offered.{edit_of}

-- Two walks over one map, which has each key once.
pub data SameMap : List (ℤ × Bytes) → List (ℤ × Bytes) → Type 0 where
  no_entry : SameMap [] []
  same_entry :
      {xs ys : List (ℤ × Bytes)} (r : ℤ × Bytes) → SameMap xs ys → SameMap (r ∷ xs) (r ∷ ys)
  swapped :
      (r s : ℤ × Bytes) (xs : List (ℤ × Bytes)) → r.0 ≢ s.0 → SameMap (r ∷ s ∷ xs) (s ∷ r ∷ xs)
  walked_on : {xs ys zs : List (ℤ × Bytes)} → SameMap xs ys → SameMap ys zs → SameMap xs zs

unslotted :
    (slots : List TextSlot) (i : ℕ) (t : Bytes) (left : List (ℤ × Bytes))
    → slot_at slots i ≡ none
    → edits_of slots ((pos i, t) ∷ left) ≡ edits_of slots left
unfolding edits_of
unslotted slots i t left h = rw (h, edits_of) refl

slotted :
    (slots : List TextSlot) (i : ℕ) (t : Bytes) (left : List (ℤ × Bytes)) (slot : TextSlot)
    → slot_at slots i ≡ some slot
    → edits_of slots ((pos i, t) ∷ left) ≡ edit_of slot t ∷ edits_of slots left
unfolding edits_of
slotted slots i t left slot h = rw (h, edits_of) refl

-- Where one of the two entries names no slot, only the other makes an edit.
edits_of-unslotted_swap :
    (slots : List TextSlot) (i j : ℕ) (t u : Bytes) (left : List (ℤ × Bytes))
    → slot_at slots i ≡ none
    → edits_of slots ((pos i, t) ∷ (pos j, u) ∷ left)
      ≡ edits_of slots ((pos j, u) ∷ (pos i, t) ∷ left)
edits_of-unslotted_swap slots i j t u left h =
    unslotted slots i t _ h ∙ elim (Option-cases (slot_at slots j)) [
      | inl no_second ↦
          unslotted slots j u left no_second
          ∙ sym (unslotted slots j u _ no_second ∙ unslotted slots i t left h)
      | inr (b, found) ↦
          slotted slots j u left b found
          ∙ sym (slotted slots j u _ b found ∙ ap (◌∷◌ (edit_of b u)) (unslotted slots i t left h))
    ]

insert_edit-swap :
    (p : Payload) (i j : ℕ) (t u : Bytes) (left : List (ℤ × Bytes))
    → IsApart p
    → i ≢ j
    → sort_edits (edits_of p.slots ((pos i, t) ∷ (pos j, u) ∷ left))
      ≡ sort_edits (edits_of p.slots ((pos j, u) ∷ (pos i, t) ∷ left))
unfolding sort_edits
insert_edit-swap p i j t u left clear h = elim (Option-cases (slot_at p.slots i)) [
  | inl no_first ↦ ap sort_edits (edits_of-unslotted_swap p.slots i j t u left no_first)
  | inr (a, first_found) ↦ elim (Option-cases (slot_at p.slots j)) [
    | inl no_second ↦ ap sort_edits (sym (edits_of-unslotted_swap p.slots j i u t left no_second))
    | inr (b, second_found) ↦
        let (filled_a, _) = clear.filled i a first_found in
        let (filled_b, _) = clear.filled j b second_found in
        let side = clear.apart i j a b first_found second_found h in
        let apart : a.start ≢ b.start =
          (λ e. elim side [ inl before ↦ omega arith | inr after ↦ omega arith ]) in
        ap sort_edits (
          slotted p.slots i t _ a first_found
          ∙ ap (◌∷◌ (edit_of a t)) (slotted p.slots j u left b second_found))
        ∙ insert_edit_comm (edit_of a t) (edit_of b u) (sort_edits (edits_of p.slots left)) apart
        ∙ ap sort_edits (
            sym (
              slotted p.slots j u _ b second_found
              ∙ ap (◌∷◌ (edit_of b u)) (slotted p.slots i t left a first_found)))
  ]
]

any_swap :
    (p : Payload) (r s : ℤ × Bytes) (left : List (ℤ × Bytes))
    → IsApart p
    → r.0 ≢ s.0
    → sort_edits (edits_of p.slots (r ∷ s ∷ left)) ≡ sort_edits (edits_of p.slots (s ∷ r ∷ left))
unfolding edits_of
any_swap p (negsuc m, t) (negsuc n, u) left clear h = refl
any_swap p (negsuc m, t) (pos j, u) left clear h = refl
any_swap p (pos i, t) (negsuc n, u) left clear h = refl
any_swap p (pos i, t) (pos j, u) left clear h =
    insert_edit-swap p i j t u left clear (λ e. h (ap pos e))

keep_first :
    (p : Payload) (r : ℤ × Bytes) (xs ys : List (ℤ × Bytes))
    → sort_edits (edits_of p.slots xs) ≡ sort_edits (edits_of p.slots ys)
    → sort_edits (edits_of p.slots (r ∷ xs)) ≡ sort_edits (edits_of p.slots (r ∷ ys))
unfolding edits_of sort_edits
keep_first p (negsuc n, t) xs ys same = same
keep_first p (pos i, t) xs ys same = elim (Option-cases (slot_at p.slots i)) [
  | inl no_slot ↦ rw (no_slot, edits_of) same
  | inr (a, found) ↦ rw (found, edits_of, sort_edits) (ap (insert_edit (edit_of a t)) same)
]

sort_edits-SameMap :
    (p : Payload) (xs ys : List (ℤ × Bytes))
    → IsApart p
    → SameMap xs ys
    → sort_edits (edits_of p.slots xs) ≡ sort_edits (edits_of p.slots ys)
sort_edits-SameMap p _ _ clear no_entry = refl
sort_edits-SameMap p _ _ clear (same_entry r h) =
    keep_first p r _ _ (sort_edits-SameMap p _ _ clear h)
sort_edits-SameMap p _ _ clear (swapped r s xs h) = any_swap p r s xs clear h
sort_edits-SameMap p _ _ clear (walked_on h k) =
    sort_edits-SameMap p _ _ clear h ∙ sort_edits-SameMap p _ _ clear k

-- If the slots stand apart, the order in which the map of replacements is walked makes no
-- difference to `Rewrite`.
pub rewrite-SameMap :
    (p : Payload) (xs ys : List (ℤ × Bytes))
    → IsApart p
    → SameMap xs ys
    → rewrite p xs ≡ rewrite p ys
rewrite-SameMap p xs ys clear h =
    rewrite-splice p xs
    ∙ ap
        (λ es.
          if length p.raw == 0 then p.raw else splice p.raw 0 (valid_edits (length p.raw) 0 es))
        (sort_edits-SameMap p xs ys clear h)
    ∙ sym (rewrite-splice p ys)
