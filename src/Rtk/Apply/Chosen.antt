-- ===== src/Rtk/Apply/Chosen.antt =====
-- The replacements that `Apply` makes: one for each slot without an error whose text is compressed.
use cpa_plugin_token_saver.Common.{
  Bool, Bool-cases, List, Option, [], ap, arith, false, inl, inr, none≢some, pos, pos_part, refl,
  some, some-injective, subst, suc, sym, true, zero, ℕ, ℤ, ◌+◌, ◌∙◌, ◌∷◌, ◌≡◌,
}
use cpa_plugin_token_saver.Json.{Gjson}
use cpa_plugin_token_saver.Rtk.{Filter}
use cpa_plugin_token_saver.Text.{Bytes}
use cpa_plugin_token_saver.Protocol.Payload.{TextSlot}
use cpa_plugin_token_saver.Rtk.Apply.{compress_text, replacements_from}
use cpa_plugin_token_saver.Protocol.Payload.Rewrite.{slot_at}
use cpa_plugin_token_saver.Protocol.Payload.Rewrite.Apart.{KeyedOnce}
use cpa_plugin_token_saver.Protocol.Payload.Rewrite.Offered.{Has}

module _ (g : Gjson) (detect : Bytes → Option Filter) where
  -- The replacement is the compressed text of a slot without an error.
  abbrev pub IsCompressed : TextSlot → Bytes → Type 0
  IsCompressed slot text = (slot.error ≡ false) × (compress_text g detect slot.text ≡ (text, true))

  abbrev IsFound : ℕ → List TextSlot → ℤ → Bytes → Type 0
  IsFound index slots key text =
      (j : ℕ) × (slot : TextSlot) × (key ≡ pos (index + j))
      × (slot_at slots j ≡ some slot)
      × IsCompressed slot text

  deeper :
      (index : ℕ) (slot : TextSlot) (slots : List TextSlot) (key : ℤ) (text : Bytes)
      → IsFound (suc index) slots key text
      → IsFound index (slot ∷ slots) key text
  unfolding slot_at
  deeper index slot slots key text (j, s, at, found, good) =
      (suc j, s, at ∙ ap pos (omega arith), found, good)

  abbrev pairing : Bytes → Bool → Bytes × Bool
  pairing candidate replace = (candidate, replace)

  same_pair :
      (result : Bytes × Bool) (text : Bytes)
      → result.0 ≡ text
      → result.1 ≡ true
      → result ≡ (text, true)
  same_pair (a, b) text e f = ap (λ x. pairing x b) e ∙ ap (pairing text) f

  pub replacements_from-IsCompressed :
      (index : ℕ) (slots : List TextSlot) (key : ℤ) (text : Bytes)
      → Has (key, text) (replacements_from g detect index slots)
      → IsFound index slots key text
  unfolding replacements_from slot_at
  replacements_from-IsCompressed index [] key text = λ h. absurd h.lower
  replacements_from-IsCompressed index (slot ∷ slots) key text =
      let below = replacements_from-IsCompressed (suc index) slots key text in
      let rest = replacements_from g detect (suc index) slots in
      elim (Bool-cases slot.error) [
        | inl failing ↦
            let skipped : replacements_from g detect index (slot ∷ slots) ≡ rest =
              (rw (failing, replacements_from) refl) in
            λ h. deeper index slot slots key text (below (subst (Has (key, text)) skipped h))
        | inr fine ↦ elim (Bool-cases (compress_text g detect slot.text).1) [
          | inr unchanged ↦
              let skipped : replacements_from g detect index (slot ∷ slots) ≡ rest =
                (rw (fine, unchanged, replacements_from) refl) in
              λ h. deeper index slot slots key text (below (subst (Has (key, text)) skipped h))
          | inl changed ↦
              let begun : replacements_from g detect index (slot ∷ slots)
                  ≡ (pos index, (compress_text g detect slot.text).0) ∷ rest =
                (rw (fine, changed, replacements_from) refl) in
              λ h. elim (subst (Has (key, text)) begun h) [
                | inl same ↦ (
                  0,
                  slot,
                  sym (ap (λ r. r.0) same) ∙ ap pos (omega arith),
                  refl,
                  (
                    fine,
                    same_pair (compress_text g detect slot.text) text (ap (λ r. r.1) same) changed,
                  ),
                )
                | inr further ↦ deeper index slot slots key text (below further)
              ]
        ]
      ]

  pub replacements_from-Has :
      (index j : ℕ) (slots : List TextSlot) (slot : TextSlot) (text : Bytes)
      → slot_at slots j ≡ some slot
      → IsCompressed slot text
      → Has (pos (index + j), text) (replacements_from g detect index slots)
  unfolding replacements_from slot_at
  replacements_from-Has index j [] slot text found good = absurd (none≢some found)
  replacements_from-Has index zero (s ∷ slots) slot text found (fine, changed) =
      let here : slot ≡ s = sym (some-injective found) in
      let calm : s.error ≡ false = subst (λ x. x.error ≡ false) here fine in
      let answer : compress_text g detect s.text ≡ (text, true) =
        subst (λ x. compress_text g detect x.text ≡ (text, true)) here changed in
      let begun : replacements_from g detect index (s ∷ slots)
          ≡ (pos index, text) ∷ replacements_from g detect (suc index) slots =
        (rw (calm, answer, replacements_from) refl) in
      let key : pos index ≡ pos (index + 0) = ap pos (omega arith) in
      subst (Has (pos (index + 0), text)) (sym begun) (inl (ap (λ k. (k, text)) key))
  replacements_from-Has index (suc j) (s ∷ slots) slot text found good =
      let key : suc index + j ≡ index + suc j = (omega arith) in
      let below : Has (pos (index + suc j), text) (replacements_from g detect (suc index) slots) =
        subst (λ n. Has (pos n, text) (replacements_from g detect (suc index) slots)) key
          (replacements_from-Has (suc index) j slots slot text found good) in
      elim (Bool-cases s.error) [
        | inl failing ↦ rw (failing, replacements_from) below
        | inr fine ↦ elim (Bool-cases (compress_text g detect s.text).1) [
          | inr unchanged ↦ rw (fine, unchanged, replacements_from) below
          | inl changed ↦ rw (fine, changed, replacements_from) (inr below)
        ]
      ]

  later_keys :
      (index : ℕ) (slots : List TextSlot) (u : Bytes)
      → Has (pos index, u) (replacements_from g detect (suc index) slots)
      → ⊥
  later_keys index slots u h =
      let (j, slot, key, found, good) =
        replacements_from-IsCompressed (suc index) slots (pos index) u h in
      let number : index ≡ suc index + j = ap pos_part key in omega arith

  pub replacements_from-KeyedOnce :
      (index : ℕ) (slots : List TextSlot) → KeyedOnce (replacements_from g detect index slots)
  unfolding replacements_from
  replacements_from-KeyedOnce index [] = tt
  replacements_from-KeyedOnce index (s ∷ slots) =
      let below = replacements_from-KeyedOnce (suc index) slots in
      elim (Bool-cases s.error) [
        | inl failing ↦ rw (failing, replacements_from) below
        | inr fine ↦ elim (Bool-cases (compress_text g detect s.text).1) [
          | inr unchanged ↦ rw (fine, unchanged, replacements_from) below
          | inl changed ↦ rw (fine, changed, replacements_from) (later_keys index slots, below)
        ]
      ]
