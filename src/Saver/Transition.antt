-- ===== src/Saver/Transition.antt =====
-- internal/saver/pipeline.go, `validRTKTransition`: what the first stage may change.
use cpa_plugin_token_saver.Common.{
  Bool, Bool-cases, List, Option, Option-cases, [], false, false≢true, if◌then◌else◌, inl, inr,
  length, none, not, pos, refl, some, subst, suc, sym, true, ℕ, ℤ, ◌==◌, ◌||◌, ◌∙◌, ◌∷◌, ◌≡◌, ◌⊎◌,
}
use cpa_plugin_token_saver.Json.{Gjson}
use cpa_plugin_token_saver.Protocol.{Pair}
use cpa_plugin_token_saver.Text.{Bytes, bytes_eq, bytes_eq_sound}
use cpa_plugin_token_saver.Protocol.Payload.{
  Payload, SlotKind, TextSlot, slot_claude_messages, slot_gemini, slot_openai_chat,
  slot_openai_responses,
}
use cpa_plugin_token_saver.Protocol.Payload.Rewrite.{Edit, rewrite}
use cpa_plugin_token_saver.Protocol.Payload.Views.{view}
use cpa_plugin_token_saver.Protocol.Payload.Rewrite.Laws.{rewrite-IsSpliced}
use cpa_plugin_token_saver.Protocol.Payload.Rewrite.Offered.{Has, IsOffered}
use cpa_plugin_token_saver.Protocol.Payload.Rewrite.Spliced.{IsSpliced}
use cpa_plugin_token_saver.Protocol.Payload.Views.Target.{view-IsView}

unfoldable pub same_kind : SlotKind → SlotKind → Bool
same_kind slot_openai_chat slot_openai_chat = true
same_kind slot_openai_responses slot_openai_responses = true
same_kind slot_claude_messages slot_claude_messages = true
same_kind slot_gemini slot_gemini = true
same_kind _ _ = false

unfoldable pub same_bool : Bool → Bool → Bool
same_bool true b = b
same_bool false b = not b

-- The test of one pair of slots.
unfoldable pub is_other_slot : TextSlot → TextSlot → Bool
unfolding same_kind same_bool
is_other_slot before after =
    not (bytes_eq before.result_id after.result_id)
    || not (same_kind before.kind after.kind)
    || not (same_bool before.error after.error)

-- The loop over the slots; none where it returns false.
unfoldable pub changed_texts : ℕ → List TextSlot → List TextSlot → Option (List (ℤ × Bytes))
unfolding is_other_slot
changed_texts index [] afters = some []
changed_texts index (before ∷ befores) [] = none
changed_texts index (before ∷ befores) (after ∷ afters) =
    let rest = changed_texts (suc index) befores afters in
    if is_other_slot before after then none else elim rest [
      | none ↦ none
      | some replacements ↦ some (
          if bytes_eq before.text after.text
          then replacements
          else (pos index, after.text) ∷ replacements)
    ]

module _ (g : Gjson) where
  unfoldable pub matches_views : Payload → Payload → Bytes → Bool
  unfolding changed_texts
  matches_views before_view after_view after =
      if not (length before_view.slots == length after_view.slots)
      then false
      else elim (changed_texts 0 before_view.slots after_view.slots) [
        | none ↦ false
        | some replacements ↦ bytes_eq (rewrite before_view replacements) after
      ]

  unfoldable pub valid_rtk_transition : Bytes → Bytes → Pair → Bool
  unfolding matches_views
  valid_rtk_transition before after route =
      if bytes_eq before after then true else elim (view g before route) [
        | none ↦ false
        | some before_view ↦ elim (view g after route) [
          | none ↦ false
          | some after_view ↦ matches_views before_view after_view after
        ]
      ]

  -- The new body is the old one with other texts at some slots of its view.
  abbrev pub IsRetexted : Bytes → Bytes → Pair → Type 0
  IsRetexted before after route =
      (p : Payload) × (replacements : List (ℤ × Bytes)) × (es : List Edit) × (view g before route
        ≡ some p)
      × IsSpliced 0 es before after
      × ((e : Edit) → Has e es → IsOffered p.slots replacements e)

  matches_views-IsRetexted :
      (before after : Bytes) (route : Pair) (p q : Payload)
      → view g before route ≡ some p
      → matches_views p q after ≡ true
      → IsRetexted before after route
  unfolding matches_views
  matches_views-IsRetexted before after route p q viewed =
      elim (Bool-cases (length p.slots == length q.slots)) [
        | inr longer ↦ rw (longer, matches_views) (λ e. absurd (false≢true e))
        | inl paired ↦ elim (Option-cases (changed_texts 0 p.slots q.slots)) [
          | inl changed ↦ rw (paired, changed, matches_views) (λ e. absurd (false≢true e))
          | inr (replacements, changed) ↦
              rw (paired, changed, matches_views)
                (λ e.
                  let out = bytes_eq_sound (rewrite p replacements) after e in
                  let (es, spliced, offered) = rewrite-IsSpliced p replacements in
                  let body = (view-IsView g before route p viewed).same in
                  (
                    p,
                    replacements,
                    es,
                    viewed,
                    subst (λ raw. IsSpliced 0 es raw after) body
                        (subst (IsSpliced 0 es p.raw) out spliced),
                    offered,
                  ))
        ]
      ]

  -- A transition that is accepted keeps the body, or only splices other texts into slots of its
  -- view.
  pub valid_rtk_transition-IsRetexted :
      (before after : Bytes) (route : Pair)
      → valid_rtk_transition before after route ≡ true
      → (before ≡ after) ⊎ IsRetexted before after route
  unfolding valid_rtk_transition
  valid_rtk_transition-IsRetexted before after route = elim (Bool-cases (bytes_eq before after)) [
    | inl same ↦ λ e. inl (bytes_eq_sound before after same)
    | inr differ ↦ elim (Option-cases (view g before route)) [
      | inl unseen ↦ rw (differ, unseen, valid_rtk_transition) (λ e. absurd (false≢true e))
      | inr (p, seen) ↦ elim (Option-cases (view g after route)) [
        | inl lost ↦ rw (differ, seen, lost, valid_rtk_transition) (λ e. absurd (false≢true e))
        | inr (q, found) ↦
            let judged : valid_rtk_transition before after route ≡ matches_views p q after =
              (rw (differ, seen, found, valid_rtk_transition) refl) in
            λ e. inr (matches_views-IsRetexted before after route p q seen (sym judged ∙ e))
      ]
    ]
  ]
