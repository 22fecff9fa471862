-- ===== src/Rtk/Apply/Applied.antt =====
-- What `Apply` comes to.
use cpa_plugin_token_saver.Common.{
  List, Option, Option-cases, ap, arith, inl, inr, pos, pos_part, refl, some, some-injective, subst,
  sym, ℕ, ◌+◌, ◌↔◌, ◌∙◌, ◌≡◌, ◌⊎◌,
}
use cpa_plugin_token_saver.Json.{Gjson}
use cpa_plugin_token_saver.Protocol.{Pair}
use cpa_plugin_token_saver.Rtk.{Filter}
use cpa_plugin_token_saver.Text.{Bytes}
use cpa_plugin_token_saver.Protocol.Payload.{Payload, TextSlot}
use cpa_plugin_token_saver.Rtk.Apply.{apply, replacements_from}
use cpa_plugin_token_saver.Protocol.Payload.Rewrite.{Edit, rewrite, slot_at}
use cpa_plugin_token_saver.Protocol.Payload.Views.{view}
use cpa_plugin_token_saver.Rtk.Apply.Chosen.{
  IsCompressed, replacements_from-Has, replacements_from-IsCompressed, replacements_from-KeyedOnce,
}
use cpa_plugin_token_saver.Protocol.Payload.Rewrite.Apart.{IsApart}
use cpa_plugin_token_saver.Protocol.Payload.Rewrite.Laws.{rewrite-IsSpliced, rewrite_all}
use cpa_plugin_token_saver.Protocol.Payload.Rewrite.Offered.{Has, IsOffered, edit_of}
use cpa_plugin_token_saver.Protocol.Payload.Rewrite.Spliced.{IsSpliced}
use cpa_plugin_token_saver.Protocol.Payload.Views.Target.{view-IsView}

module _ (g : Gjson) (detect : Bytes → Option Filter) where
  -- The edit writes the compressed text of a slot without an error.
  abbrev pub IsChosen : List TextSlot → Edit → Type 0
  IsChosen slots e =
      (index : ℕ) × (slot : TextSlot) × (text : Bytes) × (slot_at slots index ≡ some slot)
      × IsCompressed g detect slot text
      × (edit_of slot text ≡ e)

  -- What `Apply` may come to: the body, or the body with edits spliced in.
  abbrev pub IsApplied : Bytes → Pair → (Payload → List Edit → Type 0) → Type 0
  IsApplied body route Holds =
      (apply g detect body route ≡ body)
      ⊎ ((p : Payload) × (es : List Edit) × (view g body route ≡ some p)
          × IsSpliced 0 es body (apply g detect body route)
          × Holds p es)

  offered-IsChosen :
      (p : Payload) (e : Edit)
      → IsOffered p.slots (replacements_from g detect 0 p.slots) e
      → IsChosen p.slots e
  offered-IsChosen p e (index, text, slot, asked, found, same) =
      let (j, s, key, there, good) =
        replacements_from-IsCompressed g detect 0 p.slots (pos index) text asked in
      let number : index ≡ j = ap pos_part key ∙ omega arith in
      let one_slot : s ≡ slot =
        some-injective (sym there ∙ ap (slot_at p.slots) (sym number) ∙ found) in
      (index, slot, text, found, subst (λ x. IsCompressed g detect x text) one_slot good, same)

  applied_splice :
      (body : Bytes) (route : Pair) (p : Payload) (es : List Edit)
      → view g body route ≡ some p
      → IsSpliced 0 es p.raw (rewrite p (replacements_from g detect 0 p.slots))
      → IsSpliced 0 es body (apply g detect body route)
  unfolding apply
  applied_splice body route p es seen spliced =
      let out : rewrite p (replacements_from g detect 0 p.slots) ≡ apply g detect body route =
        (rw (seen, apply) refl) in
      subst (λ raw. IsSpliced 0 es raw (apply g detect body route))
        (view-IsView g body route p seen).same (subst (IsSpliced 0 es p.raw) out spliced)

  chosen_made :
      (p : Payload) (es : List Edit)
      → ((index : ℕ) (text : Bytes) (slot : TextSlot)
          → Has (pos index, text) (replacements_from g detect 0 p.slots)
          → slot_at p.slots index ≡ some slot
          → Has (edit_of slot text) es)
      → (e : Edit) → IsChosen p.slots e
      → Has e es
  chosen_made p es made e (index, slot, text, found, good, same) =
      let asked : Has (pos (0 + index), text) (replacements_from g detect 0 p.slots) =
        replacements_from-Has g detect 0 index p.slots slot text found good in
      let key : 0 + index ≡ index = (omega arith) in
      subst (λ x. Has x es) same
        (made index text slot
          (subst (λ n. Has (pos n, text) (replacements_from g detect 0 p.slots)) key asked) found)

  -- `Apply` gives the body back, or the body with edits spliced in, each of which writes the
  -- compressed text of a slot without an error at this slot.
  pub apply-IsApplied :
      (body : Bytes) (route : Pair)
      → IsApplied body route (λ p es. (e : Edit) → Has e es → IsChosen p.slots e)
  unfolding apply
  apply-IsApplied body route = elim (Option-cases (view g body route)) [
    | inl unseen ↦ inl (rw (unseen, apply) refl)
    | inr (p, seen) ↦
        let (es, spliced, offered) = rewrite-IsSpliced p (replacements_from g detect 0 p.slots) in
        inr (
          p,
          es,
          seen,
          applied_splice body route p es seen spliced,
          λ e h. offered-IsChosen p e (offered e h),
        )
  ]

  -- If the slots of the body's view stand apart, `Apply` is the body with a set of edits spliced
  -- in, and these are exactly the edits that write, at each slot without an error, the compressed
  -- text, where there is one.
  pub apply_all :
      (body : Bytes) (route : Pair) (p : Payload)
      → view g body route ≡ some p
      → IsApart p
      → (es : List Edit) × IsSpliced 0 es body (apply g detect body route)
        × ((e : Edit) → Has e es ↔ IsChosen p.slots e)
  unfolding apply
  apply_all body route p seen clear =
      let keys = replacements_from g detect 0 p.slots in
      let (es, spliced, offered, made) =
        rewrite_all p keys clear (replacements_from-KeyedOnce g detect 0 p.slots) in
      (
        es,
        applied_splice body route p es seen spliced,
        λ e. (λ h. offered-IsChosen p e (offered e h), chosen_made p es made e),
      )
