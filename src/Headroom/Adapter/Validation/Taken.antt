-- ===== src/Headroom/Adapter/Validation/Taken.antt =====
-- internal/headroom/adapter.go: the loop of `validate` over the targets, and the texts it takes.
use cpa_plugin_token_saver.Common.{
  List, Option, [], and_then-some, ap, append-nil, append_assoc, if_else-cases, inl, inr, length,
  none, none≢some, not, refl, reverse, some, some-injective, subst, sym, when-some, ◌&&◌, ◌++◌,
  ◌==◌, ◌∙◌, ◌∷◌, ◌≡◌, ◌⊎◌,
}
use cpa_plugin_token_saver.Text.{Bytes}
use cpa_plugin_token_saver.Headroom.Adapter.{Decoder, Items, Projection, TextTarget, count}
use cpa_plugin_token_saver.Headroom.Adapter.Validation.{
  Masked, clone_values, decode_all, deep_equal_items, judge_masked, mask_target, mask_targets,
  masked_text, replace_projected_text, validate,
}
use cpa_plugin_token_saver.Headroom.Adapter.Validation.Masks.{replace_projected_text_masks}
use cpa_plugin_token_saver.Headroom.Adapter.Validation.Read.{
  AllRead, IsRepeated, replace_projected_text_read, reply_text,
}
use mathlib.Core.List.{reverse-cons, reverse-reverse}

-- What is read of the messages once the earlier targets are masked.
abbrev IsMasking : Items → List TextTarget → Items → Type 0
IsMasking original earlier messages =
    (t : TextTarget) (y : Bytes)
    → reply_text messages t ≡ some y
    → (reply_text original t ≡ some y) ⊎ ((y ≡ masked_text) × IsRepeated t earlier)

mask_targets-AllRead :
    (original : Items) (earlier ts : List TextTarget) (m m' : Masked)
    → IsMasking original earlier m.actual
    → mask_targets ts m ≡ some m'
    → (xs : List Bytes) × (m'.replacements ≡ reverse xs ++ m.replacements)
      × AllRead original earlier ts xs
unfolding mask_targets mask_target
mask_targets-AllRead original earlier [] m m' masking h =
    ([], ap (λ n. n.replacements) (sym (some-injective h)), tt)
mask_targets-AllRead original earlier (t ∷ ts) m m' masking h =
    let (n, first, then_rest) = and_then-some (mask_target t m) _ m' h in
    let (found, in_actual, checked) =
      and_then-some (replace_projected_text m.actual t masked_text) _ n first in
    let (filled, compared) =
      when-some (not (length t.original == 0) && length (found.0) == 0) _ n checked in
    let (wanted, in_expected, made) =
      and_then-some (replace_projected_text m.expected t masked_text) _ n compared in
    let same = some-injective made in
    let masking' : IsMasking original (t ∷ earlier) n.actual = (λ u y read.
      elim (replace_projected_text_masks m.actual t u masked_text y found in_actual
        (ap (λ k. reply_text k.actual u) same ∙ read)) [
          | inl before ↦ elim (masking u y before) [
            | inl stood ↦ inl stood
            | inr (masked, (v, has, place)) ↦ inr (masked, (v, inr has, place))
          ]
          | inr (masked, place) ↦ inr (masked, (t, inl refl, place))
        ]) in
    let (xs, gathered, all) =
      mask_targets-AllRead original (t ∷ earlier) ts n m' masking' then_rest in
    let first_text = replace_projected_text_read m.actual t masked_text found in_actual in
    (
      found.0 ∷ xs,
      gathered
          ∙ ap (λ k. reverse xs ++ k.replacements) (sym same)
          ∙ sym (append_assoc (reverse xs) (found.0 ∷ []) m.replacements)
          ∙ ap (λ l. l ++ m.replacements) (sym (reverse-cons (found.0) xs)),
      (masking t (found.0) first_text, all),
    )

judge_masked-AllRead :
    (original : Items) (ts : List TextTarget) (m : Masked) (masked : Option Masked)
    (replacements : List Bytes)
    → m.actual ≡ original
    → m.replacements ≡ []
    → mask_targets ts m ≡ masked
    → judge_masked masked ≡ some replacements
    → AllRead original [] ts replacements
unfolding judge_masked
judge_masked-AllRead original ts m none replacements whole fresh walked h = absurd (none≢some h)
judge_masked-AllRead original ts m (some m') replacements whole fresh walked h =
    let (xs, gathered, all) =
      mask_targets-AllRead original [] ts m m'
        (λ t y read. inl (ap (λ a. reply_text a t) (sym whole) ∙ read)) walked in
    elim (if_else-cases (deep_equal_items m'.expected m'.actual) (some (reverse m'.replacements))
      none (some replacements) h) [
        | inl (equal, same) ↦
            subst (AllRead original [] ts)
              (sym (reverse-reverse xs)
                ∙ ap reverse
                    (sym (gathered ∙ ap (λ l. reverse xs ++ l) fresh ∙ append-nil (reverse xs)))
                ∙ some-injective same)
              all
        | inr (changed, refused) ↦ absurd (none≢some refused)
      ]

-- Whatever `validate` gives are the texts of the decoded reply at the targets' places.
pub validate-AllRead :
    (d : Decoder) (view : Projection) (raw_messages replacements : List Bytes)
    → validate d view raw_messages ≡ some replacements
    → (actual : Items) × (decode_all d raw_messages ≡ some actual)
      × AllRead actual [] view.targets replacements
unfolding validate
validate-AllRead d view raw_messages replacements h =
    let (counted, decoding) =
      when-some (not (length raw_messages == count view.messages)) _ replacements h in
    let (actual, decoded, cloning) =
      and_then-some (decode_all d raw_messages) _ replacements decoding in
    let (expected, cloned, judged) =
      and_then-some (clone_values d view.messages) _ replacements cloning in
    let m : Masked = record { replacements = []; actual = actual; expected = expected } in
    (
      actual,
      decoded,
      judge_masked-AllRead actual view.targets m (mask_targets view.targets m) replacements refl
          refl refl judged,
    )
