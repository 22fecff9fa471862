-- ===== src/Headroom/Adapter/Validation/Untouched.antt =====
-- internal/headroom/adapter.go: what an accepted reply leaves as it was sent.
use cpa_plugin_token_saver.Common.{
  List, Option, [], and_then-some, ap, arith, false, if_else-cases, inl, inr, length, none,
  none≢some, not, refl, reverse, some, some-injective, subst, suc, sym, true, when-some, zero, ℕ,
  ◌&&◌, ◌==◌, ◌∙◌, ◌∷◌, ◌≡◌,
}
use cpa_plugin_token_saver.Text.{Bytes}
use cpa_plugin_token_saver.Headroom.Adapter.{
  Decoder, Items, Projection, TextTarget, Value, as_object, count, item, item_at, no_item, set_item,
}
use cpa_plugin_token_saver.Headroom.Adapter.Validation.{
  Masked, clone_values, decode_all, deep_equal, deep_equal_items, judge_masked, mask_target,
  mask_targets, masked_text, replace_content, replace_projected_text, validate,
}

-- No target stands in the message.
abbrev pub Untargeted : ℕ → List TextTarget → Type 0
Untargeted i [] = Unit {0}
Untargeted i (t ∷ ts) = (t.message_index == i ≡ false) × Untargeted i ts

-- The two values are there and equal, or neither is there.
abbrev pub SameAt : Option Value → Option Value → Type 0
SameAt none none = Unit {0}
SameAt (some v) (some w) = deep_equal v w ≡ true
SameAt _ _ = ⊥

pub item_at-set_item :
    (m i : ℕ) (v : Value) (vs : Items) → m == i ≡ false → item_at i (set_item m v vs) ≡ item_at i vs
unfolding item_at set_item
item_at-set_item m i v no_item h = refl
item_at-set_item zero zero v (item w vs) h = ground arith
item_at-set_item zero (suc i) v (item w vs) h = refl
item_at-set_item (suc m) zero v (item w vs) h = refl
item_at-set_item (suc m) (suc i) v (item w vs) h = item_at-set_item m i v vs (ground arith)

replace_projected_text_untouched :
    (i : ℕ) (messages : Items) (t : TextTarget) (text : Bytes) (found : Bytes × Items)
    → t.message_index == i ≡ false
    → replace_projected_text messages t text ≡ some found
    → item_at i (found.1) ≡ item_at i messages
unfolding replace_projected_text
replace_projected_text_untouched i messages t text found off h =
    let (message, at, replaced_in) =
      and_then-some (as_object (item_at t.message_index messages)) _ found h in
    let (replaced, content, made) =
      and_then-some (replace_content message t.block_index text) _ found replaced_in in
    ap (λ r. item_at i (r.1)) (sym (some-injective made))
    ∙ item_at-set_item t.message_index i _ messages off

mask_target_untouched :
    (i : ℕ) (t : TextTarget) (m m' : Masked)
    → t.message_index == i ≡ false
    → mask_target t m ≡ some m'
    → (item_at i m'.actual ≡ item_at i m.actual) × (item_at i m'.expected ≡ item_at i m.expected)
unfolding mask_target
mask_target_untouched i t m m' off h =
    let (found, in_actual, checked) =
      and_then-some (replace_projected_text m.actual t masked_text) _ m' h in
    let (kept_text, compared) =
      when-some (not (length t.original == 0) && length (found.0) == 0) _ m' checked in
    let (wanted, in_expected, made) =
      and_then-some (replace_projected_text m.expected t masked_text) _ m' compared in
    (
      ap (λ n. item_at i n.actual) (sym (some-injective made))
          ∙ replace_projected_text_untouched i m.actual t masked_text found off in_actual,
      ap (λ n. item_at i n.expected) (sym (some-injective made))
          ∙ replace_projected_text_untouched i m.expected t masked_text wanted off in_expected,
    )

mask_targets_untouched :
    (i : ℕ) (ts : List TextTarget) (m m' : Masked)
    → Untargeted i ts
    → mask_targets ts m ≡ some m'
    → (item_at i m'.actual ≡ item_at i m.actual) × (item_at i m'.expected ≡ item_at i m.expected)
unfolding mask_targets
mask_targets_untouched i [] m m' off h =
    let same = sym (some-injective h) in
    (ap (λ n. item_at i n.actual) same, ap (λ n. item_at i n.expected) same)
mask_targets_untouched i (t ∷ ts) m m' (off, rest) h =
    let (n, first, then_rest) = and_then-some (mask_target t m) _ m' h in
    let (a, e) = mask_target_untouched i t m n off first in
    let (a', e') = mask_targets_untouched i ts n m' rest then_rest in (a' ∙ a, e' ∙ e)

deep_equal_items-SameAt :
    (i : ℕ) (vs ws : Items) → deep_equal_items vs ws ≡ true → SameAt (item_at i vs) (item_at i ws)
unfolding deep_equal_items item_at
deep_equal_items-SameAt i no_item no_item h = tt
deep_equal_items-SameAt i no_item (item w ws) h = ground arith
deep_equal_items-SameAt i (item v vs) no_item h = ground arith
deep_equal_items-SameAt zero (item v vs) (item w ws) h = ground arith
deep_equal_items-SameAt (suc i) (item v vs) (item w ws) h =
    deep_equal_items-SameAt i vs ws (ground arith)

judge_masked-SameAt :
    (i : ℕ) (ts : List TextTarget) (m : Masked) (masked : Option Masked) (replacements : List Bytes)
    → Untargeted i ts
    → mask_targets ts m ≡ masked
    → judge_masked masked ≡ some replacements
    → SameAt (item_at i m.expected) (item_at i m.actual)
unfolding judge_masked
judge_masked-SameAt i ts m none replacements off walked h = absurd (none≢some h)
judge_masked-SameAt i ts m (some m') replacements off walked h =
    let (a, e) = mask_targets_untouched i ts m m' off walked in
    elim (if_else-cases (deep_equal_items m'.expected m'.actual) (some (reverse m'.replacements))
      none (some replacements) h) [
        | inl (equal, same) ↦
            subst (λ v. SameAt v (item_at i m.actual)) e
              (subst (λ v. SameAt (item_at i m'.expected) v) a
                (deep_equal_items-SameAt i m'.expected m'.actual equal))
        | inr (changed, refused) ↦ absurd (none≢some refused)
      ]

-- The messages of the reply, and those of the projection once they are marshalled and read again.
abbrev pub IsReply : Decoder → Projection → List Bytes → Items → Items → Type 0
IsReply d view raw_messages actual expected =
    (length raw_messages ≡ count view.messages)
    × (decode_all d raw_messages ≡ some actual)
    × (clone_values d view.messages ≡ some expected)

-- A reply that is accepted has as many messages as the projection, and a message of it in which no
-- target stands is equal to the one that was sent, as encoding/json reads it back.
pub validate-SameAt :
    (d : Decoder) (view : Projection) (raw_messages replacements : List Bytes) (i : ℕ)
    → validate d view raw_messages ≡ some replacements
    → Untargeted i view.targets
    → (actual : Items) × (expected : Items) × IsReply d view raw_messages actual expected
      × SameAt (item_at i expected) (item_at i actual)
unfolding validate
validate-SameAt d view raw_messages replacements i h off =
    let (counted, decoding) =
      when-some (not (length raw_messages == count view.messages)) _ replacements h in
    let (actual, decoded, cloning) =
      and_then-some (decode_all d raw_messages) _ replacements decoding in
    let (expected, cloned, judged) =
      and_then-some (clone_values d view.messages) _ replacements cloning in
    let m : Masked = record { replacements = []; actual = actual; expected = expected } in
    (
      actual,
      expected,
      (ground arith, decoded, cloned),
      judge_masked-SameAt i view.targets m (mask_targets view.targets m) replacements off refl
          judged,
    )
