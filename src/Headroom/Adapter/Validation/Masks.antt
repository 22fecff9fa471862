-- ===== src/Headroom/Adapter/Validation/Masks.antt =====
-- internal/headroom/adapter.go: what the masking of one target changes.
use cpa_plugin_token_saver.Common.{
  Bool-cases, Option, and_then-some, ap, arith, inl, inr, none, none≢some, refl, some,
  some-injective, subst, sym, ℕ, ◌==◌, ◌∙◌, ◌≡◌, ◌⊎◌,
}
use cpa_plugin_token_saver.Text.{Bytes, codes}
use cpa_plugin_token_saver.Headroom.Adapter.{
  Fields, Items, TextTarget, array, as_array, as_object, as_string, field, item_at, object,
  set_field, set_item, string,
}
use cpa_plugin_token_saver.Headroom.Adapter.Validation.{
  replace_block, replace_content, replace_projected_text,
}
use cpa_plugin_token_saver.Headroom.Adapter.Validation.Read.{
  AtOnePlace, as_object-some, field-set_field, reply_text, set_item_there, text_of_block,
  text_of_blocks, text_of_message,
}
use cpa_plugin_token_saver.Headroom.Adapter.Validation.Untouched.{item_at-set_item}

replace_block_masks :
    (blocks : Items) (b b' : ℕ) (text y : Bytes) (replaced : Bytes × Items)
    → replace_block blocks b text ≡ some replaced
    → text_of_blocks (some replaced.1) b' ≡ some y
    → (text_of_blocks (some blocks) b' ≡ some y) ⊎ ((y ≡ text) × (b ≡ b'))
unfolding replace_block
replace_block_masks blocks b b' text y replaced h read =
    let (fields, at, in_block) = and_then-some (as_object (item_at b blocks)) _ replaced h in
    let (old, found, made) =
      and_then-some (as_string (field (codes "text") fields)) _ replaced in_block in
    let block = object (set_field (codes "text") (string text) fields) in
    let read' : text_of_block (item_at b' (set_item b block blocks)) ≡ some y =
      ap (λ r. text_of_blocks (some (r.1)) b') (some-injective made) ∙ read in
    elim (Bool-cases (b == b')) [
      | inr off ↦ inl (ap text_of_block (sym (item_at-set_item b b' block blocks off)) ∙ read')
      | inl same ↦
          let there : b ≡ b' = (ground arith) in
          let placed : item_at b' (set_item b block blocks) ≡ some block =
            subst (λ n. item_at n (set_item b block blocks) ≡ some block) there
              (set_item_there b block (object fields) blocks
                (as_object-some (item_at b blocks) fields at)) in
          inr (
            some-injective (
                sym read'
                ∙ ap text_of_block placed
                ∙ ap as_string (field-set_field (codes "text") (string text) fields)),
            there,
          )
    ]

replace_content_masks :
    (message : Fields) (place place' : Option ℕ) (text y : Bytes) (replaced : Bytes × Fields)
    → replace_content message place text ≡ some replaced
    → text_of_message (some (object replaced.1)) place' ≡ some y
    → (text_of_message (some (object message)) place' ≡ some y) ⊎ ((y ≡ text) × (place ≡ place'))
unfolding replace_content
replace_content_masks message none none text y replaced h read =
    let (old, found, made) =
      and_then-some (as_string (field (codes "content") message)) _ replaced h in
    inr (
      some-injective (
          sym read
          ∙ ap (λ r. as_string (field (codes "content") (r.1))) (sym (some-injective made))
          ∙ ap as_string (field-set_field (codes "content") (string text) message)),
      refl,
    )
replace_content_masks message none (some b') text y replaced h read =
    let (old, found, made) =
      and_then-some (as_string (field (codes "content") message)) _ replaced h in
    absurd (
      none≢some (
        sym (
          ap (λ r. text_of_blocks (as_array (field (codes "content") (r.1))) b')
            (sym (some-injective made))
          ∙ ap (λ o. text_of_blocks (as_array o) b')
              (field-set_field (codes "content") (string text) message))
        ∙ read))
replace_content_masks message (some b) none text y replaced h read =
    let (blocks, content, in_blocks) =
      and_then-some (as_array (field (codes "content") message)) _ replaced h in
    let (block, made_block, made) =
      and_then-some (replace_block blocks b text) _ replaced in_blocks in
    absurd (
      none≢some (
        sym (
          ap (λ r. as_string (field (codes "content") (r.1))) (sym (some-injective made))
          ∙ ap as_string (field-set_field (codes "content") (array (block.1)) message))
        ∙ read))
replace_content_masks message (some b) (some b') text y replaced h read =
    let (blocks, content, in_blocks) =
      and_then-some (as_array (field (codes "content") message)) _ replaced h in
    let (block, made_block, made) =
      and_then-some (replace_block blocks b text) _ replaced in_blocks in
    let read' : text_of_blocks (some (block.1)) b' ≡ some y =
      sym (
        ap (λ r. text_of_blocks (as_array (field (codes "content") (r.1))) b')
          (sym (some-injective made))
        ∙ ap (λ o. text_of_blocks (as_array o) b')
            (field-set_field (codes "content") (array (block.1)) message))
      ∙ read in
    elim (replace_block_masks blocks b b' text y block made_block read') [
      | inl kept_text ↦ inl (ap (λ o. text_of_blocks o b') content ∙ kept_text)
      | inr (masked, same) ↦ inr (masked, ap some same)
    ]

pub replace_projected_text_masks :
    (messages : Items) (u t : TextTarget) (text y : Bytes) (found : Bytes × Items)
    → replace_projected_text messages u text ≡ some found
    → reply_text found.1 t ≡ some y
    → (reply_text messages t ≡ some y) ⊎ ((y ≡ text) × AtOnePlace u t)
unfolding replace_projected_text
replace_projected_text_masks messages u t text y found h read =
    let (message, at, in_message) =
      and_then-some (as_object (item_at u.message_index messages)) _ found h in
    let (replaced, content, made) =
      and_then-some (replace_content message u.block_index text) _ found in_message in
    let new = object (replaced.1) in
    let old_there = as_object-some (item_at u.message_index messages) message at in
    let read' : text_of_message (item_at t.message_index (set_item u.message_index new messages))
          t.block_index
        ≡ some y =
      ap (λ r. reply_text (r.1) t) (some-injective made) ∙ read in
    elim (Bool-cases (u.message_index == t.message_index)) [
      | inr off ↦ inl (
          ap (λ o. text_of_message o t.block_index)
            (sym (item_at-set_item u.message_index t.message_index new messages off))
          ∙ read')
      | inl same ↦
          let there : u.message_index ≡ t.message_index = (ground arith) in
          let placed : item_at t.message_index (set_item u.message_index new messages) ≡ some new =
            subst (λ n. item_at n (set_item u.message_index new messages) ≡ some new) there
              (set_item_there u.message_index new (object message) messages old_there) in
          elim (replace_content_masks message u.block_index t.block_index text y replaced content
            (ap (λ o. text_of_message o t.block_index) (sym placed) ∙ read')) [
              | inl kept_text ↦ inl (
                  ap (λ o. text_of_message o t.block_index)
                    (ap (λ n. item_at n messages) (sym there) ∙ old_there)
                  ∙ kept_text)
              | inr (masked, place) ↦ inr (masked, (there, place))
            ]
    ]
