-- ===== src/Headroom/Adapter/Validation/Read.antt =====
-- internal/headroom/adapter.go: the texts that `validate` gives are those of the reply.
use cpa_plugin_token_saver.Common.{
  Bool-cases, List, arith, Option, [], and_then-some, ap, inl, inr, none, none≢some, refl, some,
  some-injective, suc, zero, ℕ, ◌∙◌, ◌∷◌, ◌≡◌, ◌⊎◌,
}
use cpa_plugin_token_saver.Text.{Bytes, bytes_eq, bytes_eq_refl, codes}
use cpa_plugin_token_saver.Headroom.Adapter.{
  Fields, Items, TextTarget, Value, array, as_array, as_object, as_string, boolean, entry, field,
  item, item_at, no_field, no_item, null_value, number, object, set_field, set_item, string,
}
use cpa_plugin_token_saver.Headroom.Adapter.Validation.{
  masked_text, replace_block, replace_content, replace_projected_text,
}
use cpa_plugin_token_saver.Protocol.Payload.Rewrite.Offered.{Has}

-- The text of a block, and that of a message, at the place of a target.
abbrev pub text_of_block : Option Value → Option Bytes
text_of_block (some (object block)) = as_string (field (codes "text") block)
text_of_block _ = none

abbrev pub text_of_blocks : Option Items → ℕ → Option Bytes
text_of_blocks none b = none
text_of_blocks (some blocks) b = text_of_block (item_at b blocks)

abbrev pub text_of_message : Option Value → Option ℕ → Option Bytes
text_of_message (some (object message)) none = as_string (field (codes "content") message)
text_of_message (some (object message)) (some b) =
    text_of_blocks (as_array (field (codes "content") message)) b
text_of_message _ place = none

abbrev pub reply_text : Items → TextTarget → Option Bytes
reply_text messages t = text_of_message (item_at t.message_index messages) t.block_index

abbrev pub AtOnePlace : TextTarget → TextTarget → Type 0
AtOnePlace t u = (t.message_index ≡ u.message_index) × (t.block_index ≡ u.block_index)

-- The target stands where an earlier one stands.
abbrev pub IsRepeated : TextTarget → List TextTarget → Type 0
IsRepeated t earlier = (u : TextTarget) × Has u earlier × AtOnePlace u t

-- Each text stands in the messages at the place of its target, or the target repeats an earlier one
-- and the text is the mask.
abbrev pub AllRead : Items → List TextTarget → List TextTarget → List Bytes → Type 0
AllRead messages earlier [] [] = Unit {0}
AllRead messages earlier (t ∷ ts) (x ∷ xs) =
    ((reply_text messages t ≡ some x) ⊎ ((x ≡ masked_text) × IsRepeated t earlier))
    × AllRead messages (t ∷ earlier) ts xs
AllRead messages earlier _ _ = ⊥

pub field-set_field :
    (key : Bytes) (value : Value) (fs : Fields) → field key (set_field key value fs) ≡ some value
unfolding field set_field
field-set_field key value no_field = rw (bytes_eq_refl key, field) refl
field-set_field key value (entry k v fs) = elim (Bool-cases (bytes_eq k key)) [
  | inl same ↦ ground (arith, same)
  | inr differs ↦ ground (arith, differs, field-set_field key value fs)
]

pub set_item_there :
    (i : ℕ) (v w : Value) (vs : Items)
    → item_at i vs ≡ some w
    → item_at i (set_item i v vs) ≡ some v
unfolding item_at set_item
set_item_there i v w no_item h = absurd (none≢some h)
set_item_there zero v w (item u vs) h = refl
set_item_there (suc i) v w (item u vs) h = set_item_there i v w vs h

pub as_object-some : (o : Option Value) (fs : Fields) → as_object o ≡ some fs → o ≡ some (object fs)
as_object-some none fs h = absurd (none≢some h)
as_object-some (some null_value) fs h = absurd (none≢some h)
as_object-some (some (boolean b)) fs h = absurd (none≢some h)
as_object-some (some (number n)) fs h = absurd (none≢some h)
as_object-some (some (string s)) fs h = absurd (none≢some h)
as_object-some (some (array vs)) fs h = absurd (none≢some h)
as_object-some (some (object fields)) fs h = ap (λ x. some (object x)) (some-injective h)

-- A replaced text is one that stood at its place.
replace_content_read :
    (message : Fields) (place : Option ℕ) (text : Bytes) (replaced : Bytes × Fields)
    → replace_content message place text ≡ some replaced
    → text_of_message (some (object message)) place ≡ some replaced.0
unfolding replace_content replace_block
replace_content_read message none text replaced h =
    let (old, found, made) =
      and_then-some (as_string (field (codes "content") message)) _ replaced h in
    found ∙ ap (λ r. some (r.0)) (some-injective made)
replace_content_read message (some b) text replaced h =
    let (blocks, content, in_blocks) =
      and_then-some (as_array (field (codes "content") message)) _ replaced h in
    let (block, made_block, made) =
      and_then-some (replace_block blocks b text) _ replaced in_blocks in
    let (fields, at, in_block) = and_then-some (as_object (item_at b blocks)) _ block made_block in
    let (old, found, made_text) =
      and_then-some (as_string (field (codes "text") fields)) _ block in_block in
    ap (λ o. text_of_blocks o b) content
    ∙ ap text_of_block (as_object-some (item_at b blocks) fields at)
    ∙ found
    ∙ ap (λ r. some (r.0)) (some-injective made_text)
    ∙ ap (λ r. some (r.0)) (some-injective made)

pub replace_projected_text_read :
    (messages : Items) (t : TextTarget) (text : Bytes) (found : Bytes × Items)
    → replace_projected_text messages t text ≡ some found
    → reply_text messages t ≡ some found.0
unfolding replace_projected_text
replace_projected_text_read messages t text found h =
    let (message, at, in_message) =
      and_then-some (as_object (item_at t.message_index messages)) _ found h in
    let (replaced, content, made) =
      and_then-some (replace_content message t.block_index text) _ found in_message in
    ap (λ o. text_of_message o t.block_index)
      (as_object-some (item_at t.message_index messages) message at)
    ∙ replace_content_read message t.block_index text replaced content
    ∙ ap (λ r. some (r.0)) (some-injective made)
