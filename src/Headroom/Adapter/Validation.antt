-- ===== src/Headroom/Adapter/Validation.antt =====
-- internal/headroom/adapter.go: `validate`, which accepts a reply that changes target texts only.
use cpa_plugin_token_saver.Common.{
  Bool, List, Option, [], false, if◌then◌else◌, length, none, not, reverse, some, suc, true, ℕ,
  ◌&&◌, ◌==◌, ◌∷◌,
}
use cpa_plugin_token_saver.Text.{Bytes, bytes_eq, codes}
use cpa_plugin_token_saver.Headroom.Adapter.{
  Decoder, Fields, Items, Projection, TextTarget, Value, array, as_array, as_object, as_string,
  boolean, count, decode_value, entry, field, item, item_at, no_field, no_item, null_value, number,
  object, set_field, set_item, string,
}
pub mod Untouched
pub mod Read
pub mod Masks
pub mod Taken

unfoldable pub field_count : Fields → ℕ
field_count no_field = 0
field_count (entry k v fs) = suc (field_count fs)

-- reflect.DeepEqual on decoded values. Each key of a map stands in it once.
unfoldable mutual
  pub deep_equal : Value → Value → Bool
  deep_equal null_value null_value = true
  deep_equal (boolean a) (boolean b) = if a then b else not b
  deep_equal (number a) (number b) = bytes_eq a b
  deep_equal (string a) (string b) = bytes_eq a b
  deep_equal (array a) (array b) = deep_equal_items a b
  deep_equal (object a) (object b) = field_count a == field_count b && deep_equal_fields a b
  deep_equal _ _ = false

  pub deep_equal_items : Items → Items → Bool
  deep_equal_items no_item no_item = true
  deep_equal_items (item a vs) (item b ws) = deep_equal a b && deep_equal_items vs ws
  deep_equal_items _ _ = false

  pub deep_equal_fields : Fields → Fields → Bool
  deep_equal_fields no_field fs = true
  deep_equal_fields (entry k v rest) fs = elim (field k fs) [
    | none ↦ false
    | some w ↦ deep_equal v w && deep_equal_fields rest fs
  ]

abbrev pub masked_text : Bytes
masked_text = codes "__CPA_HEADROOM_MUTABLE_TEXT__"

-- The block that is replaced in a message's content, with the text that stood there.
unfoldable pub replace_block : Items → ℕ → Bytes → Option (Bytes × Items)
replace_block blocks block_index replacement = elim (as_object (item_at block_index blocks)) [
  | none ↦ none
  | some block ↦ elim (as_string (field (codes "text") block)) [
    | none ↦ none
    | some text ↦ some (
      text,
      set_item block_index (object (set_field (codes "text") (string replacement) block)) blocks,
    )
  ]
]

unfoldable pub replace_content : Fields → Option ℕ → Bytes → Option (Bytes × Fields)
unfolding replace_block
replace_content message none replacement = elim (as_string (field (codes "content") message)) [
  | none ↦ none
  | some text ↦ some (text, set_field (codes "content") (string replacement) message)
]
replace_content message (some block_index) replacement =
    elim (as_array (field (codes "content") message)) [
      | none ↦ none
      | some blocks ↦ elim (replace_block blocks block_index replacement) [
        | none ↦ none
        | some replaced ↦
            some (replaced.0, set_field (codes "content") (array (replaced.1)) message)
      ]
    ]

unfoldable pub replace_projected_text : Items → TextTarget → Bytes → Option (Bytes × Items)
unfolding replace_content
replace_projected_text messages target replacement =
    elim (as_object (item_at target.message_index messages)) [
      | none ↦ none
      | some message ↦ elim (replace_content message target.block_index replacement) [
        | none ↦ none
        | some replaced ↦
            some (replaced.0, set_item target.message_index (object (replaced.1)) messages)
      ]
    ]

unfoldable pub decode_all : Decoder → List Bytes → Option Items
decode_all d [] = some no_item
decode_all d (raw ∷ raws) =
    let rest = decode_all d raws in
    elim (decode_value d raw) [
      | none ↦ none
      | some value ↦ elim rest [ none ↦ none | some values ↦ some (item value values) ]
    ]

unfoldable pub clone_values : Decoder → Items → Option Items
clone_values d values = elim (d.marshal values) [
  | none ↦ none
  | some raw ↦ as_array (decode_value d raw)
]

-- What the loop over the targets has: the replacements so far, the last one first, and both lists
-- of messages with the targets so far masked.
pub record Masked : Type 0 where
  pub replacements : List Bytes
  pub actual : Items
  pub expected : Items

unfoldable pub mask_target : TextTarget → Masked → Option Masked
unfolding replace_projected_text
mask_target target m = elim (replace_projected_text m.actual target masked_text) [
  | none ↦ none
  | some found ↦
      if not (length target.original == 0) && length (found.0) == 0
      then none
      else elim (replace_projected_text m.expected target masked_text) [
        | none ↦ none
        | some wanted ↦ some (record {
          replacements = found.0 ∷ m.replacements;
          actual = found.1;
          expected = wanted.1;
        })
      ]
]

unfoldable pub mask_targets : List TextTarget → Masked → Option Masked
unfolding mask_target
mask_targets [] m = some m
mask_targets (target ∷ targets) m = elim (mask_target target m) [
  | none ↦ none
  | some m' ↦ mask_targets targets m'
]

unfoldable pub judge_masked : Option Masked → Option (List Bytes)
unfolding deep_equal_items
judge_masked none = none
judge_masked (some m) =
    if deep_equal_items m.expected m.actual then some (reverse m.replacements) else none

unfoldable pub validate : Decoder → Projection → List Bytes → Option (List Bytes)
unfolding decode_all clone_values mask_targets judge_masked
validate d view raw_messages =
    if not (length raw_messages == count view.messages)
    then none
    else elim (decode_all d raw_messages) [
      | none ↦ none
      | some actual ↦ elim (clone_values d view.messages) [
        | none ↦ none
        | some expected ↦ judge_masked (
            mask_targets view.targets
              (record { replacements = []; actual = actual; expected = expected }))
      ]
    ]
