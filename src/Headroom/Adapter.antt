-- ===== src/Headroom/Adapter.antt =====
-- internal/headroom/adapter.go: what encoding/json decodes a body into, and the projection of a body
-- with its text targets.
use cpa_plugin_token_saver.Common.{
  Bool, List, Option, [], false, if◌then◌else◌, length, ltb, negsuc, none, not, pos, some, suc,
  true, zero, ℕ, ◌++◌, ◌+◌, ◌||◌, ◌∷◌,
}
use cpa_plugin_token_saver.Json.{Gjson}
use cpa_plugin_token_saver.Text.{Bytes, bytes_eq}
use cpa_plugin_token_saver.Protocol.Payload.{slice}
pub mod Chat
pub mod Validation
pub mod Application

-- A decoded value. A number is kept as its text, and a map as its entries, each key once.
mutual
  pub data Value : Type 0 where
    null_value : Value
    boolean : Bool → Value
    number : Bytes → Value
    string : Bytes → Value
    array : Items → Value
    object : Fields → Value

  pub data Items : Type 0 where
    no_item : Items
    item : Value → Items → Items

  pub data Fields : Type 0 where
    no_field : Fields
    entry : Bytes → Value → Fields → Fields

-- encoding/json: the check of a body by its own name, the first value of a text with whether the end
-- of the text follows, the text of a list of values, and that of a request.
pub record Decoder : Type 0 where
  pub valid : Bytes → Bool
  pub unique_object_keys : Bytes → Bool
  pub decode : Bytes → Option (Value × Bool)
  pub marshal : Items → Option Bytes
  pub marshal_request : Items → Bytes → Option Bytes

-- m[key], with none for a key that is missing.
unfoldable pub field : Bytes → Fields → Option Value
unfolding bytes_eq
field key no_field = none
field key (entry k v fs) = if bytes_eq k key then some v else field key fs

-- m[key] = value.
unfoldable pub set_field : Bytes → Value → Fields → Fields
unfolding bytes_eq
set_field key value no_field = entry key value no_field
set_field key value (entry k v fs) =
    let rest = set_field key value fs in if bytes_eq k key then entry k value fs else entry k v rest

unfoldable pub item_at : ℕ → Items → Option Value
item_at n no_item = none
item_at zero (item v vs) = some v
item_at (suc n) (item v vs) = item_at n vs

unfoldable pub set_item : ℕ → Value → Items → Items
set_item n value no_item = no_item
set_item zero value (item v vs) = item value vs
set_item (suc n) value (item v vs) = item v (set_item n value vs)

unfoldable pub count : Items → ℕ
count no_item = 0
count (item v vs) = suc (count vs)

-- The type assertions x.(string), x.([]any) and x.(map[string]any), of a key that may be missing.
abbrev pub as_string : Option Value → Option Bytes
as_string (some (string s)) = some s
as_string _ = none

abbrev pub as_array : Option Value → Option Items
as_array (some (array vs)) = some vs
as_array _ = none

abbrev pub as_object : Option Value → Option Fields
as_object (some (object fs)) = some fs
as_object _ = none

-- m[key] == nil: a missing key reads as nil.
abbrev pub is_nil : Option Value → Bool
is_nil none = true
is_nil (some null_value) = true
is_nil _ = false

abbrev pub is_text : Bytes → Option Bytes → Bool
is_text word none = false
is_text word (some s) = bytes_eq s word

unfoldable pub decode_value : Decoder → Bytes → Option Value
decode_value d raw = if not (d.unique_object_keys raw) then none else elim (d.decode raw) [
  | none ↦ none
  | some decoded ↦ if decoded.1 then some decoded.0 else none
]

unfoldable pub decode_object : Decoder → Bytes → Option Fields
decode_object d raw = as_object (decode_value d raw)

-- `block_index` is none where the code has -1.
pub record TextTarget : Type 0 where
  pub start : ℕ
  pub end : ℕ
  pub message_index : ℕ
  pub block_index : Option ℕ
  pub original : Bytes

pub record Projection : Type 0 where
  pub messages : Items
  pub targets : List TextTarget

-- The place of a target: the message, and the block within it.
unfoldable pub add_target :
    Gjson → Projection → Bytes → Bytes → ℕ → Option ℕ → Bytes → Option Projection
add_target g p body path message_index block_index original =
    let result = g.get_bytes body path in
    if not (g.is_string result) then none else elim (g.index result) [
      | negsuc n ↦ none
      | pos start ↦
          let end = start + length (g.raw result) in
          if ltb (length body) end || not (bytes_eq (slice start end body) (g.raw result))
          then none
          else some (record p {
            targets =
                p.targets
                ++ record {
                  start = start;
                  end = end;
                  message_index = message_index;
                  block_index = block_index;
                  original = original;
                }
                  ∷ [];
          })
    ]
