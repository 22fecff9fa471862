-- ===== src/Json.antt =====
-- gjson, which the code asks about JSON texts, as an argument, and the text that json.Marshal makes
-- of a string.
use cpa_plugin_token_saver.Common.{Bool, List, ℤ}
use cpa_plugin_token_saver.Text.{Bytes}
pub mod Marshal
pub mod Bounds

-- A gjson result, by what the code asks of it. `value_at` is `Get` on a result and `get_bytes` is
-- `GetBytes`, by the path's text; `raw` and `index` are the fields `Raw` and `Index`, and `truth` is
-- `Bool`. `json_valid` is json.Valid, and `valid` is ValidBytes.
pub record Gjson : Type 1 where
  pub Value : Type 0
  pub json_valid : Bytes → Bool
  pub valid : Bytes → Bool
  pub parse_bytes : Bytes → Value
  pub value_at : Value → Bytes → Value
  pub get_bytes : Bytes → Bytes → Value
  pub is_object : Value → Bool
  pub is_array : Value → Bool
  pub array : Value → List Value
  pub is_string : Value → Bool
  pub string : Value → Bytes
  pub exists : Value → Bool
  pub truth : Value → Bool
  pub raw : Value → Bytes
  pub index : Value → ℤ
