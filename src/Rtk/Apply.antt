-- ===== src/Rtk/Apply.antt =====
-- internal/rtk/filter.go: `Apply`, which compresses the texts of a payload's slots. What gjson
-- answers and what `Detect` finds are arguments.
use cpa_plugin_token_saver.Common.{
  Bool, List, Option, [], drop, false, if◌then◌else◌, length, ltb, negsuc, none, not, pos, some,
  suc, take, true, ℕ, ℤ, ◌&&◌, ◌++◌, ◌+◌, ◌||◌, ◌∷◌,
}
use cpa_plugin_token_saver.Json.{Gjson}
use cpa_plugin_token_saver.Protocol.{Pair}
use cpa_plugin_token_saver.Rtk.{Filter, compress_plain_text}
use cpa_plugin_token_saver.Text.{Bytes, bytes_eq, codes}
use cpa_plugin_token_saver.Json.Marshal.{marshal_string}
use cpa_plugin_token_saver.Protocol.Payload.{TextSlot, slice}
use cpa_plugin_token_saver.Protocol.Payload.Rewrite.{rewrite}
use cpa_plugin_token_saver.Protocol.Payload.Views.{view}
pub mod Chosen
pub mod Applied
pub mod Retold

module _ (g : Gjson) (detect : Bytes → Option Filter) where
  -- The text of the field `output` of a JSON object, from its offset on.
  unfoldable pub compress_output : Bytes → g.Value → ℕ → Bytes × Bool
  compress_output input output start =
      let (candidate, replace) = compress_plain_text detect (g.string output) in
      let end = start + length (g.raw output) in
      if not replace
      then (input, false)
      else (if ltb (length input) end || not (bytes_eq (slice start end input) (g.raw output))
          then (input, false)
          else (take start input ++ (marshal_string candidate ++ drop end input), true))

  unfoldable pub compress_text : Bytes → Bytes × Bool
  compress_text input =
      let output = g.get_bytes input (codes "output") in
      if g.valid input && g.is_object (g.parse_bytes input) && g.is_string output
      then elim (g.index output) [
        | negsuc n ↦ compress_plain_text detect input
        | pos start ↦ compress_output input output start
      ]
      else compress_plain_text detect input

  -- The loop over the slots, from an index on.
  unfoldable pub replacements_from : ℕ → List TextSlot → List (ℤ × Bytes)
  replacements_from index [] = []
  replacements_from index (slot ∷ slots) =
      let rest = replacements_from (suc index) slots in
      let (candidate, replace) = compress_text slot.text in
      if slot.error then rest else (if replace then (pos index, candidate) ∷ rest else rest)

  unfoldable pub apply : Bytes → Pair → Bytes
  apply body route = elim (view g body route) [
    | none ↦ body
    | some p ↦ rewrite p (replacements_from 0 p.slots)
  ]
