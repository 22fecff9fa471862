-- ===== src/Rtk.antt =====
-- internal/rtk/filter.go: the bounds of a compression. What `Detect` finds is an argument; a panic
-- of a filter is a value.
use cpa_plugin_token_saver.Common.{
  Bool, Bool-cases, Option, Option-cases, arith, false, if◌then◌else◌, inl, inr, leb, length, ltb,
  none, refl, some, true, ℕ, ◌*◌, ◌<◌, ◌==◌, ◌||◌, ◌≡◌, ◌⊎◌,
}
use cpa_plugin_token_saver.Text.{Bytes}
pub mod Truncate
pub mod DedupLog
pub mod Tree
pub mod Apply
pub mod Registry
pub mod Detect
pub mod GitDiff
pub mod BuildOutput

abbrev pub min_compress_bytes : ℕ
min_compress_bytes = 500

abbrev pub max_raw_bytes : ℕ
max_raw_bytes = 10 * 1024 * 1024

pub data Applied : Type 0 where
  filter_panicked : Applied
  filtered : Bytes → Applied

abbrev pub Filter : Type 0
Filter = Bytes → Applied

unfoldable pub safely_apply : Filter → Bytes → Bytes
safely_apply apply input = elim (apply input) [ filter_panicked ↦ input | filtered output ↦ output ]

unfoldable pub accept_replacement : Bytes → Bytes → Bytes × Bool
accept_replacement original candidate =
    if length candidate == 0 || leb (length original) (length candidate)
    then (original, false)
    else (candidate, true)

unfoldable pub compress_plain_text : (Bytes → Option Filter) → Bytes → Bytes × Bool
unfolding safely_apply accept_replacement
compress_plain_text detect input =
    if ltb (length input) min_compress_bytes || ltb max_raw_bytes (length input)
    then (input, false)
    else elim (detect input) [
      | none ↦ (input, false)
      | some apply ↦ accept_replacement input (safely_apply apply input)
    ]

-- The text is replaced by a shorter one that is not empty, or it is given back.
abbrev pub IsShrunk : Bytes → Bytes × Bool → Type 0
IsShrunk input result =
    ((result.1 ≡ false) × (result.0 ≡ input))
    ⊎ ((result.1 ≡ true) × (0 < length result.0) × (length result.0 < length input))

accept_replacement-IsShrunk :
    (original candidate : Bytes) → IsShrunk original (accept_replacement original candidate)
unfolding accept_replacement
accept_replacement-IsShrunk original candidate =
    elim (Bool-cases (length candidate == 0 || leb (length original) (length candidate))) [
      | inl refused ↦ rw (refused, accept_replacement) (inl (refl, refl))
      | inr smaller ↦ rw (smaller, accept_replacement) (inr (refl, ground arith, ground arith))
    ]

-- Whatever filter is found and whatever it does, a text is replaced only by a shorter one that is
-- not empty; otherwise it is given back.
pub compress_plain_text-IsShrunk :
    (detect : Bytes → Option Filter) (input : Bytes)
    → IsShrunk input (compress_plain_text detect input)
unfolding compress_plain_text
compress_plain_text-IsShrunk detect input =
    elim (Bool-cases (ltb (length input) min_compress_bytes || ltb max_raw_bytes (length input))) [
      | inl out_of_range ↦ rw (out_of_range, compress_plain_text) (inl (refl, refl))
      | inr sized ↦ elim (Option-cases (detect input)) [
        | inl unknown ↦ rw (sized, unknown, compress_plain_text) (inl (refl, refl))
        | inr (apply, found) ↦
            rw (sized, found, compress_plain_text)
              (accept_replacement-IsShrunk input (safely_apply apply input))
      ]
    ]
