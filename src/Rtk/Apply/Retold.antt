-- ===== src/Rtk/Apply/Retold.antt =====
-- What becomes of the text of one slot.
use cpa_plugin_token_saver.Common.{
  Bool, Bool-cases, Option, ap, arith, drop, inl, inr, length, ltb, not, refl, sym, take,
  take-append-drop, length-take, negsuc, negsuc≢pos, pos, ℤ, false, true, ℕ, ◌&&◌, ◌++◌, ◌+◌, ◌<◌,
  ◌||◌, ◌∙◌, ◌≡◌, ◌≤◌, ◌⊎◌,
}
use cpa_plugin_token_saver.Json.{Gjson}
use cpa_plugin_token_saver.Rtk.{Filter, IsShrunk, compress_plain_text, compress_plain_text-IsShrunk}
use cpa_plugin_token_saver.Text.{Bytes, bytes_eq, bytes_eq_sound, codes}
use cpa_plugin_token_saver.Json.Marshal.{marshal_string}
use cpa_plugin_token_saver.Protocol.Payload.{slice}
use cpa_plugin_token_saver.Rtk.Apply.{compress_output, compress_text}
use cpa_plugin_token_saver.Protocol.Payload.Rewrite.Spliced.{drop-slice}

-- A text around a span of it.
cut_out :
    (start end : ℕ) (s t : Bytes)
    → start ≤ end
    → bytes_eq (slice start end s) t ≡ true
    → s ≡ take start s ++ (t ++ drop end s)
cut_out start end s t h e =
    sym (take-append-drop start s)
    ∙ ap (λ x. take start s ++ x) (drop-slice start end s h)
    ∙ ap (λ x. take start s ++ (x ++ drop end s)) (bytes_eq_sound (slice start end s) t e)

module _ (g : Gjson) (detect : Bytes → Option Filter) where
  -- A JSON object with a string at the field `output`, at an offset of the text.
  abbrev pub HasOutput : Bytes → Type 0
  HasOutput input =
      let output = g.get_bytes input (codes "output") in
      (g.valid input ≡ true)
      × (g.is_object (g.parse_bytes input) ≡ true)
      × (g.is_string output ≡ true)
      × ((start : ℕ) × (g.index output ≡ pos start))

  -- Only the text of that string is replaced, where it stands, by the encoding of a shorter one that
  -- is not empty.
  abbrev pub IsOutputCut : Bytes → Bytes × Bool → Type 0
  IsOutputCut input result =
      let output = g.get_bytes input (codes "output") in
      (before : Bytes) × (after : Bytes) × (candidate : Bytes) × (input
        ≡ before ++ (g.raw output ++ after))
      × (g.index output ≡ pos (length before))
      × (result ≡ (before ++ (marshal_string candidate ++ after), true))
      × (0 < length candidate)
      × (length candidate < length (g.string output))

  abbrev pub IsRetold : Bytes → Bytes × Bool → Type 0
  IsRetold input result =
      (¬ HasOutput input × IsShrunk input result)
      ⊎ (HasOutput input × ((result ≡ (input, false)) ⊎ IsOutputCut input result))

  compress_output-IsOutputCut :
      (input : Bytes) (start : ℕ)
      → g.index (g.get_bytes input (codes "output")) ≡ pos start
      → (let result = compress_output g detect input (g.get_bytes input (codes "output")) start in
          (result ≡ (input, false)) ⊎ IsOutputCut input result)
  unfolding compress_output
  compress_output-IsOutputCut input start at =
      let output = g.get_bytes input (codes "output") in
      let end = start + length (g.raw output) in
      elim (compress_plain_text-IsShrunk detect (g.string output)) [
        | inl (kept_text, _) ↦ rw (kept_text, compress_output) (inl refl)
        | inr (changed, filled, shorter) ↦
            elim (Bool-cases
              (ltb (length input) end || not (bytes_eq (slice start end input) (g.raw output)))) [
                | inl moved ↦ rw (changed, moved, compress_output) (inl refl)
                | inr there ↦
                    let same : bytes_eq (slice start end input) (g.raw output) ≡ true =
                      (ground arith) in
                    let inside : start ≤ length input = (ground arith) in
                    let placed : start ≡ length (take start input) =
                      (omega (arith, length-take start input)) in
                    rw (changed, there, compress_output)
                      (inr (
                        take start input,
                        drop end input,
                        (compress_plain_text detect (g.string output)).0,
                        cut_out start end input (g.raw output) (omega arith) same,
                        at ∙ ap pos placed,
                        refl,
                        filled,
                        shorter,
                      ))
              ]
      ]

  -- The switch on the offset.
  placed-IsRetold :
      (input : Bytes) (i : ℤ)
      → g.valid input ≡ true
      → g.is_object (g.parse_bytes input) ≡ true
      → g.is_string (g.get_bytes input (codes "output")) ≡ true
      → g.index (g.get_bytes input (codes "output")) ≡ i
      → IsRetold input (elim i [
        | negsuc n ↦ compress_plain_text detect input
        | pos start ↦ compress_output g detect input (g.get_bytes input (codes "output")) start
      ])
  placed-IsRetold input (negsuc n) valid object text at = inl (
    λ (v, o, t, (start, found)). negsuc≢pos (sym at ∙ found),
    compress_plain_text-IsShrunk detect input,
  )
  placed-IsRetold input (pos start) valid object text at =
      inr ((valid, object, text, (start, at)), compress_output-IsOutputCut input start at)

  -- A text that is no JSON object with a string at the field `output`, at an offset, comes back, or
  -- a shorter one that is not empty comes out; one that is such an object comes back, or only this
  -- string is replaced, where it stands, by the encoding of a shorter one that is not empty.
  pub compress_text-IsRetold : (input : Bytes) → IsRetold input (compress_text g detect input)
  unfolding compress_text
  compress_text-IsRetold input =
      let output = g.get_bytes input (codes "output") in
      elim (Bool-cases (g.valid input && g.is_object (g.parse_bytes input) && g.is_string output)) [
        | inr plain ↦
            rw (plain, compress_text)
              (inl (
                λ (valid, object, text, (start, found)). ground (arith, valid, object, text, plain),
                compress_plain_text-IsShrunk detect input,
              ))
        | inl object ↦
            rw (object, compress_text)
              (placed-IsRetold input (g.index output) (ground arith) (ground arith) (ground arith)
                refl)
      ]
