-- ===== src/Rtk/DedupLog.antt =====
-- internal/rtk/filters/system.go: `DedupLog`, which collapses repeated lines.
use cpa_plugin_token_saver.Common.{
  Bool, Bool-cases, List, [], arith, false, if◌then◌else◌, inl, inr, leb, length, ltb, not, reverse,
  true, ℕ, ◌&&◌, ◌++◌, ◌+◌, ◌-◌, ◌<◌, ◌==◌, ◌∷◌, ◌≡◌, ◌≤◌, ◌⊎◌,
}
use cpa_plugin_token_saver.Text.{Bytes, bytes_eq, codes, decimal, is_blank}
use cpa_plugin_token_saver.Text.Lines.{lines, unlines}

abbrev pub dedup_line_max : ℕ
dedup_line_max = 2000

-- The variables of the loop; `out` has the last line first.
pub record DedupState : Type 0 where
  pub out : List Bytes
  pub previous : Bytes
  pub have_previous : Bool
  pub run : ℕ
  pub blank_streak : ℕ

abbrev pub duplicate_marker : ℕ → Bytes
duplicate_marker n = codes "  ... (" ++ (decimal n ++ codes " duplicate lines)")

abbrev pub limit_marker : Bytes
limit_marker = codes "... (truncated at " ++ (decimal dedup_line_max ++ codes " lines)")

unfoldable pub flush : DedupState → DedupState
flush st =
    if st.have_previous && ltb 1 st.run
    then record st { out = duplicate_marker (st.run - 1) ∷ st.out }
    else st

unfoldable pub blank_line : DedupState → Bytes → DedupState
unfolding flush
blank_line st line =
    record (flush (record st {
      out = if st.blank_streak == 0 then line ∷ st.out else st.out;
      blank_streak = st.blank_streak + 1;
    })) { have_previous = false; run = 0 }

unfoldable pub text_line : DedupState → Bytes → DedupState
unfolding flush
text_line st line =
    if st.have_previous && bytes_eq line st.previous
    then record st { blank_streak = 0; run = st.run + 1 }
    else (let flushed = flush (record st { blank_streak = 0 }) in
        record flushed { out = line ∷ flushed.out; previous = line; have_previous = true; run = 1 })

-- A line that was appended can reach the limit, and ends the loop.
abbrev pub is_repeat : DedupState → Bytes → Bool
is_repeat st line = st.have_previous && bytes_eq line st.previous

unfoldable pub dedup_lines : DedupState → List Bytes → DedupState
unfolding blank_line text_line flush
dedup_lines st [] = flush st
dedup_lines st (line ∷ ls) = elim (is_blank line) [
  | true ↦ dedup_lines (blank_line st line) ls
  | false ↦ elim (not (is_repeat st line) && leb dedup_line_max (length (text_line st line).out)) [
    | true ↦ record (text_line st line) { out = limit_marker ∷ (text_line st line).out }
    | false ↦ dedup_lines (text_line st line) ls
  ]
]

abbrev pub new_dedup : DedupState
new_dedup = record { out = []; previous = []; have_previous = false; run = 0; blank_streak = 0 }

unfoldable pub dedup_log : Bytes → Bytes
unfolding dedup_lines
dedup_log input = unlines (reverse (dedup_lines new_dedup (lines input)).out)

-- Between two lines the output is below the limit, or a blank line has just gone past it.
abbrev IsBelow : DedupState → Type 0
IsBelow st =
    (length st.out < dedup_line_max)
    ⊎ ((length st.out ≤ dedup_line_max + 1) × (st.have_previous ≡ false) × (0 < st.blank_streak))

blank_line-IsBelow : (st : DedupState) (line : Bytes) → IsBelow st → IsBelow (blank_line st line)
unfolding blank_line flush
blank_line-IsBelow st line b = ground arith

text_line-IsBelow :
    (st : DedupState) (line : Bytes)
    → IsBelow st
    → (not (is_repeat st line) && leb dedup_line_max (length (text_line st line).out)) ≡ false
    → IsBelow (text_line st line)
unfolding text_line flush
text_line-IsBelow st line b h = ground arith

text_line-length :
    (st : DedupState) (line : Bytes)
    → IsBelow st
    → length (text_line st line).out ≤ dedup_line_max + 2
unfolding text_line flush
text_line-length st line b = ground arith

dedup_lines_bounded :
    (st : DedupState) (ls : List Bytes)
    → IsBelow st
    → length (dedup_lines st ls).out ≤ dedup_line_max + 3
unfolding dedup_lines flush
dedup_lines_bounded st [] b = ground arith
dedup_lines_bounded st (line ∷ ls) b = elim (Bool-cases (is_blank line)) [
  | inl nothing ↦
      rw (nothing, dedup_lines)
        (dedup_lines_bounded (blank_line st line) ls (blank_line-IsBelow st line b))
  | inr filled ↦
      elim (Bool-cases
        (not (is_repeat st line) && leb dedup_line_max (length (text_line st line).out))) [
          | inl limit ↦ rw (filled, limit, dedup_lines) (ground (arith, text_line-length st line b))
          | inr within ↦
              rw (filled, within, dedup_lines)
                (dedup_lines_bounded (text_line st line) ls (text_line-IsBelow st line b within))
        ]
]

-- However many lines a log has, `DedupLog` comes out with at most 2003 of them.
pub dedup_log_bounded : (ls : List Bytes) → length (dedup_lines new_dedup ls).out ≤ 2003
dedup_log_bounded ls = dedup_lines_bounded new_dedup ls (inl (omega arith))
