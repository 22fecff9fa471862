-- ===== src/Rtk/Truncate.antt =====
-- internal/rtk/filters/system.go: `SmartTruncate` and `ReadNumbered`, which cut the middle out of a
-- long text.
use cpa_plugin_token_saver.Common.{
  Bool-cases, List, [], ap, arith, drop, false, if◌then◌else◌, inl, inr, length, length-append,
  length-drop, length-take, ltb, lt→ltb, refl, suc, take, zero, ℕ, ◌%◌, ◌++◌, ◌+◌, ◌-◌, ◌/◌, ◌<◌,
  ◌==◌, ◌∙◌, ◌∷◌, ◌≡◌, ◌≤◌,
}
use cpa_plugin_token_saver.Text.{Bytes, codes, decimal, decimal_from}
use cpa_plugin_token_saver.Text.Lines.{lines, newline, unlines}
use cpa_plugin_token_saver.Text.Lines.Free.{
  AllFree, AllFree-append, AllFree-drop, AllFree-take, Free, Free-append, is_free-Free,
  lines-unlines, split-AllFree,
}

abbrev pub smart_head_lines : ℕ
smart_head_lines = 120

abbrev pub smart_tail_lines : ℕ
smart_tail_lines = 60

abbrev pub smart_min_lines : ℕ
smart_min_lines = 250

-- The lines around a marker, which is made of the number of lines that are cut.
unfoldable pub cut_middle : (ℕ → Bytes) → List Bytes → List Bytes
cut_middle marker ls =
    take smart_head_lines ls
    ++ (marker (length ls - smart_head_lines - smart_tail_lines)
        ∷ drop (length ls - smart_tail_lines) ls)

unfoldable pub truncate_with : (ℕ → Bytes) → Bytes → Bytes
unfolding cut_middle
truncate_with marker input =
    let ls = lines input in
    if ltb (length ls) smart_min_lines then input else unlines (cut_middle marker ls)

abbrev pub truncated_marker : ℕ → Bytes
truncated_marker n = codes "... +" ++ (decimal n ++ codes " lines truncated")

abbrev pub file_marker : ℕ → Bytes
file_marker n = codes "... +" ++ (decimal n ++ codes " lines truncated (file continues)")

unfoldable pub smart_truncate : Bytes → Bytes
unfolding truncate_with
smart_truncate input = truncate_with truncated_marker input

unfoldable pub read_numbered : Bytes → Bytes
unfolding truncate_with
read_numbered input = truncate_with file_marker input

decimal_from-Free :
    (fuel n : ℕ) (acc : Bytes) → Free newline acc → Free newline (decimal_from fuel n acc)
unfolding decimal_from
decimal_from-Free zero n acc f = f
decimal_from-Free (suc fuel) n acc f =
    let digit : ((48 + n % 10) == newline) ≡ false = (ground arith) in
    elim (Bool-cases (n / 10 == 0)) [
      | inl last ↦ rw (last, decimal_from) (digit, f)
      | inr further ↦
          rw (further, decimal_from)
            (decimal_from-Free fuel (n / 10) ((48 + n % 10) ∷ acc) (digit, f))
    ]

pub decimal-Free : (n : ℕ) → Free newline (decimal n)
unfolding decimal
decimal-Free n = decimal_from-Free (suc n) n [] tt

truncated_marker-Free : (n : ℕ) → Free newline (truncated_marker n)
truncated_marker-Free n =
    Free-append newline (codes "... +") (decimal n ++ codes " lines truncated")
      (is_free-Free newline (codes "... +") refl)
      (Free-append newline (decimal n) (codes " lines truncated") (decimal-Free n)
        (is_free-Free newline (codes " lines truncated") refl))

file_marker-Free : (n : ℕ) → Free newline (file_marker n)
file_marker-Free n =
    Free-append newline (codes "... +") (decimal n ++ codes " lines truncated (file continues)")
      (is_free-Free newline (codes "... +") refl)
      (Free-append newline (decimal n) (codes " lines truncated (file continues)") (decimal-Free n)
        (is_free-Free newline (codes " lines truncated (file continues)") refl))

cut_middle-AllFree :
    (marker : ℕ → Bytes) (ls : List Bytes)
    → ((n : ℕ) → Free newline (marker n))
    → AllFree newline ls
    → AllFree newline (cut_middle marker ls)
unfolding cut_middle
cut_middle-AllFree marker ls no_newline f =
    AllFree-append newline (take smart_head_lines ls) _ (AllFree-take newline smart_head_lines ls f)
      (no_newline _, AllFree-drop newline (length ls - smart_tail_lines) ls f)

lines-unlines_free :
    (ls : List Bytes) → 0 < length ls → AllFree newline ls → lines (unlines ls) ≡ ls
lines-unlines_free [] h f = absurd (omega arith)
lines-unlines_free (l ∷ ls) h f = lines-unlines l ls f

cut_middle-length :
    (marker : ℕ → Bytes) (ls : List Bytes)
    → smart_min_lines ≤ length ls
    → length (cut_middle marker ls) ≡ smart_head_lines + 1 + smart_tail_lines
unfolding cut_middle
cut_middle-length marker ls long = omega (
  arith,
  length-append (take smart_head_lines ls) (
      marker (length ls - smart_head_lines - smart_tail_lines)
      ∷ drop (length ls - smart_tail_lines) ls),
  length-take smart_head_lines ls,
  length-drop (length ls - smart_tail_lines) ls,
)

-- The output of a cut with the marker: a text below the limit as it is, and otherwise the lines of
-- `cut_middle`.
abbrev pub IsCut : (ℕ → Bytes) → Bytes → Bytes → Type 0
IsCut marker input output =
    (length (lines input) < smart_min_lines → output ≡ input)
    × (smart_min_lines ≤ length (lines input)
        → (lines output ≡ cut_middle marker (lines input)) × (length (lines output) ≡ 181))

not_ltb : (a b : ℕ) → b ≤ a → ltb a b ≡ false
not_ltb a b h = ground arith

truncate_with-IsCut :
    (marker : ℕ → Bytes) (input : Bytes)
    → ((n : ℕ) → Free newline (marker n))
    → IsCut marker input (truncate_with marker input)
unfolding truncate_with
truncate_with-IsCut marker input no_newline = (
  λ short. rw (lt→ltb (length (lines input)) smart_min_lines short, truncate_with) refl,
  λ long.
      (let cut = cut_middle marker (lines input) in
        let n = cut_middle-length marker (lines input) long in
        let split_free : AllFree newline (lines input) =
          (unfold lines in split-AllFree newline input) in
        let big : ltb (length (lines input)) smart_min_lines ≡ false = (not_ltb _ _ long) in
        let same : truncate_with marker input ≡ unlines cut = (rw (big, truncate_with) refl) in
        let read : lines (truncate_with marker input) ≡ cut =
          ap lines same
          ∙ lines-unlines_free cut (omega arith)
              (cut_middle-AllFree marker (lines input) no_newline split_free) in
        (read, ap length read ∙ n)),
)

-- `SmartTruncate` gives a text of fewer than 250 lines back, and of a longer one 181 lines, which
-- are its first 120 lines, one marker and its last 60 lines.
pub smart_truncate-IsCut : (input : Bytes) → IsCut truncated_marker input (smart_truncate input)
unfolding smart_truncate
smart_truncate-IsCut input = truncate_with-IsCut truncated_marker input truncated_marker-Free

pub read_numbered-IsCut : (input : Bytes) → IsCut file_marker input (read_numbered input)
unfolding read_numbered
read_numbered-IsCut input = truncate_with-IsCut file_marker input file_marker-Free
