-- ===== src/Rtk/Detect.antt =====
-- internal/rtk/detect.go: which filter a text gets. The regular expressions are arguments, one for
-- each that the file compiles, by whether it matches.
use cpa_plugin_token_saver.Common.{
  Bool, List, Option, [], drop, false, if◌then◌else◌, leb, length, ltb, none, not, some, suc, take,
  true, zero, ℕ, ◌&&◌, ◌*◌, ◌+◌, ◌==◌, ◌||◌, ◌∷◌,
}
use cpa_plugin_token_saver.Text.{
  Bytes, codes, contains, has_prefix, index_byte, is_blank, trim_space,
}
use cpa_plugin_token_saver.Metrics.Totals.{hits}
use cpa_plugin_token_saver.Rtk.Registry.{resolve}
use cpa_plugin_token_saver.Text.Lines.{lines}
pub mod Names

pub record Patterns : Type 0 where
  pub git_log : Bytes → Bool
  pub git_diff : Bytes → Bool
  pub git_status : Bytes → Bool
  pub build : Bytes → Bool
  pub tree : Bytes → Bool
  pub ls_row : Bytes → Bool
  pub ls_total : Bytes → Bool
  pub search_list : Bytes → Bool
  pub read_numbered : Bytes → Bool

abbrev pub detect_window_bytes : ℕ
detect_window_bytes = 1024

-- utf8.RuneStart.
abbrev is_rune_start : ℕ → Bool
is_rune_start b = not (leb 0x80 b && ltb b 0xc0)

unfoldable pub byte_at : Bytes → ℕ → ℕ
byte_at [] i = 0
byte_at (c ∷ s) zero = c
byte_at (c ∷ s) (suc i) = byte_at s i

-- The loop that moves the end of the window to the start of a rune.
unfoldable pub window_end : Bytes → ℕ → ℕ
unfolding byte_at
window_end text zero = 0
window_end text (suc n) =
    let earlier = window_end text n in
    if is_rune_start (byte_at text (suc n)) then suc n else earlier

unfoldable pub head_of : Bytes → Bytes
unfolding window_end
head_of text =
    if ltb detect_window_bytes (length text)
    then take (window_end text detect_window_bytes) text
    else text

unfoldable pub is_ascii_alpha : ℕ → Bool
is_ascii_alpha b = (leb 65 b && leb b 90) || (leb 97 b && leb b 122)

-- A Windows drive at the front: a letter, a colon and a slash of either kind.
unfoldable pub has_drive : Bytes → Bool
unfolding is_ascii_alpha
has_drive (a ∷ b ∷ c ∷ s) = is_ascii_alpha a && b == 58 && (c == 92 || c == 47)
has_drive _ = false

abbrev all_digits : Bytes → Bool
all_digits [] = true
all_digits (c ∷ s) = (leb 48 c && leb c 57) && all_digits s

-- The number between two colons, in what follows the drive.
unfoldable pub numbered : Bytes → Bool
numbered rest = elim (index_byte rest 58) [
  | none ↦ false
  | some i ↦
      let after = drop (i + 1) rest in
      elim (index_byte after 58) [
        | none ↦ false
        | some j ↦ not (j == 0) && all_digits (take j after)
      ]
]

unfoldable pub grep_line : Bytes → Bool
unfolding has_drive numbered
grep_line line = numbered (if has_drive line then drop 2 line else line)

abbrev has_slash : Bytes → Bool
has_slash [] = false
has_slash (c ∷ s) = (c == 47 || c == 92) || has_slash s

unfoldable pub path_like : Bytes → Bool
unfolding has_drive
path_like line =
    let trimmed = trim_space line in
    if has_drive trimmed
    then true
    else (if contains trimmed (codes ":")
        then false
        else has_prefix trimmed (codes ".") || has_prefix trimmed (codes "/") || has_slash trimmed)

unfoldable pub non_empty_lines : List Bytes → List Bytes
non_empty_lines [] = []
non_empty_lines (line ∷ ls) =
    let rest = non_empty_lines ls in if is_blank line then rest else line ∷ rest

-- How many lines of a list pass a test.
unfoldable pub count_lines : (Bytes → Bool) → List Bytes → ℕ
count_lines test [] = 0
count_lines test (line ∷ ls) =
    let rest = count_lines test ls in if test line then suc rest else rest

abbrev any_line : (Bytes → Bool) → List Bytes → Bool
any_line test [] = false
any_line test (line ∷ ls) = test line || any_line test ls

abbrev every_line : (Bytes → Bool) → List Bytes → Bool
every_line test [] = true
every_line test (line ∷ ls) = test line && every_line test ls

abbrev is_status_code : ℕ → Bool
is_status_code c =
    c == 32 || c == 77 || c == 65 || c == 68 || c == 82 || c == 67 || c == 85 || c == 63 || c == 33

-- Two status codes, a space and a name.
unfoldable pub is_porcelain : Bytes → Bool
is_porcelain (x ∷ y ∷ s ∷ c ∷ rest) = s == 32 && is_status_code x && is_status_code y
is_porcelain _ = false

-- `hits / lines >= 0.6` in float64: the quotient of two lengths in memory is rounded to 0.6 or more
-- exactly if it is 3/5 or more.
unfoldable pub mostly_porcelain : Bytes → Bool
unfolding non_empty_lines count_lines is_porcelain
mostly_porcelain head =
    let ls = non_empty_lines (lines head) in
    if ltb (length ls) 3 then false else leb (3 * length ls) (5 * count_lines is_porcelain ls)

module _ (p : Patterns) where
  -- The same for 0.7, among the lines of the first hundred that have bytes.
  unfoldable pub mostly_line_numbered : List Bytes → Bool
  unfolding count_lines
  mostly_line_numbered ls =
      let hundred = take 100 ls in
      let non_empty = count_lines (λ line. not (length line == 0)) hundred in
      let hits = count_lines (λ line. not (length line == 0) && p.read_numbered line) hundred in
      leb 5 non_empty && leb (7 * non_empty) (10 * hits)

  -- The tests from the tree on.
  unfoldable pub detect_rest : Bytes → Bytes → List Bytes → List Bytes → Option Bytes
  unfolding mostly_line_numbered
  detect_rest text head ls non_empty =
      if p.tree head
      then resolve (codes "tree")
      else (if p.ls_total head || leb 3 (count_lines p.ls_row ls)
          then resolve (codes "ls")
          else (if p.search_list head
              then resolve (codes "search-list")
              else (if leb 250 (length ls) && mostly_line_numbered ls
                  then resolve (codes "read-numbered")
                  else (if leb 5 (length non_empty)
                      then resolve (codes "dedup-log")
                      else (if leb 250 (length (lines text))
                          then resolve (codes "smart-truncate")
                          else none)))))

  unfoldable pub detect : Bytes → Option Bytes
  unfolding detect_rest head_of
  detect text =
      let head = head_of text in
      let ls = lines head in
      let non_empty = non_empty_lines ls in
      if p.git_log head
      then resolve (codes "git-log")
      else (if p.git_diff head
          then resolve (codes "git-diff")
          else (if p.git_status head
              then resolve (codes "git-status")
              else (if p.build head
                  then resolve (codes "build-output")
                  else (if mostly_porcelain head
                      then resolve (codes "git-status")
                      else (if any_line grep_line (take 5 non_empty)
                          then resolve (codes "grep")
                          else (if leb 3 (length non_empty) && every_line path_like non_empty
                              then resolve (codes "find")
                              else detect_rest text head ls non_empty))))))
