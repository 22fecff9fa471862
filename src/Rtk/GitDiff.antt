-- ===== src/Rtk/GitDiff.antt =====
-- internal/rtk/filters/git.go: `GitDiff`, which cuts long hunks and long diffs.
use cpa_plugin_token_saver.Common.{
  Bool, List, [], drop, false, if◌then◌else◌, leb, length, ltb, none, not, some, true, ℕ, ◌&&◌,
  ◌++◌, ◌+◌, ◌==◌, ◌||◌, ◌∷◌,
}
use cpa_plugin_token_saver.Text.{Bytes, codes, decimal, has_prefix, index_of}
use cpa_plugin_token_saver.Text.Lines.{lines, newline, unlines}
pub mod Bounds

abbrev pub git_diff_hunk_max_lines : ℕ
git_diff_hunk_max_lines = 100

-- The variables of the loop; the closures that change them are functions of the state.
pub record DiffState : Type 0 where
  pub result : List Bytes
  pub current_file : Bytes
  pub added : ℕ
  pub removed : ℕ
  pub in_hunk : Bool
  pub shown : ℕ
  pub skipped : ℕ
  pub truncated : Bool

abbrev pub new_diff : DiffState
new_diff = record {
  result = [];
  current_file = [];
  added = 0;
  removed = 0;
  in_hunk = false;
  shown = 0;
  skipped = 0;
  truncated = false;
}

-- append of one line.
abbrev pub push : DiffState → Bytes → DiffState
push d line = record d { result = d.result ++ line ∷ [] }

unfoldable pub flush_skipped : DiffState → DiffState
flush_skipped d =
    if d.skipped == 0
    then d
    else record (push d (codes "  ... (" ++ (decimal d.skipped ++ codes " lines truncated)"))) {
      truncated = true;
      skipped = 0;
    }

unfoldable pub flush_counts : DiffState → DiffState
flush_counts d =
    if length d.current_file == 0 || (d.added == 0 && d.removed == 0)
    then d
    else push d (codes "  +" ++ (decimal d.added ++ (codes " -" ++ decimal d.removed)))

-- What stands after the first " b/", as the parts after the first are joined again.
unfoldable pub file_of : Bytes → Bytes
file_of line = elim (index_of line (codes " b/")) [
  | none ↦ codes "unknown"
  | some i ↦ drop (i + 3) line
]

unfoldable pub begin_file : DiffState → Bytes → DiffState
begin_file d line =
    let e = flush_counts (flush_skipped d) in
    let name = file_of line in
    record (push e (newline ∷ name)) {
      current_file = name;
      added = 0;
      removed = 0;
      shown = 0;
      in_hunk = false;
    }

unfoldable pub begin_hunk : DiffState → Bytes → DiffState
begin_hunk d line = record (push (flush_skipped d) (codes "  " ++ line)) {
  in_hunk = true;
  shown = 0;
}

abbrev pub is_added : Bytes → Bool
is_added line = has_prefix line (codes "+") && not (has_prefix line (codes "+++"))

abbrev pub is_removed : Bytes → Bool
is_removed line = has_prefix line (codes "-") && not (has_prefix line (codes "---"))

abbrev pub counted : DiffState → Bytes → DiffState
counted d line =
    if is_added line
    then record d { added = d.added + 1 }
    else (if is_removed line then record d { removed = d.removed + 1 } else d)

abbrev pub show : DiffState → Bytes → DiffState
show d line = record (push d (codes "  " ++ line)) { shown = d.shown + 1 }

unfoldable pub hunk_line : DiffState → Bytes → DiffState
hunk_line d line =
    let e = counted d line in
    if is_added line || is_removed line
    then (if ltb (e.shown) git_diff_hunk_max_lines
        then show e line
        else record e { skipped = e.skipped + 1 })
    else (if not (e.shown == 0)
          && ltb (e.shown) git_diff_hunk_max_lines
          && not (has_prefix line (codes "\\"))
        then show e line
        else e)

-- The `switch` of the loop.
unfoldable pub diff_line : DiffState → Bytes → DiffState
diff_line d line =
    if has_prefix line (codes "diff --git")
    then begin_file d line
    else (if has_prefix line (codes "@@")
        then begin_hunk d line
        else (if d.in_hunk then hunk_line d line else d))

abbrev pub diff_max_lines : ℕ
diff_max_lines = 500

unfoldable pub diff_lines : DiffState → List Bytes → DiffState
diff_lines d [] = d
diff_lines d (line ∷ ls) =
    let e = diff_line d line in
    elim (leb diff_max_lines (length e.result)) [
      | true ↦ record (push e (codes "\n... (more changes truncated)")) { truncated = true }
      | false ↦ diff_lines e ls
    ]

unfoldable pub diff_result : Bytes → List Bytes
diff_result input =
    let d = flush_counts (flush_skipped (diff_lines new_diff (lines input))) in
    if d.truncated
    then d.result ++ codes "[full diff: rtk git diff --no-compact]" ∷ []
    else d.result

unfoldable pub git_diff : Bytes → Bytes
git_diff input = unlines (diff_result input)
