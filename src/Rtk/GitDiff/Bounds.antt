-- ===== src/Rtk/GitDiff/Bounds.antt =====
-- How much of a diff `GitDiff` shows.
use cpa_plugin_token_saver.Common.{
  Bool, Bool-cases, List, [], arith, false, if◌then◌else◌, inl, inr, leb, length, length-append,
  ltb, not, refl, true, ℕ, ◌&&◌, ◌++◌, ◌+◌, ◌==◌, ◌||◌, ◌∷◌, ◌≡◌, ◌≤◌,
}
use cpa_plugin_token_saver.Text.{Bytes, codes, decimal, has_prefix}
use cpa_plugin_token_saver.Rtk.GitDiff.{
  DiffState, begin_file, begin_hunk, counted, diff_line, diff_lines, diff_max_lines, diff_result,
  file_of, flush_counts, flush_skipped, git_diff_hunk_max_lines, hunk_line, is_added, is_removed,
  new_diff, push, show,
}
use cpa_plugin_token_saver.Text.Lines.{lines, newline}

-- The lines that are shown of a hunk, and the lines that are kept at all.
pub record IsBounded (limit : ℕ) (d : DiffState) : Type 0 where
  pub short : length d.result ≤ limit
  pub hunk : d.shown ≤ git_diff_hunk_max_lines

push-length : (d : DiffState) (line : Bytes) → length (push d line).result ≡ length d.result + 1
push-length d line = length-append d.result (line ∷ [])

flush_skipped-IsBounded :
    (n : ℕ) (d : DiffState) → IsBounded n d → IsBounded (n + 1) (flush_skipped d)
unfolding flush_skipped
flush_skipped-IsBounded n d h = elim (Bool-cases (d.skipped == 0)) [
  | inl nothing ↦
      rw (nothing, flush_skipped) (record { short = omega (arith, h.short); hunk = h.hunk })
  | inr lines_left ↦
      let size =
        push-length d (codes "  ... (" ++ (decimal d.skipped ++ codes " lines truncated)")) in
      rw (lines_left, flush_skipped) (record { short = omega (arith, h.short); hunk = h.hunk })
]

flush_counts-IsBounded :
    (n : ℕ) (d : DiffState) → IsBounded n d → IsBounded (n + 1) (flush_counts d)
unfolding flush_counts
flush_counts-IsBounded n d h =
    elim (Bool-cases (length d.current_file == 0 || (d.added == 0 && d.removed == 0))) [
      | inl nothing ↦
          rw (nothing, flush_counts) (record { short = omega (arith, h.short); hunk = h.hunk })
      | inr changed ↦
          let size =
            push-length d (codes "  +" ++ (decimal d.added ++ (codes " -" ++ decimal d.removed))) in
          rw (changed, flush_counts) (record { short = omega (arith, h.short); hunk = h.hunk })
    ]

begin_file-IsBounded :
    (n : ℕ) (d : DiffState) (line : Bytes) → IsBounded n d → IsBounded (n + 3) (begin_file d line)
unfolding begin_file
begin_file-IsBounded n d line h =
    let flushed =
      flush_counts-IsBounded (n + 1) (flush_skipped d) (flush_skipped-IsBounded n d h) in
    let size = push-length (flush_counts (flush_skipped d)) (newline ∷ file_of line) in
    record { short = omega (arith, flushed.short); hunk = omega arith }

begin_hunk-IsBounded :
    (n : ℕ) (d : DiffState) (line : Bytes) → IsBounded n d → IsBounded (n + 3) (begin_hunk d line)
unfolding begin_hunk
begin_hunk-IsBounded n d line h =
    let flushed = flush_skipped-IsBounded n d h in
    let size = push-length (flush_skipped d) (codes "  " ++ line) in
    record { short = omega (arith, flushed.short); hunk = omega arith }

counted-IsBounded :
    (n : ℕ) (d : DiffState) (line : Bytes) → IsBounded n d → IsBounded n (counted d line)
counted-IsBounded n d line h = elim (Bool-cases (is_added line)) [
  | inl plus_line ↦ rw (plus_line) (record { short = h.short; hunk = h.hunk })
  | inr other_line ↦ elim (Bool-cases (is_removed line)) [
    | inl minus_line ↦ rw (other_line, minus_line) (record { short = h.short; hunk = h.hunk })
    | inr neither ↦ rw (other_line, neither) h
  ]
]

show-IsBounded :
    (n : ℕ) (d : DiffState) (line : Bytes)
    → ltb d.shown git_diff_hunk_max_lines ≡ true
    → IsBounded n d
    → IsBounded (n + 3) (show d line)
show-IsBounded n d line room h =
    let size = push-length d (codes "  " ++ line) in
    record { short = omega (arith, h.short); hunk = ground arith }

wider : (n : ℕ) (d : DiffState) → IsBounded n d → IsBounded (n + 3) d
wider n d h = record { short = omega (arith, h.short); hunk = h.hunk }

either_if :
    {n : ℕ} (b : Bool) (x y : DiffState)
    → (b ≡ true → IsBounded n x)
    → IsBounded n y
    → IsBounded n (if b then x else y)
either_if true x y h k = h refl
either_if false x y h k = k

hunk_line-IsBounded :
    (n : ℕ) (d : DiffState) (line : Bytes) → IsBounded n d → IsBounded (n + 3) (hunk_line d line)
unfolding hunk_line
hunk_line-IsBounded n d line h =
    let e = counted d line in
    let k = counted-IsBounded n d line h in
    either_if (is_added line || is_removed line) _ _
      (λ changed.
        either_if (ltb e.shown git_diff_hunk_max_lines) _ _ (λ room. show-IsBounded n e line room k)
          (record { short = (wider n e k).short; hunk = k.hunk }))
      (either_if
        (not (e.shown == 0)
          && ltb e.shown git_diff_hunk_max_lines
          && not (has_prefix line (codes "\\")))
        _ _ (λ test. show-IsBounded n e line (ground arith) k) (wider n e k))

diff_line-IsBounded :
    (n : ℕ) (d : DiffState) (line : Bytes) → IsBounded n d → IsBounded (n + 3) (diff_line d line)
unfolding diff_line
diff_line-IsBounded n d line h =
    either_if (has_prefix line (codes "diff --git")) _ _ (λ file. begin_file-IsBounded n d line h)
      (either_if (has_prefix line (codes "@@")) _ _ (λ header. begin_hunk-IsBounded n d line h)
        (either_if d.in_hunk _ _ (λ inside. hunk_line-IsBounded n d line h) (wider n d h)))

diff_lines-IsBounded :
    (d : DiffState) (ls : List Bytes) → IsBounded 499 d → IsBounded 503 (diff_lines d ls)
unfolding diff_lines
diff_lines-IsBounded d [] h = record { short = omega (arith, h.short); hunk = h.hunk }
diff_lines-IsBounded d (line ∷ ls) h =
    let e = diff_line d line in
    let k = diff_line-IsBounded 499 d line h in
    elim (Bool-cases (leb diff_max_lines (length e.result))) [
      | inl enough ↦
          let size = push-length e (codes "\n... (more changes truncated)") in
          rw (enough, diff_lines) (record { short = omega (arith, k.short); hunk = k.hunk })
      | inr room ↦
          rw (room, diff_lines)
            (diff_lines-IsBounded e ls (record { short = ground arith; hunk = k.hunk }))
    ]

-- However long a diff is, at most 506 lines come out of it, a file's name counting as one.
pub diff_result_bounded : (input : Bytes) → length (diff_result input) ≤ 506
unfolding diff_result
diff_result_bounded input =
    let d = diff_lines new_diff (lines input) in
    let begun : IsBounded 499 new_diff = record { short = omega arith; hunk = omega arith } in
    let walked = diff_lines-IsBounded new_diff (lines input) begun in
    let e = flush_counts (flush_skipped d) in
    let flushed =
      flush_counts-IsBounded 504 (flush_skipped d) (flush_skipped-IsBounded 503 d walked) in
    let size = length-append e.result (codes "[full diff: rtk git diff --no-compact]" ∷ []) in
    elim (Bool-cases e.truncated) [
      | inl cut ↦ rw (cut, diff_result) (omega (arith, flushed.short))
      | inr whole ↦ rw (whole, diff_result) (omega (arith, flushed.short))
    ]
