-- ===== src/Rtk/Tree.antt =====
-- internal/rtk/filters/system.go: `Tree`, which drops the summaries and caps a long tree.
use cpa_plugin_token_saver.Common.{
  Bool, Bool-cases, List, [], arith, false, if◌then◌else◌, inl, inr, length, ltb, reverse, subst,
  sym, take, true, ℕ, ◌&&◌, ◌++◌, ◌-◌, ◌==◌, ◌||◌, ◌∷◌, ◌≡◌,
}
use cpa_plugin_token_saver.Text.{Bytes, codes, contains, decimal, is_blank}
use cpa_plugin_token_saver.Text.Lines.{lines, unlines}
use mathlib.Core.List.{reverse-reverse}

abbrev pub tree_max_lines : ℕ
tree_max_lines = 200

abbrev pub is_summary : Bytes → Bool
is_summary line = contains line (codes "director") && contains line (codes "file")

-- The first loop; the kept lines have the last one first.
unfoldable pub filter_tree : List Bytes → List Bytes → List Bytes
filter_tree kept_lines [] = kept_lines
filter_tree kept_lines (line ∷ ls) =
    elim (is_summary line || (length kept_lines == 0 && is_blank line)) [
      | true ↦ filter_tree kept_lines ls
      | false ↦ filter_tree (line ∷ kept_lines) ls
    ]

-- The second loop, over the reversed lines.
unfoldable pub drop_blank : List Bytes → List Bytes
drop_blank [] = []
drop_blank (line ∷ ls) = let rest = drop_blank ls in if is_blank line then rest else line ∷ ls

unfoldable pub tree_lines : Bytes → List Bytes
unfolding filter_tree drop_blank
tree_lines input = reverse (drop_blank (filter_tree [] (lines input)))

unfoldable pub tree : Bytes → Bytes
unfolding tree_lines
tree input =
    let filtered_lines = tree_lines input in
    if ltb tree_max_lines (length filtered_lines)
    then unlines (take tree_max_lines filtered_lines)
      ++ (codes "\n... +"
          ++ (decimal (length filtered_lines - tree_max_lines) ++ codes " more lines"))
    else unlines filtered_lines

-- No line of the list is a summary.
abbrev pub NoSummary : List Bytes → Type 0
NoSummary [] = Unit {0}
NoSummary (line ∷ ls) = (is_summary line ≡ false) × NoSummary ls

-- The list does not begin with a blank line.
abbrev pub FirstFilled : List Bytes → Type 0
FirstFilled [] = Unit {0}
FirstFilled (line ∷ ls) = is_blank line ≡ false

NoSummary-filter_tree : (acc ls : List Bytes) → NoSummary acc → NoSummary (filter_tree acc ls)
unfolding filter_tree
NoSummary-filter_tree acc [] h = h
NoSummary-filter_tree acc (line ∷ ls) h =
    elim (Bool-cases (is_summary line || (length acc == 0 && is_blank line))) [
      | inl skip ↦ rw (skip, filter_tree) (NoSummary-filter_tree acc ls h)
      | inr keep ↦ rw (keep, filter_tree) (NoSummary-filter_tree (line ∷ acc) ls (ground arith, h))
    ]

NoSummary-drop_blank : (ls : List Bytes) → NoSummary ls → NoSummary (drop_blank ls)
unfolding drop_blank
NoSummary-drop_blank [] h = tt
NoSummary-drop_blank (line ∷ ls) (hl, h) = elim (Bool-cases (is_blank line)) [
  | inl nothing ↦ rw (nothing, drop_blank) (NoSummary-drop_blank ls h)
  | inr filled ↦ rw (filled, drop_blank) (hl, h)
]

FirstFilled-drop_blank : (ls : List Bytes) → FirstFilled (drop_blank ls)
unfolding drop_blank
FirstFilled-drop_blank [] = tt
FirstFilled-drop_blank (line ∷ ls) = elim (Bool-cases (is_blank line)) [
  | inl nothing ↦ rw (nothing, drop_blank) (FirstFilled-drop_blank ls)
  | inr filled ↦ rw (filled, drop_blank) filled
]

-- The lines that `Tree` keeps, read from the back, have no summary among them and do not begin with
-- a blank line.
pub tree_lines_clean :
    (input : Bytes)
    → NoSummary (reverse (tree_lines input)) × FirstFilled (reverse (tree_lines input))
unfolding tree_lines
tree_lines_clean input =
    let found = filter_tree [] (lines input) in
    let back : reverse (tree_lines input) ≡ drop_blank found = reverse-reverse (drop_blank found) in
    (
      subst NoSummary (sym back)
          (NoSummary-drop_blank found (NoSummary-filter_tree [] (lines input) tt)),
      subst FirstFilled (sym back) (FirstFilled-drop_blank found),
    )
