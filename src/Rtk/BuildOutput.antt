-- ===== src/Rtk/BuildOutput.antt =====
-- internal/rtk/filters/build.go: `BuildOutput`, which keeps the errors of a build and cuts the rest.
-- The regular expressions are arguments, by whether they match.
use cpa_plugin_token_saver.Common.{
  Bool, List, [], false, if◌then◌else◌, leb, length, ltb, take, true, ℕ, ◌&&◌, ◌++◌, ◌+◌, ◌-◌, ◌==◌,
  ◌||◌, ◌∷◌,
}
use cpa_plugin_token_saver.Text.{
  Bytes, codes, decimal, has_prefix, is_blank, trim_right, trim_space,
}
use cpa_plugin_token_saver.Text.Lines.{lines, newline}
pub mod Kept

pub record BuildPatterns : Type 0 where
  pub cargo_continuation : Bytes → Bool
  pub build_compiling : Bytes → Bool
  pub build_downloading : Bytes → Bool
  pub build_summary : Bytes → Bool

abbrev lower_byte : ℕ → ℕ
lower_byte c = if leb 65 c && leb c 90 then c + 32 else c

-- strings.ToLower as far as the start of a text, compared with an ASCII one, can tell: besides the
-- ASCII letters, U+212A and U+0130 have ASCII ones as their lower case.
unfoldable pub to_lower : Bytes → Bytes
to_lower [] = []
to_lower (a ∷ []) = lower_byte a ∷ []
to_lower (a ∷ b ∷ []) =
    if a == 0xc4 && b == 0xb0 then 105 ∷ [] else lower_byte a ∷ lower_byte b ∷ []
to_lower (a ∷ b ∷ c ∷ s) =
    let after_one = to_lower (b ∷ c ∷ s) in
    let after_two = to_lower (c ∷ s) in
    let after_three = to_lower s in
    if a == 0xc4 && b == 0xb0
    then 105 ∷ after_two
    else (if a == 0xe2 && b == 0x84 && c == 0xaa
        then 107 ∷ after_three
        else lower_byte a ∷ after_one)

-- What the `switch` takes a line for.
pub data LineKind : Type 0 where
  error_line cargo_error_line : LineKind
  deprecation_line warning_line cargo_warning_line : LineKind
  compiling_line downloading_line summary_line other_line : LineKind

abbrev starts_with : Bytes → List Bytes → Bool
starts_with s [] = false
starts_with s (p ∷ ps) = has_prefix s p || starts_with s ps

pub record BuildState : Type 0 where
  pub errors : List Bytes
  pub warnings : List Bytes
  pub deprecations : List Bytes
  pub summaries : List Bytes
  pub compiling : ℕ
  pub downloading : ℕ
  pub in_cargo_error : Bool

abbrev pub new_build : BuildState
new_build = record {
  errors = [];
  warnings = [];
  deprecations = [];
  summaries = [];
  compiling = 0;
  downloading = 0;
  in_cargo_error = false;
}

-- One line of the loop, by its kind.
unfoldable pub note_line : LineKind → BuildState → Bytes → BuildState
note_line error_line s line = record s { errors = s.errors ++ line ∷ [] }
note_line cargo_error_line s line = record s {
  errors = s.errors ++ line ∷ [];
  in_cargo_error = true;
}
note_line deprecation_line s line = record s { deprecations = s.deprecations ++ line ∷ [] }
note_line warning_line s line = record s { warnings = s.warnings ++ line ∷ [] }
note_line cargo_warning_line s line = record s {
  warnings = s.warnings ++ line ∷ [];
  in_cargo_error = true;
}
note_line compiling_line s line = record s { compiling = s.compiling + 1 }
note_line downloading_line s line = record s { downloading = s.downloading + 1 }
note_line summary_line s line = record s { summaries = s.summaries ++ line ∷ [] }
note_line other_line s line = s

-- The first lines of a list, and a line about the others.
abbrev pub at_most : ℕ → Bytes → List Bytes → List Bytes
at_most n what ls =
    take n ls
    ++ (if ltb n (length ls) then (codes "... +" ++ (decimal (length ls - n) ++ what)) ∷ [] else [])

abbrev pub counted_line : Bytes → ℕ → List Bytes
counted_line what n = if n == 0 then [] else (what ++ (decimal n ++ codes " packages")) ∷ []

-- The lines that are printed.
unfoldable pub report : BuildState → List Bytes
report s =
    at_most 3 (codes " more deprecated packages") s.deprecations
    ++ (counted_line (codes "Compiled ") s.compiling
        ++ (counted_line (codes "Downloaded ") s.downloading
            ++ (s.errors ++ (at_most 5 (codes " more warnings") s.warnings ++ s.summaries))))

-- Each with the line's end, as fmt.Fprintln writes it.
unfoldable pub printed : List Bytes → Bytes
printed [] = []
printed (line ∷ ls) = line ++ (newline ∷ printed ls)

module _ (b : BuildPatterns) where
  unfoldable pub line_kind : Bytes → LineKind
  unfolding to_lower
  line_kind trimmed =
      let lower = to_lower trimmed in
      if starts_with lower (codes "npm err!" ∷ codes "npm error" ∷ codes "yarn error" ∷ [])
      then error_line
      else (if has_prefix lower (codes "npm warn deprecated")
          then deprecation_line
          else (if starts_with lower (codes "npm warn" ∷ codes "yarn warn" ∷ [])
              then warning_line
              else (if starts_with lower (codes "error[" ∷ codes "error:" ∷ codes "error -->" ∷ [])
                  then cargo_error_line
                  else (if starts_with lower
                        (codes "warning[" ∷ codes "warning:" ∷ codes "warning -->" ∷ [])
                      then cargo_warning_line
                      else (if starts_with lower
                            (codes "error:" ∷ codes "[error]" ∷ codes "build failed" ∷ [])
                          then error_line
                          else (if has_prefix lower (codes "[warning]")
                              then warning_line
                              else (if b.build_compiling trimmed
                                  then compiling_line
                                  else (if b.build_downloading trimmed
                                      then downloading_line
                                      else (if b.build_summary trimmed
                                          then summary_line
                                          else other_line)))))))))

  -- A line outside a cargo error.
  unfoldable pub plain_line : BuildState → Bytes → BuildState
  plain_line s line = if is_blank line then s else note_line (line_kind (trim_space line)) s line

  unfoldable pub build_line : BuildState → Bytes → BuildState
  build_line s line =
      if s.in_cargo_error
      then (if is_blank line
          then record s { in_cargo_error = false }
          else (if b.cargo_continuation line
              then record s { errors = s.errors ++ line ∷ [] }
              else plain_line (record s { in_cargo_error = false }) line))
      else plain_line s line

  unfoldable pub build_lines : BuildState → List Bytes → BuildState
  build_lines s [] = s
  build_lines s (line ∷ ls) = build_lines (build_line s line) ls

  abbrev is_newline : ℕ → Bool
  is_newline c = c == newline

  unfoldable pub build_output : Bytes → Bytes
  build_output input =
      let result = trim_right is_newline (printed (report (build_lines new_build (lines input)))) in
      if length input == 0 then input else (if length result == 0 then input else result)
