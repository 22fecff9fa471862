-- ===== src/Tests/Filters.antt =====
-- internal/rtk at concrete inputs.
use cpa_plugin_token_saver.Common.{
  [], false, inl, inr, length, refl, some, true, ◌++◌, ◌∷◌, ◌≡◌, ◌≤◌,
}
use cpa_plugin_token_saver.Text.{
  Bytes, bytes_eq, codes, contains, decimal, decimal_from, has_prefix, index_byte, index_of,
  is_blank, space_width, space_width_back, trim_by, trim_space,
}
use cpa_plugin_token_saver.Rtk.BuildOutput.{
  BuildPatterns, build_lines, line_kind, new_build, report, to_lower,
}
use cpa_plugin_token_saver.Rtk.Detect.{
  Patterns, count_lines, detect, detect_rest, grep_line, has_drive, head_of, is_ascii_alpha,
  is_porcelain, mostly_line_numbered, mostly_porcelain, non_empty_lines, numbered, path_like,
}
use cpa_plugin_token_saver.Rtk.GitDiff.{
  begin_file, begin_hunk, diff_line, diff_lines, diff_result, file_of, flush_counts, flush_skipped,
  hunk_line,
}
use cpa_plugin_token_saver.Rtk.Registry.{find_filter, resolve}
use cpa_plugin_token_saver.Text.Lines.{cons_head, lines, split}
use cpa_plugin_token_saver.Rtk.BuildOutput.Kept.{report-errors}
use cpa_plugin_token_saver.Rtk.Detect.Names.{detect-read_numbered}
use cpa_plugin_token_saver.Rtk.GitDiff.Bounds.{diff_result_bounded}
use cpa_plugin_token_saver.Protocol.Payload.Rewrite.Offered.{Has}

diff_result_bounded_example :
    length (diff_result (codes "diff --git a/x b/x\n@@ -1 +1 @@\n+a")) ≤ 506
diff_result_bounded_example = diff_result_bounded (codes "diff --git a/x b/x\n@@ -1 +1 @@\n+a")

diff_result_runs :
    diff_result (codes "diff --git a/x b/x\n@@ -1 +1 @@\n+a")
    ≡ codes "\nx" ∷ codes "  @@ -1 +1 @@" ∷ codes "  +a" ∷ codes "  +1 -0" ∷ []
unfolding diff_result diff_lines diff_line begin_file begin_hunk hunk_line flush_skipped
    flush_counts file_of lines split cons_head has_prefix index_of decimal decimal_from
diff_result_runs = refl

abbrev no_patterns : BuildPatterns
no_patterns = record {
  cargo_continuation = λ s. false;
  build_compiling = λ s. false;
  build_downloading = λ s. false;
  build_summary = λ s. false;
}

abbrev build_text : Bytes
build_text = codes "npm warn x\nERROR: lost\n"

report-errors_example :
    Has (codes "ERROR: lost") (report (build_lines no_patterns new_build (lines build_text)))
unfolding lines split cons_head line_kind to_lower has_prefix is_blank trim_space trim_by
    space_width space_width_back bytes_eq
report-errors_example =
    report-errors no_patterns build_text (codes "ERROR: lost") (inr (inl refl)) refl

-- Patterns that take every line for a numbered one.
abbrev numbered_patterns : Patterns
numbered_patterns = record {
  git_log = λ s. false;
  git_diff = λ s. false;
  git_status = λ s. false;
  build = λ s. false;
  tree = λ s. false;
  ls_row = λ s. false;
  ls_total = λ s. false;
  search_list = λ s. false;
  read_numbered = λ s. true;
}

-- Five short lines, and 245 empty ones.
abbrev numbered_text : Bytes
numbered_text =
    codes "1|\n2|\n3|\n4|\n5|\n"
    ++ codes
        "\n\n\n\n\n\n\n\n\n\n\n\n\n\n\n\n\n\n\n\n\n\n\n\n\n\n\n\n\n\n\n\n\n\n\n\n\n\n\n\n\n\n\n\n\n\n\n\n\n\n\n\n\n\n\n\n\n\n\n\n"
    ++ (codes
          "\n\n\n\n\n\n\n\n\n\n\n\n\n\n\n\n\n\n\n\n\n\n\n\n\n\n\n\n\n\n\n\n\n\n\n\n\n\n\n\n\n\n\n\n\n\n\n\n\n\n\n\n\n\n\n\n\n\n\n\n"
        ++ (codes
              "\n\n\n\n\n\n\n\n\n\n\n\n\n\n\n\n\n\n\n\n\n\n\n\n\n\n\n\n\n\n\n\n\n\n\n\n\n\n\n\n\n\n\n\n\n\n\n\n\n\n\n\n\n\n\n\n\n\n\n\n"
            ++ codes
                "\n\n\n\n\n\n\n\n\n\n\n\n\n\n\n\n\n\n\n\n\n\n\n\n\n\n\n\n\n\n\n\n\n\n\n\n\n\n\n\n\n\n\n\n\n\n\n\n\n\n\n\n\n\n\n\n\n\n\n\n\n\n\n\n\n"))

numbered_found : detect numbered_patterns numbered_text ≡ some (codes "read-numbered")
unfolding detect head_of lines split cons_head non_empty_lines is_blank trim_space trim_by
    space_width space_width_back bytes_eq mostly_porcelain count_lines is_porcelain grep_line
    has_drive numbered index_byte path_like is_ascii_alpha contains has_prefix detect_rest
    mostly_line_numbered resolve find_filter
numbered_found = refl

detect-read_numbered_example :
    (length (head_of numbered_text) ≤ 1024) × (250 ≤ length (lines (head_of numbered_text)))
detect-read_numbered_example = detect-read_numbered numbered_patterns numbered_text numbered_found
