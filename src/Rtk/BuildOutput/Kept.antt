-- ===== src/Rtk/BuildOutput/Kept.antt =====
-- No error of a build is lost.
use cpa_plugin_token_saver.Common.{
  Bool, List, [], arith, false, false≢true, if◌then◌else◌, inl, inr, not, refl, subst, sym, true,
  ◌&&◌, ◌++◌, ◌∷◌, ◌≡◌,
}
use cpa_plugin_token_saver.Text.{Bytes, codes, is_blank, trim_space}
use cpa_plugin_token_saver.Rtk.BuildOutput.{
  BuildPatterns, BuildState, LineKind, at_most, build_line, build_lines, cargo_error_line,
  cargo_warning_line, compiling_line, counted_line, deprecation_line, downloading_line, error_line,
  line_kind, new_build, note_line, other_line, plain_line, report, summary_line, warning_line,
}
use cpa_plugin_token_saver.Rtk.DedupLog.{blank_line}
use cpa_plugin_token_saver.Text.Lines.{lines}
use cpa_plugin_token_saver.Protocol.Payload.Rewrite.Offered.{Has}

abbrev is_error_kind : LineKind → Bool
is_error_kind error_line = true
is_error_kind cargo_error_line = true
is_error_kind _ = false

abbrev Holds : Bytes → BuildState → Type 0
Holds line s = Has line s.errors

Has-append_left : (l : Bytes) (xs ys : List Bytes) → Has l xs → Has l (xs ++ ys)
Has-append_left l [] ys h = absurd h.lower
Has-append_left l (x ∷ xs) ys (inl same) = inl same
Has-append_left l (x ∷ xs) ys (inr h) = inr (Has-append_left l xs ys h)

Has-append_right : (l : Bytes) (xs ys : List Bytes) → Has l ys → Has l (xs ++ ys)
Has-append_right l [] ys h = h
Has-append_right l (x ∷ xs) ys h = inr (Has-append_right l xs ys h)

note_line-Holds :
    (l line : Bytes) (kind : LineKind) (s : BuildState)
    → Holds l s
    → Holds l (note_line kind s line)
unfolding note_line
note_line-Holds l line error_line s h = Has-append_left l s.errors (line ∷ []) h
note_line-Holds l line cargo_error_line s h = Has-append_left l s.errors (line ∷ []) h
note_line-Holds l line deprecation_line s h = h
note_line-Holds l line warning_line s h = h
note_line-Holds l line cargo_warning_line s h = h
note_line-Holds l line compiling_line s h = h
note_line-Holds l line downloading_line s h = h
note_line-Holds l line summary_line s h = h
note_line-Holds l line other_line s h = h

note_line-error :
    (line : Bytes) (kind : LineKind) (s : BuildState)
    → is_error_kind kind ≡ true
    → Holds line (note_line kind s line)
unfolding note_line
note_line-error line error_line s h = Has-append_right line s.errors (line ∷ []) (inl refl)
note_line-error line cargo_error_line s h = Has-append_right line s.errors (line ∷ []) (inl refl)
note_line-error line deprecation_line s h = absurd (false≢true h)
note_line-error line warning_line s h = absurd (false≢true h)
note_line-error line cargo_warning_line s h = absurd (false≢true h)
note_line-error line compiling_line s h = absurd (false≢true h)
note_line-error line downloading_line s h = absurd (false≢true h)
note_line-error line summary_line s h = absurd (false≢true h)
note_line-error line other_line s h = absurd (false≢true h)

either_state :
    (Q : BuildState → Type 0) (b : Bool) (x y : BuildState)
    → (b ≡ true → Q x)
    → (b ≡ false → Q y)
    → Q (if b then x else y)
either_state Q true x y h k = h refl
either_state Q false x y h k = k refl

module _ (b : BuildPatterns) where
  -- A line that is not blank and that the `switch` takes for an error.
  abbrev pub is_error : Bytes → Bool
  is_error line = not (is_blank line) && is_error_kind (line_kind b (trim_space line))

  no_blank_error : (line : Bytes) → is_blank line ≡ true → is_error line ≡ true → ⊥
  no_blank_error line blank_line h = ground arith

  plain_line-Holds : (l line : Bytes) (s : BuildState) → Holds l s → Holds l (plain_line b s line)
  unfolding plain_line
  plain_line-Holds l line s h =
      either_state (Holds l) (is_blank line) _ _ (λ blank_line. h)
        (λ filled. note_line-Holds l line _ s h)

  plain_line-error :
      (line : Bytes) (s : BuildState) → is_error line ≡ true → Holds line (plain_line b s line)
  unfolding plain_line
  plain_line-error line s h =
      either_state (Holds line) (is_blank line) _ _
        (λ blank_line. absurd (no_blank_error line blank_line h))
        (λ filled. note_line-error line _ s (ground arith))

  build_line-Holds : (l line : Bytes) (s : BuildState) → Holds l s → Holds l (build_line b s line)
  unfolding build_line
  build_line-Holds l line s h =
      either_state (Holds l) s.in_cargo_error _ _
        (λ inside.
          either_state (Holds l) (is_blank line) _ _ (λ blank_line. h)
            (λ filled.
              either_state (Holds l) (b.cargo_continuation line) _ _
                (λ part. Has-append_left l s.errors (line ∷ []) h)
                (λ outside. plain_line-Holds l line (record s { in_cargo_error = false }) h)))
        (λ outside. plain_line-Holds l line s h)

  build_line-error :
      (line : Bytes) (s : BuildState) → is_error line ≡ true → Holds line (build_line b s line)
  unfolding build_line
  build_line-error line s h =
      either_state (Holds line) s.in_cargo_error _ _
        (λ inside.
          either_state (Holds line) (is_blank line) _ _
            (λ blank_line. absurd (no_blank_error line blank_line h))
            (λ filled.
              either_state (Holds line) (b.cargo_continuation line) _ _
                (λ part. Has-append_right line s.errors (line ∷ []) (inl refl))
                (λ outside. plain_line-error line (record s { in_cargo_error = false }) h)))
        (λ outside. plain_line-error line s h)

  build_lines-Holds :
      (l : Bytes) (s : BuildState) (ls : List Bytes) → Holds l s → Holds l (build_lines b s ls)
  unfolding build_lines
  build_lines-Holds l s [] h = h
  build_lines-Holds l s (line ∷ ls) h =
      build_lines-Holds l (build_line b s line) ls (build_line-Holds l line s h)

  build_lines-error :
      (l : Bytes) (s : BuildState) (ls : List Bytes)
      → Has l ls
      → is_error l ≡ true
      → Holds l (build_lines b s ls)
  unfolding build_lines
  build_lines-error l s [] h e = absurd h.lower
  build_lines-error l s (line ∷ ls) (inl same) e =
      build_lines-Holds l (build_line b s line) ls
        (subst (λ x. Holds l (build_line b s x)) (sym same) (build_line-error l s e))
  build_lines-error l s (line ∷ ls) (inr h) e = build_lines-error l (build_line b s line) ls h e

  -- Every line of a build that is taken for an error when it stands alone is among the printed
  -- lines, also inside the continuation of another error.
  pub report-errors :
      (input line : Bytes)
      → Has line (lines input)
      → is_error line ≡ true
      → Has line (report (build_lines b new_build (lines input)))
  unfolding report
  report-errors input line h e =
      let s = build_lines b new_build (lines input) in
      Has-append_right line (at_most 3 (codes " more deprecated packages") s.deprecations) _ (
        Has-append_right line (counted_line (codes "Compiled ") s.compiling) _ (
          Has-append_right line (counted_line (codes "Downloaded ") s.downloading) _
            (Has-append_left line s.errors _ (build_lines-error line new_build (lines input) h e))))
