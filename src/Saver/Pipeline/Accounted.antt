-- ===== src/Saver/Pipeline/Accounted.antt =====
-- internal/saver/pipeline.go: which results `Normalize` counts.
use cpa_plugin_token_saver.Common.{
  Bool, Bool-cases, List, Option-cases, [], ap, arith, false, if◌then◌else◌, inl, inr, leb, length,
  none, refl, some, subst, sym, true, ℕ, ◌&&◌, ◌++◌, ◌+◌, ◌*◌, ◌==◌, ◌||◌, ◌∷◌, ◌≡◌, ◌≤◌,
}
use cpa_plugin_token_saver.Config.{Config}
use cpa_plugin_token_saver.Metrics.{Outcome, Stage, caveman, headroom, pipeline, ponytail, rtk}
use cpa_plugin_token_saver.Text.{Bytes}
use cpa_plugin_token_saver.Metrics.Totals.{IsKnown, same_stage}
use cpa_plugin_token_saver.Saver.Dedupe.{dedupe_max_item_bytes}
use cpa_plugin_token_saver.Saver.Pipeline.{
  Options, RunnerAnswer, is_refused, judge_answer, judge_output, judge_runner, kept,
  metric_for_headroom, run_headroom_stage, run_local_stage, runner_answered, runner_panicked,
  stage_answered, stage_failed, stage_panicked, valid_stage,
}
use cpa_plugin_token_saver.Saver.Recording.{Event, all_bypassed, one}
use cpa_plugin_token_saver.Saver.Shape.{Request, valid_provider_shape}
use cpa_plugin_token_saver.Saver.Pipeline.Normalize.{
  Shared, conclude, first_stages, is_bypassed, joined, last_stages, own_panicked, none_enabled,
  normalize, noted, own_work, process,
}
use cpa_plugin_token_saver.Saver.Pipeline.Stages.{Verdict-cases}

-- How often a list of results counts a stage.
unfoldable pub times_counted : Stage → List Event → ℕ
times_counted at [] = 0
times_counted at (one stage outcome input output duration from to ∷ es) =
    (if same_stage at stage then 1 else 0) + times_counted at es
times_counted at (all_bypassed n from to ∷ es) = 1 + times_counted at es

abbrev pub IsOf : Stage → Event → Type 0
IsOf s (one stage outcome input output duration from to) = s ≡ stage
IsOf s (all_bypassed n from to) = ⊥

times_counted-append :
    (at : Stage) (xs ys : List Event)
    → times_counted at (xs ++ ys) ≡ times_counted at xs + times_counted at ys
unfolding times_counted
times_counted-append at [] ys = omega arith
times_counted-append at (one stage _ _ _ _ _ _ ∷ xs) ys =
    omega (arith, times_counted-append at xs ys)
times_counted-append at (all_bypassed _ _ _ ∷ xs) ys = omega (arith, times_counted-append at xs ys)

times_counted-one :
    (at s : Stage) (e : Event) (es : List Event)
    → IsOf s e
    → times_counted at (e ∷ es) ≡ (if same_stage at s then 1 else 0) + times_counted at es
unfolding times_counted
times_counted-one at s (one stage _ _ _ _ _ _) es h =
    ap (λ x. (if same_stage at x then 1 else 0) + times_counted at es) (sym h)
times_counted-one at s (all_bypassed _ _ _) es h = absurd h

judge_output-IsOf :
    (o : Options) (stage : Stage) (saved output : Bytes) (r : Request) (c : Config)
    → IsOf stage (judge_output o stage saved output r c).1
unfolding judge_output
judge_output-IsOf o stage saved output r c = elim (Bool-cases (length output == 0)) [
  | inl nothing ↦ rw (nothing, judge_output) refl
  | inr filled ↦ elim (Verdict-cases (valid_stage o stage saved output r c)) [
    | inl good ↦ rw (filled, good, judge_output) refl
    | inr (inl bad) ↦ rw (filled, bad, judge_output) refl
    | inr (inr crashed) ↦ rw (filled, crashed, judge_output) refl
  ]
]

pub run_local_stage-IsOf :
    (o : Options) (stage : Stage) (enabled : Bool) (saved : Bytes) (r : Request) (c : Config)
    → IsOf stage (run_local_stage o stage enabled saved r c).1
unfolding run_local_stage
run_local_stage-IsOf o stage false saved r c = refl
run_local_stage-IsOf o stage true saved r c =
    elim (o.apply stage saved r c)
      as (λ a.
        IsOf stage
          (elim a as (λ x. Bytes × Event) [
            | stage_panicked ↦ kept o stage Outcome.fail_open saved r
            | stage_failed ↦ kept o stage Outcome.fail_open saved r
            | stage_answered output ↦ judge_output o stage saved output r c
          ]).1) [
            | stage_panicked ↦ refl
            | stage_failed ↦ refl
            | stage_answered output ↦ judge_output-IsOf o stage saved output r c
          ]

judge_answer-IsOf :
    (o : Options) (saved : Bytes) (r : Request) (c : Config) (a : RunnerAnswer)
    → IsOf headroom (judge_answer o saved r c a).1
unfolding judge_answer judge_runner
judge_answer-IsOf o saved r c runner_panicked = refl
judge_answer-IsOf o saved r c (runner_answered output outcome) =
    let metric = metric_for_headroom outcome saved output in
    elim (Bool-cases (is_refused metric || length output == 0)) [
      | inl refused ↦ rw (refused, judge_answer, judge_runner) refl
      | inr filled ↦ elim (Verdict-cases (valid_stage o headroom saved output r c)) [
        | inl good ↦ rw (filled, good, judge_answer, judge_runner) refl
        | inr (inl bad) ↦ rw (filled, bad, judge_answer, judge_runner) refl
        | inr (inr crashed) ↦ rw (filled, crashed, judge_answer, judge_runner) refl
      ]
    ]

run_headroom_stage-IsOf :
    (o : Options) (saved : Bytes) (r : Request) (c : Config)
    → IsOf headroom (run_headroom_stage o saved r c).1
unfolding run_headroom_stage
run_headroom_stage-IsOf o saved r c = elim (Bool-cases c.headroom_enabled) [
  | inr off ↦
      let e : run_headroom_stage o saved r c ≡ kept o headroom Outcome.bypassed saved r =
        (ground arith) in
      subst (λ x. IsOf headroom x.1) (sym e) refl
  | inl on ↦ elim (Option-cases o.runner) [
    | inl missing ↦
        let e : run_headroom_stage o saved r c ≡ kept o headroom Outcome.bypassed saved r =
          (ground arith) in
        subst (λ x. IsOf headroom x.1) (sym e) refl
    | inr (run, there) ↦
        let e : run_headroom_stage o saved r c ≡ judge_answer o saved r c (run saved r) =
          (ground arith) in
        subst (λ x. IsOf headroom x.1) (sym e) (judge_answer-IsOf o saved r c (run saved r))
  ]
]

conclude-IsOf :
    (o : Options) (original working : Bytes) (r : Request)
    → IsOf pipeline (conclude o original working r).1
unfolding conclude
conclude-IsOf o original working r = elim (Bool-cases (valid_provider_shape o.gjson working r)) [
  | inr bad ↦ rw (bad, conclude) refl
  | inl good ↦ elim (Verdict-cases (o.validate_final working r)) [
    | inl fine ↦ rw (good, fine, conclude) refl
    | inr (inl refused) ↦ rw (good, refused, conclude) refl
    | inr (inr crashed) ↦ rw (good, crashed, conclude) refl
  ]
]

abbrev of_stage_count : Stage → Stage → ℕ
of_stage_count at s = if same_stage at s then 1 else 0

-- The result cache gave no error.
abbrev pub HasNoError : Shared → Type 0
HasNoError own_work = Unit {0}
HasNoError (own_panicked after_rtk) = ⊥
HasNoError (joined value none) = Unit {0}
HasNoError (joined value (some e)) = ⊥

pair_counts :
    (at s t : Stage) (d e : Event)
    → IsOf s d
    → IsOf t e
    → times_counted at (d ∷ e ∷ []) ≡ of_stage_count at s + of_stage_count at t
unfolding times_counted
pair_counts at s t d e hd he =
    omega (arith, times_counted-one at s d (e ∷ []) hd, times_counted-one at t e [] he)

cached_counts :
    (o : Options) (at : Stage) (shared : Shared) (original : Bytes) (r : Request) (c : Config)
    → HasNoError shared
    → (c.headroom_enabled && leb (length original) dedupe_max_item_bytes) ≡ true
    → times_counted at (first_stages o shared original r c).1
      ≡ of_stage_count at rtk + of_stage_count at headroom
unfolding first_stages
cached_counts o at own_work original r c fine cached =
    rw (cached, first_stages)
      (pair_counts at rtk headroom _ _ (run_local_stage-IsOf o rtk c.rtk_enabled original r c)
        (run_headroom_stage-IsOf o _ r c))
cached_counts o at (own_panicked after_rtk) original r c fine cached = absurd fine
cached_counts o at (joined value none) original r c fine cached =
    rw (cached, first_stages) (pair_counts at rtk headroom _ _ refl refl)
cached_counts o at (joined value (some e)) original r c fine cached = absurd fine

first_stages_counts :
    (o : Options) (at : Stage) (shared : Shared) (original : Bytes) (r : Request) (c : Config)
    → HasNoError shared
    → times_counted at (first_stages o shared original r c).1
      ≡ of_stage_count at rtk + of_stage_count at headroom
unfolding first_stages
first_stages_counts o at shared original r c fine =
    elim (Bool-cases (c.headroom_enabled && leb (length original) dedupe_max_item_bytes)) [
      | inr direct ↦
          rw (direct, first_stages)
            (pair_counts at rtk headroom _ _ (run_local_stage-IsOf o rtk c.rtk_enabled original r c)
              refl)
      | inl cached ↦ cached_counts o at shared original r c fine cached
    ]

process_counts_by :
    (o : Options) (at : Stage) (shared : Shared) (original : Bytes) (r : Request) (c : Config)
    → times_counted at (process o shared original r c).1
      ≡ times_counted at (first_stages o shared original r c).1
        + (of_stage_count at caveman + of_stage_count at ponytail + of_stage_count at pipeline)
unfolding process last_stages times_counted
process_counts_by o at shared original r c =
    let first = first_stages o shared original r c in
    let terse = run_local_stage o caveman c.caveman_enabled first.0 r c in
    let guided = run_local_stage o ponytail c.ponytail_enabled terse.0 r c in
    let end = conclude o original guided.0 r in
    omega (
      arith,
      times_counted-append at first.1 (terse.1 ∷ guided.1 ∷ end.1 ∷ []),
      times_counted-one at caveman terse.1 (guided.1 ∷ end.1 ∷ [])
          (run_local_stage-IsOf o caveman c.caveman_enabled first.0 r c),
      times_counted-one at ponytail guided.1 (end.1 ∷ [])
          (run_local_stage-IsOf o ponytail c.ponytail_enabled terse.0 r c),
      times_counted-one at pipeline end.1 [] (conclude-IsOf o original guided.0 r),
    )

-- A request that goes through the stages and meets no error of the result cache counts one result
-- of each of the five stages.
pub process_counts :
    (o : Options) (at : Stage) (shared : Shared) (original : Bytes) (r : Request) (c : Config)
    → HasNoError shared
    → IsKnown at
    → times_counted at (process o shared original r c).1 ≡ 1
process_counts o at shared original r c fine known = ground (
  arith,
  process_counts_by o at shared original r c,
  first_stages_counts o at shared original r c fine,
)

-- A request that meets no error of the result cache counts one result of the whole pipeline, on
-- every path through `Normalize`.
pub normalize_counts :
    (o : Options) (shared : Shared) (r : Request) (c : Config)
    → HasNoError shared
    → times_counted pipeline (normalize o shared r c).1 ≡ 1
unfolding normalize times_counted
normalize_counts o shared r c fine = elim (Bool-cases (none_enabled c)) [
  | inl off ↦ rw (off, normalize) refl
  | inr on ↦ elim (Bool-cases (is_bypassed o r c)) [
    | inl bypass ↦ rw (on, bypass, normalize) refl
    | inr through ↦
        rw (on, through, normalize) (process_counts o pipeline shared r.body r c fine tt)
  ]
]

-- The result cache gave an error: the own work's panic, or another call's error.
abbrev pub HasError : Shared → Type 0
HasError own_work = ⊥
HasError (own_panicked after_rtk) = Unit {0}
HasError (joined value none) = ⊥
HasError (joined value (some e)) = Unit {0}

-- How many results of RTK the work of this call had recorded before its panic.
abbrev pub rtk_results : Shared → ℕ
rtk_results (own_panicked true) = 1
rtk_results _ = 0

failed_counts :
    (o : Options) (at : Stage) (shared : Shared) (original : Bytes) (r : Request) (c : Config)
    → HasError shared
    → (c.headroom_enabled && leb (length original) dedupe_max_item_bytes) ≡ true
    → times_counted at (first_stages o shared original r c).1
      ≡ of_stage_count at rtk * rtk_results shared + of_stage_count at pipeline
unfolding first_stages times_counted
failed_counts o at own_work original r c failing cached = absurd failing
failed_counts o at (own_panicked false) original r c failing cached =
    rw (cached, first_stages) (omega arith)
failed_counts o at (own_panicked true) original r c failing cached =
    rw (cached, first_stages)
      (omega (
        arith,
        pair_counts at rtk pipeline _ (noted o pipeline Outcome.fail_open original r)
            (run_local_stage-IsOf o rtk c.rtk_enabled original r c) refl,
      ))
failed_counts o at (joined value none) original r c failing cached = absurd failing
failed_counts o at (joined value (some e)) original r c failing cached =
    rw (cached, first_stages) (omega arith)

-- A request that is small enough for the result cache, with Headroom enabled, and meets an error of
-- it, which is another call's or a panic of its own work, counts two results of the whole pipeline
-- and none of Headroom, and one of RTK exactly if its own work had recorded this before it
-- panicked.
pub process_counts_twice :
    (o : Options) (shared : Shared) (original : Bytes) (r : Request) (c : Config)
    → HasError shared
    → c.headroom_enabled ≡ true
    → length original ≤ dedupe_max_item_bytes
    → (times_counted pipeline (process o shared original r c).1 ≡ 2)
      × (times_counted rtk (process o shared original r c).1 ≡ rtk_results shared)
      × (times_counted headroom (process o shared original r c).1 ≡ 0)
process_counts_twice o shared original r c failing on small =
    let cached : (c.headroom_enabled && leb (length original) dedupe_max_item_bytes) ≡ true =
      (ground arith) in
    let counted = λ (at : Stage). failed_counts o at shared original r c failing cached in
    (
      ground (arith, process_counts_by o pipeline shared original r c, counted pipeline),
      ground (arith, process_counts_by o rtk shared original r c, counted rtk),
      ground (arith, process_counts_by o headroom shared original r c, counted headroom),
    )
