-- ===== src/Saver/Pipeline/Stages.antt =====
-- internal/saver/pipeline.go: what a stage can come to.
use cpa_plugin_token_saver.Common.{
  Bool, Bool-cases, Option-cases, arith, false, inl, inr, length, refl, subst, sym, true, ◌<◌, ◌==◌,
  ◌||◌, ◌≡◌, ◌⊎◌,
}
use cpa_plugin_token_saver.Config.{Config}
use cpa_plugin_token_saver.Metrics.{Outcome, Stage, headroom}
use cpa_plugin_token_saver.Text.{Bytes}
use cpa_plugin_token_saver.Saver.Pipeline.{
  Options, RunnerAnswer, Verdict, accepts, check_panicked, is_refused, judge_answer, judge_output,
  judge_runner, kept, metric_for_headroom, rejects, run_headroom_stage, run_local_stage,
  runner_answered, runner_panicked, stage_answered, stage_failed, stage_panicked, valid_stage,
}
use cpa_plugin_token_saver.Saver.Recording.{Event}
use cpa_plugin_token_saver.Saver.Shape.{Request}

pub Verdict-cases : (v : Verdict) → (v ≡ accepts) ⊎ ((v ≡ rejects) ⊎ (v ≡ check_panicked))
Verdict-cases accepts = inl refl
Verdict-cases rejects = inr (inl refl)
Verdict-cases check_panicked = inr (inr refl)

-- The stage gave its input back, or an output that is not empty and that its check accepted.
abbrev pub IsSafe : Options → Stage → Bytes → Request → Config → Bytes × Event → Type 0
IsSafe o stage saved r c result =
    (result.0 ≡ saved)
    ⊎ ((valid_stage o stage saved result.0 r c ≡ accepts) × (0 < length result.0))

judge_output-IsSafe :
    (o : Options) (stage : Stage) (saved output : Bytes) (r : Request) (c : Config)
    → IsSafe o stage saved r c (judge_output o stage saved output r c)
unfolding judge_output
judge_output-IsSafe o stage saved output r c = elim (Bool-cases (length output == 0)) [
  | inl nothing ↦ rw (nothing, judge_output) (inl refl)
  | inr filled ↦ elim (Verdict-cases (valid_stage o stage saved output r c)) [
    | inl good ↦ rw (filled, good, judge_output) (inr (good, ground arith))
    | inr (inl bad) ↦ rw (filled, bad, judge_output) (inl refl)
    | inr (inr crashed) ↦ rw (filled, crashed, judge_output) (inl refl)
  ]
]

-- A local stage comes out with its input, or with an output that is not empty and that the stage's
-- check accepted.
pub run_local_stage-IsSafe :
    (o : Options) (stage : Stage) (enabled : Bool) (saved : Bytes) (r : Request) (c : Config)
    → IsSafe o stage saved r c (run_local_stage o stage enabled saved r c)
unfolding run_local_stage
run_local_stage-IsSafe o stage false saved r c = inl refl
run_local_stage-IsSafe o stage true saved r c =
    elim (o.apply stage saved r c)
      as (λ a. IsSafe o stage saved r c (elim a as (λ x. Bytes × Event) [
        | stage_panicked ↦ kept o stage Outcome.fail_open saved r
        | stage_failed ↦ kept o stage Outcome.fail_open saved r
        | stage_answered output ↦ judge_output o stage saved output r c
      ])) [
        | stage_panicked ↦ inl refl
        | stage_failed ↦ inl refl
        | stage_answered output ↦ judge_output-IsSafe o stage saved output r c
      ]

judge_runner-IsSafe :
    (o : Options) (saved output : Bytes) (metric : Outcome) (r : Request) (c : Config)
    → IsSafe o headroom saved r c (judge_runner o saved output metric r c)
unfolding judge_runner
judge_runner-IsSafe o saved output metric r c =
    elim (Bool-cases (is_refused metric || length output == 0)) [
      | inl refused ↦ rw (refused, judge_runner) (inl refl)
      | inr filled ↦ elim (Verdict-cases (valid_stage o headroom saved output r c)) [
        | inl good ↦ rw (filled, good, judge_runner) (inr (good, ground arith))
        | inr (inl bad) ↦ rw (filled, bad, judge_runner) (inl refl)
        | inr (inr crashed) ↦ rw (filled, crashed, judge_runner) (inl refl)
      ]
    ]

judge_answer-IsSafe :
    (o : Options) (saved : Bytes) (r : Request) (c : Config) (a : RunnerAnswer)
    → IsSafe o headroom saved r c (judge_answer o saved r c a)
unfolding judge_answer
judge_answer-IsSafe o saved r c runner_panicked = inl refl
judge_answer-IsSafe o saved r c (runner_answered output outcome) =
    judge_runner-IsSafe o saved output (metric_for_headroom outcome saved output) r c

-- The Headroom stage comes out with its input, or with an output that is not empty and that the
-- stage's check accepted.
pub run_headroom_stage-IsSafe :
    (o : Options) (saved : Bytes) (r : Request) (c : Config)
    → IsSafe o headroom saved r c (run_headroom_stage o saved r c)
unfolding run_headroom_stage
run_headroom_stage-IsSafe o saved r c = elim (Bool-cases c.headroom_enabled) [
  | inr off ↦ inl (ground arith)
  | inl on ↦ elim (Option-cases o.runner) [
    | inl missing ↦ inl (ground arith)
    | inr (run, there) ↦
        let e : run_headroom_stage o saved r c ≡ judge_answer o saved r c (run saved r) =
          (ground arith) in
        subst (IsSafe o headroom saved r c) (sym e) (judge_answer-IsSafe o saved r c (run saved r))
  ]
]
