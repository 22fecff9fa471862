-- ===== src/Saver/Pipeline.antt =====
-- internal/saver/pipeline.go: the stages of one request, and `Normalize`, which composes them and
-- gives back the original body when anything fails. The results of the metrics are events, in
-- order; a panic is a value.
use cpa_plugin_token_saver.Common.{
  [], Bool, Option, false, if◌then◌else◌, length, none, not, pos, some, true, ℤ, ◌==◌, ◌||◌,
}
use cpa_plugin_token_saver.Config.{Config, caveman_level, headroom_enabled, ponytail_level}
use cpa_plugin_token_saver.Metrics.{
  Outcome, Stage, bypassed, caveman, executed, fail_open, headroom, ponytail, rtk,
}
use cpa_plugin_token_saver.Text.{Bytes, bytes_eq}
use cpa_plugin_token_saver.Headroom.Client.{
  Client, applied, circuit_open, no_change, request_too_large, unsupported_format,
  unsupported_structure,
}
use cpa_plugin_token_saver.Saver.Recording.{Event, one}
use cpa_plugin_token_saver.Json.{Gjson}
use cpa_plugin_token_saver.Prompt.Inject.{PromptOptions, inject}
use cpa_plugin_token_saver.Saver.Shape.{Request, pair, valid_provider_shape}
use cpa_plugin_token_saver.Saver.Transition.{valid_rtk_transition}
use cpa_plugin_token_saver.Headroom.Client
pub mod Normalize
pub mod Stages
pub mod FailOpen
pub mod Accounted
pub mod Bodies

-- What an injected stage function comes to.
pub data StageAnswer : Type 0 where
  stage_panicked : StageAnswer
  stage_failed : StageAnswer
  stage_answered : Bytes → StageAnswer

pub data RunnerAnswer : Type 0 where
  runner_panicked : RunnerAnswer
  runner_answered : Bytes → Client.Outcome → RunnerAnswer

-- The result of a check that is injected and can panic.
pub data Verdict : Type 0 where
  accepts rejects check_panicked : Verdict

-- What the service calls for one request: the fields of `Options`, with a nil function as one that
-- accepts, the runner of the generation, and the time that each stage took.
pub record Options : Type 1 where
  pub gjson : Gjson
  pub apply : Stage → Bytes → Request → Config → StageAnswer
  pub runner : Option (Bytes → Request → RunnerAnswer)
  pub elapsed : Stage → ℤ
  pub validate_stage : Stage → Bytes → Bytes → Request → Verdict
  pub validate_final : Bytes → Request → Verdict

abbrev pub size : Bytes → ℤ
size b = pos (length b)

abbrev pub recorded : Stage → Outcome → Bytes → Bytes → ℤ → Request → Event
recorded stage outcome input output duration r =
    one stage outcome (size input) (size output) duration r.from_format r.to_format

abbrev pub metric_of : Bytes → Bytes → Outcome
metric_of input output = if bytes_eq input output then Outcome.bypassed else Outcome.executed

unfoldable pub metric_for_headroom : Client.Outcome → Bytes → Bytes → Outcome
metric_for_headroom applied input output = metric_of input output
metric_for_headroom no_change input output = Outcome.bypassed
metric_for_headroom unsupported_format input output = Outcome.bypassed
metric_for_headroom unsupported_structure input output = Outcome.bypassed
metric_for_headroom request_too_large input output = Outcome.bypassed
metric_for_headroom circuit_open input output = Outcome.bypassed
metric_for_headroom Client.Outcome.timeout input output = Outcome.timeout
metric_for_headroom Client.Outcome.saturated input output = Outcome.saturated
metric_for_headroom _ input output = Outcome.fail_open

-- The outcomes of the runner whose output is not used.
abbrev pub is_refused : Outcome → Bool
is_refused Outcome.fail_open = true
is_refused Outcome.timeout = true
is_refused Outcome.saturated = true
is_refused _ = false

abbrev pub refused_metric : Outcome → Outcome
refused_metric Outcome.executed = Outcome.fail_open
refused_metric Outcome.bypassed = Outcome.fail_open
refused_metric m = m

-- The options of the two instruction stages.
abbrev pub caveman_only : Bytes → PromptOptions
caveman_only level = record { caveman_level = level; ponytail_level = [] }

abbrev pub ponytail_only : Bytes → PromptOptions
ponytail_only level = record { caveman_level = []; ponytail_level = level }

module _ (o : Options) where
  unfoldable pub stage_invariant : Stage → Bytes → Bytes → Request → Config → Bool
  stage_invariant rtk before after r c = valid_rtk_transition o.gjson before after (pair r)
  stage_invariant caveman before after r c =
      bytes_eq after (inject o.gjson before (pair r) (caveman_only c.caveman_level))
  stage_invariant ponytail before after r c =
      bytes_eq after (inject o.gjson before (pair r) (ponytail_only c.ponytail_level))
  stage_invariant _ before after r c = true

  unfoldable pub valid_stage : Stage → Bytes → Bytes → Request → Config → Verdict
  unfolding stage_invariant
  valid_stage stage before after r c =
      if not (valid_provider_shape o.gjson after r)
      then rejects
      else (if not (stage_invariant stage before after r c)
          then rejects
          else o.validate_stage stage before after r)

  -- A stage that gives its input back, and the result that it counts.
  abbrev pub kept : Stage → Outcome → Bytes → Request → Bytes × Event
  kept stage outcome saved r = (saved, recorded stage outcome saved saved (o.elapsed stage) r)

  -- `runLocalStage` on the function's output.
  unfoldable pub judge_output : Stage → Bytes → Bytes → Request → Config → Bytes × Event
  unfolding valid_stage
  judge_output stage saved output r c =
      if length output == 0
      then kept stage Outcome.fail_open saved r
      else elim (valid_stage stage saved output r c) [
        | rejects ↦ kept stage Outcome.fail_open saved r
        | check_panicked ↦ kept stage Outcome.fail_open saved r
        | accepts ↦
            (output, recorded stage (metric_of saved output) saved output (o.elapsed stage) r)
      ]

  unfoldable pub run_local_stage : Stage → Bool → Bytes → Request → Config → Bytes × Event
  unfolding judge_output
  run_local_stage stage enabled saved r c =
      if not enabled then kept stage Outcome.bypassed saved r else elim (o.apply stage saved r c) [
        | stage_panicked ↦ kept stage Outcome.fail_open saved r
        | stage_failed ↦ kept stage Outcome.fail_open saved r
        | stage_answered output ↦ judge_output stage saved output r c
      ]

  -- `runHeadroomStage` on the runner's output; a panic of the check is caught with `fail_open`.
  unfoldable pub judge_runner : Bytes → Bytes → Outcome → Request → Config → Bytes × Event
  unfolding valid_stage
  judge_runner saved output metric r c =
      if is_refused metric || length output == 0
      then kept headroom (refused_metric metric) saved r
      else elim (valid_stage headroom saved output r c) [
        | rejects ↦ kept headroom (refused_metric metric) saved r
        | check_panicked ↦ kept headroom Outcome.fail_open saved r
        | accepts ↦ (output, recorded headroom metric saved output (o.elapsed headroom) r)
      ]

  unfoldable pub judge_answer : Bytes → Request → Config → RunnerAnswer → Bytes × Event
  unfolding judge_runner metric_for_headroom
  judge_answer saved r c runner_panicked = kept headroom Outcome.fail_open saved r
  judge_answer saved r c (runner_answered output outcome) =
      judge_runner saved output (metric_for_headroom outcome saved output) r c

  unfoldable pub run_headroom_stage : Bytes → Request → Config → Bytes × Event
  unfolding judge_answer
  run_headroom_stage saved r c =
      if not c.headroom_enabled then kept headroom Outcome.bypassed saved r else elim o.runner [
        | none ↦ kept headroom Outcome.bypassed saved r
        | some run ↦ judge_answer saved r c (run saved r)
      ]
