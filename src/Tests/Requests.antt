-- ===== src/Tests/Requests.antt =====
-- internal/saver/pipeline.go: requests at concrete inputs.
use cpa_plugin_token_saver.Common.{
  [], arith, false, inr, none, pos, refl, some, subst, true, ◌++◌, ◌∷◌, ◌≡◌, ◌⊎◌,
}
use cpa_plugin_token_saver.Config.{Config, defaults}
use cpa_plugin_token_saver.Metrics.{caveman, headroom, pipeline, rtk}
use cpa_plugin_token_saver.Text.{Bytes, codes}
use cpa_plugin_token_saver.Saver.Pipeline.{
  Options, RunnerAnswer, accepts, runner_panicked, stage_answered, stage_panicked,
}
use cpa_plugin_token_saver.Json.{Gjson}
use cpa_plugin_token_saver.Saver.Shape.{Request, valid_provider_shape}
use cpa_plugin_token_saver.Saver.Pipeline.Accounted.{
  process_counts, process_counts_twice, times_counted,
}
use cpa_plugin_token_saver.Saver.Pipeline.FailOpen.{AllFail, normalize_failed, normalize_safe}
use cpa_plugin_token_saver.Saver.Pipeline.Normalize.{own_panicked, normalize, own_work, process}

abbrev pub sample_gjson : Gjson
sample_gjson = record {
  Value = Unit {0};
  json_valid = λ b. true;
  valid = λ b. true;
  parse_bytes = λ b. tt;
  value_at = λ v path. tt;
  get_bytes = λ b path. tt;
  is_object = λ v. true;
  is_array = λ v. true;
  array = λ v. tt ∷ [];
  is_string = λ v. true;
  string = λ v. codes "user";
  exists = λ v. true;
  truth = λ v. false;
  raw = λ v. codes "\"user\"";
  index = λ v. pos 0;
}

abbrev pub sample_options : Options
sample_options = record {
  gjson = sample_gjson;
  apply = λ stage b r c. stage_answered (b ++ codes "!");
  runner = none;
  elapsed = λ stage. pos 1;
  validate_stage = λ stage b a r. accepts;
  validate_final = λ b r. accepts;
}

abbrev failing_options : Options
failing_options = record sample_options {
  apply = λ stage b r c. stage_panicked;
  runner = some (λ b r. runner_panicked);
}

abbrev pub sample_request : Request
sample_request = record {
  from_format = codes "openai";
  to_format = codes "claude";
  model = codes "m";
  stream = false;
  body = codes "{}";
}

abbrev all_enabled : Config
all_enabled = record defaults {
  rtk_enabled = true;
  headroom_enabled = true;
  caveman_enabled = true;
  ponytail_enabled = true;
}

normalize_safe_example :
    ((normalize sample_options own_work sample_request all_enabled).0 ≡ codes "{}")
    ⊎ ((valid_provider_shape sample_gjson
            (normalize sample_options own_work sample_request all_enabled).0
            sample_request
          ≡ true)
        × (accepts ≡ accepts))
normalize_safe_example = normalize_safe sample_options own_work sample_request all_enabled

panicking_runner :
    (run : Bytes → Request → RunnerAnswer) (b : Bytes) (r : Request)
    → some (λ b r. runner_panicked) ≡ some run
    → run b r ≡ runner_panicked
panicking_runner run b r h =
    subst (λ o. elim o as (λ x. Type 0) [ none ↦ Unit {0} | some f ↦ f b r ≡ runner_panicked ]) h
      refl

failing_options-AllFail : AllFail failing_options
failing_options-AllFail = (λ stage b r c. inr refl, panicking_runner)

normalize_failed_example :
    (normalize failing_options own_work sample_request all_enabled).0 ≡ codes "{}"
normalize_failed_example =
    normalize_failed failing_options sample_request all_enabled failing_options-AllFail

process_counts_example :
    times_counted caveman
      (process sample_options own_work (codes "{}") sample_request all_enabled).1
    ≡ 1
process_counts_example =
    process_counts sample_options caveman own_work (codes "{}") sample_request all_enabled tt tt

process_counts_twice_example :
    let events =
      (process sample_options (own_panicked true) (codes "{}") sample_request all_enabled).1 in
    (times_counted pipeline events ≡ 2)
    × (times_counted rtk events ≡ 1)
    × (times_counted headroom events ≡ 0)
process_counts_twice_example =
    process_counts_twice sample_options (own_panicked true) (codes "{}") sample_request all_enabled
      tt refl (omega arith)
