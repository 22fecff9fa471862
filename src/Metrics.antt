-- ===== src/Metrics.antt =====
-- internal/metrics/metrics.go: the counters of the process. A uint64 wraps at 2 ^ 64.
use cpa_plugin_token_saver.Common.{
  Bool, List, Option, [], false, if◌then◌else◌, leb, ltb, none, pos_part, some, true, ℕ, ℤ, ◌%◌,
  ◌&&◌, ◌+◌, ◌-◌, ◌^◌, ◌∷◌,
}
use cpa_plugin_token_saver.Text.{Bytes, bytes_eq, codes}
pub mod Totals
pub mod Routes
pub mod Generations

-- `other_stage` and `other_outcome` stand for every string that is not one of the constants.
pub data Stage : Type 0 where
  pipeline rtk headroom caveman ponytail other_stage : Stage

pub data Outcome : Type 0 where
  executed bypassed fail_open timeout saturated other_outcome : Outcome

abbrev pub u64 : ℕ → ℕ
u64 n = n % 2 ^ 64

pub record StageSnapshot : Type 0 where
  pub executed : ℕ
  pub bypassed : ℕ
  pub fail_open : ℕ
  pub timeout : ℕ
  pub saturated : ℕ
  pub input_bytes : ℕ
  pub output_bytes : ℕ
  pub duration_nano : ℕ

pub record StageProjection : Type 0 where
  pub pipeline : StageSnapshot
  pub rtk : StageSnapshot
  pub headroom : StageSnapshot
  pub caveman : StageSnapshot
  pub ponytail : StageSnapshot

pub record OutcomeProjection : Type 0 where
  pub executed : ℕ
  pub bypassed : ℕ
  pub fail_open : ℕ
  pub timeout : ℕ
  pub saturated : ℕ

pub record RouteStageProjection : Type 0 where
  pub pipeline : OutcomeProjection
  pub rtk : OutcomeProjection
  pub headroom : OutcomeProjection
  pub caveman : OutcomeProjection
  pub ponytail : OutcomeProjection

-- The formats that `knownFormat` keeps apart; `other` is any other string.
pub data Format : Type 0 where
  openai openai_response codex claude gemini interactions antigravity other : Format

pub Format-discrete : Discrete Format
Format-discrete = hlevel

pub record RouteKey : Type 0 where
  pub from : Format
  pub to : Format

abbrev pub Routes : Type 0
Routes = List (RouteKey × RouteStageProjection)

pub record Registry : Type 0 where
  pub started_at : ℕ
  pub stages : StageProjection
  pub routes : Routes
  pub current : ℕ
  pub previous : ℕ
  pub inflight : List (ℕ × ℕ)

abbrev zero_snapshot : StageSnapshot
zero_snapshot = record {
  executed = 0;
  bypassed = 0;
  fail_open = 0;
  timeout = 0;
  saturated = 0;
  input_bytes = 0;
  output_bytes = 0;
  duration_nano = 0;
}

abbrev zero_outcomes : OutcomeProjection
zero_outcomes = record { executed = 0; bypassed = 0; fail_open = 0; timeout = 0; saturated = 0 }

abbrev pub zero_projection : RouteStageProjection
zero_projection = record {
  pipeline = zero_outcomes;
  rtk = zero_outcomes;
  headroom = zero_outcomes;
  caveman = zero_outcomes;
  ponytail = zero_outcomes;
}

-- `New`, at a start time that is not zero.
unfoldable pub new_registry : ℕ → Registry
new_registry started_at = record {
  started_at = started_at;
  stages = record {
    pipeline = zero_snapshot;
    rtk = zero_snapshot;
    headroom = zero_snapshot;
    caveman = zero_snapshot;
    ponytail = zero_snapshot;
  };
  routes = [];
  current = 0;
  previous = 0;
  inflight = [];
}

abbrev pub valid_outcome : Outcome → Bool
valid_outcome other_outcome = false
valid_outcome _ = true

-- `stageLocked`: writes the counter of a stage.
unfoldable pub with_stage :
    StageProjection → (StageSnapshot → StageSnapshot) → Stage → Option StageProjection
with_stage p f Stage.pipeline = some (record p { pipeline = f p.pipeline })
with_stage p f Stage.rtk = some (record p { rtk = f p.rtk })
with_stage p f Stage.headroom = some (record p { headroom = f p.headroom })
with_stage p f Stage.caveman = some (record p { caveman = f p.caveman })
with_stage p f Stage.ponytail = some (record p { ponytail = f p.ponytail })
with_stage p f other_stage = none

unfoldable pub count_outcome : Outcome → StageSnapshot → StageSnapshot
count_outcome Outcome.executed c = record c { executed = u64 (c.executed + 1) }
count_outcome Outcome.bypassed c = record c { bypassed = u64 (c.bypassed + 1) }
count_outcome Outcome.timeout c = record c {
  fail_open = u64 (c.fail_open + 1);
  timeout = u64 (c.timeout + 1);
}
count_outcome Outcome.saturated c = record c {
  fail_open = u64 (c.fail_open + 1);
  saturated = u64 (c.saturated + 1);
}
count_outcome Outcome.fail_open c = record c { fail_open = u64 (c.fail_open + 1) }
count_outcome other_outcome c = record c { fail_open = u64 (c.fail_open + 1) }

-- `if n > 0 { total += uint64(n) }`.
unfoldable pub add_positive : ℕ → ℤ → ℕ
add_positive total n = if ltb 0 (pos_part n) then u64 (total + pos_part n) else total

unfoldable pub count_sizes : ℤ → ℤ → ℤ → StageSnapshot → StageSnapshot
count_sizes input output duration c = record c {
  input_bytes = add_positive c.input_bytes input;
  output_bytes = add_positive c.output_bytes output;
  duration_nano = add_positive c.duration_nano duration;
}

-- An unknown stage or outcome counts as a failure of the pipeline.
abbrev pub folded_stage : Stage → Outcome → Stage
folded_stage other_stage o = Stage.pipeline
folded_stage s other_outcome = Stage.pipeline
folded_stage s _ = s

abbrev pub folded_outcome : Stage → Outcome → Outcome
folded_outcome other_stage o = Outcome.fail_open
folded_outcome s other_outcome = Outcome.fail_open
folded_outcome s o = o

unfoldable pub record_stage : Registry → Stage → Outcome → ℤ → ℤ → ℤ → Registry
record_stage r stage outcome input output duration =
    let write = λ (c : StageSnapshot).
      count_sizes input output duration (count_outcome (folded_outcome stage outcome) c) in
    elim (with_stage r.stages write (folded_stage stage outcome)) [
      | none ↦ r
      | some stages ↦ record r { stages = stages }
    ]

unfoldable pub count_bypassed : ℤ → StageSnapshot → StageSnapshot
count_bypassed size c = record c {
  bypassed = u64 (c.bypassed + 1);
  input_bytes = add_positive c.input_bytes size;
  output_bytes = add_positive c.output_bytes size;
}

unfoldable pub record_all_bypassed : Registry → ℤ → Registry
record_all_bypassed r size = record r {
  stages = record {
    pipeline = count_bypassed size r.stages.pipeline;
    rtk = count_bypassed size r.stages.rtk;
    headroom = count_bypassed size r.stages.headroom;
    caveman = count_bypassed size r.stages.caveman;
    ponytail = count_bypassed size r.stages.ponytail;
  };
}

unfoldable pub known_format : Bytes → Format
known_format s =
    if bytes_eq s (codes "openai")
    then openai
    else (if bytes_eq s (codes "openai-response")
        then openai_response
        else (if bytes_eq s (codes "codex")
            then codex
            else (if bytes_eq s (codes "claude")
                then claude
                else (if bytes_eq s (codes "gemini")
                    then gemini
                    else (if bytes_eq s (codes "interactions")
                        then interactions
                        else (if bytes_eq s (codes "antigravity") then antigravity else other))))))

unfoldable pub normalized_route_key : Bytes → Bytes → RouteKey
normalized_route_key from to = record { from = known_format from; to = known_format to }

unfoldable pub record_route_outcome : Outcome → OutcomeProjection → OutcomeProjection
record_route_outcome Outcome.executed c = record c { executed = u64 (c.executed + 1) }
record_route_outcome Outcome.bypassed c = record c { bypassed = u64 (c.bypassed + 1) }
record_route_outcome Outcome.timeout c = record c {
  fail_open = u64 (c.fail_open + 1);
  timeout = u64 (c.timeout + 1);
}
record_route_outcome Outcome.saturated c = record c {
  fail_open = u64 (c.fail_open + 1);
  saturated = u64 (c.saturated + 1);
}
record_route_outcome Outcome.fail_open c = record c { fail_open = u64 (c.fail_open + 1) }
record_route_outcome other_outcome c = record c { fail_open = u64 (c.fail_open + 1) }

-- `routeStage`: writes the counter of a stage.
unfoldable pub with_route_stage :
    RouteStageProjection → (OutcomeProjection → OutcomeProjection) → Stage → RouteStageProjection
with_route_stage p f Stage.pipeline = record p { pipeline = f p.pipeline }
with_route_stage p f Stage.rtk = record p { rtk = f p.rtk }
with_route_stage p f Stage.headroom = record p { headroom = f p.headroom }
with_route_stage p f Stage.caveman = record p { caveman = f p.caveman }
with_route_stage p f Stage.ponytail = record p { ponytail = f p.ponytail }
with_route_stage p f other_stage = p

abbrev pub format_eq : Format → Format → Bool
format_eq a b = elim (Format-discrete a b) [ yes e ↦ true | no e ↦ false ]

abbrev pub key_eq : RouteKey → RouteKey → Bool
key_eq a b = format_eq a.from b.from && format_eq a.to b.to

-- Reads the projection of a route, zero if there is none, and writes it back.
unfoldable pub with_route :
    RouteKey → (RouteStageProjection → RouteStageProjection) → Routes → Routes
with_route k f [] = (k, f zero_projection) ∷ []
with_route k f ((j, p) ∷ rs) = if key_eq j k then (j, f p) ∷ rs else (j, p) ∷ with_route k f rs

unfoldable pub record_route : Registry → Stage → Outcome → Bytes → Bytes → Registry
record_route r stage outcome from to =
    let write = λ (p : RouteStageProjection).
      with_route_stage p (record_route_outcome (folded_outcome stage outcome))
        (folded_stage stage outcome) in
    record r { routes = with_route (normalized_route_key from to) write r.routes }

unfoldable pub bypass_projection : RouteStageProjection → RouteStageProjection
bypass_projection p = record {
  pipeline = record_route_outcome Outcome.bypassed p.pipeline;
  rtk = record_route_outcome Outcome.bypassed p.rtk;
  headroom = record_route_outcome Outcome.bypassed p.headroom;
  caveman = record_route_outcome Outcome.bypassed p.caveman;
  ponytail = record_route_outcome Outcome.bypassed p.ponytail;
}

unfoldable pub record_all_bypassed_route : Registry → Bytes → Bytes → Registry
record_all_bypassed_route r from to = record r {
  routes = with_route (normalized_route_key from to) bypass_projection r.routes;
}

-- `SavedBytes`.
unfoldable pub saved_bytes : StageSnapshot → ℕ
saved_bytes s = if leb s.input_bytes s.output_bytes then 0 else s.input_bytes - s.output_bytes
