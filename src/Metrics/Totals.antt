-- ===== src/Metrics/Totals.antt =====
-- internal/metrics/metrics.go: the counters by stage and by route, read by one selector.
use cpa_plugin_token_saver.Common.{
  Bool, arith, false, if◌then◌else◌, refl, some, true, ℕ, ℤ, ◌%◌, ◌+◌, ◌^◌, ◌≡◌,
}
use cpa_plugin_token_saver.Metrics.{
  Outcome, OutcomeProjection, Registry, RouteStageProjection, Stage, StageProjection, StageSnapshot,
  bypass_projection, count_bypassed, count_outcome, count_sizes, folded_outcome, folded_stage,
  other_outcome, other_stage, record_all_bypassed, record_route_outcome, record_stage,
  with_route_stage, with_stage,
}

pub data Counter : Type 0 where
  executions bypasses failures timeouts saturations : Counter

abbrev pub modulus : ℕ
modulus = 2 ^ 64

abbrev pub stage_count : Counter → StageSnapshot → ℕ
stage_count executions c = c.executed
stage_count bypasses c = c.bypassed
stage_count failures c = c.fail_open
stage_count timeouts c = c.timeout
stage_count saturations c = c.saturated

abbrev pub route_count : Counter → OutcomeProjection → ℕ
route_count executions c = c.executed
route_count bypasses c = c.bypassed
route_count failures c = c.fail_open
route_count timeouts c = c.timeout
route_count saturations c = c.saturated

abbrev pub of_stage : Stage → StageProjection → StageSnapshot
of_stage Stage.rtk p = p.rtk
of_stage Stage.headroom p = p.headroom
of_stage Stage.caveman p = p.caveman
of_stage Stage.ponytail p = p.ponytail
of_stage _ p = p.pipeline

abbrev pub of_route : Stage → RouteStageProjection → OutcomeProjection
of_route Stage.rtk p = p.rtk
of_route Stage.headroom p = p.headroom
of_route Stage.caveman p = p.caveman
of_route Stage.ponytail p = p.ponytail
of_route _ p = p.pipeline

-- What one outcome adds to a counter.
abbrev pub delta : Counter → Outcome → ℕ
delta executions Outcome.executed = 1
delta bypasses Outcome.bypassed = 1
delta failures Outcome.fail_open = 1
delta failures Outcome.timeout = 1
delta failures Outcome.saturated = 1
delta failures other_outcome = 1
delta timeouts Outcome.timeout = 1
delta saturations Outcome.saturated = 1
delta _ _ = 0

stage_count-count_outcome :
    (k : Counter) (o : Outcome) (c : StageSnapshot)
    → stage_count k (count_outcome o c) % modulus ≡ (stage_count k c + delta k o) % modulus
unfolding count_outcome
stage_count-count_outcome k o c = ground arith

route_count-record_route_outcome :
    (k : Counter) (o : Outcome) (c : OutcomeProjection)
    → route_count k (record_route_outcome o c) % modulus ≡ (route_count k c + delta k o) % modulus
unfolding record_route_outcome
route_count-record_route_outcome k o c = ground arith

abbrev pub same_stage : Stage → Stage → Bool
same_stage Stage.pipeline Stage.pipeline = true
same_stage Stage.rtk Stage.rtk = true
same_stage Stage.headroom Stage.headroom = true
same_stage Stage.caveman Stage.caveman = true
same_stage Stage.ponytail Stage.ponytail = true
same_stage _ _ = false

-- What one record of an outcome at a stage adds to a counter of the stage `at`.
abbrev pub hits : Stage → Counter → Stage → Outcome → ℕ
hits at k stage o =
    if same_stage at (folded_stage stage o) then delta k (folded_outcome stage o) else 0

-- The stages that have a counter.
abbrev pub IsKnown : Stage → Type 0
IsKnown other_stage = ⊥
IsKnown _ = Unit {0}

folded_stage-IsKnown : (stage : Stage) (o : Outcome) → IsKnown (folded_stage stage o)
folded_stage-IsKnown Stage.pipeline other_outcome = tt
folded_stage-IsKnown Stage.rtk other_outcome = tt
folded_stage-IsKnown Stage.headroom other_outcome = tt
folded_stage-IsKnown Stage.caveman other_outcome = tt
folded_stage-IsKnown Stage.ponytail other_outcome = tt
folded_stage-IsKnown other_stage o = tt
folded_stage-IsKnown _ _ = tt

-- To write one stage by a function that adds `n` to a reading adds `n` at that stage only.
with_stage-adds :
    (at t : Stage) (read : StageSnapshot → ℕ) (n : ℕ) (f : StageSnapshot → StageSnapshot)
    (p : StageProjection)
    → IsKnown at
    → IsKnown t
    → ((c : StageSnapshot) → read (f c) % modulus ≡ (read c + n) % modulus)
    → (q : StageProjection) × (with_stage p f t ≡ some q)
      × (read (of_stage at q) % modulus
          ≡ (read (of_stage at p) + (if same_stage at t then n else 0)) % modulus)
unfolding with_stage
with_stage-adds at Stage.pipeline read n f p a t h =
    (record p { pipeline = f p.pipeline }, refl, ground (arith, h p.pipeline))
with_stage-adds at Stage.rtk read n f p a t h =
    (record p { rtk = f p.rtk }, refl, ground (arith, h p.rtk))
with_stage-adds at Stage.headroom read n f p a t h =
    (record p { headroom = f p.headroom }, refl, ground (arith, h p.headroom))
with_stage-adds at Stage.caveman read n f p a t h =
    (record p { caveman = f p.caveman }, refl, ground (arith, h p.caveman))
with_stage-adds at Stage.ponytail read n f p a t h =
    (record p { ponytail = f p.ponytail }, refl, ground (arith, h p.ponytail))
with_stage-adds at other_stage read n f p a t h = absurd t

with_route_stage-adds :
    (at t : Stage) (read : OutcomeProjection → ℕ) (n : ℕ)
    (f : OutcomeProjection → OutcomeProjection) (p : RouteStageProjection)
    → IsKnown at
    → IsKnown t
    → ((c : OutcomeProjection) → read (f c) % modulus ≡ (read c + n) % modulus)
    → read (of_route at (with_route_stage p f t)) % modulus
      ≡ (read (of_route at p) + (if same_stage at t then n else 0)) % modulus
unfolding with_route_stage
with_route_stage-adds at Stage.pipeline read n f p a t h = ground (arith, h p.pipeline)
with_route_stage-adds at Stage.rtk read n f p a t h = ground (arith, h p.rtk)
with_route_stage-adds at Stage.headroom read n f p a t h = ground (arith, h p.headroom)
with_route_stage-adds at Stage.caveman read n f p a t h = ground (arith, h p.caveman)
with_route_stage-adds at Stage.ponytail read n f p a t h = ground (arith, h p.ponytail)
with_route_stage-adds at other_stage read n f p a t h = absurd t

sized_count :
    (k : Counter) (o : Outcome) (i out d : ℤ) (c : StageSnapshot)
    → stage_count k (count_sizes i out d (count_outcome o c)) % modulus
      ≡ (stage_count k c + delta k o) % modulus
unfolding count_sizes
sized_count k o i out d c = ground (arith, stage_count-count_outcome k o c)

-- `Record` adds to the counters of one stage what the outcome stands for.
pub record_stage-adds :
    (at : Stage) (k : Counter) (r : Registry) (stage : Stage) (o : Outcome) (i out d : ℤ)
    → IsKnown at
    → stage_count k (of_stage at (record_stage r stage o i out d).stages) % modulus
      ≡ (stage_count k (of_stage at r.stages) + hits at k stage o) % modulus
unfolding record_stage
record_stage-adds at k r stage o i out d known =
    let (q, e, counted) =
      with_stage-adds at (folded_stage stage o) (stage_count k) (delta k (folded_outcome stage o))
        (λ c. count_sizes i out d (count_outcome (folded_outcome stage o) c)) r.stages known
        (folded_stage-IsKnown stage o) (sized_count k (folded_outcome stage o) i out d) in
    rw (e, record_stage) counted

-- `RecordRoute` adds the same to the projection of its route.
pub record_route-adds :
    (at : Stage) (k : Counter) (stage : Stage) (o : Outcome) (p : RouteStageProjection)
    → IsKnown at
    → route_count k (
          of_route at (
            with_route_stage p
              (record_route_outcome (folded_outcome stage o))
              (folded_stage stage o)))
        % modulus
      ≡ (route_count k (of_route at p) + hits at k stage o) % modulus
record_route-adds at k stage o p known =
    with_route_stage-adds at (folded_stage stage o) (route_count k)
      (delta k (folded_outcome stage o)) (record_route_outcome (folded_outcome stage o)) p known
      (folded_stage-IsKnown stage o) (route_count-record_route_outcome k (folded_outcome stage o))

pub record_all-adds :
    (at : Stage) (k : Counter) (r : Registry) (size : ℤ)
    → IsKnown at
    → stage_count k (of_stage at (record_all_bypassed r size).stages) % modulus
      ≡ (stage_count k (of_stage at r.stages) + delta k Outcome.bypassed) % modulus
unfolding record_all_bypassed count_bypassed
record_all-adds at k r size known = ground arith

pub bypass_projection-adds :
    (at : Stage) (k : Counter) (p : RouteStageProjection)
    → IsKnown at
    → route_count k (of_route at (bypass_projection p)) % modulus
      ≡ (route_count k (of_route at p) + delta k Outcome.bypassed) % modulus
unfolding bypass_projection record_route_outcome
bypass_projection-adds at k p known = ground arith
