-- ===== src/Saver/Recording.antt =====
-- internal/saver/pipeline.go, `record` and `recordAllBypassed`: each result is counted by stage and
-- by route.
use cpa_plugin_token_saver.Common.{List, [], ap, arith, length, ℕ, ℤ, ◌%◌, ◌∷◌, ◌≡◌, ◌≤◌}
use cpa_plugin_token_saver.Metrics.{
  Outcome, Registry, Stage, bypass_projection, folded_outcome, folded_stage, new_registry,
  normalized_route_key, record_all_bypassed, record_all_bypassed_route, record_route,
  record_route_outcome, record_stage, with_route, with_route_stage, with_stage, zero_projection,
}
use cpa_plugin_token_saver.Text.{Bytes}
use cpa_plugin_token_saver.Metrics.Routes.{
  DistinctRoutes, DistinctRoutes-bounded, DistinctRoutes-with_route, sum_routes, with_route-adds,
}
use cpa_plugin_token_saver.Metrics.Totals.{
  Counter, IsKnown, bypass_projection-adds, delta, hits, modulus, of_route, of_stage,
  record_all-adds, record_route-adds, record_stage-adds, route_count, stage_count,
}

pub data Event : Type 0 where
  one : Stage → Outcome → ℤ → ℤ → ℤ → Bytes → Bytes → Event
  all_bypassed : ℤ → Bytes → Bytes → Event

unfoldable pub record_event : Registry → Event → Registry
record_event r (one stage outcome input output duration from to) =
    record_route (record_stage r stage outcome input output duration) stage outcome from to
record_event r (all_bypassed size from to) =
    record_all_bypassed_route (record_all_bypassed r size) from to

unfoldable pub record_events : Registry → List Event → Registry
record_events r [] = r
record_events r (e ∷ es) = record_events (record_event r e) es

-- Summed over all routes, each counter of each stage is the counter of the stage.
abbrev pub IsBalanced : Registry → Type 0
IsBalanced r =
    (at : Stage) (k : Counter)
    → IsKnown at
    → sum_routes (λ p. route_count k (of_route at p)) r.routes % modulus
      ≡ stage_count k (of_stage at r.stages) % modulus

route_zero : (at : Stage) (k : Counter) → route_count k (of_route at zero_projection) ≡ 0
route_zero at k = ground arith

routes-record_stage :
    (r : Registry) (stage : Stage) (o : Outcome) (i out d : ℤ)
    → (record_stage r stage o i out d).routes ≡ r.routes
unfolding record_stage with_stage
routes-record_stage r stage o i out d = ground arith

record_event-IsBalanced : (r : Registry) (e : Event) → IsBalanced r → IsBalanced (record_event r e)
unfolding record_event record_route record_all_bypassed_route record_all_bypassed
record_event-IsBalanced r (one stage o i out d from to) b at k known = omega (
  arith,
  b at k known,
  record_stage-adds at k r stage o i out d known,
  ap
      (λ rs.
        sum_routes (λ p. route_count k (of_route at p))
          (with_route (normalized_route_key from to)
            (λ p.
              with_route_stage p (record_route_outcome (folded_outcome stage o))
                (folded_stage stage o))
            rs))
      (routes-record_stage r stage o i out d),
  with_route-adds (normalized_route_key from to)
      (λ p.
        with_route_stage p (record_route_outcome (folded_outcome stage o)) (folded_stage stage o))
      (λ p. route_count k (of_route at p)) (hits at k stage o) r.routes (route_zero at k)
      (λ p. record_route-adds at k stage o p known),
)
record_event-IsBalanced r (all_bypassed size from to) b at k known = omega (
  arith,
  b at k known,
  record_all-adds at k r size known,
  with_route-adds (normalized_route_key from to) bypass_projection
      (λ p. route_count k (of_route at p)) (delta k Outcome.bypassed) r.routes (route_zero at k)
      (λ p. bypass_projection-adds at k p known),
)

record_events-IsBalanced :
    (r : Registry) (es : List Event) → IsBalanced r → IsBalanced (record_events r es)
unfolding record_events
record_events-IsBalanced r [] b = b
record_events-IsBalanced r (e ∷ es) b =
    record_events-IsBalanced (record_event r e) es (record_event-IsBalanced r e b)

new_registry-IsBalanced : (started_at : ℕ) → IsBalanced (new_registry started_at)
unfolding new_registry
new_registry-IsBalanced started_at at k known = ground arith

-- After any results at all, each counter of each stage is the sum over the routes of the counter of
-- the route, as far as a uint64 counts.
pub record_events-new_registry-IsBalanced :
    (started_at : ℕ) (es : List Event) → IsBalanced (record_events (new_registry started_at) es)
record_events-new_registry-IsBalanced started_at es =
    record_events-IsBalanced (new_registry started_at) es (new_registry-IsBalanced started_at)

record_event-DistinctRoutes :
    (r : Registry) (e : Event) → DistinctRoutes r.routes → DistinctRoutes (record_event r e).routes
unfolding record_event record_route record_all_bypassed_route record_all_bypassed
record_event-DistinctRoutes r (one stage o i out d from to) v =
    DistinctRoutes-with_route (normalized_route_key from to)
      (λ p.
        with_route_stage p (record_route_outcome (folded_outcome stage o)) (folded_stage stage o))
      (record_stage r stage o i out d).routes (rw (routes-record_stage r stage o i out d) v)
record_event-DistinctRoutes r (all_bypassed size from to) v =
    DistinctRoutes-with_route (normalized_route_key from to) bypass_projection r.routes v

record_events-DistinctRoutes :
    (r : Registry) (es : List Event)
    → DistinctRoutes r.routes
    → DistinctRoutes (record_events r es).routes
unfolding record_events
record_events-DistinctRoutes r [] v = v
record_events-DistinctRoutes r (e ∷ es) v =
    record_events-DistinctRoutes (record_event r e) es (record_event-DistinctRoutes r e v)

-- Whatever formats the requests name, the registry holds at most 64 routes.
pub record_events_bounded :
    (started_at : ℕ) (es : List Event)
    → length (record_events (new_registry started_at) es).routes ≤ 64
unfolding new_registry
record_events_bounded started_at es =
    DistinctRoutes-bounded _ (record_events-DistinctRoutes (new_registry started_at) es tt)
