-- ===== src/Saver/Service.antt =====
-- internal/saver/pipeline.go: the service's configuration generations, and when the client of a
-- retired one is closed. A generation's object is addressed by its number; what runs at once is an
-- order of the critical sections of `service.mu`.
use cpa_plugin_token_saver.Common.{
  Bool, List, Option, [], false, if◌then◌else◌, none, not, some, true, ℕ, ◌+◌, ◌-◌, ◌==◌, ◌||◌, ◌∷◌,
}
use cpa_plugin_token_saver.Config.{Config, defaults, headroom_enabled}
use cpa_plugin_token_saver.Metrics.{Registry, new_registry, u64}
use cpa_plugin_token_saver.Metrics.Generations.{begin_request, end_request, publish_generation}
pub mod Managed
pub mod Lifecycle
pub mod Preserved
pub mod Reconfigured
pub mod Once

pub record GenerationState : Type 0 where
  pub config : Config
  pub has_runner : Bool
  pub has_close : Bool
  pub inflight : ℕ
  pub retired : Bool
  pub closed : Bool

-- `closings` has the generations whose client was handed over to be closed, and `discarded` counts
-- the clients that were closed before any generation had them.
pub record Service : Type 0 where
  pub closed : Bool
  pub current : ℕ
  pub states : ℕ → GenerationState
  pub next_generation : ℕ
  pub metrics : Registry
  pub closings : List ℕ
  pub discarded : ℕ

-- What the Headroom factory returns; the flags tell whether there is a function to close it.
pub data Made : Type 0 where
  factory_failed : Made
  no_runner : Bool → Made
  runner_made : Bool → Made

abbrev pub fresh_state : Config → Bool → Bool → GenerationState
fresh_state c has_runner has_close = record {
  config = c;
  has_runner = has_runner;
  has_close = has_close;
  inflight = 0;
  retired = false;
  closed = false;
}

unfoldable pub new_service : ℕ → Service
new_service now = record {
  closed = false;
  current = 0;
  states = λ a. fresh_state defaults false false;
  next_generation = 0;
  metrics = publish_generation (new_registry now) 0;
  closings = [];
  discarded = 0;
}

unfoldable pub set_state : (ℕ → GenerationState) → ℕ → GenerationState → ℕ → GenerationState
set_state states a s b = if a == b then s else states b

-- The state, and whether its client is to be closed now.
unfoldable pub closable_locked : GenerationState → GenerationState × Bool
closable_locked s =
    if not s.retired || not (s.inflight == 0) || s.closed || not s.has_close
    then (s, false)
    else (record s { closed = true }, true)

-- The call of `closableLocked`, with the closing that follows it.
unfoldable pub settle : Service → ℕ → Service
settle sv a =
    let judged = closable_locked (sv.states a) in
    record sv {
      states = set_state sv.states a judged.0;
      closings = if judged.1 then a ∷ sv.closings else sv.closings;
    }

unfoldable pub discard : Service → Bool → Service
discard sv has_close = if has_close then record sv { discarded = sv.discarded + 1 } else sv

unfoldable pub install : Service → Config → Bool → Bool → Service × Bool
install sv c has_runner has_close =
    let number = u64 (sv.next_generation + 1) in
    let old = record (sv.states sv.current) { retired = true } in
    let swapped : Service = record sv {
      next_generation = number;
      current = number;
      states =
          set_state (set_state sv.states number (fresh_state c has_runner has_close)) sv.current
            old;
      metrics = publish_generation sv.metrics number;
    } in
    if sv.closed then (discard sv has_close, false) else (settle swapped sv.current, true)

-- `Reconfigure`; the flag tells whether there was no error.
unfoldable pub reconfigure : Service → Config → Made → Service × Bool
reconfigure sv c made = if not c.headroom_enabled then install sv c false false else elim made [
  | factory_failed ↦ (sv, false)
  | no_runner has_close ↦ (discard sv has_close, false)
  | runner_made has_close ↦ install sv c true has_close
]

unfoldable pub enter : Service → Service
enter sv =
    let s = sv.states sv.current in
    record sv {
      states = set_state sv.states sv.current (record s { inflight = u64 (s.inflight + 1) });
    }

-- `acquire`: the service, and the generation that the request holds.
unfoldable pub acquire : Service → Service × Option ℕ
acquire sv =
    if sv.closed
    then (sv, none)
    else (record (enter sv) { metrics = begin_request sv.metrics sv.current }, some sv.current)

-- The begin of `HeadroomStatus` and of `HeadroomSnapshot`.
unfoldable pub acquire_status : Service → Service × Option ℕ
acquire_status sv =
    if sv.closed
    then (sv, none)
    else (if not (sv.states sv.current).config.headroom_enabled
        then (sv, none)
        else (enter sv, some sv.current))

unfoldable pub release_status_state : Service → ℕ → Service
release_status_state sv a =
    let s = sv.states a in
    settle (record sv { states = set_state sv.states a (record s { inflight = s.inflight - 1 }) }) a

-- The function that `acquire` returns, as its `once` runs it.
unfoldable pub release : Service → ℕ → Service
release sv a =
    let left = release_status_state sv a in record left { metrics = end_request left.metrics a }

unfoldable pub close : Service → Service
close sv =
    settle
      (record sv {
        closed = true;
        states = set_state sv.states sv.current (record (sv.states sv.current) { retired = true });
      })
      sv.current
