-- ===== src/Headroom/Circuit.antt =====
-- internal/headroom/client.go, `circuitBreaker`. A time is the number of nanoseconds since the
-- zero `time.Time`, so `IsZero` is the test for 0; a method returns the new breaker.
use cpa_plugin_token_saver.Common.{
  ℕ, ◌+◌, ◌*◌, ◌==◌, ◌||◌, Bool, true, false, not, List, [], ◌∷◌, ◌++◌, leb, ltb, if◌then◌else◌,
  length,
}
pub mod Invariant
pub mod Windows

pub data CircuitState : Type 0 where
  closed opened half_open : CircuitState

pub record CircuitBreaker : Type 0 where
  pub consecutive_failures : ℕ
  pub failures : List ℕ
  pub open_until : ℕ
  pub half_open_in_flight : Bool

abbrev pub second : ℕ
second = 1_000_000_000

abbrev pub failure_window : ℕ
failure_window = 60 * second

abbrev pub circuit_open_duration : ℕ
circuit_open_duration = 60 * second

-- The zero value of the struct, with which a client starts.
unfoldable pub new_circuit : CircuitBreaker
new_circuit = record {
  consecutive_failures = 0;
  failures = [];
  open_until = 0;
  half_open_in_flight = false;
}

unfoldable pub state : CircuitBreaker → ℕ → CircuitState
state b now =
    if b.open_until == 0
    then closed
    else (if b.half_open_in_flight || not (ltb now b.open_until) then half_open else opened)

-- The two results of `begin`: whether the call is the probe, and whether it is allowed.
unfoldable pub begin : CircuitBreaker → ℕ → CircuitBreaker × Bool × Bool
begin b now =
    if b.open_until == 0
    then (b, false, true)
    else (if ltb now b.open_until || b.half_open_in_flight
        then (b, false, false)
        else (record b { half_open_in_flight = true }, true, true))

unfoldable pub cancel : CircuitBreaker → Bool → CircuitBreaker
cancel b probe = if not probe then b else record b { half_open_in_flight = false }

-- The failures that are not before the cutoff `now - failure_window`; the cutoff is compared on the
-- other side, since a number does not go below 0.
unfoldable pub keep_recent : ℕ → List ℕ → List ℕ
keep_recent now [] = []
keep_recent now (t ∷ ts) =
    let kept = keep_recent now ts in if not (ltb (t + failure_window) now) then t ∷ kept else kept

-- A failed call outside a probe.
unfoldable pub add_failure : CircuitBreaker → ℕ → CircuitBreaker
unfolding keep_recent
add_failure b now =
    let b' = record b {
      failures = keep_recent now b.failures ++ now ∷ [];
      consecutive_failures = b.consecutive_failures + 1;
    } in
    if leb 3 b'.consecutive_failures || leb 5 (length b'.failures)
    then record b' { open_until = now + circuit_open_duration; half_open_in_flight = false }
    else b'

unfoldable pub finish : CircuitBreaker → ℕ → Bool → Bool → CircuitBreaker
unfolding add_failure
finish b now true true = record b {
  half_open_in_flight = false;
  open_until = 0;
  consecutive_failures = 0;
  failures = [];
}
finish b now true false = record b {
  half_open_in_flight = false;
  open_until = now + circuit_open_duration;
}
finish b now false true = record b { consecutive_failures = 0 }
finish b now false false = add_failure b now
