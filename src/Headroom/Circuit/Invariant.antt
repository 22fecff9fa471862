-- ===== src/Headroom/Circuit/Invariant.antt =====
-- internal/headroom/client.go: what holds of the breaker between two calls of its methods.
use cpa_plugin_token_saver.Common.{ℕ, ◌<◌, ◌≡◌, ◌⊎◌, Bool, true, false, arith, length}
use cpa_plugin_token_saver.Headroom.Circuit.{
  CircuitBreaker, closed, opened, half_open, new_circuit, state, begin, cancel, finish,
}

-- A closed breaker is below both thresholds and has no probe out.
pub record IsSound (b : CircuitBreaker) : Type 0 where
  pub few_in_row : b.open_until ≡ 0 → b.consecutive_failures < 3
  pub few_in_window : b.open_until ≡ 0 → length b.failures < 5
  pub no_probe_closed : b.open_until ≡ 0 → b.half_open_in_flight ≡ false

pub new_circuit-IsSound : IsSound new_circuit
unfolding new_circuit
new_circuit-IsSound = ground arith

pub begin-IsSound : (b : CircuitBreaker) (now : ℕ) → IsSound b → IsSound (begin b now).0
unfolding begin
begin-IsSound b now s = ground arith

pub cancel-IsSound : (b : CircuitBreaker) (probe : Bool) → IsSound b → IsSound (cancel b probe)
unfolding cancel
cancel-IsSound b probe s = ground arith

pub finish-IsSound :
    (b : CircuitBreaker) (now : ℕ) (probe success : Bool)
    → IsSound b
    → IsSound (finish b now probe success)
unfolding finish
finish-IsSound b now true true s = ground arith
finish-IsSound b now true false s = ground arith
finish-IsSound b now false true s = ground arith
finish-IsSound b now false false s = ground arith

-- `begin` decides by the state that `state` reports.
pub begin-state :
    (b : CircuitBreaker) (now : ℕ)
    → ((state b now ≡ closed) × (begin b now ≡ (b, false, true)))
      ⊎ ((state b now ≡ opened) × (begin b now ≡ (b, false, false)))
      ⊎ ((state b now ≡ half_open)
          × (b.half_open_in_flight ≡ true)
          × (begin b now ≡ (b, false, false)))
      ⊎ ((state b now ≡ half_open)
          × (b.half_open_in_flight ≡ false)
          × (begin b now ≡ (record b { half_open_in_flight = true }, true, true)))
unfolding state begin
begin-state b now = ground arith
