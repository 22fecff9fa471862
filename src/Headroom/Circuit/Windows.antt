-- ===== src/Headroom/Circuit/Windows.antt =====
-- internal/headroom/client.go: when the breaker opens, and for how long.
use cpa_plugin_token_saver.Common.{
  ℕ, ◌+◌, ◌≤◌, ◌<◌, ◌≡◌, ◌⊎◌, true, false, List, [], ◌∷◌, ◌++◌, arith, length, length-append, ltb,
  if◌then◌else◌,
}
use cpa_plugin_token_saver.Headroom.Circuit.{
  CircuitBreaker, opened, half_open, circuit_open_duration, failure_window, new_circuit, state,
  begin, keep_recent, finish,
}

-- How many of the noted failures are no older than the window.
pub recent : ℕ → List ℕ → ℕ
recent now [] = 0
recent now (t ∷ ts) = recent now ts + (if ltb (t + failure_window) now then 0 else 1)

length-keep_recent : (now : ℕ) (ts : List ℕ) → length (keep_recent now ts) ≡ recent now ts
unfolding keep_recent recent
length-keep_recent now [] = omega arith
length-keep_recent now (t ∷ ts) = ground (arith, length-keep_recent now ts)

length-noted : (now : ℕ) (ts : List ℕ) → length (keep_recent now ts ++ now ∷ []) ≡ recent now ts + 1
length-noted now ts =
    omega (arith, length-keep_recent now ts, length-append (keep_recent now ts) (now ∷ []))

-- A failed call outside a probe opens a closed breaker exactly if it is the third in a row or the
-- fifth within the window, then for `circuit_open_duration` from now; otherwise the breaker stays
-- closed.
pub finish-opens_iff :
    (b : CircuitBreaker) (now : ℕ)
    → b.open_until ≡ 0
    → let b' = finish b now false false in
      (((2 ≤ b.consecutive_failures) ⊎ (4 ≤ recent now b.failures))
        × (b'.open_until ≡ now + circuit_open_duration))
      ⊎ ((b.consecutive_failures < 2) × (recent now b.failures < 4) × (b'.open_until ≡ 0))
unfolding finish
finish-opens_iff b now h = ground (arith, length-noted now b.failures)

-- Three failed calls in a row open the breaker, whatever it held before, and `begin` refuses calls
-- until the term is over.
pub three_failures_open :
    (b : CircuitBreaker) (t u v now : ℕ)
    → v ≤ now
    → now < v + circuit_open_duration
    → let b' = finish (finish (finish b t false false) u false false) v false false in
      (state b' now ≡ opened) × (begin b' now ≡ (b', false, false))
unfolding finish state begin
three_failures_open b t u v now early late = ground arith

-- A probe that fails opens the breaker for another full term; one that succeeds closes it and
-- forgets every failure.
pub probe_decides :
    (b : CircuitBreaker) (t now : ℕ)
    → t ≤ now
    → ((now < t + circuit_open_duration → state (finish b t true false) now ≡ opened)
        × (t + circuit_open_duration ≤ now → state (finish b t true false) now ≡ half_open))
      × (finish b t true true ≡ new_circuit)
unfolding finish state new_circuit
probe_decides b t now h = ((λ l. ground arith, λ l. ground arith), ground arith)
