-- ===== src/Tests/Circuit.antt =====
-- internal/headroom/client.go: the breaker and its calls at concrete inputs.
use cpa_plugin_token_saver.Common.{
  [], arith, false, none, refl, some, true, ◌+◌, ◌<◌, ◌∷◌, ◌≡◌, ◌≤◌, ◌⊎◌,
}
use cpa_plugin_token_saver.Headroom.Calls.{
  Calls, IsTracked, Reach, Reach-IsTracked, Reach-quiet, acquire, admit, complete, here, idle, next,
}
use cpa_plugin_token_saver.Headroom.Circuit.{
  CircuitBreaker, begin, circuit_open_duration, finish, keep_recent, new_circuit,
}
use cpa_plugin_token_saver.Headroom.Circuit.Windows.{finish-opens_iff, recent}

abbrev admitted : Calls
admitted = record {
  circuit = (begin new_circuit 5).0;
  waiting = (begin new_circuit 5).1 ∷ [];
  holder = none;
}

abbrev working : Calls
working = record { circuit = (begin new_circuit 5).0; waiting = []; holder = some false }

abbrev ended_calls : Calls
ended_calls = record {
  circuit = finish (begin new_circuit 5).0 9 false false;
  waiting = [];
  holder = none;
}

admitted-Reach : Reach (idle new_circuit) admitted
unfolding idle begin new_circuit
admitted-Reach = next here (admit 5 refl)

working-Reach : Reach (idle new_circuit) working
unfolding begin new_circuit
working-Reach = next admitted-Reach (acquire [] [] false refl refl)

ended-Reach : Reach (idle new_circuit) ended_calls
unfolding begin new_circuit
ended-Reach = next working-Reach (complete 9 false false refl)

Reach-IsTracked_example : IsTracked working
Reach-IsTracked_example = Reach-IsTracked working-Reach

ended_early : ended_calls.circuit.open_until ≤ 20
unfolding finish keep_recent begin new_circuit
ended_early = omega arith

Reach-quiet_example : (begin ended_calls.circuit 20).2 ≡ true
Reach-quiet_example = Reach-quiet 20 ended-Reach refl refl ended_early

abbrev shaken : CircuitBreaker
shaken = record {
  consecutive_failures = 2;
  failures = 3 ∷ 4 ∷ [];
  open_until = 0;
  half_open_in_flight = false;
}

finish-opens_iff_example :
    (((2 ≤ 2) ⊎ (4 ≤ recent 9 (3 ∷ 4 ∷ [])))
      × ((finish shaken 9 false false).open_until ≡ 9 + circuit_open_duration))
    ⊎ ((2 < 2) × (recent 9 (3 ∷ 4 ∷ []) < 4) × ((finish shaken 9 false false).open_until ≡ 0))
finish-opens_iff_example = finish-opens_iff shaken 9 refl

abbrev probing : CircuitBreaker
probing = record {
  consecutive_failures = 3;
  failures = 1 ∷ 2 ∷ 3 ∷ [];
  open_until = 10;
  half_open_in_flight = true;
}
