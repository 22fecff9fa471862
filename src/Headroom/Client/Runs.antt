-- ===== src/Headroom/Client/Runs.antt =====
-- internal/headroom/client.go: calls of `Compress` as steps of the running calls, and in a row.
use cpa_plugin_token_saver.Common.{
  Bool, List, [], ap, arith, false, length, none, refl, ℕ, ◌+◌, ◌<◌, ◌∷◌, ◌≡◌, ◌≢◌, ◌≤◌,
}
use cpa_plugin_token_saver.Text.{Bytes}
use cpa_plugin_token_saver.Headroom.Circuit.{
  begin, circuit_open_duration, finish, keep_recent, new_circuit,
}
use cpa_plugin_token_saver.Headroom.Client.{
  Attempt, Client, Json, applied, circuit_open, compress, compress_circuit, exchange,
  max_payload_bytes, new_client, run_slot, select_slot,
}
use cpa_plugin_token_saver.Headroom.Circuit.Windows.{three_failures_open}
use cpa_plugin_token_saver.Headroom.Client.Laws.{compress_refused}

-- Calls in a row, each with its own surroundings, on one request.
unfoldable pub run_calls : Json → (List Bytes → Bool) → Client → List Attempt → Bytes → Client
run_calls j validate c [] request = c
run_calls j validate c (a ∷ as') request =
    run_calls j validate (compress j validate c a request).0 as' request

-- The exchange of the attempt fails, and nothing stands in its way.
pub record IsFailing (j : Json) (validate : List Bytes → Bool) (a : Attempt) : Type 0 where
  pub not_applied : exchange j validate a.answer ≢ applied
  pub not_ended : a.ctx_err ≡ none

failing-compress :
    (j : Json) (validate : List Bytes → Bool) (c : Client) (a : Attempt) (request : Bytes)
    → 0 < length request
    → length request ≤ max_payload_bytes
    → c.semaphore ≡ false
    → c.circuit.open_until ≡ 0
    → IsFailing j validate a
    → let c' = (compress j validate c a request).0 in
      (c'.circuit ≡ finish c.circuit a.later false false) × (c'.semaphore ≡ false)
unfolding compress compress_circuit begin select_slot run_slot
failing-compress j validate c a request some_bytes fits free closed_now f =
    (ground (arith, f.not_applied, f.not_ended), ground arith)

one_failure_closed : (t : ℕ) → (finish new_circuit t false false).open_until ≡ 0
unfolding finish new_circuit keep_recent
one_failure_closed t = ground arith

two_failures_closed :
    (t u : ℕ) → (finish (finish new_circuit t false false) u false false).open_until ≡ 0
unfolding finish new_circuit keep_recent
two_failures_closed t u = ground arith

-- After three failed calls in a row on a new client, of requests that are neither empty nor too
-- large, a call within `circuit_open_duration` of the third failure is refused as `circuit_open`,
-- whatever the service would answer.
pub three_calls_open :
    (j : Json) (validate : List Bytes → Bool) (timeout_ns : ℕ) (a b c d : Attempt) (request : Bytes)
    → 0 < length request
    → length request ≤ max_payload_bytes
    → IsFailing j validate a
    → IsFailing j validate b
    → IsFailing j validate c
    → c.later ≤ d.now
    → d.now < c.later + circuit_open_duration
    → (compress j validate
        (run_calls j validate (new_client timeout_ns) (a ∷ b ∷ c ∷ []) request)
        d
        request).1
      ≡ circuit_open
unfolding run_calls new_client
three_calls_open j validate timeout_ns a b c d request some_bytes fits fa fb fc early late =
    let c0 = new_client timeout_ns in
    let c1 = (compress j validate c0 a request).0 in
    let c2 = (compress j validate c1 b request).0 in
    let c3 = (compress j validate c2 c request).0 in
    let (e1, free1) =
      failing-compress j validate c0 a request some_bytes fits refl (unfold new_circuit in refl)
        fa in
    let closed1 : c1.circuit.open_until ≡ 0 = rw e1 (one_failure_closed a.later) in
    let (e2, free2) = failing-compress j validate c1 b request some_bytes fits free1 closed1 fb in
    let closed2 : c2.circuit.open_until ≡ 0 = rw (e2, e1) (two_failures_closed a.later b.later) in
    let (e3, _) = failing-compress j validate c2 c request some_bytes fits free2 closed2 fc in
    let opened_now = three_failures_open new_circuit a.later b.later c.later d.now early late in
    let shut : (begin c3.circuit d.now).2 ≡ false = rw (e3, e2, e1, opened_now.1) in
    ap (λ r. r.1) (compress_refused j validate c3 d request some_bytes fits shut)
