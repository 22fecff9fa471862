-- ===== src/Tests/Client.antt =====
-- internal/headroom/client.go: calls of `Compress` at concrete inputs.
use cpa_plugin_token_saver.Common.{
  List, [], arith, false, length, none, refl, some, true, ℕ, ◌+◌, ◌<◌, ◌∷◌, ◌≡◌, ◌≤◌,
}
use cpa_plugin_token_saver.Text.{Bytes, bytes_eq, codes, trim_space}
use cpa_plugin_token_saver.Headroom.Circuit.{begin, new_circuit}
use cpa_plugin_token_saver.Headroom.Client.{
  Answer, Attempt, Client, Json, Outcome, Response, applied, compress, compress_circuit,
  decode_array, decode_messages, exchange, judge, max_payload_bytes, messages, new_client,
  read_body, read_limited, read_response, readable, responded, run_slot, select_slot,
}
use cpa_plugin_token_saver.Headroom.Client.Laws.{compress-applied, is_bypass}
use cpa_plugin_token_saver.Headroom.Client.Runs.{IsFailing}

abbrev pub json : Json
json = record {
  valid = λ raw. true;
  unique_object_keys = λ raw. true;
  object = λ raw. some (λ key. some raw);
  array = λ raw. some (raw ∷ []);
  equal_fold = bytes_eq;
}

abbrev attempt : ℕ → Answer → Attempt
attempt now answer = record {
  now = now;
  later = now + 5;
  ctx_err = none;
  ctx_first = false;
  answer = answer;
}

abbrev reply : Response
reply = record {
  status_code = 200;
  content_encoding = [];
  content_length = none;
  body = readable (codes "[1]");
}

abbrev error_reply : Response
error_reply = record reply { status_code = 500 }

abbrev pub answered : Attempt
answered = attempt 10 (responded reply)

accepted : (compress json (λ ms. true) (new_client 100) answered (codes "{}")).1 ≡ applied
unfolding compress compress_circuit begin select_slot run_slot exchange read_response read_body
    read_limited decode_messages decode_array judge new_client new_circuit bytes_eq trim_space
accepted = refl

compress-applied_example :
    (r : Response) × (bytes : Bytes) × (ms : List Bytes) × (answered.answer ≡ responded r)
    × (200 ≤ r.status_code)
    × (r.status_code < 300)
    × (r.body ≡ readable bytes)
    × (length bytes ≤ max_payload_bytes)
    × (decode_messages json bytes ≡ messages ms)
    × (true ≡ true)
compress-applied_example =
    compress-applied json (λ ms. true) (new_client 100) answered (codes "{}") accepted

abbrev empty_call : Client × Outcome
empty_call = compress json (λ ms. true) (new_client 100) answered []

empty_call_bypassed : is_bypass empty_call.1 ≡ true
unfolding compress compress_circuit
empty_call_bypassed = refl

IsFailing-attempt : (now : ℕ) → IsFailing json (λ ms. true) (attempt now (responded error_reply))
unfolding exchange read_response
IsFailing-attempt now = record { not_applied = λ h. ground arith; not_ended = refl }
