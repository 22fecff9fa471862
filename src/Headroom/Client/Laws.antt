-- ===== src/Headroom/Client/Laws.antt =====
-- internal/headroom/client.go: what one call of `Compress` does, by its outcome.
use cpa_plugin_token_saver.Common.{
  Bool, Bool-cases, List, [], ap, arith, false, inl, inr, length, length-take, ltb, refl, subst,
  suc, take, true, zero, ℕ, ◌+◌, ◌<◌, ◌∷◌, ◌≡◌, ◌≢◌, ◌≤◌,
}
use cpa_plugin_token_saver.Text.{Bytes}
use cpa_plugin_token_saver.Headroom.Circuit.{CircuitBreaker, begin, cancel}
use cpa_plugin_token_saver.Headroom.Client.{
  Answer, Attempt, Body, Client, Decoded, Json, Outcome, RequestError, Response, Slot, applied,
  circuit_open, classify_request_error, compress, compress_circuit, decode_array, decode_messages,
  ended, exchange, failed, full, judge, max_payload_bytes, messages, no_request, read_body,
  read_limited, read_response, readable, refused_as, request_too_large, responded, run_slot,
  saturated, select_slot, taken, unreadable,
}

take_all {ℓ} :
    {A : Type ℓ} (limit : ℕ) (items : List A) → length items ≤ limit → take limit items ≡ items
take_all zero [] fits = refl
take_all (suc limit) [] fits = refl
take_all (suc limit) (item ∷ items) fits = ap (λ l. item ∷ l) (take_all limit items (ground arith))
take_all zero (item ∷ items) fits = absurd (ground arith)

abbrev pub is_bypass : Outcome → Bool
is_bypass request_too_large = true
is_bypass circuit_open = true
is_bypass saturated = true
is_bypass _ = false

-- An exchange with the service has none of the outcomes of the guards before it.
classify-bypass : (e : RequestError) → is_bypass (classify_request_error e) ≡ false
unfolding classify_request_error
classify-bypass e = ground arith

decode_messages-bypass :
    (j : Json) (validate : List Bytes → Bool) (raw : Bytes)
    → is_bypass (judge validate (decode_messages j raw)) ≡ false
unfolding decode_messages decode_array judge
decode_messages-bypass j validate raw = ground arith

read_body-bypass :
    (j : Json) (validate : List Bytes → Bool) (b : Body)
    → is_bypass (read_body j validate b) ≡ false
unfolding read_body
read_body-bypass j validate (unreadable e) = classify-bypass e
read_body-bypass j validate (readable bytes) =
    ground (arith, decode_messages-bypass j validate (read_limited bytes))

pub exchange-bypass :
    (j : Json) (validate : List Bytes → Bool) (a : Answer)
    → is_bypass (exchange j validate a) ≡ false
unfolding exchange read_response
exchange-bypass j validate no_request = refl
exchange-bypass j validate (failed e) = classify-bypass e
exchange-bypass j validate (responded r) = ground (arith, read_body-bypass j validate r.body)

read_limited_whole :
    (bytes : Bytes) → length (read_limited bytes) ≤ max_payload_bytes → read_limited bytes ≡ bytes
unfolding read_limited
read_limited_whole bytes h =
    take_all (max_payload_bytes + 1) bytes
      (omega (arith, length-take (max_payload_bytes + 1) bytes))

classify-applied : (e : RequestError) → classify_request_error e ≢ applied
unfolding classify_request_error
classify-applied e = ground arith

judge-applied :
    (validate : List Bytes → Bool) (d : Decoded)
    → ((o : Outcome) → d ≡ refused_as o → o ≢ applied)
    → judge validate d ≡ applied
    → (ms : List Bytes) × (d ≡ messages ms) × (validate ms ≡ true)
unfolding judge
judge-applied validate (messages ms) refused h = (ms, refl, ground arith)
judge-applied validate (refused_as o) refused h = absurd (refused o refl h)

decode_messages-refused :
    (j : Json) (raw : Bytes) (o : Outcome) → decode_messages j raw ≡ refused_as o → o ≢ applied
unfolding decode_messages decode_array
decode_messages-refused j raw o h = ground arith

read_body-applied :
    (j : Json) (validate : List Bytes → Bool) (b : Body)
    → read_body j validate b ≡ applied
    → (bytes : Bytes) × (ms : List Bytes) × (b ≡ readable bytes)
      × (length bytes ≤ max_payload_bytes)
      × (decode_messages j bytes ≡ messages ms)
      × (validate ms ≡ true)
unfolding read_body
read_body-applied j validate (unreadable e) h = absurd (classify-applied e h)
read_body-applied j validate (readable bytes) h =
    elim (Bool-cases (ltb max_payload_bytes (length (read_limited bytes)))) [
      | inl long ↦ absurd (ground arith)
      | inr fits ↦
          let whole = read_limited_whole bytes (ground arith) in
          let (ms, decoded, ok) =
            judge-applied validate (decode_messages j (read_limited bytes))
              (decode_messages-refused j (read_limited bytes)) (ground arith) in
          (
            bytes,
            ms,
            refl,
            subst (λ x. length x ≤ max_payload_bytes) whole (ground arith),
            subst (λ x. decode_messages j x ≡ messages ms) whole decoded,
            ok,
          )
    ]

exchange-applied :
    (j : Json) (validate : List Bytes → Bool) (a : Answer)
    → exchange j validate a ≡ applied
    → (r : Response) × (a ≡ responded r)
      × (200 ≤ r.status_code)
      × (r.status_code < 300)
      × (read_body j validate r.body ≡ applied)
unfolding exchange read_response
exchange-applied j validate no_request h = absurd (ground arith)
exchange-applied j validate (failed e) h = absurd (classify-applied e h)
exchange-applied j validate (responded r) h = (r, refl, ground arith, ground arith, ground arith)

run_slot-applied :
    (j : Json) (validate : List Bytes → Bool) (a : Attempt) (b : CircuitBreaker) (p : Bool)
    (s : Slot)
    → (run_slot j validate a b p s).1 ≡ applied
    → exchange j validate a.answer ≡ applied
unfolding run_slot
run_slot-applied j validate a b p taken h = h
run_slot-applied j validate a b p (ended e) h = absurd (classify-applied e h)
run_slot-applied j validate a b p full h = absurd (ground arith)

compress-exchange :
    (j : Json) (validate : List Bytes → Bool) (c : Client) (a : Attempt) (request : Bytes)
    → (compress j validate c a request).1 ≡ applied
    → exchange j validate a.answer ≡ applied
unfolding compress compress_circuit
compress-exchange j validate c a request h =
    let (b, p, _) = begin c.circuit a.now in
    ground
      (arith, run_slot-applied j validate a b p (select_slot c.semaphore a.ctx_err a.ctx_first))

-- `Compress` reports `applied` only for a reply with a 2xx status and at most `max_payload_bytes`
-- bytes, whose messages decode and are accepted by the caller's validator.
pub compress-applied :
    (j : Json) (validate : List Bytes → Bool) (c : Client) (a : Attempt) (request : Bytes)
    → (compress j validate c a request).1 ≡ applied
    → (r : Response) × (bytes : Bytes) × (ms : List Bytes) × (a.answer ≡ responded r)
      × (200 ≤ r.status_code)
      × (r.status_code < 300)
      × (r.body ≡ readable bytes)
      × (length bytes ≤ max_payload_bytes)
      × (decode_messages j bytes ≡ messages ms)
      × (validate ms ≡ true)
compress-applied j validate c a request h =
    let (r, answered, low, high, taken_in) =
      exchange-applied j validate a.answer (compress-exchange j validate c a request h) in
    let (bytes, ms, body, short, decoded, ok) = read_body-applied j validate r.body taken_in in
    (r, bytes, ms, answered, low, high, body, short, decoded, ok)

run_slot-bypass :
    (j : Json) (validate : List Bytes → Bool) (a : Attempt) (b : CircuitBreaker) (s : Slot)
    → is_bypass (run_slot j validate a (begin b a.now).0 (begin b a.now).1 s).1 ≡ true
    → (run_slot j validate a (begin b a.now).0 (begin b a.now).1 s).0 ≡ b
unfolding run_slot begin cancel
run_slot-bypass j validate a b taken h = ground (arith, exchange-bypass j validate a.answer)
run_slot-bypass j validate a b (ended e) h = ground (arith, classify-bypass e)
run_slot-bypass j validate a b full h = ground arith

begin_refused : (b : CircuitBreaker) (now : ℕ) → (begin b now).2 ≡ false → (begin b now).0 ≡ b
unfolding begin
begin_refused b now h = ground arith

-- A call that ends as too large, as refused by the open breaker or as saturated leaves the breaker
-- as it was: also the probe that it had been admitted as is taken back.
pub compress-bypass :
    (j : Json) (validate : List Bytes → Bool) (c : Client) (a : Attempt) (request : Bytes)
    → is_bypass (compress j validate c a request).1 ≡ true
    → (compress j validate c a request).0.circuit ≡ c.circuit
unfolding compress compress_circuit
compress-bypass j validate c a request h = ground (
  arith,
  run_slot-bypass j validate a c.circuit (select_slot c.semaphore a.ctx_err a.ctx_first),
  begin_refused c.circuit a.now,
)

-- The breaker refuses a call before any exchange: whatever the service would have answered, the
-- outcome is `circuit_open`, and only the record of the last outcome changes.
pub compress_refused :
    (j : Json) (validate : List Bytes → Bool) (c : Client) (a : Attempt) (request : Bytes)
    → 0 < length request
    → length request ≤ max_payload_bytes
    → (begin c.circuit a.now).2 ≡ false
    → compress j validate c a request
      ≡ (record c { last_value = circuit_open; observed = true }, circuit_open)
unfolding compress compress_circuit
compress_refused j validate c a request some_bytes fits shut =
    ground (arith, begin_refused c.circuit a.now)
