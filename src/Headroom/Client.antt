-- ===== src/Headroom/Client.antt =====
-- internal/headroom/client.go: `Client`, with `Compress` and `Probe`. What net/http, the clock and
-- encoding/json answer in one call are arguments.
use cpa_plugin_token_saver.Common.{
  Bool, List, Option, [], false, if◌then◌else◌, leb, length, ltb, none, not, some, take, true, ℕ,
  ◌&&◌, ◌*◌, ◌+◌, ◌-◌, ◌==◌, ◌||◌, ◌∷◌,
}
use cpa_plugin_token_saver.Text.{Bytes, bytes_eq, codes, trim_space}
use cpa_plugin_token_saver.Headroom.Circuit.{
  CircuitBreaker, CircuitState, begin, cancel, finish, new_circuit, second, state,
}
pub mod Laws
pub mod Runs

abbrev pub max_payload_bytes : ℕ
max_payload_bytes = 1_048_576

abbrev pub probe_cache_duration : ℕ
probe_cache_duration = 5 * second

-- `blank` is the empty string, the value of the type before any call.
pub data Outcome : Type 0 where
  blank : Outcome
  applied no_change unsupported_format unsupported_structure request_too_large : Outcome
  saturated circuit_open timeout connection network redirect http_status : Outcome
  response_encoding response_too_large invalid_json invalid_response : Outcome

pub Outcome-discrete : Discrete Outcome
Outcome-discrete = hlevel

-- What errors.Is and errors.As find in the chain of an error.
pub record RequestError : Type 0 where
  pub deadline_exceeded : Bool
  pub net_timeout : Bool
  pub refused : Bool
  pub unsafe_peer : Bool
  pub dial : Bool

unfoldable pub classify_request_error : RequestError → Outcome
classify_request_error e =
    if e.deadline_exceeded
    then timeout
    else (if e.net_timeout
        then timeout
        else (if e.refused
            then connection
            else (if e.unsafe_peer then connection else (if e.dial then connection else network))))

pub data Body : Type 0 where
  unreadable : RequestError → Body
  readable : Bytes → Body

-- A response; `content_length` is none where net/http has -1.
pub record Response : Type 0 where
  pub status_code : ℕ
  pub content_encoding : Bytes
  pub content_length : Option ℕ
  pub body : Body

pub data Answer : Type 0 where
  no_request : Answer
  failed : RequestError → Answer
  responded : Response → Answer

-- One call's surroundings: the clock at its start and at its end, the error of a context that has
-- ended by then, which ready case `select` picks, and the answer.
pub record Attempt : Type 0 where
  pub now : ℕ
  pub later : ℕ
  pub ctx_err : Option RequestError
  pub ctx_first : Bool
  pub answer : Answer

-- encoding/json, and `validateUniqueObjectKeys` over its tokens.
pub record Json : Type 0 where
  pub valid : Bytes → Bool
  pub unique_object_keys : Bytes → Bool
  pub object : Bytes → Option (Bytes → Option Bytes)
  pub array : Bytes → Option (List Bytes)
  pub equal_fold : Bytes → Bytes → Bool

-- The messages of a response, or the outcome that refuses it.
pub data Decoded : Type 0 where
  messages : List Bytes → Decoded
  refused_as : Outcome → Decoded

unfoldable pub decode_array : Json → Option Bytes → Decoded
decode_array j none = refused_as invalid_response
decode_array j (some raw) =
    if length raw == 0 || bytes_eq (trim_space raw) (codes "null")
    then refused_as invalid_response
    else elim (j.array raw) [ none ↦ refused_as invalid_response | some ms ↦ messages ms ]

unfoldable pub decode_messages : Json → Bytes → Decoded
decode_messages j raw =
    if not (j.valid raw)
    then refused_as invalid_json
    else (if not (j.unique_object_keys raw)
        then refused_as invalid_response
        else elim (j.object raw) [
          | none ↦ refused_as invalid_response
          | some envelope ↦ decode_array j (envelope (codes "messages"))
        ])

-- The end of `Compress` once the messages are decoded.
unfoldable pub judge : (List Bytes → Bool) → Decoded → Outcome
judge validate (refused_as o) = o
judge validate (messages ms) = if validate ms then applied else invalid_response

-- io.ReadAll of io.LimitReader.
unfoldable pub read_limited : Bytes → Bytes
read_limited bytes = take (max_payload_bytes + 1) bytes

unfoldable pub read_body : Json → (List Bytes → Bool) → Body → Outcome
read_body j validate (unreadable e) = classify_request_error e
read_body j validate (readable bytes) =
    let raw = read_limited bytes in
    if ltb max_payload_bytes (length raw)
    then response_too_large
    else judge validate (decode_messages j raw)

abbrev pub too_long : Option ℕ → Bool
too_long none = false
too_long (some n) = ltb max_payload_bytes n

unfoldable pub read_response : Json → (List Bytes → Bool) → Response → Outcome
read_response j validate r =
    let encoding = trim_space r.content_encoding in
    if leb 300 r.status_code && ltb r.status_code 400
    then redirect
    else (if ltb r.status_code 200 || leb 300 r.status_code
        then http_status
        else (if not (bytes_eq encoding []) && not (j.equal_fold encoding (codes "identity"))
            then response_encoding
            else (if too_long r.content_length
                then response_too_large
                else read_body j validate r.body)))

unfoldable pub exchange : Json → (List Bytes → Bool) → Answer → Outcome
exchange j validate no_request = network
exchange j validate (failed e) = classify_request_error e
exchange j validate (responded r) = read_response j validate r

pub record Client : Type 0 where
  pub timeout_ns : ℕ
  pub circuit : CircuitBreaker
  pub semaphore : Bool  -- whether the one slot is taken
  pub last_value : Outcome
  pub observed : Bool
  pub probe_at : ℕ
  pub probe_value : Outcome

-- The three ways out of the `select`.
pub data Slot : Type 0 where
  taken : Slot
  ended : RequestError → Slot
  full : Slot

unfoldable pub select_slot : Bool → Option RequestError → Bool → Slot
select_slot busy none ctx_first = if busy then full else taken
select_slot busy (some e) ctx_first = if busy || ctx_first then ended e else taken

abbrev pub is_applied : Outcome → Bool
is_applied applied = true
is_applied _ = false

-- Past `begin`: the breaker that the call leaves, and its outcome. The exchange is assumed to return:
-- a panic within it would leave the probe noted as in flight.
unfoldable pub run_slot :
    Json → (List Bytes → Bool) → Attempt → CircuitBreaker → Bool → Slot → CircuitBreaker × Outcome
run_slot j validate a b probe taken =
    let outcome = exchange j validate a.answer in
    (finish b a.later probe (is_applied outcome), outcome)
run_slot j validate a b probe (ended e) = (cancel b probe, classify_request_error e)
run_slot j validate a b probe full = (cancel b probe, saturated)

unfoldable pub compress_circuit :
    Json → (List Bytes → Bool) → Client → Attempt → Bytes → CircuitBreaker × Outcome
compress_circuit j validate c a request =
    if length request == 0 || ltb max_payload_bytes (length request)
    then (c.circuit, request_too_large)
    else (let (b, probe, allowed) = begin c.circuit a.now in
        if not allowed
        then (b, circuit_open)
        else run_slot j validate a b probe (select_slot c.semaphore a.ctx_err a.ctx_first))

-- `Compress`, with the deferred `recordOutcome`; the semaphore is given back before it returns.
unfoldable pub compress : Json → (List Bytes → Bool) → Client → Attempt → Bytes → Client × Outcome
compress j validate c a request =
    let (b, outcome) = compress_circuit j validate c a request in
    (record c { circuit = b; last_value = outcome; observed = true }, outcome)

abbrev pub is_saturated : Outcome → Bool
is_saturated saturated = true
is_saturated _ = false

abbrev pub probe_request : Bytes
probe_request =
    codes
      "{\"messages\":[{\"role\":\"user\",\"content\":\"ping\"}],\"model\":\"headroom-health-probe\"}"

-- The check of the one message that a probe gets back.
unfoldable pub single : (Bytes → Bool) → List Bytes → Bool
single shape [] = false
single shape (m ∷ []) = shape m
single shape (m ∷ n ∷ ms) = false

-- The result of `Probe` is cached; `shape` decodes the message and checks its role and content.
unfoldable pub probe : Json → (Bytes → Bool) → Client → Attempt → Client × Outcome
unfolding single
probe j shape c a =
    let (c', outcome) = compress j (single shape) c a probe_request in
    if not (c.probe_at == 0) && ltb (a.now - c.probe_at) probe_cache_duration
    then (c, c.probe_value)
    else (if is_saturated outcome
        then (c', outcome)
        else (record c' { probe_at = a.now; probe_value = outcome }, outcome))

unfoldable pub circuit_state : Client → ℕ → CircuitState
circuit_state c now = state c.circuit now

unfoldable pub last_outcome : Client → Outcome × Bool
last_outcome c = (c.last_value, c.observed)

-- The part of `newClient` that fills the struct.
unfoldable pub new_client : ℕ → Client
new_client timeout_ns = record {
  timeout_ns = timeout_ns;
  circuit = new_circuit;
  semaphore = false;
  last_value = blank;
  observed = false;
  probe_at = 0;
  probe_value = blank;
}
