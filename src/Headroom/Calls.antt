-- ===== src/Headroom/Calls.antt =====
-- internal/headroom/client.go: the calls of `Compress` that run at once on one client, as the
-- steps that they take between `circuit.begin`, the one-slot semaphore and `circuit.finish`.
use cpa_plugin_token_saver.Common.{
  ℕ, ◌≤◌, ◌≡◌, refl, ◌⊎◌, Bool, true, false, ◌||◌, Option, none, some, List, [], ◌∷◌, ◌++◌, arith,
}
use cpa_plugin_token_saver.Headroom.Circuit.{CircuitBreaker, new_circuit, begin, cancel, finish}
use cpa_plugin_token_saver.Headroom.Circuit.Invariant.{
  IsSound, new_circuit-IsSound, begin-IsSound, cancel-IsSound, finish-IsSound,
}

-- `waiting` has the probe flag of each call between `begin` and the semaphore, and `holder` that of
-- the call that holds the semaphore.
pub record Calls : Type 0 where
  pub circuit : CircuitBreaker
  pub waiting : List Bool
  pub holder : Option Bool

pub data Step (s : Calls) : Calls → Type 0 where
  admit :
      (now : ℕ)
      → (begin s.circuit now).2 ≡ true
      → Step s (record s {
        circuit = (begin s.circuit now).0;
        waiting = (begin s.circuit now).1 ∷ s.waiting;
      })
  acquire :
      (before after : List Bool) (probe : Bool)
      → s.waiting ≡ before ++ probe ∷ after
      → s.holder ≡ none
      → Step s (record s { waiting = before ++ after; holder = some probe })
  give_up :
      (before after : List Bool) (probe : Bool)
      → s.waiting ≡ before ++ probe ∷ after
      → Step s (record s { circuit = cancel s.circuit probe; waiting = before ++ after })
  complete :
      (now : ℕ) (probe success : Bool)
      → s.holder ≡ some probe
      → Step s (record s { circuit = finish s.circuit now probe success; holder = none })

pub data Reach (s : Calls) : Calls → Type 0 where
  here : Reach s s
  next : {t u : Calls} → Reach s t → Step t u → Reach s u

unfoldable pub idle : CircuitBreaker → Calls
idle b = record { circuit = b; waiting = []; holder = none }

abbrev pub any_probe : List Bool → Bool
any_probe [] = false
any_probe (p ∷ ps) = p || any_probe ps

-- The breaker is sound, and a probe that it has noted as in flight is one of the running calls.
pub record IsTracked (s : Calls) : Type 0 where
  pub sound : IsSound s.circuit
  pub probe_out :
      s.circuit.half_open_in_flight ≡ true → (any_probe s.waiting ≡ true) ⊎ (s.holder ≡ some true)

any_probe_middle :
    (before after : List Bool) (probe : Bool)
    → any_probe (before ++ probe ∷ after) ≡ probe || any_probe (before ++ after)
any_probe_middle [] after probe = refl
any_probe_middle (b ∷ before) after probe = ground (arith, any_probe_middle before after probe)

-- Opening the breaker never sets the flag, and each way to end a probe clears it.
flag-begin :
    (b : CircuitBreaker) (now : ℕ)
    → (begin b now).0.half_open_in_flight ≡ true
    → (b.half_open_in_flight ≡ true) ⊎ ((begin b now).1 ≡ true)
unfolding begin
flag-begin b now h = ground arith

flag-cancel :
    (b : CircuitBreaker) (probe : Bool)
    → (cancel b probe).half_open_in_flight ≡ true
    → (b.half_open_in_flight ≡ true) × (probe ≡ false)
unfolding cancel
flag-cancel b probe h = ground arith

flag-finish :
    (b : CircuitBreaker) (now : ℕ) (probe success : Bool)
    → (finish b now probe success).half_open_in_flight ≡ true
    → (b.half_open_in_flight ≡ true) × (probe ≡ false)
unfolding finish
flag-finish b now true true h = ground arith
flag-finish b now true false h = ground arith
flag-finish b now false true h = ground arith
flag-finish b now false false h = ground arith

Step-IsTracked : {s t : Calls} → Step s t → IsTracked s → IsTracked t
Step-IsTracked {s} (admit now ok) i = record {
  sound = begin-IsSound s.circuit now i.sound;
  probe_out = λ h. ground (arith, flag-begin s.circuit now h, i.probe_out);
}
Step-IsTracked {s} (acquire before after probe e free) i = record {
  sound = i.sound;
  probe_out = λ h. ground (arith, i.probe_out h, any_probe_middle before after probe);
}
Step-IsTracked {s} (give_up before after probe e) i = record {
  sound = cancel-IsSound s.circuit probe i.sound;
  probe_out = λ h.
      ground
        (arith, flag-cancel s.circuit probe h, i.probe_out, any_probe_middle before after probe);
}
Step-IsTracked {s} (complete now probe success e) i = record {
  sound = finish-IsSound s.circuit now probe success i.sound;
  probe_out = λ h. ground (arith, flag-finish s.circuit now probe success h, i.probe_out);
}

-- Whatever calls run at once and however their steps interleave, the breaker stays sound, and it
-- never has a probe noted as in flight that is not one of the running calls.
pub Reach-IsTracked : {s : Calls} → Reach (idle new_circuit) s → IsTracked s
unfolding idle new_circuit
Reach-IsTracked here = record {
  sound = unfold new_circuit in new_circuit-IsSound;
  probe_out = λ h. cc;
}
Reach-IsTracked (next r st) = Step-IsTracked st (Reach-IsTracked r)

-- Once every call has returned, the next call is admitted unless the breaker is still open: no
-- probe is left over that would refuse it.
pub Reach-quiet :
    {s : Calls} (now : ℕ)
    → Reach (idle new_circuit) s
    → s.waiting ≡ []
    → s.holder ≡ none
    → s.circuit.open_until ≤ now
    → (begin s.circuit now).2 ≡ true
unfolding begin
Reach-quiet {s} now r w h late = ground (arith, (Reach-IsTracked r).probe_out)
