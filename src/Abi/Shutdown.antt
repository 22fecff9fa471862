-- ===== src/Abi/Shutdown.antt =====
-- internal/abi/envelope.go: calls that run at once, and the shutdown.
use cpa_plugin_token_saver.Common.{Bool, arith, false, refl, sym, true, ℕ, ◌+◌, ◌∙◌, ◌≡◌}
use cpa_plugin_token_saver.Abi.Runtime.{Runtime, acquire_call, finish_shutdown, release_call, stop}
use cpa_plugin_token_saver.Headroom.Calls.{idle}
use cpa_plugin_token_saver.Saver.Service.{close, settle}

-- `running` calls are between `acquire` and `release`; `returned` tells that `Shutdown` came to an
-- end.
pub record Calls : Type 0 where
  pub runtime : Runtime
  pub running : ℕ
  pub returned : Bool

pub data CallStep (s : Calls) : Calls → Type 0 where
  call_began :
      (acquire_call s.runtime).1 ≡ true
      → CallStep s (record s { runtime = (acquire_call s.runtime).0; running = s.running + 1 })
  call_ended :
      (n : ℕ)
      → s.running ≡ n + 1
      → CallStep s (record s { runtime = release_call s.runtime; running = n })
  shutdown_began : CallStep s (record s { runtime = stop s.runtime })
  shutdown_ended :
      s.runtime.stopped ≡ true
      → s.runtime.active ≡ 0
      → CallStep s (record s { runtime = finish_shutdown s.runtime; returned = true })

pub data CallReach (s : Calls) : Calls → Type 0 where
  no_step : CallReach s s
  one_step : {t u : Calls} → CallReach s t → CallStep t u → CallReach s u

unfoldable pub begun : Runtime → Calls
begun rt = record { runtime = rt; running = 0; returned = false }

pub record IsDrained (s : Calls) : Type 0 where
  pub counted : s.runtime.active ≡ s.running
  pub drained :
      s.returned ≡ true
      → (s.running ≡ 0) × (s.runtime.stopped ≡ true) × (s.runtime.saver.closed ≡ true)

CallStep-IsDrained : {s t : Calls} → CallStep s t → IsDrained s → IsDrained t
unfolding acquire_call release_call stop finish_shutdown close settle
CallStep-IsDrained {s} (call_began ok_call) i = record {
  counted = ground (arith, i.counted);
  drained = λ h. absurd (ground (arith, i.drained h));
}
CallStep-IsDrained {s} (call_ended n e) i = record {
  counted = omega (arith, i.counted);
  drained = λ h. absurd (ground (arith, i.drained h));
}
CallStep-IsDrained {s} shutdown_began i = record {
  counted = i.counted;
  drained = λ h. ((i.drained h).0, refl, (i.drained h).2);
}
CallStep-IsDrained {s} (shutdown_ended stopped idle) i = record {
  counted = i.counted;
  drained = λ h. (sym i.counted ∙ idle, stopped, refl);
}

CallReach-IsDrained :
    (rt : Runtime) {s : Calls} → rt.active ≡ 0 → CallReach (begun rt) s → IsDrained s
unfolding begun
CallReach-IsDrained rt fresh no_step = record { counted = fresh; drained = λ h. cc }
CallReach-IsDrained rt fresh (one_step r st) =
    CallStep-IsDrained st (CallReach-IsDrained rt fresh r)

-- If calls begin on a runtime without active ones, then once `Shutdown` has returned, no call is
-- running, no call can begin, and the service is closed.
pub shutdown_drains :
    (rt : Runtime) {s : Calls}
    → rt.active ≡ 0
    → CallReach (begun rt) s
    → s.returned ≡ true
    → (s.running ≡ 0) × ((acquire_call s.runtime).1 ≡ false) × (s.runtime.saver.closed ≡ true)
unfolding acquire_call
shutdown_drains rt {s} fresh r over =
    let (idle, stopped, shut_down) = (CallReach-IsDrained rt fresh r).drained over in
    (idle, ground arith, shut_down)
