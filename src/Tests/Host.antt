-- ===== src/Tests/Host.antt =====
-- internal/abi at concrete inputs.
use cpa_plugin_token_saver.Common.{
  List, Option, [], arith, false, none, refl, some, true, ◌+◌, ◌<◌, ◌^◌, ◌∷◌, ◌≡◌,
}
use cpa_plugin_token_saver.Text.{codes}
use cpa_plugin_token_saver.Abi.Buffer.{
  Call, allocating, buffers_freed_once, freed, freeing, handed_out, live, new_buffer_pool,
  run_calls, total,
}
use cpa_plugin_token_saver.Abi.Dispatch.{
  Surroundings, call, call-IsAgreed, code_plugin_shutdown, failure,
}
use cpa_plugin_token_saver.Abi.History.{
  LifecycleCall, reconfiguring, registering, run_lifecycle, run_lifecycle-new_runtime-IsAgreed,
}
use cpa_plugin_token_saver.Abi.Lifecycle.{IsAgreed, new_runtime-IsAgreed}
use cpa_plugin_token_saver.Abi.Runtime.{
  LifecycleRequest, Runtime, acquire_call, finish_shutdown, new_runtime, stop,
}
use cpa_plugin_token_saver.Abi.Shutdown.{
  CallReach, Calls, begun, no_step, one_step, shutdown_began, shutdown_drains, shutdown_ended,
}
use cpa_plugin_token_saver.Saver.Service.{factory_failed, new_service, runner_made}
use cpa_plugin_token_saver.Tests.Requests.{sample_options, sample_request}
use cpa_plugin_token_saver.Tests.Settings.{sample_digest, sample_libraries}
use cpa_plugin_token_saver.Saver.Pipeline.Normalize.{own_work}
use cpa_plugin_token_saver.Saver.Service.Lifecycle.{IsNumbered, new_service-IsServed}

abbrev rt : Runtime
rt = new_runtime sample_libraries sample_digest 0

abbrev lifecycle : Option LifecycleRequest
lifecycle = some (record { config_yaml = codes "x"; schema_version = 3 })

abbrev lifecycle_calls : List LifecycleCall
lifecycle_calls =
    registering lifecycle factory_failed
    ∷ reconfiguring none factory_failed
    ∷ reconfiguring lifecycle (runner_made true)
    ∷ []

run_lifecycle-new_runtime-IsAgreed_example :
    IsAgreed sample_libraries sample_digest
      (run_lifecycle sample_libraries sample_digest rt lifecycle_calls)
run_lifecycle-new_runtime-IsAgreed_example =
    run_lifecycle-new_runtime-IsAgreed sample_libraries sample_digest 0 lifecycle_calls
      (omega arith)

abbrev shut_calls : Calls
shut_calls = record (begun rt) { runtime = finish_shutdown (stop rt); returned = true }

idle_runtime : rt.active ≡ 0
unfolding new_runtime
idle_runtime = refl

shut_calls-Reach : CallReach (begun rt) shut_calls
unfolding begun stop finish_shutdown new_runtime
shut_calls-Reach = one_step (one_step no_step shutdown_began) (shutdown_ended refl refl)

shutdown_drains_example :
    (shut_calls.running ≡ 0)
    × ((acquire_call shut_calls.runtime).1 ≡ false)
    × (shut_calls.runtime.saver.closed ≡ true)
shutdown_drains_example = shutdown_drains rt idle_runtime shut_calls-Reach refl

abbrev host_calls : List Call
host_calls =
    allocating (codes "out") (some 4096)
    ∷ freeing 4096 3 true
    ∷ freeing 4096 3 true
    ∷ allocating (codes "more") (some 4096)
    ∷ []

buffers_freed_once_example :
    total (freed 4096) new_buffer_pool host_calls + live 4096 (run_calls new_buffer_pool host_calls)
    ≡ total (handed_out 4096) new_buffer_pool host_calls
buffers_freed_once_example = buffers_freed_once 4096 host_calls

abbrev sample_surroundings : Surroundings
sample_surroundings = record {
  lifecycle = λ raw. lifecycle;
  normalize_request = λ raw. some sample_request;
  management_request = λ raw. true;
  made = factory_failed;
  shared = own_work;
  options = sample_options;
  handled = none;
}

rt-IsNumbered : IsNumbered rt.saver (λ a. 0)
unfolding new_runtime
rt-IsNumbered = (new_service-IsServed 0).numbered

first_number : rt.saver.next_generation + 1 < 2 ^ 64
unfolding new_runtime new_service
first_number = omega arith

call-IsAgreed_example :
    IsAgreed sample_libraries sample_digest
      (call sample_libraries sample_digest sample_surroundings rt (codes "request.normalize") []).0
    × (rt.stopped ≡ true
        → call sample_libraries sample_digest sample_surroundings rt (codes "request.normalize") []
          ≡ (rt, failure code_plugin_shutdown))
call-IsAgreed_example =
    call-IsAgreed sample_libraries sample_digest sample_surroundings rt (codes "request.normalize")
      [] (λ a. 0) first_number rt-IsNumbered (new_runtime-IsAgreed sample_libraries sample_digest 0)
