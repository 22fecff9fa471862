-- ===== src/Tests/Generations.antt =====
-- internal/saver/pipeline.go: the generations at concrete inputs.
use cpa_plugin_token_saver.Common.{[], arith, inr, refl, sym, true, ◌+◌, ◌<◌, ◌^◌, ◌≡◌, ◌≤◌}
use cpa_plugin_token_saver.Config.{Config, defaults}
use cpa_plugin_token_saver.Saver.Served.{IsDelivered, serve, serve-IsServed}
use cpa_plugin_token_saver.Saver.Service.{
  Service, closable_locked, close, install, new_service, reconfigure, runner_made, set_state,
  settle,
}
use cpa_plugin_token_saver.Tests.Requests.{sample_options, sample_request}
use cpa_plugin_token_saver.Saver.Pipeline.Normalize.{own_work}
use cpa_plugin_token_saver.Saver.Service.Lifecycle.{
  IsServed, Reach, System, held_by, here, next, reconfigured, shut, start,
}
use cpa_plugin_token_saver.Saver.Service.Managed.{occurrences}
use cpa_plugin_token_saver.Saver.Service.Once.{Reach-IsServed, Reach-closed_idle, Reach-closed_once}

abbrev enabled_config : Config
enabled_config = record defaults { headroom_enabled = true }

abbrev configured : System → System
configured s = record s { service = (reconfigure s.service enabled_config (runner_made true)).0 }

abbrev closed_system : System → System
closed_system s = record s { service = close s.service }

one_generation : (start 0).service.next_generation + 1 < 2 ^ 64
unfolding start new_service
one_generation = omega arith

abbrev after_close : System
after_close = closed_system (configured (start 0))

after_close-Reach : Reach (start 0) after_close
after_close-Reach =
    next (next here (reconfigured enabled_config (runner_made true) one_generation)) shut

Reach-IsServed_example :
    IsServed after_close.service (held_by after_close.requests after_close.probes)
Reach-IsServed_example = Reach-IsServed 0 after_close-Reach

Reach-closed_once_example :
    (occurrences 1 after_close.service.closings ≤ 1)
    × (0 < held_by after_close.requests after_close.probes 1
        → occurrences 1 after_close.service.closings ≡ 0)
Reach-closed_once_example = Reach-closed_once 0 1 after_close-Reach

current_is_one : after_close.service.current ≡ 1
unfolding start new_service reconfigure install settle close
current_is_one = refl

service_closed : after_close.service.closed ≡ true
unfolding close settle
service_closed = refl

nothing_held : held_by after_close.requests after_close.probes 1 ≡ 0
unfolding start
nothing_held = refl

one_has_close : (after_close.service.states 1).has_close ≡ true
unfolding start new_service reconfigure install settle close set_state closable_locked
one_has_close = refl

Reach-closed_idle_example : occurrences 1 after_close.service.closings ≡ 1
Reach-closed_idle_example =
    Reach-closed_idle 0 1 after_close-Reach (inr (sym current_is_one, service_closed)) nothing_held
      one_has_close

abbrev serving : Service
serving = (configured (start 0)).service

serving-IsServed : IsServed serving (held_by [] [])
unfolding start
serving-IsServed =
    Reach-IsServed 0 (next here (reconfigured enabled_config (runner_made true) one_generation))

serving_idle : (serving.states serving.current).inflight + 1 < 2 ^ 64
unfolding start new_service reconfigure install settle set_state closable_locked
serving_idle = omega arith

serve-IsServed_example :
    IsServed (serve sample_options own_work serving sample_request).0 (held_by [] [])
    × IsDelivered sample_options sample_request
        (serve sample_options own_work serving sample_request).1
serve-IsServed_example =
    serve-IsServed sample_options own_work serving sample_request [] [] serving_idle
      serving-IsServed
