-- ===== src/Abi/Runtime.antt =====
-- internal/abi/envelope.go: the lifecycle calls, and the shutdown that waits for the running ones.
-- What encoding/json decodes of a request is an argument.
use cpa_plugin_token_saver.Common.{
  Bool, Option, [], false, if◌then◌else◌, ltb, none, not, some, true, ℕ, ◌+◌, ◌-◌,
}
use cpa_plugin_token_saver.Config.{Config, Libraries}
use cpa_plugin_token_saver.Text.{Bytes}
use cpa_plugin_token_saver.Config.Store.{StoreState, new_store}
use cpa_plugin_token_saver.Saver.Service.{Made, Service, close, new_service, reconfigure}

abbrev pub max_lifecycle_request_schema_version : ℕ
max_lifecycle_request_schema_version = 6

pub record LifecycleRequest : Type 0 where
  pub config_yaml : Bytes
  pub schema_version : ℕ

pub record Runtime : Type 0 where
  pub active : ℕ
  pub stopped : Bool
  pub configs : StoreState
  pub saver : Service

pub data Reply : Type 0 where
  success invalid_request invalid_config plugin_shutdown : Reply

unfoldable pub decode_lifecycle_request : Option LifecycleRequest → Option LifecycleRequest
decode_lifecycle_request none = none
decode_lifecycle_request (some r) =
    if ltb max_lifecycle_request_schema_version r.schema_version then none else some r

unfoldable pub acquire_call : Runtime → Runtime × Bool
acquire_call rt = if rt.stopped then (rt, false) else (record rt { active = rt.active + 1 }, true)

unfoldable pub release_call : Runtime → Runtime
release_call rt = record rt { active = rt.active - 1 }

-- `Shutdown` up to its wait, and from its end on.
unfoldable pub stop : Runtime → Runtime
stop rt = record rt { stopped = true }

unfoldable pub finish_shutdown : Runtime → Runtime
finish_shutdown rt = record rt { saver = close rt.saver }

module _ (l : Libraries) (digest_of : Config → Bytes) where
  unfoldable pub new_runtime : ℕ → Runtime
  new_runtime now = record {
    active = 0;
    stopped = false;
    configs = (new_store l digest_of []).0;
    saver = new_service now;
  }

  -- What `register` and `reconfigure` do with a store that they accept.
  unfoldable pub install_store : Runtime → StoreState → Made → Runtime × Reply
  install_store rt store made =
      let configured = reconfigure rt.saver store.config made in
      if configured.1
      then (record rt { saver = configured.0; configs = store }, success)
      else (record rt { saver = configured.0 }, invalid_config)

  unfoldable pub register : Runtime → Option LifecycleRequest → Made → Runtime × Reply
  unfolding install_store
  register rt decoded made = elim (decode_lifecycle_request decoded) [
    | none ↦ (rt, invalid_request)
    | some request ↦ install_store rt (new_store l digest_of request.config_yaml).0 made
  ]

  unfoldable pub reconfigure_runtime : Runtime → Option LifecycleRequest → Made → Runtime × Reply
  unfolding install_store
  reconfigure_runtime rt decoded made = elim (decode_lifecycle_request decoded) [
    | none ↦ (rt, invalid_request)
    | some request ↦
        if not (new_store l digest_of request.config_yaml).1
        then (rt, invalid_config)
        else install_store rt (new_store l digest_of request.config_yaml).0 made
  ]
