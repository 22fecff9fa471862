-- ===== src/Abi/Lifecycle.antt =====
-- internal/abi/envelope.go: the published configuration is the one that is served, and a shutdown
-- closes the service after the last call.
use cpa_plugin_token_saver.Common.{
  Bool-cases, Option, Option-cases, [], arith, inl, inr, refl, ℕ, ◌+◌, ◌<◌, ◌^◌, ◌≡◌,
}
use cpa_plugin_token_saver.Config.{Config, Libraries, defaults}
use cpa_plugin_token_saver.Text.{Bytes, is_blank}
use cpa_plugin_token_saver.Abi.Runtime.{
  LifecycleRequest, Runtime, decode_lifecycle_request, install_store, new_runtime,
  reconfigure_runtime, register,
}
use cpa_plugin_token_saver.Config.Store.{IsPublished, StoreState, new_store, new_store-IsPublished}
use cpa_plugin_token_saver.Saver.Service.{Made, new_service, reconfigure}
use cpa_plugin_token_saver.Saver.Service.Lifecycle.{IsNumbered}
use cpa_plugin_token_saver.Saver.Service.Reconfigured.{reconfigure-Serves, serving_config}

module _ (l : Libraries) (digest_of : Config → Bytes) where
  -- The configuration that is published is the one that requests are served with.
  pub record IsAgreed (rt : Runtime) : Type 0 where
    pub agreed : serving_config rt.saver ≡ rt.configs.config
    pub published : IsPublished l digest_of rt.configs

  pub new_runtime-IsAgreed : (now : ℕ) → IsAgreed (new_runtime l digest_of now)
  unfolding new_runtime new_service new_store defaults is_blank
  new_runtime-IsAgreed now = record {
    agreed = refl;
    published = new_store-IsPublished l digest_of [];
  }

  install_store-IsAgreed :
      (rt : Runtime) (s : StoreState) (made : Made) (held : ℕ → ℕ)
      → rt.saver.next_generation + 1 < 2 ^ 64
      → IsNumbered rt.saver held
      → IsPublished l digest_of s
      → IsAgreed rt
      → IsAgreed (install_store l digest_of rt s made).0
  unfolding install_store
  install_store-IsAgreed rt s made held small i p a =
      let serves = reconfigure-Serves rt.saver s.config made held small i in
      elim (Bool-cases (reconfigure rt.saver s.config made).1) [
        | inl done ↦ rw (done, install_store) (record { agreed = ground arith; published = p })
        | inr refused ↦
            rw (refused, install_store)
              (record { agreed = ground (arith, a.agreed); published = a.published })
      ]

  -- A `plugin.register` call, accepted or refused, keeps the published configuration valid, with
  -- its own digest, and equal to the one that requests are served with; it is assumed that the
  -- service's generations are numbered, with a number left.
  pub register-IsAgreed :
      (rt : Runtime) (decoded : Option LifecycleRequest) (made : Made) (held : ℕ → ℕ)
      → rt.saver.next_generation + 1 < 2 ^ 64
      → IsNumbered rt.saver held
      → IsAgreed rt
      → IsAgreed (register l digest_of rt decoded made).0
  unfolding register
  register-IsAgreed rt decoded made held small i a =
      elim (Option-cases (decode_lifecycle_request decoded)) [
        | inl bad ↦ rw (bad, register) a
        | inr (request, good) ↦
            rw (good, register)
              (install_store-IsAgreed rt (new_store l digest_of request.config_yaml).0 made held
                small i (new_store-IsPublished l digest_of request.config_yaml) a)
      ]

  -- A `plugin.reconfigure` call, accepted or refused, keeps the published configuration valid, with
  -- its own digest, and equal to the one that requests are served with; it is assumed that the
  -- service's generations are numbered, with a number left.
  pub reconfigure_runtime-IsAgreed :
      (rt : Runtime) (decoded : Option LifecycleRequest) (made : Made) (held : ℕ → ℕ)
      → rt.saver.next_generation + 1 < 2 ^ 64
      → IsNumbered rt.saver held
      → IsAgreed rt
      → IsAgreed (reconfigure_runtime l digest_of rt decoded made).0
  unfolding reconfigure_runtime
  reconfigure_runtime-IsAgreed rt decoded made held small i a =
      elim (Option-cases (decode_lifecycle_request decoded)) [
        | inl bad ↦ rw (bad, reconfigure_runtime) a
        | inr (request, good) ↦ elim (Bool-cases (new_store l digest_of request.config_yaml).1) [
          | inr broken_yaml ↦ rw (good, broken_yaml, reconfigure_runtime) a
          | inl parsed ↦
              rw (good, parsed, reconfigure_runtime)
                (install_store-IsAgreed rt (new_store l digest_of request.config_yaml).0 made held
                  small i (new_store-IsPublished l digest_of request.config_yaml) a)
        ]
      ]
