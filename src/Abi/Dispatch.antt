-- ===== src/Abi/Dispatch.antt =====
-- internal/abi/envelope.go: `Call`, and the dispatch of a call by its method.
use cpa_plugin_token_saver.Common.{
  Bool, Bool-cases, Option, Option-cases, ap, arith, false, if◌then◌else◌, inl, inr, none, not,
  refl, some, subst, sym, true, ℕ, ◌+◌, ◌-◌, ◌<◌, ◌^◌, ◌∙◌, ◌≡◌,
}
use cpa_plugin_token_saver.Config.{Config, Libraries}
use cpa_plugin_token_saver.Text.{Bytes, bytes_eq, codes}
use cpa_plugin_token_saver.Abi.Lifecycle.{IsAgreed, reconfigure_runtime-IsAgreed, register-IsAgreed}
use cpa_plugin_token_saver.Abi.Runtime.{
  LifecycleRequest, Reply, Runtime, acquire_call, invalid_config, invalid_request, plugin_shutdown,
  reconfigure_runtime, register, release_call, success,
}
use cpa_plugin_token_saver.Saver.Pipeline.{Options}
use cpa_plugin_token_saver.Saver.Recording.{record_events}
use cpa_plugin_token_saver.Saver.Served.{serve}
use cpa_plugin_token_saver.Saver.Service.{
  Made, Service, acquire, enter, release, release_status_state, set_state, settle,
}
use cpa_plugin_token_saver.Saver.Shape.{Request}
use cpa_plugin_token_saver.Saver.Pipeline.Normalize.{Shared, normalize}
use cpa_plugin_token_saver.Saver.Service.Lifecycle.{IsNumbered}
use cpa_plugin_token_saver.Saver.Service.Managed.{set_state-elim, set_state_self}
use cpa_plugin_token_saver.Saver.Service.Reconfigured.{serving_config, settle-config}

pub data Code : Type 0 where
  code_plugin_shutdown code_internal_error code_invalid_request code_invalid_config : Code
  code_unsupported_method code_unknown_method : Code

pub data Envelope : Type 0 where
  failure : Code → Envelope
  registered : Envelope
  normalized : Bytes → Envelope
  management_registered : Envelope
  management_handled : Bytes → Envelope

-- What a call uses besides the runtime: the decoded requests, what the factory and the result cache
-- come to, and the answer of the management handler, which is none when it panics.
pub record Surroundings : Type 1 where
  pub lifecycle : Bytes → Option LifecycleRequest
  pub normalize_request : Bytes → Option Request
  pub management_request : Bytes → Bool
  pub made : Made
  pub shared : Shared
  pub options : Options
  pub handled : Option Bytes

abbrev pub reply_envelope : Reply → Envelope
reply_envelope success = registered
reply_envelope invalid_request = failure code_invalid_request
reply_envelope invalid_config = failure code_invalid_config
reply_envelope plugin_shutdown = failure code_plugin_shutdown

unfoldable pub handle_normalize : Surroundings → Runtime → Option Request → Runtime × Envelope
handle_normalize s rt none = (rt, failure code_invalid_request)
handle_normalize s rt (some r) =
    let served = serve s.options s.shared rt.saver r in
    (record rt { saver = served.0 }, normalized served.1)

unfoldable pub handle_management : Surroundings → Bool → Envelope
handle_management s false = failure code_invalid_request
handle_management s true = elim s.handled [
  | none ↦ failure code_internal_error
  | some raw ↦ management_handled raw
]

module _ (l : Libraries) (digest_of : Config → Bytes) where
  unfoldable pub dispatch : Surroundings → Runtime → Bytes → Bytes → Runtime × Envelope
  unfolding handle_normalize handle_management
  dispatch s rt method request =
      if bytes_eq method (codes "plugin.register")
      then (
        (register l digest_of rt (s.lifecycle request) s.made).0,
        reply_envelope (register l digest_of rt (s.lifecycle request) s.made).1,
      )
      else (if bytes_eq method (codes "plugin.reconfigure")
          then (
            (reconfigure_runtime l digest_of rt (s.lifecycle request) s.made).0,
            reply_envelope (reconfigure_runtime l digest_of rt (s.lifecycle request) s.made).1,
          )
          else (if bytes_eq method (codes "request.normalize")
              then handle_normalize s rt (s.normalize_request request)
              else (if bytes_eq method (codes "management.register")
                  then (rt, management_registered)
                  else (if bytes_eq method (codes "management.handle")
                      then (rt, handle_management s (s.management_request request))
                      else (if bytes_eq method (codes "plugin.shutdown")
                          then (rt, failure code_unsupported_method)
                          else (rt, failure code_unknown_method))))))

  unfoldable pub call : Surroundings → Runtime → Bytes → Bytes → Runtime × Envelope
  unfolding dispatch
  call s rt method request =
      if not (acquire_call rt).1 then (rt, failure code_plugin_shutdown) else (
        release_call (dispatch s (acquire_call rt).0 method request).0,
        (dispatch s (acquire_call rt).0 method request).1,
      )

enter-config : (sv : Service) → serving_config (enter sv) ≡ serving_config sv
unfolding enter
enter-config sv = ap (λ s. s.config) (set_state_self sv.states sv.current _)

acquire-config : (sv : Service) → serving_config (acquire sv).0 ≡ serving_config sv
unfolding acquire
acquire-config sv = ground (arith, enter-config sv)

release-config :
    (sv : Service) (a : ℕ) → serving_config (release_status_state sv a) ≡ serving_config sv
unfolding release_status_state settle
release-config sv a =
    let s = record (sv.states a) { inflight = (sv.states a).inflight - 1 } in
    settle-config (record sv { states = set_state sv.states a s }) a sv.current
    ∙ set_state-elim (λ b x. x.config ≡ (sv.states b).config) sv.states a s refl (λ b ne. refl)
        sv.current

serve-config :
    (o : Options) (shared : Shared) (sv : Service) (r : Request)
    → serving_config (serve o shared sv r).0 ≡ serving_config sv
unfolding serve release
serve-config o shared sv r = elim (Option-cases (acquire sv).1) [
  | inl nothing ↦ rw (nothing, serve) (acquire-config sv)
  | inr (a, got) ↦
      rw (got, serve)
        (release-config
            (record (acquire sv).0 {
              metrics =
                  record_events (acquire sv).0.metrics
                    (normalize o shared r ((acquire sv).0.states a).config).1;
            })
            a
          ∙ acquire-config sv)
]

module _ (l : Libraries) (digest_of : Config → Bytes) where
  normalize-IsAgreed :
      (s : Surroundings) (rt : Runtime) (r : Option Request)
      → IsAgreed l digest_of rt
      → IsAgreed l digest_of (handle_normalize s rt r).0
  unfolding handle_normalize
  normalize-IsAgreed s rt none i = i
  normalize-IsAgreed s rt (some r) i = record {
    agreed = serve-config s.options s.shared rt.saver r ∙ i.agreed;
    published = i.published;
  }

  dispatch-IsAgreed :
      (s : Surroundings) (rt : Runtime) (method request : Bytes) (held : ℕ → ℕ)
      → rt.saver.next_generation + 1 < 2 ^ 64
      → IsNumbered rt.saver held
      → IsAgreed l digest_of rt
      → IsAgreed l digest_of (dispatch l digest_of s rt method request).0
  unfolding dispatch
  dispatch-IsAgreed s rt method request held small n i =
      elim (Bool-cases (bytes_eq method (codes "plugin.register"))) [
        | inl m ↦
            rw (m, dispatch)
              (register-IsAgreed l digest_of rt (s.lifecycle request) s.made held small n i)
        | inr not_register ↦ elim (Bool-cases (bytes_eq method (codes "plugin.reconfigure"))) [
          | inl m ↦
              rw (not_register, m, dispatch)
                (reconfigure_runtime-IsAgreed l digest_of rt (s.lifecycle request) s.made held small
                  n i)
          | inr not_reconfigure ↦ elim (Bool-cases (bytes_eq method (codes "request.normalize"))) [
            | inl m ↦
                rw (not_register, not_reconfigure, m, dispatch)
                  (normalize-IsAgreed s rt (s.normalize_request request) i)
            | inr others ↦
                let same : (dispatch l digest_of s rt method request).0 ≡ rt = (ground arith) in
                subst (IsAgreed l digest_of) (sym same) i
          ]
        ]
      ]

  -- An RPC call, whatever its method and payload, keeps the published configuration valid, with its
  -- own digest, and equal to the one that requests are served with, and is refused without any
  -- change once the runtime is stopped; it is assumed that the service's generations are numbered,
  -- with a number left.
  pub call-IsAgreed :
      (s : Surroundings) (rt : Runtime) (method request : Bytes) (held : ℕ → ℕ)
      → rt.saver.next_generation + 1 < 2 ^ 64
      → IsNumbered rt.saver held
      → IsAgreed l digest_of rt
      → IsAgreed l digest_of (call l digest_of s rt method request).0
        × (rt.stopped ≡ true
            → call l digest_of s rt method request ≡ (rt, failure code_plugin_shutdown))
  unfolding call acquire_call release_call
  call-IsAgreed s rt method request held small n i = elim (Bool-cases rt.stopped) [
    | inl over ↦
        let refused : call l digest_of s rt method request ≡ (rt, failure code_plugin_shutdown) =
          (ground arith) in
        (subst (λ x. IsAgreed l digest_of x.0) (sym refused) i, λ h. refused)
    | inr running ↦
        let begun_rt : Runtime = record rt { active = rt.active + 1 } in
        let began : (acquire_call rt).0 ≡ begun_rt = (ground arith) in
        let admitted : (acquire_call rt).1 ≡ true = (ground arith) in
        let inner =
          dispatch-IsAgreed s begun_rt method request held small n
            (record { agreed = i.agreed; published = i.published }) in
        let done : (call l digest_of s rt method request).0
            ≡ release_call (dispatch l digest_of s (acquire_call rt).0 method request).0 =
          (rw (admitted, call) refl) in
        (
          subst (IsAgreed l digest_of)
              (sym
                (done ∙ ap (λ x. release_call (dispatch l digest_of s x method request).0) began))
              (record { agreed = inner.agreed; published = inner.published }),
          λ h. absurd (ground arith),
        )
  ]
