-- ===== src/Abi/History.antt =====
-- internal/abi/envelope.go: the lifecycle calls of a host, one after the other.
use cpa_plugin_token_saver.Common.{
  Bool-cases, List, Option, Option-cases, [], arith, inl, inr, length, refl, subst, sym, ℕ, ◌+◌,
  ◌<◌, ◌^◌, ◌∷◌, ◌≡◌, ◌≤◌, ◌⊎◌,
}
use cpa_plugin_token_saver.Config.{Config, Libraries}
use cpa_plugin_token_saver.Text.{Bytes}
use cpa_plugin_token_saver.Abi.Lifecycle.{
  IsAgreed, new_runtime-IsAgreed, reconfigure_runtime-IsAgreed, register-IsAgreed,
}
use cpa_plugin_token_saver.Abi.Runtime.{
  LifecycleRequest, Runtime, decode_lifecycle_request, install_store, new_runtime,
  reconfigure_runtime, register,
}
use cpa_plugin_token_saver.Config.Store.{StoreState, new_store}
use cpa_plugin_token_saver.Saver.Service.{Made, new_service, reconfigure}
use cpa_plugin_token_saver.Saver.Service.Lifecycle.{IsServed, new_service-IsServed}
use cpa_plugin_token_saver.Saver.Service.Reconfigured.{reconfigure-IsServed, reconfigure-next}

-- A call, with what encoding/json decodes of its request and what the factory returns.
pub data LifecycleCall : Type 0 where
  registering : Option LifecycleRequest → Made → LifecycleCall
  reconfiguring : Option LifecycleRequest → Made → LifecycleCall

module _ (l : Libraries) (digest_of : Config → Bytes) where
  unfoldable pub after_lifecycle : Runtime → LifecycleCall → Runtime
  after_lifecycle rt (registering decoded made) = (register l digest_of rt decoded made).0
  after_lifecycle rt (reconfiguring decoded made) =
      (reconfigure_runtime l digest_of rt decoded made).0

  unfoldable pub run_lifecycle : Runtime → List LifecycleCall → Runtime
  unfolding after_lifecycle
  run_lifecycle rt [] = rt
  run_lifecycle rt (c ∷ cs) = run_lifecycle (after_lifecycle rt c) cs

  -- The service after a call is the old one, or the one that `Reconfigure` left.
  abbrev Reconfigured : Runtime → Runtime → Type 0
  Reconfigured rt rt' =
      (rt'.saver ≡ rt.saver)
      ⊎ ((c : Config) × (made : Made) × (rt'.saver ≡ (reconfigure rt.saver c made).0))

  install_store-Reconfigured :
      (rt : Runtime) (s : StoreState) (made : Made)
      → Reconfigured rt (install_store l digest_of rt s made).0
  unfolding install_store
  install_store-Reconfigured rt s made = elim (Bool-cases (reconfigure rt.saver s.config made).1) [
    | inl done ↦ rw (done, install_store) (inr (s.config, made, refl))
    | inr refused ↦ rw (refused, install_store) (inr (s.config, made, refl))
  ]

  register-Reconfigured :
      (rt : Runtime) (decoded : Option LifecycleRequest) (made : Made)
      → Reconfigured rt (register l digest_of rt decoded made).0
  unfolding register
  register-Reconfigured rt decoded made = elim (Option-cases (decode_lifecycle_request decoded)) [
    | inl bad ↦ rw (bad, register) (inl refl)
    | inr (request, good) ↦
        rw (good, register)
          (install_store-Reconfigured rt (new_store l digest_of request.config_yaml).0 made)
  ]

  reconfigure_runtime-Reconfigured :
      (rt : Runtime) (decoded : Option LifecycleRequest) (made : Made)
      → Reconfigured rt (reconfigure_runtime l digest_of rt decoded made).0
  unfolding reconfigure_runtime
  reconfigure_runtime-Reconfigured rt decoded made =
      elim (Option-cases (decode_lifecycle_request decoded)) [
        | inl bad ↦ rw (bad, reconfigure_runtime) (inl refl)
        | inr (request, good) ↦ elim (Bool-cases (new_store l digest_of request.config_yaml).1) [
          | inr bad_yaml ↦ rw (good, bad_yaml, reconfigure_runtime) (inl refl)
          | inl parsed ↦
              rw (good, parsed, reconfigure_runtime)
                (install_store-Reconfigured rt (new_store l digest_of request.config_yaml).0 made)
        ]
      ]

  -- The runtime agrees with its service, which has made at most `n` generations.
  record IsCurrent (rt : Runtime) (n : ℕ) : Type 0 where
    pub agreed : IsAgreed l digest_of rt
    pub served : IsServed rt.saver (λ a. 0)
    pub few : rt.saver.next_generation ≤ n

  IsServed-Reconfigured :
      (rt rt' : Runtime) (n : ℕ)
      → n + 1 < 2 ^ 64
      → Reconfigured rt rt'
      → IsServed rt.saver (λ a. 0)
      → rt.saver.next_generation ≤ n
      → IsServed rt'.saver (λ a. 0) × (rt'.saver.next_generation ≤ n + 1)
  IsServed-Reconfigured rt rt' n small (inl same) i few =
      (subst (λ sv. IsServed sv (λ a. 0)) (sym same) i, ground arith)
  IsServed-Reconfigured rt rt' n small (inr (c, made, changed)) i few = (
    subst (λ sv. IsServed sv (λ a. 0)) (sym changed)
        (reconfigure-IsServed rt.saver c made (λ a. 0) (omega (arith, few, small)) i),
    subst (λ sv. sv.next_generation ≤ n + 1) (sym changed)
        (omega (arith, reconfigure-next rt.saver c made, few)),
  )

  after_lifecycle-IsCurrent :
      (rt : Runtime) (c : LifecycleCall) (n : ℕ)
      → n + 1 < 2 ^ 64
      → IsCurrent rt n
      → IsCurrent (after_lifecycle rt c) (n + 1)
  unfolding after_lifecycle
  after_lifecycle-IsCurrent rt (registering decoded made) n small i =
      let (served, few) =
        IsServed-Reconfigured rt (register l digest_of rt decoded made).0 n small
          (register-Reconfigured rt decoded made) i.served i.few in
      record {
        agreed =
            register-IsAgreed l digest_of rt decoded made (λ a. 0) (omega (arith, i.few, small))
              i.served.numbered i.agreed;
        served = served;
        few = few;
      }
  after_lifecycle-IsCurrent rt (reconfiguring decoded made) n small i =
      let (served, few) =
        IsServed-Reconfigured rt (reconfigure_runtime l digest_of rt decoded made).0 n small
          (reconfigure_runtime-Reconfigured rt decoded made) i.served i.few in
      record {
        agreed =
            reconfigure_runtime-IsAgreed l digest_of rt decoded made (λ a. 0)
              (omega (arith, i.few, small)) i.served.numbered i.agreed;
        served = served;
        few = few;
      }

  run_lifecycle-IsAgreed :
      (cs : List LifecycleCall) (rt : Runtime) (n : ℕ)
      → n + length cs + 1 < 2 ^ 64
      → IsCurrent rt n
      → IsAgreed l digest_of (run_lifecycle rt cs)
  unfolding run_lifecycle
  run_lifecycle-IsAgreed [] rt n small i = i.agreed
  run_lifecycle-IsAgreed (c ∷ cs) rt n small i =
      run_lifecycle-IsAgreed cs (after_lifecycle rt c) (n + 1) (omega (arith, small))
        (after_lifecycle-IsCurrent rt c n (omega (arith, small)) i)

  -- After any fewer than 2^64 - 1 lifecycle calls on a new runtime, accepted or refused, the
  -- published configuration is valid, has its own digest, and is the one that requests are served
  -- with.
  pub run_lifecycle-new_runtime-IsAgreed :
      (now : ℕ) (cs : List LifecycleCall)
      → length cs + 1 < 2 ^ 64
      → IsAgreed l digest_of (run_lifecycle (new_runtime l digest_of now) cs)
  run_lifecycle-new_runtime-IsAgreed now cs small =
      run_lifecycle-IsAgreed cs (new_runtime l digest_of now) 0 (omega (arith, small)) (record {
        agreed = new_runtime-IsAgreed l digest_of now;
        served = unfold new_runtime in new_service-IsServed now;
        few = unfold new_runtime new_service in omega arith;
      })
