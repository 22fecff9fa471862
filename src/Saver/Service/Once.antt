-- ===== src/Saver/Service/Once.antt =====
-- internal/saver/pipeline.go: the client of a generation is closed once, and only when it is idle.
use cpa_plugin_token_saver.Common.{
  Bool-cases, List, ap, arith, inl, inr, refl, some, subst, sym, true, ℕ, ◌++◌, ◌+◌, ◌<◌, ◌^◌, ◌∙◌,
  ◌∷◌, ◌≡◌, ◌≤◌, ◌⊎◌,
}
use cpa_plugin_token_saver.Headroom.Calls.{idle}
use cpa_plugin_token_saver.Metrics.Generations.{begin_request}
use cpa_plugin_token_saver.Saver.Service.{
  Service, acquire, acquire_status, enter, release, release_status_state,
}
use cpa_plugin_token_saver.Saver.Service.Lifecycle.{
  IsServed, Reach, Step, System, began, ended, held_by, here, new_service-IsServed, next,
  reconfigured, shut, start, status_began, status_ended,
}
use cpa_plugin_token_saver.Saver.Service.Managed.{flag, occurrences, occurrences_middle}
use cpa_plugin_token_saver.Saver.Service.Preserved.{
  close-IsServed, enter-IsServed, leave-IsServed, metrics-IsServed,
}
use cpa_plugin_token_saver.Saver.Service.Reconfigured.{reconfigure-IsServed}

pub acquire-IsServed :
    (sv : Service) (a : ℕ) (requests probes : List ℕ)
    → (sv.states sv.current).inflight + 1 < 2 ^ 64
    → (acquire sv).1 ≡ some a
    → IsServed sv (held_by requests probes)
    → IsServed (acquire sv).0 (held_by (a ∷ requests) probes)
unfolding acquire
acquire-IsServed sv a requests probes small h i = elim (Bool-cases sv.closed) [
  | inl over ↦ absurd (ground arith)
  | inr running ↦
      let e : sv.current ≡ a = (ground arith) in
      let entered : (acquire sv).0
          ≡ record (enter sv) { metrics = begin_request sv.metrics sv.current } =
        (rw (running, acquire) refl) in
      subst (λ x. IsServed x (held_by (a ∷ requests) probes)) (sym entered)
        (metrics-IsServed (enter sv) _ (begin_request sv.metrics sv.current) (
          enter-IsServed sv (held_by requests probes) (held_by (a ∷ requests) probes) running small
            (ground arith) (λ b ne. ground arith) i))
]

acquire_status-IsServed :
    (sv : Service) (a : ℕ) (requests probes : List ℕ)
    → (sv.states sv.current).inflight + 1 < 2 ^ 64
    → (acquire_status sv).1 ≡ some a
    → IsServed sv (held_by requests probes)
    → IsServed (acquire_status sv).0 (held_by requests (a ∷ probes))
unfolding acquire_status
acquire_status-IsServed sv a requests probes small h i = elim (Bool-cases sv.closed) [
  | inl over ↦ absurd (ground arith)
  | inr running ↦ elim (Bool-cases (sv.states sv.current).config.headroom_enabled) [
    | inr off ↦ absurd (ground arith)
    | inl on ↦
        let e : sv.current ≡ a = (ground arith) in
        let entered : (acquire_status sv).0 ≡ enter sv = (rw (running, on, acquire_status) refl) in
        subst (λ x. IsServed x (held_by requests (a ∷ probes))) (sym entered)
          (enter-IsServed sv (held_by requests probes) (held_by requests (a ∷ probes)) running small
            (ground arith) (λ b ne. ground arith) i)
  ]
]

Step-IsServed :
    {s t : System}
    → Step s t
    → IsServed s.service (held_by s.requests s.probes)
    → IsServed t.service (held_by t.requests t.probes)
unfolding release
Step-IsServed {s} (reconfigured c made small) i =
    reconfigure-IsServed s.service c made (held_by s.requests s.probes) small i
Step-IsServed {s} (began a small h) i = acquire-IsServed s.service a s.requests s.probes small h i
Step-IsServed {s} (ended a before after e) i =
    metrics-IsServed (release_status_state s.service a) _ _ (
      leave-IsServed s.service a (held_by s.requests s.probes) (held_by (before ++ after) s.probes)
        (ground (arith, occurrences_middle a a before after))
        (λ b ne. ground (arith, occurrences_middle b a before after)) i)
Step-IsServed {s} (status_began a small h) i =
    acquire_status-IsServed s.service a s.requests s.probes small h i
Step-IsServed {s} (status_ended a before after e) i =
    leave-IsServed s.service a (held_by s.requests s.probes) (held_by s.requests (before ++ after))
      (ground (arith, occurrences_middle a a before after))
      (λ b ne. ground (arith, occurrences_middle b a before after)) i
Step-IsServed {s} shut i = close-IsServed s.service (held_by s.requests s.probes) i

-- After any steps that overflow no count, each generation counts exactly the requests and status
-- reads that hold it; the generations are numbered up to the current one; all older ones are
-- retired; and the current one is retired exactly when the service is closed.
pub Reach-IsServed :
    (now : ℕ) {s : System} → Reach (start now) s → IsServed s.service (held_by s.requests s.probes)
unfolding start
Reach-IsServed now here = new_service-IsServed now
Reach-IsServed now (next r st) = Step-IsServed st (Reach-IsServed now r)

-- After any steps that overflow no count, the client of a generation was handed over to be closed
-- at most once, and not at all as long as a request or a status read holds the generation.
pub Reach-closed_once :
    {s : System} (now a : ℕ)
    → Reach (start now) s
    → (occurrences a s.service.closings ≤ 1)
      × (0 < held_by s.requests s.probes a → occurrences a s.service.closings ≡ 0)
Reach-closed_once {s} now a r =
    let c = ((Reach-IsServed now r).managed a).coherent in
    elim (Bool-cases (s.service.states a).closed) [
      | inl shut_down ↦ (ground (arith, c.once), λ h. absurd (ground (arith, c.unused, c.counted)))
      | inr in_use ↦ (ground (arith, c.once), λ h. ground (arith, c.once))
    ]

-- After any steps that overflow no count, if nothing holds a generation, and a newer one has
-- replaced it or it is the current one of a closed service, then its client, if it has a function
-- to close it, was handed over to be closed exactly once.
pub Reach-closed_idle :
    {s : System} (now a : ℕ)
    → Reach (start now) s
    → (a < s.service.current) ⊎ ((a ≡ s.service.current) × (s.service.closed ≡ true))
    → held_by s.requests s.probes a ≡ 0
    → (s.service.states a).has_close ≡ true
    → occurrences a s.service.closings ≡ 1
Reach-closed_idle {s} now a r gone idle has_close =
    let i = Reach-IsServed now r in
    let m = i.managed a in
    let retired : (s.service.states a).retired ≡ true = elim gone [
      | inl older ↦ i.numbered.replaced a (omega (arith, i.numbered.newest))
      | inr (e, over) ↦
          subst (λ a. (s.service.states a).retired ≡ true) (sym e) (i.numbered.serving ∙ over)
    ] in
    let closed = m.done retired (m.coherent.counted ∙ idle) has_close in
    m.coherent.once ∙ ap flag closed
