-- ===== src/Saver/Served.antt =====
-- internal/saver/pipeline.go, `Normalize` as a whole: a request acquires a generation, goes through
-- the pipeline with its configuration, is counted, and releases the generation.
use cpa_plugin_token_saver.Common.{
  Bool-cases, List, ap, arith, inl, inr, none, refl, some, subst, sym, true, ℕ, ◌+◌, ◌<◌, ◌^◌, ◌∙◌,
  ◌∷◌, ◌≡◌, ◌⊎◌,
}
use cpa_plugin_token_saver.Text.{Bytes}
use cpa_plugin_token_saver.Metrics.Generations.{end_request}
use cpa_plugin_token_saver.Saver.Pipeline.{Options, accepts}
use cpa_plugin_token_saver.Saver.Recording.{record_events}
use cpa_plugin_token_saver.Saver.Service.{Service, acquire, release, release_status_state}
use cpa_plugin_token_saver.Saver.Shape.{Request, valid_provider_shape}
use cpa_plugin_token_saver.Saver.Pipeline.FailOpen.{normalize_safe}
use cpa_plugin_token_saver.Saver.Pipeline.Normalize.{Shared, normalize}
use cpa_plugin_token_saver.Saver.Service.Lifecycle.{IsServed, held_by}
use cpa_plugin_token_saver.Saver.Service.Once.{acquire-IsServed}
use cpa_plugin_token_saver.Saver.Service.Preserved.{leave-IsServed, metrics-IsServed}

-- The service afterwards, and the body; `o` has what the request's generation calls.
unfoldable pub serve : Options → Shared → Service → Request → Service × Bytes
serve o shared sv r = elim (acquire sv).1 [
  | none ↦ ((acquire sv).0, r.body)
  | some a ↦
      let acquired = (acquire sv).0 in
      let result = normalize o shared r (acquired.states a).config in
      (release (record acquired { metrics = record_events acquired.metrics result.1 }) a, result.0)
]

-- What is known of the body that a request comes out with.
abbrev pub IsDelivered : Options → Request → Bytes → Type 0
IsDelivered o r body =
    (body ≡ r.body)
    ⊎ ((valid_provider_shape o.gjson body r ≡ true) × (o.validate_final body r ≡ accepts))

acquired-IsServed :
    (o : Options) (shared : Shared) (sv : Service) (r : Request) (requests probes : List ℕ) (a : ℕ)
    → (sv.states sv.current).inflight + 1 < 2 ^ 64
    → (acquire sv).1 ≡ some a
    → IsServed sv (held_by requests probes)
    → IsServed (serve o shared sv r).0 (held_by requests probes)
      × IsDelivered o r (serve o shared sv r).1
unfolding serve release
acquired-IsServed o shared sv r requests probes a small got i =
    let acquired = (acquire sv).0 in
    let result = normalize o shared r (acquired.states a).config in
    let counted : Service = record acquired { metrics = record_events acquired.metrics result.1 } in
    let served = acquire-IsServed sv a requests probes small got i in
    let counted_served =
      metrics-IsServed acquired (held_by (a ∷ requests) probes)
        (record_events acquired.metrics result.1) served in
    rw (got, serve)
      (
        metrics-IsServed (release_status_state counted a) (held_by requests probes)
            (end_request (release_status_state counted a).metrics a)
            (leave-IsServed counted a (held_by (a ∷ requests) probes) (held_by requests probes)
              (ground arith) (λ b ne. ground arith) counted_served),
        normalize_safe o shared r (acquired.states a).config,
      )

-- A whole request, from the acquisition of a generation to its release, leaves every generation
-- counted, numbered and closed as the requests and status reads besides it account for, and comes
-- out with the original body or with one that has the provider's shape and that the final check
-- accepts; it is assumed that one more request is no overflow of the count.
pub serve-IsServed :
    (o : Options) (shared : Shared) (sv : Service) (r : Request) (requests probes : List ℕ)
    → (sv.states sv.current).inflight + 1 < 2 ^ 64
    → IsServed sv (held_by requests probes)
    → IsServed (serve o shared sv r).0 (held_by requests probes)
      × IsDelivered o r (serve o shared sv r).1
unfolding serve acquire
serve-IsServed o shared sv r requests probes small i = elim (Bool-cases sv.closed) [
  | inr running ↦ acquired-IsServed o shared sv r requests probes sv.current small (ground arith) i
  | inl over ↦
      let nothing_held : (acquire sv).1 ≡ none = (ground arith) in
      let same : (acquire sv).0 ≡ sv = (ground arith) in
      let given_back : serve o shared sv r ≡ ((acquire sv).0, r.body) =
        (rw (nothing_held, serve) refl) in
      let refused : serve o shared sv r ≡ (sv, r.body) = given_back ∙ ap (λ x. (x, r.body)) same in
      subst (λ x. IsServed x.0 (held_by requests probes) × IsDelivered o r x.1) (sym refused)
        (i, inl refl)
]
