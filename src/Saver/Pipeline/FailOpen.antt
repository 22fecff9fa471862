-- ===== src/Saver/Pipeline/FailOpen.antt =====
-- internal/saver/pipeline.go: `Normalize` gives back the original body, or one that passed the
-- checks.
use cpa_plugin_token_saver.Common.{
  Bool, Bool-cases, Option-cases, ap, arith, false, inl, inr, leb, length, refl, some, true, ◌&&◌,
  ◌∙◌, ◌≡◌, ◌⊎◌,
}
use cpa_plugin_token_saver.Config.{Config}
use cpa_plugin_token_saver.Metrics.{Stage, caveman, ponytail, rtk}
use cpa_plugin_token_saver.Text.{Bytes}
use cpa_plugin_token_saver.Saver.Dedupe.{dedupe_max_item_bytes}
use cpa_plugin_token_saver.Saver.Pipeline.{
  Options, RunnerAnswer, accepts, judge_answer, run_headroom_stage, run_local_stage,
  runner_panicked, stage_failed, stage_panicked,
}
use cpa_plugin_token_saver.Saver.Shape.{Request, valid_provider_shape}
use cpa_plugin_token_saver.Saver.Pipeline.Normalize.{
  Shared, conclude, first_stages, is_bypassed, last_stages, none_enabled, normalize, own_work,
  process,
}
use cpa_plugin_token_saver.Saver.Pipeline.Stages.{Verdict-cases}

conclude_safe :
    (o : Options) (original working : Bytes) (r : Request)
    → ((conclude o original working r).0 ≡ original)
      ⊎ ((valid_provider_shape o.gjson (conclude o original working r).0 r ≡ true)
          × (o.validate_final (conclude o original working r).0 r ≡ accepts))
unfolding conclude
conclude_safe o original working r = elim (Bool-cases (valid_provider_shape o.gjson working r)) [
  | inr bad ↦ rw (bad, conclude) (inl refl)
  | inl good ↦ elim (Verdict-cases (o.validate_final working r)) [
    | inl yes_final ↦ rw (good, yes_final, conclude) (inr (good, yes_final))
    | inr (inl refused) ↦ rw (good, refused, conclude) (inl refl)
    | inr (inr crashed) ↦ rw (good, crashed, conclude) (inl refl)
  ]
]

-- Whatever the stages, the runner and the result cache come to, `Normalize` gives back the original
-- body, or a body that has the provider's shape and that the final check accepts.
pub normalize_safe :
    (o : Options) (shared : Shared) (r : Request) (c : Config)
    → ((normalize o shared r c).0 ≡ r.body)
      ⊎ ((valid_provider_shape o.gjson (normalize o shared r c).0 r ≡ true)
          × (o.validate_final (normalize o shared r c).0 r ≡ accepts))
unfolding normalize process
normalize_safe o shared r c = elim (Bool-cases (none_enabled c)) [
  | inl off ↦ rw (off, normalize) (inl refl)
  | inr on ↦ elim (Bool-cases (is_bypassed o r c)) [
    | inl bypass ↦ rw (on, bypass, normalize) (inl refl)
    | inr through ↦ rw (on, through, normalize) (conclude_safe o r.body _ r)
  ]
]

-- The stage functions and the runner fail or panic.
abbrev pub AllFail : Options → Type 0
AllFail o =
    ((stage : Stage) (b : Bytes) (r : Request) (c : Config)
      → (o.apply stage b r c ≡ stage_failed) ⊎ (o.apply stage b r c ≡ stage_panicked))
    × ((run : Bytes → Request → RunnerAnswer) (b : Bytes) (r : Request)
        → o.runner ≡ some run
        → run b r ≡ runner_panicked)

failed_stage :
    (o : Options) (stage : Stage) (enabled : Bool) (saved : Bytes) (r : Request) (c : Config)
    → AllFail o
    → (run_local_stage o stage enabled saved r c).0 ≡ saved
unfolding run_local_stage
failed_stage o stage false saved r c h = refl
failed_stage o stage true saved r c (fails_all, _) = elim (fails_all stage saved r c) [
  | inl e ↦ rw (e, run_local_stage) refl
  | inr e ↦ rw (e, run_local_stage) refl
]

failed_runner :
    (o : Options) (saved : Bytes) (r : Request) (c : Config)
    → AllFail o
    → (run_headroom_stage o saved r c).0 ≡ saved
unfolding run_headroom_stage judge_answer
failed_runner o saved r c (_, panics) = elim (Bool-cases c.headroom_enabled) [
  | inr off ↦ ground arith
  | inl on ↦ elim (Option-cases o.runner) [
    | inl missing ↦ ground arith
    | inr (run, there) ↦
        let e : (run_headroom_stage o saved r c).0 ≡ (judge_answer o saved r c (run saved r)).0 =
          (ground arith) in
        e ∙ ap (λ a. (judge_answer o saved r c a).0) (panics run saved r there)
  ]
]

first_stages_failed :
    (o : Options) (original : Bytes) (r : Request) (c : Config)
    → AllFail o
    → (first_stages o own_work original r c).0 ≡ original
unfolding first_stages
first_stages_failed o original r c h =
    elim (Bool-cases (c.headroom_enabled && leb (length original) dedupe_max_item_bytes)) [
      | inl cached ↦
          rw (cached, first_stages)
            (failed_runner o _ r c h ∙ failed_stage o rtk c.rtk_enabled original r c h)
      | inr direct ↦ rw (direct, first_stages) (failed_stage o rtk c.rtk_enabled original r c h)
    ]

conclude_original :
    (o : Options) (original : Bytes) (r : Request) → (conclude o original original r).0 ≡ original
unfolding conclude
conclude_original o original r = elim (Bool-cases (valid_provider_shape o.gjson original r)) [
  | inr bad ↦ rw (bad, conclude) refl
  | inl good ↦ elim (Verdict-cases (o.validate_final original r)) [
    | inl fine ↦ rw (good, fine, conclude) refl
    | inr (inl refused) ↦ rw (good, refused, conclude) refl
    | inr (inr crashed) ↦ rw (good, crashed, conclude) refl
  ]
]

-- If every stage function fails or panics and the runner panics, a request that does its own work
-- comes out with its original body.
pub normalize_failed :
    (o : Options) (r : Request) (c : Config) → AllFail o → (normalize o own_work r c).0 ≡ r.body
unfolding normalize process last_stages
normalize_failed o r c h = elim (Bool-cases (none_enabled c)) [
  | inl off ↦ rw (off, normalize) refl
  | inr on ↦ elim (Bool-cases (is_bypassed o r c)) [
    | inl bypass ↦ rw (on, bypass, normalize) refl
    | inr through ↦
        let last : (last_stages o (first_stages o own_work r.body r c).0 r c).0 ≡ r.body =
          failed_stage o ponytail c.ponytail_enabled _ r c h
          ∙ failed_stage o caveman c.caveman_enabled _ r c h
          ∙ first_stages_failed o r.body r c h in
        rw (on, through, normalize)
          (ap (λ w. (conclude o r.body w r).0) last ∙ conclude_original o r.body r)
  ]
]
