-- ===== src/Saver/Pipeline/Bodies.antt =====
-- What the local stages may do to a body.
use cpa_plugin_token_saver.Common.{
  Bool, Bool-cases, ap, false, inl, inr, refl, subst, sym, true, ◌∙◌, ◌≡◌, ◌≢◌, ◌⊎◌,
}
use cpa_plugin_token_saver.Config.{Config}
use cpa_plugin_token_saver.Json.{Gjson}
use cpa_plugin_token_saver.Metrics.{Stage, caveman, ponytail, rtk}
use cpa_plugin_token_saver.Protocol.{Pair}
use cpa_plugin_token_saver.Text.{Bytes, bytes_eq_sound}
use cpa_plugin_token_saver.Prompt.Added.{IsAdded}
use cpa_plugin_token_saver.Prompt.Composed.{caveman_only-IsAdded, ponytail_only-IsAdded}
use cpa_plugin_token_saver.Prompt.Inject.{caveman_start, inject, ponytail_start}
use cpa_plugin_token_saver.Saver.Pipeline.{
  Options, accepts, caveman_only, check_panicked, ponytail_only, rejects, run_local_stage,
  stage_invariant, valid_stage,
}
use cpa_plugin_token_saver.Saver.Shape.{Request, pair, valid_provider_shape}
use cpa_plugin_token_saver.Saver.Transition.{
  IsRetexted, valid_rtk_transition, valid_rtk_transition-IsRetexted,
}
use cpa_plugin_token_saver.Saver.Pipeline.Normalize.{
  Shared, conclude, first_stages, last_stages, process,
}
use cpa_plugin_token_saver.Saver.Pipeline.Stages.{Verdict-cases, run_local_stage-IsSafe}

rejects≢accepts : rejects ≢ accepts
rejects≢accepts e =
    subst (λ v. elim v as (λ x. Type 0) [ rejects ↦ Unit {0} | accepts ↦ ⊥ | check_panicked ↦ ⊥ ]) e
      tt

accepted_invariant :
    (o : Options) (stage : Stage) (saved after : Bytes) (r : Request) (c : Config)
    → valid_stage o stage saved after r c ≡ accepts
    → stage_invariant o stage saved after r c ≡ true
unfolding valid_stage
accepted_invariant o stage saved after r c =
    elim (Bool-cases (valid_provider_shape o.gjson after r)) [
      | inr misshapen ↦ rw (misshapen, valid_stage) (λ e. absurd (rejects≢accepts e))
      | inl shaped ↦ elim (Bool-cases (stage_invariant o stage saved after r c)) [
        | inl holds ↦ λ e. holds
        | inr fails_it ↦ rw (shaped, fails_it, valid_stage) (λ e. absurd (rejects≢accepts e))
      ]
    ]

rtk_invariant :
    (o : Options) (saved after : Bytes) (r : Request) (c : Config)
    → valid_stage o rtk saved after r c ≡ accepts
    → valid_rtk_transition o.gjson saved after (pair r) ≡ true
unfolding stage_invariant
rtk_invariant o saved after r c h = accepted_invariant o rtk saved after r c h

conclude_cases :
    (o : Options) (original working : Bytes) (r : Request)
    → ((conclude o original working r).0 ≡ original) ⊎ ((conclude o original working r).0 ≡ working)
unfolding conclude
conclude_cases o original working r = elim (Bool-cases (valid_provider_shape o.gjson working r)) [
  | inr misshapen ↦ rw (misshapen, conclude) (inl refl)
  | inl shaped ↦ elim (Verdict-cases (o.validate_final working r)) [
    | inl good ↦ rw (shaped, good, conclude) (inr refl)
    | inr (inl bad) ↦ rw (shaped, bad, conclude) (inl refl)
    | inr (inr crashed) ↦ rw (shaped, crashed, conclude) (inl refl)
  ]
]

-- A stage of an instruction adds at most one piece, which has the stage's marker in it.
caveman_stage-IsAdded :
    (o : Options) (saved after : Bytes) (r : Request) (c : Config)
    → valid_stage o caveman saved after r c ≡ accepts
    → IsAdded caveman_start saved after
unfolding valid_stage stage_invariant
caveman_stage-IsAdded o saved after r c h =
    let out = accepted_invariant o caveman saved after r c h in
    let same =
      bytes_eq_sound after (inject o.gjson saved (pair r) (caveman_only c.caveman_level)) out in
    subst (IsAdded caveman_start saved) (sym same)
      (caveman_only-IsAdded o.gjson saved (pair r) c.caveman_level)

ponytail_stage-IsAdded :
    (o : Options) (saved after : Bytes) (r : Request) (c : Config)
    → valid_stage o ponytail saved after r c ≡ accepts
    → IsAdded ponytail_start saved after
unfolding valid_stage stage_invariant
ponytail_stage-IsAdded o saved after r c h =
    let out = accepted_invariant o ponytail saved after r c h in
    let same =
      bytes_eq_sound after (inject o.gjson saved (pair r) (ponytail_only c.ponytail_level)) out in
    subst (IsAdded ponytail_start saved) (sym same)
      (ponytail_only-IsAdded o.gjson saved (pair r) c.ponytail_level)

-- The body after the first stage: the same, or with other texts at some slots.
abbrev pub IsKept : Gjson → Bytes → Bytes → Pair → Type 0
IsKept g before after route = (before ≡ after) ⊎ IsRetexted g before after route

-- The first stage comes out with its input, or with other texts spliced into slots of the input's
-- view.
pub run_rtk_stage-IsKept :
    (o : Options) (enabled : Bool) (saved : Bytes) (r : Request) (c : Config)
    → IsKept o.gjson saved (run_local_stage o rtk enabled saved r c).0 (pair r)
run_rtk_stage-IsKept o enabled saved r c = elim (run_local_stage-IsSafe o rtk enabled saved r c) [
  | inl same ↦ inl (sym same)
  | inr (good, _) ↦
      valid_rtk_transition-IsRetexted o.gjson saved (run_local_stage o rtk enabled saved r c).0
        (pair r) (rtk_invariant o saved (run_local_stage o rtk enabled saved r c).0 r c good)
]

run_caveman_stage-IsAdded :
    (o : Options) (enabled : Bool) (saved : Bytes) (r : Request) (c : Config)
    → IsAdded caveman_start saved (run_local_stage o caveman enabled saved r c).0
run_caveman_stage-IsAdded o enabled saved r c =
    elim (run_local_stage-IsSafe o caveman enabled saved r c) [
      | inl same ↦ inl same
      | inr (good, _) ↦ caveman_stage-IsAdded o saved _ r c good
    ]

run_ponytail_stage-IsAdded :
    (o : Options) (enabled : Bool) (saved : Bytes) (r : Request) (c : Config)
    → IsAdded ponytail_start saved (run_local_stage o ponytail enabled saved r c).0
run_ponytail_stage-IsAdded o enabled saved r c =
    elim (run_local_stage-IsSafe o ponytail enabled saved r c) [
      | inl same ↦ inl same
      | inr (good, _) ↦ ponytail_stage-IsAdded o saved _ r c good
    ]

-- Without Headroom, whatever the injected stage functions answer, a request comes out with its
-- original body, or with this body changed in three steps only: other texts spliced into slots of
-- its view, then at most one piece with the caveman marker inserted, then at most one piece with
-- the ponytail marker inserted.
pub process-IsKept :
    (o : Options) (shared : Shared) (original : Bytes) (r : Request) (c : Config)
    → c.headroom_enabled ≡ false
    → let out = (process o shared original r c).0 in
      (out ≡ original)
      ⊎ ((first : Bytes) × (second : Bytes) × IsKept o.gjson original first (pair r)
          × IsAdded caveman_start first second
          × IsAdded ponytail_start second out)
unfolding process first_stages last_stages
process-IsKept o shared original r c h =
    let first = (run_local_stage o rtk c.rtk_enabled original r c).0 in
    let second = (run_local_stage o caveman c.caveman_enabled first r c).0 in
    let third = (run_local_stage o ponytail c.ponytail_enabled second r c).0 in
    let begun : (first_stages o shared original r c).0 ≡ first = (rw (h, first_stages) refl) in
    elim (conclude_cases o original (last_stages o (first_stages o shared original r c).0 r c).0
      r) [
        | inl given_back ↦ inl given_back
        | inr passed ↦ inr (
          first,
          second,
          run_rtk_stage-IsKept o c.rtk_enabled original r c,
          run_caveman_stage-IsAdded o c.caveman_enabled first r c,
          subst (IsAdded ponytail_start second)
              (sym (passed ∙ ap (λ b. (last_stages o b r c).0) begun))
              (run_ponytail_stage-IsAdded o c.ponytail_enabled second r c),
        )
      ]
