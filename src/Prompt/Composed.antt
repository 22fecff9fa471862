-- ===== src/Prompt/Composed.antt =====
-- `Inject` only adds: each of its two stages at most one piece.
use cpa_plugin_token_saver.Common.{
  Bool-cases, Option, [], ap, inl, inr, none, none≢some, refl, some, some-injective, subst, sym,
  ◌&&◌, ◌∙◌, ◌≡◌, ◌⊎◌,
}
use cpa_plugin_token_saver.Json.{Gjson}
use cpa_plugin_token_saver.Protocol.{Pair}
use cpa_plugin_token_saver.Text.{Bytes, bytes_eq}
use cpa_plugin_token_saver.Prompt.Added.{IsAdded}
use cpa_plugin_token_saver.Prompt.Idempotent.{
  AllMarked, inject_stage-IsAdded, known_caveman, known_caveman-AllMarked, known_ponytail,
  known_ponytail-AllMarked, unknown_caveman, unknown_ponytail,
}
use cpa_plugin_token_saver.Prompt.Inject.{
  PromptOptions, PromptStage, caveman_prompt, caveman_stage, caveman_start, inject, inject_known,
  inject_stage, is_refused_body, ponytail_prompt, ponytail_stage, ponytail_start,
}

caveman_starts :
    (text : Option Bytes) (s : PromptStage)
    → elim text [ none ↦ none | some t ↦ some (caveman_stage t) ] ≡ some s
    → s.start ≡ caveman_start
caveman_starts none s e = absurd (none≢some e)
caveman_starts (some t) s e = sym (ap (λ x. x.start) (some-injective e))

ponytail_starts :
    (text : Option Bytes) (s : PromptStage)
    → elim text [ none ↦ none | some t ↦ some (ponytail_stage t) ] ≡ some s
    → s.start ≡ ponytail_start
ponytail_starts none s e = absurd (none≢some e)
ponytail_starts (some t) s e = sym (ap (λ x. x.start) (some-injective e))

known_IsAdded :
    (g : Gjson) (body target : Bytes) (stage : Option PromptStage) (marker : Bytes)
    → AllMarked stage
    → ((s : PromptStage) → stage ≡ some s → s.start ≡ marker)
    → IsAdded marker body (inject_known g body target stage)
unfolding inject_known
known_IsAdded g body target none marker h k = inl refl
known_IsAdded g body target (some s) marker h k =
    subst (λ m. IsAdded m body (inject_stage g body target s)) (k s refl)
      (inject_stage-IsAdded g body target s h)

-- The stages are run in order, or the body comes back.
inject_cases :
    (g : Gjson) (body : Bytes) (route : Pair) (options : PromptOptions)
    → (inject g body route options ≡ body)
      ⊎ (inject g body route options
          ≡ inject_known g
              (inject_known g body route.to (known_caveman options.caveman_level))
              route.to
              (known_ponytail options.ponytail_level))
unfolding inject
inject_cases g body route options =
    elim (Bool-cases (bytes_eq options.caveman_level [] && bytes_eq options.ponytail_level [])) [
      | inl none_asked ↦ rw (none_asked, inject) (inl refl)
      | inr asked ↦ elim (Bool-cases (is_refused_body g body route)) [
        | inl refused ↦ rw (asked, refused, inject) (inl refl)
        | inr accepted ↦ rw (asked, accepted, inject) (inr refl)
      ]
    ]

caveman_known-IsAdded :
    (g : Gjson) (body target level : Bytes)
    → IsAdded caveman_start body (inject_known g body target (known_caveman level))
caveman_known-IsAdded g body target level =
    known_IsAdded g body target (known_caveman level) caveman_start (known_caveman-AllMarked level)
      (caveman_starts (caveman_prompt level))

ponytail_known-IsAdded :
    (g : Gjson) (body target level : Bytes)
    → IsAdded ponytail_start body (inject_known g body target (known_ponytail level))
ponytail_known-IsAdded g body target level =
    known_IsAdded g body target (known_ponytail level) ponytail_start
      (known_ponytail-AllMarked level) (ponytail_starts (ponytail_prompt level))

-- `Inject` takes no byte of a body away: it inserts at most one piece for each of the two
-- instructions, in the order caveman and ponytail, and the piece has the instruction's start marker
-- in it.
pub inject-IsAdded :
    (g : Gjson) (body : Bytes) (route : Pair) (options : PromptOptions)
    → (middle : Bytes) × IsAdded caveman_start body middle
      × IsAdded ponytail_start middle (inject g body route options)
inject-IsAdded g body route options = elim (inject_cases g body route options) [
  | inl same ↦ (body, inl refl, inl same)
  | inr out ↦
      let middle = inject_known g body route.to (known_caveman options.caveman_level) in
      (
        middle,
        caveman_known-IsAdded g body route.to options.caveman_level,
        subst (IsAdded ponytail_start middle) (sym out)
            (ponytail_known-IsAdded g middle route.to options.ponytail_level),
      )
]

-- One stage alone.
pub caveman_only-IsAdded :
    (g : Gjson) (body : Bytes) (route : Pair) (level : Bytes)
    → IsAdded caveman_start body
        (inject g body route (record { caveman_level = level; ponytail_level = [] }))
unfolding inject_known
caveman_only-IsAdded g body route level =
    let options : PromptOptions = record { caveman_level = level; ponytail_level = [] } in
    elim (inject_cases g body route options) [
      | inl same ↦ inl same
      | inr out ↦
          let by_itself : inject g body route options
              ≡ inject_known g body route.to (known_caveman level) =
            out
            ∙ ap (inject_known g (inject_known g body route.to (known_caveman level)) route.to)
                unknown_ponytail in
          subst (IsAdded caveman_start body) (sym by_itself)
            (caveman_known-IsAdded g body route.to level)
    ]

pub ponytail_only-IsAdded :
    (g : Gjson) (body : Bytes) (route : Pair) (level : Bytes)
    → IsAdded ponytail_start body
        (inject g body route (record { caveman_level = []; ponytail_level = level }))
unfolding inject_known
ponytail_only-IsAdded g body route level =
    let options : PromptOptions = record { caveman_level = []; ponytail_level = level } in
    elim (inject_cases g body route options) [
      | inl same ↦ inl same
      | inr out ↦
          let by_itself : inject g body route options
              ≡ inject_known g body route.to (known_ponytail level) =
            out
            ∙ ap
                (λ s.
                  inject_known g (inject_known g body route.to s) route.to (known_ponytail level))
                unknown_caveman in
          subst (IsAdded ponytail_start body) (sym by_itself)
            (ponytail_known-IsAdded g body route.to level)
    ]
