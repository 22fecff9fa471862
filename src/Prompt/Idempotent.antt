-- ===== src/Prompt/Idempotent.antt =====
-- To add the instructions twice is to add them once.
use cpa_plugin_token_saver.Common.{
  Bool, Bool-cases, Option, [], ap, if◌then◌else◌, inl, inr, none, none≢some, refl, some, subst,
  sym, true, ◌&&◌, ◌++◌, ◌||◌, ◌∙◌, ◌≡◌, ◌⊎◌,
}
use cpa_plugin_token_saver.Json.{Gjson}
use cpa_plugin_token_saver.Protocol.{Pair}
use cpa_plugin_token_saver.Text.{Bytes, bytes_eq, codes, contains}
use cpa_plugin_token_saver.Json.Marshal.{escape_ascii}
use cpa_plugin_token_saver.Prompt.Added.{IsAdded}
use cpa_plugin_token_saver.Prompt.Faces.{caveman_prompts, ponytail_prompts}
use cpa_plugin_token_saver.Prompt.Inject.{
  PromptOptions, PromptStage, caveman_prompt, caveman_stage, inject, inject_known, inject_stage,
  is_refused_body, ponytail_prompt, ponytail_stage, prompt_of,
}
use cpa_plugin_token_saver.Prompt.Marked.{
  Within, Within-append_left, Within-append_right, contains-Within, is_plain,
}
use cpa_plugin_token_saver.Prompt.Targets.{inject_target-IsAdded}
use cpa_plugin_token_saver.Protocol.Payload.{add}

-- The marker of a stage is written as it is.
abbrev pub IsMarked : PromptStage → Type 0
IsMarked stage = is_plain stage.start ≡ true

-- A stage whose start marker is plain inserts at most one piece, with the marker in it.
pub inject_stage-IsAdded :
    (g : Gjson) (body target : Bytes) (stage : PromptStage)
    → IsMarked stage
    → IsAdded stage.start body (inject_stage g body target stage)
unfolding inject_stage
inject_stage-IsAdded g body target stage plain =
    elim (Bool-cases (contains body stage.start || contains body stage.end)) [
      | inl marked ↦ rw (marked, inject_stage) (inl refl)
      | inr unmarked ↦
          rw (unmarked, inject_stage)
            (inject_target-IsAdded g stage.start plain
              (codes "\n" ++ (stage.prompt ++ (codes "\n" ++ stage.end))) body target stage)
    ]

inject_stage-marked :
    (g : Gjson) (body target : Bytes) (stage : PromptStage)
    → contains body stage.start ≡ true
    → inject_stage g body target stage ≡ body
unfolding inject_stage
inject_stage-marked g body target stage h =
    let marked : (contains body stage.start || contains body stage.end) ≡ true = (rw (h) refl) in
    rw (marked, inject_stage) refl

-- To run a stage twice is to run it once, if its start marker is plain.
pub inject_stage-inject_stage :
    (g : Gjson) (body target : Bytes) (stage : PromptStage)
    → IsMarked stage
    → inject_stage g (inject_stage g body target stage) target stage
      ≡ inject_stage g body target stage
inject_stage-inject_stage g body target stage plain =
    elim (inject_stage-IsAdded g body target stage plain) [
      | inl same ↦ ap (λ b. inject_stage g b target stage) same
      | inr (before, piece, after, _, out, within) ↦
          inject_stage-marked g (inject_stage g body target stage) target stage (
            contains-Within stage.start (inject_stage g body target stage) (
              subst (Within stage.start) (sym out) (
                Within-append_left stage.start (piece ++ after) before
                  (Within-append_right stage.start piece after within))))
    ]

abbrev pub known_caveman : Bytes → Option PromptStage
known_caveman level = elim (caveman_prompt level) [
  | none ↦ none
  | some text ↦ some (caveman_stage text)
]

abbrev pub known_ponytail : Bytes → Option PromptStage
known_ponytail level = elim (ponytail_prompt level) [
  | none ↦ none
  | some text ↦ some (ponytail_stage text)
]

-- A stage that is run for a level that may be unknown.
abbrev once : Gjson → Bytes → Option PromptStage → Bytes → Bytes
once g target stage body = inject_known g body target stage

abbrev pub AllMarked : Option PromptStage → Type 0
AllMarked none = Unit {0}
AllMarked (some stage) = IsMarked stage

once_twice :
    (g : Gjson) (target : Bytes) (stage : Option PromptStage) (body : Bytes)
    → AllMarked stage
    → once g target stage (once g target stage body) ≡ once g target stage body
unfolding inject_known
once_twice g target none body h = refl
once_twice g target (some stage) body h = inject_stage-inject_stage g body target stage h

marked_caveman :
    (text : Option Bytes) → AllMarked (elim text [ none ↦ none | some t ↦ some (caveman_stage t) ])
unfolding bytes_eq escape_ascii
marked_caveman none = tt
marked_caveman (some t) = refl

marked_ponytail :
    (text : Option Bytes) → AllMarked (elim text [ none ↦ none | some t ↦ some (ponytail_stage t) ])
unfolding bytes_eq escape_ascii
marked_ponytail none = tt
marked_ponytail (some t) = refl

pub known_caveman-AllMarked : (level : Bytes) → AllMarked (known_caveman level)
known_caveman-AllMarked level = marked_caveman (caveman_prompt level)

pub known_ponytail-AllMarked : (level : Bytes) → AllMarked (known_ponytail level)
known_ponytail-AllMarked level = marked_ponytail (ponytail_prompt level)

-- An instruction that a body is refused is not added to what comes out of it either.
refused_twice :
    (refuses : Bytes → Bool) (add : Bytes → Bytes) (body : Bytes)
    → add (add body) ≡ add body
    → let run : Bytes → Bytes = λ b. if refuses b then b else add b in run (run body) ≡ run body
refused_twice refuses add body same = elim (Bool-cases (refuses body)) [
  | inl no_body ↦ rw (no_body, no_body) refl
  | inr accepted ↦ elim (Bool-cases (refuses (add body))) [
    | inl no_output ↦ rw (accepted, no_output) refl
    | inr again ↦ rw (accepted, again) same
  ]
]

pub unknown_caveman : known_caveman [] ≡ none
unfolding caveman_prompt prompt_of caveman_prompts bytes_eq
unknown_caveman = refl

pub unknown_ponytail : known_ponytail [] ≡ none
unfolding ponytail_prompt prompt_of ponytail_prompts bytes_eq
unknown_ponytail = refl

-- One of two stages is not there.
one_stage :
    (g : Gjson) (target : Bytes) (first later_stage : Option PromptStage) (body : Bytes)
    → AllMarked first
    → AllMarked later_stage
    → (first ≡ none) ⊎ (later_stage ≡ none)
    → let add : Bytes → Bytes = λ b. once g target later_stage (once g target first b) in
      add (add body) ≡ add body
unfolding inject_known
one_stage g target none later_stage body h k one_off = once_twice g target later_stage body k
one_stage g target (some a) none body h k one_off = once_twice g target (some a) body h
one_stage g target (some a) (some b) body h k (inl e) = absurd (none≢some (sym e))
one_stage g target (some a) (some b) body h k (inr e) = absurd (none≢some (sym e))

known_stages :
    (options : PromptOptions)
    → (options.caveman_level ≡ []) ⊎ (options.ponytail_level ≡ [])
    → (known_caveman options.caveman_level ≡ none) ⊎ (known_ponytail options.ponytail_level ≡ none)
known_stages options (inl e) = inl (ap known_caveman e ∙ unknown_caveman)
known_stages options (inr e) = inr (ap known_ponytail e ∙ unknown_ponytail)

-- With at most one of the two instructions asked for, as each stage of the pipeline does, to inject
-- twice is to inject once, for every body and target.
pub inject-inject :
    (g : Gjson) (body : Bytes) (route : Pair) (options : PromptOptions)
    → (options.caveman_level ≡ []) ⊎ (options.ponytail_level ≡ [])
    → inject g (inject g body route options) route options ≡ inject g body route options
unfolding inject
inject-inject g body route options one_off =
    elim (Bool-cases (bytes_eq options.caveman_level [] && bytes_eq options.ponytail_level [])) [
      | inl none_asked ↦ rw (none_asked, inject) refl
      | inr asked ↦
          rw (asked, inject)
            (refused_twice (λ b. is_refused_body g b route)
              (λ b.
                once g route.to (known_ponytail options.ponytail_level)
                  (once g route.to (known_caveman options.caveman_level) b))
              body
              (one_stage g route.to (known_caveman options.caveman_level)
                (known_ponytail options.ponytail_level) body
                (known_caveman-AllMarked options.caveman_level)
                (known_ponytail-AllMarked options.ponytail_level) (known_stages options one_off)))
    ]
