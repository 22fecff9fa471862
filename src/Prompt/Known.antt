-- ===== src/Prompt/Known.antt =====
-- The levels that the configuration accepts have instructions.
use cpa_plugin_token_saver.Common.{
  Bool, Bool-cases, List, Option, [], arith, false, false≢true, inl, inr, length, none, refl, some,
  subst, sym, true, ◌&&◌, ◌<◌, ◌∷◌, ◌≡◌,
}
use cpa_plugin_token_saver.Config.{
  Config, Libraries, caveman_levels, is_one_of, ok, ponytail_levels,
}
use cpa_plugin_token_saver.Text.{Bytes, bytes_eq, bytes_eq_sound}
use cpa_plugin_token_saver.Config.Fields.{parse}
use cpa_plugin_token_saver.Config.Validity.{parse-IsValid}
use cpa_plugin_token_saver.Prompt.Faces.{caveman_prompts, ponytail_prompts}
use cpa_plugin_token_saver.Prompt.Inject.{caveman_prompt, ponytail_prompt, prompt_of}
use cpa_plugin_token_saver.Text.Lines.{join}

-- The level has a text, and the text is not empty.
abbrev pub HasText : Option Bytes → Type 0
HasText text = (t : Bytes) × (text ≡ some t) × (0 < length t)

abbrev is_nonempty : Bytes → Bool
is_nonempty [] = false
is_nonempty (c ∷ s) = true

abbrev all_known : List (Bytes × Bytes) → List Bytes → Bool
all_known prompts [] = true
all_known prompts (name ∷ names) =
    elim (prompt_of prompts name) [ none ↦ false | some t ↦ is_nonempty t ]
    && all_known prompts names

some_text :
    (text : Option Bytes)
    → elim text [ none ↦ false | some t ↦ is_nonempty t ] ≡ true
    → HasText text
some_text none h = absurd (false≢true h)
some_text (some []) h = absurd (false≢true h)
some_text (some (c ∷ s)) h = (c ∷ s, refl, ground arith)

prompt_of-HasText :
    (prompts : List (Bytes × Bytes)) (names : List Bytes) (level : Bytes)
    → all_known prompts names ≡ true
    → is_one_of names level ≡ true
    → HasText (prompt_of prompts level)
unfolding is_one_of
prompt_of-HasText prompts [] level known h = absurd (false≢true h)
prompt_of-HasText prompts (name ∷ names) level known h =
    let here : elim (prompt_of prompts name) [ none ↦ false | some t ↦ is_nonempty t ] ≡ true =
      (ground arith) in
    let there : all_known prompts names ≡ true = (ground arith) in
    elim (Bool-cases (bytes_eq level name)) [
      | inl same ↦
          subst (λ n. HasText (prompt_of prompts n)) (sym (bytes_eq_sound level name same))
            (some_text (prompt_of prompts name) here)
      | inr differs ↦ prompt_of-HasText prompts names level there (ground arith)
    ]

caveman_levels_known : all_known caveman_prompts caveman_levels ≡ true
unfolding prompt_of caveman_prompts bytes_eq join
caveman_levels_known = refl

ponytail_levels_known : all_known ponytail_prompts ponytail_levels ≡ true
unfolding prompt_of ponytail_prompts bytes_eq join
ponytail_levels_known = refl

-- For the levels of every configuration that `Parse` accepts, there is a caveman text and a
-- ponytail text, and neither is empty.
pub parse-HasText :
    (l : Libraries) (raw : Bytes) (c : Config)
    → parse l raw ≡ ok c
    → HasText (caveman_prompt c.caveman_level) × HasText (ponytail_prompt c.ponytail_level)
unfolding caveman_prompt ponytail_prompt
parse-HasText l raw c h =
    let valid = parse-IsValid l raw c h in
    (
      prompt_of-HasText caveman_prompts caveman_levels c.caveman_level caveman_levels_known
          valid.caveman,
      prompt_of-HasText ponytail_prompts ponytail_levels c.ponytail_level ponytail_levels_known
          valid.ponytail,
    )
