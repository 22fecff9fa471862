-- ===== src/Saver/Service/Managed.antt =====
-- internal/saver/pipeline.go: one generation's object, and the client that it closes.
use cpa_plugin_token_saver.Common.{
  ==_iff, Bool, Bool-cases, List, [], arith, false, if◌then◌else◌, inl, inr, not, refl, subst, sym,
  true, ℕ, ◌++◌, ◌+◌, ◌==◌, ◌||◌, ◌∷◌, ◌≡◌, ◌≢◌,
}
use cpa_plugin_token_saver.Saver.Pipeline.{kept}
use cpa_plugin_token_saver.Saver.Service.{
  GenerationState, Service, closable_locked, set_state, settle,
}

abbrev pub occurrences : ℕ → List ℕ → ℕ
occurrences a [] = 0
occurrences a (b ∷ bs) = (if b == a then 1 else 0) + occurrences a bs

pub occurrences_middle :
    (a b : ℕ) (before after : List ℕ)
    → occurrences a (before ++ b ∷ after)
      ≡ (if b == a then 1 else 0) + occurrences a (before ++ after)
occurrences_middle a b [] after = refl
occurrences_middle a b (c ∷ before) after = omega (arith, occurrences_middle a b before after)

abbrev pub flag : Bool → ℕ
flag true = 1
flag false = 0

-- `held` requests hold the generation, and its client was closed `times` times.
pub record IsCoherent (s : GenerationState) (held times : ℕ) : Type 0 where
  pub counted : s.inflight ≡ held
  pub once : times ≡ flag s.closed
  pub unused : s.closed ≡ true → (s.retired ≡ true) × (s.inflight ≡ 0) × (s.has_close ≡ true)

pub record IsManaged (s : GenerationState) (held times : ℕ) : Type 0 where
  pub coherent : IsCoherent s held times
  pub done : s.retired ≡ true → s.inflight ≡ 0 → s.has_close ≡ true → s.closed ≡ true

pub closable_locked-IsManaged :
    (s : GenerationState) (held times : ℕ)
    → IsCoherent s held times
    → IsManaged (closable_locked s).0 held (flag (closable_locked s).1 + times)
unfolding closable_locked
closable_locked-IsManaged s held times c =
    elim (Bool-cases (not s.retired || not (s.inflight == 0) || s.closed || not s.has_close)) [
      | inl kept ↦ rw kept (record {
        coherent = subst (IsCoherent s held) (omega arith) c;
        done = λ r i h. ground arith;
      })
      | inr closing ↦ rw closing (record {
        coherent = record {
          counted = c.counted;
          once = ground (arith, c.once);
          unused = λ e. (ground arith, ground arith, ground arith);
        };
        done = λ r i h. refl;
      })
    ]

pub closable_locked-retired : (s : GenerationState) → (closable_locked s).0.retired ≡ s.retired
unfolding closable_locked
closable_locked-retired s = ground arith

pub set_state_self :
    (states : ℕ → GenerationState) (a : ℕ) (s : GenerationState) → set_state states a s a ≡ s
unfolding set_state
set_state_self states a s = ground arith

pub set_state-other :
    (states : ℕ → GenerationState) (a b : ℕ) (s : GenerationState)
    → a ≢ b
    → set_state states a s b ≡ states b
unfolding set_state
set_state-other states a b s h = ground arith

-- What holds of the new object and of the old ones holds after the update.
pub set_state-elim {ℓ} :
    (P : ℕ → GenerationState → Type ℓ) (states : ℕ → GenerationState) (a : ℕ) (s : GenerationState)
    → P a s
    → ((b : ℕ) → a ≢ b → P b (states b))
    → (b : ℕ) → P b (set_state states a s b)
set_state-elim P states a s at rest b = elim (Bool-cases (a == b)) [
  | inl same ↦
      subst (λ b. P b (set_state states a s b)) ((==_iff a b).0 same)
        (subst (P a) (sym (set_state_self states a s)) at)
  | inr apart ↦
      let ne : a ≢ b = (λ e. ground arith) in
      subst (P b) (sym (set_state-other states a b s ne)) (rest b ne)
]

pub occurrences-apart :
    (a b : ℕ) (closing : Bool) (closings : List ℕ)
    → a ≢ b
    → occurrences b (if closing then a ∷ closings else closings) ≡ occurrences b closings
occurrences-apart a b true closings h = ground arith
occurrences-apart a b false closings h = refl

occurrences_self :
    (a : ℕ) (closing : Bool) (closings : List ℕ)
    → occurrences a (if closing then a ∷ closings else closings)
      ≡ flag closing + occurrences a closings
occurrences_self a true closings = ground arith
occurrences_self a false closings = omega arith

pub settle-IsManaged :
    (sv : Service) (a : ℕ) (held : ℕ → ℕ)
    → IsCoherent (sv.states a) (held a) (occurrences a sv.closings)
    → ((b : ℕ) → a ≢ b → IsManaged (sv.states b) (held b) (occurrences b sv.closings))
    → (b : ℕ) → IsManaged ((settle sv a).states b) (held b) (occurrences b (settle sv a).closings)
unfolding settle
settle-IsManaged sv a held c rest =
    set_state-elim (λ b s. IsManaged s (held b) (occurrences b (settle sv a).closings)) sv.states a
      (closable_locked (sv.states a)).0
      (subst (IsManaged (closable_locked (sv.states a)).0 (held a))
        (sym (occurrences_self a (closable_locked (sv.states a)).1 sv.closings))
        (closable_locked-IsManaged (sv.states a) (held a) (occurrences a sv.closings) c))
      (λ b ne.
        subst (IsManaged (sv.states b) (held b))
          (sym (occurrences-apart a b (closable_locked (sv.states a)).1 sv.closings ne))
          (rest b ne))

pub settle-retired :
    (sv : Service) (a b : ℕ) → ((settle sv a).states b).retired ≡ (sv.states b).retired
unfolding settle
settle-retired sv a =
    set_state-elim (λ b s. s.retired ≡ (sv.states b).retired) sv.states a
      (closable_locked (sv.states a)).0 (closable_locked-retired (sv.states a)) (λ b ne. refl)
