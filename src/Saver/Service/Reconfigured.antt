-- ===== src/Saver/Service/Reconfigured.antt =====
-- internal/saver/pipeline.go, `Reconfigure`: the new generation takes its place, and the old one
-- is retired.
use cpa_plugin_token_saver.Common.{
  Bool, Bool-cases, ap, arith, false, if◌then◌else◌, inl, inr, refl, subst, sym, true, ℕ, ◌+◌, ◌<◌,
  ◌^◌, ◌∙◌, ◌≡◌, ◌≤◌, ◌≢◌,
}
use cpa_plugin_token_saver.Config.{Config}
use cpa_plugin_token_saver.Metrics.{u64}
use cpa_plugin_token_saver.Metrics.Generations.{publish_generation}
use cpa_plugin_token_saver.Saver.Service.{
  GenerationState, Made, Service, closable_locked, discard, factory_failed, fresh_state, install,
  no_runner, reconfigure, runner_made, set_state, settle,
}
use cpa_plugin_token_saver.Saver.Service.Lifecycle.{IsNumbered, IsServed, discard-IsServed}
use cpa_plugin_token_saver.Saver.Service.Managed.{
  IsCoherent, IsManaged, occurrences, set_state-elim, set_state-other, set_state_self,
}
use cpa_plugin_token_saver.Saver.Service.Preserved.{settle-IsServed}

-- The service after the new generation is published and before the old one's client is judged.
abbrev swapped : Service → ℕ → GenerationState → Service
swapped sv number s = record sv {
  next_generation = number;
  current = number;
  states =
      set_state (set_state sv.states number s) sv.current
        (record (sv.states sv.current) { retired = true });
  metrics = publish_generation sv.metrics number;
}

swapped-retired :
    (sv : Service) (number : ℕ) (s : GenerationState) (held : ℕ → ℕ)
    → number ≡ sv.next_generation + 1
    → IsNumbered sv held
    → (b : ℕ) → b < number
    → ((swapped sv number s).states b).retired ≡ true
swapped-retired sv number s held e i =
    set_state-elim (λ b s. b < number → s.retired ≡ true) (set_state sv.states number s) sv.current
      (record (sv.states sv.current) { retired = true }) (λ h. refl)
      (λ b ne h.
        ap (λ s. s.retired) (set_state-other sv.states number b s (λ d. omega arith))
        ∙ i.replaced b (ground (arith, i.newest)))

swapped-current :
    (sv : Service) (number : ℕ) (s : GenerationState)
    → sv.current < number
    → (swapped sv number s).states number ≡ s
swapped-current sv number s h =
    set_state-other (set_state sv.states number s) sv.current number
      (record (sv.states sv.current) { retired = true }) (λ d. omega arith)
    ∙ set_state_self sv.states number s

swapped-IsNumbered :
    (sv : Service) (number : ℕ) (s : GenerationState) (held : ℕ → ℕ)
    → number ≡ sv.next_generation + 1
    → s.retired ≡ false
    → sv.closed ≡ false
    → IsNumbered sv held
    → IsNumbered (swapped sv number s) held
swapped-IsNumbered sv number s held e active running i = record {
  newest = refl;
  unborn = λ b h. i.unborn b (omega arith);
  replaced = swapped-retired sv number s held e i;
  serving =
      ap (λ s. s.retired) (swapped-current sv number s (omega (arith, i.newest)))
      ∙ active
      ∙ sym running;
}

swapped-IsManaged :
    (sv : Service) (number : ℕ) (c : Config) (runner has_close : Bool) (held : ℕ → ℕ)
    → number ≡ sv.next_generation + 1
    → IsServed sv held
    → (b : ℕ) → sv.current ≢ b
    → IsManaged
        ((swapped sv number (fresh_state c runner has_close)).states b)
        (held b)
        (occurrences b sv.closings)
swapped-IsManaged sv number c runner has_close held e i b ne =
    subst (λ s. IsManaged s (held b) (occurrences b sv.closings))
      (sym (
        set_state-other (set_state sv.states number (fresh_state c runner has_close)) sv.current b
          (record (sv.states sv.current) { retired = true }) ne))
      (set_state-elim (λ b s. IsManaged s (held b) (occurrences b sv.closings)) sv.states number
        (fresh_state c runner has_close)
        (let unborn = i.numbered.unborn number (omega arith) in
          record {
            coherent = record { counted = sym (unborn.0); once = unborn.1; unused = λ h. cc };
            done = λ h. cc;
          })
        (λ b ne. i.managed b) b)

install-IsServed :
    (sv : Service) (c : Config) (runner has_close : Bool) (held : ℕ → ℕ)
    → sv.next_generation + 1 < 2 ^ 64
    → IsServed sv held
    → IsServed (install sv c runner has_close).0 held
unfolding install
install-IsServed sv c runner has_close held small i = elim (Bool-cases sv.closed) [
  | inl over ↦
      let e : (install sv c runner has_close).0 ≡ discard sv has_close =
        (rw (over, install) refl) in
      subst (λ x. IsServed x held) (sym e) (discard-IsServed sv held has_close i)
  | inr running ↦
      let number = u64 (sv.next_generation + 1) in
      let e : number ≡ sv.next_generation + 1 = (omega arith) in
      let s = fresh_state c runner has_close in
      let k = (i.managed sv.current).coherent in
      let installed : (install sv c runner has_close).0 ≡ settle (swapped sv number s) sv.current =
        (rw (running, install) refl) in
      subst (λ x. IsServed x held) (sym installed)
        (settle-IsServed (swapped sv number s) sv.current held (omega (arith, i.numbered.newest))
          (subst (λ s. IsCoherent s (held sv.current) (occurrences sv.current sv.closings))
            (sym (
              set_state_self (set_state sv.states number s) sv.current
                (record (sv.states sv.current) { retired = true })))
            (record {
              counted = k.counted;
              once = k.once;
              unused = λ h. (refl, (k.unused h).1, (k.unused h).2);
            }))
          (swapped-IsManaged sv number c runner has_close held e i)
          (swapped-IsNumbered sv number s held e refl running i.numbered))
]

enabled-IsServed :
    (sv : Service) (c : Config) (made : Made) (held : ℕ → ℕ)
    → c.headroom_enabled ≡ true
    → sv.next_generation + 1 < 2 ^ 64
    → IsServed sv held
    → IsServed (reconfigure sv c made).0 held
unfolding reconfigure
enabled-IsServed sv c factory_failed held on small i = rw (on, reconfigure) i
enabled-IsServed sv c (no_runner b) held on small i =
    rw (on, reconfigure) (discard-IsServed sv held b i)
enabled-IsServed sv c (runner_made b) held on small i =
    rw (on, reconfigure)
      (install-IsServed sv (record c { headroom_enabled = true }) true b held small i)

pub reconfigure-IsServed :
    (sv : Service) (c : Config) (made : Made) (held : ℕ → ℕ)
    → sv.next_generation + 1 < 2 ^ 64
    → IsServed sv held
    → IsServed (reconfigure sv c made).0 held
unfolding reconfigure
reconfigure-IsServed sv c made held small i = elim (Bool-cases c.headroom_enabled) [
  | inr off ↦
      rw (off, reconfigure)
        (install-IsServed sv (record c { headroom_enabled = false }) false false held small i)
  | inl on ↦ enabled-IsServed sv c made held on small i
]

closable_locked-config : (s : GenerationState) → (closable_locked s).0.config ≡ s.config
unfolding closable_locked
closable_locked-config s = ground arith

pub settle-config :
    (sv : Service) (a b : ℕ) → ((settle sv a).states b).config ≡ (sv.states b).config
unfolding settle
settle-config sv a =
    set_state-elim (λ b s. s.config ≡ (sv.states b).config) sv.states a
      (closable_locked (sv.states a)).0 (closable_locked-config (sv.states a)) (λ b ne. refl)

-- The configuration that requests are served with.
abbrev pub serving_config : Service → Config
serving_config sv = (sv.states sv.current).config

discard-config : (sv : Service) (b : Bool) → serving_config (discard sv b) ≡ serving_config sv
unfolding discard
discard-config sv true = refl
discard-config sv false = refl

-- What a call of `Reconfigure` on the configuration `c` leaves in service.
abbrev pub Serves : Service → Config → Service × Bool → Type 0
Serves sv c result = serving_config result.0 ≡ (if result.1 then c else serving_config sv)

install-Serves :
    (sv : Service) (c : Config) (runner has_close : Bool) (held : ℕ → ℕ)
    → sv.next_generation + 1 < 2 ^ 64
    → IsNumbered sv held
    → Serves sv c (install sv c runner has_close)
unfolding install settle
install-Serves sv c runner has_close held small i = elim (Bool-cases sv.closed) [
  | inl over ↦
      let e : install sv c runner has_close ≡ (discard sv has_close, false) =
        (rw (over, install) refl) in
      subst (Serves sv c) (sym e) (discard-config sv has_close)
  | inr running ↦
      let number = u64 (sv.next_generation + 1) in
      let s = fresh_state c runner has_close in
      let e : install sv c runner has_close ≡ (settle (swapped sv number s) sv.current, true) =
        (rw (running, install) refl) in
      subst (Serves sv c) (sym e) (
        settle-config (swapped sv number s) sv.current number
        ∙ ap (λ s. s.config) (swapped-current sv number s (omega (arith, i.newest))))
]

enabled-Serves :
    (sv : Service) (c : Config) (made : Made) (held : ℕ → ℕ)
    → c.headroom_enabled ≡ true
    → sv.next_generation + 1 < 2 ^ 64
    → IsNumbered sv held
    → Serves sv c (reconfigure sv c made)
unfolding reconfigure
enabled-Serves sv c factory_failed held on small i =
    let e : reconfigure sv c factory_failed ≡ (sv, false) = (ground arith) in
    subst (Serves sv c) (sym e) refl
enabled-Serves sv c (no_runner b) held on small i =
    let e : reconfigure sv c (no_runner b) ≡ (discard sv b, false) = (ground arith) in
    subst (Serves sv c) (sym e) (discard-config sv b)
enabled-Serves sv c (runner_made b) held on small i =
    let e : reconfigure sv c (runner_made b) ≡ install sv c true b = (ground arith) in
    subst (Serves sv c) (sym e) (install-Serves sv c true b held small i)

pub reconfigure-Serves :
    (sv : Service) (c : Config) (made : Made) (held : ℕ → ℕ)
    → sv.next_generation + 1 < 2 ^ 64
    → IsNumbered sv held
    → Serves sv c (reconfigure sv c made)
unfolding reconfigure
reconfigure-Serves sv c made held small i = elim (Bool-cases c.headroom_enabled) [
  | inr off ↦
      let e : reconfigure sv c made ≡ install sv c false false = (ground arith) in
      subst (Serves sv c) (sym e) (install-Serves sv c false false held small i)
  | inl on ↦ enabled-Serves sv c made held on small i
]

install-next :
    (sv : Service) (c : Config) (runner has_close : Bool)
    → (install sv c runner has_close).0.next_generation ≤ sv.next_generation + 1
unfolding install settle discard
install-next sv c runner has_close = ground arith

pub reconfigure-next :
    (sv : Service) (c : Config) (made : Made)
    → (reconfigure sv c made).0.next_generation ≤ sv.next_generation + 1
unfolding reconfigure discard
reconfigure-next sv c factory_failed = ground (arith, install-next sv c false false)
reconfigure-next sv c (no_runner b) = ground (arith, install-next sv c false false)
reconfigure-next sv c (runner_made b) =
    ground (arith, install-next sv c false false, install-next sv c true b)
