-- ===== src/Saver/Service/Preserved.antt =====
-- internal/saver/pipeline.go: each operation of the service keeps its generations numbered and
-- their clients accounted for.
use cpa_plugin_token_saver.Common.{
  ap, arith, false, refl, subst, sym, true, ℕ, ◌+◌, ◌-◌, ◌<◌, ◌^◌, ◌∙◌, ◌≡◌, ◌≢◌, ◌≤◌,
}
use cpa_plugin_token_saver.Metrics.{Registry, u64}
use cpa_plugin_token_saver.Saver.Service.{
  GenerationState, Service, closable_locked, close, enter, release_status_state, set_state, settle,
}
use cpa_plugin_token_saver.Saver.Service.Lifecycle.{IsNumbered, IsServed}
use cpa_plugin_token_saver.Saver.Service.Managed.{
  IsCoherent, IsManaged, occurrences, occurrences-apart, set_state-elim, set_state-other,
  set_state_self, settle-IsManaged, settle-retired,
}

pub metrics-IsServed :
    (sv : Service) (held : ℕ → ℕ) (r : Registry)
    → IsServed sv held
    → IsServed (record sv { metrics = r }) held
metrics-IsServed sv held r i = record {
  managed = i.managed;
  numbered = record {
    newest = i.numbered.newest;
    unborn = i.numbered.unborn;
    replaced = i.numbered.replaced;
    serving = i.numbered.serving;
  };
}

settle-IsNumbered :
    (sv : Service) (a : ℕ) (held : ℕ → ℕ)
    → a ≤ sv.next_generation
    → IsNumbered sv held
    → IsNumbered (settle sv a) held
unfolding settle
settle-IsNumbered sv a held old i = record {
  newest = i.newest;
  unborn = λ b h. (
    (i.unborn b h).0,
    ground (
      arith,
      (i.unborn b h).1,
      occurrences-apart a b (closable_locked (sv.states a)).1 sv.closings,
    ),
  );
  replaced = λ b h. settle-retired sv a b ∙ i.replaced b h;
  serving = settle-retired sv a sv.current ∙ i.serving;
}

pub settle-IsServed :
    (sv : Service) (a : ℕ) (held : ℕ → ℕ)
    → a ≤ sv.next_generation
    → IsCoherent (sv.states a) (held a) (occurrences a sv.closings)
    → ((b : ℕ) → a ≢ b → IsManaged (sv.states b) (held b) (occurrences b sv.closings))
    → IsNumbered sv held
    → IsServed (settle sv a) held
settle-IsServed sv a held old c rest i = record {
  managed = settle-IsManaged sv a held c rest;
  numbered = settle-IsNumbered sv a held old i;
}

-- An update that leaves `retired` alone.
update-IsNumbered :
    (sv : Service) (a : ℕ) (s : GenerationState) (held held' : ℕ → ℕ)
    → s.retired ≡ (sv.states a).retired
    → ((b : ℕ) → sv.next_generation < b → held' b ≡ held b)
    → IsNumbered sv held
    → IsNumbered (record sv { states = set_state sv.states a s }) held'
update-IsNumbered sv a s held held' same unborn i =
    let retired : (b : ℕ) → (set_state sv.states a s b).retired ≡ (sv.states b).retired =
      set_state-elim (λ b x. x.retired ≡ (sv.states b).retired) sv.states a s same (λ b ne. refl) in
    record {
      newest = i.newest;
      unborn = λ b h. (unborn b h ∙ (i.unborn b h).0, (i.unborn b h).1);
      replaced = λ b h. retired b ∙ i.replaced b h;
      serving = retired sv.current ∙ i.serving;
    }

pub enter-IsServed :
    (sv : Service) (held held' : ℕ → ℕ)
    → sv.closed ≡ false
    → (sv.states sv.current).inflight + 1 < 2 ^ 64
    → held' sv.current ≡ held sv.current + 1
    → ((b : ℕ) → sv.current ≢ b → held' b ≡ held b)
    → IsServed sv held
    → IsServed (enter sv) held'
unfolding enter
enter-IsServed sv held held' running small more_held rest i =
    let c = (i.managed sv.current).coherent in
    let active : (sv.states sv.current).retired ≡ false = i.numbered.serving ∙ running in
    record {
      managed =
          set_state-elim (λ b s. IsManaged s (held' b) (occurrences b sv.closings)) sv.states
            sv.current
            (record (sv.states sv.current) { inflight = u64 ((sv.states sv.current).inflight + 1) })
            (record {
              coherent = record {
                counted = omega (arith, c.counted);
                once = c.once;
                unused = λ h. absurd (ground (arith, c.unused h));
              };
              done = λ r. absurd (ground arith);
            })
            (λ b ne.
              subst (λ n. IsManaged (sv.states b) n (occurrences b sv.closings)) (sym (rest b ne))
                (i.managed b));
      numbered =
          update-IsNumbered sv sv.current _ held held' refl
            (λ b h. rest b (λ e. ground (arith, i.numbered.newest))) i.numbered;
    }

pub leave-IsServed :
    (sv : Service) (a : ℕ) (held held' : ℕ → ℕ)
    → held a ≡ held' a + 1
    → ((b : ℕ) → a ≢ b → held' b ≡ held b)
    → IsServed sv held
    → IsServed (release_status_state sv a) held'
unfolding release_status_state
leave-IsServed sv a held held' less rest i =
    let c = (i.managed a).coherent in
    let s = record (sv.states a) { inflight = (sv.states a).inflight - 1 } in
    let old : a ≤ sv.next_generation = (ground (arith, i.numbered.unborn a)) in
    settle-IsServed (record sv { states = set_state sv.states a s }) a held' old
      (subst (λ s. IsCoherent s (held' a) (occurrences a sv.closings))
        (sym (set_state_self sv.states a s))
        (record {
          counted = omega (arith, c.counted);
          once = c.once;
          unused = λ h. absurd (ground (arith, c.unused h, c.counted));
        }))
      (λ b ne.
        subst (λ s. IsManaged s (held' b) (occurrences b sv.closings))
          (sym (set_state-other sv.states a b s ne))
          (subst (λ n. IsManaged (sv.states b) n (occurrences b sv.closings)) (sym (rest b ne))
            (i.managed b)))
      (update-IsNumbered sv a s held held' refl (λ b h. rest b (λ e. ground arith)) i.numbered)

pub close-IsServed : (sv : Service) (held : ℕ → ℕ) → IsServed sv held → IsServed (close sv) held
unfolding close
close-IsServed sv held i =
    let c = (i.managed sv.current).coherent in
    let s = record (sv.states sv.current) { retired = true } in
    settle-IsServed (record sv { closed = true; states = set_state sv.states sv.current s })
      sv.current held (omega (arith, i.numbered.newest))
      (subst (λ s. IsCoherent s (held sv.current) (occurrences sv.current sv.closings))
        (sym (set_state_self sv.states sv.current s))
        (record {
          counted = c.counted;
          once = c.once;
          unused = λ h. (refl, (c.unused h).1, (c.unused h).2);
        }))
      (λ b ne.
        subst (λ s. IsManaged s (held b) (occurrences b sv.closings))
          (sym (set_state-other sv.states sv.current b s ne)) (i.managed b))
      (record {
        newest = i.numbered.newest;
        unborn = i.numbered.unborn;
        replaced = λ b h.
            ap (λ s. s.retired)
              (set_state-other sv.states sv.current b s (λ e. ground (arith, i.numbered.newest)))
            ∙ i.numbered.replaced b h;
        serving = ap (λ s. s.retired) (set_state_self sv.states sv.current s);
      })
