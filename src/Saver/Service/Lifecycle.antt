-- ===== src/Saver/Service/Lifecycle.antt =====
-- internal/saver/pipeline.go: requests, status reads, reconfigurations and the close of the service
-- in any order. `requests` and `probes` have the generations that the running ones hold.
use cpa_plugin_token_saver.Common.{
  Bool, List, [], arith, false, refl, some, true, ℕ, ◌++◌, ◌+◌, ◌<◌, ◌^◌, ◌∷◌, ◌≡◌,
}
use cpa_plugin_token_saver.Config.{Config}
use cpa_plugin_token_saver.Saver.Service.{
  Made, Service, acquire, acquire_status, close, discard, new_service, reconfigure, release,
  release_status_state,
}
use cpa_plugin_token_saver.Saver.Service.Managed.{IsManaged, occurrences}

pub record System : Type 0 where
  pub service : Service
  pub requests : List ℕ
  pub probes : List ℕ

pub data Step (s : System) : System → Type 0 where
  reconfigured :
      (c : Config) (made : Made)
      → s.service.next_generation + 1 < 2 ^ 64
      → Step s (record s { service = (reconfigure s.service c made).0 })
  began :
      (a : ℕ)
      → (s.service.states s.service.current).inflight + 1 < 2 ^ 64
      → (acquire s.service).1 ≡ some a
      → Step s (record s { service = (acquire s.service).0; requests = a ∷ s.requests })
  ended :
      (a : ℕ) (before after : List ℕ)
      → s.requests ≡ before ++ a ∷ after
      → Step s (record s { service = release s.service a; requests = before ++ after })
  status_began :
      (a : ℕ)
      → (s.service.states s.service.current).inflight + 1 < 2 ^ 64
      → (acquire_status s.service).1 ≡ some a
      → Step s (record s { service = (acquire_status s.service).0; probes = a ∷ s.probes })
  status_ended :
      (a : ℕ) (before after : List ℕ)
      → s.probes ≡ before ++ a ∷ after
      → Step s (record s { service = release_status_state s.service a; probes = before ++ after })
  shut : Step s (record s { service = close s.service })

pub data Reach (s : System) : System → Type 0 where
  here : Reach s s
  next : {t u : System} → Reach s t → Step t u → Reach s u

unfoldable pub start : ℕ → System
start now = record { service = new_service now; requests = []; probes = [] }

abbrev pub held_by : List ℕ → List ℕ → ℕ → ℕ
held_by requests probes a = occurrences a requests + occurrences a probes

abbrev AllManaged : Service → (ℕ → ℕ) → Type 0
AllManaged sv held = (a : ℕ) → IsManaged (sv.states a) (held a) (occurrences a sv.closings)

-- The generations are numbered up to the current one, all but it are retired, and it is retired
-- when the service is closed.
pub record IsNumbered (sv : Service) (held : ℕ → ℕ) : Type 0 where
  pub newest : sv.current ≡ sv.next_generation
  pub unborn : (a : ℕ) → sv.next_generation < a → (held a ≡ 0) × (occurrences a sv.closings ≡ 0)
  pub replaced : (a : ℕ) → a < sv.next_generation → (sv.states a).retired ≡ true
  pub serving : (sv.states sv.current).retired ≡ sv.closed

pub record IsServed (sv : Service) (held : ℕ → ℕ) : Type 0 where
  pub managed : AllManaged sv held
  pub numbered : IsNumbered sv held

pub new_service-IsServed : (now : ℕ) → IsServed (new_service now) (λ a. 0)
unfolding new_service
new_service-IsServed now = record {
  managed = λ a. record {
    coherent = record { counted = refl; once = refl; unused = λ h. cc };
    done = λ h. cc;
  };
  numbered = record {
    newest = refl;
    unborn = λ a h. (refl, refl);
    replaced = λ a h. absurd (omega arith);
    serving = refl;
  };
}

pub discard-IsServed :
    (sv : Service) (held : ℕ → ℕ) (b : Bool) → IsServed sv held → IsServed (discard sv b) held
unfolding discard
discard-IsServed sv held true i = record {
  managed = i.managed;
  numbered = record {
    newest = i.numbered.newest;
    unborn = i.numbered.unborn;
    replaced = i.numbered.replaced;
    serving = i.numbered.serving;
  };
}
discard-IsServed sv held false i = i
