-- ===== src/Saver/Dedupe/Sharing.antt =====
-- internal/saver/dedupe.go: calls of `Do` that run at once, as the locked steps that they take.
use cpa_plugin_token_saver.Common.{List, [], false, some, ℕ, ◌++◌, ◌∷◌, ◌≡◌, ◌≢◌}
use cpa_plugin_token_saver.Saver.Dedupe.{
  Admission, DedupeCache, DedupeEntry, WorkResult, alone, do_begin, do_finish, find, new_dedupe,
  owns, run_dedupe_work, waits,
}
use cpa_plugin_token_saver.Saver.Dedupe.Bounds.{IsBounded}

-- The cache, and the key and sequence number of each call that runs its work for an entry.
pub record System : Type 0 where
  pub cache : DedupeCache
  pub running : List (ℕ × ℕ)

-- What a call that has been admitted adds to the running ones.
abbrev pub owners : ℕ → Admission → List (ℕ × ℕ) → List (ℕ × ℕ)
owners k (waits e) rs = rs
owners k alone rs = rs
owners k (owns seq) rs = (k, seq) ∷ rs

pub data Step (s : System) : System → Type 0 where
  enter :
      (now key : ℕ)
      → Step s (record s {
        cache = (do_begin s.cache now key).0;
        running = owners key (do_begin s.cache now key).1 s.running;
      })
  leave :
      (before after : List (ℕ × ℕ)) (key seq now : ℕ) (result : WorkResult)
      → s.running ≡ before ++ (key, seq) ∷ after
      → Step s (record s {
        cache = do_finish s.cache key now (run_dedupe_work result);
        running = before ++ after;
      })

pub data Reach (s : System) : System → Type 0 where
  here : Reach s s
  next : {t u : System} → Reach s t → Step t u → Reach s u

unfoldable pub start : System
start = record { cache = new_dedupe; running = [] }

-- The entry of a key is the one that a running call made, and it waits for the result.
abbrev pub Pending : DedupeCache → ℕ → ℕ → Type 0
Pending c key seq =
    (e : DedupeEntry) × (find key c.entries ≡ some e) × (e.sequence ≡ seq) × (e.complete ≡ false)

abbrev pub AllPending : DedupeCache → List (ℕ × ℕ) → Type 0
AllPending c [] = Unit {0}
AllPending c ((key, seq) ∷ rs) = Pending c key seq × AllPending c rs

abbrev pub FreshKey : ℕ → List (ℕ × ℕ) → Type 0
FreshKey k [] = Unit {0}
FreshKey k ((j, seq) ∷ rs) = (j ≢ k) × FreshKey k rs

abbrev pub DistinctKeys : List (ℕ × ℕ) → Type 0
DistinctKeys [] = Unit {0}
DistinctKeys ((j, seq) ∷ rs) = FreshKey j rs × DistinctKeys rs

pub record IsShared (s : System) : Type 0 where
  pub bounded : IsBounded s.cache
  pub pending : AllPending s.cache s.running
  pub once : DistinctKeys s.running
