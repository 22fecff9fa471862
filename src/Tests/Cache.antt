-- ===== src/Tests/Cache.antt =====
-- internal/saver/dedupe.go and internal/metrics/metrics.go at concrete inputs.
use cpa_plugin_token_saver.Common.{
  List, [], arith, false, inl, inr, none, pos, refl, some, true, ℕ, ◌∷◌, ◌≡◌, ◌⊎◌,
}
use cpa_plugin_token_saver.Metrics.{Outcome, Registry, Stage, new_registry}
use cpa_plugin_token_saver.Text.{codes}
use cpa_plugin_token_saver.Metrics.Generations.{IsPruned}
use cpa_plugin_token_saver.Saver.Dedupe.{
  DedupeCache, DedupeEntry, do_begin, evict_while, find, is_full, new_dedupe,
  oldest_completed_locked, oldest_from, pick,
}
use cpa_plugin_token_saver.Saver.Recording.{
  Event, IsBalanced, all_bypassed, one, record_events, record_events-new_registry-IsBalanced,
}
use cpa_plugin_token_saver.Saver.Dedupe.Bounds.{IsCounted, evict_while_ends}
use cpa_plugin_token_saver.Saver.Dedupe.Invariant.{Reach-IsShared}
use cpa_plugin_token_saver.Saver.Dedupe.Sharing.{IsShared, System, enter, here, next, owners, start}

abbrev entered : System → ℕ → ℕ → System
entered s now key = record s {
  cache = (do_begin s.cache now key).0;
  running = owners key (do_begin s.cache now key).1 s.running;
}

Reach-IsShared_example : IsShared (entered (entered start 1 7) 2 8)
Reach-IsShared_example = Reach-IsShared (next (next here (enter 1 7)) (enter 2 8))

abbrev kept_entry : ℕ → DedupeEntry
kept_entry seq = record {
  value = codes "out";
  err = none;
  expires_at = 100;
  sequence = seq;
  complete = true;
}

abbrev two_entries : DedupeCache
two_entries = record new_dedupe {
  entries = (7, kept_entry 2) ∷ (8, kept_entry 1) ∷ [];
  total_bytes = 6;
  sequence = 2;
}

two_entries-IsCounted : IsCounted two_entries
unfolding find
two_entries-IsCounted = record { counted = refl; distinct = (refl, (refl, tt)) }

evict_while_ends_example :
    (is_full (evict_while is_full 2 two_entries) ≡ false)
    ⊎ (oldest_completed_locked (evict_while is_full 2 two_entries) ≡ none)
evict_while_ends_example =
    evict_while_ends is_full 2 two_entries two_entries-IsCounted (omega arith)

oldest_of_two : oldest_completed_locked two_entries ≡ some (8, kept_entry 1)
unfolding oldest_completed_locked oldest_from pick
oldest_of_two = refl

abbrev results : List Event
results =
    one Stage.rtk Outcome.executed (pos 9) (pos 4) (pos 1) (codes "openai") (codes "claude")
    ∷ all_bypassed (pos 9) (codes "other") (codes "claude")
    ∷ []

record_events-new_registry-IsBalanced_example : IsBalanced (record_events (new_registry 0) results)
record_events-new_registry-IsBalanced_example = record_events-new_registry-IsBalanced 0 results

abbrev counted_registry : Registry
counted_registry = record (new_registry 0) { current = 1; previous = 0; inflight = (1, 2) ∷ [] }

counted_registry-IsPruned : IsPruned counted_registry
counted_registry-IsPruned = record { distinct = (tt, tt); needed = (inr (inl refl), tt) }
