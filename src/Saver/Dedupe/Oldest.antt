-- ===== src/Saver/Dedupe/Oldest.antt =====
-- internal/saver/dedupe.go: which entry is evicted.
use cpa_plugin_token_saver.Common.{
  Option, [], arith, inl, inr, none, refl, some, true, ℕ, ◌∷◌, ◌≡◌, ◌≢◌, ◌≤◌, ◌⊎◌,
}
use cpa_plugin_token_saver.Saver.Dedupe.{
  DedupeCache, DedupeEntry, Entries, find, oldest_completed_locked, oldest_from, pick,
}
use cpa_plugin_token_saver.Saver.Dedupe.Entries.{Distinct, total_of}

-- `bound` holds of the sequence of every completed entry.
abbrev pub AllCompleted : (ℕ → Type 0) → Entries → Type 0
AllCompleted bound [] = Unit {0}
AllCompleted bound ((k, e) ∷ es) = (e.complete ≡ true → bound e.sequence) × AllCompleted bound es

pick-some :
    (selected : Option (ℕ × DedupeEntry)) (j : ℕ) (x : DedupeEntry) {k : ℕ} {e : DedupeEntry}
    → pick selected j x ≡ some (k, e)
    → (selected ≡ some (k, e)) ⊎ ((j ≡ k) × (x ≡ e) × (e.complete ≡ true))
unfolding pick
pick-some none j x h = ground arith
pick-some (some (i, s)) j x h = ground arith

find_behind :
    (j k : ℕ) (x e : DedupeEntry) (es : Entries)
    → find j es ≡ none
    → find k es ≡ some e
    → find k ((j, x) ∷ es) ≡ some e
unfolding find
find_behind j k x e es fresh h = ground arith

find_here :
    (j k : ℕ) (x e : DedupeEntry) (es : Entries) → j ≡ k → x ≡ e → find k ((j, x) ∷ es) ≡ some e
unfolding find
find_here j k x e es p q = ground arith

oldest_from-find :
    (es : Entries) (selected : Option (ℕ × DedupeEntry)) {k : ℕ} {e : DedupeEntry}
    → Distinct es
    → oldest_from selected es ≡ some (k, e)
    → (selected ≡ some (k, e)) ⊎ ((find k es ≡ some e) × (e.complete ≡ true))
unfolding oldest_from
oldest_from-find [] selected d h = inl h
oldest_from-find ((j, x) ∷ es) selected {k} {e} d h =
    elim (oldest_from-find es (pick selected j x) d.1 h) [
      | inr deep ↦ inr (find_behind j k x e es d.0 deep.0, deep.1)
      | inl picked ↦ elim (pick-some selected j x picked) [
        | inl before ↦ inl before
        | inr (p, q, done) ↦ inr (find_here j k x e es p q, done)
      ]
    ]

-- The evicted entry is the one of its key, and it is completed.
pub oldest-find :
    (c : DedupeCache) {k : ℕ} {e : DedupeEntry}
    → Distinct c.entries
    → oldest_completed_locked c ≡ some (k, e)
    → (find k c.entries ≡ some e) × (e.complete ≡ true)
unfolding oldest_completed_locked
oldest-find c d h = ground (arith, oldest_from-find c.entries none d h)

abbrev NotAfter : Option (ℕ × DedupeEntry) → ℕ → Type 0
NotAfter none n = Unit {0}
NotAfter (some (k, e)) n = n ≤ e.sequence

oldest_from-le :
    (es : Entries) (selected : Option (ℕ × DedupeEntry)) {k : ℕ} {e : DedupeEntry}
    → oldest_from selected es ≡ some (k, e)
    → NotAfter selected e.sequence × AllCompleted (λ n. e.sequence ≤ n) es
unfolding oldest_from pick
oldest_from-le [] none h = cc
oldest_from-le [] (some (i, s)) h = ground arith
oldest_from-le ((j, x) ∷ es) none h = ground (arith, oldest_from-le es (pick none j x) h)
oldest_from-le ((j, x) ∷ es) (some (i, s)) h =
    ground (arith, oldest_from-le es (pick (some (i, s)) j x) h)

-- The entry that is chosen to be evicted is the oldest: no completed entry has a smaller sequence
-- number.
pub oldest-le :
    (c : DedupeCache) {k : ℕ} {e : DedupeEntry}
    → oldest_completed_locked c ≡ some (k, e)
    → AllCompleted (λ n. e.sequence ≤ n) c.entries
unfolding oldest_completed_locked
oldest-le c h = (oldest_from-le c.entries none h).1

oldest_from-some : (es : Entries) (k : ℕ) (e : DedupeEntry) → oldest_from (some (k, e)) es ≢ none
unfolding oldest_from pick
oldest_from-some [] k e = ground arith
oldest_from-some ((j, x) ∷ es) k e =
    ground (arith, oldest_from-some es k e, oldest_from-some es j x)

oldest_from-none : (es : Entries) → oldest_from none es ≡ none → total_of es ≡ 0
unfolding oldest_from pick
oldest_from-none [] h = refl
oldest_from-none ((j, x) ∷ es) h = ground (arith, oldest_from-none es, oldest_from-some es j x)

-- There is none only if no entry counts towards the bytes.
pub oldest-none : (c : DedupeCache) → oldest_completed_locked c ≡ none → total_of c.entries ≡ 0
unfolding oldest_completed_locked
oldest-none c h = oldest_from-none c.entries h
