-- ===== src/Saver/Dedupe/Bounds.antt =====
-- internal/saver/dedupe.go: the bounds of the cache, and that every operation keeps them.
use cpa_plugin_token_saver.Common.{
  Bool, Bool-cases, Option-cases, [], arith, false, inl, inr, length, none, refl, some, suc, zero,
  ℕ, ◌+◌, ◌-◌, ◌==◌, ◌∷◌, ◌≡◌, ◌≤◌, ◌⊎◌,
}
use cpa_plugin_token_saver.Saver.Dedupe.{
  DedupeCache, DedupeEntry, Entries, dedupe_max_bytes, dedupe_max_entries, delete, evict_while,
  expire_each, expire_locked, find, has_expired, new_dedupe, oldest_completed_locked, oldest_from,
  remove_locked,
}
use cpa_plugin_token_saver.Saver.Pipeline.{kept}
use cpa_plugin_token_saver.Saver.Dedupe.Entries.{
  Distinct, Distinct-delete, find-delete-none, length-delete, total_of, total_of-delete, weight,
}
use cpa_plugin_token_saver.Saver.Dedupe.Oldest.{oldest-find}

-- The byte count is exact, and no key stands twice.
pub record IsCounted (c : DedupeCache) : Type 0 where
  pub counted : c.total_bytes ≡ total_of c.entries
  pub distinct : Distinct c.entries

pub record IsBounded (c : DedupeCache) : Type 0 where
  pub exact : IsCounted c
  pub few : length c.entries ≤ dedupe_max_entries
  pub small : c.total_bytes ≤ dedupe_max_bytes

pub new_dedupe-IsBounded : IsBounded new_dedupe
unfolding new_dedupe
new_dedupe-IsBounded = record {
  exact = record { counted = refl; distinct = tt };
  few = omega arith;
  small = omega arith;
}

-- `c'` holds some of what `c` holds.
pub record IsWithin (c c' : DedupeCache) : Type 0 where
  pub exact : IsCounted c'
  pub fewer : length c'.entries ≤ length c.entries
  pub smaller : c'.total_bytes ≤ c.total_bytes
  pub absent : (k : ℕ) → find k c.entries ≡ none → find k c'.entries ≡ none

IsWithin-refl : (c : DedupeCache) → IsCounted c → IsWithin c c
IsWithin-refl c v = record {
  exact = v;
  fewer = omega arith;
  smaller = omega arith;
  absent = λ k h. h;
}

IsWithin-trans : {a b c : DedupeCache} → IsWithin a b → IsWithin b c → IsWithin a c
IsWithin-trans p q = record {
  exact = q.exact;
  fewer = omega (arith, p.fewer, q.fewer);
  smaller = omega (arith, p.smaller, q.smaller);
  absent = λ k h. q.absent k (p.absent k h);
}

deleted-IsWithin :
    (c : DedupeCache) (k : ℕ) (e : DedupeEntry)
    → IsCounted c
    → find k c.entries ≡ some e
    → IsWithin c (record c { entries = delete k c.entries; total_bytes = c.total_bytes - weight e })
deleted-IsWithin c k e v h = record {
  exact = record {
    counted = omega (arith, v.counted, total_of-delete k c.entries h);
    distinct = Distinct-delete k c.entries v.distinct;
  };
  fewer = omega (arith, length-delete k c.entries h);
  smaller = omega arith;
  absent = λ j n. find-delete-none j k c.entries n;
}

pub remove_locked_cases :
    (c : DedupeCache) (k : ℕ) (x : DedupeEntry)
    → (remove_locked c k x ≡ c)
      ⊎ ((e : DedupeEntry) × (find k c.entries ≡ some e)
          × (remove_locked c k x
              ≡ record c { entries = delete k c.entries; total_bytes = c.total_bytes - weight e }))
unfolding remove_locked
remove_locked_cases c k x = elim (Option-cases (find k c.entries)) [
  | inl e ↦ inl (rw (e, remove_locked))
  | inr (e, h) ↦ elim (Bool-cases (e.sequence == x.sequence)) [
    | inl same ↦ inr (e, h, rw (h, same, remove_locked) (ground arith))
    | inr other ↦ inl (rw (h, other, remove_locked))
  ]
]

pub remove_locked-IsWithin :
    (c : DedupeCache) (k : ℕ) (x : DedupeEntry) → IsCounted c → IsWithin c (remove_locked c k x)
remove_locked-IsWithin c k x v = elim (remove_locked_cases c k x) [
  | inl e ↦ rw e (IsWithin-refl c v)
  | inr (e, h, r) ↦ rw r (deleted-IsWithin c k e v h)
]

expire_each-IsWithin :
    (now : ℕ) (es : Entries) (c : DedupeCache) → IsCounted c → IsWithin c (expire_each now es c)
unfolding expire_each
expire_each-IsWithin now [] c v = IsWithin-refl c v
expire_each-IsWithin now ((k, e) ∷ es) c v = elim (Bool-cases (has_expired now e)) [
  | inl old ↦
      let w = remove_locked-IsWithin c k e v in
      rw old (IsWithin-trans w (expire_each-IsWithin now es (remove_locked c k e) w.exact))
  | inr kept ↦ rw kept (expire_each-IsWithin now es c v)
]

pub expire_locked-IsWithin :
    (c : DedupeCache) (now : ℕ) → IsCounted c → IsWithin c (expire_locked c now)
unfolding expire_locked
expire_locked-IsWithin c now v = expire_each-IsWithin now c.entries c v

-- The removal of the oldest completed entry takes one entry away.
remove-oldest_length :
    (c : DedupeCache) {k : ℕ} {e : DedupeEntry}
    → IsCounted c
    → oldest_completed_locked c ≡ some (k, e)
    → length (remove_locked c k e).entries + 1 ≡ length c.entries
unfolding remove_locked
remove-oldest_length c {k} {e} v h =
    let found = (oldest-find c v.distinct h).0 in
    ground (arith, length-delete k c.entries found, found)

pub evict_while-IsWithin :
    (over : DedupeCache → Bool) (fuel : ℕ) (c : DedupeCache)
    → IsCounted c
    → IsWithin c (evict_while over fuel c)
unfolding evict_while
evict_while-IsWithin over zero c v = IsWithin-refl c v
evict_while-IsWithin over (suc fuel) c v = elim (Bool-cases (over c)) [
  | inr done ↦ rw (done, evict_while) (IsWithin-refl c v)
  | inl more ↦ elim (Option-cases (oldest_completed_locked c)) [
    | inl nothing ↦ rw (more, nothing, evict_while) (IsWithin-refl c v)
    | inr ((k, e), h) ↦
        let w = remove_locked-IsWithin c k e v in
        rw (more, h, evict_while)
          (IsWithin-trans w (evict_while-IsWithin over fuel (remove_locked c k e) w.exact))
  ]
]

no_entries : (c : DedupeCache) → length c.entries ≡ 0 → oldest_completed_locked c ≡ none
unfolding oldest_completed_locked oldest_from
no_entries c h = go c.entries h
  where
    go : (es : Entries) → length es ≡ 0 → oldest_from none es ≡ none
    go [] h = refl
    go (x ∷ es) h = absurd (omega arith)

-- The rounds of an eviction that are counted are enough: at the end the limit holds, or nothing
-- completed is left to evict.
pub evict_while_ends :
    (over : DedupeCache → Bool) (fuel : ℕ) (c : DedupeCache)
    → IsCounted c
    → length c.entries ≤ fuel
    → (over (evict_while over fuel c) ≡ false)
      ⊎ (oldest_completed_locked (evict_while over fuel c) ≡ none)
unfolding evict_while
evict_while_ends over zero c v h = inr (no_entries c (omega arith))
evict_while_ends over (suc fuel) c v h = elim (Bool-cases (over c)) [
  | inr done ↦ inl (rw (done, evict_while) done)
  | inl more ↦ elim (Option-cases (oldest_completed_locked c)) [
    | inl nothing ↦ inr (rw (more, nothing, evict_while) nothing)
    | inr ((k, e), o) ↦
        rw (more, o, evict_while)
          (evict_while_ends over fuel (remove_locked c k e) (remove_locked-IsWithin c k e v).exact
            (omega (arith, remove-oldest_length c v o)))
  ]
]
