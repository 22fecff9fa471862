-- ===== src/Saver/Dedupe/Kept.antt =====
-- internal/saver/dedupe.go: what `Do` makes of the bounds, and that an entry whose work still runs
-- is never removed.
use cpa_plugin_token_saver.Common.{
  Bool-cases, Option, Option-cases, arith, drop, false, inl, inr, length, ltb, none, some, ℕ, ◌+◌,
  ◌||◌, ◌≡◌, ◌≤◌,
}
use cpa_plugin_token_saver.Text.{Bytes}
use cpa_plugin_token_saver.Saver.Dedupe.{
  DedupeCache, DedupeEntry, WorkError, admit, dedupe_max_bytes, dedupe_max_item_bytes, delete,
  do_begin, do_finish, enforce_byte_budget_locked, expire_locked, fails, find, is_full,
  is_over_budget, make_room_locked, settled, update,
}
use cpa_plugin_token_saver.Saver.Dedupe.Bounds.{
  IsBounded, IsCounted, IsWithin, evict_while-IsWithin, evict_while_ends, expire_locked-IsWithin,
}
use cpa_plugin_token_saver.Saver.Dedupe.Entries.{
  Distinct-delete, Distinct-update, length-delete, length-update, total_of-delete, total_of-update,
}
use cpa_plugin_token_saver.Saver.Dedupe.Oldest.{oldest-none}
use cpa_plugin_token_saver.Saver.Dedupe.Sharing.{Pending}

evict_while_budget :
    (c : DedupeCache) → IsCounted c → (enforce_byte_budget_locked c).total_bytes ≤ dedupe_max_bytes
unfolding enforce_byte_budget_locked
evict_while_budget c v =
    let kept = evict_while-IsWithin is_over_budget (length c.entries) c v in
    elim (evict_while_ends is_over_budget (length c.entries) c v (omega arith)) [
      | inl fits ↦ ground arith
      | inr nothing ↦ omega (arith, kept.exact.counted, oldest-none _ nothing)
    ]

admit-IsBounded :
    (c : DedupeCache) (key : ℕ)
    → IsBounded c
    → find key c.entries ≡ none
    → IsBounded (admit c key).0
unfolding admit
admit-IsBounded c key v fresh = record {
  exact = record { counted = ground arith; distinct = ground arith };
  few = ground arith;
  small = ground arith;
}

IsBounded-IsWithin : {c c' : DedupeCache} → IsBounded c → IsWithin c c' → IsBounded c'
IsBounded-IsWithin v w = record {
  exact = w.exact;
  few = omega (arith, w.fewer, v.few);
  small = omega (arith, w.smaller, v.small);
}

-- The first locked part of `Do` keeps the bounds and the exact count of the cache.
pub do_begin-IsBounded :
    (c : DedupeCache) (now key : ℕ) → IsBounded c → IsBounded (do_begin c now key).0
unfolding do_begin make_room_locked
do_begin-IsBounded c now key v =
    let c' = expire_locked c now in
    let v' = IsBounded-IsWithin v (expire_locked-IsWithin c now v.exact) in
    elim (Option-cases (find key c'.entries)) [
      | inr (e, h) ↦ rw (h, do_begin) v'
      | inl h ↦
          let w = evict_while-IsWithin is_full (length c'.entries) c' v'.exact in
          rw (h, do_begin)
            (admit-IsBounded (make_room_locked c') key (IsBounded-IsWithin v' w) (w.absent key h))
    ]

pub dropped-IsBounded :
    (c : DedupeCache) (key : ℕ) (e : DedupeEntry)
    → IsBounded c
    → find key c.entries ≡ some e
    → e.complete ≡ false
    → IsBounded (record c { entries = delete key c.entries })
dropped-IsBounded c key e v h waiting = record {
  exact = record {
    counted = ground (arith, v.exact.counted, total_of-delete key c.entries h);
    distinct = Distinct-delete key c.entries v.exact.distinct;
  };
  few = omega (arith, v.few, length-delete key c.entries h);
  small = v.small;
}

pub settled-IsCounted :
    (c : DedupeCache) (key now : ℕ) (value : Bytes) (err : Option WorkError) (e : DedupeEntry)
    → IsCounted c
    → find key c.entries ≡ some e
    → e.complete ≡ false
    → IsCounted (record c {
      entries = update key (settled now value err) c.entries;
      total_bytes = c.total_bytes + length value;
    })
unfolding settled
settled-IsCounted c key now value err e v h waiting = record {
  counted = ground (arith, v.counted, total_of-update key (settled now value err) c.entries h);
  distinct = Distinct-update key (settled now value err) c.entries v.distinct;
}

-- The second locked part of `Do` keeps the bounds and the exact count of the cache, if the entry
-- still waits for its result.
pub do_finish-IsBounded :
    (c : DedupeCache) (key seq now : ℕ) (r : Bytes × Option WorkError)
    → IsBounded c
    → Pending c key seq
    → IsBounded (do_finish c key now r)
unfolding do_finish
do_finish-IsBounded c key seq now (value, err) v (e, h, _, waiting) =
    elim (Bool-cases (fails err || ltb dedupe_max_item_bytes (length value))) [
      | inl drop ↦ rw drop (dropped-IsBounded c key e v h waiting)
      | inr keep ↦
          let c' : DedupeCache = record c {
            entries = update key (settled now value err) c.entries;
            total_bytes = c.total_bytes + length value;
          } in
          let counted = settled-IsCounted c key now value err e v.exact h waiting in
          let w = evict_while-IsWithin is_over_budget (length c'.entries) c' counted in
          rw keep (record {
            exact = unfold enforce_byte_budget_locked in w.exact;
            few =
                unfold enforce_byte_budget_locked in
                omega (arith, w.fewer, v.few, length-update key (settled now value err) c.entries);
            small = evict_while_budget c' counted;
          })
    ]
