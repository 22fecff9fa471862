-- ===== src/Saver/Dedupe/Running.antt =====
-- internal/saver/dedupe.go: running work keeps its entry, and equal work runs once.
use cpa_plugin_token_saver.Common.{
  Bool, Bool-cases, Option, Option-cases, [], arith, drop, false, inl, inr, leb, length, ltb, none,
  refl, some, suc, true, zero, ℕ, ◌%◌, ◌+◌, ◌==◌, ◌^◌, ◌||◌, ◌∙◌, ◌∷◌, ◌≡◌, ◌≢◌,
}
use cpa_plugin_token_saver.Text.{Bytes}
use cpa_plugin_token_saver.Saver.Dedupe.{
  DedupeCache, DedupeEntry, Entries, WorkError, admit, dedupe_max_entries, dedupe_max_item_bytes,
  do_begin, do_finish, enforce_byte_budget_locked, evict_while, expire_each, expire_locked, fails,
  find, fresh_entry, has_expired, is_full, is_over_budget, make_room_locked,
  oldest_completed_locked, owns, remove_locked, settled,
}
use cpa_plugin_token_saver.Saver.Pipeline.{kept}
use cpa_plugin_token_saver.Saver.Dedupe.Bounds.{
  IsBounded, IsCounted, evict_while-IsWithin, expire_locked-IsWithin, remove_locked-IsWithin,
  remove_locked_cases,
}
use cpa_plugin_token_saver.Saver.Dedupe.Entries.{Distinct, find-delete_ne, find-update_ne}
use cpa_plugin_token_saver.Saver.Dedupe.Kept.{settled-IsCounted}
use cpa_plugin_token_saver.Saver.Dedupe.Oldest.{oldest-find}
use cpa_plugin_token_saver.Saver.Dedupe.Sharing.{Pending}

find-remove_locked_ne :
    (c : DedupeCache) (j k : ℕ) (x : DedupeEntry)
    → j ≢ k
    → find j (remove_locked c k x).entries ≡ find j c.entries
find-remove_locked_ne c j k x h = elim (remove_locked_cases c k x) [
  | inl e ↦ rw e
  | inr (e, _, r) ↦ rw r (find-delete_ne j k c.entries h)
]

-- The loop of `expire_locked` takes no entry of key `j` away.
abbrev Spares : ℕ → ℕ → Entries → Type 0
Spares now j [] = Unit {0}
Spares now j ((k, e) ∷ es) = (has_expired now e ≡ true → j ≢ k) × Spares now j es

Spares-absent : (now j : ℕ) (es : Entries) → find j es ≡ none → Spares now j es
unfolding find
Spares-absent now j [] h = tt
Spares-absent now j ((k, e) ∷ es) h = (λ _. ground arith, Spares-absent now j es (ground arith))

Spares-waiting :
    (now j : ℕ) (es : Entries) {x : DedupeEntry}
    → Distinct es
    → find j es ≡ some x
    → x.complete ≡ false
    → Spares now j es
unfolding find has_expired
Spares-waiting now j [] d h w = tt
Spares-waiting now j ((k, e) ∷ es) {x} d h w = elim (Bool-cases (k == j)) [
  | inl same ↦ (λ old. ground arith, Spares-absent now j es (ground (arith, d.0)))
  | inr other ↦ (λ _. ground arith, Spares-waiting now j es {x = x} d.1 (ground arith) w)
]

find-expire_each :
    (now j : ℕ) (es : Entries) (c : DedupeCache)
    → Spares now j es
    → find j (expire_each now es c).entries ≡ find j c.entries
unfolding expire_each
find-expire_each now j [] c s = refl
find-expire_each now j ((k, e) ∷ es) c s = elim (Bool-cases (has_expired now e)) [
  | inl old ↦
      rw (old, expire_each)
        (find-expire_each now j es (remove_locked c k e) s.1
          ∙ find-remove_locked_ne c j k e (s.0 old))
  | inr kept ↦ rw (kept, expire_each) (find-expire_each now j es c s.1)
]

find-evict_while :
    (over : DedupeCache → Bool) (fuel j : ℕ) (c : DedupeCache) {x : DedupeEntry}
    → IsCounted c
    → find j c.entries ≡ some x
    → x.complete ≡ false
    → find j (evict_while over fuel c).entries ≡ some x
unfolding evict_while
find-evict_while over zero j c v h w = h
find-evict_while over (suc fuel) j c {x} v h w = elim (Bool-cases (over c)) [
  | inr done ↦ rw (done, evict_while) h
  | inl more ↦ elim (Option-cases (oldest_completed_locked c)) [
    | inl nothing ↦ rw (more, nothing, evict_while) h
    | inr ((k, e), o) ↦
        let (found, done) = oldest-find c v.distinct o in
        let other : j ≢ k = ground arith in
        rw (more, o, evict_while)
          (find-evict_while over fuel j (remove_locked c k e) {x = x}
            (remove_locked-IsWithin c k e v).exact (find-remove_locked_ne c j k e other ∙ h) w)
  ]
]

find-admit :
    (c : DedupeCache) (key j : ℕ) {x : DedupeEntry}
    → find key c.entries ≡ none
    → find j c.entries ≡ some x
    → find j (admit c key).0.entries ≡ some x
unfolding find admit
find-admit c key j fresh h = ground arith

pub expire_locked-Pending :
    (c : DedupeCache) (now j seq : ℕ)
    → IsBounded c
    → Pending c j seq
    → Pending (expire_locked c now) j seq
unfolding expire_locked
expire_locked-Pending c now j seq v (x, h, s, w) = (
  x,
  find-expire_each now j c.entries c (Spares-waiting now j c.entries v.exact.distinct h w) ∙ h,
  s,
  w,
)

-- The first locked part of another call leaves a running call's entry where it is.
pub do_begin-Pending :
    (c : DedupeCache) (now key j seq : ℕ)
    → IsBounded c
    → Pending c j seq
    → Pending (do_begin c now key).0 j seq
unfolding do_begin make_room_locked
do_begin-Pending c now key j seq v pending =
    let c' = expire_locked c now in
    let v' = expire_locked-IsWithin c now v.exact in
    let (x, h, s, w) = expire_locked-Pending c now j seq v pending in
    elim (Option-cases (find key c'.entries)) [
      | inr (e, f) ↦ rw (f, do_begin) (x, h, s, w)
      | inl f ↦
          let kept = evict_while-IsWithin is_full (length c'.entries) c' v'.exact in
          let h' = find-evict_while is_full (length c'.entries) j c' {x = x} v'.exact h w in
          rw (f, do_begin) (x, find-admit (make_room_locked c') key j (kept.absent key f) h', s, w)
    ]

admit-owns :
    (c : DedupeCache) (key : ℕ) {seq : ℕ}
    → (admit c key).1 ≡ owns seq
    → Pending (admit c key).0 key seq
unfolding admit find
admit-owns c key {seq} h = elim (Bool-cases (leb dedupe_max_entries (length c.entries))) [
  | inl busy ↦ absurd (ground arith)
  | inr room ↦
      rw (room, admit) (fresh_entry ((c.sequence + 1) % 2 ^ 64), ground arith, ground arith, refl)
]

-- A call owns an entry only if no entry of its key was left.
pub do_begin-owns :
    (c : DedupeCache) (now key : ℕ) {seq : ℕ}
    → (do_begin c now key).1 ≡ owns seq
    → Pending (do_begin c now key).0 key seq × (find key (expire_locked c now).entries ≡ none)
unfolding do_begin
do_begin-owns c now key h = elim (Option-cases (find key (expire_locked c now).entries)) [
  | inr (e, f) ↦ absurd (ground arith)
  | inl f ↦
      (rw (f, do_begin) (admit-owns (make_room_locked (expire_locked c now)) key (ground arith)), f)
]

-- The second part leaves the entries of the other running calls where they are.
pub do_finish-Pending :
    (c : DedupeCache) (key seq now : ℕ) (r : Bytes × Option WorkError) (j other : ℕ)
    → IsBounded c
    → Pending c key seq
    → j ≢ key
    → Pending c j other
    → Pending (do_finish c key now r) j other
unfolding do_finish enforce_byte_budget_locked
do_finish-Pending c key seq now (value, err) j other v (e, f, _, waiting) ne (x, h, s, w) =
    elim (Bool-cases (fails err || ltb dedupe_max_item_bytes (length value))) [
      | inl drop ↦ rw drop (x, find-delete_ne j key c.entries ne ∙ h, s, w)
      | inr keep ↦
          let counted = settled-IsCounted c key now value err e v.exact f waiting in
          rw keep (
            x,
            find-evict_while is_over_budget _ j _ {x = x} counted
                (find-update_ne j key (settled now value err) c.entries ne ∙ h) w,
            s,
            w,
          )
    ]
