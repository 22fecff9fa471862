-- ===== src/Saver/Dedupe.antt =====
-- internal/saver/dedupe.go: the cache that coalesces equal requests. A key is the number that a
-- SHA-256 sum stands for, a time is in nanoseconds, and the map of entries is an association list.
use cpa_plugin_token_saver.Common.{
  Bool, List, Option, [], false, if◌then◌else◌, leb, length, ltb, none, not, some, suc, true, zero,
  ℕ, ◌%◌, ◌&&◌, ◌*◌, ◌+◌, ◌-◌, ◌==◌, ◌^◌, ◌||◌, ◌∷◌,
}
use cpa_plugin_token_saver.Text.{Bytes}
pub mod Entries
pub mod Oldest
pub mod Bounds
pub mod Sharing
pub mod Kept
pub mod Running
pub mod Invariant

abbrev pub dedupe_ttl : ℕ
dedupe_ttl = 5 * 1_000_000_000

abbrev pub dedupe_max_entries : ℕ
dedupe_max_entries = 64

abbrev pub dedupe_max_bytes : ℕ
dedupe_max_bytes = 8_388_608

abbrev pub dedupe_max_item_bytes : ℕ
dedupe_max_item_bytes = 1_048_576

pub data WorkError : Type 0 where
  work_panic : WorkError
  work_error : ℕ → WorkError

-- `sequence` tells entries apart, as their addresses do in the source.
pub record DedupeEntry : Type 0 where
  pub value : Bytes
  pub err : Option WorkError
  pub expires_at : ℕ
  pub sequence : ℕ
  pub complete : Bool

abbrev pub Entries : Type 0
Entries = List (ℕ × DedupeEntry)

pub record DedupeCache : Type 0 where
  pub entries : Entries
  pub sequence : ℕ  -- uint64
  pub total_bytes : ℕ

unfoldable pub new_dedupe : DedupeCache
new_dedupe = record { entries = []; sequence = 0; total_bytes = 0 }

unfoldable pub find : ℕ → Entries → Option DedupeEntry
find k [] = none
find k ((j, e) ∷ es) = if j == k then some e else find k es

unfoldable pub delete : ℕ → Entries → Entries
delete k [] = []
delete k ((j, e) ∷ es) = if j == k then es else (j, e) ∷ delete k es

-- The write through the pointer to the entry of a key.
unfoldable pub update : ℕ → (DedupeEntry → DedupeEntry) → Entries → Entries
update k f [] = []
update k f ((j, e) ∷ es) = if j == k then (j, f e) ∷ es else (j, e) ∷ update k f es

-- What a call of `work` comes to.
pub data WorkResult : Type 0 where
  returned : Bytes → Option WorkError → WorkResult
  panicked : WorkResult

unfoldable pub run_dedupe_work : WorkResult → Bytes × Option WorkError
run_dedupe_work (returned value err) = (value, err)
run_dedupe_work panicked = ([], some work_panic)

-- The clamp at 0 is that of the subtraction on ℕ.
unfoldable pub remove_locked : DedupeCache → ℕ → DedupeEntry → DedupeCache
remove_locked c key entry = elim (find key c.entries) [
  | none ↦ c
  | some current ↦
      if not (current.sequence == entry.sequence)
      then c
      else (if current.complete
          then record c {
            entries = delete key c.entries;
            total_bytes = c.total_bytes - length current.value;
          }
          else record c { entries = delete key c.entries })
]

unfoldable pub has_expired : ℕ → DedupeEntry → Bool
has_expired now e = e.complete && not (ltb now e.expires_at)

-- The loop over the entries that were there at its start.
unfoldable pub expire_each : ℕ → Entries → DedupeCache → DedupeCache
expire_each now [] c = c
expire_each now ((k, e) ∷ es) c =
    expire_each now es (if has_expired now e then remove_locked c k e else c)

unfoldable pub expire_locked : DedupeCache → ℕ → DedupeCache
expire_locked c now = expire_each now c.entries c

unfoldable pub pick : Option (ℕ × DedupeEntry) → ℕ → DedupeEntry → Option (ℕ × DedupeEntry)
pick none k e = if not e.complete then none else some (k, e)
pick (some (j, s)) k e =
    if not e.complete || leb s.sequence e.sequence then some (j, s) else some (k, e)

unfoldable pub oldest_from : Option (ℕ × DedupeEntry) → Entries → Option (ℕ × DedupeEntry)
oldest_from selected [] = selected
oldest_from selected ((k, e) ∷ es) = oldest_from (pick selected k e) es

unfoldable pub oldest_completed_locked : DedupeCache → Option (ℕ × DedupeEntry)
oldest_completed_locked c = oldest_from none c.entries

-- Removes the oldest completed entry while `over` holds of the cache and there is one. A round
-- removes an entry, so their number is enough fuel.
unfoldable pub evict_while : (DedupeCache → Bool) → ℕ → DedupeCache → DedupeCache
evict_while over zero c = c
evict_while over (suc fuel) c = elim (over c) [
  | false ↦ c
  | true ↦ elim (oldest_completed_locked c) [
    | none ↦ c
    | some (k, e) ↦ evict_while over fuel (remove_locked c k e)
  ]
]

abbrev pub is_full : DedupeCache → Bool
is_full c = leb dedupe_max_entries (length c.entries)

unfoldable pub make_room_locked : DedupeCache → DedupeCache
make_room_locked c = evict_while is_full (length c.entries) c

abbrev pub is_over_budget : DedupeCache → Bool
is_over_budget c = ltb dedupe_max_bytes c.total_bytes

unfoldable pub enforce_byte_budget_locked : DedupeCache → DedupeCache
enforce_byte_budget_locked c = evict_while is_over_budget (length c.entries) c

-- How `Do` goes on after its first locked part: it waits for the entry of another call, runs the
-- work outside the cache, or runs it for a new entry.
pub data Admission : Type 0 where
  waits : DedupeEntry → Admission
  alone : Admission
  owns : ℕ → Admission

-- The entry of a call that is about to run its work.
unfoldable pub fresh_entry : ℕ → DedupeEntry
fresh_entry seq = record {
  value = [];
  err = none;
  expires_at = 0;
  sequence = seq;
  complete = false;
}

unfoldable pub admit : DedupeCache → ℕ → DedupeCache × Admission
unfolding fresh_entry
admit c key =
    if leb dedupe_max_entries (length c.entries)
    then (c, alone)
    else (let seq = (c.sequence + 1) % 2 ^ 64 in
        (record c { sequence = seq; entries = (key, fresh_entry seq) ∷ c.entries }, owns seq))

unfoldable pub do_begin : DedupeCache → ℕ → ℕ → DedupeCache × Admission
do_begin c now key =
    let c' = expire_locked c now in
    elim (find key c'.entries) [
      | some existing ↦ (c', waits existing)
      | none ↦ admit (make_room_locked c') key
    ]

abbrev pub fails : Option WorkError → Bool
fails none = false
fails (some e) = true

-- The entry of a call once its work has come to `value` and `err`.
unfoldable pub settled : ℕ → Bytes → Option WorkError → DedupeEntry → DedupeEntry
settled now value err e = record e {
  value = value;
  err = err;
  complete = true;
  expires_at = now + dedupe_ttl;
}

-- The second locked part, after the work has come to `value` and `err` at the time `now`.
unfoldable pub do_finish : DedupeCache → ℕ → ℕ → Bytes × Option WorkError → DedupeCache
do_finish c key now (value, err) =
    if fails err || ltb dedupe_max_item_bytes (length value)
    then record c { entries = delete key c.entries }
    else enforce_byte_budget_locked (record c {
      entries = update key (settled now value err) c.entries;
      total_bytes = c.total_bytes + length value;
    })
