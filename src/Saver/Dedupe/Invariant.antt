-- ===== src/Saver/Dedupe/Invariant.antt =====
-- internal/saver/dedupe.go: what holds of the cache however the calls of `Do` interleave.
use cpa_plugin_token_saver.Common.{
  List, Option, [], arith, none, refl, subst, sym, ℕ, ◌++◌, ◌∷◌, ◌≡◌, ◌≢◌,
}
use cpa_plugin_token_saver.Text.{Bytes}
use cpa_plugin_token_saver.Saver.Dedupe.{
  Admission, DedupeCache, WorkError, alone, do_begin, do_finish, expire_locked, find, owns,
  run_dedupe_work, waits,
}
use cpa_plugin_token_saver.Saver.Dedupe.Bounds.{IsBounded, new_dedupe-IsBounded}
use cpa_plugin_token_saver.Saver.Dedupe.Kept.{do_begin-IsBounded, do_finish-IsBounded}
use cpa_plugin_token_saver.Saver.Dedupe.Running.{
  do_begin-Pending, do_begin-owns, do_finish-Pending, expire_locked-Pending,
}
use cpa_plugin_token_saver.Saver.Dedupe.Sharing.{
  AllPending, DistinctKeys, FreshKey, IsShared, Pending, Reach, Step, System, enter, here, leave,
  next, owners, start,
}

AllPending-map :
    (c c' : DedupeCache) (rs : List (ℕ × ℕ))
    → ((j other : ℕ) → Pending c j other → Pending c' j other)
    → AllPending c rs
    → AllPending c' rs
AllPending-map c c' [] f a = tt
AllPending-map c c' ((j, o) ∷ rs) f a = (f j o a.0, AllPending-map c c' rs f a.1)

absent-FreshKey :
    (c : DedupeCache) (key : ℕ) (rs : List (ℕ × ℕ))
    → find key c.entries ≡ none
    → AllPending c rs
    → FreshKey key rs
absent-FreshKey c key [] h a = tt
absent-FreshKey c key ((j, o) ∷ rs) h a =
    let (x, found, _, _) = a.0 in (λ e. ground (arith, found), absent-FreshKey c key rs h a.1)

AllPending-at :
    (c : DedupeCache) (before after : List (ℕ × ℕ)) (key seq : ℕ)
    → AllPending c (before ++ (key, seq) ∷ after)
    → Pending c key seq
AllPending-at c [] after key seq a = a.0
AllPending-at c ((j, o) ∷ before) after key seq a = AllPending-at c before after key seq a.1

-- The other calls than one, each with the fact that its key differs.
AllPending-others :
    (c c' : DedupeCache) (before after : List (ℕ × ℕ)) (key seq : ℕ)
    → ((j other : ℕ) → j ≢ key → Pending c j other → Pending c' j other)
    → FreshKey key (before ++ after)
    → AllPending c (before ++ (key, seq) ∷ after)
    → AllPending c' (before ++ after)
AllPending-others c c' [] after key seq f fresh a = go after fresh a.1
  where
    go : (rs : List (ℕ × ℕ)) → FreshKey key rs → AllPending c rs → AllPending c' rs
    go [] u b = tt
    go ((j, o) ∷ rs) u b = (f j o u.0 b.0, go rs u.1 b.1)
AllPending-others c c' ((j, o) ∷ before) after key seq f fresh a =
    (f j o fresh.0 a.0, AllPending-others c c' before after key seq f fresh.1 a.1)

FreshKey-drop :
    (k : ℕ) (before after : List (ℕ × ℕ)) (key seq : ℕ)
    → FreshKey k (before ++ (key, seq) ∷ after)
    → (key ≢ k) × FreshKey k (before ++ after)
FreshKey-drop k [] after key seq f = f
FreshKey-drop k ((j, o) ∷ before) after key seq f =
    let (ne, rest) = FreshKey-drop k before after key seq f.1 in (ne, (f.0, rest))

DistinctKeys-drop :
    (before after : List (ℕ × ℕ)) (key seq : ℕ)
    → DistinctKeys (before ++ (key, seq) ∷ after)
    → FreshKey key (before ++ after) × DistinctKeys (before ++ after)
DistinctKeys-drop [] after key seq d = d
DistinctKeys-drop ((j, o) ∷ before) after key seq d =
    let (fresh, rest) = DistinctKeys-drop before after key seq d.1 in
    let (ne, others) = FreshKey-drop j before after key seq d.0 in
    ((λ e. ne (sym e), fresh), (others, rest))

enter-IsShared :
    (s : System) (now key : ℕ) (a : Admission)
    → (do_begin s.cache now key).1 ≡ a
    → IsShared s
    → IsShared (record s { cache = (do_begin s.cache now key).0; running = owners key a s.running })
enter-IsShared s now key (waits x) e i = record {
  bounded = do_begin-IsBounded s.cache now key i.bounded;
  pending =
      AllPending-map s.cache (do_begin s.cache now key).0 s.running
        (λ j o. do_begin-Pending s.cache now key j o i.bounded) i.pending;
  once = i.once;
}
enter-IsShared s now key alone e i = record {
  bounded = do_begin-IsBounded s.cache now key i.bounded;
  pending =
      AllPending-map s.cache (do_begin s.cache now key).0 s.running
        (λ j o. do_begin-Pending s.cache now key j o i.bounded) i.pending;
  once = i.once;
}
enter-IsShared s now key (owns seq) e i =
    let (own, absent) = do_begin-owns s.cache now key e in
    record {
      bounded = do_begin-IsBounded s.cache now key i.bounded;
      pending = (
        own,
        AllPending-map s.cache (do_begin s.cache now key).0 s.running
            (λ j o. do_begin-Pending s.cache now key j o i.bounded) i.pending,
      );
      once = (
        absent-FreshKey (expire_locked s.cache now) key s.running absent (
            AllPending-map s.cache (expire_locked s.cache now) s.running
              (λ j o. expire_locked-Pending s.cache now j o i.bounded) i.pending),
        i.once,
      );
    }

leave-IsShared :
    (s : System) (before after : List (ℕ × ℕ)) (key seq now : ℕ) (r : Bytes × Option WorkError)
    → IsBounded s.cache
    → AllPending s.cache (before ++ (key, seq) ∷ after)
    → DistinctKeys (before ++ (key, seq) ∷ after)
    → IsShared (record { cache = do_finish s.cache key now r; running = before ++ after })
leave-IsShared s before after key seq now r v a d =
    let own = AllPending-at s.cache before after key seq a in
    let (fresh, rest) = DistinctKeys-drop before after key seq d in
    record {
      bounded = do_finish-IsBounded s.cache key seq now r v own;
      pending =
          AllPending-others s.cache (do_finish s.cache key now r) before after key seq
            (λ j o ne. do_finish-Pending s.cache key seq now r j o v own ne) fresh a;
      once = rest;
    }

Step-IsShared : {s t : System} → Step s t → IsShared s → IsShared t
Step-IsShared {s} (enter now key) i = enter-IsShared s now key (do_begin s.cache now key).1 refl i
Step-IsShared {s} (leave before after key seq now result e) i =
    leave-IsShared s before after key seq now (run_dedupe_work result) i.bounded
      (subst (AllPending s.cache) e i.pending) (subst DistinctKeys e i.once)

-- However the calls of the result cache interleave, it has at most `dedupe_max_entries` entries and
-- at most `dedupe_max_bytes` bytes, counted exactly; the entry of each call whose work runs is in
-- its place, unfinished; and no two calls run work for entries of one key.
pub Reach-IsShared : {s : System} → Reach start s → IsShared s
unfolding start
Reach-IsShared here = record { bounded = new_dedupe-IsBounded; pending = tt; once = tt }
Reach-IsShared (next r st) = Step-IsShared st (Reach-IsShared r)
