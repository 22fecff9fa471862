-- ===== src/Metrics/Generations.antt =====
-- internal/metrics/metrics.go: the count of running requests by configuration generation.
use cpa_plugin_token_saver.Common.{
  ==_iff, Bool-cases, List, [], arith, false, if◌then◌else◌, inl, inr, ltb, not, subst, ℕ, ◌&&◌,
  ◌+◌, ◌-◌, ◌<◌, ◌==◌, ◌^◌, ◌||◌, ◌∷◌, ◌≡◌, ◌≢◌, ◌⊎◌,
}
use cpa_plugin_token_saver.Metrics.{Registry, u64}

-- Reads the map of counts; a missing key reads 0.
unfoldable pub count_of : ℕ → List (ℕ × ℕ) → ℕ
count_of g [] = 0
count_of g ((h, n) ∷ m) = if h == g then n else count_of g m

unfoldable pub put : ℕ → ℕ → List (ℕ × ℕ) → List (ℕ × ℕ)
put g n [] = (g, n) ∷ []
put g n ((h, k) ∷ m) = if h == g then (h, n) ∷ m else (h, k) ∷ put g n m

unfoldable pub drop_key : ℕ → List (ℕ × ℕ) → List (ℕ × ℕ)
drop_key g [] = []
drop_key g ((h, k) ∷ m) = let rest = drop_key g m in if h == g then rest else (h, k) ∷ rest

unfoldable pub publish_generation : Registry → ℕ → Registry
publish_generation r generation =
    if r.current == generation
    then r
    else (let stale = r.previous in
        let r' : Registry = record r { previous = r.current; current = generation } in
        if not (stale == r'.current)
          && not (stale == r'.previous)
          && count_of stale r'.inflight == 0
        then record r' { inflight = drop_key stale r'.inflight }
        else r')

-- `Begin`; its completion hook is `end_request`, which runs once.
unfoldable pub begin_request : Registry → ℕ → Registry
begin_request r g = record r { inflight = put g (u64 (count_of g r.inflight + 1)) r.inflight }

-- The end of `end_request`, over the counts as they stand then.
unfoldable pub prune : Registry → ℕ → List (ℕ × ℕ) → Registry
prune r g m =
    if count_of g m == 0 && not (g == r.current) && not (g == r.previous)
    then record r { inflight = drop_key g m }
    else record r { inflight = m }

unfoldable pub end_request : Registry → ℕ → Registry
unfolding prune
end_request r g =
    let m =
      if ltb 0 (count_of g r.inflight)
      then put g (count_of g r.inflight - 1) r.inflight
      else r.inflight in
    prune r g m

-- A snapshot of the two generations that are shown.
pub record GenerationSnapshot : Type 0 where
  pub generation : ℕ
  pub in_flight : ℕ

unfoldable pub snapshot_current : Registry → GenerationSnapshot
snapshot_current r = record { generation = r.current; in_flight = count_of r.current r.inflight }

unfoldable pub snapshot_previous : Registry → GenerationSnapshot
snapshot_previous r = record { generation = r.previous; in_flight = count_of r.previous r.inflight }

-- `g` is not a key of the map.
abbrev pub AbsentKey : ℕ → List (ℕ × ℕ) → Type 0
AbsentKey g [] = Unit {0}
AbsentKey g ((h, n) ∷ m) = (h ≢ g) × AbsentKey g m

abbrev pub DistinctMap : List (ℕ × ℕ) → Type 0
DistinctMap [] = Unit {0}
DistinctMap ((h, n) ∷ m) = AbsentKey h m × DistinctMap m

-- Every generation that the map still holds runs a request, or is the current or the previous one.
abbrev pub AllNeeded : ℕ → ℕ → List (ℕ × ℕ) → Type 0
AllNeeded current previous [] = Unit {0}
AllNeeded current previous ((g, n) ∷ m) =
    ((0 < n) ⊎ (g ≡ current) ⊎ (g ≡ previous)) × AllNeeded current previous m

pub record IsPruned (r : Registry) : Type 0 where
  pub distinct : DistinctMap r.inflight
  pub needed : AllNeeded r.current r.previous r.inflight

AbsentKey-put : (h g n : ℕ) (m : List (ℕ × ℕ)) → g ≢ h → AbsentKey h m → AbsentKey h (put g n m)
unfolding put
AbsentKey-put h g n [] ne a = (ne, tt)
AbsentKey-put h g n ((k, x) ∷ m) ne a = ground (arith, AbsentKey-put h g n m ne a.1)

DistinctMap-put : (g n : ℕ) (m : List (ℕ × ℕ)) → DistinctMap m → DistinctMap (put g n m)
unfolding put
DistinctMap-put g n [] d = (tt, tt)
DistinctMap-put g n ((k, x) ∷ m) d = elim (Bool-cases (k == g)) [
  | inl same ↦ rw same d
  | inr miss ↦ rw miss (AbsentKey-put k g n m (λ e. ground arith) d.0, DistinctMap-put g n m d.1)
]

AbsentKey-drop_key : (h g : ℕ) (m : List (ℕ × ℕ)) → AbsentKey h m → AbsentKey h (drop_key g m)
unfolding drop_key
AbsentKey-drop_key h g [] a = tt
AbsentKey-drop_key h g ((k, x) ∷ m) a = ground (arith, AbsentKey-drop_key h g m a.1)

DistinctMap-drop_key : (g : ℕ) (m : List (ℕ × ℕ)) → DistinctMap m → DistinctMap (drop_key g m)
unfolding drop_key
DistinctMap-drop_key g [] d = tt
DistinctMap-drop_key g ((k, x) ∷ m) d =
    ground (arith, DistinctMap-drop_key g m d.1, AbsentKey-drop_key k g m d.0)

AllNeeded-put :
    (cur prev g n : ℕ) (m : List (ℕ × ℕ))
    → (0 < n) ⊎ (g ≡ cur) ⊎ (g ≡ prev)
    → AllNeeded cur prev m
    → AllNeeded cur prev (put g n m)
unfolding put
AllNeeded-put cur prev g n [] w a = (w, tt)
AllNeeded-put cur prev g n ((h, k) ∷ m) w a = elim (Bool-cases (h == g)) [
  | inl same ↦ rw same (ground arith, a.1)
  | inr miss ↦ rw miss (a.0, AllNeeded-put cur prev g n m w a.1)
]

AllNeeded-drop_key :
    (cur prev g : ℕ) (m : List (ℕ × ℕ)) → AllNeeded cur prev m → AllNeeded cur prev (drop_key g m)
unfolding drop_key
AllNeeded-drop_key cur prev g [] a = tt
AllNeeded-drop_key cur prev g ((h, k) ∷ m) a = elim (Bool-cases (h == g)) [
  | inl same ↦ rw same (AllNeeded-drop_key cur prev g m a.1)
  | inr miss ↦ rw miss (a.0, AllNeeded-drop_key cur prev g m a.1)
]

AllNeeded-drop_put :
    (cur prev g n : ℕ) (m : List (ℕ × ℕ))
    → AllNeeded cur prev m
    → AllNeeded cur prev (drop_key g (put g n m))
unfolding drop_key put
AllNeeded-drop_put cur prev g n [] a = ground arith
AllNeeded-drop_put cur prev g n ((h, k) ∷ m) a = elim (Bool-cases (h == g)) [
  | inl same ↦ rw (same, same) (AllNeeded-drop_key cur prev g m a.1)
  | inr miss ↦ rw (miss, miss) (a.0, AllNeeded-drop_put cur prev g n m a.1)
]

count_of-put_self : (g n : ℕ) (m : List (ℕ × ℕ)) → count_of g (put g n m) ≡ n
unfolding count_of put
count_of-put_self g n [] = ground arith
count_of-put_self g n ((h, k) ∷ m) = ground (arith, count_of-put_self g n m)

-- To move on to the generation `next` needs the entries of the previous one no more.
renew_absent :
    (next cur prev : ℕ) (m : List (ℕ × ℕ))
    → AbsentKey prev m
    → AllNeeded cur prev m
    → AllNeeded next cur m
renew_absent next cur prev [] u a = tt
renew_absent next cur prev ((h, k) ∷ m) u a =
    (ground (arith, u.0), renew_absent next cur prev m u.1 a.1)

renew_counted :
    (next cur prev : ℕ) (m : List (ℕ × ℕ))
    → DistinctMap m
    → 0 < count_of prev m
    → AllNeeded cur prev m
    → AllNeeded next cur m
unfolding count_of
renew_counted next cur prev [] d c a = tt
renew_counted next cur prev ((h, k) ∷ m) d c a = elim (Bool-cases (h == prev)) [
  | inl same ↦
      let same' = (==_iff h prev).0 same in
      let busy : 0 < k = rw same at c in
      (inl busy, renew_absent next cur prev m (subst (λ x. AbsentKey x m) same' d.0) a.1)
  | inr miss ↦ (ground arith, renew_counted next cur prev m d.1 (rw miss at c) a.1)
]

renew_shown :
    (next cur prev : ℕ) (m : List (ℕ × ℕ))
    → (prev ≡ next) ⊎ (prev ≡ cur)
    → AllNeeded cur prev m
    → AllNeeded next cur m
renew_shown next cur prev [] s a = tt
renew_shown next cur prev ((h, k) ∷ m) s a = (ground arith, renew_shown next cur prev m s a.1)

AbsentKey-drop_self : (g : ℕ) (m : List (ℕ × ℕ)) → AbsentKey g (drop_key g m)
unfolding drop_key
AbsentKey-drop_self g [] = tt
AbsentKey-drop_self g ((h, k) ∷ m) = ground (arith, AbsentKey-drop_self g m)

renew_kept :
    (r : Registry) (next : ℕ)
    → IsPruned r
    → (not (r.previous == next)
        && not (r.previous == r.current)
        && count_of r.previous r.inflight == 0)
      ≡ false
    → AllNeeded next r.current r.inflight
renew_kept r next v kept = elim (Bool-cases (r.previous == next || r.previous == r.current)) [
  | inl shown ↦ renew_shown next r.current r.previous r.inflight (ground arith) v.needed
  | inr hidden ↦
      renew_counted next r.current r.previous r.inflight v.distinct (ground arith) v.needed
]

-- The publication of a generation leaves no generation among the counts but the current one, the
-- previous one and those that run a request.
pub publish_generation-IsPruned :
    (r : Registry) (next : ℕ) → IsPruned r → IsPruned (publish_generation r next)
unfolding publish_generation
publish_generation-IsPruned r next v = elim (Bool-cases (r.current == next)) [
  | inl same ↦ rw (same, publish_generation) v
  | inr moved ↦
      elim (Bool-cases (
        not (r.previous == next)
        && not (r.previous == r.current)
        && count_of r.previous r.inflight == 0)) [
          | inl stale ↦
              rw (moved, stale)
                (record {
                  distinct = DistinctMap-drop_key r.previous r.inflight v.distinct;
                  needed =
                      renew_absent next r.current r.previous (drop_key r.previous r.inflight)
                        (AbsentKey-drop_self r.previous r.inflight)
                        (AllNeeded-drop_key r.current r.previous r.previous r.inflight v.needed);
                })
          | inr kept ↦
              rw (moved, kept) (record { distinct = v.distinct; needed = renew_kept r next v kept })
        ]
]

pub begin_request-IsPruned :
    (r : Registry) (g : ℕ)
    → count_of g r.inflight + 1 < 2 ^ 64
    → IsPruned r
    → IsPruned (begin_request r g)
unfolding begin_request
begin_request-IsPruned r g h v = record {
  distinct = DistinctMap-put g (u64 (count_of g r.inflight + 1)) r.inflight v.distinct;
  needed =
      AllNeeded-put r.current r.previous g (u64 (count_of g r.inflight + 1)) r.inflight
        (inl (omega arith)) v.needed;
}

prune-IsPruned :
    (r : Registry) (g : ℕ) (m : List (ℕ × ℕ))
    → DistinctMap m
    → AllNeeded r.current r.previous (drop_key g m)
    → ((count_of g m == 0 && not (g == r.current) && not (g == r.previous)) ≡ false
        → AllNeeded r.current r.previous m)
    → IsPruned (prune r g m)
unfolding prune
prune-IsPruned r g m d dropped kept =
    elim (Bool-cases (count_of g m == 0 && not (g == r.current) && not (g == r.previous))) [
      | inl gone ↦ rw gone (record { distinct = DistinctMap-drop_key g m d; needed = dropped })
      | inr stays ↦ rw stays (record { distinct = d; needed = kept stays })
    ]

-- The end of a request leaves no generation among the counts but the current one, the previous one
-- and those that run a request.
pub end_request-IsPruned : (r : Registry) (g : ℕ) → IsPruned r → IsPruned (end_request r g)
unfolding end_request
end_request-IsPruned r g v = elim (Bool-cases (ltb 0 (count_of g r.inflight))) [
  | inl busy ↦
      let n = count_of g r.inflight - 1 in
      rw busy (
        prune-IsPruned r g (put g n r.inflight) (DistinctMap-put g n r.inflight v.distinct)
          (AllNeeded-drop_put r.current r.previous g n r.inflight v.needed)
          (λ stays.
            AllNeeded-put r.current r.previous g n r.inflight
              (ground (arith, count_of-put_self g n r.inflight)) v.needed))
  | inr quiet ↦ rw quiet (
      prune-IsPruned r g r.inflight v.distinct
        (AllNeeded-drop_key r.current r.previous g r.inflight v.needed) (λ stays. v.needed))
]
