-- ===== src/Metrics/Routes.antt =====
-- internal/metrics/metrics.go: the map of routes, its size and its sums.
use cpa_plugin_token_saver.Common.{
  AbsentNumber, AllBelow, Bool-cases, DistinctNumbers, List, [], arith, false, inl, inr, length,
  pigeonhole, refl, sym, true, ℕ, ◌%◌, ◌*◌, ◌+◌, ◌<◌, ◌∷◌, ◌≡◌, ◌≢◌, ◌≤◌,
}
use cpa_plugin_token_saver.Metrics.{
  Format, RouteKey, RouteStageProjection, Routes, antigravity, claude, codex, format_eq, gemini,
  interactions, key_eq, openai, openai_response, other, with_route, zero_projection,
}
use cpa_plugin_token_saver.Metrics.Totals.{modulus}

-- A reading of the projections, summed over all routes.
abbrev pub sum_routes : (RouteStageProjection → ℕ) → Routes → ℕ
sum_routes read [] = 0
sum_routes read ((k, p) ∷ rs) = read p + sum_routes read rs

-- To write one route by a function that adds `n` to a reading adds `n` to its sum.
pub with_route-adds :
    (k : RouteKey) (f : RouteStageProjection → RouteStageProjection)
    (read : RouteStageProjection → ℕ) (n : ℕ) (rs : Routes)
    → read zero_projection ≡ 0
    → ((p : RouteStageProjection) → read (f p) % modulus ≡ (read p + n) % modulus)
    → sum_routes read (with_route k f rs) % modulus ≡ (sum_routes read rs + n) % modulus
unfolding with_route
with_route-adds k f read n [] z h = omega (arith, h zero_projection)
with_route-adds k f read n ((j, p) ∷ rs) z h = elim (Bool-cases (key_eq j k)) [
  | inl same ↦ rw same (omega (arith, h p))
  | inr miss ↦ rw miss (omega (arith, with_route-adds k f read n rs z h))
]

-- A format as a number below 8, and a key as one below 64.
abbrev format_index : Format → ℕ
format_index openai = 0
format_index openai_response = 1
format_index codex = 2
format_index claude = 3
format_index gemini = 4
format_index interactions = 5
format_index antigravity = 6
format_index other = 7

abbrev key_index : RouteKey → ℕ
key_index k = 8 * format_index k.from + format_index k.to

format_index-lt : (f : Format) → format_index f < 8
format_index-lt f = ground arith

format_eq_index : (a b : Format) → format_eq a b ≡ false → format_index a ≢ format_index b
format_eq_index a b h = ground arith

format_eq-same : (a b : Format) → format_eq a b ≡ true → format_index a ≡ format_index b
format_eq-same a b h = ground arith

key_eq_index : (a b : RouteKey) → key_eq a b ≡ false → key_index a ≢ key_index b
key_eq_index a b h = elim (Bool-cases (format_eq a.from b.from)) [
  | inr differ ↦ λ e.
      format_eq_index a.from b.from differ
        (omega (arith, format_index-lt a.to, format_index-lt b.to))
  | inl same ↦ λ e.
      format_eq_index a.to b.to (ground arith) (omega (arith, format_eq-same a.from b.from same))
]

-- No route stands twice.
abbrev pub AbsentRoute : RouteKey → Routes → Type 0
AbsentRoute k [] = Unit {0}
AbsentRoute k ((j, p) ∷ rs) = (key_eq j k ≡ false) × AbsentRoute k rs

abbrev pub DistinctRoutes : Routes → Type 0
DistinctRoutes [] = Unit {0}
DistinctRoutes ((j, p) ∷ rs) = AbsentRoute j rs × DistinctRoutes rs

AbsentRoute-with_route :
    (j k : RouteKey) (f : RouteStageProjection → RouteStageProjection) (rs : Routes)
    → key_eq k j ≡ false
    → AbsentRoute j rs
    → AbsentRoute j (with_route k f rs)
unfolding with_route
AbsentRoute-with_route j k f [] ne a = (ne, tt)
AbsentRoute-with_route j k f ((i, p) ∷ rs) ne a = elim (Bool-cases (key_eq i k)) [
  | inl same ↦ rw same a
  | inr miss ↦ rw miss (a.0, AbsentRoute-with_route j k f rs ne a.1)
]

format_eq_sym : (a b : Format) → format_eq b a ≡ format_eq a b
format_eq_sym a b = ground arith

key_eq_sym : (a b : RouteKey) → key_eq a b ≡ false → key_eq b a ≡ false
key_eq_sym a b h = ground (arith, format_eq_sym a.from b.from, format_eq_sym a.to b.to)

pub DistinctRoutes-with_route :
    (k : RouteKey) (f : RouteStageProjection → RouteStageProjection) (rs : Routes)
    → DistinctRoutes rs
    → DistinctRoutes (with_route k f rs)
unfolding with_route
DistinctRoutes-with_route k f [] d = (tt, tt)
DistinctRoutes-with_route k f ((i, p) ∷ rs) d = elim (Bool-cases (key_eq i k)) [
  | inl same ↦ rw same d
  | inr miss ↦ rw miss (
    AbsentRoute-with_route i k f rs (key_eq_sym i k miss) d.0,
    DistinctRoutes-with_route k f rs d.1,
  )
]

abbrev indices : Routes → List ℕ
indices [] = []
indices ((k, p) ∷ rs) = key_index k ∷ indices rs

indices-below : (rs : Routes) → AllBelow 64 (indices rs)
indices-below [] = tt
indices-below ((k, p) ∷ rs) =
    (omega (arith, format_index-lt k.from, format_index-lt k.to), indices-below rs)

indices-absent :
    (k : RouteKey) (rs : Routes) → AbsentRoute k rs → AbsentNumber (key_index k) (indices rs)
indices-absent k [] a = tt
indices-absent k ((j, p) ∷ rs) a = ((λ e. key_eq_index j k a.0 (sym e)), indices-absent k rs a.1)

indices-distinct : (rs : Routes) → DistinctRoutes rs → DistinctNumbers (indices rs)
indices-distinct [] d = tt
indices-distinct ((k, p) ∷ rs) d = (indices-absent k rs d.0, indices-distinct rs d.1)

length-indices : (rs : Routes) → length (indices rs) ≡ length rs
length-indices [] = refl
length-indices (x ∷ rs) = omega (arith, length-indices rs)

-- Distinct routes are at most 64: eight formats on either side.
pub DistinctRoutes-bounded : (rs : Routes) → DistinctRoutes rs → length rs ≤ 64
DistinctRoutes-bounded rs d = omega (
  arith,
  length-indices rs,
  pigeonhole 64 (indices rs) (indices-below rs) (indices-distinct rs d),
)
