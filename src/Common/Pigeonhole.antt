-- ===== src/Common/Pigeonhole.antt =====
-- Distinct numbers below a bound are no more than the bound.
use Prim.Native.Nat.{ℕ, zero, suc, ◌+◌, ◌≤◌, ◌<◌}
use mathlib.Core.Path.{◌≡◌, refl}
use mathlib.Core.Logic.{◌≢◌, inl, inr}
use mathlib.Core.List.{List, [], ◌∷◌}
use native.Mathlib.Omega.{arith}
use cpa_plugin_token_saver.Common.Tests.{◌==◌, if◌then◌else◌, Bool-cases, ==_iff}
use cpa_plugin_token_saver.Common.Lists.{length}

abbrev pub AllBelow : ℕ → List ℕ → Type 0
AllBelow n [] = Unit {0}
AllBelow n (x ∷ xs) = (x < n) × AllBelow n xs

abbrev pub AbsentNumber : ℕ → List ℕ → Type 0
AbsentNumber n [] = Unit {0}
AbsentNumber n (x ∷ xs) = (n ≢ x) × AbsentNumber n xs

abbrev pub DistinctNumbers : List ℕ → Type 0
DistinctNumbers [] = Unit {0}
DistinctNumbers (x ∷ xs) = AbsentNumber x xs × DistinctNumbers xs

without : ℕ → List ℕ → List ℕ
without n [] = []
without n (x ∷ xs) = let rest = without n xs in if n == x then rest else x ∷ rest

without_absent : (n : ℕ) (xs : List ℕ) → AbsentNumber n xs → length (without n xs) ≡ length xs
unfolding without
without_absent n [] a = refl
without_absent n (x ∷ xs) a = ground (arith, without_absent n xs a.1)

length-without : (n : ℕ) (xs : List ℕ) → DistinctNumbers xs → length xs ≤ length (without n xs) + 1
unfolding without
length-without n [] d = omega arith
length-without n (x ∷ xs) d = elim (Bool-cases (n == x)) [
  | inl same ↦ rw same (omega (arith, without_absent n xs (go n x xs ((==_iff n x).0 same) d.0)))
  | inr different ↦ rw different (omega (arith, length-without n xs d.1))
]
  where
    go : (a b : ℕ) (ys : List ℕ) → a ≡ b → AbsentNumber b ys → AbsentNumber a ys
    go a b [] e u = tt
    go a b (y ∷ ys) e u = ((λ p. u.0 (omega arith)), go a b ys e u.1)

absent-without : (m n : ℕ) (xs : List ℕ) → AbsentNumber m xs → AbsentNumber m (without n xs)
unfolding without
absent-without m n [] a = tt
absent-without m n (x ∷ xs) a = ground (arith, absent-without m n xs a.1)

distinct-without : (n : ℕ) (xs : List ℕ) → DistinctNumbers xs → DistinctNumbers (without n xs)
unfolding without
distinct-without n [] d = tt
distinct-without n (x ∷ xs) d = ground (arith, distinct-without n xs d.1, absent-without x n xs d.0)

below-without : (n : ℕ) (xs : List ℕ) → AllBelow (suc n) xs → AllBelow n (without n xs)
unfolding without
below-without n [] b = tt
below-without n (x ∷ xs) b = ground (arith, below-without n xs b.1)

pub pigeonhole : (n : ℕ) (xs : List ℕ) → AllBelow n xs → DistinctNumbers xs → length xs ≤ n
pigeonhole n [] b d = omega arith
pigeonhole zero (x ∷ xs) b d = absurd (omega arith)
pigeonhole (suc n) (x ∷ xs) b d = omega (
  arith,
  length-without n (x ∷ xs) d,
  pigeonhole n (without n (x ∷ xs)) (below-without n (x ∷ xs) b) (distinct-without n (x ∷ xs) d),
)
