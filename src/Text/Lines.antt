-- ===== src/Text/Lines.antt =====
-- strings.Split by a one-byte separator, and strings.Join.
use cpa_plugin_token_saver.Common.{
  ==_iff, Bool-cases, List, [], ap, arith, if◌then◌else◌, inl, inr, length, refl, subst, sym, ℕ,
  ◌++◌, ◌<◌, ◌==◌, ◌∙◌, ◌∷◌, ◌≡◌,
}
pub mod Free

-- Puts a byte at the front of the first part; there always is one.
unfoldable pub cons_head : ℕ → List (List ℕ) → List (List ℕ)
cons_head c [] = (c ∷ []) ∷ []
cons_head c (l ∷ ls) = (c ∷ l) ∷ ls

unfoldable pub split : ℕ → List ℕ → List (List ℕ)
unfolding cons_head
split sep [] = [] ∷ []
split sep (c ∷ s) = let rest = split sep s in if c == sep then [] ∷ rest else cons_head c rest

unfoldable pub join : List ℕ → List (List ℕ) → List ℕ
join sep [] = []
join sep (x ∷ []) = x
join sep (x ∷ y ∷ ys) = x ++ (sep ++ join sep (y ∷ ys))

abbrev pub newline : ℕ
newline = 10

unfoldable pub lines : List ℕ → List (List ℕ)
unfolding split
lines s = split newline s

unfoldable pub unlines : List (List ℕ) → List ℕ
unfolding join
unlines ls = join (newline ∷ []) ls

split-cons : (sep : ℕ) (s : List ℕ) → (l : List ℕ) × (ls : List (List ℕ)) × (split sep s ≡ l ∷ ls)
unfolding split
split-cons sep [] = ([], [], refl)
split-cons sep (c ∷ s) =
    let (l, ls, e) = split-cons sep s in
    elim (Bool-cases (c == sep)) [
      | inl h ↦ ([], l ∷ ls, ground arith)
      | inr h ↦ (c ∷ l, ls, ground arith)
    ]

join-cons_head :
    (sep c : ℕ) (l : List ℕ) (ls : List (List ℕ))
    → join (sep ∷ []) (cons_head c (l ∷ ls)) ≡ c ∷ join (sep ∷ []) (l ∷ ls)
unfolding join cons_head
join-cons_head sep c l [] = refl
join-cons_head sep c l (m ∷ ls) = refl

join-nil_head :
    (sep : ℕ) (l : List ℕ) (ls : List (List ℕ))
    → join (sep ∷ []) ([] ∷ l ∷ ls) ≡ sep ∷ join (sep ∷ []) (l ∷ ls)
unfolding join
join-nil_head sep l ls = refl

join-split_cons :
    (sep c : ℕ) (s : List ℕ)
    → join (sep ∷ []) (split sep s) ≡ s
    → join (sep ∷ []) (split sep (c ∷ s)) ≡ c ∷ s
unfolding split
join-split_cons sep c s ih =
    let (l, ls, e) = split-cons sep s in
    let joined : join (sep ∷ []) (l ∷ ls) ≡ s = subst (λ x. join (sep ∷ []) x ≡ s) e ih in
    elim (Bool-cases (c == sep)) [
      | inl h ↦
          rw (h, e)
            (join-nil_head sep l ls
              ∙ ap (◌∷◌ sep) joined
              ∙ ap (λ x. x ∷ s) (sym ((==_iff c sep).0 h)))
      | inr h ↦ rw (h, e) (join-cons_head sep c l ls ∙ ap (◌∷◌ c) joined)
    ]

-- To split a text and to join the parts gives the text back.
pub join-split : (sep : ℕ) (s : List ℕ) → join (sep ∷ []) (split sep s) ≡ s
unfolding join split
join-split sep [] = refl
join-split sep (c ∷ s) = join-split_cons sep c s (join-split sep s)

pub unlines-lines : (s : List ℕ) → unlines (lines s) ≡ s
unfolding unlines lines
unlines-lines s = join-split newline s

pub lines_nonempty : (s : List ℕ) → 0 < length (lines s)
unfolding lines
lines_nonempty s = let (l, ls, e) = split-cons newline s in ground arith
