-- ===== src/Text/Lines/Free.antt =====
-- Lines without the separator in them: to join and to split them gives them back.
use cpa_plugin_token_saver.Common.{
  Bool, Bool-cases, List, [], ap, arith, drop, false, inl, inr, not, refl, suc, take, true, zero, ℕ,
  ◌&&◌, ◌++◌, ◌==◌, ◌∙◌, ◌∷◌, ◌≡◌,
}
use cpa_plugin_token_saver.Text.Lines.{cons_head, join, lines, newline, split, unlines}

abbrev pub Free : ℕ → List ℕ → Type 0
Free sep [] = Unit {0}
Free sep (c ∷ s) = ((c == sep) ≡ false) × Free sep s

abbrev pub AllFree : ℕ → List (List ℕ) → Type 0
AllFree sep [] = Unit {0}
AllFree sep (l ∷ ls) = Free sep l × AllFree sep ls

abbrev pub is_free : ℕ → List ℕ → Bool
is_free sep [] = true
is_free sep (c ∷ s) = not (c == sep) && is_free sep s

pub is_free-Free : (sep : ℕ) (s : List ℕ) → is_free sep s ≡ true → Free sep s
is_free-Free sep [] h = tt
is_free-Free sep (c ∷ s) h = (ground arith, is_free-Free sep s (ground arith))

pub Free-append : (sep : ℕ) (xs ys : List ℕ) → Free sep xs → Free sep ys → Free sep (xs ++ ys)
Free-append sep [] ys fx fy = fy
Free-append sep (x ∷ xs) ys (h, fx) fy = (h, Free-append sep xs ys fx fy)

pub AllFree-append :
    (sep : ℕ) (xs ys : List (List ℕ)) → AllFree sep xs → AllFree sep ys → AllFree sep (xs ++ ys)
AllFree-append sep [] ys fx fy = fy
AllFree-append sep (x ∷ xs) ys (h, fx) fy = (h, AllFree-append sep xs ys fx fy)

pub AllFree-take : (sep n : ℕ) (ls : List (List ℕ)) → AllFree sep ls → AllFree sep (take n ls)
AllFree-take sep zero ls f = tt
AllFree-take sep (suc n) [] f = tt
AllFree-take sep (suc n) (l ∷ ls) (h, f) = (h, AllFree-take sep n ls f)

pub AllFree-drop : (sep n : ℕ) (ls : List (List ℕ)) → AllFree sep ls → AllFree sep (drop n ls)
AllFree-drop sep zero ls f = f
AllFree-drop sep (suc n) [] f = tt
AllFree-drop sep (suc n) (l ∷ ls) (h, f) = AllFree-drop sep n ls f

cons_head-AllFree :
    (sep c : ℕ) (ls : List (List ℕ))
    → (c == sep) ≡ false
    → AllFree sep ls
    → AllFree sep (cons_head c ls)
unfolding cons_head
cons_head-AllFree sep c [] h f = ((h, tt), tt)
cons_head-AllFree sep c (l ∷ ls) h (fl, f) = ((h, fl), f)

pub split-AllFree : (sep : ℕ) (s : List ℕ) → AllFree sep (split sep s)
unfolding split
split-AllFree sep [] = (tt, tt)
split-AllFree sep (c ∷ s) = elim (Bool-cases (c == sep)) [
  | inl cut ↦ rw (cut, split) (tt, split-AllFree sep s)
  | inr inside ↦
      rw (inside, split) (cons_head-AllFree sep c (split sep s) inside (split-AllFree sep s))
]

split-Free : (sep : ℕ) (l : List ℕ) → Free sep l → split sep l ≡ l ∷ []
unfolding split cons_head
split-Free sep [] f = refl
split-Free sep (c ∷ l) (h, f) = rw (h, split) (ap (cons_head c) (split-Free sep l f))

split-cut : (sep : ℕ) (l s : List ℕ) → Free sep l → split sep (l ++ (sep ∷ s)) ≡ l ∷ split sep s
unfolding split cons_head
split-cut sep [] s f = let same : (sep == sep) ≡ true = (ground arith) in rw (same, split) refl
split-cut sep (c ∷ l) s (h, f) = rw (h, split) (ap (cons_head c) (split-cut sep l s f))

pub split-join :
    (sep : ℕ) (l : List ℕ) (ls : List (List ℕ))
    → AllFree sep (l ∷ ls)
    → split sep (join (sep ∷ []) (l ∷ ls)) ≡ l ∷ ls
unfolding join
split-join sep l [] (f, _) = split-Free sep l f
split-join sep l (m ∷ ms) (f, fs) =
    split-cut sep l (join (sep ∷ []) (m ∷ ms)) f ∙ ap (◌∷◌ l) (split-join sep m ms fs)

pub lines-unlines :
    (l : List ℕ) (ls : List (List ℕ)) → AllFree newline (l ∷ ls) → lines (unlines (l ∷ ls)) ≡ l ∷ ls
unfolding lines unlines
lines-unlines l ls f = split-join newline l ls f
