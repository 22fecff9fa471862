-- ===== src/Protocol/Payload/Rewrite/Spliced.antt =====
-- What a rewriting keeps and what it replaces.
use cpa_plugin_token_saver.Common.{
  Bool-cases, List, [], ap, arith, drop, inl, inr, length, length-append, length-drop, length-take,
  refl, suc, sym, take-append-drop, zero, ℕ, ◌++◌, ◌+◌, ◌-◌, ◌∙◌, ◌∷◌, ◌≡◌, ◌≤◌,
}
use cpa_plugin_token_saver.Text.{Bytes}
use cpa_plugin_token_saver.Protocol.Payload.{slice}
use cpa_plugin_token_saver.Protocol.Payload.Rewrite.{
  Edit, is_misplaced, output_length, splice, valid_edits,
}

-- From `offset` on, the edits replace spans of the text, in order and apart from each other, and the
-- bytes between them stay.
abbrev pub IsSpliced : ℕ → List Edit → Bytes → Bytes → Type 0
IsSpliced offset [] text out = out ≡ text
IsSpliced offset (e ∷ es) text out =
    (before : Bytes) × (old : Bytes) × (after : Bytes) × (out' : Bytes) × (text
      ≡ before ++ (old ++ after))
    × (out ≡ before ++ (e.raw ++ out'))
    × (offset + length before ≡ e.start)
    × (e.start + length old ≡ e.end)
    × IsSpliced e.end es after out'

-- The edits stand in order, apart and within the text.
abbrev pub Ordered : ℕ → ℕ → List Edit → Type 0
Ordered size offset [] = offset ≤ size
Ordered size offset (e ∷ es) = (offset ≤ e.start) × (e.start ≤ e.end) × Ordered size e.end es

pub valid_edits-Ordered :
    (size offset : ℕ) (es : List Edit)
    → offset ≤ size
    → Ordered size offset (valid_edits size offset es)
unfolding valid_edits
valid_edits-Ordered size offset [] h = h
valid_edits-Ordered size offset (e ∷ es) h = elim (Bool-cases (is_misplaced size offset e)) [
  | inl misplaced ↦ rw (misplaced, valid_edits) (valid_edits-Ordered size offset es h)
  | inr placed ↦
      rw (placed, valid_edits)
        (ground arith, ground arith, valid_edits-Ordered size e.end es (ground arith))
]

drop-nil : (n : ℕ) → drop {A = ℕ} n [] ≡ []
drop-nil zero = refl
drop-nil (suc n) = refl

drop-drop : (m n : ℕ) (s : Bytes) → m ≤ n → drop (n - m) (drop m s) ≡ drop n s
drop-drop zero n s h = let same : n - 0 ≡ n = (omega arith) in ap (λ k. drop k s) same
drop-drop (suc m) zero s h = ground arith
drop-drop (suc m) (suc n) [] h = drop-nil (suc n - suc m)
drop-drop (suc m) (suc n) (c ∷ s) h =
    let less : suc n - suc m ≡ n - m = (omega arith) in
    ap (λ k. drop k (drop m s)) less ∙ drop-drop m n s (omega arith)

pub drop-slice : (m n : ℕ) (s : Bytes) → m ≤ n → drop m s ≡ slice m n s ++ drop n s
drop-slice m n s h =
    sym (take-append-drop (n - m) (drop m s)) ∙ ap (λ x. slice m n s ++ x) (drop-drop m n s h)

length-slice : (m n : ℕ) (s : Bytes) → m ≤ n → n ≤ length s → m + length (slice m n s) ≡ n
length-slice m n s h k = omega (arith, length-take (n - m) (drop m s), length-drop m s)

pub Ordered-le : (size offset : ℕ) (es : List Edit) → Ordered size offset es → offset ≤ size
Ordered-le size offset [] h = h
Ordered-le size offset (e ∷ es) (h1, h2, h) = omega (arith, Ordered-le size e.end es h)

pub splice-IsSpliced :
    (raw : Bytes) (offset : ℕ) (es : List Edit)
    → Ordered (length raw) offset es
    → IsSpliced offset es (drop offset raw) (splice raw offset es)
unfolding splice
splice-IsSpliced raw offset [] h = refl
splice-IsSpliced raw offset (e ∷ es) (h1, h2, h) =
    let inside = Ordered-le (length raw) e.end es h in
    (
      slice offset e.start raw,
      slice e.start e.end raw,
      drop e.end raw,
      splice raw e.end es,
      drop-slice offset e.start raw h1
          ∙ ap (λ x. slice offset e.start raw ++ x) (drop-slice e.start e.end raw h2),
      refl,
      length-slice offset e.start raw h1 (omega arith),
      length-slice e.start e.end raw h2 inside,
      splice-IsSpliced raw e.end es h,
    )

-- The capacity of the output.
pub output_length-splice :
    (raw : Bytes) (done offset : ℕ) (es : List Edit)
    → Ordered (length raw) offset es
    → output_length (done + (length raw - offset)) es ≡ done + length (splice raw offset es)
unfolding output_length splice
output_length-splice raw done offset [] h = omega (arith, length-drop offset raw)
output_length-splice raw done offset (e ∷ es) (h1, h2, h) =
    let inside = Ordered-le (length raw) e.end es h in
    let kept = length-slice offset e.start raw h1 (omega arith) in
    let cap : done + (length raw - offset) + length e.raw - (e.end - e.start)
        ≡ (done + length (slice offset e.start raw) + length e.raw) + (length raw - e.end) =
      (omega arith) in
    ap (λ n. output_length n es) cap
    ∙ output_length-splice raw (done + length (slice offset e.start raw) + length e.raw) e.end es h
    ∙ omega (
      arith,
      length-append (slice offset e.start raw) (e.raw ++ splice raw e.end es),
      length-append e.raw (splice raw e.end es),
    )

-- Each edit writes what stands there.
abbrev pub AllSame : Bytes → List Edit → Type 0
AllSame raw [] = Unit {0}
AllSame raw (e ∷ es) = (e.raw ≡ slice e.start e.end raw) × AllSame raw es

pub splice_same :
    (raw : Bytes) (offset : ℕ) (es : List Edit)
    → Ordered (length raw) offset es
    → AllSame raw es
    → splice raw offset es ≡ drop offset raw
unfolding splice
splice_same raw offset [] h same = refl
splice_same raw offset (e ∷ es) (h1, h2, h) (he, same) =
    ap (λ x. slice offset e.start raw ++ (e.raw ++ x)) (splice_same raw e.end es h same)
    ∙ ap (λ x. slice offset e.start raw ++ (x ++ drop e.end raw)) he
    ∙ ap (λ x. slice offset e.start raw ++ x) (sym (drop-slice e.start e.end raw h2))
    ∙ sym (drop-slice offset e.start raw h1)
