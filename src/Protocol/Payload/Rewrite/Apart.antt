-- ===== src/Protocol/Payload/Rewrite/Apart.antt =====
-- Slots that stand apart in the payload: every replacement is made, in whatever order the map is
-- walked.
use cpa_plugin_token_saver.Common.{
  Bool-cases, List, Option-cases, [], ap, arith, false, inl, inr, length, ltb, ltb→lt, negsuc, pos,
  refl, some, subst, ℕ, ℤ, ◌<◌, ◌∷◌, ◌≡◌, ◌≢◌, ◌≤◌, ◌⊎◌,
}
use cpa_plugin_token_saver.Text.{Bytes}
use cpa_plugin_token_saver.Protocol.Payload.{Payload, TextSlot}
use cpa_plugin_token_saver.Protocol.Payload.Rewrite.{
  Edit, edits_of, insert_edit, is_misplaced, slot_at, sort_edits, valid_edits,
}
use cpa_plugin_token_saver.Protocol.Payload.Rewrite.Offered.{
  Has, IsOffered, edit_of, edits_of-IsOffered, sort_edits-Has,
}
use cpa_plugin_token_saver.Protocol.Payload.Rewrite.Spliced.{Ordered, Ordered-le}

-- Each slot takes at least a byte of the payload, and no two share one.
pub record IsApart (p : Payload) : Type 0 where
  pub filled :
      (i : ℕ) (s : TextSlot)
      → slot_at p.slots i ≡ some s
      → (s.start < s.end) × (s.end ≤ length p.raw)
  pub apart :
      (i j : ℕ) (s t : TextSlot)
      → slot_at p.slots i ≡ some s
      → slot_at p.slots j ≡ some t
      → i ≢ j
      → (s.end ≤ t.start) ⊎ (t.end ≤ s.start)

-- A map has a key once.
abbrev pub KeyedOnce : List (ℤ × Bytes) → Type 0
KeyedOnce [] = Unit {0}
KeyedOnce ((key, text) ∷ left) = ((u : Bytes) → Has (key, u) left → ⊥) × KeyedOnce left

insert_edit-Ordered :
    (size offset : ℕ) (e : Edit) (es : List Edit)
    → offset ≤ e.start
    → e.start < e.end
    → e.end ≤ size
    → ((f : Edit) → Has f es → (f.start < f.end) × ((f.end ≤ e.start) ⊎ (e.end ≤ f.start)))
    → Ordered size offset es
    → Ordered size offset (insert_edit e es)
unfolding insert_edit
insert_edit-Ordered size offset e [] h1 h2 h3 apart h = (h1, omega arith, h3)
insert_edit-Ordered size offset e (f ∷ fs) h1 h2 h3 apart (k1, k2, k) =
    let (filled, side) = apart f (inl refl) in
    elim (Bool-cases (ltb f.start e.start)) [
      | inl beyond ↦
          let front : f.end ≤ e.start = elim side [
            | inl before ↦ before
            | inr after ↦ absurd (omega (arith, ltb→lt f.start e.start beyond))
          ] in
          rw (beyond, insert_edit)
            (k1, k2, insert_edit-Ordered size f.end e fs front h2 h3 (λ g has. apart g (inr has)) k)
      | inr stop ↦
          let back : e.end ≤ f.start = elim side [
            | inl before ↦ absurd (ground arith)
            | inr after ↦ after
          ] in
          rw (stop, insert_edit) (h1, omega arith, (back, k2, k))
    ]

-- The edit of another key stands apart from the slot's.
offered_apart :
    (p : Payload) (left : List (ℤ × Bytes))
    → IsApart p
    → (index : ℕ) (slot : TextSlot) → slot_at p.slots index ≡ some slot
    → ((u : Bytes) → Has (pos index, u) left → ⊥)
    → (f : Edit) → IsOffered p.slots left f
    → (f.start < f.end) × ((f.end ≤ slot.start) ⊎ (slot.end ≤ f.start))
offered_apart p left clear index slot found fresh f (j, u, t, asked, there, same) =
    let distinct : j ≢ index = (λ e. fresh u (subst (λ k. Has (pos k, u) left) e asked)) in
    subst (λ f. (f.start < f.end) × ((f.end ≤ slot.start) ⊎ (slot.end ≤ f.start))) same
      ((clear.filled j t there).0, clear.apart j index t slot there found distinct)

pub sort_edits-Ordered :
    (p : Payload) (replacements : List (ℤ × Bytes))
    → IsApart p
    → KeyedOnce replacements
    → Ordered (length p.raw) 0 (sort_edits (edits_of p.slots replacements))
unfolding edits_of sort_edits
sort_edits-Ordered p [] clear distinct = omega arith
sort_edits-Ordered p ((negsuc n, text) ∷ left) clear (fresh, distinct) =
    sort_edits-Ordered p left clear distinct
sort_edits-Ordered p ((pos index, text) ∷ left) clear (fresh, distinct) =
    let rest = sort_edits-Ordered p left clear distinct in
    elim (Option-cases (slot_at p.slots index)) [
      | inl none_there ↦ rw (none_there, edits_of) rest
      | inr (slot, found) ↦
          let (filled, inside) = clear.filled index slot found in
          rw (found, edits_of)
            (insert_edit-Ordered (length p.raw) 0 (edit_of slot text)
              (sort_edits (edits_of p.slots left)) (omega arith) filled inside
              (λ f has. offered_apart p left clear index slot found fresh f (
                edits_of-IsOffered p.slots left f
                  ((sort_edits-Has f (edits_of p.slots left)).0 has)))
              rest)
    ]

pub valid_edits-Ordered_same :
    (size offset : ℕ) (es : List Edit) → Ordered size offset es → valid_edits size offset es ≡ es
unfolding valid_edits
valid_edits-Ordered_same size offset [] h = refl
valid_edits-Ordered_same size offset (e ∷ es) (h1, h2, h) =
    let inside = Ordered-le size e.end es h in
    let placed : is_misplaced size offset e ≡ false = (ground arith) in
    rw (placed, valid_edits) (ap (◌∷◌ e) (valid_edits-Ordered_same size e.end es h))

pub insert_edit_comm :
    (a b : Edit) (es : List Edit)
    → a.start ≢ b.start
    → insert_edit a (insert_edit b es) ≡ insert_edit b (insert_edit a es)
unfolding insert_edit
insert_edit_comm a b [] h = ground arith
insert_edit_comm a b (f ∷ fs) h = ground (arith, insert_edit_comm a b fs h)
