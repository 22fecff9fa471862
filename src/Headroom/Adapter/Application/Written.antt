-- ===== src/Headroom/Adapter/Application/Written.antt =====
-- internal/headroom/adapter.go: which edits `rewrite` makes.
use cpa_plugin_token_saver.Common.{
  Bool-cases, List, Option, [], ap, arith, false, inl, inr, none, none≢some, refl, some,
  some-injective, suc, sym, zero, ℕ, ◌↔◌, ◌∙◌, ◌∷◌, ◌≡◌, ◌≢◌,
}
use cpa_plugin_token_saver.Text.{Bytes, bytes_eq, bytes_eq_iff, bytes_eq_sound}
use cpa_plugin_token_saver.Headroom.Adapter.{Projection, TextTarget}
use cpa_plugin_token_saver.Json.Marshal.{marshal_string}
use cpa_plugin_token_saver.Headroom.Adapter.Application.{changed_edits, sorted_edits}
use cpa_plugin_token_saver.Protocol.Payload.Rewrite.{Edit}
use cpa_plugin_token_saver.Protocol.Payload.Rewrite.Offered.{Has, sort_edits-Has}

-- The element at an index.
abbrev pub get_elem? {ℓ} : {A : Type ℓ} → List A → ℕ → Option A
get_elem? [] n = none
get_elem? (x ∷ xs) zero = some x
get_elem? (x ∷ xs) (suc n) = get_elem? xs n

-- The edit writes the replacement of a target, which differs from its original text, over it.
abbrev pub IsWritten : List TextTarget → List Bytes → Edit → Type 0
IsWritten targets replacements e =
    (index : ℕ) × (t : TextTarget) × (text : Bytes) × (get_elem? targets index ≡ some t)
    × (get_elem? replacements index ≡ some text)
    × (text ≢ t.original)
    × (e ≡ record { start = t.start; end = t.end; raw = marshal_string text })

differ_of_bytes_eq : (xs ys : Bytes) → bytes_eq xs ys ≡ false → xs ≢ ys
differ_of_bytes_eq xs ys h e = ground (arith, (bytes_eq_iff xs ys).1 e)

bytes_eq-false : (xs ys : Bytes) → xs ≢ ys → bytes_eq xs ys ≡ false
bytes_eq-false xs ys differs = elim (Bool-cases (bytes_eq xs ys)) [
  | inl same ↦ absurd (differs (bytes_eq_sound xs ys same))
  | inr other_text ↦ other_text
]

changed_edits-IsWritten :
    (targets : List TextTarget) (replacements : List Bytes) (e : Edit)
    → Has e (changed_edits targets replacements)
    → IsWritten targets replacements e
unfolding changed_edits
changed_edits-IsWritten [] texts e = λ h. absurd h.lower
changed_edits-IsWritten (t ∷ ts) [] e = λ h. absurd h.lower
changed_edits-IsWritten (t ∷ ts) (text ∷ texts) e =
    let later : Has e (changed_edits ts texts) → IsWritten (t ∷ ts) (text ∷ texts) e = (λ h.
      let (i, u, x, there, given, differs, same) = changed_edits-IsWritten ts texts e h in
      (suc i, u, x, there, given, differs, same)) in
    elim (Bool-cases (bytes_eq text t.original)) [
      | inl unchanged ↦ rw (unchanged, changed_edits) later
      | inr changed ↦
          rw (changed, changed_edits)
            (λ h. elim h [
              | inl same ↦
                  (0, t, text, refl, refl, differ_of_bytes_eq text t.original changed, sym same)
              | inr further ↦ later further
            ])
    ]

changed_edits-Has :
    (targets : List TextTarget) (replacements : List Bytes) (e : Edit)
    → IsWritten targets replacements e
    → Has e (changed_edits targets replacements)
unfolding changed_edits
changed_edits-Has [] texts e (i, t, x, there, given, differs, same) = absurd (none≢some there)
changed_edits-Has (t ∷ ts) [] e (i, u, x, there, given, differs, same) = absurd (none≢some given)
changed_edits-Has (t ∷ ts) (text ∷ texts) e (zero, u, x, there, given, differs, same) =
    let same_target = some-injective there in
    let same_text = some-injective given in
    let fresh : bytes_eq text t.original ≡ false =
      bytes_eq-false text t.original
        (λ equal. differs (sym same_text ∙ equal ∙ ap (λ v. v.original) same_target)) in
    rw (fresh, changed_edits)
      (inl (
        ap (λ v. record { start = v.start; end = v.end; raw = marshal_string text }) same_target
        ∙ ap (λ y. record { start = u.start; end = u.end; raw = marshal_string y }) same_text
        ∙ sym same))
changed_edits-Has (t ∷ ts) (text ∷ texts) e (suc i, u, x, there, given, differs, same) =
    let further = changed_edits-Has ts texts e (i, u, x, there, given, differs, same) in
    elim (Bool-cases (bytes_eq text t.original)) [
      | inl unchanged ↦ rw (unchanged, changed_edits) further
      | inr changed ↦ rw (changed, changed_edits) (inr further)
    ]

-- Whatever order they stand in, the edits are those that write a changed text at its target.
pub sorted_edits-IsWritten :
    (view : Projection) (replacements : List Bytes) (e : Edit)
    → Has e (sorted_edits view replacements) ↔ IsWritten view.targets replacements e
sorted_edits-IsWritten view replacements e =
    let (back, there) = sort_edits-Has e (changed_edits view.targets replacements) in
    (
      λ h. changed_edits-IsWritten view.targets replacements e (back h),
      λ h. there (changed_edits-Has view.targets replacements e h),
    )
