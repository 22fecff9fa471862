-- ===== src/Saver/Dedupe/Entries.antt =====
-- internal/saver/dedupe.go: laws of the map of entries.
use cpa_plugin_token_saver.Common.{
  [], arith, if◌then◌else◌, length, none, refl, some, ℕ, ◌+◌, ◌∷◌, ◌≡◌, ◌≢◌,
}
use cpa_plugin_token_saver.Saver.Dedupe.{DedupeEntry, Entries, delete, find, update}

-- What an entry adds to the byte count.
abbrev pub weight : DedupeEntry → ℕ
weight e = if e.complete then length e.value else 0

abbrev pub total_of : Entries → ℕ
total_of [] = 0
total_of ((k, e) ∷ es) = weight e + total_of es

-- No key stands twice.
abbrev pub Distinct : Entries → Type 0
Distinct [] = Unit {0}
Distinct ((k, e) ∷ es) = (find k es ≡ none) × Distinct es

pub find-delete_ne : (j k : ℕ) (es : Entries) → j ≢ k → find j (delete k es) ≡ find j es
unfolding find delete
find-delete_ne j k [] h = refl
find-delete_ne j k ((i, e) ∷ es) h = ground (arith, find-delete_ne j k es)

pub find-delete-none : (j k : ℕ) (es : Entries) → find j es ≡ none → find j (delete k es) ≡ none
unfolding find delete
find-delete-none j k [] h = refl
find-delete-none j k ((i, e) ∷ es) h = ground (arith, find-delete-none j k es)

pub find-delete_self : (k : ℕ) (es : Entries) → Distinct es → find k (delete k es) ≡ none
unfolding find delete
find-delete_self k [] d = refl
find-delete_self k ((i, e) ∷ es) d = ground (arith, find-delete_self k es d.1)

pub Distinct-delete : (k : ℕ) (es : Entries) → Distinct es → Distinct (delete k es)
unfolding delete
Distinct-delete k [] d = tt
Distinct-delete k ((i, e) ∷ es) d =
    ground (arith, Distinct-delete k es d.1, find-delete-none i k es d.0)

pub length-delete :
    (k : ℕ) (es : Entries) {e : DedupeEntry}
    → find k es ≡ some e
    → length (delete k es) + 1 ≡ length es
unfolding find delete
length-delete k [] h = cc
length-delete k ((i, x) ∷ es) {e} h = ground (arith, length-delete k es {e = e})

pub total_of-delete :
    (k : ℕ) (es : Entries) {e : DedupeEntry}
    → find k es ≡ some e
    → total_of (delete k es) + weight e ≡ total_of es
unfolding find delete
total_of-delete k [] h = cc
total_of-delete k ((i, x) ∷ es) {e} h = ground (arith, total_of-delete k es {e = e})

pub find-update_ne :
    (j k : ℕ) (f : DedupeEntry → DedupeEntry) (es : Entries)
    → j ≢ k
    → find j (update k f es) ≡ find j es
unfolding find update
find-update_ne j k f [] h = refl
find-update_ne j k f ((i, e) ∷ es) h = ground (arith, find-update_ne j k f es)

pub find-update_self :
    (k : ℕ) (f : DedupeEntry → DedupeEntry) (es : Entries) {e : DedupeEntry}
    → find k es ≡ some e
    → find k (update k f es) ≡ some (f e)
unfolding find update
find-update_self k f [] h = cc
find-update_self k f ((i, x) ∷ es) {e} h = ground (arith, find-update_self k f es {e = e})

find-update-none :
    (j k : ℕ) (f : DedupeEntry → DedupeEntry) (es : Entries)
    → find j es ≡ none
    → find j (update k f es) ≡ none
unfolding find update
find-update-none j k f [] h = refl
find-update-none j k f ((i, e) ∷ es) h = ground (arith, find-update-none j k f es)

pub Distinct-update :
    (k : ℕ) (f : DedupeEntry → DedupeEntry) (es : Entries) → Distinct es → Distinct (update k f es)
unfolding update
Distinct-update k f [] d = tt
Distinct-update k f ((i, e) ∷ es) d =
    ground (arith, Distinct-update k f es d.1, find-update-none i k f es d.0)

pub length-update :
    (k : ℕ) (f : DedupeEntry → DedupeEntry) (es : Entries) → length (update k f es) ≡ length es
unfolding update
length-update k f [] = refl
length-update k f ((i, e) ∷ es) = ground (arith, length-update k f es)

pub total_of-update :
    (k : ℕ) (f : DedupeEntry → DedupeEntry) (es : Entries) {e : DedupeEntry}
    → find k es ≡ some e
    → total_of (update k f es) + weight e ≡ total_of es + weight (f e)
unfolding find update
total_of-update k f [] h = cc
total_of-update k f ((i, x) ∷ es) {e} h = ground (arith, total_of-update k f es {e = e})
