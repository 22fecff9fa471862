-- ===== src/Config/Keys.antt =====
-- internal/config/config.go: which keys of the document `Parse` looks at.
use cpa_plugin_token_saver.Common.{
  Bool-cases, List, Option-cases, [], false, inl, inr, none, refl, some, subst, sym, ◌∷◌, ◌≡◌,
}
use cpa_plugin_token_saver.Config.{Config, Field, Libraries, Node, Nodes, more, no_more, ok}
use cpa_plugin_token_saver.Config.Fields.{key_field, parse_fields, seen_before, set_field}
use cpa_plugin_token_saver.Config.Validity.{Result-cases, parse_fields-pair}

-- The known fields that a mapping names, in order.
unfoldable pub named_fields : Nodes → List Field
unfolding key_field
named_fields no_more = []
named_fields (more key no_more) = []
named_fields (more key (more value rest)) = elim (key_field key) [
  | none ↦ named_fields rest
  | some f ↦ f ∷ named_fields rest
]

-- No field of the first list is in the second one, or earlier in the first.
abbrev pub NoneRepeated : List Field → List Field → Type 0
NoneRepeated [] seen = Unit {0}
NoneRepeated (f ∷ fs) seen = (seen_before f seen ≡ false) × NoneRepeated fs (f ∷ seen)

-- The mapping without its unknown keys.
unfoldable pub known_pairs : Nodes → Nodes
unfolding key_field
known_pairs no_more = no_more
known_pairs (more key no_more) = no_more
known_pairs (more key (more value rest)) = elim (key_field key) [
  | none ↦ known_pairs rest
  | some f ↦ more key (more value (known_pairs rest))
]

-- If the loop over the fields accepts a mapping, none of the known fields occurs in it twice, and
-- none of those that it had seen before occurs in it.
pub parse_fields-NoneRepeated :
    (l : Libraries) (ns : Nodes) (seen : List Field) (c c' : Config)
    → parse_fields l ns seen c ≡ ok c'
    → NoneRepeated (named_fields ns) seen
unfolding named_fields
parse_fields-NoneRepeated l no_more seen c c' h = tt
parse_fields-NoneRepeated l (more key no_more) seen c c' h = tt
parse_fields-NoneRepeated l (more key (more value rest)) seen c c' h =
    elim (parse_fields-pair l key value rest seen c h) [
      | inl (unknown, passed) ↦
          rw (unknown, named_fields) (parse_fields-NoneRepeated l rest seen c c' passed)
      | inr (f, known, fresh, d, set, passed) ↦
          rw (known, named_fields) (fresh, parse_fields-NoneRepeated l rest (f ∷ seen) d c' passed)
    ]

parse_fields-same_rest :
    (l : Libraries) (key value : Node) (ns ms : Nodes) (seen : List Field) (c : Config)
    → ((seen : List Field) (c : Config) → parse_fields l ns seen c ≡ parse_fields l ms seen c)
    → parse_fields l (more key (more value ns)) seen c
      ≡ parse_fields l (more key (more value ms)) seen c
unfolding parse_fields
parse_fields-same_rest l key value ns ms seen c same = elim (Option-cases (key_field key)) [
  | inl unknown ↦ rw (unknown, parse_fields) (same seen c)
  | inr (f, known) ↦
      rw (known, parse_fields)
        (elim (Bool-cases (seen_before f seen)) [
          | inl twice ↦ rw twice refl
          | inr fresh ↦ rw fresh (elim (Result-cases (set_field l f value c)) [
            | inl (e, bad) ↦ rw bad refl
            | inr (d, set) ↦ rw set (same (f ∷ seen) d)
          ])
        ])
]

-- The loop over the fields comes to the same result on the mapping without its unknown keys.
pub parse_fields-known_pairs :
    (l : Libraries) (ns : Nodes) (seen : List Field) (c : Config)
    → parse_fields l (known_pairs ns) seen c ≡ parse_fields l ns seen c
unfolding parse_fields known_pairs
parse_fields-known_pairs l no_more seen c = refl
parse_fields-known_pairs l (more key no_more) seen c = refl
parse_fields-known_pairs l (more key (more value rest)) seen c =
    elim (Option-cases (key_field key)) [
      | inl unknown ↦
          rw (unknown, parse_fields, known_pairs) (parse_fields-known_pairs l rest seen c)
      | inr (f, known) ↦
          let kept : known_pairs (more key (more value rest))
              ≡ more key (more value (known_pairs rest)) =
            (rw (known, known_pairs) refl) in
          subst
            (λ ns. parse_fields l ns seen c ≡ parse_fields l (more key (more value rest)) seen c)
            (sym kept)
            (parse_fields-same_rest l key value (known_pairs rest) rest seen c
              (λ seen c. parse_fields-known_pairs l rest seen c))
    ]
