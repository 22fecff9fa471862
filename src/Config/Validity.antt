-- ===== src/Config/Validity.antt =====
-- internal/config/config.go: what `Parse` lets through.
use cpa_plugin_token_saver.Common.{
  Bool-cases, List, Option-cases, [], arith, false, inl, inr, negsuc, none, pos, refl, some, subst,
  true, ℕ, ℤ, ◌∷◌, ◌≡◌, ◌≤◌, ◌⊎◌,
}
use cpa_plugin_token_saver.Config.{
  Config, ConfigError, Field, Kind, Libraries, Node, Nodes, Result, caveman_levels,
  default_headroom_url, defaults, err, is_one_of, max_headroom_timeout_ms, min_headroom_timeout_ms,
  more, no_more, no_node, node, ok, ponytail_levels, sequence_node, ◌>>=◌,
}
use cpa_plugin_token_saver.Text.{Bytes, bytes_eq, codes, is_blank}
use cpa_plugin_token_saver.Config.Fields.{
  checked_level, checked_timeout, decode_bool, decode_int_field, decode_items, decode_root,
  decode_string, decode_string_list, key_field, normalize_headroom_url, parse, parse_fields,
  seen_before, set_field, tag_is,
}

abbrev pub NoneBlank : List Bytes → Type 0
NoneBlank [] = Unit {0}
NoneBlank (m ∷ ms) = (is_blank m ≡ false) × NoneBlank ms

-- The bounds and the closed sets of values that the settings keep to.
pub record IsValid (l : Libraries) (c : Config) : Type 0 where
  pub timeout_low : min_headroom_timeout_ms ≤ c.headroom_timeout_ms
  pub timeout_high : c.headroom_timeout_ms ≤ max_headroom_timeout_ms
  pub caveman : is_one_of caveman_levels c.caveman_level ≡ true
  pub ponytail : is_one_of ponytail_levels c.ponytail_level ≡ true
  pub models : NoneBlank c.model_allowlist
  pub url :
      (c.headroom_url ≡ default_headroom_url)
      ⊎ ((raw : Bytes) × (normalize_headroom_url l raw ≡ ok c.headroom_url))

pub defaults-IsValid : (l : Libraries) → IsValid l defaults
unfolding defaults is_one_of bytes_eq
defaults-IsValid l = record {
  timeout_low = omega arith;
  timeout_high = omega arith;
  caveman = refl;
  ponytail = refl;
  models = tt;
  url = inl refl;
}

-- A chain that ends in a value has a value in the middle.
>>=-ok {ℓ₁ ℓ₂} :
    {Value : Type ℓ₁} {Next : Type ℓ₂} {out : Next} (first : Result Value)
    (rest : Value → Result Next)
    → (first >>= rest) ≡ ok out
    → (value : Value) × (first ≡ ok value) × (rest value ≡ ok out)
>>=-ok (err reason) rest chain = cc
>>=-ok (ok value) rest chain = (value, refl, chain)

ok-injective {ℓ} : {A : Type ℓ} {a b : A} → ok a ≡ ok b → a ≡ b
ok-injective h = cc

decode_items-more :
    (f : Field) (kind : Kind) (tag value : Bytes) (content ns : Nodes) {values : List Bytes}
    → decode_items f (more (node kind tag value content) ns) ≡ ok values
    → (is_blank value ≡ false)
      × (ws : List Bytes) × (decode_items f ns ≡ ok ws)
      × (value ∷ ws ≡ values)
unfolding decode_items
decode_items-more f kind tag value content ns h =
    elim (Bool-cases (tag_is (codes "!!str") kind tag)) [
      | inr foreign ↦ absurd (ground arith)
      | inl text ↦ elim (Bool-cases (is_blank value)) [
        | inl nothing ↦ absurd (ground arith)
        | inr filled ↦
            let h' : (decode_items f ns >>= λ values. ok (value ∷ values)) ≡ ok _ =
              (ground arith) in
            let (ws, read, e) = >>=-ok (decode_items f ns) _ h' in
            (filled, ws, read, ok-injective e)
      ]
    ]

decode_items-NoneBlank :
    (f : Field) (ns : Nodes) {values : List Bytes}
    → decode_items f ns ≡ ok values
    → NoneBlank values
unfolding decode_items
decode_items-NoneBlank f no_more {values} h = subst NoneBlank (ok-injective h) tt
decode_items-NoneBlank f (more no_node ns) h = cc
decode_items-NoneBlank f (more (node kind tag value content) ns) {values} h =
    let (filled, ws, rest, e) = decode_items-more f kind tag value content ns h in
    subst NoneBlank e (filled, decode_items-NoneBlank f ns rest)

decode_string_list-NoneBlank :
    (f : Field) (n : Node) {values : List Bytes}
    → decode_string_list f n ≡ ok values
    → NoneBlank values
unfolding decode_string_list
decode_string_list-NoneBlank f (node sequence_node tag value content) h =
    decode_items-NoneBlank f content h
decode_string_list-NoneBlank f _ h = cc

checked_timeout-bounds :
    (n : ℤ) {ms : ℕ}
    → checked_timeout n ≡ ok ms
    → (min_headroom_timeout_ms ≤ ms) × (ms ≤ max_headroom_timeout_ms)
unfolding checked_timeout
checked_timeout-bounds (pos n) h = ground arith
checked_timeout-bounds (negsuc n) h = cc

checked_level-one_of :
    (f : Field) (levels : List Bytes) (v : Bytes) {w : Bytes}
    → checked_level f levels v ≡ ok w
    → is_one_of levels w ≡ true
unfolding checked_level
checked_level-one_of f levels v h = ground arith

set_field-IsValid :
    (l : Libraries) (f : Field) (n : Node) (c : Config) {c' : Config}
    → IsValid l c
    → set_field l f n c ≡ ok c'
    → IsValid l c'
unfolding set_field
set_field-IsValid l Field.rtk_enabled n c v h =
    let (_, _, e) = >>=-ok (decode_bool Field.rtk_enabled n) _ h in
    subst (IsValid l) (ok-injective e) (assumption)
set_field-IsValid l Field.headroom_enabled n c v h =
    let (_, _, e) = >>=-ok (decode_bool Field.headroom_enabled n) _ h in
    subst (IsValid l) (ok-injective e) (assumption)
set_field-IsValid l Field.headroom_url n c v h =
    let (raw, _, e) = >>=-ok (decode_string Field.headroom_url n) _ h in
    let (url, normal, e') = >>=-ok (normalize_headroom_url l raw) _ e in
    let accepted : (url ≡ default_headroom_url)
        ⊎ ((raw : Bytes) × (normalize_headroom_url l raw ≡ ok url)) =
      inr (raw, normal) in
    subst (IsValid l) (ok-injective e') (assumption accepted)
set_field-IsValid l Field.headroom_timeout_ms n c v h =
    let (i, _, e) = >>=-ok (decode_int_field l Field.headroom_timeout_ms n) _ h in
    let (ms, checked, e') = >>=-ok (checked_timeout i) _ e in
    let (low, high) = checked_timeout-bounds i checked in
    subst (IsValid l) (ok-injective e') (assumption (low, high))
set_field-IsValid l Field.caveman_enabled n c v h =
    let (_, _, e) = >>=-ok (decode_bool Field.caveman_enabled n) _ h in
    subst (IsValid l) (ok-injective e) (assumption)
set_field-IsValid l Field.caveman_level n c v h =
    let (raw, _, e) = >>=-ok (decode_string Field.caveman_level n) _ h in
    let (level, checked, e') = >>=-ok (checked_level Field.caveman_level caveman_levels raw) _ e in
    let one_of = checked_level-one_of Field.caveman_level caveman_levels raw checked in
    subst (IsValid l) (ok-injective e') (assumption one_of)
set_field-IsValid l Field.ponytail_enabled n c v h =
    let (_, _, e) = >>=-ok (decode_bool Field.ponytail_enabled n) _ h in
    subst (IsValid l) (ok-injective e) (assumption)
set_field-IsValid l Field.ponytail_level n c v h =
    let (raw, _, e) = >>=-ok (decode_string Field.ponytail_level n) _ h in
    let (level, checked, e') =
      >>=-ok (checked_level Field.ponytail_level ponytail_levels raw) _ e in
    let one_of = checked_level-one_of Field.ponytail_level ponytail_levels raw checked in
    subst (IsValid l) (ok-injective e') (assumption one_of)
set_field-IsValid l Field.model_allowlist n c v h =
    let (values, read, e) = >>=-ok (decode_string_list Field.model_allowlist n) _ h in
    let filled = decode_string_list-NoneBlank Field.model_allowlist n read in
    subst (IsValid l) (ok-injective e) (assumption filled)

pub Result-cases {ℓ} :
    {A : Type ℓ} (r : Result A) → ((e : ConfigError) × (r ≡ err e)) ⊎ ((a : A) × (r ≡ ok a))
Result-cases (err e) = inl (e, refl)
Result-cases (ok a) = inr (a, refl)

-- A pair of the mapping either passes as an unknown key, or is a field not seen before.
pub parse_fields-pair :
    (l : Libraries) (key value : Node) (rest : Nodes) (seen : List Field) (c : Config) {c' : Config}
    → parse_fields l (more key (more value rest)) seen c ≡ ok c'
    → ((key_field key ≡ none) × (parse_fields l rest seen c ≡ ok c'))
      ⊎ ((f : Field) × (key_field key ≡ some f)
          × (seen_before f seen ≡ false)
          × (d : Config) × (set_field l f value c ≡ ok d)
          × (parse_fields l rest (f ∷ seen) d ≡ ok c'))
unfolding parse_fields
parse_fields-pair l key value rest seen c h = elim (Option-cases (key_field key)) [
  | inl unknown ↦ inl (unknown, ground arith)
  | inr (f, known) ↦ elim (Bool-cases (seen_before f seen)) [
    | inl twice ↦ absurd (ground arith)
    | inr fresh ↦ elim (Result-cases (set_field l f value c)) [
      | inl (e, bad) ↦ absurd (ground arith)
      | inr (d, set) ↦ inr (f, known, fresh, d, set, ground arith)
    ]
  ]
]

parse_fields-IsValid :
    (l : Libraries) (ns : Nodes) (seen : List Field) (c : Config) {c' : Config}
    → IsValid l c
    → parse_fields l ns seen c ≡ ok c'
    → IsValid l c'
unfolding parse_fields
parse_fields-IsValid l no_more seen c v h = subst (IsValid l) (ok-injective h) v
parse_fields-IsValid l (more key no_more) seen c v h = subst (IsValid l) (ok-injective h) v
parse_fields-IsValid l (more key (more value rest)) seen c v h =
    elim (parse_fields-pair l key value rest seen c h) [
      | inl (unknown, passed) ↦ parse_fields-IsValid l rest seen c v passed
      | inr (f, known, fresh, d, set, passed) ↦
          parse_fields-IsValid l rest (f ∷ seen) d (set_field-IsValid l f value c v set) passed
    ]

-- Whatever `Parse` accepts keeps the timeout's bounds, the closed sets of levels, a model list
-- without blank entries, and a URL that is the default one or came out of the normalization.
pub parse-IsValid : (l : Libraries) (raw : Bytes) (c : Config) → parse l raw ≡ ok c → IsValid l c
unfolding parse
parse-IsValid l raw c h = elim (Bool-cases (is_blank raw)) [
  | inl nothing ↦
      let e : ok defaults ≡ ok c = (ground arith) in
      subst (IsValid l) (ok-injective e) (defaults-IsValid l)
  | inr filled ↦
      let h' : (decode_root l raw >>= λ content.
      parse_fields l content [] defaults >>= λ c. ok (record c { raw_yaml = raw }))
          ≡ ok c =
        (ground arith) in
      let (content, _, e) = >>=-ok (decode_root l raw) _ h' in
      let (d, parsed, e') = >>=-ok (parse_fields l content [] defaults) _ e in
      let v = parse_fields-IsValid l content [] defaults (defaults-IsValid l) parsed in
      subst (IsValid l) (ok-injective e') (assumption v)
]
