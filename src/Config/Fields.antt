-- ===== src/Config/Fields.antt =====
-- internal/config/config.go: the decoding of one field, and the loop over all of them.
use cpa_plugin_token_saver.Common.{
  Bool, List, Option, [], false, if◌then◌else◌, leb, length, ltb, negsuc, none, not, pos, some,
  true, ℕ, ℤ, ◌&&◌, ◌*◌, ◌+◌, ◌-◌, ◌==◌, ◌||◌, ◌∷◌,
}
use cpa_plugin_token_saver.Config.{
  Config, Field, Kind, Libraries, Node, Nodes, Result, Url, another_document, broken,
  caveman_enabled, caveman_level, caveman_levels, defaults, duplicated, eof, err, headroom_enabled,
  headroom_timeout_ms, headroom_url, is_one_of, many_documents, mapping_node,
  max_headroom_timeout_ms, min_headroom_timeout_ms, model_allowlist, more, no_more, no_node, node,
  not_an_object, ok, ponytail_enabled, ponytail_level, ponytail_levels, rtk_enabled, scalar_node,
  sequence_node, undecodable, unusable, ◌>>=◌,
}
use cpa_plugin_token_saver.Text.{Bytes, bytes_eq, codes, is_blank, trim_space}

abbrev pub tag_is : Bytes → Kind → Bytes → Bool
tag_is want scalar_node tag = bytes_eq tag want
tag_is want _ tag = false

-- strconv.ParseBool.
unfoldable pub parse_bool : Bytes → Option Bool
unfolding is_one_of
parse_bool s =
    if is_one_of
      (codes "1" ∷ codes "t" ∷ codes "T" ∷ codes "true" ∷ codes "TRUE" ∷ codes "True" ∷ []) s
    then some true
    else (if is_one_of
          (codes "0" ∷ codes "f" ∷ codes "F" ∷ codes "false" ∷ codes "FALSE" ∷ codes "False" ∷ []) s
        then some false
        else none)

unfoldable pub decode_bool : Field → Node → Result Bool
decode_bool f no_node = err (unusable f)
decode_bool f (node kind tag value content) =
    if not (tag_is (codes "!!bool") kind tag)
    then err (unusable f)
    else elim (parse_bool value) [ none ↦ err (unusable f) | some b ↦ ok b ]

unfoldable pub decode_int_field : Libraries → Field → Node → Result ℤ
decode_int_field l f no_node = err (unusable f)
decode_int_field l f (node kind tag value content) =
    if not (tag_is (codes "!!int") kind tag)
    then err (unusable f)
    else elim (l.decode_int (node kind tag value content)) [
      | none ↦ err (unusable f)
      | some n ↦ ok n
    ]

unfoldable pub decode_string : Field → Node → Result Bytes
decode_string f no_node = err (unusable f)
decode_string f (node kind tag value content) =
    if not (tag_is (codes "!!str") kind tag) then err (unusable f) else ok value

unfoldable pub decode_items : Field → Nodes → Result (List Bytes)
decode_items f no_more = ok []
decode_items f (more no_node ns) = err (unusable f)
decode_items f (more (node kind tag value content) ns) =
    let rest = decode_items f ns in
    if not (tag_is (codes "!!str") kind tag)
    then err (unusable f)
    else (if is_blank value then err (unusable f) else rest >>= λ values. ok (value ∷ values))

unfoldable pub decode_string_list : Field → Node → Result (List Bytes)
decode_string_list f (node sequence_node tag value content) = decode_items f content
decode_string_list f _ = err (unusable f)

-- strconv.Atoi of a port, as far as the bounds let it through: digits, with an optional plus sign.
unfoldable pub digits_value : ℕ → Bytes → Option ℕ
digits_value acc [] = some acc
digits_value acc (c ∷ s) =
    let rest = digits_value (acc * 10 + (c - 48)) s in if leb 48 c && leb c 57 then rest else none

unfoldable pub port_value : Bytes → Option ℕ
unfolding digits_value
port_value [] = none
port_value (c ∷ s) =
    if c == b'+' then (if length s == 0 then none else digits_value 0 s) else digits_value 0 (c ∷ s)

abbrev pub valid_port : Option ℕ → Bool
valid_port none = false
valid_port (some n) = leb 1 n && leb n 65535

unfoldable pub is_loopback : Bytes → Bool
is_loopback host = bytes_eq host (codes "127.0.0.1") || bytes_eq host (codes "::1")

abbrev pub is_empty : Bytes → Bool
is_empty [] = true
is_empty (c ∷ s) = false

-- The checks of `normalizeHeadroomURL` on the parsed URL.
unfoldable pub acceptable_url : Url → Bool
acceptable_url u =
    bytes_eq u.scheme (codes "http")
    && is_empty u.opaque
    && not u.has_user
    && is_empty u.raw_query
    && not u.force_query
    && is_empty u.fragment
    && (is_empty u.path || bytes_eq u.path (codes "/"))
    && is_empty u.raw_path
    && is_loopback u.hostname
    && (is_empty u.port || valid_port (port_value u.port))

unfoldable pub normalize_headroom_url : Libraries → Bytes → Result Bytes
normalize_headroom_url l raw =
    if is_empty raw || not (bytes_eq (trim_space raw) raw)
    then err (unusable headroom_url)
    else elim (l.parse_url raw) [
      | none ↦ err (unusable headroom_url)
      | some u ↦
          if not (acceptable_url u)
          then err (unusable headroom_url)
          else ok (l.print_url (record u { path = []; raw_path = [] }))
    ]

unfoldable pub checked_timeout : ℤ → Result ℕ
checked_timeout (pos n) =
    if ltb n min_headroom_timeout_ms || ltb max_headroom_timeout_ms n
    then err (unusable headroom_timeout_ms)
    else ok n
checked_timeout (negsuc n) = err (unusable headroom_timeout_ms)

unfoldable pub checked_level : Field → List Bytes → Bytes → Result Bytes
checked_level f levels value = if not (is_one_of levels value) then err (unusable f) else ok value

-- The `switch` of `Parse`: one field, written into the configuration.
unfoldable pub set_field : Libraries → Field → Node → Config → Result Config
set_field l rtk_enabled n c = do
  value ← decode_bool rtk_enabled n
  ok (record c { rtk_enabled = value })
set_field l headroom_enabled n c = do
  value ← decode_bool headroom_enabled n
  ok (record c { headroom_enabled = value })
set_field l headroom_url n c = do
  value ← decode_string headroom_url n
  normalized ← normalize_headroom_url l value
  ok (record c { headroom_url = normalized })
set_field l headroom_timeout_ms n c = do
  value ← decode_int_field l headroom_timeout_ms n
  ms ← checked_timeout value
  ok (record c { headroom_timeout_ms = ms })
set_field l caveman_enabled n c = do
  value ← decode_bool caveman_enabled n
  ok (record c { caveman_enabled = value })
set_field l caveman_level n c = do
  value ← decode_string caveman_level n
  level ← checked_level caveman_level caveman_levels value
  ok (record c { caveman_level = level })
set_field l ponytail_enabled n c = do
  value ← decode_bool ponytail_enabled n
  ok (record c { ponytail_enabled = value })
set_field l ponytail_level n c = do
  value ← decode_string ponytail_level n
  level ← checked_level ponytail_level ponytail_levels value
  ok (record c { ponytail_level = level })
set_field l model_allowlist n c = do
  value ← decode_string_list model_allowlist n
  ok (record c { model_allowlist = value })

-- `isKnownField`, and which one it is.
unfoldable pub known_field : Bytes → Option Field
known_field key =
    if bytes_eq key (codes "rtk_enabled")
    then some rtk_enabled
    else (if bytes_eq key (codes "headroom_enabled")
        then some headroom_enabled
        else (if bytes_eq key (codes "headroom_url")
            then some headroom_url
            else (if bytes_eq key (codes "headroom_timeout_ms")
                then some headroom_timeout_ms
                else (if bytes_eq key (codes "caveman_enabled")
                    then some caveman_enabled
                    else (if bytes_eq key (codes "caveman_level")
                        then some caveman_level
                        else (if bytes_eq key (codes "ponytail_enabled")
                            then some ponytail_enabled
                            else (if bytes_eq key (codes "ponytail_level")
                                then some ponytail_level
                                else (if bytes_eq key (codes "model_allowlist")
                                    then some model_allowlist
                                    else none))))))))

-- The field that a key node names; other keys are skipped.
unfoldable pub key_field : Node → Option Field
unfolding known_field
key_field (node scalar_node tag value content) = known_field value
key_field _ = none

-- A number for each field, by which two of them are compared.
abbrev pub field_index : Field → ℕ
field_index rtk_enabled = 0
field_index headroom_enabled = 1
field_index headroom_url = 2
field_index headroom_timeout_ms = 3
field_index caveman_enabled = 4
field_index caveman_level = 5
field_index ponytail_enabled = 6
field_index ponytail_level = 7
field_index model_allowlist = 8

abbrev pub field_eq : Field → Field → Bool
field_eq a b = field_index a == field_index b

unfoldable pub seen_before : Field → List Field → Bool
seen_before f [] = false
seen_before f (g ∷ gs) = field_eq f g || seen_before f gs

-- The loop over the pairs of a mapping's content.
unfoldable pub parse_fields : Libraries → Nodes → List Field → Config → Result Config
parse_fields l no_more seen c = ok c
parse_fields l (more key no_more) seen c = ok c
parse_fields l (more key (more value rest)) seen c = elim (key_field key) [
  | none ↦ parse_fields l rest seen c
  | some f ↦ elim (seen_before f seen) [
    | true ↦ err (duplicated f)
    | false ↦ elim (set_field l f value c) [
      | err e ↦ err e
      | ok c' ↦ parse_fields l rest (f ∷ seen) c'
    ]
  ]
]

-- The content of the document's root, if it is a mapping.
unfoldable pub root_content : Nodes → Result Nodes
root_content (more (node mapping_node tag value content) ns) = ok content
root_content _ = err not_an_object

-- `decodeDocument`; an empty document counts as an empty mapping.
unfoldable pub decode_root : Libraries → Bytes → Result Nodes
decode_root l raw = elim (l.decode_document raw) [
  | none ↦ err undecodable
  | some no_more ↦ ok no_more
  | some (more n ns) ↦ elim (l.decode_trailing raw) [
    | another_document ↦ err many_documents
    | broken ↦ err undecodable
    | eof ↦ root_content (more n ns)
  ]
]

unfoldable pub parse : Libraries → Bytes → Result Config
parse l raw =
    if is_blank raw
    then ok defaults
    else (decode_root l raw >>= λ content.
        parse_fields l content [] defaults >>= λ c. ok (record c { raw_yaml = raw }))
