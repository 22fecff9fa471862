-- ===== src/Tests/Settings.antt =====
-- internal/config/config.go at concrete inputs.
use cpa_plugin_token_saver.Common.{[], false, none, pos, refl, some, subst, true, ◌∷◌, ◌≡◌, ◌⊎◌}
use cpa_plugin_token_saver.Config.{
  Config, Libraries, Node, Nodes, Url, defaults, eof, err, headroom_url, is_one_of, mapping_node,
  more, no_more, node, ok, scalar_node, unusable,
}
use cpa_plugin_token_saver.Text.{
  Bytes, bytes_eq, codes, is_blank, space_width, space_width_back, trim_by, trim_space,
}
use cpa_plugin_token_saver.Config.Fields.{
  checked_timeout, decode_bool, decode_int_field, decode_root, is_empty, key_field, known_field,
  normalize_headroom_url, parse, parse_bool, parse_fields, root_content, seen_before, set_field,
}
use cpa_plugin_token_saver.Config.Store.{
  StoreState, last_good, new_store, reload_all, reload_all-last_good, snapshot,
}
use cpa_plugin_token_saver.Config.Validity.{IsValid, parse-IsValid}
use cpa_plugin_token_saver.Headroom.Endpoint.{
  HostNamed, compress_path, fixed_endpoint, fixed_endpoint-normalize_headroom_url,
}

abbrev pub key_node : Bytes → Node
key_node name = node scalar_node (codes "!!str") name no_more

abbrev pub sample_content : Nodes
sample_content = more (key_node (codes "rtk_enabled")) (
    more (node scalar_node (codes "!!bool") (codes "true") no_more) (
      more (key_node (codes "theme")) (
        more (key_node (codes "dark")) (
          more (key_node (codes "headroom_timeout_ms"))
            (more (node scalar_node (codes "!!int") (codes "200") no_more) no_more)))))

abbrev pub sample_libraries : Libraries
sample_libraries = record {
  decode_document =
      λ raw. some (more (node mapping_node (codes "!!map") [] sample_content) no_more);
  decode_trailing = λ raw. eof;
  decode_int = λ n. some (pos 200);
  parse_url = λ raw. none;
  print_url = λ u. [];
}

abbrev pub sample_digest : Config → Bytes
sample_digest c = c.caveman_level

abbrev pub sample_config : Config
sample_config = record defaults {
  rtk_enabled = true;
  headroom_timeout_ms = 200;
  raw_yaml = codes "x";
}

sample_fields :
    parse_fields sample_libraries sample_content [] defaults
    ≡ ok (record defaults { rtk_enabled = true; headroom_timeout_ms = 200 })
unfolding parse_fields key_field known_field seen_before set_field decode_bool parse_bool
    decode_int_field checked_timeout defaults is_one_of bytes_eq
sample_fields = refl

pub sample_parsed : parse sample_libraries (codes "x") ≡ ok sample_config
unfolding parse decode_root root_content is_blank parse_fields key_field known_field seen_before
    set_field decode_bool parse_bool decode_int_field checked_timeout defaults is_one_of bytes_eq
    trim_space trim_by space_width space_width_back
sample_parsed = refl

parse-IsValid_example : IsValid sample_libraries sample_config
parse-IsValid_example = parse-IsValid sample_libraries (codes "x") sample_config sample_parsed

abbrev sample_store : StoreState
sample_store = (new_store sample_libraries sample_digest (codes "x")).0

reload_all-last_good_example :
    snapshot sample_libraries sample_digest
      (reload_all sample_libraries sample_digest sample_store (codes "x" ∷ codes "y" ∷ []))
    ≡ last_good sample_libraries sample_digest sample_store.config (codes "x" ∷ codes "y" ∷ [])
reload_all-last_good_example =
    reload_all-last_good sample_libraries sample_digest (codes "x" ∷ codes "y" ∷ []) sample_store

abbrev sample_url : Url
sample_url = record {
  scheme = codes "http";
  opaque = [];
  host = codes "127.0.0.1:8787";
  has_user = false;
  raw_query = [];
  force_query = false;
  fragment = [];
  path = codes "/";
  raw_path = [];
  hostname = codes "127.0.0.1";
  port = codes "8787";
}

abbrev url_libraries : Libraries
url_libraries = record sample_libraries { parse_url = λ raw. some sample_url }

url_libraries-HostNamed : HostNamed url_libraries
url_libraries-HostNamed raw u parsed =
    subst
      (λ o. elim o as (λ x. Type 0) [
        | none ↦ Unit {0}
        | some v ↦ is_empty v.host ≡ true → is_empty v.hostname ≡ true
      ])
      parsed (λ h. cc)

fixed_endpoint-normalize_headroom_url_example :
    ((fixed_endpoint url_libraries (codes "http://127.0.0.1:8787/") ≡ none)
      × (normalize_headroom_url url_libraries (codes "http://127.0.0.1:8787/")
          ≡ err (unusable headroom_url)))
    ⊎ ((u : Url) × (some sample_url ≡ some u)
        × (fixed_endpoint url_libraries (codes "http://127.0.0.1:8787/")
            ≡ some (record u { path = compress_path; raw_path = [] }))
        × (normalize_headroom_url url_libraries (codes "http://127.0.0.1:8787/") ≡ ok []))
fixed_endpoint-normalize_headroom_url_example =
    fixed_endpoint-normalize_headroom_url url_libraries (codes "http://127.0.0.1:8787/")
      url_libraries-HostNamed
