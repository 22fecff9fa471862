-- ===== src/Config.antt =====
-- internal/config/config.go: the plugin's settings, how they are parsed and published. A string is
-- its bytes; what gopkg.in/yaml.v3 and net/url answer are arguments.
use cpa_plugin_token_saver.Common.{
  Bool, List, Option, [], false, if◌then◌else◌, length, true, ℕ, ℤ, ◌==◌, ◌||◌, ◌∷◌,
}
use cpa_plugin_token_saver.Text.{Bytes, bytes_eq, codes}
pub mod Fields
pub mod Validity
pub mod Keys
pub mod Store

abbrev pub default_headroom_url : Bytes
default_headroom_url = codes "http://127.0.0.1:8787"

abbrev pub min_headroom_timeout_ms : ℕ
min_headroom_timeout_ms = 100

abbrev pub max_headroom_timeout_ms : ℕ
max_headroom_timeout_ms = 1500

pub record Config : Type 0 where
  pub rtk_enabled : Bool
  pub headroom_enabled : Bool
  pub headroom_url : Bytes
  pub headroom_timeout_ms : ℕ
  pub caveman_enabled : Bool
  pub caveman_level : Bytes
  pub ponytail_enabled : Bool
  pub ponytail_level : Bytes
  pub model_allowlist : List Bytes
  pub raw_yaml : Bytes

unfoldable pub defaults : Config
defaults = record {
  rtk_enabled = false;
  headroom_enabled = false;
  headroom_url = default_headroom_url;
  headroom_timeout_ms = 1500;
  caveman_enabled = false;
  caveman_level = codes "full";
  ponytail_enabled = false;
  ponytail_level = codes "full";
  model_allowlist = [];
  raw_yaml = [];
}

-- Whether a string is one of a list.
unfoldable pub is_one_of : List Bytes → Bytes → Bool
is_one_of [] s = false
is_one_of (t ∷ ts) s = bytes_eq s t || is_one_of ts s

unfoldable pub allows_model : Config → Bytes → Bool
unfolding is_one_of bytes_eq
allows_model c model =
    if length c.model_allowlist == 0 then true else is_one_of c.model_allowlist model

abbrev pub caveman_levels : List Bytes
caveman_levels =
    codes "lite"
    ∷ codes "full"
    ∷ codes "ultra"
    ∷ codes "wenyan-lite"
    ∷ codes "wenyan"
    ∷ codes "wenyan-ultra"
    ∷ []

abbrev pub ponytail_levels : List Bytes
ponytail_levels = codes "lite" ∷ codes "full" ∷ codes "ultra" ∷ []

-- A node as gopkg.in/yaml.v3 decodes it; `no_node` is the nil pointer.
pub data Kind : Type 0 where
  document_node sequence_node mapping_node scalar_node alias_node : Kind

mutual
  pub data Node : Type 0 where
    no_node : Node
    node : Kind → Bytes → Bytes → Nodes → Node

  pub data Nodes : Type 0 where
    no_more : Nodes
    more : Node → Nodes → Nodes

-- The second call of the decoder.
pub data Trailing : Type 0 where
  eof another_document broken : Trailing

-- A parsed URL, by the fields that the code reads.
pub record Url : Type 0 where
  pub scheme : Bytes
  pub opaque : Bytes
  pub host : Bytes
  pub has_user : Bool
  pub raw_query : Bytes
  pub force_query : Bool
  pub fragment : Bytes
  pub path : Bytes
  pub raw_path : Bytes
  pub hostname : Bytes
  pub port : Bytes

-- The code that is called and does not stand in the repository.
pub record Libraries : Type 0 where
  pub decode_document : Bytes → Option Nodes
  pub decode_trailing : Bytes → Trailing
  pub decode_int : Node → Option ℤ
  pub parse_url : Bytes → Option Url
  pub print_url : Url → Bytes

pub data Field : Type 0 where
  rtk_enabled headroom_enabled headroom_url headroom_timeout_ms caveman_enabled : Field
  caveman_level ponytail_enabled ponytail_level model_allowlist : Field

pub data ConfigError : Type 0 where
  undecodable : ConfigError
  not_an_object : ConfigError
  many_documents : ConfigError
  duplicated : Field → ConfigError
  unusable : Field → ConfigError

-- The two results of a decoding function: the error, or the value when it is nil.
pub data Result {ℓ} (A : Type ℓ) : Type ℓ where
  err : ConfigError → Result A
  ok : A → Result A

infixl 5 ◌>>=◌
abbrev pub ◌>>=◌ {ℓ₁ ℓ₂} :
    {Value : Type ℓ₁} {Next : Type ℓ₂} → Result Value → (Value → Result Next) → Result Next
err reason >>= rest = err reason
ok value >>= rest = rest value
