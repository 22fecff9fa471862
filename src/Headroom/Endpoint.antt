-- ===== src/Headroom/Endpoint.antt =====
-- internal/headroom/client.go: the URL that a client is made for, and the checks of `newClient`.
use cpa_plugin_token_saver.Common.{
  Bool, Bool-cases, Option, Option-cases, [], arith, false, if◌then◌else◌, inl, inr, ltb, none, not,
  refl, some, true, ℕ, ◌&&◌, ◌*◌, ◌||◌, ◌∷◌, ◌≡◌, ◌⊎◌,
}
use cpa_plugin_token_saver.Config.{Libraries, Url, err, headroom_url, ok, unusable}
use cpa_plugin_token_saver.Text.{Bytes, bytes_eq, codes, trim_space}
use cpa_plugin_token_saver.Config.Fields.{
  acceptable_url, is_empty, is_loopback, normalize_headroom_url, port_value, valid_port,
}
use cpa_plugin_token_saver.Headroom.Client.{Client, new_client}

abbrev pub compress_path : Bytes
compress_path = codes "/v1/compress"

abbrev pub min_timeout_ns : ℕ
min_timeout_ns = 100 * 1_000_000

abbrev pub max_timeout_ns : ℕ
max_timeout_ns = 1500 * 1_000_000

-- The checks of `fixedEndpoint` on the parsed URL.
unfoldable pub acceptable_endpoint : Url → Bool
acceptable_endpoint u =
    (bytes_eq u.scheme (codes "http") && is_empty u.opaque && not (is_empty u.host))
    && (not u.has_user && is_empty u.raw_query && not u.force_query && is_empty u.fragment)
    && ((is_empty u.path || bytes_eq u.path (codes "/")) && is_empty u.raw_path)
    && is_loopback u.hostname
    && (is_empty u.port || valid_port (port_value u.port))

unfoldable pub fixed_endpoint : Libraries → Bytes → Option Url
unfolding acceptable_endpoint
fixed_endpoint l raw =
    if is_empty raw || not (bytes_eq (trim_space raw) raw) then none else elim (l.parse_url raw) [
      | none ↦ none
      | some u ↦
          if not (acceptable_endpoint u)
          then none
          else some (record u { path = compress_path; raw_path = [] })
    ]

-- `newClient`, with none for an error.
unfoldable pub open_client : Libraries → Bytes → ℕ → Option Client
unfolding fixed_endpoint
open_client l raw timeout_ns = elim (fixed_endpoint l raw) [
  | none ↦ none
  | some u ↦
      if ltb timeout_ns min_timeout_ns || ltb max_timeout_ns timeout_ns
      then none
      else some (new_client timeout_ns)
]

-- `Hostname` is what `Host` has before the port: it is empty if `Host` is.
abbrev pub HostNamed : Libraries → Type 0
HostNamed l =
    (raw : Bytes) (u : Url)
    → l.parse_url raw ≡ some u
    → is_empty u.host ≡ true
    → is_empty u.hostname ≡ true

is_loopback_named : (host : Bytes) → is_loopback host ≡ true → is_empty host ≡ false
unfolding is_loopback bytes_eq
is_loopback_named [] h = absurd (ground arith)
is_loopback_named (c ∷ s) h = refl

acceptable_endpoint_lem :
    (u : Url)
    → (is_empty u.host ≡ true → is_empty u.hostname ≡ true)
    → acceptable_endpoint u ≡ acceptable_url u
unfolding acceptable_endpoint acceptable_url
acceptable_endpoint_lem u named = ground (arith, is_loopback_named u.hostname)

-- The client and the configuration accept the same URLs, if a parsed URL without a host has no host
-- name: either both refuse a text, or both accept it, the client with the path of the compression
-- service and the configuration without a path.
pub fixed_endpoint-normalize_headroom_url :
    (l : Libraries) (raw : Bytes)
    → HostNamed l
    → ((fixed_endpoint l raw ≡ none) × (normalize_headroom_url l raw ≡ err (unusable headroom_url)))
      ⊎ ((u : Url) × (l.parse_url raw ≡ some u)
          × (fixed_endpoint l raw ≡ some (record u { path = compress_path; raw_path = [] }))
          × (normalize_headroom_url l raw
              ≡ ok (l.print_url (record u { path = []; raw_path = [] }))))
unfolding fixed_endpoint normalize_headroom_url
fixed_endpoint-normalize_headroom_url l raw named =
    elim (Bool-cases (is_empty raw || not (bytes_eq (trim_space raw) raw))) [
      | inl blank_around ↦ inl (ground arith, ground arith)
      | inr tight ↦ elim (Option-cases (l.parse_url raw)) [
        | inl bad ↦ inl (ground arith, ground arith)
        | inr (u, parsed) ↦
            let same = acceptable_endpoint_lem u (named raw u parsed) in
            elim (Bool-cases (acceptable_url u)) [
              | inr refused ↦ inl (ground arith, ground arith)
              | inl good ↦ inr (u, parsed, ground arith, ground arith)
            ]
      ]
    ]
