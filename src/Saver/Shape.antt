-- ===== src/Saver/Shape.antt =====
-- internal/saver/pipeline.go: the check of a provider body. What encoding/json and gjson answer is
-- an argument.
use cpa_plugin_token_saver.Common.{
  Bool, List, [], false, if◌then◌else◌, length, ltb, not, true, ℕ, ◌&&◌, ◌*◌, ◌==◌, ◌^◌, ◌||◌, ◌∷◌,
}
use cpa_plugin_token_saver.Config.{is_one_of}
use cpa_plugin_token_saver.Json.{Gjson}
use cpa_plugin_token_saver.Protocol.{Pair, eligible}
use cpa_plugin_token_saver.Text.{Bytes, bytes_eq, codes}

pub record Request : Type 0 where
  pub from_format : Bytes
  pub to_format : Bytes
  pub model : Bytes
  pub stream : Bool
  pub body : Bytes

abbrev pub max_provider_payload_bytes : ℕ
max_provider_payload_bytes = 10 * 2 ^ 20

abbrev pub pair : Request → Pair
pair r = record { from = r.from_format; to = r.to_format }

module _ (g : Gjson) where
  abbrev is_filled_array : g.Value → Bool
  is_filled_array v = g.is_array v && not (length (g.array v) == 0)

  unfoldable pub all_roles : List Bytes → List g.Value → Bool
  all_roles allowed [] = true
  all_roles allowed (v ∷ vs) =
      if not (g.is_object v) || not (is_one_of allowed (g.string (g.value_at v (codes "role"))))
      then false
      else all_roles allowed vs

  unfoldable pub valid_role_array : g.Value → List Bytes → Bool
  unfolding all_roles
  valid_role_array items allowed =
      if not (is_filled_array items) then false else all_roles allowed (g.array items)

  unfoldable pub all_contents : List g.Value → Bool
  all_contents [] = true
  all_contents (v ∷ vs) =
      let role = g.string (g.value_at v (codes "role")) in
      if not (g.is_object v) || not (g.is_array (g.value_at v (codes "parts")))
      then false
      else (if not (bytes_eq role (codes "user")) && not (bytes_eq role (codes "model"))
          then false
          else all_contents vs)

  unfoldable pub valid_gemini_provider_shape : g.Value → Bool
  unfolding all_contents
  valid_gemini_provider_shape contents =
      if not (is_filled_array contents) then false else all_contents (g.array contents)

  unfoldable pub all_items : List g.Value → Bool
  all_items [] = true
  all_items (v ∷ vs) =
      let role = g.value_at v (codes "role") in
      let kind = g.value_at v (codes "type") in
      if not (g.is_object v)
      then false
      else (if not (g.is_string role) && (not (g.is_string kind) || bytes_eq (g.string kind) [])
          then false
          else all_items vs)

  -- The `switch` of `validProviderShape`.
  unfoldable pub target_shape : Bytes → g.Value → Bool
  unfolding valid_role_array all_items valid_gemini_provider_shape
  target_shape to root =
      if bytes_eq to (codes "openai")
      then valid_role_array (g.value_at root (codes "messages")) (
          codes "system"
          ∷ codes "developer"
          ∷ codes "user"
          ∷ codes "assistant"
          ∷ codes "tool"
          ∷ codes "function"
          ∷ [])
      else (if bytes_eq to (codes "openai-response") || bytes_eq to (codes "codex")
          then is_filled_array (g.value_at root (codes "input"))
            && all_items (g.array (g.value_at root (codes "input")))
          else (if bytes_eq to (codes "claude")
              then valid_role_array (g.value_at root (codes "messages"))
                  (codes "user" ∷ codes "assistant" ∷ [])
              else (if bytes_eq to (codes "gemini")
                  then valid_gemini_provider_shape (g.value_at root (codes "contents"))
                  else (if bytes_eq to (codes "antigravity")
                      then g.is_object (g.value_at root (codes "request"))
                        && valid_gemini_provider_shape (g.value_at root (codes "request.contents"))
                      else false))))

  unfoldable pub valid_provider_shape : Bytes → Request → Bool
  unfolding target_shape
  valid_provider_shape body request =
      if length body == 0
        || ltb max_provider_payload_bytes (length body)
        || not (g.json_valid body)
        || not (eligible (pair request))
      then false
      else g.is_object (g.parse_bytes body) && target_shape request.to_format (g.parse_bytes body)
