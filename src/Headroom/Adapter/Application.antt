-- ===== src/Headroom/Adapter/Application.antt =====
-- internal/headroom/adapter.go: `rewrite`, and the part of `Apply` that follows the projection.
use cpa_plugin_token_saver.Common.{
  Bool, List, Option, [], false, if◌then◌else◌, length, ltb, none, not, some, true, ℕ, ◌&&◌, ◌==◌,
  ◌||◌, ◌∷◌,
}
use cpa_plugin_token_saver.Json.{Gjson}
use cpa_plugin_token_saver.Protocol.{Pair, eligible}
use cpa_plugin_token_saver.Text.{Bytes, bytes_eq, codes}
use cpa_plugin_token_saver.Headroom.Adapter.{Decoder, Projection, TextTarget}
use cpa_plugin_token_saver.Headroom.Client.{
  Answer, Attempt, Body, Client, Json, Outcome, applied, compress, decode_messages, is_applied,
  max_payload_bytes, messages, no_change, read_limited, readable, refused_as, request_too_large,
  responded, response_too_large, unreadable, unsupported_format, unsupported_structure,
}
use cpa_plugin_token_saver.Json.Marshal.{marshal_string}
use cpa_plugin_token_saver.Saver.Pipeline.{size}
use cpa_plugin_token_saver.Saver.Shape.{pair}
use cpa_plugin_token_saver.Headroom.Adapter.Chat.{project_openai_chat}
use cpa_plugin_token_saver.Headroom.Adapter.Validation.{validate}
use cpa_plugin_token_saver.Protocol.Payload.Rewrite.{Edit, is_misplaced, sort_edits, splice}
use cpa_plugin_token_saver.Protocol.Payload.Views.{view}
pub mod Laws
pub mod Written

-- The loop over the targets; a text that did not change makes no edit.
unfoldable pub changed_edits : List TextTarget → List Bytes → List Edit
unfolding bytes_eq
changed_edits [] replacements = []
changed_edits (target ∷ targets) [] = []
changed_edits (target ∷ targets) (text ∷ texts) =
    let rest = changed_edits targets texts in
    if bytes_eq text target.original
    then rest
    else record { start = target.start; end = target.end; raw = marshal_string text } ∷ rest

-- The loop that checks the sorted edits: one out of place refuses them all.
unfoldable pub in_order : ℕ → ℕ → List Edit → Bool
in_order size previous_end [] = true
in_order size previous_end (e ∷ es) =
    not (is_misplaced size previous_end e) && in_order size e.end es

abbrev pub sorted_edits : Projection → List Bytes → List Edit
sorted_edits view replacements = sort_edits (changed_edits view.targets replacements)

unfoldable pub rewrite : Projection → Bytes → List Bytes → Bytes × Bool
unfolding changed_edits sort_edits in_order splice
rewrite view body replacements =
    if not (length replacements == length view.targets)
    then (body, false)
    else (if length (changed_edits view.targets replacements) == 0
        then (body, false)
        else (if in_order (length body) 0 (sorted_edits view replacements)
            then (splice body 0 (sorted_edits view replacements), true)
            else (body, false)))

-- The messages that the validator of `Compress` is called with.
abbrev pub delivered_body : Json → Body → List Bytes
delivered_body j (unreadable e) = []
delivered_body j (readable bytes) = elim (decode_messages j (read_limited bytes)) [
  | messages ms ↦ ms
  | refused_as o ↦ []
]

abbrev pub delivered : Json → Answer → List Bytes
delivered j (responded r) = delivered_body j r.body
delivered j _ = []

abbrev pub accepts : Decoder → Projection → List Bytes → Bool
accepts d view ms = elim (validate d view ms) [ none ↦ false | some replacements ↦ true ]

-- After an applied outcome: `replacements` is what the validator kept.
unfoldable pub finish_apply : Projection → Bytes → Option (List Bytes) → Bytes × Outcome
unfolding rewrite
finish_apply view body none = (body, no_change)
finish_apply view body (some replacements) =
    let (output, changed) = rewrite view body replacements in
    if not changed
    then (body, no_change)
    else (if ltb max_payload_bytes (length output)
        then (body, response_too_large)
        else (output, applied))

abbrev pub send :
    Json → Decoder → Client → Attempt → Bytes → Projection → Option Bytes → Client × Bytes × Outcome
send j d c a body view none = (c, body, unsupported_structure)
send j d c a body view (some wire) =
    let (c', outcome) = compress j (accepts d view) c a wire in
    let (output, end) = finish_apply view body (validate d view (delivered j a.answer)) in
    if is_applied outcome then (c', output, end) else (c', body, outcome)

unfoldable pub apply_projection :
    Json → Decoder → Client → Attempt → Bytes → Bytes → Option Projection → Client × Bytes × Outcome
unfolding compress validate finish_apply
apply_projection j d c a model body none = (c, body, unsupported_structure)
apply_projection j d c a model body (some view) =
    if length view.targets == 0
    then (c, body, unsupported_structure)
    else send j d c a body view (d.marshal_request view.messages model)

-- The projections of the other formats, which are arguments.
pub record Projections : Type 0 where
  pub project_responses : Bytes → Option Projection
  pub project_claude : Bytes → Option Projection
  pub project_gemini : Bytes → Option Projection
  pub project_antigravity : Bytes → Option Projection

-- The switch on the target format; none is its default.
unfoldable pub project_to :
    Gjson → Decoder → Projections → Bytes → Bytes → Option (Option Projection)
unfolding bytes_eq project_openai_chat
project_to g d others to body =
    if bytes_eq to (codes "openai")
    then some (project_openai_chat g body d)
    else (if bytes_eq to (codes "openai-response") || bytes_eq to (codes "codex")
        then some (others.project_responses body)
        else (if bytes_eq to (codes "claude")
            then some (others.project_claude body)
            else (if bytes_eq to (codes "gemini")
                then some (others.project_gemini body)
                else (if bytes_eq to (codes "antigravity")
                    then some (others.project_antigravity body)
                    else none))))

-- The end of `Apply`, from the projection on.
unfoldable pub apply_projected :
    Json
    → Decoder
    → Client
    → Attempt
    → Bytes
    → Bytes
    → Option (Option Projection)
    → Client × Bytes × Outcome
unfolding apply_projection
apply_projected j d c a model body none = (c, body, unsupported_format)
apply_projected j d c a model body (some view) = apply_projection j d c a model body view

unfoldable pub apply :
    Gjson
    → Json
    → Decoder
    → Projections
    → Client
    → Attempt
    → Pair
    → Bytes
    → Bytes
    → Client × Bytes × Outcome
unfolding eligible project_to apply_projected
apply g j d others c a pair model body =
    if length body == 0 || not (d.valid body)
    then (c, body, unsupported_structure)
    else (if ltb max_payload_bytes (length body)
        then (c, body, request_too_large)
        else (if not (eligible pair)
            then (c, body, unsupported_format)
            else apply_projected j d c a model body (project_to g d others pair.to body)))
