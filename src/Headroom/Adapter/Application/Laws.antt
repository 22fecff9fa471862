-- ===== src/Headroom/Adapter/Application/Laws.antt =====
-- internal/headroom/adapter.go: what `rewrite` and `Apply` return.
use cpa_plugin_token_saver.Common.{
  Bool-cases, List, Option, [], arith, false, inl, inr, length, ltb, none, not, refl, some, subst,
  sym, true, ℕ, ◌==◌, ◌||◌, ◌↔◌, ◌∷◌, ◌≡◌, ◌≤◌, ◌⊎◌,
}
use cpa_plugin_token_saver.Json.{Gjson}
use cpa_plugin_token_saver.Protocol.{Pair, eligible}
use cpa_plugin_token_saver.Text.{Bytes}
use cpa_plugin_token_saver.Headroom.Adapter.{Decoder, Items, Projection}
use cpa_plugin_token_saver.Headroom.Client.{
  Attempt, Client, Json, Outcome, applied, compress, is_applied, max_payload_bytes,
}
use cpa_plugin_token_saver.Headroom.Adapter.Application.{
  Projections, accepts, apply, apply_projected, apply_projection, delivered, finish_apply, in_order,
  project_to, rewrite, send, sorted_edits,
}
use cpa_plugin_token_saver.Headroom.Adapter.Validation.{decode_all, validate}
use cpa_plugin_token_saver.Protocol.Payload.Rewrite.{Edit, splice}
use cpa_plugin_token_saver.Headroom.Adapter.Application.Written.{IsWritten, sorted_edits-IsWritten}
use cpa_plugin_token_saver.Headroom.Adapter.Validation.Read.{AllRead}
use cpa_plugin_token_saver.Headroom.Adapter.Validation.Taken.{validate-AllRead}
use cpa_plugin_token_saver.Protocol.Payload.Rewrite.Offered.{Has}
use cpa_plugin_token_saver.Protocol.Payload.Rewrite.Spliced.{IsSpliced, Ordered, splice-IsSpliced}

in_order-Ordered :
    (size previous_end : ℕ) (es : List Edit)
    → previous_end ≤ size
    → in_order size previous_end es ≡ true
    → Ordered size previous_end es
unfolding in_order
in_order-Ordered size previous_end [] h placed = h
in_order-Ordered size previous_end (e ∷ es) h placed =
    (ground arith, ground arith, in_order-Ordered size e.end es (ground arith) (ground arith))

pub rewrite-IsSpliced :
    (view : Projection) (body : Bytes) (replacements : List Bytes)
    → (rewrite view body replacements).1 ≡ true
    → IsSpliced 0 (sorted_edits view replacements) body (rewrite view body replacements).0
unfolding rewrite
rewrite-IsSpliced view body replacements h =
    let placed : in_order (length body) 0 (sorted_edits view replacements) ≡ true =
      (ground arith) in
    let es = sorted_edits view replacements in
    let done : (rewrite view body replacements).0 ≡ splice body 0 es = (ground arith) in
    subst (λ out. IsSpliced 0 es body out) (sym done)
      (splice-IsSpliced body 0 es (in_order-Ordered (length body) 0 es (omega arith) placed))

pub rewrite_unchanged :
    (view : Projection) (body : Bytes) (replacements : List Bytes)
    → (rewrite view body replacements).1 ≡ false
    → (rewrite view body replacements).0 ≡ body
unfolding rewrite
rewrite_unchanged view body replacements h = ground arith

-- The body with edits spliced in, exactly those that write a changed text at its target.
abbrev pub IsRewritten : Projection → List Bytes → Bytes → Bytes → Type 0
IsRewritten view replacements body out =
    (es : List Edit) × IsSpliced 0 es body out
    × ((e : Edit) → Has e es ↔ IsWritten view.targets replacements e)

-- The reply is accepted, and its texts at the targets' places are written into the body.
abbrev pub IsApplied : Decoder → Projection → List Bytes → Bytes → Bytes → Type 0
IsApplied d view ms body out =
    (replacements : List Bytes) × (actual : Items) × (validate d view ms ≡ some replacements)
    × (decode_all d ms ≡ some actual)
    × AllRead actual [] view.targets replacements
    × IsRewritten view replacements body out
    × (length out ≤ max_payload_bytes)

-- What `Apply` may return: the body itself with an outcome that is not `applied`, or an applied one.
abbrev pub IsResult : (Bytes → Type 0) → Bytes → Bytes → Outcome → Type 0
IsResult applied_to body out outcome =
    ((out ≡ body) × (is_applied outcome ≡ false)) ⊎ (applied_to out × (outcome ≡ applied))

finish_some-IsResult :
    (d : Decoder) (view : Projection) (ms : List Bytes) (body : Bytes) (replacements : List Bytes)
    → validate d view ms ≡ some replacements
    → (let r = finish_apply view body (some replacements) in
        IsResult (IsApplied d view ms body) body r.0 r.1)
unfolding finish_apply
finish_some-IsResult d view ms body replacements h =
    let r = rewrite view body replacements in
    elim (Bool-cases (r.1)) [
      | inl changed ↦ elim (Bool-cases (ltb max_payload_bytes (length (r.0)))) [
        | inl long ↦ rw (changed, long) (inl (refl, refl))
        | inr short ↦
            let spliced = rewrite-IsSpliced view body replacements changed in
            let (actual, decoded, read) = validate-AllRead d view ms replacements h in
            let written : IsRewritten view replacements body (r.0) =
              (sorted_edits view replacements, spliced, sorted_edits-IsWritten view replacements) in
            rw (changed, short)
              (inr ((replacements, actual, h, decoded, read, written, ground arith), refl))
      ]
      | inr same ↦ rw same (inl (refl, refl))
    ]

finish_apply-IsResult :
    (d : Decoder) (view : Projection) (ms : List Bytes) (body : Bytes) (kept : Option (List Bytes))
    → validate d view ms ≡ kept
    → (let r = finish_apply view body kept in IsResult (IsApplied d view ms body) body r.0 r.1)
unfolding finish_apply
finish_apply-IsResult d view ms body none h = inl (refl, refl)
finish_apply-IsResult d view ms body (some replacements) h =
    finish_some-IsResult d view ms body replacements h

send-IsResult :
    (j : Json) (d : Decoder) (c : Client) (a : Attempt) (body : Bytes) (view : Projection)
    (wire : Option Bytes)
    → (let r = send j d c a body view wire in
        IsResult (IsApplied d view (delivered j a.answer) body) body r.1 r.2)
send-IsResult j d c a body view none = inl (refl, refl)
send-IsResult j d c a body view (some wire) =
    let ms = delivered j a.answer in
    elim (Bool-cases (is_applied (compress j (accepts d view) c a wire).1)) [
      | inl done ↦ rw done (finish_apply-IsResult d view ms body (validate d view ms) refl)
      | inr not_done ↦ rw not_done (inl (refl, not_done))
    ]

apply_projection-IsResult :
    (j : Json) (d : Decoder) (c : Client) (a : Attempt) (model body : Bytes) (view : Projection)
    → (let r = apply_projection j d c a model body (some view) in
        IsResult (IsApplied d view (delivered j a.answer) body) body r.1 r.2)
unfolding apply_projection
apply_projection-IsResult j d c a model body view = elim (Bool-cases (length view.targets == 0)) [
  | inl empty ↦ rw empty (inl (refl, refl))
  | inr some_target ↦
      rw some_target (send-IsResult j d c a body view (d.marshal_request view.messages model))
]

-- The body has an eligible format with a projection, and an accepted reply is applied to it.
abbrev pub IsSent : Decoder → Json → Attempt → Option (Option Projection) → Bytes → Bytes → Type 0
IsSent d j a project body out =
    (view : Projection) × (project ≡ some (some view))
    × IsApplied d view (delivered j a.answer) body out

apply_projected-IsResult :
    (j : Json) (d : Decoder) (c : Client) (a : Attempt) (model body : Bytes)
    (project : Option (Option Projection))
    → (let r = apply_projected j d c a model body project in
        IsResult (IsSent d j a project body) body r.1 r.2)
unfolding apply_projected apply_projection
apply_projected-IsResult j d c a model body none = inl (refl, refl)
apply_projected-IsResult j d c a model body (some none) = inl (refl, refl)
apply_projected-IsResult j d c a model body (some (some view)) =
    elim (apply_projection-IsResult j d c a model body view) [
      | inl kept ↦ inl kept
      | inr (done, end) ↦ inr ((view, refl, done), end)
    ]

-- Whatever Headroom answers, the adapter's `Apply` gives the body itself back with an outcome that
-- is not `applied`, or the format is eligible and has a projection, the reply is accepted, and the
-- output, at most `max_payload_bytes` long, is the body with edits spliced in: exactly those that
-- write at a target the text that the decoded reply has at its place, where this is not the
-- original text; for a target that repeats the place of an earlier one the text may be the mask.
pub apply-IsResult :
    (g : Gjson) (j : Json) (d : Decoder) (others : Projections) (c : Client) (a : Attempt)
    (pair : Pair) (model body : Bytes)
    → (let r = apply g j d others c a pair model body in
        IsResult
          (λ out.
            (eligible pair ≡ true) × IsSent d j a (project_to g d others pair.to body) body out)
          body
          r.1
          r.2)
unfolding apply
apply-IsResult g j d others c a pair model body =
    elim (Bool-cases (length body == 0 || not (d.valid body))) [
      | inl invalid ↦ rw invalid (inl (refl, refl))
      | inr valid ↦ elim (Bool-cases (ltb max_payload_bytes (length body))) [
        | inl long ↦ rw (valid, long) (inl (refl, refl))
        | inr short ↦ elim (Bool-cases (eligible pair)) [
          | inl fits ↦
              let project = project_to g d others pair.to body in
              elim (apply_projected-IsResult j d c a model body project) [
                | inl kept ↦ rw (valid, short, fits) (inl kept)
                | inr (done, end) ↦ rw (valid, short, fits) (inr ((refl, done), end))
              ]
          | inr unfit ↦ rw (valid, short, unfit) (inl (refl, refl))
        ]
      ]
    ]
