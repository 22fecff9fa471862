-- ===== src/Protocol/Payload/Views/Target.antt =====
-- What `View` comes to, for each target.
use cpa_plugin_token_saver.Common.{
  Bool, Bool-cases, List, Option, [], false, if◌then◌else◌, inl, inr, length, none, none≢some, not,
  refl, some, some-injective, subst, true, ℕ, ◌==◌, ◌||◌, ◌≡◌,
}
use cpa_plugin_token_saver.Json.{Gjson}
use cpa_plugin_token_saver.Protocol.{Pair, eligible}
use cpa_plugin_token_saver.Text.{Bytes, bytes_eq, codes}
use cpa_plugin_token_saver.Protocol.Payload.{
  Payload, SlotKind, for_each, slot_claude_messages, slot_gemini, slot_openai_chat,
  slot_openai_responses,
}
use cpa_plugin_token_saver.Protocol.Payload.Views.{
  chat_message, claude_message, claude_messages, gemini_at, gemini_content, openai_chat,
  openai_responses, responses_item, view, view_target,
}
use cpa_plugin_token_saver.Protocol.Payload.Views.Anchored.{IsView, for_each-IsView}
use cpa_plugin_token_saver.Protocol.Payload.Views.Walks.{
  chat_message-IsView, claude_message-IsView, gemini_content-IsView, responses_item-IsView,
}

-- What the `switch` of `View` names the slots of a target.
abbrev pub kind_of : Bytes → SlotKind
kind_of to =
    if bytes_eq to (codes "openai")
    then slot_openai_chat
    else (if bytes_eq to (codes "openai-response") || bytes_eq to (codes "codex")
        then slot_openai_responses
        else (if bytes_eq to (codes "claude") then slot_claude_messages else slot_gemini))

module _ (g : Gjson) where
  -- Every view that a walk comes to is one of the body.
  abbrev pub ViewsOf : Bytes → SlotKind → Option Payload → Type 0
  ViewsOf body kind o = (p : Payload) → o ≡ some p → IsView g body kind p

  walked-ViewsOf :
      (body : Bytes) (kind : SlotKind) (step : ℕ → g.Value → Payload → Payload) (p : Payload)
      (refused : Bool) (vs : List g.Value)
      → ((i : ℕ) (v : g.Value) (p : Payload)
          → IsView g body kind p
          → IsView g body kind (step i v p))
      → IsView g body kind p
      → ViewsOf body kind (if refused then none else some (for_each g step 0 vs p))
  walked-ViewsOf body kind step p true vs keeps h q e = absurd (none≢some e)
  walked-ViewsOf body kind step p false vs keeps h q e =
      subst (IsView g body kind) (some-injective e)
        (for_each-IsView g body kind step keeps 0 vs p h)

  openai_chat-ViewsOf :
      (body : Bytes) (p : Payload)
      → IsView g body slot_openai_chat p
      → ViewsOf body slot_openai_chat (openai_chat g p)
  unfolding openai_chat
  openai_chat-ViewsOf body p h =
      walked-ViewsOf body slot_openai_chat (chat_message g) p
        (not (g.is_array (g.get_bytes p.raw (codes "messages")))) _ (chat_message-IsView g body) h

  openai_responses-ViewsOf :
      (body : Bytes) (p : Payload)
      → IsView g body slot_openai_responses p
      → ViewsOf body slot_openai_responses (openai_responses g p)
  unfolding openai_responses
  openai_responses-ViewsOf body p h =
      walked-ViewsOf body slot_openai_responses (responses_item g) p
        (not (g.is_array (g.get_bytes p.raw (codes "input")))) _ (responses_item-IsView g body) h

  claude_messages-ViewsOf :
      (body : Bytes) (p : Payload)
      → IsView g body slot_claude_messages p
      → ViewsOf body slot_claude_messages (claude_messages g p)
  unfolding claude_messages
  claude_messages-ViewsOf body p h =
      walked-ViewsOf body slot_claude_messages (claude_message g) p
        (not (g.is_array (g.get_bytes p.raw (codes "messages")))) _ (claude_message-IsView g body) h

  gemini_at-ViewsOf :
      (body path : Bytes) (p : Payload)
      → IsView g body slot_gemini p
      → ViewsOf body slot_gemini (gemini_at g path p)
  unfolding gemini_at
  gemini_at-ViewsOf body path p h =
      walked-ViewsOf body slot_gemini (gemini_content g path) p
        (not (g.is_array (g.get_bytes p.raw path))) _ (gemini_content-IsView g body path) h

  -- The view of an untouched body; the kind stands last, so that the walks above fit it.
  empty-IsView :
      (body : Bytes) (kind : SlotKind) → IsView g body kind (record { raw = body; slots = [] })
  empty-IsView body kind = record { same = refl; anchored = tt }

  view_target-ViewsOf :
      (body to : Bytes)
      → ViewsOf body (kind_of to) (view_target g to (record { raw = body; slots = [] }))
  unfolding view_target
  view_target-ViewsOf body to = elim (Bool-cases (bytes_eq to (codes "openai"))) [
    | inl chat ↦ rw (chat, view_target) (openai_chat-ViewsOf body _ (empty-IsView body _))
    | inr c1 ↦
        elim (Bool-cases (bytes_eq to (codes "openai-response") || bytes_eq to (codes "codex"))) [
          | inl responses ↦
              rw (c1, responses, view_target)
                (openai_responses-ViewsOf body _ (empty-IsView body _))
          | inr c2 ↦ elim (Bool-cases (bytes_eq to (codes "claude"))) [
            | inl is_claude ↦
                rw (c1, c2, is_claude, view_target)
                  (claude_messages-ViewsOf body _ (empty-IsView body _))
            | inr c3 ↦ elim (Bool-cases (bytes_eq to (codes "gemini"))) [
              | inl is_gemini ↦
                  rw (c1, c2, c3, is_gemini, view_target)
                    (gemini_at-ViewsOf body _ _ (empty-IsView body _))
              | inr c4 ↦ elim (Bool-cases (bytes_eq to (codes "antigravity"))) [
                | inl is_antigravity ↦
                    rw (c1, c2, c3, c4, is_antigravity, view_target)
                      (gemini_at-ViewsOf body _ _ (empty-IsView body _))
                | inr c5 ↦ rw (c1, c2, c3, c4, c5, view_target) (λ p e. absurd (none≢some e))
              ]
            ]
          ]
        ]
  ]

  pub view-IsView :
      (body : Bytes) (route : Pair) (p : Payload)
      → view g body route ≡ some p
      → IsView g body (kind_of route.to) p
  unfolding view
  view-IsView body route p =
      elim (Bool-cases (length body == 0 || not (eligible route) || not (g.valid body))) [
        | inl refused ↦ rw (refused, view) (λ e. absurd (none≢some e))
        | inr passed ↦ elim (Bool-cases (not (g.is_object (g.parse_bytes body)))) [
          | inl no_object ↦ rw (passed, no_object, view) (λ e. absurd (none≢some e))
          | inr object ↦ rw (passed, object, view) (view_target-ViewsOf body route.to p)
        ]
      ]
