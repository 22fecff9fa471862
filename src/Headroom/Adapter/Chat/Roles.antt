-- ===== src/Headroom/Adapter/Chat/Roles.antt =====
-- internal/headroom/adapter.go: the targets that `projectOpenAIChat` finds.
use cpa_plugin_token_saver.Common.{
  List, Option, [], arith, length, ltb, none, not, pos-some, some, some-injective, subst, true,
  when-some, ℕ, ◌++◌, ◌+◌, ◌||◌, ◌∷◌, ◌≡◌, ◌≤◌,
}
use cpa_plugin_token_saver.Json.{Gjson}
use cpa_plugin_token_saver.Text.{Bytes, bytes_eq, bytes_eq_sound, codes}
use cpa_plugin_token_saver.Headroom.Adapter.{
  Fields, Items, Projection, TextTarget, Value, add_target, as_array, as_string, field, is_text,
  item_at, object,
}
use cpa_plugin_token_saver.Protocol.Payload.{slice}
use cpa_plugin_token_saver.Headroom.Adapter.Chat.{block_text, is_mutable, valid_openai_role}

-- The text that a target of a message names.
abbrev pub text_of : Option Value → Option Bytes
text_of none = none
text_of (some raw_block) = block_text raw_block

abbrev pub text_in : ℕ → Option Items → Option Bytes
text_in block_index none = none
text_in block_index (some blocks) = text_of (item_at block_index blocks)

abbrev pub text_at : Fields → Option ℕ → Option Bytes
text_at message none = as_string (field (codes "content") message)
text_at message (some block_index) =
    text_in block_index (as_array (field (codes "content") message))

-- The message that stands at an index, with its role.
abbrev pub IsLocated : Items → ℕ → Fields → Bytes → Type 0
IsLocated messages message_index message role =
    (item_at message_index messages ≡ some (object message))
    × (as_string (field (codes "role") message) ≡ some role)
    × (valid_openai_role role ≡ true)

-- Its role is none of the instructions' roles.
abbrev pub IsMutable : Items → ℕ → Fields → Type 0
IsMutable messages message_index message =
    (role : Bytes) × IsLocated messages message_index message role × (is_mutable role ≡ true)

module _ (g : Gjson) (body : Bytes) where
  -- The target covers the raw text of a JSON string of the body.
  abbrev pub IsSpan : TextTarget → Type 0
  IsSpan t =
      (t.start ≤ t.end)
      × (t.end ≤ length body)
      × ((v : g.Value) × (g.is_string v ≡ true) × (slice t.start t.end body ≡ g.raw v))

  abbrev pub IsProse : Items → TextTarget → Type 0
  IsProse messages t =
      IsSpan t
      × ((message : Fields) × IsMutable messages t.message_index message
          × (text_at message t.block_index ≡ some t.original))

  abbrev pub AllProse : Items → List TextTarget → Type 0
  AllProse messages [] = Unit {0}
  AllProse messages (t ∷ ts) = IsProse messages t × AllProse messages ts

  abbrev pub IsProjected : Items → Projection → Type 0
  IsProjected messages p = (p.messages ≡ messages) × AllProse messages p.targets

  AllProse-append :
      (messages : Items) (ts : List TextTarget) (t : TextTarget)
      → AllProse messages ts
      → IsProse messages t
      → AllProse messages (ts ++ t ∷ [])
  AllProse-append messages [] t all h = (h, tt)
  AllProse-append messages (u ∷ ts) t (hu, all) h = (hu, AllProse-append messages ts t all h)

  pub add_target-IsProjected :
      (messages : Items) (message : Fields) (path : Bytes) (message_index : ℕ)
      (block_index : Option ℕ) (original : Bytes) (p p' : Projection)
      → IsMutable messages message_index message
      → text_at message block_index ≡ some original
      → IsProjected messages p
      → add_target g p body path message_index block_index original ≡ some p'
      → IsProjected messages p'
  unfolding add_target
  add_target-IsProjected messages message path i b original p p' mutable text (same, all) h =
      let result = g.get_bytes body path in
      let (is_text, indexed) = when-some (not (g.is_string result)) _ p' h in
      let (start, at, placed_here) = pos-some (g.index result) _ p' indexed in
      let end = start + length (g.raw result) in
      let (inside, made) =
        when-some (ltb (length body) end || not (bytes_eq (slice start end body) (g.raw result))) _
          p' placed_here in
      let span : bytes_eq (slice start end body) (g.raw result) ≡ true = (ground arith) in
      subst (λ q. IsProjected messages q) (some-injective made)
        (
          same,
          AllProse-append messages p.targets _ all (
            (
              omega arith,
              ground arith,
              (result, ground arith, bytes_eq_sound (slice start end body) (g.raw result) span),
            ),
            (message, mutable, text),
          ),
        )
