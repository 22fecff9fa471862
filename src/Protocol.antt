-- ===== src/Protocol.antt =====
-- internal/protocol/payload.go: the routes that the plugin works on.
use cpa_plugin_token_saver.Common.{Bool, List, [], false, ◌&&◌, ◌||◌, ◌∷◌}
use cpa_plugin_token_saver.Text.{Bytes, bytes_eq, codes}
pub mod Payload

pub record Pair : Type 0 where
  pub from : Bytes
  pub to : Bytes

abbrev pub native_message_pairs : List Pair
native_message_pairs =
    record { from = codes "openai"; to = codes "openai" }
    ∷ record { from = codes "claude"; to = codes "openai" }
    ∷ record { from = codes "gemini"; to = codes "openai" }
    ∷ record { from = codes "interactions"; to = codes "openai" }
    ∷ record { from = codes "openai-response"; to = codes "openai" }
    ∷ record { from = codes "interactions"; to = codes "openai-response" }
    ∷ record { from = codes "openai"; to = codes "claude" }
    ∷ record { from = codes "openai-response"; to = codes "claude" }
    ∷ record { from = codes "gemini"; to = codes "claude" }
    ∷ record { from = codes "interactions"; to = codes "claude" }
    ∷ record { from = codes "openai"; to = codes "codex" }
    ∷ record { from = codes "openai-response"; to = codes "codex" }
    ∷ record { from = codes "claude"; to = codes "codex" }
    ∷ record { from = codes "gemini"; to = codes "codex" }
    ∷ record { from = codes "interactions"; to = codes "codex" }
    ∷ record { from = codes "openai"; to = codes "gemini" }
    ∷ record { from = codes "openai-response"; to = codes "gemini" }
    ∷ record { from = codes "claude"; to = codes "gemini" }
    ∷ record { from = codes "gemini"; to = codes "gemini" }
    ∷ record { from = codes "interactions"; to = codes "gemini" }
    ∷ record { from = codes "openai-response"; to = codes "antigravity" }
    ∷ []

unfoldable pub is_listed : Pair → List Pair → Bool
is_listed p [] = false
is_listed p (q ∷ qs) = (bytes_eq p.from q.from && bytes_eq p.to q.to) || is_listed p qs

unfoldable pub eligible : Pair → Bool
unfolding is_listed
eligible p = is_listed p native_message_pairs
