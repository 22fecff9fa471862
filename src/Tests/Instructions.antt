-- ===== src/Tests/Instructions.antt =====
-- internal/prompt, internal/rtk and the local stages at concrete inputs.
use cpa_plugin_token_saver.Common.{
  List, Option, [], arith, false, inr, refl, some, true, ℕ, ◌↔◌, ◌∷◌, ◌≡◌, ◌⊎◌,
}
use cpa_plugin_token_saver.Config.{Config, defaults}
use cpa_plugin_token_saver.Rtk.{Filter, filtered}
use cpa_plugin_token_saver.Text.{Bytes, codes}
use cpa_plugin_token_saver.Prompt.Added.{IsAdded}
use cpa_plugin_token_saver.Prompt.Composed.{inject-IsAdded}
use cpa_plugin_token_saver.Prompt.Idempotent.{inject-inject}
use cpa_plugin_token_saver.Prompt.Inject.{PromptOptions, caveman_start, inject, ponytail_start}
use cpa_plugin_token_saver.Rtk.Apply.{apply, compress_text}
use cpa_plugin_token_saver.Saver.Key.{IsSameRequest, IsSized, dedupe_key_input-injective}
use cpa_plugin_token_saver.Saver.Shape.{pair}
use cpa_plugin_token_saver.Tests.Payloads.{
  chat_body, chat_gjson, chat_pair, chat_slot, chat_view, chat_view-IsApart, view-chat_body,
}
use cpa_plugin_token_saver.Tests.Requests.{sample_gjson, sample_options, sample_request}
use cpa_plugin_token_saver.Protocol.Payload.Rewrite.{Edit}
use cpa_plugin_token_saver.Rtk.Apply.Applied.{IsApplied, IsChosen, apply-IsApplied, apply_all}
use cpa_plugin_token_saver.Rtk.Apply.Retold.{IsRetold, compress_text-IsRetold}
use cpa_plugin_token_saver.Saver.Pipeline.Bodies.{IsKept, process-IsKept}
use cpa_plugin_token_saver.Saver.Pipeline.Normalize.{own_work, process}
use cpa_plugin_token_saver.Protocol.Payload.Rewrite.Offered.{Has}
use cpa_plugin_token_saver.Protocol.Payload.Rewrite.Spliced.{IsSpliced}

abbrev lite : PromptOptions
lite = record { caveman_level = codes "lite"; ponytail_level = [] }

inject-inject_example :
    inject chat_gjson (inject chat_gjson chat_body chat_pair lite) chat_pair lite
    ≡ inject chat_gjson chat_body chat_pair lite
inject-inject_example = inject-inject chat_gjson chat_body chat_pair lite (inr refl)

inject-IsAdded_example :
    (middle : Bytes) × IsAdded caveman_start chat_body middle
    × IsAdded ponytail_start middle (inject chat_gjson chat_body chat_pair lite)
inject-IsAdded_example = inject-IsAdded chat_gjson chat_body chat_pair lite

abbrev drops_all : Bytes → Option Filter
drops_all s = some (λ t. filtered (codes "x"))

apply-IsApplied_example :
    IsApplied chat_gjson drops_all chat_body chat_pair
      (λ p es. (e : Edit) → Has e es → IsChosen chat_gjson drops_all p.slots e)
apply-IsApplied_example = apply-IsApplied chat_gjson drops_all chat_body chat_pair

apply_all_example :
    (es : List Edit) × IsSpliced 0 es chat_body (apply chat_gjson drops_all chat_body chat_pair)
    × ((e : Edit) → Has e es ↔ IsChosen chat_gjson drops_all (chat_slot ∷ []) e)
apply_all_example =
    apply_all chat_gjson drops_all chat_body chat_pair chat_view view-chat_body chat_view-IsApart

compress_text-IsRetold_example :
    IsRetold chat_gjson drops_all chat_body (compress_text chat_gjson drops_all chat_body)
compress_text-IsRetold_example = compress_text-IsRetold chat_gjson drops_all chat_body

abbrev local_config : Config
local_config = record defaults { rtk_enabled = true; headroom_enabled = false }

process-IsKept_example :
    ((process sample_options own_work (codes "{}") sample_request local_config).0 ≡ codes "{}")
    ⊎ ((start : Bytes) × (middle : Bytes) × IsKept sample_gjson
          (codes "{}")
          start
          (pair sample_request)
        × IsAdded caveman_start start middle
        × IsAdded ponytail_start middle
            (process sample_options own_work (codes "{}") sample_request local_config).0)
process-IsKept_example =
    process-IsKept sample_options own_work (codes "{}") sample_request local_config refl

sample_request-IsSized : IsSized sample_request
sample_request-IsSized = record {
  from_fits = omega arith;
  to_fits = omega arith;
  model_fits = omega arith;
  body_fits = omega arith;
}

dedupe_key_input-injective_example : (◌≡◌ {A = ℕ} 1 1) × IsSameRequest sample_request sample_request
dedupe_key_input-injective_example =
    dedupe_key_input-injective 1 1 sample_request sample_request (omega arith) (omega arith)
      sample_request-IsSized sample_request-IsSized refl
