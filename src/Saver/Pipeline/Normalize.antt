-- ===== src/Saver/Pipeline/Normalize.antt =====
-- internal/saver/pipeline.go, `Normalize`: one request through all stages.
use cpa_plugin_token_saver.Common.{
  Bool, List, Option, [], if◌then◌else◌, leb, false, length, ltb, not, pos, true, ◌&&◌, ◌++◌, ◌==◌,
  ◌||◌, ◌∷◌,
}
use cpa_plugin_token_saver.Config.{Config, allows_model}
use cpa_plugin_token_saver.Metrics.{Outcome, Stage, caveman, headroom, pipeline, ponytail, rtk}
use cpa_plugin_token_saver.Text.{Bytes}
use cpa_plugin_token_saver.Saver.Dedupe.{WorkError, dedupe_max_item_bytes, fails}
use cpa_plugin_token_saver.Saver.Pipeline.{
  Options, accepts, check_panicked, metric_of, recorded, rejects, run_headroom_stage,
  run_local_stage, size,
}
use cpa_plugin_token_saver.Saver.Recording.{Event, all_bypassed}
use cpa_plugin_token_saver.Saver.Shape.{Request, max_provider_payload_bytes, valid_provider_shape}

-- What the call of the result cache comes to: the work runs in this call, it panics in this call, or
-- another call's result is shared. A panic that the work does not catch is one of the clock, outside
-- the stages' own recovery, before RTK's result is recorded or after that.
pub data Shared : Type 0 where
  own_work : Shared
  own_panicked : Bool → Shared
  joined : Bytes → Option WorkError → Shared

abbrev pub none_enabled : Config → Bool
none_enabled c =
    not c.rtk_enabled && not c.headroom_enabled && not c.caveman_enabled && not c.ponytail_enabled

module _ (o : Options) where
  -- A result without a duration.
  abbrev pub noted : Stage → Outcome → Bytes → Request → Event
  noted stage outcome b r = recorded stage outcome b b (pos 0) r

  abbrev pub rtk_and_headroom : Bytes → Request → Config → Bytes × List Event
  rtk_and_headroom original r c =
      let compressed = run_local_stage o rtk c.rtk_enabled original r c in
      let remote = run_headroom_stage o compressed.0 r c in (remote.0, compressed.1 ∷ remote.1 ∷ [])

  -- What the work had recorded when it panicked.
  abbrev pub recorded_before : Bool → Bytes → Request → Config → List Event
  recorded_before false original r c = []
  recorded_before true original r c = (run_local_stage o rtk c.rtk_enabled original r c).1 ∷ []

  unfoldable pub first_stages : Shared → Bytes → Request → Config → Bytes × List Event
  unfolding run_local_stage run_headroom_stage
  first_stages shared original r c =
      if c.headroom_enabled && leb (length original) dedupe_max_item_bytes
      then elim shared [
        | own_work ↦ rtk_and_headroom original r c
        | own_panicked after_rtk ↦ (
          original,
          recorded_before after_rtk original r c
              ++ noted pipeline Outcome.fail_open original r ∷ [],
        )
        | joined value failure ↦
            if fails failure
            then (original, noted pipeline Outcome.fail_open original r ∷ [])
            else (
              value,
              noted rtk Outcome.bypassed original r ∷ noted headroom Outcome.bypassed value r ∷ [],
            )
      ]
      else (
        (run_local_stage o rtk c.rtk_enabled original r c).0,
        (run_local_stage o rtk c.rtk_enabled original r c).1
            ∷ noted headroom Outcome.bypassed (run_local_stage o rtk c.rtk_enabled original r c).0 r
            ∷ [],
      )

  unfoldable pub last_stages : Bytes → Request → Config → Bytes × List Event
  unfolding run_local_stage
  last_stages working r c =
      let terse = run_local_stage o caveman c.caveman_enabled working r c in
      let guided = run_local_stage o ponytail c.ponytail_enabled terse.0 r c in
      (guided.0, terse.1 ∷ guided.1 ∷ [])

  -- The check at the end; a panic of it is caught with the same result.
  unfoldable pub conclude : Bytes → Bytes → Request → Bytes × Event
  conclude original working r =
      if not (valid_provider_shape o.gjson working r)
      then (original, noted pipeline Outcome.fail_open original r)
      else elim (o.validate_final working r) [
        | rejects ↦ (original, noted pipeline Outcome.fail_open original r)
        | check_panicked ↦ (original, noted pipeline Outcome.fail_open original r)
        | accepts ↦
            (working, recorded pipeline (metric_of working original) original working (pos 0) r)
      ]

  unfoldable pub process : Shared → Bytes → Request → Config → Bytes × List Event
  unfolding first_stages last_stages conclude
  process shared original r c =
      let first = first_stages shared original r c in
      let last = last_stages first.0 r c in
      let end = conclude original last.0 r in (end.0, first.1 ++ (last.1 ++ end.1 ∷ []))

  abbrev pub is_bypassed : Request → Config → Bool
  is_bypassed r c =
      not (allows_model c r.model)
      || length r.body == 0
      || ltb max_provider_payload_bytes (length r.body)
      || not (valid_provider_shape o.gjson r.body r)

  unfoldable pub normalize : Shared → Request → Config → Bytes × List Event
  unfolding process
  normalize shared r c =
      if none_enabled c
      then (r.body, all_bypassed (size r.body) r.from_format r.to_format ∷ [])
      else (if is_bypassed r c
          then (r.body, noted pipeline Outcome.bypassed r.body r ∷ [])
          else process shared r.body r c)
