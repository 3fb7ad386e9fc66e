-- ===== src/Timeline/Patch/Fades.antt =====
-- Edits and fades: go/internal/timeline/timeline.go (ApplyPatch, clampClipFades, Validate).
use rushes.Base.{All, IfOk, IfOk-any}
use rushes.Float.{Floats}
use rushes.Value.{Fields, text_at}
use rushes.Timeline.Types.{Track, Document, Heap}
use rushes.Timeline.Catalog.{validate_op_fields}
use rushes.Timeline.Clone.{clone}
use rushes.Timeline.Patch.{apply_patch, handle, next_version}
use rushes.Timeline.Settings.{clamp_clip_fades}
use rushes.Timeline.Settings.Fades.{FadesFit, tracks-FadesFit}

module _ {F : Type 0} ⦃fl : Floats F⦄ where
  -- After an edit of any kind that succeeds, `Validate` finds bad fades exactly in the clips that end
  -- before they start, whatever the fades were before.
  pub apply_patch-FadesFit :
      (d : Document F) (heap : Heap F) (operation : Fields F)
      → IfOk
          (λ r. All (λ (t : Track F). All FadesFit t.clips) r.0.tracks)
          (apply_patch d heap operation)
  unfolding apply_patch next_version clamp_clip_fades
  apply_patch-FadesFit d heap operation = IfOk-any _ (validate_op_fields operation) _ λ _ _.
      IfOk-any _ (clone d heap) _ λ r _.
        IfOk-any _ (handle (text_at "kind" operation) r.0 r.1 operation) _
          λ q _. tracks-FadesFit q.0.tracks
