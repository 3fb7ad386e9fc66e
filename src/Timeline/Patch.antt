-- ===== src/Timeline/Patch.antt =====
-- One edit of a document: go/internal/timeline/timeline.go (ApplyPatch, DeriveOriginalAudio).
pub mod Coverage
pub mod Fades
use rushes.Base.{
  String, pos, List, [], ◌∷◌, text_eq, if◌then◌else◌, ◌+ℤ◌, ok, err, ◌>>=◌, ◌>>◌, ◌<>◌,
}
use rushes.Float.{Floats}
use rushes.Value.{Fields, text_at}
use rushes.Timeline.Types.{Document, Heap, version_id}
use rushes.Timeline.Errors.{plain}
use rushes.Timeline.Lookup.{Outcome}
use rushes.Timeline.Clone.{clone}
use rushes.Timeline.Catalog.{validate_op_fields}
use rushes.Timeline.Trim.{trim_clip, trim_clip_edge, delete_clip, set_playback_rate}
use rushes.Timeline.Split.{split_clip}
use rushes.Timeline.Reorder.{reorder_clip}
use rushes.Timeline.Move.{move_clip, set_clip_linked}
use rushes.Timeline.Settings.{
  set_track_state, set_track_ducking, update_editable_clip, gained, retitled, set_clip_fades,
  clamp_clip_fades,
}
use rushes.Timeline.Insert.{insert_clip, insert_subtitle, replace_clip, remove_track_clips}
use rushes.Timeline.Ripple.{delete_range}
use rushes.Timeline.SourceRange.{delete_source_range}
use rushes.Timeline.OriginalAudio.{rebuild_original_audio}

module _ {F : Type 0} ⦃fl : Floats F⦄ where
  -- The handlers by kind.
  abbrev handlers : List (String × (Document F → Heap F → Fields F → Outcome F))
  handlers =
      ("trim_clip", trim_clip)
      ∷ ("split_clip", split_clip)
      ∷ ("reorder_clip", reorder_clip)
      ∷ ("move_clip", move_clip)
      ∷ ("trim_clip_edge", trim_clip_edge)
      ∷ ("delete_clip", delete_clip)
      ∷ ("set_track_state", set_track_state)
      ∷ ("set_track_ducking", set_track_ducking)
      ∷ ("set_clip_linked", set_clip_linked)
      ∷ ("insert_subtitle", insert_subtitle)
      ∷ ("delete_range", delete_range)
      ∷ ("delete_source_range", delete_source_range)
      ∷ ("insert_clip", insert_clip)
      ∷ ("replace_clip", replace_clip)
      ∷ ("set_playback_rate", set_playback_rate)
      ∷ (
        "adjust_gain",
        λ d heap operation. update_editable_clip d heap operation (gained operation),
      )
      ∷ ("set_clip_fades", set_clip_fades)
      ∷ (
        "edit_subtitle_text",
        λ d heap operation. update_editable_clip d heap operation (retitled operation),
      )
      ∷ (
        "remove_track_clips",
        λ d heap operation. remove_track_clips d heap (text_at "track_id" operation),
      )
      ∷ []

  dispatch :
      List (String × (Document F → Heap F → Fields F → Outcome F))
      → String
      → Document F
      → Heap F
      → Fields F
      → Outcome F
  dispatch [] kind d heap operation = err (plain ("不支持的 patch op: " <> kind))
  dispatch ((k, handler) ∷ hs) kind d heap operation =
      if text_eq k kind then handler d heap operation else dispatch hs kind d heap operation

  -- The handler of an operation, applied to a document that the caller may change.
  unfoldable pub handle : String → Document F → Heap F → Fields F → Outcome F
  unfolding dispatch
  handle kind = dispatch handlers kind

  -- The last steps of `ApplyPatch`.
  unfoldable pub next_version : Document F → Document F
  next_version d =
      let clamped = clamp_clip_fades d in
      record clamped {
        version = d.version +ℤ pos 1;
        timeline_id = version_id d.draft_id (d.version +ℤ pos 1);
      }

  unfoldable pub apply_patch : Document F → Heap F → Fields F → Outcome F
  unfolding handle next_version
  apply_patch d heap operation = do
    validate_op_fields operation
    (copy, heap₁) ← clone d heap
    (edited, heap₂) ← handle (text_at "kind" operation) copy heap₁ operation
    ok (next_version edited, heap₂)

  unfoldable pub derive_original_audio : Document F → Heap F → List String → Outcome F
  derive_original_audio d heap audio_assets = do
    (copy, heap') ← clone d heap
    derived ← rebuild_original_audio copy audio_assets
    ok (derived, heap')
