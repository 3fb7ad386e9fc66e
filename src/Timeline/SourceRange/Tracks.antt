-- ===== src/Timeline/SourceRange/Tracks.antt =====
-- Deleting a source range keeps the tracks: go/internal/timeline/timeline.go (deleteSourceRange).
use rushes.Base.{pos, IfOk-any, IfOk-found, IfOk-refuse_if, text_eq, leb_ℤ, ltb_ℤ, ◌||◌, trim_space}
use rushes.Float.{Floats}
use rushes.Value.{frame_value, text_at}
use rushes.Timeline.Errors.{both_frames}
use rushes.Timeline.Lookup.{track_by_id}
use rushes.Timeline.Tracks.{KeepsTracks}
use rushes.Timeline.SourceRange.{delete_source_range, segments, mapped_range}
use rushes.Timeline.Ripple.Tracks.{delete_frames-tracks}

module _ {F : Type 0} ⦃fl : Floats F⦄ where
  pub delete_source_range-tracks : KeepsTracks {F = F} delete_source_range
  unfolding delete_source_range
  delete_source_range-tracks d heap operation =
      let asset = trim_space (text_at "asset_id" operation) in
      IfOk-any _
        (both_frames (frame_value operation "source_start_frame")
          (frame_value operation "source_end_frame"))
        _
        λ r _. IfOk-refuse_if _ (text_eq asset "" || ltb_ℤ r.0 (pos 0) || leb_ℤ r.1 r.0) _ _ λ _.
          IfOk-found _ (track_by_id d "visual_base") _ _ λ t _.
            IfOk-any _ (segments asset r.0 r.1 t.clips) _ λ found _.
              IfOk-any _ (mapped_range r.0 r.1 found) _
                λ range _. delete_frames-tracks range.0 range.1 d heap
