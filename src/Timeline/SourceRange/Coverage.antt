-- ===== src/Timeline/SourceRange/Coverage.antt =====
-- Deleting a source range keeps the primary track gapless: go/internal/timeline/timeline.go
-- (deleteSourceRange).
use rushes.Base.{pos, leb_ℤ, ltb_ℤ, ◌||◌, text_eq, trim_space, IfOk-any, IfOk-found, IfOk-refuse_if}
use rushes.Float.{Floats}
use rushes.Value.{frame_value, text_at}
use rushes.Timeline.Errors.{both_frames}
use rushes.Timeline.Lookup.{track_by_id}
use rushes.Timeline.SourceRange.{delete_source_range, segments, mapped_range}
use rushes.Timeline.Coverage.{KeepsCoverage}
use rushes.Timeline.Ripple.Coverage.{delete_frames-IsCovered}

module _ {F : Type 0} ⦃fl : Floats F⦄ where
  pub delete_source_range-IsCovered : KeepsCoverage {F = F} delete_source_range
  unfolding delete_source_range
  delete_source_range-IsCovered d heap operation h =
      let asset = trim_space (text_at "asset_id" operation) in
      IfOk-any _
        (both_frames (frame_value operation "source_start_frame")
          (frame_value operation "source_end_frame"))
        _
        λ r _. IfOk-refuse_if _ (text_eq asset "" || ltb_ℤ r.0 (pos 0) || leb_ℤ r.1 r.0) _ _ λ _.
          IfOk-found _ (track_by_id d "visual_base") _ _ λ t _.
            IfOk-any _ (segments asset r.0 r.1 t.clips) _ λ found _.
              IfOk-any _ (mapped_range r.0 r.1 found) _
                λ range _. delete_frames-IsCovered range.0 range.1 d heap h
