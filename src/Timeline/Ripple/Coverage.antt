-- ===== src/Timeline/Ripple/Coverage.antt =====
-- A ripple deletion keeps the primary track gapless: go/internal/timeline/timeline.go (deleteRange).
use rushes.Base.{
  false, ℤ, pos, List, [], ◌∷◌, map, ◌≡◌, ◌≤ℤ◌, ◌<ℤ◌, arith, ◌-ℤ◌, -ℤ_parts, IfOk-refuse_if,
  IfOk-any,
}
use rushes.Float.{Floats}
use rushes.Value.{frame_value}
use rushes.Timeline.Types.{Track, Document, Heap}
use rushes.Timeline.Errors.{both_frames}
use rushes.Timeline.Lookup.{sort_track}
use rushes.Timeline.Ripple.{
  delete_from_clip, replace_clips, replace_in_tracks, without_range, delete_frames, delete_range,
  bad_range, range_error, ensure_ripple_unlocked,
}
use rushes.Timeline.Spans.{Covers, sorted_clips-Covers}
use rushes.Timeline.Spans.Delete.{closed_zero, closed_last, delete-Covers}
use rushes.Timeline.Coverage.{TrackCovers, AllCover, IsCovered, LeavesCovered, KeepsCoverage}

-- A range inside a timeline.
pub record IsInside (start end duration : ℤ) : Type 0 where
  pub from_zero : pos 0 ≤ℤ start
  pub not_empty : start <ℤ end
  pub to_end : end ≤ℤ duration

module _ {F : Type 0} ⦃fl : Floats F⦄ where
  delete_track :
      (start end n : ℤ) (t : Track F)
      → IsInside start end n
      → TrackCovers n t
      → TrackCovers
          (n -ℤ (end -ℤ start))
          (sort_track (record t { clips = replace_clips (delete_from_clip start end) t.clips }))
  delete_track start end n t r h primary =
      let cut : Covers (pos 0) (replace_clips (delete_from_clip start end) t.clips)
          (n -ℤ (end -ℤ start)) =
        rw (closed_zero start end r.from_zero, closed_last start end n r.not_empty r.to_end) at
          (delete-Covers start end (pos 0) n t.clips r.not_empty (h primary)) in
      rw (sorted_clips-Covers (pos 0) _ _ cut) cut

  delete_tracks :
      (start end n : ℤ) (ts : List (Track F))
      → IsInside start end n
      → AllCover n ts
      → AllCover
          (n -ℤ (end -ℤ start))
          (map sort_track (replace_in_tracks (delete_from_clip start end) ts))
  delete_tracks start end n [] r h = tt
  delete_tracks start end n (t ∷ ts) r (p, h) =
      (delete_track start end n t r p, delete_tracks start end n ts r h)

  bad_range-IsInside :
      (d : Document F) (start end : ℤ)
      → bad_range d start end ≡ false
      → IsInside start end d.duration_frames
  unfolding bad_range
  bad_range-IsInside d start end e = record {
    from_zero = ground arith;
    not_empty = ground arith;
    to_end = ground arith;
  }

  pub without_range-IsCovered :
      (d : Document F) (start end : ℤ)
      → IsInside start end d.duration_frames
      → IsCovered d
      → IsCovered (without_range start end d)
  unfolding without_range
  without_range-IsCovered d start end r h = record {
    not_negative =
        let from_zero = r.from_zero in
        let not_empty = r.not_empty in
        let to_end = r.to_end in
        omega (arith, -ℤ_parts end start, -ℤ_parts d.duration_frames (end -ℤ start));
    covers = delete_tracks start end d.duration_frames d.tracks r h.covers;
  }

  -- A deletion that is not refused leaves the primary track gapless, from 0 to the shorter end.
  pub delete_frames-IsCovered :
      (start end : ℤ) (d : Document F) (heap : Heap F)
      → IsCovered d
      → LeavesCovered (delete_frames start end d heap)
  unfolding delete_frames
  delete_frames-IsCovered start end d heap h =
      IfOk-refuse_if _ (bad_range d start end) (range_error d start end) _ λ inside.
        IfOk-any _ (ensure_ripple_unlocked d start "") _
          λ _ _. without_range-IsCovered d start end (bad_range-IsInside d start end inside) h

  pub delete_range-IsCovered : KeepsCoverage {F = F} delete_range
  unfolding delete_range
  delete_range-IsCovered d heap operation h =
      IfOk-any _
        (both_frames (frame_value operation "start_frame") (frame_value operation "end_frame")) _
        λ r _. delete_frames-IsCovered r.0 r.1 d heap h
