-- ===== src/Timeline/Ripple/Tracks.antt =====
-- A ripple deletion keeps the tracks: go/internal/timeline/timeline.go (deleteRange).
use rushes.Base.{ℤ, List, [], ◌∷◌, ◌≡◌, refl, ◌∙◌, IfOk-any, IfOk-refuse_if, map}
use rushes.Float.{Floats}
use rushes.Value.{frame_value}
use rushes.Timeline.Types.{Clip, Track, Document, Heap}
use rushes.Timeline.Errors.{both_frames}
use rushes.Timeline.Lookup.{sort_track}
use rushes.Timeline.Tracks.{ids, LeavesTracks, KeepsTracks, ids-map}
use rushes.Timeline.Ripple.{
  delete_from_clip, replace_in_tracks, without_range, delete_frames, delete_range, bad_range,
  range_error, ensure_ripple_unlocked,
}

module _ {F : Type 0} where
  sorted_ids : (ts : List (Track F)) → ids (map sort_track ts) ≡ ids ts
  sorted_ids ts = ids-map sort_track (λ t. refl) ts

  replaced_ids :
      (f : Clip F → List (Clip F)) (ts : List (Track F)) → ids (replace_in_tracks f ts) ≡ ids ts
  replaced_ids f [] = refl
  replaced_ids f (t ∷ ts) = rw (replaced_ids f ts) refl

module _ {F : Type 0} ⦃fl : Floats F⦄ where
  pub delete_frames-tracks :
      (start end : ℤ) (d : Document F) (heap : Heap F)
      → LeavesTracks d (delete_frames start end d heap)
  unfolding delete_frames without_range
  delete_frames-tracks start end d heap =
      IfOk-refuse_if _ (bad_range d start end) (range_error d start end) _ λ _.
        IfOk-any _ (ensure_ripple_unlocked d start "") _ λ _ _.
          sorted_ids (replace_in_tracks (delete_from_clip start end) d.tracks)
          ∙ replaced_ids (delete_from_clip start end) d.tracks

  pub delete_range-tracks : KeepsTracks {F = F} delete_range
  unfolding delete_range
  delete_range-tracks d heap operation =
      IfOk-any _
        (both_frames (frame_value operation "start_frame") (frame_value operation "end_frame")) _
        λ r _. delete_frames-tracks r.0 r.1 d heap
