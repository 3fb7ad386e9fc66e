-- ===== src/Timeline/Split/Coverage.antt =====
-- Cutting a clip keeps the primary track gapless: go/internal/timeline/timeline.go (splitClip) and
-- editing.go (splitDocumentPrimaryAt).
use rushes.Base.{
  String, ℤ, pos, List, [], ◌∷◌, ◌≡◌, IfOk, IfOk-bind, IfOk-any, IfOk-found, Bool-cases, inl, inr,
  leb_ℤ, ok, subst,
}
use rushes.Float.{Floats}
use rushes.Value.{frame_value, text_at}
use rushes.Timeline.Types.{Clip, Track, Document, Heap}
use rushes.Timeline.Errors.{lift}
use rushes.Timeline.Lookup.{
  ClipLocation, clip_at, editable_location, editable, linked_group, track_by_id,
}
use rushes.Timeline.Split.{
  Cut, cut_at, cut_clips, cut_tracks, refuse_members, split_located, split_clip, cutting, Cutting,
  at_boundary, inside_clip, cut_found, split_document_primary_at,
}
use rushes.Timeline.Spans.{Covers}
use rushes.Timeline.Spans.Split.{cut_clips-Covers}
use rushes.Timeline.Coverage.{
  TrackCovers, AllCover, IsCovered, LeavesCovered, KeepsCoverage, retracked-IsCovered,
}

module _ {F : Type 0} ⦃fl : Floats F⦄ where
  cut_track :
      (k : Cut) (n : ℤ) (t : Track F) (clips : List (Clip F))
      → TrackCovers n t
      → cut_clips k t.clips ≡ ok clips
      → TrackCovers n (record t { clips = clips })
  cut_track k n t clips p e primary =
      subst (IfOk (λ clips. Covers (pos 0) clips n)) e
        (cut_clips-Covers k (pos 0) n t.clips (p primary))

  cut_tracks-AllCover :
      (k : Cut) (n : ℤ) (ts : List (Track F)) → AllCover n ts → IfOk (AllCover n) (cut_tracks k ts)
  unfolding cut_tracks
  cut_tracks-AllCover k n [] h = tt
  cut_tracks-AllCover k n (t ∷ ts) (p, h) = IfOk-any _ (cut_clips k t.clips) _ λ clips e.
      IfOk-bind (AllCover n) _ (cut_tracks k ts) _ (cut_tracks-AllCover k n ts h)
        λ rest h'. (cut_track k n t clips p e, h')

  pub split_located-IsCovered :
      (d : Document F) (heap : Heap F) (l : ClipLocation) (frame : ℤ) (new_id : String)
      → IsCovered d
      → LeavesCovered (split_located d heap l frame new_id)
  unfolding split_located
  split_located-IsCovered d heap l frame new_id h =
      let k = cut_at (clip_at d.tracks l) frame new_id in
      IfOk-any _ (refuse_members d.tracks frame (linked_group d k.group_id)) _ λ _ _.
        IfOk-bind (AllCover d.duration_frames) _ (cut_tracks k d.tracks) _
          (cut_tracks-AllCover k d.duration_frames d.tracks h.covers)
          λ tracks h'. retracked-IsCovered d tracks h h'

  pub split_clip-IsCovered : KeepsCoverage {F = F} split_clip
  unfolding split_clip
  split_clip-IsCovered d heap operation h = IfOk-any _ (editable_location d operation) _ λ l _.
      IfOk-any _ (lift (frame_value operation "split_frame")) _ λ frame _.
        split_located-IsCovered d heap l frame (text_at "new_timeline_clip_id" operation) h

  cut_found-IsCovered :
      (d : Document F) (heap : Heap F) (frame : ℤ) (r : Cutting)
      → IsCovered d
      → LeavesCovered (cut_found d heap frame r)
  unfolding cut_found
  cut_found-IsCovered d heap frame at_boundary h = h
  cut_found-IsCovered d heap frame (inside_clip id) h =
      IfOk-any _ (editable d id) _ λ l _. split_located-IsCovered d heap l frame "" h

  pub split_document_primary_at-IsCovered :
      (d : Document F) (heap : Heap F) (frame : ℤ)
      → IsCovered d
      → LeavesCovered (split_document_primary_at d heap frame)
  unfolding split_document_primary_at
  split_document_primary_at-IsCovered d heap frame h = elim (Bool-cases (leb_ℤ frame (pos 0))) [
    | inl e ↦ rw e h
    | inr e ↦ rw e (
        IfOk-found _ (track_by_id d "visual_base") _ _
          λ t _. cut_found-IsCovered d heap frame (cutting frame t.clips) h)
  ]
