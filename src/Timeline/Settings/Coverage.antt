-- ===== src/Timeline/Settings/Coverage.antt =====
-- Edits of settings move no clip: go/internal/timeline/editing.go (setTrackState, setTrackDucking,
-- updateEditableClip) and timeline.go (setClipFades, clampClipFades).
use rushes.Base.{
  ℤ, pos, refl, IfOk, IfOk-bind, IfOk-any, IfOk-found, IfOk-refuse_if, text_eq, Result, not, ◌&&◌,
  ◌||◌, arith,
}
use rushes.Float.{Floats}
use rushes.Value.{Fields, frame_value, text_at, has}
use rushes.Timeline.Types.{Clip, Track, Document}
use rushes.Timeline.Errors.{Error, both_frames}
use rushes.Timeline.Lookup.{track_at, clip_at, editable_location, track_by_id, track_family}
use rushes.Timeline.Settings.{
  set_track_state, state_of, switch, track_gain, set_track_ducking, ducking_of,
  update_editable_clip, gained, retitled, set_clip_fades, refuse_fades, fade_members, clamp_fades,
  clamp_clip_fades,
}
use rushes.Timeline.Coverage.{
  TrackCovers, IsCovered, KeepsCoverage, SameFrames, retracked-IsCovered, AllCover-map,
  AllCover-update_first, AllCover-put, AllCover-update_members, map-Covers, track_by_id-TrackCovers,
}

module _ {F : Type 0} where
  pub clamp_fades-SameFrames : (c : Clip F) → SameFrames (clamp_fades c) c
  unfolding clamp_fades
  clamp_fades-SameFrames c = (refl, refl)

  pub clamp_clip_fades-IsCovered : (d : Document F) → IsCovered d → IsCovered (clamp_clip_fades d)
  unfolding clamp_clip_fades
  clamp_clip_fades-IsCovered d h = retracked-IsCovered d _ h (
      AllCover-map _ d.duration_frames d.duration_frames
        (λ t p primary.
          map-Covers clamp_fades clamp_fades-SameFrames (pos 0) d.duration_frames t.clips
            (p primary))
        d.tracks h.covers)

module _ {F : Type 0} ⦃fl : Floats F⦄ where
  -- A new state of a track has the track's ID and clips.
  state_of-same :
      (operation : Fields F) (t : Track F) (n : ℤ)
      → TrackCovers n t
      → IfOk (TrackCovers n) (state_of operation t)
  unfolding state_of
  state_of-same operation t n p = IfOk-any _ (switch "muted" operation t.muted) _ λ muted _.
      IfOk-refuse_if _ (has "muted" operation && text_eq t.track_id "visual_base" && muted) _ _ λ _.
        IfOk-any _ (switch "solo" operation t.solo) _ λ solo _.
          IfOk-any _ (switch "locked" operation t.locked) _ λ locked _.
            IfOk-any _ (track_gain operation t) _ λ gain _.
              IfOk-refuse_if _
                (not (
                  has "muted" operation
                  || has "solo" operation
                  || has "locked" operation
                  || has "gain_db" operation))
                _ _ λ _. p

  pub set_track_state-IsCovered : KeepsCoverage {F = F} set_track_state
  unfolding set_track_state
  set_track_state-IsCovered d heap operation h =
      let id = text_at "track_id" operation in
      let n = d.duration_frames in
      IfOk-found _ (track_by_id d id) _ _ λ t found.
        IfOk-bind (TrackCovers n) _ (state_of operation t) _
          (state_of-same operation t n (track_by_id-TrackCovers d id h found))
          λ t' p.
            retracked-IsCovered d _ h (AllCover-update_first id _ n (λ _ _. p) d.tracks h.covers)

  pub set_track_ducking-IsCovered : KeepsCoverage {F = F} set_track_ducking
  unfolding set_track_ducking
  set_track_ducking-IsCovered d heap operation h =
      IfOk-refuse_if _ (not (text_eq (text_at "track_id" operation) "bgm")) _ _ λ _.
        IfOk-found _ (track_by_id d "bgm") _ _ λ t _. IfOk-refuse_if _ t.locked _ _ λ _.
          IfOk-any _ (ducking_of operation) _ λ ducking _.
            retracked-IsCovered d _ h
              (AllCover-update_first "bgm" _ d.duration_frames (λ t p. p) d.tracks h.covers)

  -- An update that keeps the clip's frames.
  abbrev pub UpdatesInPlace : (Track F → Clip F → Result Error (Clip F)) → Type 0
  UpdatesInPlace update = (t : Track F) (c : Clip F) → IfOk (λ new. SameFrames new c) (update t c)

  pub update_editable_clip-IsCovered :
      (update : Fields F → Track F → Clip F → Result Error (Clip F))
      → ((operation : Fields F) → UpdatesInPlace (update operation))
      → KeepsCoverage {F = F}
          λ d heap operation. update_editable_clip d heap operation (update operation)
  unfolding update_editable_clip
  update_editable_clip-IsCovered update in_place d heap operation h =
      IfOk-any _ (editable_location d operation) _ λ l _.
        IfOk-bind _ _ (update operation (track_at d.tracks l) (clip_at d.tracks l)) _
          (in_place operation (track_at d.tracks l) (clip_at d.tracks l))
          λ new same.
            retracked-IsCovered d _ h (AllCover-put l new d.duration_frames d.tracks same h.covers)

  pub gained-UpdatesInPlace : (operation : Fields F) → UpdatesInPlace (gained operation)
  unfolding gained
  gained-UpdatesInPlace operation t c = ground arith

  pub retitled-UpdatesInPlace : (operation : Fields F) → UpdatesInPlace (retitled operation)
  unfolding retitled
  retitled-UpdatesInPlace operation t c = ground arith

  pub set_clip_fades-IsCovered : KeepsCoverage {F = F} set_clip_fades
  unfolding set_clip_fades
  set_clip_fades-IsCovered d heap operation h = IfOk-any _ (editable_location d operation) _ λ l _.
      IfOk-refuse_if _
        (not (text_eq (track_family (track_at d.tracks l)) "audio")
          && not (text_eq (clip_at d.tracks l).asset_kind "video"))
        _ _
        λ _.
          IfOk-any _
            (both_frames (frame_value operation "fade_in_frames")
              (frame_value operation "fade_out_frames"))
            _
            λ fades _.
              IfOk-any _ (refuse_fades d.tracks fades.0 fades.1 (fade_members d l)) _ λ _ _.
                retracked-IsCovered d _ h (
                  AllCover-update_members (fade_members d l) _ d.duration_frames (λ c. (refl, refl))
                    d.tracks h.covers)
