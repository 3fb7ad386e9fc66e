-- ===== src/Timeline/Settings/Tracks.antt =====
-- Edits of settings keep the tracks: go/internal/timeline/editing.go (setTrackState, setTrackDucking,
-- updateEditableClip) and timeline.go (setClipFades, clampClipFades).
use rushes.Base.{
  ◌≡◌, refl, ◌∙◌, ap, IfOk, IfOk-any, IfOk-bind, IfOk-found, IfOk-refuse_if, Result, text_eq, ◌&&◌,
  ◌||◌, not,
}
use rushes.Float.{Floats}
use rushes.Value.{Fields, frame_value, text_at, has}
use rushes.Timeline.Types.{Clip, Track, Document}
use rushes.Timeline.Errors.{Error, both_frames}
use rushes.Timeline.Lookup.{track_by_id, track_at, clip_at, editable_location, track_family}
use rushes.Timeline.Tracks.{
  ids, KeepsTracks, ids-map, ids-update_first, ids-put_first, ids-update_clip, ids-update_members,
}
use rushes.Timeline.Settings.{
  set_track_state, state_of, switch, track_gain, set_track_ducking, ducking_of,
  update_editable_clip, set_clip_fades, refuse_fades, fade_members, clamp_clip_fades,
}
use rushes.Timeline.Coverage.{find-id}

module _ {F : Type 0} where
  pub clamp_clip_fades-ids : (d : Document F) → ids (clamp_clip_fades d).tracks ≡ ids d.tracks
  unfolding clamp_clip_fades
  clamp_clip_fades-ids d = ids-map _ (λ t. refl) d.tracks

module _ {F : Type 0} ⦃fl : Floats F⦄ where
  state_of-id :
      (operation : Fields F) (t : Track F)
      → IfOk (λ new. new.track_id ≡ t.track_id) (state_of operation t)
  unfolding state_of
  state_of-id operation t = IfOk-any _ (switch "muted" operation t.muted) _ λ muted _.
      IfOk-refuse_if _ (has "muted" operation && text_eq t.track_id "visual_base" && muted) _ _ λ _.
        IfOk-any _ (switch "solo" operation t.solo) _ λ solo _.
          IfOk-any _ (switch "locked" operation t.locked) _ λ locked _.
            IfOk-any _ (track_gain operation t) _ λ gain _.
              IfOk-refuse_if _
                (not (
                  has "muted" operation
                  || has "solo" operation
                  || has "locked" operation
                  || has "gain_db" operation))
                _ _ λ _. refl

  pub set_track_state-tracks : KeepsTracks {F = F} set_track_state
  unfolding set_track_state
  set_track_state-tracks d heap operation =
      let id = text_at "track_id" operation in
      IfOk-found _ (track_by_id d id) _ _ λ t found.
        IfOk-bind (λ new. new.track_id ≡ t.track_id) _ (state_of operation t) _
          (state_of-id operation t)
          λ new same.
            ids-put_first id new (ap (λ s. text_eq s id) same ∙ find-id id d.tracks found) d.tracks

  pub set_track_ducking-tracks : KeepsTracks {F = F} set_track_ducking
  unfolding set_track_ducking
  set_track_ducking-tracks d heap operation =
      IfOk-refuse_if _ (not (text_eq (text_at "track_id" operation) "bgm")) _ _ λ _.
        IfOk-found _ (track_by_id d "bgm") _ _ λ t _. IfOk-refuse_if _ t.locked _ _ λ _.
          IfOk-any _ (ducking_of operation) _
            λ ducking _. ids-update_first "bgm" _ (λ t. refl) d.tracks

  pub update_editable_clip-tracks :
      (update : Fields F → Track F → Clip F → Result Error (Clip F))
      → KeepsTracks {F = F}
          λ d heap operation. update_editable_clip d heap operation (update operation)
  unfolding update_editable_clip
  update_editable_clip-tracks update d heap operation =
      IfOk-any _ (editable_location d operation) _ λ l _.
        IfOk-any _ (update operation (track_at d.tracks l) (clip_at d.tracks l)) _
          λ new _. ids-update_clip l (λ _. new) d.tracks

  pub set_clip_fades-tracks : KeepsTracks {F = F} set_clip_fades
  unfolding set_clip_fades
  set_clip_fades-tracks d heap operation = IfOk-any _ (editable_location d operation) _ λ l _.
      IfOk-refuse_if _
        (not (text_eq (track_family (track_at d.tracks l)) "audio")
          && not (text_eq (clip_at d.tracks l).asset_kind "video"))
        _ _
        λ _.
          IfOk-any _
            (both_frames (frame_value operation "fade_in_frames")
              (frame_value operation "fade_out_frames"))
            _
            λ fades _.
              IfOk-any _ (refuse_fades d.tracks fades.0 fades.1 (fade_members d l)) _
                λ _ _. ids-update_members (fade_members d l) _ d.tracks
