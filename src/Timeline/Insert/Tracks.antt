-- ===== src/Timeline/Insert/Tracks.antt =====
-- New clips keep the tracks: go/internal/timeline/timeline.go (insertClip, replaceClip,
-- removeTrackClips) and editing.go (insertSubtitle).
use rushes.Base.{
  String, Bool, true, false, ℤ, pos, ◌≡◌, refl, ◌-ℤ◌, ◌∙◌, IfOk, IfOk-any, IfOk-bind, IfOk-found,
  IfOk-refuse_if, Bool-cases, inl, inr, text_eq, leb_ℤ, ltb_ℤ, ◌&&◌, ◌||◌, not, length, trim_space,
}
use rushes.Float.{Floats}
use rushes.Value.{Fields, frame_value, text_at, has, value_or}
use rushes.Timeline.Types.{Clip, Track, Document, Heap}
use rushes.Timeline.Errors.{both_frames}
use rushes.Timeline.Lookup.{is_primary, track_by_id, editable_location, locate_clip}
use rushes.Timeline.Tracks.{ids, LeavesTracks, KeepsTracks, ids-update_first, ids-update_clip}
use rushes.Timeline.Insert.{
  insert_clip, insert_on, start_frame, wants_audio, new_metadata, new_clip, with_audio,
  replace_clip, insert_subtitle, subtitle_on, subtitle_style, generated_id, is_ok,
  remove_track_clips,
}

module _ {F : Type 0} ⦃fl : Floats F⦄ where
  with_audio-ids :
      (audio : Bool) (operation : Fields F) (c : Clip F) (d : Document F)
      → IfOk (λ r. ids r.1 ≡ ids d.tracks) (with_audio audio operation c d)
  unfolding with_audio
  with_audio-ids false operation c d = refl
  with_audio-ids true operation c d = IfOk-found _ (track_by_id d "original_audio") _ _ λ t _.
      elim (Bool-cases t.locked) [
        | inl e ↦ rw e tt
        | inr e ↦ rw e (ids-update_first "original_audio" _ (λ t. refl) d.tracks)
      ]

  insert_on-tracks :
      (d : Document F) (heap : Heap F) (operation : Fields F) (start end : ℤ) (t : Track F)
      → LeavesTracks d (insert_on d heap operation start end t)
  unfolding insert_on
  insert_on-tracks d heap operation start end t = IfOk-refuse_if _ t.locked _ _ λ _.
      IfOk-any _ (start_frame d t operation (end -ℤ start)) _ λ at _.
        IfOk-any _ (wants_audio operation) _ λ audio _.
          IfOk-refuse_if _ (audio && not (is_primary t)) _ _ λ _.
            IfOk-any _ (new_metadata operation heap) _ λ m _.
              let c = new_clip d t operation at start end m.0 in
              IfOk-bind (λ r. ids r.1 ≡ ids d.tracks) _ (with_audio audio operation c d) _
                (with_audio-ids audio operation c d)
                λ r same. ids-update_first t.track_id _ (λ u. refl) r.1 ∙ same

  pub insert_clip-tracks : KeepsTracks {F = F} insert_clip
  unfolding insert_clip
  insert_clip-tracks d heap operation =
      IfOk-any _
        (both_frames (frame_value operation "source_start_frame")
          (frame_value operation "source_end_frame"))
        _
        λ r _.
          IfOk-refuse_if _
            (text_eq (text_at "asset_id" operation) "" || ltb_ℤ r.0 (pos 0) || leb_ℤ r.1 r.0) _ _
            λ _.
              IfOk-found _ (track_by_id d (value_or (text_at "track_id" operation) "visual_base")) _
                _ λ t _. insert_on-tracks d heap operation r.0 r.1 t

  pub replace_clip-tracks : KeepsTracks {F = F} replace_clip
  unfolding replace_clip
  replace_clip-tracks d heap operation = IfOk-any _ (editable_location d operation) _ λ l _.
      IfOk-refuse_if _ (text_eq (text_at "asset_id" operation) "") _ _
        λ _. ids-update_clip l _ d.tracks

  pub remove_track_clips-tracks :
      (d : Document F) (heap : Heap F) (id : String) → LeavesTracks d (remove_track_clips d heap id)
  unfolding remove_track_clips
  remove_track_clips-tracks d heap id = IfOk-found _ (track_by_id d id) _ _ λ t _.
      IfOk-refuse_if _ (text_eq id "visual_base") _ _
        λ _. IfOk-refuse_if _ t.locked _ _ λ _. ids-update_first id _ (λ t. refl) d.tracks

  subtitle_on-tracks :
      (d : Document F) (heap : Heap F) (operation : Fields F) (t : Track F)
      → LeavesTracks d (subtitle_on d heap operation t)
  unfolding subtitle_on
  subtitle_on-tracks d heap operation t =
      let text = trim_space (text_at "text" operation) in
      let id =
        value_or (text_at "timeline_clip_id" operation)
          (generated_id "subtitle" d.version (length t.clips)) in
      IfOk-refuse_if _ t.locked _ _ λ _.
        IfOk-any _
          (both_frames (frame_value operation "start_frame") (frame_value operation "end_frame")) _
          λ r _.
            IfOk-refuse_if _
              (ltb_ℤ r.0 (pos 0) || leb_ℤ r.1 r.0 || ltb_ℤ d.duration_frames r.1 || text_eq text "")
              _ _
              λ _.
                IfOk-refuse_if _ (has "style" operation && text_eq (subtitle_style operation) "") _
                  _
                  λ _.
                    IfOk-refuse_if _ (is_ok (locate_clip d id)) _ _
                      λ _. ids-update_first "subtitles" _ (λ t. refl) d.tracks

  pub insert_subtitle-tracks : KeepsTracks {F = F} insert_subtitle
  unfolding insert_subtitle
  insert_subtitle-tracks d heap operation =
      IfOk-found _ (track_by_id d "subtitles") _ _ λ t _. subtitle_on-tracks d heap operation t
