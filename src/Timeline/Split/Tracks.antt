-- ===== src/Timeline/Split/Tracks.antt =====
-- Cutting a clip keeps the tracks: go/internal/timeline/timeline.go (splitClip).
use rushes.Base.{List, [], ◌∷◌, ◌≡◌, refl, ap, IfOk, IfOk-any, IfOk-bind}
use rushes.Float.{Floats}
use rushes.Value.{frame_value, text_at}
use rushes.Timeline.Types.{Track}
use rushes.Timeline.Errors.{lift}
use rushes.Timeline.Lookup.{clip_at, editable_location, linked_group}
use rushes.Timeline.Tracks.{ids, KeepsTracks}
use rushes.Timeline.Split.{
  Cut, cut_at, cut_clips, cut_tracks, refuse_members, split_located, split_clip,
}

module _ {F : Type 0} ⦃fl : Floats F⦄ where
  cut_tracks-ids :
      (k : Cut) (ts : List (Track F)) → IfOk (λ new. ids new ≡ ids ts) (cut_tracks k ts)
  unfolding cut_tracks
  cut_tracks-ids k [] = refl
  cut_tracks-ids k (t ∷ ts) = IfOk-any _ (cut_clips k t.clips) _ λ clips _.
      IfOk-bind (λ new. ids new ≡ ids ts) _ (cut_tracks k ts) _ (cut_tracks-ids k ts)
        λ new same. ap (λ ss. t.track_id ∷ ss) same

  pub split_clip-tracks : KeepsTracks {F = F} split_clip
  unfolding split_clip split_located
  split_clip-tracks d heap operation = IfOk-any _ (editable_location d operation) _ λ l _.
      IfOk-any _ (lift (frame_value operation "split_frame")) _ λ frame _.
        let k = cut_at (clip_at d.tracks l) frame (text_at "new_timeline_clip_id" operation) in
        IfOk-any _ (refuse_members d.tracks frame (linked_group d k.group_id)) _ λ _ _.
          IfOk-bind (λ new. ids new ≡ ids d.tracks) _ (cut_tracks k d.tracks) _
            (cut_tracks-ids k d.tracks) λ new same. same
