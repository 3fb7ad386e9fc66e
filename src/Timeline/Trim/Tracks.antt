-- ===== src/Timeline/Trim/Tracks.antt =====
-- Trimming an edge keeps the tracks: go/internal/timeline/editing.go (trimClipEdge).
use rushes.Base.{
  [], ◌∷◌, IfOk-any, IfOk-refuse_if, Bool-cases, inl, inr, text_eq, not, if◌then◌else◌, member,
}
use rushes.Float.{Floats}
use rushes.Value.{frame_value, text_at}
use rushes.Timeline.Errors.{lift}
use rushes.Timeline.Lookup.{clip_at, editable_location, refuse_locked, members_of, has_primary}
use rushes.Timeline.Tracks.{KeepsTracks, ids-update_members}
use rushes.Timeline.Trim.{trim_clip_edge}
use rushes.Timeline.Ripple.{ensure_ripple_unlocked}
use rushes.Timeline.Split.{not_inside}
use rushes.Timeline.Ripple.Tracks.{delete_frames-tracks}

module _ {F : Type 0} ⦃fl : Floats F⦄ where
  pub trim_clip_edge-tracks : KeepsTracks {F = F} trim_clip_edge
  unfolding trim_clip_edge
  trim_clip_edge-tracks d heap operation =
      let edge = text_at "edge" operation in
      IfOk-any _ (editable_location d operation) _ λ l _.
        IfOk-any _ (lift (frame_value operation "timeline_frame")) _ λ frame _.
          IfOk-refuse_if _ (not (member edge ("start" ∷ "end" ∷ []))) _ _ λ _.
            let selected = clip_at d.tracks l in
            let members = members_of d l in
            let start = if text_eq edge "end" then frame else selected.timeline_start_frame in
            let end = if text_eq edge "end" then selected.timeline_end_frame else frame in
            IfOk-refuse_if _ (not_inside frame selected) _ _ λ _.
              IfOk-any _ (refuse_locked d.tracks members) _ λ _ _.
                elim (Bool-cases (has_primary d.tracks members)) [
                  | inl e ↦ rw e (
                      IfOk-any _ (ensure_ripple_unlocked d start "") _
                        λ _ _. delete_frames-tracks start end d heap)
                  | inr e ↦ rw e (ids-update_members members _ d.tracks)
                ]
