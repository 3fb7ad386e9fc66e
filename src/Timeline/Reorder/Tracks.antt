-- ===== src/Timeline/Reorder/Tracks.antt =====
-- Reordering keeps the tracks: go/internal/timeline/timeline.go (reorderClip).
use rushes.Base.{
  String, ℤ, pos, List, [], ◌∷◌, ◌≡◌, refl, ◌∙◌, IfOk-any, IfOk-found, IfOk-refuse_if, Bool-cases,
  inl, inr, text_eq, ltb_ℤ, ◌||◌, map,
}
use rushes.Float.{Floats}
use rushes.Value.{frame_value, text_at}
use rushes.Timeline.Types.{Clip, Track, Document, Heap}
use rushes.Timeline.Errors.{lift}
use rushes.Timeline.Lookup.{update_first, track_by_id, sort_track}
use rushes.Timeline.Tracks.{ids, ids-other_tracks, LeavesTracks, KeepsTracks, ids-update_first}
use rushes.Timeline.Reorder.{
  reordered, sync_all, sync_linked_timing, lay_out, put_in, take_out, by_start, reorder_track,
  reorder_to, reorder_clip, refuse_groups, has_group, follow,
}

module _ {F : Type 0} where
  sync_linked_timing-ids :
      (c : Clip F) (ts : List (Track F)) → ids (sync_linked_timing c ts) ≡ ids ts
  unfolding sync_linked_timing
  sync_linked_timing-ids c ts = elim (Bool-cases (has_group c)) [
    | inl e ↦
        rw e (ids-other_tracks (λ t. record t { clips = map (follow c) t.clips }) (λ t. refl) ts)
    | inr e ↦ rw e refl
  ]

  sync_all-ids : (cs : List (Clip F)) (ts : List (Track F)) → ids (sync_all cs ts) ≡ ids ts
  unfolding sync_all
  sync_all-ids [] ts = refl
  sync_all-ids (c ∷ cs) ts = sync_all-ids cs (sync_linked_timing c ts) ∙ sync_linked_timing-ids c ts

  reordered-ids :
      (d : Document F) (order : List (Clip F)) → ids (reordered d order).tracks ≡ ids d.tracks
  unfolding reordered
  reordered-ids d order =
      let clips = lay_out (pos 0) order in
      let placed = update_first "visual_base" (λ t. record t { clips = clips }) d.tracks in
      ids-other_tracks sort_track (λ t. refl) (sync_all clips placed)
      ∙ sync_all-ids clips placed
      ∙ ids-update_first "visual_base" _ (λ t. refl) d.tracks

module _ {F : Type 0} ⦃fl : Floats F⦄ where
  reorder_track-tracks :
      (d : Document F) (heap : Heap F) (id : String) (target : ℤ) (t : Track F)
      → LeavesTracks d (reorder_track d heap id target t)
  unfolding reorder_track
  reorder_track-tracks d heap id target t = IfOk-refuse_if _ t.locked _ _ λ _.
      IfOk-any _ (refuse_groups d t.clips) _ λ _ _.
        IfOk-found _ (take_out id (by_start t.clips)) _ _
          λ r _. reordered-ids d (put_in target r.0 r.1)

  pub reorder_clip-tracks : KeepsTracks {F = F} reorder_clip
  unfolding reorder_clip reorder_to
  reorder_clip-tracks d heap operation =
      let id = text_at "timeline_clip_id" operation in
      IfOk-refuse_if _ (text_eq id "") _ _ λ _.
        IfOk-any _ (lift (frame_value operation "target_frame")) _ λ target _.
          IfOk-refuse_if _ (text_eq id "") _ _ λ _.
            IfOk-refuse_if _ (ltb_ℤ target (pos 0) || ltb_ℤ d.duration_frames target) _ _ λ _.
              IfOk-found _ (track_by_id d "visual_base") _ _
                λ t _. reorder_track-tracks d heap id target t
