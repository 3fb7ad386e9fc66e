-- ===== src/Timeline/Reorder/Coverage.antt =====
-- Reordering keeps the primary track gapless: go/internal/timeline/timeline.go (reorderClip).
use rushes.Base.{
  String, ℤ, pos, List, [], ◌∷◌, map, ◌≡◌, refl, int_laws, ◌+ℤ◌, ◌-ℤ◌, ltb_ℤ, IfOk-refuse_if,
  IfOk-any, IfOk-found, inl, inr, Bool-cases, text_eq, some, if◌then◌else◌, ◌||◌,
}
use rushes.Float.{Floats}
use rushes.Value.{frame_value, text_at}
use rushes.Timeline.Types.{Clip, Track, Document, Heap}
use rushes.Timeline.Errors.{lift}
use rushes.Timeline.Lookup.{sort_track, is_primary, update_first, track_by_id}
use rushes.Timeline.Reorder.{
  reordered, sync_all, sync_linked_timing, lay_out, put_in, take_out, by_start, reorder_track,
  reorder_to, reorder_clip, refuse_groups, has_group, follow,
}
use rushes.Timeline.Spans.{Covers}
use rushes.Timeline.Spans.Reorder.{
  total, Sized, Covers-Sized, by_start-Sized, Taken, take_out-Taken, put_in-Sized, lay_out-Covers,
}
use rushes.Timeline.Coverage.{
  AllCover, IsCovered, LeavesCovered, KeepsCoverage, primary-Covers, AllCover-map,
  AllCover-update_first,
}

module _ {F : Type 0} where
  -- A step that leaves primary tracks alone, and makes no track primary.
  other_tracks :
      (f : Track F → Track F) (n : ℤ)
      → ((t : Track F) → is_primary (f t) ≡ is_primary t)
      → (ts : List (Track F)) → AllCover n ts
      → AllCover n (map (λ t. if is_primary t then t else f t) ts)
  other_tracks f n same = AllCover-map _ n n λ t p. elim (Bool-cases (is_primary t)) [
    | inl e ↦ rw e p
    | inr e ↦ rw e λ primary. absurd (cc (same t))
  ]

  sync_linked_timing-AllCover :
      (c : Clip F) (n : ℤ) (ts : List (Track F))
      → AllCover n ts
      → AllCover n (sync_linked_timing c ts)
  unfolding sync_linked_timing
  sync_linked_timing-AllCover c n ts h = elim (Bool-cases (has_group c)) [
    | inl e ↦
        rw e (other_tracks (λ t. record t { clips = map (follow c) t.clips }) n (λ t. refl) ts h)
    | inr e ↦ rw e h
  ]

  sync_all-AllCover :
      (cs : List (Clip F)) (n : ℤ) (ts : List (Track F))
      → AllCover n ts
      → AllCover n (sync_all cs ts)
  unfolding sync_all
  sync_all-AllCover [] n ts h = h
  sync_all-AllCover (c ∷ cs) n ts h =
      sync_all-AllCover cs n (sync_linked_timing c ts) (sync_linked_timing-AllCover c n ts h)

  -- Clips of the timeline's whole length, laid out from 0, cover it.
  pub reordered-IsCovered :
      (d : Document F) (order : List (Clip F))
      → Sized order (d.duration_frames -ℤ pos 0)
      → IsCovered d
      → IsCovered (reordered d order)
  unfolding reordered
  reordered-IsCovered d order (positive, sum) h =
      let n = d.duration_frames in
      let whole : pos 0 +ℤ total order ≡ n = rw sum (omega int_laws) in
      let clips = lay_out (pos 0) order in
      let laid : Covers (pos 0) clips n = rw whole at (lay_out-Covers (pos 0) order positive) in
      let first : AllCover n
          (update_first "visual_base" (λ t. record t { clips = clips }) d.tracks) =
        AllCover-update_first "visual_base" _ n (λ t p primary. laid) d.tracks h.covers in
      record {
        not_negative = h.not_negative;
        covers = other_tracks sort_track n (λ t. refl) _ (sync_all-AllCover clips n _ first);
      }

module _ {F : Type 0} ⦃fl : Floats F⦄ where
  placed-Sized :
      (target : ℤ) (n : ℤ) (r : Clip F × List (Clip F))
      → Taken n (some r)
      → Sized (put_in target r.0 r.1) n
  placed-Sized target n (moving, others) (h, p, e) =
      let (all, sum) = put_in-Sized target moving others h p in (all, rw sum e)

  reorder_track-IsCovered :
      (d : Document F) (heap : Heap F) (id : String) (target : ℤ) (t : Track F)
      → IsCovered d
      → Covers (pos 0) t.clips d.duration_frames
      → LeavesCovered (reorder_track d heap id target t)
  unfolding reorder_track
  reorder_track-IsCovered d heap id target t h p =
      let n = d.duration_frames in
      let (all, sum) = by_start-Sized t.clips (n -ℤ pos 0) (Covers-Sized (pos 0) n t.clips p) in
      let taken : Taken (n -ℤ pos 0) (take_out id (by_start t.clips)) =
        rw sum at (take_out-Taken id (by_start t.clips) all) in
      IfOk-refuse_if _ t.locked _ _ λ _. IfOk-any _ (refuse_groups d t.clips) _ λ _ _.
        IfOk-found _ (take_out id (by_start t.clips)) _ _ λ r found.
          reordered-IsCovered d (put_in target r.0 r.1)
            (placed-Sized target (n -ℤ pos 0) r (rw found at taken)) h

  pub reorder_to-IsCovered :
      (d : Document F) (heap : Heap F) (id : String) (target : ℤ)
      → IsCovered d
      → LeavesCovered (reorder_to d heap id target)
  unfolding reorder_to
  reorder_to-IsCovered d heap id target h = IfOk-refuse_if _ (text_eq id "") _ _ λ _.
      IfOk-refuse_if _ (ltb_ℤ target (pos 0) || ltb_ℤ d.duration_frames target) _ _ λ _.
        IfOk-found _ (track_by_id d "visual_base") _ _
          λ t found. reorder_track-IsCovered d heap id target t h (primary-Covers d h found)

  pub reorder_clip-IsCovered : KeepsCoverage {F = F} reorder_clip
  unfolding reorder_clip
  reorder_clip-IsCovered d heap operation h =
      let id = text_at "timeline_clip_id" operation in
      IfOk-refuse_if _ (text_eq id "") _ _ λ _.
        IfOk-any _ (lift (frame_value operation "target_frame")) _
          λ target _. reorder_to-IsCovered d heap id target h
