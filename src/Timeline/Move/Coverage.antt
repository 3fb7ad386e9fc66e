-- ===== src/Timeline/Move/Coverage.antt =====
-- Linking clips and the primary track: go/internal/timeline/editing.go (setClipLinked).
use rushes.Base.{
  Bool, true, false, refl, if◌then◌else◌, ◌&&◌, not, length, leb, ◌==◌, Bool-cases, inl, inr,
  IfOk-any, IfOk-found, IfOk-refuse_if, keep_if, [], ◌∷◌,
}
use rushes.Float.{Floats}
use rushes.Value.{bool_value, value_at}
use rushes.Timeline.Types.{Document, Heap}
use rushes.Timeline.Lookup.{
  ClipLocation, editable_location, linked_group, refuse_locked, track_at, clip_at, update_clip,
}
use rushes.Timeline.Move.{
  set_clip_linked, set_linked, unlink, unlinked, link_with, link_candidate, same_location,
}
use rushes.Timeline.Coverage.{
  IsCovered, LeavesCovered, KeepsCoverage, retracked-IsCovered, AllCover, AllCover-update_clip,
  AllCover-update_members,
}
use rushes.Timeline.Reorder.{has_group}

module _ {F : Type 0} ⦃fl : Floats F⦄ where
  unlink-IsCovered :
      (d : Document F) (heap : Heap F) (l : ClipLocation)
      → IsCovered d
      → LeavesCovered (unlink d heap l)
  unfolding unlink
  unlink-IsCovered d heap l h =
      let group = (clip_at d.tracks l).parent_block_id in
      let tracks = update_clip l unlinked d.tracks in
      let left = linked_group (record d { tracks = tracks }) group in
      let apart : AllCover d.duration_frames tracks =
        AllCover-update_clip l unlinked d.duration_frames (λ c. (refl, refl)) d.tracks h.covers in
      IfOk-any _
        (refuse_locked d.tracks (
          if length (linked_group d group) == 2
          then keep_if (λ m. not (same_location m l)) (linked_group d group)
          else []))
        _
        λ _ _. retracked-IsCovered d _ h (elim (Bool-cases (length left == 1)) [
          | inl e ↦ rw e (
              AllCover-update_members left unlinked d.duration_frames (λ c. (refl, refl)) tracks
                apart)
          | inr e ↦ rw e apart
        ])

  link_with-IsCovered :
      (d : Document F) (heap : Heap F) (l partner : ClipLocation)
      → IsCovered d
      → LeavesCovered (link_with d heap l partner)
  unfolding link_with
  link_with-IsCovered d heap l partner h =
      IfOk-refuse_if _ (track_at d.tracks partner).locked _ _ λ _. retracked-IsCovered d _ h (
        AllCover-update_members (l ∷ partner ∷ []) _ d.duration_frames (λ c. (refl, refl)) d.tracks
          h.covers)

  set_linked-IsCovered :
      (linked : Bool) (l : ClipLocation) (d : Document F) (heap : Heap F)
      → IsCovered d
      → LeavesCovered (set_linked linked l d heap)
  unfolding set_linked
  set_linked-IsCovered false l d heap h = elim (Bool-cases (clip_at d.tracks l).linked) [
    | inl e ↦ rw e (unlink-IsCovered d heap l h)
    | inr e ↦ rw e (
        retracked-IsCovered d _ h
          (AllCover-update_clip l _ d.duration_frames (λ c. (refl, refl)) d.tracks h.covers))
  ]
  set_linked-IsCovered true l d heap h =
      let c = clip_at d.tracks l in
      elim (Bool-cases (has_group c && not (leb (length (linked_group d c.parent_block_id)) 1))) [
        | inl e ↦ rw e h
        | inr e ↦ rw e (
            IfOk-found _ (link_candidate d l) _ _
              λ partner _. link_with-IsCovered d heap l partner h)
      ]

  pub set_clip_linked-IsCovered : KeepsCoverage {F = F} set_clip_linked
  unfolding set_clip_linked
  set_clip_linked-IsCovered d heap operation h = IfOk-any _ (editable_location d operation) _ λ l _.
      IfOk-found _ (bool_value (value_at "linked" operation)) _ _
        λ linked _. set_linked-IsCovered linked l d heap h
