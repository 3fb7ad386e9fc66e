-- ===== src/Timeline/Move/Tracks.antt =====
-- Linking clips keeps the tracks: go/internal/timeline/editing.go (setClipLinked).
use rushes.Base.{
  Bool, true, false, [], ◌∷◌, ◌≡◌, refl, ◌∙◌, IfOk-any, IfOk-found, IfOk-refuse_if, Bool-cases, inl,
  inr, leb, ◌&&◌, not, if◌then◌else◌, ◌==◌, length, keep_if,
}
use rushes.Float.{Floats}
use rushes.Value.{bool_value, value_at}
use rushes.Timeline.Types.{Document, Heap}
use rushes.Timeline.Lookup.{
  ClipLocation, track_at, clip_at, editable_location, linked_group, refuse_locked, update_clip,
}
use rushes.Timeline.Tracks.{ids, LeavesTracks, KeepsTracks, ids-update_clip, ids-update_members}
use rushes.Timeline.Move.{
  set_clip_linked, set_linked, unlink, unlinked, link_with, link_candidate, same_location,
}
use rushes.Timeline.Reorder.{has_group}

module _ {F : Type 0} ⦃fl : Floats F⦄ where
  unlink-tracks :
      (d : Document F) (heap : Heap F) (l : ClipLocation) → LeavesTracks d (unlink d heap l)
  unfolding unlink
  unlink-tracks d heap l =
      let group = (clip_at d.tracks l).parent_block_id in
      let tracks = update_clip l unlinked d.tracks in
      let left = linked_group (record d { tracks = tracks }) group in
      let same : ids tracks ≡ ids d.tracks = ids-update_clip l unlinked d.tracks in
      IfOk-any _
        (refuse_locked d.tracks (
          if length (linked_group d group) == 2
          then keep_if (λ m. not (same_location m l)) (linked_group d group)
          else []))
        _
        λ _ _. elim (Bool-cases (length left == 1)) [
          | inl e ↦ rw e (ids-update_members left unlinked tracks ∙ same)
          | inr e ↦ rw e same
        ]

  set_linked-tracks :
      (linked : Bool) (l : ClipLocation) (d : Document F) (heap : Heap F)
      → LeavesTracks d (set_linked linked l d heap)
  unfolding set_linked link_with
  set_linked-tracks false l d heap = elim (Bool-cases (clip_at d.tracks l).linked) [
    | inl e ↦ rw e (unlink-tracks d heap l)
    | inr e ↦ rw e (ids-update_clip l _ d.tracks)
  ]
  set_linked-tracks true l d heap =
      let c = clip_at d.tracks l in
      elim (Bool-cases (has_group c && not (leb (length (linked_group d c.parent_block_id)) 1))) [
        | inl e ↦ rw e refl
        | inr e ↦ rw e (
            IfOk-found _ (link_candidate d l) _ _ λ partner _.
              IfOk-refuse_if _ (track_at d.tracks partner).locked _ _
                λ _. ids-update_members (l ∷ partner ∷ []) _ d.tracks)
      ]

  pub set_clip_linked-tracks : KeepsTracks {F = F} set_clip_linked
  unfolding set_clip_linked
  set_clip_linked-tracks d heap operation = IfOk-any _ (editable_location d operation) _ λ l _.
      IfOk-found _ (bool_value (value_at "linked" operation)) _ _
        λ linked _. set_linked-tracks linked l d heap
