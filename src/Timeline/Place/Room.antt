-- ===== src/Timeline/Place/Room.antt =====
-- The room that is made for a clip: go/internal/timeline/editing.go (shiftTrackForInsert).
use rushes.Base.{
  ℤ, List, [], ◌∷◌, ◌≡◌, refl, ◌⊎◌, inl, inr, ◌≤ℤ◌, ◌<ℤ◌, ◌+ℤ◌, +ℤ_parts, arith, All, All-append,
  Bool-cases,
}
use rushes.Float.{Floats}
use rushes.Timeline.Types.{Clip, Heap}
use rushes.Timeline.Ripple.{replace_clips, starts_from}
use rushes.Timeline.Place.{shift_track_for_insert, make_room, make_way, cut_overflow, overflowing}

module _ {F : Type 0} ⦃fl : Floats F⦄ where
  -- The clip ends by the limit, and starts before the frame or past the room made there.
  abbrev pub GivesWay : ℤ → ℤ → ℤ → Clip F → Type 0
  GivesWay frame duration limit c =
      (c.timeline_end_frame ≤ℤ limit)
      × ((c.timeline_start_frame <ℤ frame) ⊎ (frame +ℤ duration ≤ℤ c.timeline_start_frame))

  make_way-start :
      (frame duration : ℤ) (c : Clip F)
      → let c' = make_way frame duration c in
        (c'.timeline_start_frame <ℤ frame) ⊎ (frame +ℤ duration ≤ℤ c'.timeline_start_frame)
  unfolding make_way
  make_way-start frame duration c = elim (Bool-cases (starts_from frame c)) [
    | inl e ↦
        rw e
          (inr (ground (arith, +ℤ_parts frame duration, +ℤ_parts c.timeline_start_frame duration)))
    | inr e ↦ rw e (inl (ground arith))
  ]

  cut_overflow-fits :
      (limit : ℤ) (c : Clip F)
      → ((cut_overflow limit c).timeline_end_frame ≤ℤ limit)
        × ((cut_overflow limit c).timeline_start_frame ≡ c.timeline_start_frame)
  unfolding cut_overflow overflowing
  cut_overflow-fits limit c = elim (Bool-cases (overflowing limit c)) [
    | inl e ↦ rw e (omega arith, refl)
    | inr e ↦ rw e (ground arith, refl)
  ]

  make_room-GivesWay :
      (frame duration limit : ℤ) (c : Clip F)
      → All (GivesWay frame duration limit) (make_room frame duration limit c)
  unfolding make_room
  make_room-GivesWay frame duration limit c =
      let c' = make_way frame duration c in
      let (fits, same) = cut_overflow-fits limit c' in
      elim (Bool-cases (starts_from limit c')) [
        | inl e ↦ rw e tt
        | inr e ↦ rw e ((fits, rw same (make_way-start frame duration c)), tt)
      ]

  -- After `shiftTrackForInsert` every clip of the track ends by the end of the timeline, and either
  -- starts before the frame or starts behind the room made there.
  pub shift_track_for_insert-GivesWay :
      (frame duration limit : ℤ) (cs : List (Clip F)) (heap : Heap F)
      → All (GivesWay frame duration limit) (shift_track_for_insert frame duration limit cs heap).0
  unfolding shift_track_for_insert
  shift_track_for_insert-GivesWay frame duration limit cs heap = made cs
    where
      made :
          (cs : List (Clip F))
          → All (GivesWay frame duration limit) (replace_clips (make_room frame duration limit) cs)
      made [] = tt
      made (c ∷ cs) =
          All-append (GivesWay frame duration limit) _ _ (make_room-GivesWay frame duration limit c)
            (made cs)
