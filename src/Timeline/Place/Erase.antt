-- ===== src/Timeline/Place/Erase.antt =====
-- What an erased range leaves: go/internal/timeline/editing.go (eraseTrackRange).
use rushes.Base.{
  true, ℤ, List, [], ◌∷◌, ◌≡◌, ◌⊎◌, inl, inr, ◌≤ℤ◌, arith, All, All-append, Bool-cases,
  if◌then◌else◌, ltb_ℤ,
}
use rushes.Float.{Floats}
use rushes.Timeline.Types.{Clip, Heap}
use rushes.Timeline.Ripple.{replace_clips}
use rushes.Timeline.Place.{erase_track_range, erase_from_clip, kept_left, kept_right, apart}

module _ {F : Type 0} ⦃fl : Floats F⦄ where
  -- The clip does not play inside the range.
  abbrev pub IsOutside : ℤ → ℤ → Clip F → Type 0
  IsOutside start end c = (c.timeline_end_frame ≤ℤ start) ⊎ (end ≤ℤ c.timeline_start_frame)

  apart-IsOutside : (start end : ℤ) (c : Clip F) → apart start end c ≡ true → IsOutside start end c
  apart-IsOutside start end c e = ground arith

  erase_from_clip-IsOutside :
      (start end : ℤ) (c : Clip F) → All (IsOutside start end) (erase_from_clip start end c)
  unfolding erase_from_clip kept_left kept_right
  erase_from_clip-IsOutside start end c = elim (Bool-cases (apart start end c)) [
    | inl e ↦ rw e (apart-IsOutside start end c e, tt)
    | inr e ↦ rw e (All-append (IsOutside start end) _ _ left right)
  ]
    where
      left :
          All
            (IsOutside start end)
            (if ltb_ℤ c.timeline_start_frame start then kept_left start c ∷ [] else [])
      left = elim (Bool-cases (ltb_ℤ c.timeline_start_frame start)) [
        | inl e ↦ rw e (inl (omega arith), tt)
        | inr e ↦ rw e tt
      ]

      right :
          All
            (IsOutside start end)
            (if ltb_ℤ end c.timeline_end_frame then kept_right end c ∷ [] else [])
      right = elim (Bool-cases (ltb_ℤ end c.timeline_end_frame)) [
        | inl e ↦ rw e (inr (omega arith), tt)
        | inr e ↦ rw e tt
      ]

  -- After `eraseTrackRange` no clip of the track plays inside the erased range: each one ends at the
  -- range's start or before, or starts at its end or later.
  pub erase_track_range-IsOutside :
      (start end : ℤ) (cs : List (Clip F)) (heap : Heap F)
      → All (IsOutside start end) (erase_track_range start end cs heap).0
  unfolding erase_track_range
  erase_track_range-IsOutside start end cs heap = erased cs
    where
      erased :
          (cs : List (Clip F))
          → All (IsOutside start end) (replace_clips (erase_from_clip start end) cs)
      erased [] = tt
      erased (c ∷ cs) =
          All-append (IsOutside start end) _ _ (erase_from_clip-IsOutside start end c) (erased cs)
