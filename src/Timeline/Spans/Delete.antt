-- ===== src/Timeline/Spans/Delete.antt =====
-- A ripple deletion closes the gap that it makes: go/internal/timeline/timeline.go (deleteRange).
use rushes.Base.{
  ℤ, pos, List, [], ◌∷◌, ◌≡◌, refl, ◌<ℤ◌, ◌≤ℤ◌, leb_ℤ, if◌then◌else◌, arith, ◌+ℤ◌, ◌-ℤ◌, +ℤ_parts,
  -ℤ_parts, eq_of_parts, neg,
}
use rushes.Float.{Floats}
use rushes.Timeline.Types.{Clip}
use rushes.Timeline.Ripple.{delete_from_clip, replace_clips}
use rushes.Timeline.Spans.{Covers, Covers-append}

-- Where a frame comes to lie when the range is taken out.
unfoldable pub closed : ℤ → ℤ → ℤ → ℤ
closed start end x = if leb_ℤ x start then x else if leb_ℤ x end then start else x -ℤ (end -ℤ start)

module _ {F : Type 0} ⦃fl : Floats F⦄ where
  delete_from_clip-Covers :
      (start end : ℤ) (c : Clip F)
      → start <ℤ end
      → c.timeline_start_frame <ℤ c.timeline_end_frame
      → Covers
          (closed start end c.timeline_start_frame)
          (delete_from_clip start end c)
          (closed start end c.timeline_end_frame)
  unfolding delete_from_clip closed
  delete_from_clip-Covers start end c h l = ground (
    arith,
    -ℤ_parts end start,
    -ℤ_parts c.timeline_start_frame (end -ℤ start),
    -ℤ_parts c.timeline_end_frame (end -ℤ start),
    +ℤ_parts c.timeline_start_frame (neg (end -ℤ start)),
    +ℤ_parts c.timeline_end_frame (neg (end -ℤ start)),
    -ℤ_parts (pos 0) (end -ℤ start),
    eq_of_parts c.timeline_start_frame start,
    eq_of_parts (c.timeline_start_frame +ℤ neg (end -ℤ start))
        (c.timeline_start_frame -ℤ (end -ℤ start)),
    eq_of_parts (c.timeline_end_frame +ℤ neg (end -ℤ start))
        (c.timeline_end_frame -ℤ (end -ℤ start)),
  )

  -- Taking a range out of clips that cover a stretch leaves clips that cover the shortened stretch.
  pub delete-Covers :
      (start end from to : ℤ) (cs : List (Clip F))
      → start <ℤ end
      → Covers from cs to
      → Covers
          (closed start end from)
          (replace_clips (delete_from_clip start end) cs)
          (closed start end to)
  delete-Covers start end from to [] h p = rw p refl
  delete-Covers start end from to (c ∷ cs) h (s, l, p) =
      let first : Covers (closed start end from) (delete_from_clip start end c)
          (closed start end c.timeline_end_frame) =
        rw (← s) (delete_from_clip-Covers start end c h (rw s l)) in
      Covers-append (closed start end from) (closed start end c.timeline_end_frame)
        (closed start end to) (delete_from_clip start end c)
        (replace_clips (delete_from_clip start end) cs) first
        (delete-Covers start end c.timeline_end_frame to cs h p)

-- The ends of a timeline that starts at 0, for a range inside it.
pub closed_zero : (start end : ℤ) → pos 0 ≤ℤ start → closed start end (pos 0) ≡ pos 0
unfolding closed
closed_zero start end h = ground arith

pub closed_last :
    (start end duration : ℤ)
    → start <ℤ end
    → end ≤ℤ duration
    → closed start end duration ≡ duration -ℤ (end -ℤ start)
unfolding closed
closed_last start end duration h l = ground (
  arith,
  -ℤ_parts end start,
  -ℤ_parts duration (end -ℤ start),
  eq_of_parts start (duration -ℤ (end -ℤ start)),
)
