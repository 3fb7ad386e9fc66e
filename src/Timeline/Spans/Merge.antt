-- ===== src/Timeline/Spans/Merge.antt =====
-- Merging adjacent clips keeps the stretch that they cover, and the count of clips:
-- go/internal/timeline/coalesce.go (CoalesceRedundantAdjacentClips).
use rushes.Base.{suc, ◌+◌, String, ℤ, List, [], ◌∷◌, ◌≡◌, Bool-cases, inl, inr, arith, length}
use rushes.Float.{Floats}
use rushes.Timeline.Types.{Clip, Heap}
use rushes.Timeline.Metadata.{sync_clip_placement_metadata}
use rushes.Timeline.Coalesce.{coalesce_from, render_equivalent, merged}
use rushes.Timeline.Spans.{Covers}

module _ {F : Type 0} ⦃fl : Floats F⦄ where
  pub coalesce_from-Covers :
      (track : String) (heap : Heap F) (from to : ℤ) (left : Clip F) (cs : List (Clip F))
      → Covers from (left ∷ cs) to
      → Covers from (coalesce_from track heap left cs).clips to
  unfolding coalesce_from
  coalesce_from-Covers track heap from to left [] p = p
  coalesce_from-Covers track heap from to left (c ∷ cs) (s, l, (s', l', p)) =
      let kept = merged left c c.source_end_frame in
      elim (Bool-cases (render_equivalent heap left c)) [
        | inl e ↦ rw e (
            coalesce_from-Covers track (sync_clip_placement_metadata kept heap) from to kept cs
              (s, omega arith, p))
        | inr e ↦
            rw e (s, l, coalesce_from-Covers track heap left.timeline_end_frame to c cs (s', l', p))
      ]

  -- In the loop of `CoalesceRedundantAdjacentClips` over a track's clips, the clips that are left and
  -- the merges that are reported are together as many as the clips before.
  pub coalesce_from-count :
      (track : String) (heap : Heap F) (left : Clip F) (cs : List (Clip F))
      → let m = coalesce_from track heap left cs in
        length m.clips + length m.merges ≡ suc (length cs)
  unfolding coalesce_from
  coalesce_from-count track heap left [] = omega arith
  coalesce_from-count track heap left (c ∷ cs) =
      let kept = merged left c c.source_end_frame in
      elim (Bool-cases (render_equivalent heap left c)) [
        | inl e ↦ rw e (
            omega
              (arith, coalesce_from-count track (sync_clip_placement_metadata kept heap) kept cs))
        | inr e ↦ rw e (omega (arith, coalesce_from-count track heap c cs))
      ]
