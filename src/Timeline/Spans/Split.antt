-- ===== src/Timeline/Spans/Split.antt =====
-- Cutting a clip in two keeps the stretch that the clips cover: go/internal/timeline/timeline.go
-- (splitClip, splitClipValue).
use rushes.Base.{ℤ, List, [], ◌∷◌, ◌<ℤ◌, arith, IfOk, IfOk-bind}
use rushes.Float.{Floats}
use rushes.Timeline.Types.{Clip}
use rushes.Timeline.Split.{cut_pieces, cut_clips, Cut}
use rushes.Timeline.Spans.{Covers, Covers-append}

module _ {F : Type 0} ⦃fl : Floats F⦄ where
  cut_pieces-Covers :
      (k : Cut) (c : Clip F)
      → c.timeline_start_frame <ℤ c.timeline_end_frame
      → IfOk (λ pieces. Covers c.timeline_start_frame pieces c.timeline_end_frame) (cut_pieces k c)
  unfolding cut_pieces
  cut_pieces-Covers k c l = ground arith

  -- What `splitClip` leaves of clips that cover a stretch covers it too.
  pub cut_clips-Covers :
      (k : Cut) (from to : ℤ) (cs : List (Clip F))
      → Covers from cs to
      → IfOk (λ clips. Covers from clips to) (cut_clips k cs)
  unfolding cut_clips
  cut_clips-Covers k from to [] p = p
  cut_clips-Covers k from to (c ∷ cs) (s, l, p) =
      IfOk-bind _ _ (cut_pieces k c) _ (cut_pieces-Covers k c (rw s l)) λ pieces first.
        IfOk-bind _ _ (cut_clips k cs) _ (cut_clips-Covers k c.timeline_end_frame to cs p)
          λ rest others.
            rw (← s) (
              Covers-append c.timeline_start_frame c.timeline_end_frame to pieces rest first others)
