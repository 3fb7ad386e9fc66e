-- ===== src/Timeline/SourceRange.antt =====
-- Deleting a range of source frames: go/internal/timeline/timeline.go (deleteSourceRange,
-- exactTimelineOffset).
pub mod Coverage
pub mod Tracks
use rushes.Base.{
  String, ℤ, pos, List, [], ◌∷◌, Option, none, some, text_eq, trim_space, leb_ℤ, ltb_ℤ, ◌==ℤ◌, ◌+ℤ◌,
  ◌-ℤ◌, max_ℤ, min_ℤ, if◌then◌else◌, ◌&&◌, ◌||◌, not, stable_sort, Result, ok, err, ◌>>=◌, ◌>>◌,
  refuse_if,
}
use rushes.Float.{Floats, unscale, is_finite}
use rushes.Value.{Fields, frame_value, text_at}
use rushes.Timeline.Types.{Clip, Document, Heap}
use rushes.Timeline.Errors.{Error, plain, both_frames}
use rushes.Timeline.Lookup.{Outcome, track_by_id, effective_rate}
use rushes.Timeline.Ripple.{delete_frames}

-- `mappedSourceSegment`.
pub record Segment : Type 0 where
  pub source_start : ℤ
  pub source_end : ℤ
  pub timeline_start : ℤ
  pub timeline_end : ℤ

-- What the walk over the segments holds.
pub record Walk : Type 0 where
  pub source_cursor : ℤ
  pub timeline_start : ℤ
  pub timeline_end : ℤ

walk_step : Walk → Segment → Result Error Walk
walk_step w s = do
  refuse_if (ltb_ℤ s.source_start w.source_cursor) (plain "delete_source_range 在当前主视觉中存在重复映射")
  refuse_if (ltb_ℤ w.source_cursor s.source_start)
      (plain "delete_source_range 在当前主视觉中的 source 映射不连续")
  let fresh = ltb_ℤ w.timeline_start (pos 0)
  refuse_if (not fresh && not (s.timeline_start ==ℤ w.timeline_end))
      (plain "delete_source_range 在当前主视觉中的 timeline 映射不连续")
  ok (record {
    source_cursor = s.source_end;
    timeline_start = if fresh then s.timeline_start else w.timeline_start;
    timeline_end = s.timeline_end;
  })

unfoldable pub walk : Walk → List Segment → Result Error Walk
unfolding walk_step
walk w [] = ok w
walk w (s ∷ ss) = do w' ← walk_step w s; walk w' ss

-- The timeline range that the walk over the segments finds.
unfoldable pub mapped_range : ℤ → ℤ → List Segment → Result Error (ℤ × ℤ)
unfolding walk
mapped_range source_start source_end [] =
    err (plain "delete_source_range 在当前主视觉中没有匹配的 source range")
mapped_range source_start source_end (s ∷ ss) = do
  w ←
      walk
        (record {
          source_cursor = source_start;
          timeline_start = ℤ.negsuc 0;
          timeline_end = ℤ.negsuc 0;
        })
        (stable_sort (λ (a b : Segment). ltb_ℤ a.timeline_start b.timeline_start) (s ∷ ss))
  refuse_if (not (w.source_cursor ==ℤ source_end))
      (plain "delete_source_range 在当前主视觉中未完整覆盖请求的 source range")
  ok (w.timeline_start, w.timeline_end)

module _ {F : Type 0} ⦃fl : Floats F⦄ where
  open fl use {of_int, times, minus, abs, lt, le, nano}

  unfoldable pub exact_timeline_offset : ℤ → F → Option ℤ
  exact_timeline_offset offset rate =
      let rounded = unscale offset rate in
      let magnitude = abs (of_int offset) in
      let one = of_int (pos 1) in
      let tolerance = times nano (if lt one magnitude then magnitude else one) in
      if ltb_ℤ offset (pos 0) || le rate (of_int (pos 0)) || not (is_finite rate)
      then none
      else if lt tolerance (abs (minus (times (of_int rounded) rate) (of_int offset)))
      then none
      else some rounded

  -- A part of the source range that a clip plays, as timeline frames.
  map_segment : ℤ → ℤ → Clip F → Result Error Segment
  unfolding exact_timeline_offset
  map_segment start end c =
      elim (exact_timeline_offset (start -ℤ c.source_start_frame) (effective_rate c)) [
        | none ↦ inexact
        | some first ↦
            elim (exact_timeline_offset (end -ℤ c.source_start_frame) (effective_rate c)) [
              | none ↦ inexact
              | some last ↦
                  let timeline_start =
                    max_ℤ c.timeline_start_frame (c.timeline_start_frame +ℤ first) in
                  let timeline_end = min_ℤ c.timeline_end_frame (c.timeline_start_frame +ℤ last) in
                  refuse_if (leb_ℤ timeline_end timeline_start)
                    (plain "delete_source_range 映射后的时间线范围为空")
                  >> ok (record {
                    source_start = start;
                    source_end = end;
                    timeline_start = timeline_start;
                    timeline_end = timeline_end;
                  })
            ]
      ]
    where
      inexact : Result Error Segment
      inexact = err (plain "delete_source_range 的源边界无法按当前 playback_rate 精确映射到整数时间线帧")

  unfoldable pub segments : String → ℤ → ℤ → List (Clip F) → Result Error (List Segment)
  unfolding map_segment
  segments asset source_start source_end [] = ok []
  segments asset source_start source_end (c ∷ cs) =
      let start = max_ℤ source_start c.source_start_frame in
      let end = min_ℤ source_end c.source_end_frame in
      let rest = segments asset source_start source_end cs in
      if text_eq c.asset_id asset && ltb_ℤ start end
      then (do s ← map_segment start end c; ss ← rest; ok (s ∷ ss))
      else rest

  unfoldable pub delete_source_range : Document F → Heap F → Fields F → Outcome F
  unfolding segments mapped_range
  delete_source_range d heap operation = do
    let asset = trim_space (text_at "asset_id" operation)
    (source_start, source_end) ←
        both_frames (frame_value operation "source_start_frame")
          (frame_value operation "source_end_frame")
    refuse_if (text_eq asset "" || ltb_ℤ source_start (pos 0) || leb_ℤ source_end source_start)
        (plain "delete_source_range 素材或源范围无效")
    elim (track_by_id d "visual_base") [
      | none ↦ err (plain "delete_source_range 缺少主视觉轨")
      | some t ↦ do
        found ← segments asset source_start source_end t.clips
        (start, end) ← mapped_range source_start source_end found
        delete_frames start end d heap
    ]
