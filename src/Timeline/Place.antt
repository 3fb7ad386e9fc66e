-- ===== src/Timeline/Place.antt =====
-- Making room on a track and placing a clip there: go/internal/timeline/editing.go
-- (insertIntoPrimary, overwritePrimary, eraseTrackRange, shiftTrackForInsert).
pub mod Erase
pub mod Room
use rushes.Base.{
  Bool, ℤ, pos, List, [], ◌∷◌, ◌++◌, none, some, text_eq, leb_ℤ, ltb_ℤ, ◌+ℤ◌, ◌-ℤ◌, if◌then◌else◌,
  ◌||◌, not, Result, ok, err, ◌>>=◌, ◌>>◌, refuse_if,
}
use rushes.Float.{Floats}
use rushes.Timeline.Types.{Clip, Track, Document, Heap}
use rushes.Timeline.Errors.{Error, plain, track_locked_error}
use rushes.Timeline.Metadata.{sync_clip_placement_metadata, shift_clip_timeline_metadata}
use rushes.Timeline.Lookup.{Outcome, track_by_id, update_first, sort_track, clamp_int}
use rushes.Timeline.Ripple.{
  source_frames, replace_clips, write_clips, shift_tracks, shift_metadata, ensure_ripple_unlocked,
  moved, starts_from, after_id,
}
use rushes.Timeline.Split.{split_document_primary_at}

module _ {F : Type 0} ⦃fl : Floats F⦄ where
  abbrev sourced : Clip F → Bool
  sourced c = not (text_eq c.asset_id "")

  -- What is left of a clip before an erased range, and after it.
  unfoldable pub kept_left : ℤ → Clip F → Clip F
  kept_left start c = record c {
    timeline_end_frame = start;
    source_end_frame =
        if sourced c
        then c.source_end_frame -ℤ source_frames (c.timeline_end_frame -ℤ start) c
        else c.source_end_frame;
  }

  unfoldable pub kept_right : ℤ → Clip F → Clip F
  kept_right end c = record c {
    timeline_clip_id = after_id c.timeline_clip_id end;
    timeline_start_frame = end;
    source_start_frame =
        if sourced c
        then c.source_start_frame +ℤ source_frames (end -ℤ c.timeline_start_frame) c
        else c.source_start_frame;
  }

  abbrev apart : ℤ → ℤ → Clip F → Bool
  apart start end c = leb_ℤ c.timeline_end_frame start || leb_ℤ end c.timeline_start_frame

  unfoldable pub erase_from_clip : ℤ → ℤ → Clip F → List (Clip F)
  unfolding kept_left kept_right
  erase_from_clip start end c =
      if apart start end c
      then c ∷ []
      else (if ltb_ℤ c.timeline_start_frame start then kept_left start c ∷ [] else [])
        ++ (if ltb_ℤ end c.timeline_end_frame then kept_right end c ∷ [] else [])

  erase_metadata : ℤ → ℤ → Clip F → Heap F → Heap F
  unfolding kept_left kept_right
  erase_metadata start end c heap =
      let left =
        if ltb_ℤ c.timeline_start_frame start
        then sync_clip_placement_metadata (kept_left start c) heap
        else heap in
      if apart start end c
      then heap
      else if ltb_ℤ end c.timeline_end_frame
      then sync_clip_placement_metadata (kept_right end c) left
      else left

  unfoldable pub erase_track_range : ℤ → ℤ → List (Clip F) → Heap F → List (Clip F) × Heap F
  unfolding erase_from_clip erase_metadata
  erase_track_range start end clips heap = (
    replace_clips (erase_from_clip start end) clips,
    write_clips (erase_metadata start end) clips heap,
  )

  -- A clip from the frame on moves to make room; what then lies past the timeline's end is cut off.
  unfoldable pub make_way : ℤ → ℤ → Clip F → Clip F
  make_way frame duration c = if starts_from frame c then moved duration c else c

  overflowing : ℤ → Clip F → Bool
  overflowing limit c = ltb_ℤ limit c.timeline_end_frame

  cut_overflow : ℤ → Clip F → Clip F
  unfolding overflowing
  cut_overflow limit c =
      if overflowing limit c
      then record c {
        timeline_end_frame = limit;
        source_end_frame =
            if sourced c
            then c.source_end_frame -ℤ source_frames (c.timeline_end_frame -ℤ limit) c
            else c.source_end_frame;
      }
      else c

  unfoldable pub make_room : ℤ → ℤ → ℤ → Clip F → List (Clip F)
  unfolding make_way cut_overflow
  make_room frame duration limit c =
      let c' = make_way frame duration c in
      if starts_from limit c' then [] else cut_overflow limit c' ∷ []

  make_room_metadata : ℤ → ℤ → ℤ → Clip F → Heap F → Heap F
  unfolding make_way cut_overflow
  make_room_metadata frame duration limit c heap =
      let c' = make_way frame duration c in
      let shifted =
        if starts_from frame c then shift_clip_timeline_metadata duration c heap else heap in
      if starts_from limit c'
      then shifted
      else if overflowing limit c'
      then sync_clip_placement_metadata (cut_overflow limit c') shifted
      else shifted

  unfoldable pub shift_track_for_insert :
      ℤ → ℤ → ℤ → List (Clip F) → Heap F → List (Clip F) × Heap F
  unfolding make_room make_room_metadata
  shift_track_for_insert frame duration limit clips heap = (
    replace_clips (make_room frame duration limit) clips,
    write_clips (make_room_metadata frame duration limit) clips heap,
  )

  abbrev pub placed_at : ℤ → ℤ → Clip F → Clip F
  placed_at frame duration c = record c {
    timeline_start_frame = frame;
    timeline_end_frame = frame +ℤ duration;
  }

  -- `track.Clips = append(track.Clips, clip); sortTrack(track)`.
  abbrev pub with_clip : Clip F → Track F → Track F
  with_clip c t = sort_track (record t { clips = t.clips ++ (c ∷ []) })

  primary_track : Document F → Result Error (Track F)
  primary_track d = elim (track_by_id d "visual_base") [
    | none ↦ err (plain "主视觉轨不存在")
    | some t ↦ if t.locked then err (track_locked_error t.track_id) else ok t
  ]

  -- The document once the primary track is cut at the frame.
  unfoldable pub opened : Clip F → ℤ → ℤ → Document F → Document F
  opened moving frame duration d = record d {
    duration_frames = d.duration_frames +ℤ duration;
    tracks =
        update_first "visual_base" (with_clip (placed_at frame duration moving))
          (shift_tracks frame duration d.tracks);
  }

  unfoldable pub insert_into_primary : Document F → Heap F → Clip F → ℤ → Outcome F
  unfolding primary_track opened
  insert_into_primary d heap moving target = do
    _ ← primary_track d
    let frame = clamp_int target (pos 0) d.duration_frames
    let duration = moving.timeline_end_frame -ℤ moving.timeline_start_frame
    ensure_ripple_unlocked d frame "visual_base"
    (d', heap') ← split_document_primary_at d heap frame
    ok (opened moving frame duration d', shift_metadata frame duration d'.tracks heap')

  unfoldable pub overwrite_primary : Document F → Heap F → Clip F → ℤ → Outcome F
  unfolding primary_track erase_track_range
  overwrite_primary d heap moving target = do
    t ← primary_track d
    let duration = moving.timeline_end_frame -ℤ moving.timeline_start_frame
    refuse_if (ltb_ℤ d.duration_frames duration) (plain "覆盖片段长于当前时间线")
    let frame = clamp_int target (pos 0) (d.duration_frames -ℤ duration)
    let (clips, heap') = erase_track_range frame (frame +ℤ duration) t.clips heap
    ok (
      record d {
        tracks =
            update_first "visual_base"
              (λ t. with_clip (placed_at frame duration moving) (record t { clips = clips }))
              d.tracks;
      },
      heap',
    )
