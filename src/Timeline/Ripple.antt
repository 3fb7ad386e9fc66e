-- ===== src/Timeline/Ripple.antt =====
-- Ripple edits, which move every track at once: go/internal/timeline/timeline.go (deleteRange,
-- splitClipAroundDeletedRange, shiftAfter, ensureShiftAfterUnlocked) and editing.go
-- (ensureRippleUnlocked). Each loop over the clips is two functions here: what it leaves in place of
-- a clip, and what it writes into the clip's metadata.
pub mod Coverage
pub mod Tracks
pub mod Locks
use rushes.Base.{
  String, Bool, ℤ, pos, List, [], ◌∷◌, ◌++◌, map, Option, none, some, text_eq, any, find?, ltb_ℤ,
  leb_ℤ, ◌==ℤ◌, ◌+ℤ◌, ◌-ℤ◌, neg, if◌then◌else◌, ◌&&◌, ◌||◌, not, Result, ok, err, ◌>>=◌, ◌>>◌,
  refuse_if, itoa, ◌<>◌,
}
use rushes.Float.{Floats, scale}
use rushes.Value.{Fields, frame_value}
use rushes.Timeline.Types.{Clip, Track, Document, Heap}
use rushes.Timeline.Errors.{
  Error, semantic, no_facts, track_locked, timeline_range_out_of_bounds, both_frames,
}
use rushes.Timeline.Metadata.{sync_clip_placement_metadata, shift_clip_timeline_metadata}
use rushes.Timeline.Lookup.{Outcome, effective_rate, sort_track}

module _ {F : Type 0} where
  -- A loop that leaves the clips `f c` in place of each clip `c`.
  abbrev pub replace_clips : (Clip F → List (Clip F)) → List (Clip F) → List (Clip F)
  replace_clips f [] = []
  replace_clips f (c ∷ cs) = f c ++ replace_clips f cs

  abbrev pub replace_in_tracks : (Clip F → List (Clip F)) → List (Track F) → List (Track F)
  replace_in_tracks f [] = []
  replace_in_tracks f (t ∷ ts) =
      record t { clips = replace_clips f t.clips } ∷ replace_in_tracks f ts

  -- The metadata writes of a loop over the clips.
  abbrev pub write_clips : (Clip F → Heap F → Heap F) → List (Clip F) → Heap F → Heap F
  write_clips f [] heap = heap
  write_clips f (c ∷ cs) heap = write_clips f cs (f c heap)

  abbrev pub write_tracks : (Clip F → Heap F → Heap F) → List (Track F) → Heap F → Heap F
  write_tracks f [] heap = heap
  write_tracks f (t ∷ ts) heap = write_tracks f ts (write_clips f t.clips heap)

  abbrev pub moved : ℤ → Clip F → Clip F
  moved delta c = record c {
    timeline_start_frame = c.timeline_start_frame +ℤ delta;
    timeline_end_frame = c.timeline_end_frame +ℤ delta;
  }

  abbrev pub starts_from : ℤ → Clip F → Bool
  starts_from boundary c = leb_ℤ boundary c.timeline_start_frame

  ripple_error : Track F → Error
  ripple_error t = semantic (record (no_facts track_locked) {
    track_id = t.track_id;
    message = "轨道 " <> t.track_id <> " 已锁定，不能执行波纹编辑";
  })

  refuse_track : Option (Track F) → Result Error (Unit {0})
  refuse_track none = ok tt
  refuse_track (some t) = err (ripple_error t)

  -- Refused if a locked track has a clip that starts at the boundary or later.
  unfoldable pub ensure_shift_after_unlocked : Document F → ℤ → Result Error (Unit {0})
  unfolding refuse_track ripple_error
  ensure_shift_after_unlocked d boundary =
      refuse_track
        (find? (λ (t : Track F). t.locked && any (starts_from boundary) t.clips) d.tracks)

  -- Refused if a locked track, other than the excepted one, has a clip that ends past the boundary.
  unfoldable pub ensure_ripple_unlocked : Document F → ℤ → String → Result Error (Unit {0})
  unfolding refuse_track ripple_error
  ensure_ripple_unlocked d boundary except = refuse_track (
      find?
        (λ (t : Track F).
          t.locked
          && not (text_eq t.track_id except)
          && any (λ (c : Clip F). ltb_ℤ boundary c.timeline_end_frame) t.clips)
        d.tracks)

-- How a clip lies to the deleted range, in the order of the tests.
pub data Overlap : Type 0 where
  before after around tail_cut head_cut inside : Overlap

-- `fmt.Sprintf("%s_after_%d", id, end)`.
unfoldable pub after_id : String → ℤ → String
after_id id end = id <> "_after_" <> itoa end

module _ {F : Type 0} ⦃fl : Floats F⦄ where
  -- The loop that moves every clip from a boundary on.
  unfoldable pub shift_tracks : ℤ → ℤ → List (Track F) → List (Track F)
  shift_tracks boundary delta =
      replace_in_tracks λ c. (if starts_from boundary c then moved delta c else c) ∷ []

  unfoldable pub shift_metadata : ℤ → ℤ → List (Track F) → Heap F → Heap F
  shift_metadata boundary delta =
      write_tracks
        λ c heap. if starts_from boundary c then shift_clip_timeline_metadata delta c heap else heap

  unfoldable pub shift_after : ℤ → ℤ → Document F → Heap F → Document F × Heap F
  unfolding shift_tracks shift_metadata
  shift_after boundary delta d heap = if delta ==ℤ pos 0 then (d, heap) else (
    record d {
      duration_frames = d.duration_frames +ℤ delta;
      tracks = shift_tracks boundary delta d.tracks;
    },
    shift_metadata boundary delta d.tracks heap,
  )

  -- `int(math.Round(float64(frames) * effectiveRate(clip)))`.
  abbrev pub source_frames : ℤ → Clip F → ℤ
  source_frames frames c = scale frames (effective_rate c)

  unfoldable pub overlap : ℤ → ℤ → Clip F → Overlap
  overlap start end c =
      if leb_ℤ c.timeline_end_frame start
      then before
      else if leb_ℤ end c.timeline_start_frame
      then after
      else if ltb_ℤ c.timeline_start_frame start && ltb_ℤ end c.timeline_end_frame
      then around
      else if ltb_ℤ c.timeline_start_frame start
      then tail_cut
      else if ltb_ℤ end c.timeline_end_frame
      then head_cut
      else inside

  has_asset : Clip F → Bool
  has_asset c = not (text_eq c.asset_id "")

  -- The two halves of `splitClipAroundDeletedRange`.
  unfoldable pub left_of_deleted : ℤ → Clip F → Clip F
  unfolding has_asset
  left_of_deleted start c = record c {
    timeline_end_frame = start;
    source_end_frame =
        if has_asset c
        then c.source_start_frame +ℤ source_frames (start -ℤ c.timeline_start_frame) c
        else c.source_end_frame;
  }

  unfoldable pub right_of_deleted : ℤ → ℤ → Clip F → Clip F
  unfolding has_asset after_id
  right_of_deleted start end c = record c {
    timeline_clip_id = after_id c.timeline_clip_id end;
    timeline_start_frame = start;
    timeline_end_frame = c.timeline_end_frame -ℤ (end -ℤ start);
    source_start_frame =
        if has_asset c
        then c.source_start_frame +ℤ source_frames (end -ℤ c.timeline_start_frame) c
        else c.source_start_frame;
    parent_block_id = if text_eq c.parent_block_id "" then "" else after_id c.parent_block_id end;
  }

  -- The clip whose head lies in the range, moved to the range's start.
  unfoldable pub without_head : ℤ → ℤ → Clip F → Clip F
  unfolding has_asset
  without_head start end c = record c {
    timeline_start_frame = start;
    timeline_end_frame = c.timeline_end_frame -ℤ (end -ℤ start);
    source_start_frame =
        if has_asset c
        then c.source_start_frame +ℤ source_frames (end -ℤ c.timeline_start_frame) c
        else c.source_start_frame;
  }

  unfoldable pub delete_from_clip : ℤ → ℤ → Clip F → List (Clip F)
  unfolding overlap left_of_deleted right_of_deleted without_head
  delete_from_clip start end c = elim (overlap start end c) [
    | before ↦ c ∷ []
    | after ↦ moved (neg (end -ℤ start)) c ∷ []
    | around ↦ left_of_deleted start c ∷ right_of_deleted start end c ∷ []
    | tail_cut ↦ left_of_deleted start c ∷ []
    | head_cut ↦ without_head start end c ∷ []
    | inside ↦ []
  ]

  unfoldable pub delete_metadata : ℤ → ℤ → Clip F → Heap F → Heap F
  unfolding overlap left_of_deleted right_of_deleted without_head
  delete_metadata start end c heap = elim (overlap start end c) [
    | before ↦ heap
    | after ↦ shift_clip_timeline_metadata (neg (end -ℤ start)) c heap
    | around ↦ sync_clip_placement_metadata (right_of_deleted start end c) (
        shift_clip_timeline_metadata (neg (end -ℤ start)) c
          (sync_clip_placement_metadata (left_of_deleted start c) heap))
    | tail_cut ↦ sync_clip_placement_metadata (left_of_deleted start c) heap
    | head_cut ↦ sync_clip_placement_metadata (without_head start end c) heap
    | inside ↦ heap
  ]

  range_error : Document F → ℤ → ℤ → Error
  range_error d start end = semantic (record (no_facts timeline_range_out_of_bounds) {
    provided_start_frame = start;
    provided_end_frame = end;
    duration_frames = d.duration_frames;
  })

  unfoldable pub bad_range : Document F → ℤ → ℤ → Bool
  bad_range d start end =
      ltb_ℤ start (pos 0)
      || leb_ℤ end start
      || ltb_ℤ d.duration_frames end
      || ltb_ℤ d.duration_frames (end -ℤ start)

  -- The document after `deleteRange`, once the range and the locks have passed.
  unfoldable pub without_range : ℤ → ℤ → Document F → Document F
  unfolding delete_from_clip
  without_range start end d = record d {
    duration_frames = d.duration_frames -ℤ (end -ℤ start);
    tracks = map sort_track (replace_in_tracks (delete_from_clip start end) d.tracks);
  }

  unfoldable pub delete_frames : ℤ → ℤ → Document F → Heap F → Outcome F
  unfolding range_error without_range delete_metadata bad_range
  delete_frames start end d heap = do
    refuse_if (bad_range d start end) (range_error d start end)
    ensure_ripple_unlocked d start ""
    ok (without_range start end d, write_tracks (delete_metadata start end) d.tracks heap)

  unfoldable pub delete_range : Document F → Heap F → Fields F → Outcome F
  unfolding delete_frames
  delete_range d heap operation = do
    (start, end) ←
        both_frames (frame_value operation "start_frame") (frame_value operation "end_frame")
    delete_frames start end d heap
