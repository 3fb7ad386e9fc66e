-- ===== src/Timeline/Trim.antt =====
-- Trimming, playback rate and deletion of a clip with its linked group:
-- go/internal/timeline/timeline.go (trimClip, setPlaybackRate) and editing.go (trimClipEdge,
-- deleteClip).
pub mod Coverage
pub mod Tracks
use rushes.Base.{
  Bool, ℤ, pos, List, [], ◌∷◌, text_eq, member, length, leb, leb_ℤ, ltb_ℤ, ◌==ℤ◌, ◌+ℤ◌, ◌-ℤ◌, max_ℤ,
  if◌then◌else◌, ◌&&◌, ◌||◌, not, Result, ok, ◌>>=◌, ◌>>◌, refuse_if, keep_if, map,
}
use rushes.Float.{Floats, unscale}
use rushes.Value.{Fields, frame_value, text_at, value_at, number_value}
use rushes.Timeline.Types.{Clip, Track, Document, Heap}
use rushes.Timeline.Errors.{
  Error, plain, clip_frame_range_error, track_locked_error, lift, both_frames,
}
use rushes.Timeline.Metadata.{sync_clip_placement_metadata}
use rushes.Timeline.Lookup.{
  Outcome, ClipLocation, editable_location, track_at, clip_at, update_members, refuse_locked,
  has_primary, members_of, effective_rate, is_primary,
}
use rushes.Timeline.Ripple.{
  source_frames, shift_after, ensure_shift_after_unlocked, ensure_ripple_unlocked, delete_frames,
}
use rushes.Timeline.Split.{not_inside}

module _ {F : Type 0} ⦃fl : Floats F⦄ where
  open fl use {lt, le, of_int}

  -- `syncClipPlacementMetadata` at each member, once all of them have their new frames.
  abbrev sync_members : List (Track F) → List ClipLocation → Heap F → Heap F
  sync_members tracks [] heap = heap
  sync_members tracks (l ∷ ls) heap =
      sync_members tracks ls (sync_clip_placement_metadata (clip_at tracks l) heap)

  abbrev clip_length : Clip F → ℤ
  clip_length c = c.timeline_end_frame -ℤ c.timeline_start_frame

  -- The common part of `trimClip` and `setPlaybackRate`: give every member its new values, and move
  -- what follows if the primary track takes part and the length changes.
  unfoldable pub resize : Document F → Heap F → ClipLocation → (Clip F → Clip F) → ℤ → Outcome F
  resize d heap l edit new_length = do
    let selected = clip_at d.tracks l
    let members = members_of d l
    let ripples = has_primary d.tracks members && not (new_length ==ℤ clip_length selected)
    let boundary = selected.timeline_start_frame +ℤ clip_length selected
    refuse_locked d.tracks members
    if ripples then ensure_shift_after_unlocked d boundary else ok tt
    let tracks = update_members edit members d.tracks
    let heap' = sync_members tracks members heap
    let d' : Document F = record d { tracks = tracks }
    if ripples
        then ok (shift_after boundary (new_length -ℤ clip_length selected) d' heap')
        else ok (d', heap')

  abbrev pub trimmed : ℤ → ℤ → ℤ → Clip F → Clip F
  trimmed start end new_length c = record c {
    source_start_frame = start;
    source_end_frame = end;
    timeline_end_frame = c.timeline_start_frame +ℤ new_length;
  }

  unfoldable pub trim_clip : Document F → Heap F → Fields F → Outcome F
  unfolding resize
  trim_clip d heap operation = do
    l ← editable_location d operation
    (start, end) ←
        both_frames (frame_value operation "source_start_frame")
          (frame_value operation "source_end_frame")
    refuse_if (ltb_ℤ start (pos 0) || leb_ℤ end start) (plain "trim_clip 源范围无效")
    let new_length = max_ℤ (pos 1) (unscale (end -ℤ start) (effective_rate (clip_at d.tracks l)))
    resize d heap l (trimmed start end new_length) new_length

  abbrev pub replayed : F → ℤ → Clip F → Clip F
  replayed rate new_length c = record c {
    playback_rate = rate;
    timeline_end_frame = c.timeline_start_frame +ℤ new_length;
  }

  unfoldable pub set_playback_rate : Document F → Heap F → Fields F → Outcome F
  unfolding resize
  set_playback_rate d heap operation = do
    l ← editable_location d operation
    let rate = number_value (value_at "playback_rate" operation)
    refuse_if (le rate (of_int (pos 0)) || lt (of_int (pos 8)) rate)
        (plain "playback_rate 必须在 (0,8]")
    let selected = clip_at d.tracks l
    let new_length =
        max_ℤ (pos 1) (unscale (selected.source_end_frame -ℤ selected.source_start_frame) rate)
    resize d heap l (replayed rate new_length) new_length

  -- The body of the last loop of `trimClipEdge`.
  unfoldable pub cut_edge : Bool → ℤ → Clip F → Clip F
  cut_edge at_start frame c =
      let sourced = not (text_eq c.asset_id "") in
      if not_inside frame c
      then c
      else if at_start
      then record c {
        timeline_start_frame = frame;
        source_start_frame =
            if sourced
            then c.source_start_frame +ℤ source_frames (frame -ℤ c.timeline_start_frame) c
            else c.source_start_frame;
      }
      else record c {
        timeline_end_frame = frame;
        source_end_frame =
            if sourced
            then c.source_end_frame -ℤ source_frames (c.timeline_end_frame -ℤ frame) c
            else c.source_end_frame;
      }

  unfoldable pub trim_clip_edge : Document F → Heap F → Fields F → Outcome F
  unfolding cut_edge
  trim_clip_edge d heap operation = do
    l ← editable_location d operation
    frame ← lift (frame_value operation "timeline_frame")
    let edge = text_at "edge" operation
    refuse_if (not (member edge ("start" ∷ "end" ∷ [])))
        (plain "trim_clip_edge edge 必须是 start 或 end")
    let selected = clip_at d.tracks l
    refuse_if (not_inside frame selected) (clip_frame_range_error selected frame "裁剪点必须位于片段内部")
    let members = members_of d l
    let start = if text_eq edge "end" then frame else selected.timeline_start_frame
    let end = if text_eq edge "end" then selected.timeline_end_frame else frame
    refuse_locked d.tracks members
    if has_primary d.tracks members
        then (ensure_ripple_unlocked d start "" >> delete_frames start end d heap)
        else ok (
          record d {
            tracks = update_members (cut_edge (text_eq edge "start") frame) members d.tracks;
          },
          heap,
        )

  -- The loop of `deleteClip` over the members: none is locked, and the primary track keeps a clip.
  refuse_last : List (Track F) → List ClipLocation → Result Error (Unit {0})
  refuse_last tracks [] = ok tt
  refuse_last tracks (l ∷ ls) = do
    refuse_if (track_at tracks l).locked (track_locked_error (track_at tracks l).track_id)
    refuse_if (is_primary (track_at tracks l) && leb (length (track_at tracks l).clips) 1)
        (plain "主视觉轨至少保留一个片段")
    refuse_last tracks ls

  unfoldable pub is_deleted : Clip F → Clip F → Bool
  is_deleted selected c =
      text_eq c.timeline_clip_id selected.timeline_clip_id
      || (not (text_eq selected.parent_block_id "")
          && selected.linked
          && c.linked
          && text_eq c.parent_block_id selected.parent_block_id)

  unfoldable pub delete_clip : Document F → Heap F → Fields F → Outcome F
  unfolding refuse_last is_deleted
  delete_clip d heap operation = do
    l ← editable_location d operation
    let selected = clip_at d.tracks l
    let members = members_of d l
    refuse_last d.tracks members
    if has_primary d.tracks members
        then (ensure_ripple_unlocked d selected.timeline_start_frame ""
            >> delete_frames selected.timeline_start_frame selected.timeline_end_frame d heap)
        else ok (
          record d {
            tracks =
                map
                  (λ (t : Track F). record t {
                    clips = keep_if (λ c. not (is_deleted selected c)) t.clips;
                  })
                  d.tracks;
          },
          heap,
        )
