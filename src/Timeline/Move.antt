-- ===== src/Timeline/Move.antt =====
-- Moving a clip in time or to another track, and linking clips: go/internal/timeline/editing.go
-- (moveClip, setClipLinked, linkCandidate).
pub mod Coverage
pub mod Tracks
use rushes.Base.{
  ℕ, String, Bool, true, false, ℤ, pos, List, [], ◌∷◌, Option, none, some, text_eq, member, length,
  leb, ◌==◌, leb_ℤ, ltb_ℤ, ◌==ℤ◌, ◌+ℤ◌, ◌-ℤ◌, max_ℤ, if◌then◌else◌, ◌&&◌, not, modify, erase_idx,
  find?, keep_if, ok, err, ◌>>=◌, ◌>>◌, refuse_if, ◌<>◌, suc,
}
use rushes.Float.{Floats}
use rushes.Value.{Fields, frame_value, text_at, value_at, value_or, bool_value}
use rushes.Timeline.Types.{Clip, Track, Document, Heap}
use rushes.Timeline.Errors.{plain, track_locked_error, lift}
use rushes.Timeline.Metadata.{sync_clip_placement_metadata, shift_clip_timeline_metadata}
use rushes.Timeline.Lookup.{
  Outcome, ClipLocation, track_by_id, update_first, editable_location, track_at, clip_at,
  update_clip, update_members, linked_group, refuse_locked, is_primary, tracks_compatible,
  clamp_int,
}
use rushes.Timeline.Ripple.{delete_frames, ensure_ripple_unlocked}
use rushes.Timeline.Reorder.{reorder_to, has_group}
use rushes.Timeline.Place.{
  insert_into_primary, overwrite_primary, shift_track_for_insert, erase_track_range, with_clip,
  placed_at,
}

-- What the handler has read from the operation.
pub record Move : Type 0 where
  pub target_frame : ℤ
  -- `mode == "insert"`; the other mode is overwrite.
  pub inserts : Bool
  pub target_track_id : String

same_location : ClipLocation → ClipLocation → Bool
same_location a b = a.track_index == b.track_index && a.clip_index == b.clip_index

first_named : String → String → String → String
first_named a b c = if text_eq a "" then (if text_eq b "" then c else b) else a

module _ {F : Type 0} ⦃fl : Floats F⦄ where
  abbrev pub unlinked : Clip F → Clip F
  unlinked c = record c { linked = false; parent_block_id = "" }

  -- A free track: make room or erase, then place the clip.
  unfoldable pub place_on_free :
      Move → String → ℤ → ℤ → Clip F → Document F → Heap F → Track F → Outcome F
  place_on_free m source_track_id source_start duration moving d heap t = do
    refuse_if (ltb_ℤ d.duration_frames duration) (plain "片段长于移动后的时间线，不能放入叠加轨")
    let frame = clamp_int m.target_frame (pos 0) (max_ℤ (pos 0) (d.duration_frames -ℤ duration))
    let (clips, heap₁) =
        if m.inserts
        then shift_track_for_insert frame duration d.duration_frames t.clips heap
        else erase_track_range frame (frame +ℤ duration) t.clips heap
    let placed : Clip F = record (placed_at frame duration moving) { track_id = m.target_track_id }
    let heap₂ =
        sync_clip_placement_metadata placed
          (shift_clip_timeline_metadata (frame -ℤ source_start) moving heap₁)
    let final = if text_eq source_track_id m.target_track_id then placed else unlinked placed
    ok (
      record d {
        tracks =
            update_first m.target_track_id (λ t. with_clip final (record t { clips = clips }))
              d.tracks;
      },
      heap₂,
    )

  -- The clip has left its track, and the primary track has closed the gap.
  place_moved : Move → String → Clip F → ℤ → Document F → Heap F → Outcome F
  unfolding place_on_free
  place_moved m source_track_id moving duration d heap =
      let arriving : Clip F = record (unlinked moving) { track_id = m.target_track_id } in
      if text_eq m.target_track_id "visual_base"
      then (if m.inserts
          then insert_into_primary d heap arriving m.target_frame
          else overwrite_primary d heap arriving m.target_frame)
      else elim (track_by_id d m.target_track_id) [
        | none ↦ err (plain ("目标轨道不存在: " <> m.target_track_id))
        | some t ↦
            place_on_free m source_track_id moving.timeline_start_frame duration moving d heap t
      ]

  -- From the point where no reordering of the primary track can do.
  relocate : Move → ClipLocation → Document F → Heap F → Outcome F
  unfolding place_moved
  relocate m l d heap = do
    let source = track_at d.tracks l
    let moving = clip_at d.tracks l
    let duration = moving.timeline_end_frame -ℤ moving.timeline_start_frame
    let start = moving.timeline_start_frame
    let end = moving.timeline_end_frame
    refuse_if (leb_ℤ duration (pos 0)) (plain "移动片段时长无效")
    let left : Document F = record d {
      tracks =
          modify l.track_index
            (λ (t : Track F). record t { clips = erase_idx t.clips l.clip_index }) d.tracks;
    }
    if is_primary source
        then (do
          refuse_if (leb (length source.clips) 1) (plain "主视觉轨至少保留一个片段")
          ensure_ripple_unlocked left start source.track_id
          (d', heap') ← delete_frames start end left heap
          let target =
              if ltb_ℤ end m.target_frame then m.target_frame -ℤ duration else m.target_frame
          place_moved (record m { target_frame = target }) source.track_id moving duration d' heap')
        else place_moved m source.track_id moving duration left heap

  -- The primary member of the moving clip's group, if it has one.
  primary_member : List (Track F) → List ClipLocation → Option ClipLocation
  primary_member tracks = find? λ l. is_primary (track_at tracks l)

  move_checked : Move → ClipLocation → Document F → Heap F → Outcome F
  unfolding relocate primary_member
  move_checked m l d heap = do
    let source = track_at d.tracks l
    let moving = clip_at d.tracks l
    let stays = text_eq m.target_track_id source.track_id
    let lead =
        if has_group moving
        then primary_member d.tracks (linked_group d moving.parent_block_id)
        else none
    elim lead [
      | some p ↦
          refuse_if (not stays) (plain "跨轨移动前请先取消音画联动")
          >> reorder_to d heap (clip_at d.tracks p).timeline_clip_id m.target_frame
      | none ↦ do
        refuse_if (has_group moving && not stays) (plain "跨轨移动前请先取消片段联动")
        if is_primary source && text_eq m.target_track_id "visual_base"
            then reorder_to d heap moving.timeline_clip_id m.target_frame
            else relocate m l d heap
    ]

  unfoldable pub move_clip : Document F → Heap F → Fields F → Outcome F
  unfolding move_checked
  move_clip d heap operation = do
    l ← editable_location d operation
    target_frame ← lift (frame_value operation "target_frame")
    let mode = value_or (text_at "mode" operation) "insert"
    refuse_if (not (member mode ("insert" ∷ "overwrite" ∷ [])))
        (plain "move_clip mode 必须是 insert 或 overwrite")
    let source = track_at d.tracks l
    let target_id = value_or (text_at "target_track_id" operation) source.track_id
    elim (track_by_id d target_id) [
      | none ↦ err (plain ("目标轨道不存在: " <> target_id))
      | some target ↦ do
        refuse_if target.locked (track_locked_error target_id)
        refuse_if (not (tracks_compatible source target (clip_at d.tracks l)))
            (plain ("片段不能从 " <> source.track_id <> " 移到 " <> target.track_id))
        move_checked
            (record {
              target_frame = target_frame;
              inserts = text_eq mode "insert";
              target_track_id = target_id;
            })
            l d heap
    ]

  -- The same stretch of the same asset at the same time.
  unfoldable pub is_counterpart : Clip F → Clip F → Bool
  is_counterpart c other =
      text_eq other.asset_id c.asset_id
      && other.timeline_start_frame ==ℤ c.timeline_start_frame
      && other.timeline_end_frame ==ℤ c.timeline_end_frame
      && other.source_start_frame ==ℤ c.source_start_frame
      && other.source_end_frame ==ℤ c.source_end_frame

  position_of : (Clip F → Bool) → ℕ → List (Clip F) → Option ℕ
  position_of p j [] = none
  position_of p j (c ∷ cs) = if p c then some j else position_of p (suc j) cs

  candidate_in : String → (Clip F → Bool) → ℕ → List (Track F) → Option ClipLocation
  unfolding position_of
  candidate_in wanted p i [] = none
  candidate_in wanted p i (t ∷ ts) =
      let rest = candidate_in wanted p (suc i) ts in
      if text_eq t.track_id wanted
      then elim (position_of p 0 t.clips) [
        | some j ↦ some (record { track_index = i; clip_index = j })
        | none ↦ rest
      ]
      else rest

  unfoldable pub link_candidate : Document F → ClipLocation → Option ClipLocation
  unfolding candidate_in is_counterpart
  link_candidate d l =
      let id = (track_at d.tracks l).track_id in
      let search =
        λ (wanted : String). candidate_in wanted (is_counterpart (clip_at d.tracks l)) 0 d.tracks in
      if text_eq id "visual_base"
      then search "original_audio"
      else if text_eq id "original_audio"
      then search "visual_base"
      else none

  -- `linked = false`: the clip leaves its group, and so does the one that would stay alone.
  unlink : Document F → Heap F → ClipLocation → Outcome F
  unfolding same_location
  unlink d heap l = do
    let selected = clip_at d.tracks l
    let group = selected.parent_block_id
    let members = linked_group d group
    let others = if length members == 2 then keep_if (λ m. not (same_location m l)) members else []
    refuse_locked d.tracks others
    let d' : Document F = record d { tracks = update_clip l unlinked d.tracks }
    let left = linked_group d' group
    ok (
      record d' {
        tracks = if length left == 1 then update_members unlinked left d'.tracks else d'.tracks;
      },
      heap,
    )

  link_with : Document F → Heap F → ClipLocation → ClipLocation → Outcome F
  unfolding first_named
  link_with d heap l partner = do
    let selected = clip_at d.tracks l
    refuse_if (track_at d.tracks partner).locked
        (track_locked_error (track_at d.tracks partner).track_id)
    let group =
        first_named selected.parent_block_id (clip_at d.tracks partner).parent_block_id
          ("link_" <> selected.timeline_clip_id)
    let joined_to : Clip F → Clip F =
        λ (c : Clip F). record c { linked = true; parent_block_id = group }
    ok (record d { tracks = update_members joined_to (l ∷ partner ∷ []) d.tracks }, heap)

  -- The two branches of `setClipLinked`, by the value of `linked`.
  set_linked : Bool → ClipLocation → Document F → Heap F → Outcome F
  unfolding unlink link_with
  set_linked false l d heap =
      if (clip_at d.tracks l).linked
      then unlink d heap l
      else ok (
        record d {
          tracks = update_clip l (λ (c : Clip F). record c { parent_block_id = "" }) d.tracks;
        },
        heap,
      )
  set_linked true l d heap =
      let selected = clip_at d.tracks l in
      if has_group selected && not (leb (length (linked_group d selected.parent_block_id)) 1)
      then ok (d, heap)
      else elim (link_candidate d l) [
        | none ↦ err (plain "没有可与该片段联动的同源音画片段")
        | some partner ↦ link_with d heap l partner
      ]

  unfoldable pub set_clip_linked : Document F → Heap F → Fields F → Outcome F
  unfolding set_linked
  set_clip_linked d heap operation = do
    l ← editable_location d operation
    elim (bool_value (value_at "linked" operation)) [
      | none ↦ err (plain "set_clip_linked 缺少 linked 布尔值")
      | some linked ↦ set_linked linked l d heap
    ]
