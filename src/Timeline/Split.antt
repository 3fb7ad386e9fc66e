-- ===== src/Timeline/Split.antt =====
-- Cutting a clip, with its linked group, at a timeline frame: go/internal/timeline/timeline.go
-- (splitClip, splitClipValue) and editing.go (splitDocumentPrimaryAt).
pub mod Coverage
pub mod Tracks
pub mod Sharing
use rushes.Base.{
  String, Bool, ℤ, pos, List, [], ◌∷◌, ◌++◌, none, some, text_eq, leb_ℤ, ltb_ℤ, ◌==ℤ◌, ◌+ℤ◌, ◌-ℤ◌,
  if◌then◌else◌, ◌&&◌, ◌||◌, not, Result, ok, err, ◌>>=◌, ◌>>◌, refuse_if, itoa, ◌<>◌,
}
use rushes.Float.{Floats}
use rushes.Value.{Fields, frame_value, text_at, value_or}
use rushes.Timeline.Types.{Clip, Track, Document, Heap}
use rushes.Timeline.Errors.{Error, plain, clip_frame_range_error, track_locked_error, lift}
use rushes.Timeline.Metadata.{sync_clip_placement_metadata}
use rushes.Timeline.Lookup.{
  Outcome, ClipLocation, editable_location, editable, linked_group, track_at, clip_at, track_by_id,
}
use rushes.Timeline.Ripple.{source_frames, write_tracks}

-- `fmt.Sprintf("%s_split_%d", id, frame)`.
abbrev pub split_id : String → ℤ → String
split_id id frame = id <> "_split_" <> itoa frame

-- What one call cuts: the selected clip and, where it is linked, its group. `new_id` is the ID that
-- the caller asks for, for the right half of the selected clip.
pub record Cut : Type 0 where
  pub selected_id : String
  pub frame : ℤ
  pub group_id : String
  pub right_group_id : String
  pub new_id : String

-- What the loop of `splitDocumentPrimaryAt` finds: nothing to cut, or the clip to cut.
pub data Cutting : Type 0 where
  at_boundary : Cutting
  inside_clip : String → Cutting

module _ {F : Type 0} ⦃fl : Floats F⦄ where
  abbrev pub not_inside : ℤ → Clip F → Bool
  not_inside frame c = leb_ℤ frame c.timeline_start_frame || leb_ℤ c.timeline_end_frame frame

  unfoldable pub source_split : ℤ → Clip F → ℤ
  source_split frame c = c.source_start_frame +ℤ source_frames (frame -ℤ c.timeline_start_frame) c

  unfoldable pub left_half : ℤ → String → Clip F → Clip F
  unfolding source_split
  left_half frame group c = record c {
    timeline_end_frame = frame;
    source_end_frame = source_split frame c;
    fade_out_frames = pos 0;
    parent_block_id = if c.linked then group else c.parent_block_id;
  }

  unfoldable pub right_half : ℤ → String → Clip F → Clip F
  unfolding source_split
  right_half frame group c = record c {
    timeline_clip_id = split_id c.timeline_clip_id frame;
    timeline_start_frame = frame;
    source_start_frame = source_split frame c;
    fade_in_frames = pos 0;
    parent_block_id = if c.linked then group else c.parent_block_id;
  }

  unfoldable pub split_clip_value : Clip F → ℤ → String → String → Result Error (Clip F × Clip F)
  unfolding left_half right_half source_split
  split_clip_value c frame left_group right_group = do
    refuse_if (text_eq c.asset_id "") (plain "split_clip 切点必须位于可分割素材片段内部")
    refuse_if (not_inside frame c) (clip_frame_range_error c frame "split_clip 切点必须位于可分割素材片段内部")
    refuse_if
        (leb_ℤ (source_split frame c) c.source_start_frame
          || leb_ℤ c.source_end_frame (source_split frame c))
        (clip_frame_range_error c frame "split_clip 源切点无效")
    ok (left_half frame left_group c, right_half frame right_group c)

  unfoldable pub should_split : Cut → Clip F → Bool
  should_split k c =
      text_eq c.timeline_clip_id k.selected_id
      || (not (text_eq k.group_id "") && c.linked && text_eq c.parent_block_id k.group_id)

  named : Cut → Clip F → Clip F → Clip F
  named k c right =
      if text_eq c.timeline_clip_id k.selected_id
      then record right { timeline_clip_id = value_or k.new_id right.timeline_clip_id }
      else right

  unfoldable pub cut_pieces : Cut → Clip F → Result Error (List (Clip F))
  unfolding named should_split split_clip_value
  cut_pieces k c =
      if should_split k c
      then (do
        (left, right) ← split_clip_value c k.frame k.group_id k.right_group_id
        ok (left ∷ named k c right ∷ []))
      else ok (c ∷ [])

  unfoldable pub cut_clips : Cut → List (Clip F) → Result Error (List (Clip F))
  unfolding cut_pieces
  cut_clips k [] = ok []
  cut_clips k (c ∷ cs) = do pieces ← cut_pieces k c; rest ← cut_clips k cs; ok (pieces ++ rest)

  unfoldable pub cut_tracks : Cut → List (Track F) → Result Error (List (Track F))
  unfolding cut_clips
  cut_tracks k [] = ok []
  cut_tracks k (t ∷ ts) = do
    clips ← cut_clips k t.clips
    rest ← cut_tracks k ts
    ok (record t { clips = clips } ∷ rest)

  -- `splitClipValue` copies the clip, and with it the reference to its metadata: both halves write
  -- into one map, the left one first.
  unfoldable pub cut_metadata : Cut → Clip F → Heap F → Heap F
  unfolding should_split left_half right_half
  cut_metadata k c heap =
      if should_split k c
      then sync_clip_placement_metadata (right_half k.frame k.right_group_id c)
          (sync_clip_placement_metadata (left_half k.frame k.group_id c) heap)
      else heap

  refuse_members : List (Track F) → ℤ → List ClipLocation → Result Error (Unit {0})
  refuse_members tracks frame [] = ok tt
  refuse_members tracks frame (l ∷ ls) = do
    refuse_if (track_at tracks l).locked (track_locked_error (track_at tracks l).track_id)
    refuse_if (not_inside frame (clip_at tracks l))
        (clip_frame_range_error (clip_at tracks l) frame "联动片段未覆盖同一个切点")
    refuse_members tracks frame ls

  unfoldable pub cut_at : Clip F → ℤ → String → Cut
  cut_at selected frame new_id =
      let group = if selected.linked then selected.parent_block_id else "" in
      record {
        selected_id = selected.timeline_clip_id;
        frame = frame;
        group_id = group;
        right_group_id = if text_eq group "" then "" else split_id group frame;
        new_id = new_id;
      }

  -- `splitClip` from the located clip on.
  unfoldable pub split_located : Document F → Heap F → ClipLocation → ℤ → String → Outcome F
  unfolding cut_at refuse_members cut_tracks cut_metadata
  split_located d heap l frame new_id = do
    let k = cut_at (clip_at d.tracks l) frame new_id
    refuse_members d.tracks frame (linked_group d k.group_id)
    tracks ← cut_tracks k d.tracks
    ok (record d { tracks = tracks }, write_tracks (cut_metadata k) d.tracks heap)

  unfoldable pub split_clip : Document F → Heap F → Fields F → Outcome F
  unfolding split_located
  split_clip d heap operation = do
    l ← editable_location d operation
    frame ← lift (frame_value operation "split_frame")
    split_located d heap l frame (text_at "new_timeline_clip_id" operation)

  cutting : ℤ → List (Clip F) → Cutting
  cutting frame [] = at_boundary
  cutting frame (c ∷ cs) =
      if frame ==ℤ c.timeline_start_frame || frame ==ℤ c.timeline_end_frame
      then at_boundary
      else if ltb_ℤ frame c.timeline_start_frame || ltb_ℤ c.timeline_end_frame frame
      then cutting frame cs
      else inside_clip c.timeline_clip_id

  -- `splitClip` with an operation that holds the clip's ID and the frame only.
  cut_found : Document F → Heap F → ℤ → Cutting → Outcome F
  unfolding split_located
  cut_found d heap frame at_boundary = ok (d, heap)
  cut_found d heap frame (inside_clip id) = do l ← editable d id; split_located d heap l frame ""

  unfoldable pub split_document_primary_at : Document F → Heap F → ℤ → Outcome F
  unfolding cut_found cutting
  split_document_primary_at d heap frame =
      if leb_ℤ frame (pos 0) then ok (d, heap) else elim (track_by_id d "visual_base") [
        | none ↦ err (plain "主视觉轨不存在")
        | some t ↦ cut_found d heap frame (cutting frame t.clips)
      ]
