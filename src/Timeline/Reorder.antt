-- ===== src/Timeline/Reorder.antt =====
-- Reordering the primary track: go/internal/timeline/timeline.go (reorderClip, syncLinkedTiming).
pub mod Coverage
pub mod Tracks
use rushes.Base.{
  String, Bool, ℤ, pos, List, [], ◌∷◌, map, Option, none, some, text_eq, ltb_ℤ, ◌+ℤ◌, ◌-ℤ◌, half,
  if◌then◌else◌, ◌&&◌, ◌||◌, not, stable_sort, Result, ok, err, ◌>>=◌, ◌>>◌, refuse_if,
}
use rushes.Float.{Floats}
use rushes.Value.{Fields, frame_value, text_at}
use rushes.Timeline.Types.{Clip, Track, Document, Heap}
use rushes.Timeline.Errors.{
  Error, plain, semantic, no_facts, frame_out_of_range, clip_not_found_error, track_locked_error,
  lift,
}
use rushes.Timeline.Lookup.{
  Outcome, ClipLocation, track_by_id, update_first, linked_group, track_at, is_primary, sort_track,
}

module _ {F : Type 0} where
  abbrev pub has_group : Clip F → Bool
  has_group c = c.linked && not (text_eq c.parent_block_id "")

  abbrev pub by_start : List (Clip F) → List (Clip F)
  by_start clips = stable_sort (λ a b. ltb_ℤ a.timeline_start_frame b.timeline_start_frame) clips

  -- The first clip with the ID, and the others in order.
  unfoldable pub take_out : String → List (Clip F) → Option (Clip F × List (Clip F))
  take_out id [] = none
  take_out id (c ∷ cs) =
      let rest = take_out id cs in
      if text_eq c.timeline_clip_id id
      then some (c, cs)
      else elim rest [ none ↦ none | some (m, others) ↦ some (m, c ∷ others) ]

  abbrev pub midpoint : Clip F → ℤ
  midpoint c = c.timeline_start_frame +ℤ half (c.timeline_end_frame -ℤ c.timeline_start_frame)

  -- Before the first clip whose midpoint lies past the target, or at the end.
  unfoldable pub put_in : ℤ → Clip F → List (Clip F) → List (Clip F)
  put_in target moving [] = moving ∷ []
  put_in target moving (c ∷ cs) =
      if ltb_ℤ target (midpoint c) then moving ∷ c ∷ cs else c ∷ put_in target moving cs

  -- One clip after another from the cursor on, each with its length.
  unfoldable pub lay_out : ℤ → List (Clip F) → List (Clip F)
  lay_out cursor [] = []
  lay_out cursor (c ∷ cs) =
      let end = cursor +ℤ (c.timeline_end_frame -ℤ c.timeline_start_frame) in
      record c { timeline_start_frame = cursor; timeline_end_frame = end } ∷ lay_out end cs

  -- A clip of another track takes the frames of the primary clip that leads its group.
  follow : Clip F → Clip F → Clip F
  follow primary c =
      if c.linked && text_eq c.parent_block_id primary.parent_block_id
      then record c {
        timeline_start_frame = primary.timeline_start_frame;
        timeline_end_frame = primary.timeline_end_frame;
      }
      else c

  unfoldable pub sync_linked_timing : Clip F → List (Track F) → List (Track F)
  unfolding follow
  sync_linked_timing primary tracks =
      if has_group primary
      then map
          (λ (t : Track F).
            if is_primary t then t else record t { clips = map (follow primary) t.clips })
          tracks
      else tracks

  sync_all : List (Clip F) → List (Track F) → List (Track F)
  unfolding sync_linked_timing
  sync_all [] tracks = tracks
  sync_all (c ∷ cs) tracks = sync_all cs (sync_linked_timing c tracks)

  target_error : Document F → String → ℤ → Error
  target_error d id target = semantic (record (no_facts frame_out_of_range) {
    clip_id = id;
    provided_frame = target;
    timeline_end_frame = d.duration_frames;
    message = "reorder_clip target_frame 必须位于当前时间线范围内";
  })

  -- The document once the new order of the primary clips is known.
  unfoldable pub reordered : Document F → List (Clip F) → Document F
  unfolding sync_all lay_out
  reordered d order =
      let clips = lay_out (pos 0) order in
      let tracks =
        sync_all clips (update_first "visual_base" (λ t. record t { clips = clips }) d.tracks) in
      record d { tracks = map (λ t. if is_primary t then t else sort_track t) tracks }

module _ {F : Type 0} ⦃fl : Floats F⦄ where
  locked_member : List (Track F) → ClipLocation → Bool
  locked_member tracks l = not (is_primary (track_at tracks l)) && (track_at tracks l).locked

  -- The loop over the members of one group.
  refuse_group : List (Track F) → List ClipLocation → Result Error (Unit {0})
  unfolding locked_member
  refuse_group tracks [] = ok tt
  refuse_group tracks (l ∷ ls) =
      if locked_member tracks l
      then err (track_locked_error (track_at tracks l).track_id)
      else refuse_group tracks ls

  refuse_groups : Document F → List (Clip F) → Result Error (Unit {0})
  unfolding refuse_group
  refuse_groups d [] = ok tt
  refuse_groups d (c ∷ cs) =
      (if has_group c then refuse_group d.tracks (linked_group d c.parent_block_id) else ok tt)
      >> refuse_groups d cs

  reorder_track : Document F → Heap F → String → ℤ → Track F → Outcome F
  unfolding refuse_groups reordered take_out put_in
  reorder_track d heap id target t = do
    refuse_if t.locked (track_locked_error t.track_id)
    refuse_groups d t.clips
    elim (take_out id (by_start t.clips)) [
      | none ↦ err (clip_not_found_error id)
      | some (moving, others) ↦ ok (reordered d (put_in target moving others), heap)
    ]

  -- `reorderClip` at an ID and a target frame.
  unfoldable pub reorder_to : Document F → Heap F → String → ℤ → Outcome F
  unfolding reorder_track target_error
  reorder_to d heap id target = do
    refuse_if (text_eq id "") (plain "reorder_clip 缺少 timeline_clip_id")
    refuse_if (ltb_ℤ target (pos 0) || ltb_ℤ d.duration_frames target) (target_error d id target)
    elim (track_by_id d "visual_base") [
      | none ↦ err (plain "reorder_clip 缺少主视觉轨")
      | some t ↦ reorder_track d heap id target t
    ]

  unfoldable pub reorder_clip : Document F → Heap F → Fields F → Outcome F
  unfolding reorder_to
  reorder_clip d heap operation = do
    let id = text_at "timeline_clip_id" operation
    refuse_if (text_eq id "") (plain "reorder_clip 缺少 timeline_clip_id")
    target ← lift (frame_value operation "target_frame")
    reorder_to d heap id target
