-- ===== src/Timeline/Coalesce/Approved.antt =====
-- Repairs of short overlaps that the caller has approved: go/internal/timeline/coalesce.go
-- (CoalesceApprovedOverlappingAdjacentClips).
pub mod Coverage
use rushes.Base.{
  String, Bool, ℤ, pos, List, [], ◌∷◌, ◌++◌, Option, none, some, text_eq, any, find?, length, ◌==◌,
  ◌==ℤ◌, leb_ℤ, ◌+ℤ◌, ◌-ℤ◌, ◌&&◌, ◌||◌, not, if◌then◌else◌, itoa, ◌<>◌, Result, ok, err, ◌>>=◌,
  ◌>>◌, refuse_if,
}
use rushes.Float.{Floats, scale}
use rushes.Timeline.Types.{Clip, Track, Document, Heap}
use rushes.Timeline.Errors.{Error, plain}
use rushes.Timeline.Metadata.{sync_clip_placement_metadata}
use rushes.Timeline.Lookup.{effective_rate}
use rushes.Timeline.Clone.{clone}
use rushes.Timeline.Coalesce.{
  AdjacentClipMerge, AdjacentClipOverlapRepair, can_coalesce_overlapping, merged, is_mergeable,
}

-- The loop over a track's clips, or over the tracks: `applied` are the keys that it has used.
pub record Repairing (A F : Type 0) : Type 0 where
  pub result : A
  pub merges : List AdjacentClipMerge
  pub applied : List (String × String)
  pub heap : Heap F

abbrev repair_key : AdjacentClipOverlapRepair → String × String
repair_key r = (r.kept_timeline_clip_id, r.removed_timeline_clip_id)

abbrev same_key : String × String → String × String → Bool
same_key a b = text_eq a.0 b.0 && text_eq a.1 b.1

-- The keys of a Go map: a key that is there already is not added.
abbrev note_key : String × String → List (String × String) → List (String × String)
note_key k ks = if any (same_key k) ks then ks else k ∷ ks

key_text : String × String → String
key_text k = k.0 <> " -> " <> k.1

check_repairs : List (String × String) → List AdjacentClipOverlapRepair → Result Error (Unit {0})
unfolding key_text
check_repairs seen [] = ok tt
check_repairs seen (r ∷ rs) = do
  let k = repair_key r
  refuse_if (text_eq k.0 "" || text_eq k.1 "" || text_eq k.0 k.1) (plain "相邻重叠修复包含无效 clip ID")
  refuse_if (any (same_key k) seen) (plain ("相邻重叠修复重复: " <> key_text k))
  check_repairs (k ∷ seen) rs

module _ {F : Type 0} ⦃fl : Floats F⦄ where
  repair_for : List AdjacentClipOverlapRepair → Clip F → Clip F → Option AdjacentClipOverlapRepair
  repair_for requested left c =
      find? (λ r. same_key (repair_key r) (left.timeline_clip_id, c.timeline_clip_id)) requested

  abbrev expected_source_end : Clip F → Clip F → ℤ
  expected_source_end left c =
      left.source_start_frame
      +ℤ scale (c.timeline_end_frame -ℤ left.timeline_start_frame) (effective_rate left)

  overlap_merge : String → AdjacentClipOverlapRepair → Clip F → Clip F → AdjacentClipMerge
  overlap_merge track r left c = record {
    track_id = track;
    kept_timeline_clip_id = left.timeline_clip_id;
    removed_timeline_clip_id = c.timeline_clip_id;
    boundary_frame = left.timeline_end_frame;
    asset_id = left.asset_id;
    mode = "same_shot_overlap_repair";
    shot_id = r.shot_id;
    source_overlap_frames = left.source_end_frame -ℤ c.source_start_frame;
    previous_source_end_frame = c.source_end_frame;
    normalized_source_end_frame = r.normalized_source_end_frame;
  }

  refuse_repair :
      String → AdjacentClipOverlapRepair → Heap F → Clip F → Clip F → Result Error (Unit {0})
  unfolding key_text
  refuse_repair track r heap left c = do
    refuse_if (not (text_eq r.track_id track) || not (can_coalesce_overlapping heap left c))
        (plain ("相邻重叠修复不满足连续参数约束: " <> key_text (repair_key r)))
    refuse_if
        (not (r.normalized_source_end_frame ==ℤ expected_source_end left c)
          || leb_ℤ r.normalized_source_end_frame c.source_end_frame)
        (plain (
          "相邻重叠修复源帧终点无效: want="
          <> itoa (expected_source_end left c)
          <> " got="
          <> itoa r.normalized_source_end_frame))

  -- The loop with the last kept clip `left` at hand.
  repair_from :
      String
      → List AdjacentClipOverlapRepair
      → List (String × String)
      → Heap F
      → Clip F
      → List (Clip F)
      → Result Error (Repairing (List (Clip F)) F)
  unfolding repair_for refuse_repair overlap_merge
  repair_from track requested applied heap left [] =
      ok (record { result = left ∷ []; merges = []; applied = applied; heap = heap })
  repair_from track requested applied heap left (c ∷ cs) = elim (repair_for requested left c) [
    | none ↦ repair_from track requested applied heap c cs >>= λ rest.
        ok (record rest { result = left ∷ rest.result })
    | some r ↦
        refuse_repair track r heap left c
        >> (let kept = merged left c r.normalized_source_end_frame in
            repair_from track requested (note_key (repair_key r) applied)
              (sync_clip_placement_metadata kept heap) kept cs
            >>= λ rest. ok (record rest { merges = overlap_merge track r left c ∷ rest.merges }))
  ]

  repair_clips :
      String
      → List AdjacentClipOverlapRepair
      → List (String × String)
      → Heap F
      → List (Clip F)
      → Result Error (Repairing (List (Clip F)) F)
  unfolding repair_from
  repair_clips track requested applied heap [] =
      ok (record { result = []; merges = []; applied = applied; heap = heap })
  repair_clips track requested applied heap (c ∷ cs) = repair_from track requested applied heap c cs

  repair_track :
      List AdjacentClipOverlapRepair
      → List (String × String)
      → Heap F
      → Track F
      → Result Error (Repairing (List (Clip F)) F)
  unfolding repair_clips
  repair_track requested applied heap t =
      if is_mergeable t
      then repair_clips t.track_id requested applied heap t.clips
      else ok (record { result = t.clips; merges = []; applied = applied; heap = heap })

  repair_tracks :
      List AdjacentClipOverlapRepair
      → List (String × String)
      → Heap F
      → List (Track F)
      → Result Error (Repairing (List (Track F)) F)
  unfolding repair_track
  repair_tracks requested applied heap [] =
      ok (record { result = []; merges = []; applied = applied; heap = heap })
  repair_tracks requested applied heap (t ∷ ts) = do
    m ← repair_track requested applied heap t
    rest ← repair_tracks requested m.applied m.heap ts
    ok (record {
      result = record t { clips = m.result } ∷ rest.result;
      merges = m.merges ++ rest.merges;
      applied = rest.applied;
      heap = rest.heap;
    })

  -- With no repairs the loops change nothing, which is the early return of the code.
  unfoldable pub coalesce_approved_overlapping_adjacent_clips :
      Document F
      → Heap F
      → List AdjacentClipOverlapRepair
      → Result Error (Document F × List AdjacentClipMerge × Heap F)
  unfolding repair_tracks check_repairs
  coalesce_approved_overlapping_adjacent_clips d heap requested = do
    (copy, heap') ← clone d heap
    check_repairs [] requested
    m ← repair_tracks requested [] heap' copy.tracks
    refuse_if (not (length m.applied == length requested)) (
        plain (
          "相邻重叠修复未完全应用: requested="
          <> itoa (pos (length requested))
          <> " applied="
          <> itoa (pos (length m.applied))))
    ok (record copy { tracks = m.result }, m.merges, m.heap)
