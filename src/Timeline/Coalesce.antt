-- ===== src/Timeline/Coalesce.antt =====
-- Merging adjacent clips of the primary track: go/internal/timeline/coalesce.go.
pub mod Coverage
pub mod Approved
use rushes.Base.{
  ℕ, String, Bool, true, false, ℤ, pos, List, [], ◌∷◌, ◌++◌, Option, none, some, text_eq, length,
  leb, ltb_ℤ, ◌==ℤ◌, ◌==◌, ◌+ℤ◌, ◌-ℤ◌, if◌then◌else◌, ◌&&◌, ◌||◌, not, Result, ok, ◌>>=◌,
}
use rushes.Float.{Floats, scale}
use rushes.Value.{
  Any, null, str, bool, int, int64, float32, float64, strings, items, object, Items, no_items, item,
  Fields, no_fields, field, lookup, has, value_at,
}
use rushes.Timeline.Types.{Clip, Track, Document, Heap}
use rushes.Timeline.Errors.{Error}
use rushes.Timeline.Metadata.{sync_clip_placement_metadata, deref, is_anchor}
use rushes.Timeline.Lookup.{effective_rate, is_primary}
use rushes.Timeline.Clone.{clone}

pub record AdjacentClipMerge : Type 0 where
  pub track_id : String
  pub kept_timeline_clip_id : String
  pub removed_timeline_clip_id : String
  pub boundary_frame : ℤ
  pub asset_id : String
  pub mode : String
  pub shot_id : String
  pub source_overlap_frames : ℤ
  pub previous_source_end_frame : ℤ
  pub normalized_source_end_frame : ℤ

pub record AdjacentClipOverlapRepair : Type 0 where
  pub track_id : String
  pub kept_timeline_clip_id : String
  pub removed_timeline_clip_id : String
  pub normalized_source_end_frame : ℤ
  pub shot_id : String

-- What the loop over a track's clips leaves behind.
pub record Merging (F : Type 0) : Type 0 where
  pub clips : List (Clip F)
  pub merges : List AdjacentClipMerge
  pub heap : Heap F

texts_equal : List String → List String → Bool
texts_equal [] [] = true
texts_equal (a ∷ xs) (b ∷ ys) = text_eq a b && texts_equal xs ys
texts_equal _ _ = false

abbrev video_or_unset : String → Bool
video_or_unset kind = text_eq kind "" || text_eq kind "video"

module _ {F : Type 0} ⦃fl : Floats F⦄ where
  open fl use {eq, lt, minus, abs, micro}

  abbrev size : Fields F → ℕ
  size no_fields = 0
  size (field k v m) = ℕ.suc (size m)

  -- `reflect.DeepEqual`: maps are equal if they have as many keys and each key of one has an equal
  -- value in the other.
  unfoldable mutual
    unfolding texts_equal lookup value_at

    pub any_equal : Any F → Any F → Bool
    any_equal null null = true
    any_equal (str a) (str b) = text_eq a b
    any_equal (bool true) (bool b) = b
    any_equal (bool false) (bool b) = not b
    any_equal (int a) (int b) = a ==ℤ b
    any_equal (int64 a) (int64 b) = a ==ℤ b
    any_equal (float32 a) (float32 b) = eq a b
    any_equal (float64 a) (float64 b) = eq a b
    any_equal (strings a) (strings b) = texts_equal a b
    any_equal (items a) (items b) = items_equal a b
    any_equal (object a) (object b) = size a == size b && fields_in a b
    any_equal _ _ = false

    pub items_equal : Items F → Items F → Bool
    items_equal no_items no_items = true
    items_equal (item a xs) (item b ys) = any_equal a b && items_equal xs ys
    items_equal _ _ = false

    pub fields_in : Fields F → Fields F → Bool
    fields_in no_fields other = true
    fields_in (field k v m) other =
        has k other && any_equal v (value_at k other) && fields_in m other

  maps_equal : Fields F → Fields F → Bool
  unfolding any_equal
  maps_equal a b = any_equal (object a) (object b)

  effects_equal : List (Fields F) → List (Fields F) → Bool
  unfolding maps_equal
  effects_equal [] [] = true
  effects_equal (a ∷ xs) (b ∷ ys) = maps_equal a b && effects_equal xs ys
  effects_equal _ _ = false

  -- `cloneMetadataWithoutPlacement`.
  without_placement : Fields F → Fields F
  without_placement no_fields = no_fields
  without_placement (field k v m) =
      if text_eq k "placement_timeline_start_frame" || text_eq k "placement_timeline_end_frame"
      then without_placement m
      else field k v (without_placement m)

  -- A nil map is equal to nil only, and has no keys.
  same_metadata : Heap F → Option ℕ → Option ℕ → Bool
  unfolding maps_equal
  same_metadata heap none none = true
  same_metadata heap (some p) (some q) = maps_equal (deref heap p) (deref heap q)
  same_metadata heap _ _ = false

  read : Heap F → Option ℕ → Fields F
  read heap none = no_fields
  read heap (some p) = deref heap p

  equivalent_merge_metadata : Heap F → Option ℕ → Option ℕ → Bool
  unfolding same_metadata read without_placement maps_equal
  equivalent_merge_metadata heap left right =
      same_metadata heap left right
      || (is_anchor (read heap left)
          && is_anchor (read heap right)
          && maps_equal (without_placement (read heap left)) (without_placement (read heap right)))

  apart : F → F → Bool
  apart a b = lt micro (abs (minus a b))

  -- One source clip, unlinked, with the same looks: nothing changes at the boundary.
  unfoldable pub merge_compatible : Heap F → Clip F → Clip F → Bool
  unfolding apart effects_equal equivalent_merge_metadata
  merge_compatible heap left right =
      not (text_eq left.asset_id "")
      && text_eq left.asset_id right.asset_id
      && video_or_unset left.asset_kind
      && video_or_unset right.asset_kind
      && text_eq left.asset_kind right.asset_kind
      && text_eq left.role right.role
      && text_eq left.text right.text
      && text_eq left.subtitle_style right.subtitle_style
      && text_eq left.track_id right.track_id
      && text_eq left.track_id "visual_base"
      && not left.linked
      && not right.linked
      && text_eq left.parent_block_id ""
      && text_eq right.parent_block_id ""
      && left.timeline_end_frame ==ℤ right.timeline_start_frame
      && left.fade_out_frames ==ℤ pos 0
      && right.fade_in_frames ==ℤ pos 0
      && not (apart left.gain_db right.gain_db)
      && not (apart (effective_rate left) (effective_rate right))
      && effects_equal left.effects right.effects
      && equivalent_merge_metadata heap left.metadata right.metadata

  abbrev timeline_length : Clip F → ℤ
  timeline_length c = c.timeline_end_frame -ℤ c.timeline_start_frame

  abbrev source_length : Clip F → ℤ
  source_length c = c.source_end_frame -ℤ c.source_start_frame

  unfoldable pub render_equivalent : Heap F → Clip F → Clip F → Bool
  render_equivalent heap left right =
      let rate = effective_rate left in
      merge_compatible heap left right
      && left.source_end_frame ==ℤ right.source_start_frame
      && ltb_ℤ (pos 0) (timeline_length left)
      && ltb_ℤ (pos 0) (timeline_length right)
      && source_length left ==ℤ scale (timeline_length left) rate
      && source_length right ==ℤ scale (timeline_length right) rate
      && (right.source_end_frame -ℤ left.source_start_frame)
        ==ℤ scale (timeline_length left +ℤ timeline_length right) rate

  -- The kept clip after a merge.
  abbrev pub merged : Clip F → Clip F → ℤ → Clip F
  merged left right source_end = record left {
    timeline_end_frame = right.timeline_end_frame;
    source_end_frame = source_end;
    fade_out_frames = right.fade_out_frames;
  }

  abbrev plain_merge : String → Clip F → Clip F → AdjacentClipMerge
  plain_merge track left right = record {
    track_id = track;
    kept_timeline_clip_id = left.timeline_clip_id;
    removed_timeline_clip_id = right.timeline_clip_id;
    boundary_frame = left.timeline_end_frame;
    asset_id = left.asset_id;
    mode = "render_equivalent";
    shot_id = "";
    source_overlap_frames = pos 0;
    previous_source_end_frame = pos 0;
    normalized_source_end_frame = pos 0;
  }

  -- The loop with the last kept clip `left` at hand.
  unfoldable pub coalesce_from : String → Heap F → Clip F → List (Clip F) → Merging F
  unfolding render_equivalent
  coalesce_from track heap left [] = record { clips = left ∷ []; merges = []; heap = heap }
  coalesce_from track heap left (c ∷ cs) =
      let kept = merged left c c.source_end_frame in
      let joined = coalesce_from track (sync_clip_placement_metadata kept heap) kept cs in
      let separate = coalesce_from track heap c cs in
      if render_equivalent heap left c
      then record joined { merges = plain_merge track left c ∷ joined.merges }
      else record separate { clips = left ∷ separate.clips }

  coalesce_clips : String → Heap F → List (Clip F) → Merging F
  unfolding coalesce_from
  coalesce_clips track heap [] = record { clips = []; merges = []; heap = heap }
  coalesce_clips track heap (c ∷ cs) = coalesce_from track heap c cs

  -- An unlocked primary track with two clips or more.
  abbrev pub is_mergeable : Track F → Bool
  is_mergeable t = is_primary t && not t.locked && not (leb (length t.clips) 1)

  coalesce_tracks : Heap F → List (Track F) → List (Track F) × List AdjacentClipMerge × Heap F
  unfolding coalesce_clips
  coalesce_tracks heap [] = ([], [], heap)
  coalesce_tracks heap (t ∷ ts) =
      let m : Merging F =
        if is_mergeable t
        then coalesce_clips t.track_id heap t.clips
        else record { clips = t.clips; merges = []; heap = heap } in
      let (tracks, merges, heap') = coalesce_tracks m.heap ts in
      (record t { clips = m.clips } ∷ tracks, m.merges ++ merges, heap')

  unfoldable pub coalesce_redundant_adjacent_clips :
      Document F → Heap F → Result Error (Document F × List AdjacentClipMerge × Heap F)
  unfolding coalesce_tracks
  coalesce_redundant_adjacent_clips d heap = do
    (copy, heap₁) ← clone d heap
    let (tracks, merges, heap₂) = coalesce_tracks heap₁ copy.tracks
    ok (record copy { tracks = tracks }, merges, heap₂)

  unfoldable pub can_coalesce_overlapping : Heap F → Clip F → Clip F → Bool
  can_coalesce_overlapping heap left right =
      merge_compatible heap left right
      && ltb_ℤ right.source_start_frame left.source_end_frame
      && ltb_ℤ left.source_end_frame right.source_end_frame
