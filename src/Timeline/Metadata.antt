-- ===== src/Timeline/Metadata.antt =====
-- The two functions of go/internal/timeline/editing.go that keep the semantic anchor of a clip's
-- metadata in step with its frames. They write through the clip's map, so they return the heap.
pub mod Placement
use rushes.Base.{
  ℕ, String, Bool, ℤ, List, [], ◌∷◌, Option, none, some, get_or, modify, text_eq, if◌then◌else◌,
  ◌+ℤ◌, pos, ◌==ℤ◌,
}
use rushes.Float.{Floats}
use rushes.Value.{int, Fields, no_fields, insert, text_at, value_at, numeric_value}
use rushes.Timeline.Types.{Clip, Heap}

abbrev pub semantic_timeline_metadata_keys : List String
semantic_timeline_metadata_keys =
    "anchor_timeline_start_frame" ∷ "anchor_timeline_end_frame" ∷ "placement_timeline_start_frame"
    ∷ "placement_timeline_end_frame" ∷ []

module _ {F : Type 0} where
  -- The map that a reference points to.
  abbrev pub deref : Heap F → ℕ → Fields F
  deref heap p = get_or heap p no_fields

  unfoldable pub is_anchor : Fields F → Bool
  is_anchor m = text_eq (text_at "kind" m) "b_roll_semantic_anchor"

  -- What `syncClipPlacementMetadata` writes into a map.
  unfoldable pub place : ℤ → ℤ → Fields F → Fields F
  unfolding is_anchor
  place start end m =
      if is_anchor m
      then insert "placement_timeline_end_frame" (int end)
          (insert "placement_timeline_start_frame" (int start) m)
      else m

  write : Option ℕ → (Fields F → Fields F) → Heap F → Heap F
  write none f heap = heap
  write (some p) f heap = modify p f heap

  unfoldable pub sync_clip_placement_metadata : Clip F → Heap F → Heap F
  unfolding write
  sync_clip_placement_metadata c heap =
      write c.metadata (place c.timeline_start_frame c.timeline_end_frame) heap

module _ {F : Type 0} ⦃fl : Floats F⦄ where
  open fl use {to_int, is_whole}

  -- The body of the loop over the keys.
  shift_key : ℤ → String → Fields F → Fields F
  shift_key delta key m = elim (numeric_value (value_at key m)) [
    | none ↦ m
    | some x ↦ if is_whole x then insert key (int (to_int x +ℤ delta)) m else m
  ]

  shift_keys : ℤ → List String → Fields F → Fields F
  unfolding shift_key
  shift_keys delta [] m = m
  shift_keys delta (key ∷ keys) m = shift_keys delta keys (shift_key delta key m)

  shift_map : ℤ → Fields F → Fields F
  unfolding shift_keys is_anchor
  shift_map delta m = if is_anchor m then shift_keys delta semantic_timeline_metadata_keys m else m

  unfoldable pub shift_clip_timeline_metadata : ℤ → Clip F → Heap F → Heap F
  unfolding write shift_map
  shift_clip_timeline_metadata delta c heap =
      if delta ==ℤ pos 0 then heap else write c.metadata (shift_map delta) heap
