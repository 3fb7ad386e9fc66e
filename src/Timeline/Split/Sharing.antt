-- ===== src/Timeline/Split/Sharing.antt =====
-- The metadata of the two halves of a cut clip: go/internal/timeline/timeline.go (splitClipValue).
use rushes.Base.{ℕ, ◌<◌, true, some, ◌≡◌, refl, length}
use rushes.Float.{Floats}
use rushes.Value.{int, lookup}
use rushes.Timeline.Types.{Clip, Heap}
use rushes.Timeline.Metadata.{deref, is_anchor, sync_clip_placement_metadata}
use rushes.Timeline.Metadata.Placement.{
  start_key, end_key, place-start, place-end, place-is_anchor, deref-sync, sync-length,
}
use rushes.Timeline.Split.{Cut, should_split, left_half, right_half, cut_metadata}

module _ {F : Type 0} ⦃fl : Floats F⦄ where
  -- When a clip with a semantic anchor is cut, both halves refer to the clip's own map, and that map
  -- ends up with the frames of the right half: for the left half, which ends at the cut, it says that
  -- the placement starts at the cut and ends at the end of the old clip.
  pub cut_metadata-right_half :
      (k : Cut) (c : Clip F) (heap : Heap F) (p : ℕ)
      → should_split k c ≡ true
      → c.metadata ≡ some p
      → p < length heap
      → is_anchor (deref heap p) ≡ true
      → let left = left_half k.frame k.group_id c in
        let m = deref (cut_metadata k c heap) p in
        (left.metadata ≡ some p)
        × (left.timeline_end_frame ≡ k.frame)
        × (lookup start_key m ≡ some (int k.frame))
        × (lookup end_key m ≡ some (int c.timeline_end_frame))
  unfolding cut_metadata left_half right_half
  cut_metadata-right_half k c heap p s e l anchor =
      let left = left_half k.frame k.group_id c in
      let right = right_half k.frame k.right_group_id c in
      let heap₁ = sync_clip_placement_metadata left heap in
      let first = deref-sync left heap p e l in
      let anchor₁ : is_anchor (deref heap₁ p) ≡ true =
        rw first (place-is_anchor _ _ (deref heap p) anchor) in
      let second = deref-sync right heap₁ p e (rw (sync-length left heap) l) in
      (
        e,
        refl,
        rw (s, second) (place-start k.frame c.timeline_end_frame (deref heap₁ p) anchor₁),
        rw (s, second) (place-end k.frame c.timeline_end_frame (deref heap₁ p) anchor₁),
      )
