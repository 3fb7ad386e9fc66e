-- ===== src/Timeline/Coalesce/Coverage.antt =====
-- Merging and the primary track: go/internal/timeline/coalesce.go (CoalesceRedundantAdjacentClips).
use rushes.Base.{String, ℕ, ◌+◌, List, [], ◌∷◌, ◌≡◌, refl, length}
use rushes.Float.{Floats}
use rushes.Timeline.Types.{Clip, Track, Heap}
use rushes.Timeline.Coalesce.{coalesce_clips}
use rushes.Timeline.Spans.Merge.{coalesce_from-count}

module _ {F : Type 0} ⦃fl : Floats F⦄ where
  -- How many clips the tracks hold.
  abbrev pub clip_count : List (Track F) → ℕ
  clip_count [] = 0
  clip_count (t ∷ ts) = length t.clips + clip_count ts

  coalesce_clips-count :
      (track : String) (heap : Heap F) (cs : List (Clip F))
      → let m = coalesce_clips track heap cs in length m.clips + length m.merges ≡ length cs
  unfolding coalesce_clips
  coalesce_clips-count track heap [] = refl
  coalesce_clips-count track heap (c ∷ cs) = coalesce_from-count track heap c cs
