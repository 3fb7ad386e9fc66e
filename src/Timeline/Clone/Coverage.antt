-- ===== src/Timeline/Clone/Coverage.antt =====
-- The deep copy keeps every frame: go/internal/timeline/timeline.go (clone).
use rushes.Base.{
  ℤ, pos, List, [], ◌∷◌, ◌≡◌, refl, IfOk, IfOk-any, IfOk-bind, IfOk-of_eq, ◌≤◌, ok, subst, true,
  text_eq,
}
use rushes.Float.{Floats}
use rushes.Timeline.Types.{Clip, Track, Document, Heap}
use rushes.Timeline.Clone.{
  clone, clone_tracks, clone_clips, clone_clip, clone_ducking, clone_effects, clone_metadata,
  json_float,
}
use rushes.Timeline.Spans.{Covers}
use rushes.Timeline.Coverage.{
  primaries, TrackCovers, AllCover, IsCovered, LeavesCovered, SameFrames, retracked-IsCovered,
}

module _ {F : Type 0} ⦃fl : Floats F⦄ where
  clone_clip-SameFrames :
      (c : Clip F) (old heap : Heap F) → IfOk (λ r. SameFrames r.0 c) (clone_clip c old heap)
  unfolding clone_clip
  clone_clip-SameFrames c old heap = IfOk-any _ (json_float c.playback_rate) _ λ rate _.
      IfOk-any _ (json_float c.gain_db) _ λ gain _.
        IfOk-any _ (clone_effects c.effects) _
          λ effects _. IfOk-any _ (clone_metadata c.metadata old heap) _ λ m _. (refl, refl)

  clone_clips-Covers :
      (from to : ℤ) (cs : List (Clip F)) (old heap : Heap F)
      → Covers from cs to
      → IfOk (λ r. Covers from r.0 to) (clone_clips cs old heap)
  unfolding clone_clips
  clone_clips-Covers from to [] old heap p = p
  clone_clips-Covers from to (c ∷ cs) old heap (s, l, p) =
      IfOk-bind (λ r. SameFrames r.0 c) _ (clone_clip c old heap) _
        (clone_clip-SameFrames c old heap)
        λ r same.
          IfOk-bind (λ q. Covers c.timeline_end_frame q.0 to) _ (clone_clips cs old r.1) _
            (clone_clips-Covers c.timeline_end_frame to cs old r.1 p)
            λ q rest. (rw same.0 s, rw same.1 l, rw same.1 rest)

  clone_track-Covers :
      (n : ℤ) (t : Track F) (old heap : Heap F) (r : List (Clip F) × Heap F)
      → TrackCovers n t
      → clone_clips t.clips old heap ≡ ok r
      → text_eq t.track_id "visual_base" ≡ true
      → Covers (pos 0) r.0 n
  clone_track-Covers n t old heap r p e primary =
      subst (IfOk (λ r. Covers (pos 0) r.0 n)) e
        (clone_clips-Covers (pos 0) n t.clips old heap (p primary))

  clone_tracks-AllCover :
      (n : ℤ) (ts : List (Track F)) (old heap : Heap F)
      → AllCover n ts
      → IfOk (λ r. AllCover n r.0) (clone_tracks ts old heap)
  unfolding clone_tracks
  clone_tracks-AllCover n [] old heap h = tt
  clone_tracks-AllCover n (t ∷ ts) old heap (p, h) = IfOk-any _ (json_float t.gain_db) _ λ gain _.
      IfOk-any _ (clone_ducking t.ducking) _ λ ducking _.
        IfOk-any _ (clone_clips t.clips old heap) _ λ r e.
          IfOk-bind (λ q. AllCover n q.0) _ (clone_tracks ts old r.1) _
            (clone_tracks-AllCover n ts old r.1 h)
            λ q rest. (clone_track-Covers n t old heap r p e, rest)

  clone_tracks-primaries :
      (ts : List (Track F)) (old heap : Heap F)
      → IfOk (λ r. primaries r.0 ≡ primaries ts) (clone_tracks ts old heap)
  unfolding clone_tracks
  clone_tracks-primaries [] old heap = refl
  clone_tracks-primaries (t ∷ ts) old heap = IfOk-any _ (json_float t.gain_db) _ λ gain _.
      IfOk-any _ (clone_ducking t.ducking) _ λ ducking _.
        IfOk-any _ (clone_clips t.clips old heap) _ λ r e.
          IfOk-bind (λ q. primaries q.0 ≡ primaries ts) _ (clone_tracks ts old r.1) _
            (clone_tracks-primaries ts old r.1) λ q rest. rw rest refl

  pub clone-IsCovered :
      (d : Document F) (heap : Heap F) → IsCovered d → LeavesCovered (clone d heap)
  unfolding clone
  clone-IsCovered d heap h =
      IfOk-bind (λ r. AllCover d.duration_frames r.0) _ (clone_tracks d.tracks heap []) _
        (clone_tracks-AllCover d.duration_frames d.tracks heap [] h.covers)
        λ r h'. retracked-IsCovered d r.0 h h'

  -- What a handler may use of the copy.
  abbrev pub IsUsable : Document F → Type 0
  IsUsable d = IsCovered d × (primaries d.tracks ≤ 1)

  -- The copy of a usable document is usable.
  pub clone-IsUsable :
      (d : Document F) (heap : Heap F) → IsUsable d → IfOk (λ r. IsUsable r.0) (clone d heap)
  unfolding clone
  clone-IsUsable d heap (h, one) = IfOk-any _ (clone_tracks d.tracks heap []) _ λ r e.
      let covered =
        IfOk-of_eq (λ r. AllCover d.duration_frames r.0) _
          (clone_tracks-AllCover d.duration_frames d.tracks heap [] h.covers) e in
      let same =
        IfOk-of_eq (λ r. primaries r.0 ≡ primaries d.tracks) _
          (clone_tracks-primaries d.tracks heap []) e in
      (retracked-IsCovered d r.0 h covered, rw same one)
