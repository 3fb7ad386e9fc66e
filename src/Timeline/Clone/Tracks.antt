-- ===== src/Timeline/Clone/Tracks.antt =====
-- Copies keep the tracks: go/internal/timeline/timeline.go (clone).
use rushes.Base.{List, [], ◌∷◌, ◌≡◌, refl, ap, IfOk, IfOk-any, IfOk-bind}
use rushes.Float.{Floats}
use rushes.Timeline.Types.{Track, Document, Heap}
use rushes.Timeline.Tracks.{ids, LeavesTracks}
use rushes.Timeline.Clone.{clone, clone_tracks, clone_clips, clone_ducking, json_float}

module _ {F : Type 0} ⦃fl : Floats F⦄ where
  clone_tracks-ids :
      (ts : List (Track F)) (old heap : Heap F)
      → IfOk (λ r. ids r.0 ≡ ids ts) (clone_tracks ts old heap)
  unfolding clone_tracks
  clone_tracks-ids [] old heap = refl
  clone_tracks-ids (t ∷ ts) old heap = IfOk-any _ (json_float t.gain_db) _ λ gain _.
      IfOk-any _ (clone_ducking t.ducking) _ λ ducking _.
        IfOk-any _ (clone_clips t.clips old heap) _ λ r _.
          IfOk-bind (λ q. ids q.0 ≡ ids ts) _ (clone_tracks ts old r.1) _
            (clone_tracks-ids ts old r.1) λ q same. ap (λ ss. t.track_id ∷ ss) same

  pub clone-tracks : (d : Document F) (heap : Heap F) → LeavesTracks d (clone d heap)
  unfolding clone
  clone-tracks d heap =
      IfOk-bind (λ r. ids r.0 ≡ ids d.tracks) _ (clone_tracks d.tracks heap []) _
        (clone_tracks-ids d.tracks heap []) λ r same. same
