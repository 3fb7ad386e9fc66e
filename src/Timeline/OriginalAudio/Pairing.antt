-- ===== src/Timeline/OriginalAudio/Pairing.antt =====
-- The rebuilt sound and the check of the pairs: go/internal/timeline/timeline.go
-- (rebuildOriginalAudio, Validate).
use rushes.Base.{
  String, true, false, pos, List, [], ◌∷◌, ◌≡◌, refl, Bool-cases, inl, inr, text_eq_refl, ==ℤ_refl,
  text_eq,
}
use rushes.Float.{Floats}
use rushes.Timeline.Types.{Clip, Track}
use rushes.Timeline.Lookup.{effective_rate}
use rushes.Timeline.OriginalAudio.{relinked, rebuilt_audio, has_audio, group_of}
use rushes.Timeline.Validate.{pair_issues, group_issues, group_clips}

module _ {F : Type 0} ⦃fl : Floats F⦄ where
  open fl use {of_int, lt, minus, abs, micro}

  effective_twice :
      lt (of_int (pos 0)) (of_int (pos 1)) ≡ true
      → (c c' : Clip F) → c'.playback_rate ≡ effective_rate c
      → effective_rate c' ≡ effective_rate c
  unfolding effective_rate
  effective_twice one c c' e = elim (Bool-cases (lt (of_int (pos 0)) c.playback_rate)) [
    | inl p ↦ rw (e, p, p) refl
    | inr p ↦ rw (e, p, one) refl
  ]

  linked_rate :
      (group : String) (v : Clip F)
      → effective_rate (record v { linked = true; parent_block_id = group }) ≡ effective_rate v
  unfolding effective_rate
  linked_rate group v = refl

  pair_of :
      lt (of_int (pos 0)) (of_int (pos 1)) ≡ true
      → ((x : F) → lt micro (abs (minus x x)) ≡ false)
      → (audio_assets : List String) (existing : List (Clip F)) (v : Clip F)
      → has_audio audio_assets v ≡ true
      → pair_issues (group_of v) (relinked audio_assets v) (rebuilt_audio existing v) ≡ []
  unfolding pair_issues relinked rebuilt_audio
  pair_of one self audio_assets existing v e = rw e (
      rw
        (
          text_eq_refl v.asset_id,
          ==ℤ_refl v.timeline_start_frame,
          ==ℤ_refl v.timeline_end_frame,
          ==ℤ_refl v.source_start_frame,
          ==ℤ_refl v.source_end_frame,
        )
        (rw (linked_rate (group_of v) v, built_rate, self (effective_rate v)) refl))
    where
      built_rate : effective_rate (rebuilt_audio existing v) ≡ effective_rate v
      built_rate = effective_twice one v (rebuilt_audio existing v) refl

  picture_found :
      (audio_assets : List String) (v : Clip F)
      → has_audio audio_assets v ≡ true
      → ((relinked audio_assets v).linked ≡ true)
        × ((relinked audio_assets v).parent_block_id ≡ group_of v)
  unfolding relinked
  picture_found audio_assets v e = rw e (refl, refl)

  sound_found :
      (existing : List (Clip F)) (v : Clip F)
      → ((rebuilt_audio existing v).linked ≡ true)
        × ((rebuilt_audio existing v).parent_block_id ≡ group_of v)
  unfolding rebuilt_audio
  sound_found existing v = (refl, refl)

  -- The tracks with one primary clip, as `rebuildOriginalAudio` links it, and the sound built for it.
  abbrev pub paired_tracks :
      List String → List (Clip F) → Clip F → Track F → Track F → List (Track F)
  paired_tracks audio_assets existing v primary original =
      record primary { track_id = "visual_base"; clips = relinked audio_assets v ∷ [] }
      ∷ record original { track_id = "original_audio"; clips = rebuilt_audio existing v ∷ [] }
      ∷ []

  picture_group :
      (audio_assets : List String) (existing : List (Clip F)) (v : Clip F)
      (primary original : Track F)
      → has_audio audio_assets v ≡ true
      → group_clips
          (group_of v)
          "visual_base"
          (paired_tracks audio_assets existing v primary original)
        ≡ relinked audio_assets v ∷ []
  unfolding group_clips text_eq
  picture_group audio_assets existing v primary original e =
      let (linked, group) = picture_found audio_assets v e in
      rw (linked, group, text_eq_refl (group_of v)) refl

  sound_group :
      (audio_assets : List String) (existing : List (Clip F)) (v : Clip F)
      (primary original : Track F)
      → group_clips
          (group_of v)
          "original_audio"
          (paired_tracks audio_assets existing v primary original)
        ≡ rebuilt_audio existing v ∷ []
  unfolding group_clips text_eq
  sound_group audio_assets existing v primary original =
      let (linked, group) = sound_found existing v in
      rw (linked, group, text_eq_refl (group_of v)) refl

  -- If 1 is above 0 and no number differs from itself by more than 1e-6, then in tracks with a primary
  -- clip of an asset with sound, as `rebuildOriginalAudio` links it, and the sound that it builds for the
  -- clip, whatever sound was there before, `Validate` finds in the clip's group exactly the clip and the
  -- sound, both linked, and has nothing against the pair.
  pub rebuilt_audio-IsPaired :
      lt (of_int (pos 0)) (of_int (pos 1)) ≡ true
      → ((x : F) → lt micro (abs (minus x x)) ≡ false)
      → (audio_assets : List String) (existing : List (Clip F)) (v : Clip F)
        (primary original : Track F)
      → has_audio audio_assets v ≡ true
      → let tracks = paired_tracks audio_assets existing v primary original in
        (group_clips (group_of v) "visual_base" tracks ≡ relinked audio_assets v ∷ [])
        × (group_clips (group_of v) "original_audio" tracks ≡ rebuilt_audio existing v ∷ [])
        × (group_issues
              (group_of v)
              (group_clips (group_of v) "visual_base" tracks)
              (group_clips (group_of v) "original_audio" tracks)
            ≡ [])
  unfolding group_issues
  rebuilt_audio-IsPaired one self audio_assets existing v primary original e =
      let picture = picture_group audio_assets existing v primary original e in
      let sound = sound_group audio_assets existing v primary original in
      (picture, sound, rw (picture, sound) (pair_of one self audio_assets existing v e))
