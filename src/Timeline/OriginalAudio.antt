-- ===== src/Timeline/OriginalAudio.antt =====
-- The derived original sound of the primary track: go/internal/timeline/timeline.go
-- (DeriveOriginalAudio from its clone on, rebuildOriginalAudio).
pub mod Coverage
pub mod Pairing
use rushes.Base.{
  String, Bool, true, false, List, [], ◌∷◌, map, Option, none, some, text_eq, member, if◌then◌else◌,
  ◌&&◌, not, Result, ok, err, ◌>>◌, refuse_if, ◌<>◌,
}
use rushes.Float.{Floats}
use rushes.Timeline.Types.{Clip, Track, Document, zero_clip}
use rushes.Timeline.Errors.{Error, plain, track_locked_error}
use rushes.Timeline.Lookup.{track_by_id, update_first, sort_track, effective_rate}

module _ {F : Type 0} ⦃fl : Floats F⦄ where
  -- A Go map from a key of the clips to the clips: the last clip with the key.
  find_last : (Clip F → Bool) → List (Clip F) → Option (Clip F)
  find_last p [] = none
  find_last p (c ∷ cs) = elim (find_last p cs) [
    | some later ↦ some later
    | none ↦ if p c then some c else none
  ]

  -- The group of a primary clip with sound.
  abbrev pub group_of : Clip F → String
  group_of v =
      if text_eq v.parent_block_id "" then "sync_" <> v.timeline_clip_id else v.parent_block_id

  abbrev pub has_audio : List String → Clip F → Bool
  has_audio audio_assets v = not (text_eq v.asset_id "") && member v.asset_id audio_assets

  -- What the loop writes into a primary clip.
  unfoldable pub relinked : List String → Clip F → Clip F
  relinked audio_assets v =
      if has_audio audio_assets v
      then record v { linked = true; parent_block_id = group_of v }
      else if v.linked
      then record v { linked = false; parent_block_id = "" }
      else v

  -- The sound that a primary clip had before, by its group, else by its ID.
  earlier_audio : List (Clip F) → Clip F → Clip F
  unfolding find_last
  earlier_audio existing v =
      let by_id =
        find_last (λ (c : Clip F). text_eq c.timeline_clip_id (v.timeline_clip_id <> "_audio"))
          existing in
      let by_group =
        find_last
          (λ (c : Clip F).
            not (text_eq c.parent_block_id "") && text_eq c.parent_block_id (group_of v))
          existing in
      elim by_group [ some c ↦ c | none ↦ elim by_id [ some c ↦ c | none ↦ zero_clip ] ]

  unfoldable pub rebuilt_audio : List (Clip F) → Clip F → Clip F
  unfolding earlier_audio
  rebuilt_audio existing v = record (earlier_audio existing v) {
    timeline_clip_id = v.timeline_clip_id <> "_audio";
    track_id = "original_audio";
    asset_id = v.asset_id;
    asset_kind = v.asset_kind;
    role = "original_audio";
    timeline_start_frame = v.timeline_start_frame;
    timeline_end_frame = v.timeline_end_frame;
    source_start_frame = v.source_start_frame;
    source_end_frame = v.source_end_frame;
    playback_rate = effective_rate v;
    parent_block_id = group_of v;
    linked = true;
  }

  unfoldable pub rebuilt_clips : List String → List (Clip F) → List (Clip F) → List (Clip F)
  unfolding rebuilt_audio
  rebuilt_clips audio_assets existing [] = []
  rebuilt_clips audio_assets existing (v ∷ vs) =
      let rest = rebuilt_clips audio_assets existing vs in
      if has_audio audio_assets v then rebuilt_audio existing v ∷ rest else rest

  rebuild_tracks : Document F → List String → Track F → Track F → Document F
  unfolding relinked rebuilt_clips
  rebuild_tracks d audio_assets primary original =
      let clips = rebuilt_clips audio_assets original.clips primary.clips in
      record d {
        tracks =
            update_first "original_audio" (λ t. sort_track (record t { clips = clips }))
              (update_first "visual_base"
                (λ t. record t { clips = map (relinked audio_assets) primary.clips }) d.tracks);
      }

  unfoldable pub rebuild_original_audio : Document F → List String → Result Error (Document F)
  unfolding rebuild_tracks
  rebuild_original_audio d audio_assets = elim (track_by_id d "visual_base") [
    | none ↦ err (plain "缺少主视觉轨或原声音轨")
    | some primary ↦ elim (track_by_id d "original_audio") [
      | none ↦ err (plain "缺少主视觉轨或原声音轨")
      | some original ↦ do
        refuse_if primary.locked (track_locked_error primary.track_id)
        refuse_if original.locked (track_locked_error original.track_id)
        ok (rebuild_tracks d audio_assets primary original)
    ]
  ]
