-- ===== src/Timeline/Lookup.antt =====
-- Finding tracks, clips and linked groups: go/internal/timeline/editing.go (locateClip,
-- editableLocation, linkedGroup, tracksCompatible, trackFamily, effectiveRate, sortTrack, clampInt)
-- and timeline.go (trackByID).
use rushes.Base.{
  ℕ, suc, String, Bool, false, ℤ, pos, List, [], ◌∷◌, ◌++◌, Option, none, some, get_or, modify, any,
  find?, text_eq, text_lt, member, trim_space, ltb_ℤ, ◌==ℤ◌, if◌then◌else◌, ◌&&◌, not, ◌||◌,
  stable_sort, Result, ok, err, ◌>>=◌, ◌>>◌, refuse_if,
}
use rushes.Float.{Floats}
use rushes.Value.{Fields, text_at}
use rushes.Timeline.Types.{Clip, Track, Document, Heap, zero_clip, empty_track}
use rushes.Timeline.Errors.{
  Error, plain, semantic, no_facts, track_locked, clip_not_found_error, track_locked_error,
}

pub record ClipLocation : Type 0 where
  pub track_index : ℕ
  pub clip_index : ℕ

-- What a handler leaves behind: the document and the heap, or an error, on which the caller keeps its
-- own copy.
abbrev pub Outcome : Type 0 → Type 0
Outcome F = Result Error (Document F × Heap F)

family_of_type : String → String
family_of_type type =
    if member type ("primary_visual" ∷ "visual_overlay" ∷ "video" ∷ []) then "visual" else type

module _ {F : Type 0} where
  abbrev pub is_primary : Track F → Bool
  is_primary t = text_eq t.track_id "visual_base"

  -- A write through `&document.Tracks[i].Clips[j]`.
  abbrev pub update_clip : ClipLocation → (Clip F → Clip F) → List (Track F) → List (Track F)
  update_clip l f =
      modify l.track_index λ (t : Track F). record t { clips = modify l.clip_index f t.clips }

  -- Writes through the pointers of several members.
  abbrev pub update_members :
      (Clip F → Clip F) → List ClipLocation → List (Track F) → List (Track F)
  update_members f [] tracks = tracks
  update_members f (l ∷ ls) tracks = update_members f ls (update_clip l f tracks)

  -- `trackByID`: the first track with the ID.
  abbrev pub track_by_id : Document F → String → Option (Track F)
  track_by_id d id = find? (λ (t : Track F). text_eq t.track_id id) d.tracks

  -- A write through the pointer that `trackByID` returns: the first track with the ID.
  abbrev pub update_first : String → (Track F → Track F) → List (Track F) → List (Track F)
  update_first id f [] = []
  update_first id f (t ∷ ts) = if text_eq t.track_id id then f t ∷ ts else t ∷ update_first id f ts

  clip_position : String → List (Clip F) → ℕ → Option ℕ
  clip_position id [] i = none
  clip_position id (c ∷ cs) i =
      if text_eq c.timeline_clip_id id then some i else clip_position id cs (suc i)

  locate_from : String → List (Track F) → ℕ → Option ClipLocation
  unfolding clip_position
  locate_from id [] i = none
  locate_from id (t ∷ ts) i = elim (clip_position id t.clips 0) [
    | some j ↦ some (record { track_index = i; clip_index = j })
    | none ↦ locate_from id ts (suc i)
  ]

  unfoldable pub locate_clip : Document F → String → Result Error ClipLocation
  unfolding locate_from
  locate_clip d id = elim (locate_from id d.tracks 0) [
    | none ↦ err (clip_not_found_error id)
    | some l ↦ ok l
  ]

  group_in_clips : String → ℕ → ℕ → List (Clip F) → List ClipLocation
  group_in_clips group i j [] = []
  group_in_clips group i j (c ∷ cs) =
      let rest = group_in_clips group i (suc j) cs in
      if c.linked && text_eq c.parent_block_id group
      then record { track_index = i; clip_index = j } ∷ rest
      else rest

  group_in_tracks : String → ℕ → List (Track F) → List ClipLocation
  unfolding group_in_clips
  group_in_tracks group i [] = []
  group_in_tracks group i (t ∷ ts) =
      group_in_clips group i 0 t.clips ++ group_in_tracks group (suc i) ts

  -- The positions of the linked clips of a group. The empty ID names no group.
  unfoldable pub linked_group : Document F → String → List ClipLocation
  unfolding group_in_tracks
  linked_group d group = if text_eq group "" then [] else group_in_tracks group 0 d.tracks

  unfoldable pub track_family : Track F → String
  unfolding family_of_type
  track_family t =
      if member t.track_id ("visual_base" ∷ "visual_overlay" ∷ [])
      then "visual"
      else if member t.track_id ("original_audio" ∷ "voiceover" ∷ "bgm" ∷ "sfx" ∷ [])
      then "audio"
      else if text_eq t.track_id "subtitles"
      then "text"
      else family_of_type t.track_type

  kind_among : List String → Clip F → Bool
  kind_among kinds c =
      not (text_eq c.asset_id "") && (text_eq c.asset_kind "" || member c.asset_kind kinds)

  unfoldable pub tracks_compatible : Track F → Track F → Clip F → Bool
  unfolding track_family kind_among
  tracks_compatible source target c =
      let family = track_family target in
      if text_eq (track_family source) family
      then if text_eq family "visual"
        then kind_among ("video" ∷ "image" ∷ []) c
        else if text_eq family "audio"
        then kind_among ("video" ∷ "audio" ∷ []) c
        else if text_eq family "text"
        then not (text_eq (trim_space c.text) "")
        else text_eq source.track_type target.track_type
      else false

  abbrev clip_before : Clip F → Clip F → Bool
  clip_before a b =
      if a.timeline_start_frame ==ℤ b.timeline_start_frame
      then text_lt a.timeline_clip_id b.timeline_clip_id
      else ltb_ℤ a.timeline_start_frame b.timeline_start_frame

  -- The clips of a track in the order of `sortTrack`.
  unfoldable pub sorted_clips : List (Clip F) → List (Clip F)
  unfolding stable_sort
  sorted_clips clips = stable_sort clip_before clips

  abbrev pub sort_track : Track F → Track F
  sort_track t = record t { clips = sorted_clips t.clips }

unfoldable pub clamp_int : ℤ → ℤ → ℤ → ℤ
clamp_int value minimum maximum =
    if ltb_ℤ value minimum then minimum else if ltb_ℤ maximum value then maximum else value

locked_clip_error : String → String → Error
locked_clip_error track clip =
    semantic (record (no_facts track_locked) { track_id = track; clip_id = clip })

module _ {F : Type 0} ⦃fl : Floats F⦄ where
  open fl use {lt, of_int}

  unfoldable pub effective_rate : Clip F → F
  effective_rate c = if lt (of_int (pos 0)) c.playback_rate then c.playback_rate else of_int (pos 1)

  -- `document.Tracks[i]` and `document.Tracks[i].Clips[j]`. The indices come from `locate_clip` and
  -- `linked_group`, which give only those of clips that are there.
  abbrev pub track_at : List (Track F) → ClipLocation → Track F
  track_at tracks l = get_or tracks l.track_index (empty_track ("", ""))

  abbrev pub clip_at : List (Track F) → ClipLocation → Clip F
  clip_at tracks l = get_or (track_at tracks l).clips l.clip_index zero_clip

  -- `editableLocation` at the ID that the operation names.
  unfoldable pub editable : Document F → String → Result Error ClipLocation
  unfolding locate_clip locked_clip_error
  editable d id = do
    refuse_if (text_eq id "") (plain "patch op 缺少 timeline_clip_id")
    l ← locate_clip d id
    refuse_if (track_at d.tracks l).locked (locked_clip_error (track_at d.tracks l).track_id id)
    ok l

  abbrev pub editable_location : Document F → Fields F → Result Error ClipLocation
  editable_location d operation = editable d (text_at "timeline_clip_id" operation)

  -- The loops that refuse a locked member and look for the primary track among the members.
  unfoldable pub refuse_locked : List (Track F) → List ClipLocation → Result Error (Unit {0})
  refuse_locked tracks [] = ok tt
  refuse_locked tracks (l ∷ ls) =
      if (track_at tracks l).locked
      then err (track_locked_error (track_at tracks l).track_id)
      else refuse_locked tracks ls

  abbrev pub has_primary : List (Track F) → List ClipLocation → Bool
  has_primary tracks = any λ l. is_primary (track_at tracks l)

  -- The positions that an edit of a clip reaches: its linked group, or the clip alone.
  abbrev pub members_of : Document F → ClipLocation → List ClipLocation
  members_of d l =
      let c = clip_at d.tracks l in
      if c.linked && not (text_eq c.parent_block_id "")
      then linked_group d c.parent_block_id
      else l ∷ []
