-- ===== src/Timeline/Validate.antt =====
-- The full check of a document: go/internal/timeline/timeline.go (Validate). The issues come in the
-- order of the code, those of the linked groups in the order of the groups' first clips (Go visits
-- the map of groups in any order).
pub mod Primary
pub mod Required
mod Examples
use rushes.Base.{
  String, Bool, true, false, ℤ, pos, List, [], ◌∷◌, ◌++◌, Option, none, some, text_eq, member, any,
  length, ◌==◌, leb_ℤ, ltb_ℤ, ◌==ℤ◌, ◌+ℤ◌, ◌-ℤ◌, if◌then◌else◌, ◌&&◌, ◌||◌, not, keep_if, itoa,
  ◌<>◌,
}
use rushes.Float.{Floats, outside, is_finite}
use rushes.Timeline.Types.{Clip, Track, TrackDucking, Document, required_tracks}
use rushes.Timeline.Lookup.{effective_rate}
use rushes.Timeline.Insert.{is_subtitle_style}
use rushes.Timeline.Reorder.{by_start}
use rushes.Timeline.Settings.{is_trigger}

pub record ValidationIssue : Type 0 where
  pub code : String
  pub message : String

pub record ValidationReport : Type 0 where
  pub valid : Bool
  pub checks : List String
  pub issues : List ValidationIssue

abbrev pub Issues : Type 0
Issues = List ValidationIssue

-- `if bad {add(code, message) }`.
abbrev pub issue_if : Bool → String → String → Issues
issue_if true code message = record { code = code; message = message } ∷ []
issue_if false code message = []

-- The loop over the triggers, with those seen so far.
trigger_issues : String → List String → List String → Issues
trigger_issues track seen [] = []
trigger_issues track seen (s ∷ rest) =
    issue_if (not (is_trigger s)) "invalid_ducking_trigger" (track <> ": " <> s)
    ++ (issue_if (member s seen) "duplicate_ducking_trigger" (track <> ": " <> s)
        ++ trigger_issues track (s ∷ seen) rest)

module _ {F : Type 0} ⦃fl : Floats F⦄ where
  open fl use {of_int, lt, minus, abs, micro}

  ducking_issues : String → Option (TrackDucking F) → Issues
  unfolding trigger_issues
  ducking_issues track none = []
  ducking_issues track (some k) =
      issue_if (not (text_eq track "bgm")) "invalid_track_ducking" (track <> " 不是 bgm 轨")
      ++ (issue_if (not (is_finite k.duck_db) || outside (ℤ.negsuc 17) (ℤ.negsuc 2) k.duck_db)
            "invalid_duck_db" track
          ++ (trigger_issues track [] k.trigger_tracks
              ++ issue_if (length k.trigger_tracks == 0) "empty_ducking_triggers" track))

  id_issues : String → List String → Clip F → Issues
  id_issues track seen c =
      if text_eq c.timeline_clip_id ""
      then issue_if true "missing_clip_id" track
      else issue_if (member c.timeline_clip_id seen) "duplicate_clip_id" c.timeline_clip_id

  abbrev pub bad_clip_range : Document F → Clip F → Bool
  bad_clip_range d c =
      ltb_ℤ c.timeline_start_frame (pos 0)
      || leb_ℤ c.timeline_end_frame c.timeline_start_frame
      || ltb_ℤ d.duration_frames c.timeline_end_frame

  abbrev pub bad_clip_fades : Clip F → Bool
  bad_clip_fades c =
      ltb_ℤ c.fade_in_frames (pos 0)
      || ltb_ℤ c.fade_out_frames (pos 0)
      || ltb_ℤ (c.timeline_end_frame -ℤ c.timeline_start_frame)
          (c.fade_in_frames +ℤ c.fade_out_frames)

  style_issues : Track F → Clip F → Issues
  style_issues t c =
      if text_eq c.subtitle_style ""
      then []
      else issue_if (not (text_eq t.track_id "subtitles")) "invalid_subtitle_style_track"
          c.timeline_clip_id
        ++ issue_if (not (is_subtitle_style c.subtitle_style)) "invalid_subtitle_style"
            c.timeline_clip_id

  -- The body of the loop over a track's clips.
  unfoldable pub clip_issues : Document F → Track F → List String → Clip F → Issues
  unfolding id_issues style_issues
  clip_issues d t seen c =
      id_issues t.track_id seen c
      ++ (issue_if (not (text_eq c.track_id t.track_id)) "clip_track_mismatch" c.timeline_clip_id
          ++ (issue_if (bad_clip_range d c) "invalid_clip_range" c.timeline_clip_id
              ++ (issue_if
                    (not (text_eq c.asset_id "") && leb_ℤ c.source_end_frame c.source_start_frame)
                    "invalid_source_range" c.timeline_clip_id
                  ++ (issue_if (lt c.playback_rate (of_int (pos 0))) "invalid_playback_rate"
                        c.timeline_clip_id
                      ++ (issue_if (outside (ℤ.negsuc 59) (pos 12) c.gain_db) "invalid_clip_gain"
                            c.timeline_clip_id
                          ++ (style_issues t c
                              ++ (issue_if (bad_clip_fades c) "invalid_clip_fades"
                                    c.timeline_clip_id
                                  ++ issue_if (c.linked && text_eq c.parent_block_id "")
                                      "linked_clip_missing_parent" c.timeline_clip_id)))))))

  -- The clip IDs met so far: an empty one is not kept.
  abbrev pub note_id : Clip F → List String → List String
  note_id c seen = if text_eq c.timeline_clip_id "" then seen else c.timeline_clip_id ∷ seen

  clips_issues : Document F → Track F → List String → List (Clip F) → Issues
  unfolding clip_issues
  clips_issues d t seen [] = []
  clips_issues d t seen (c ∷ cs) = clip_issues d t seen c ++ clips_issues d t (note_id c seen) cs

  note_ids : List (Clip F) → List String → List String
  note_ids [] seen = seen
  note_ids (c ∷ cs) seen = note_ids cs (note_id c seen)

  -- The loop over the tracks: `ids` are the track IDs met, `seen` the clip IDs.
  unfoldable pub track_issues : Document F → List String → List String → List (Track F) → Issues
  unfolding clips_issues note_ids ducking_issues
  track_issues d ids seen [] = []
  track_issues d ids seen (t ∷ ts) =
      issue_if (member t.track_id ids) "duplicate_track" t.track_id
      ++ (issue_if (outside (ℤ.negsuc 59) (pos 12) t.gain_db) "invalid_track_gain" t.track_id
          ++ (ducking_issues t.track_id t.ducking
              ++ (clips_issues d t seen t.clips
                  ++ track_issues d (t.track_id ∷ ids) (note_ids t.clips seen) ts)))

  unfoldable pub missing_issues : List (Track F) → List (String × String) → Issues
  missing_issues tracks [] = []
  missing_issues tracks ((id, type) ∷ required) =
      issue_if (not (any (λ t. text_eq t.track_id id) tracks)) "missing_track" id
      ++ missing_issues tracks required

  -- `tracks["visual_base"]`: the last track with the ID.
  unfoldable pub last_track : String → List (Track F) → Option (Track F)
  last_track id [] = none
  last_track id (t ∷ ts) = elim (last_track id ts) [
    | some later ↦ some later
    | none ↦ if text_eq t.track_id id then some t else none
  ]

  abbrev pub visual_kind : Clip F → Bool
  visual_kind c = member c.asset_kind ("" ∷ "video" ∷ "image" ∷ [])

  -- The walk over the primary clips by start; the cursor ends at the last clip's end.
  unfoldable pub coverage_issues : ℤ → ℤ → List (Clip F) → Issues
  coverage_issues duration cursor [] =
      issue_if (not (cursor ==ℤ duration)) "primary_visual_not_full_coverage"
        ("coverage=" <> itoa cursor <> " duration=" <> itoa duration)
  coverage_issues duration cursor (c ∷ cs) =
      issue_if (not (visual_kind c)) "invalid_primary_visual_asset_kind"
        (c.timeline_clip_id <> " asset_kind=" <> c.asset_kind <> "，仅支持 video/image")
      ++ (issue_if (not (c.timeline_start_frame ==ℤ cursor)) "primary_visual_gap_or_overlap"
            c.timeline_clip_id
          ++ coverage_issues duration c.timeline_end_frame cs)

  primary_issues : Document F → Option (Track F) → Issues
  unfolding coverage_issues
  primary_issues d none = issue_if true "empty_primary_visual" "主视觉轨没有 clip"
  primary_issues d (some t) =
      if length t.clips == 0
      then issue_if (not (d.duration_frames ==ℤ pos 0)) "empty_primary_visual" "主视觉轨没有 clip"
      else coverage_issues d.duration_frames (pos 0) (by_start t.clips)

  -- The clips of a group on the tracks with an ID.
  unfoldable pub group_clips : String → String → List (Track F) → List (Clip F)
  group_clips group id [] = []
  group_clips group id (t ∷ ts) =
      let rest = group_clips group id ts in
      if text_eq t.track_id id
      then keep_if (λ c. c.linked && text_eq c.parent_block_id group) t.clips ++ rest
      else rest

  unfoldable pub pair_issues : String → Clip F → Clip F → Issues
  pair_issues group picture sound =
      issue_if (not (text_eq picture.asset_id sound.asset_id)) "linked_av_asset_mismatch" group
      ++ (issue_if
            (not (picture.timeline_start_frame ==ℤ sound.timeline_start_frame)
              || not (picture.timeline_end_frame ==ℤ sound.timeline_end_frame))
            "linked_av_timeline_mismatch"
            (group
              <> " visual="
              <> itoa picture.timeline_start_frame
              <> "-"
              <> itoa picture.timeline_end_frame
              <> " audio="
              <> itoa sound.timeline_start_frame
              <> "-"
              <> itoa sound.timeline_end_frame)
          ++ (issue_if
                (not (picture.source_start_frame ==ℤ sound.source_start_frame)
                  || not (picture.source_end_frame ==ℤ sound.source_end_frame))
                "linked_av_source_mismatch" group
              ++ issue_if (lt micro (abs (minus (effective_rate picture) (effective_rate sound))))
                  "linked_av_rate_mismatch" group))

  unfoldable pub group_issues : String → List (Clip F) → List (Clip F) → Issues
  unfolding pair_issues
  group_issues group [] [] = []
  group_issues group (picture ∷ []) (sound ∷ []) = pair_issues group picture sound
  group_issues group visual audio = issue_if true "linked_av_missing_pair" (
      group
      <> " visual_base="
      <> itoa (pos (length visual))
      <> " original_audio="
      <> itoa (pos (length audio)))

  -- The groups of the linked clips, each once.
  groups_of_clips : List String → List (Clip F) → List String
  groups_of_clips seen [] = seen
  groups_of_clips seen (c ∷ cs) =
      groups_of_clips
        (if c.linked && not (text_eq c.parent_block_id "") && not (member c.parent_block_id seen)
          then seen ++ (c.parent_block_id ∷ [])
          else seen)
        cs

  groups_of : List String → List (Track F) → List String
  unfolding groups_of_clips
  groups_of seen [] = seen
  groups_of seen (t ∷ ts) = groups_of (groups_of_clips seen t.clips) ts

  linked_issues : List (Track F) → List String → Issues
  unfolding group_clips group_issues
  linked_issues tracks [] = []
  linked_issues tracks (g ∷ gs) =
      group_issues g (group_clips g "visual_base" tracks) (group_clips g "original_audio" tracks)
      ++ linked_issues tracks gs

  document_issues : Document F → Issues
  document_issues d =
      issue_if (leb_ℤ d.fps (pos 0) || ltb_ℤ d.duration_frames (pos 0) || ltb_ℤ d.version (pos 1))
        "invalid_document" "fps、version 必须为正数，duration_frames 必须为非负数"

  unfoldable pub all_issues : Document F → Issues
  unfolding document_issues track_issues missing_issues primary_issues last_track linked_issues
      groups_of
  all_issues d =
      document_issues d
      ++ (track_issues d [] [] d.tracks
          ++ (missing_issues d.tracks required_tracks
              ++ (primary_issues d (last_track "visual_base" d.tracks)
                  ++ linked_issues d.tracks (groups_of [] d.tracks))))

  -- `add` clears the flag, so the document is valid exactly if there is no issue.
  unfoldable pub validate : Document F → ValidationReport
  unfolding all_issues
  validate d = record {
    valid = elim (all_issues d) [ [] ↦ true | _ ∷ _ ↦ false ];
    checks =
        "schema" ∷ "required_tracks" ∷ "clip_ranges" ∷ "primary_visual_coverage"
        ∷ "linked_av_alignment" ∷ [];
    issues = all_issues d;
  }
