-- ===== src/Timeline/Examples.antt =====
-- Examples of the theorems on the documents of go/internal/timeline, and runs of its operations.
use rushes.Base.{true, false, pos, [], ◌∷◌, ◌≡◌, refl, All, IfOk, text_eq, length, ◌+◌, arith, ◌-ℤ◌}
use rushes.Float.Fixed.{Fixed, fixed}
use rushes.Value.{text_at}
use rushes.Timeline.Types.{empty_track, Document, Track}
use rushes.Timeline.Sample.{sample, first_clip, second_clip, cut_out}
use rushes.Timeline.Patch.{apply_patch}
use rushes.Timeline.Place.{erase_track_range}
use rushes.Timeline.Place.Erase.{IsOutside, erase_track_range-IsOutside}
use rushes.Timeline.Coalesce.{AdjacentClipOverlapRepair, coalesce_from}
use rushes.Timeline.Spans.Merge.{coalesce_from-count}
use rushes.Timeline.Settings.Fades.{FadesFit}
use rushes.Timeline.Patch.Fades.{apply_patch-FadesFit}
use rushes.Timeline.Patch.Coverage.{HasPrimary, apply_patch-IsCovered}
use rushes.Timeline.Tracks.{ids}
use rushes.Timeline.Coverage.{IsCovered}
use rushes.Timeline.OriginalAudio.{relinked, rebuilt_audio, group_of}
use rushes.Timeline.OriginalAudio.Pairing.{paired_tracks, rebuilt_audio-IsPaired}
use rushes.Timeline.Validate.{group_clips, group_issues, missing_issues}
use rushes.Timeline.Validate.Required.{ensure_required_tracks-missing_issues}
use rushes.Timeline.Types.{ensure_required_tracks, required_tracks, empty_track}
use rushes.Timeline.Ripple.{delete_frames}
use rushes.Timeline.Ripple.Locks.{protected_tracks, delete_frames-protected_tracks}
use rushes.Timeline.Place.{shift_track_for_insert}
use rushes.Timeline.Place.Room.{GivesWay, shift_track_for_insert-GivesWay}
use rushes.Timeline.Metadata.{deref, is_anchor}
use rushes.Timeline.Metadata.Placement.{start_key, end_key}
use rushes.Timeline.Split.{Cut, should_split, left_half, cut_metadata}
use rushes.Timeline.Split.Sharing.{cut_metadata-right_half}
use rushes.Value.{Any, Fields, field, no_fields, lookup}
use rushes.Base.{some, List, map}
use rushes.Timeline.Lookup.{sort_track}
use rushes.Timeline.Types.{Clip}

sample-IsCovered : IsCovered sample
unfolding text_eq
sample-IsCovered = record {
  not_negative = omega arith;
  covers = (
    (λ _. (refl, omega arith, (refl, omega arith, refl))),
    (other, (other, (other, (other, (other, (other, tt)))))),
  );
}
  where
    other : false ≡ true → pos 0 ≡ pos 100
    other e = cc e

sample-HasPrimary : HasPrimary sample
unfolding text_eq
sample-HasPrimary = record { only = refl; covered = sample-IsCovered }

apply_patch-IsCovered_example :
    IfOk
      (λ r. HasPrimary r.0 × (ids r.0.tracks ≡ ids sample.tracks))
      (apply_patch sample [] cut_out)
unfolding text_eq text_at
apply_patch-IsCovered_example = apply_patch-IsCovered sample [] cut_out refl sample-HasPrimary

apply_patch-FadesFit_example :
    IfOk
      (λ r. All (λ (t : Track Fixed). All FadesFit t.clips) r.0.tracks)
      (apply_patch sample [] cut_out)
apply_patch-FadesFit_example = apply_patch-FadesFit sample [] cut_out

abbrev repair : AdjacentClipOverlapRepair
repair = record {
  track_id = "visual_base";
  kept_timeline_clip_id = "a";
  removed_timeline_clip_id = "b";
  normalized_source_end_frame = pos 100;
  shot_id = "shot";
}

-- The second clip plays ten frames again that the first one has played.
abbrev overlapping : Document Fixed
overlapping = record sample {
  tracks =
      record (empty_track ("visual_base", "primary_visual")) {
        gain_db = pos 0;
        clips =
            first_clip
            ∷ record second_clip { source_start_frame = pos 50; source_end_frame = pos 90 }
            ∷ [];
      }
      ∷ [];
}

coalesce_from-count_example :
    let m = coalesce_from "visual_base" [] first_clip (second_clip ∷ []) in
    length m.clips + length m.merges ≡ 2
coalesce_from-count_example = coalesce_from-count "visual_base" [] first_clip (second_clip ∷ [])

-- A document without any track.
ensure_required_tracks-missing_issues_example :
    missing_issues (ensure_required_tracks (record sample { tracks = [] })).tracks required_tracks
    ≡ []
ensure_required_tracks-missing_issues_example =
    ensure_required_tracks-missing_issues (record sample { tracks = [] })

erase_track_range-IsOutside_example :
    All
      (IsOutside (pos 10) (pos 40))
      (erase_track_range (pos 10) (pos 40) (first_clip ∷ second_clip ∷ []) []).0
erase_track_range-IsOutside_example =
    erase_track_range-IsOutside (pos 10) (pos 40) (first_clip ∷ second_clip ∷ []) []

-- No thousandth differs from itself.
never_apart : (x : Fixed) → fixed.lt fixed.micro (fixed.abs (fixed.minus x x)) ≡ false
unfolding fixed ◌-ℤ◌
never_apart x = ground arith

rebuilt_audio-IsPaired_example :
    let tracks =
      paired_tracks
        ("asset" ∷ [])
        []
        first_clip
        (empty_track ("visual_base", "visual"))
        (empty_track ("original_audio", "audio")) in
    let group = group_of first_clip in
    (group_clips group "visual_base" tracks ≡ relinked ("asset" ∷ []) first_clip ∷ [])
    × (group_clips group "original_audio" tracks ≡ rebuilt_audio [] first_clip ∷ [])
    × (group_issues group
          (group_clips group "visual_base" tracks)
          (group_clips group "original_audio" tracks)
        ≡ [])
unfolding text_eq fixed
rebuilt_audio-IsPaired_example =
    rebuilt_audio-IsPaired refl never_apart ("asset" ∷ []) [] first_clip
      (empty_track ("visual_base", "visual")) (empty_track ("original_audio", "audio")) refl

delete_frames-protected_tracks_example :
    IfOk
      (λ r. protected_tracks r.0.tracks ≡ map sort_track (protected_tracks sample.tracks))
      (delete_frames (pos 10) (pos 40) sample [])
delete_frames-protected_tracks_example = delete_frames-protected_tracks (pos 10) (pos 40) sample []

shift_track_for_insert-GivesWay_example :
    All
      (GivesWay (pos 60) (pos 20) (pos 100))
      (shift_track_for_insert (pos 60) (pos 20) (pos 100) (first_clip ∷ second_clip ∷ []) []).0
shift_track_for_insert-GivesWay_example =
    shift_track_for_insert-GivesWay (pos 60) (pos 20) (pos 100) (first_clip ∷ second_clip ∷ []) []

-- A clip with a semantic anchor, and a cut of it.
abbrev anchors : List (Fields Fixed)
anchors = field "kind" (Any.str "b_roll_semantic_anchor") no_fields ∷ []

abbrev anchored : Clip Fixed
anchored = record first_clip { metadata = some 0 }

abbrev cut_in_two : Cut
cut_in_two = record {
  selected_id = "a";
  frame = pos 30;
  group_id = "";
  right_group_id = "";
  new_id = "";
}

cut_metadata-right_half_example :
    let left = left_half (pos 30) "" anchored in
    let m = deref (cut_metadata cut_in_two anchored anchors) 0 in
    (left.metadata ≡ some 0)
    × (left.timeline_end_frame ≡ pos 30)
    × (lookup start_key m ≡ some (Any.int (pos 30)))
    × (lookup end_key m ≡ some (Any.int (pos 60)))
unfolding should_split is_anchor text_at lookup text_eq
cut_metadata-right_half_example =
    cut_metadata-right_half cut_in_two anchored anchors 0 refl refl (omega arith) refl
