-- ===== src/Timeline/Sample.antt =====
-- A small document for the examples: two clips of one video fill the primary track.
use rushes.Base.{String, ℤ, pos, List, [], ◌∷◌}
use rushes.Float.Fixed.{Fixed, fixed}
use rushes.Value.{Any, Fields, field, no_fields}
use rushes.Timeline.Types.{Clip, Track, Document, zero_clip, empty_track}

abbrev pub video : String → ℤ → ℤ → Clip Fixed
video id start end = record zero_clip {
  timeline_clip_id = id;
  track_id = "visual_base";
  asset_id = "asset";
  asset_kind = "video";
  role = "b_roll";
  timeline_start_frame = start;
  timeline_end_frame = end;
  source_start_frame = start;
  source_end_frame = end;
  playback_rate = pos 1000;
  gain_db = pos 0;
}

abbrev track : String → String → List (Clip Fixed) → Track Fixed
track id type clips = record (empty_track (id, type)) { clips = clips; gain_db = pos 0 }

abbrev pub first_clip : Clip Fixed
first_clip = video "a" (pos 0) (pos 60)

abbrev pub second_clip : Clip Fixed
second_clip = video "b" (pos 60) (pos 100)

abbrev pub sample : Document Fixed
sample = record {
  timeline_id = "draft:v1";
  draft_id = "draft";
  version = pos 1;
  fps = pos 30;
  duration_frames = pos 100;
  tracks =
      track "visual_base" "primary_visual" (first_clip ∷ second_clip ∷ [])
      ∷ track "visual_overlay" "visual_overlay" []
      ∷ track "original_audio" "audio" []
      ∷ track "voiceover" "audio" []
      ∷ track "bgm" "audio" []
      ∷ track "subtitles" "text" []
      ∷ track "sfx" "audio" []
      ∷ [];
}

-- `{"kind": "delete_range", "start_frame": 10, "end_frame": 40}`.
abbrev pub cut_out : Fields Fixed
cut_out =
    field "kind" (Any.str "delete_range")
      (field "start_frame" (Any.int (pos 10)) (field "end_frame" (Any.int (pos 40)) no_fields))
