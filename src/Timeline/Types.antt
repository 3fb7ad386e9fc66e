-- ===== src/Timeline/Types.antt =====
-- The timeline document: go/internal/timeline/timeline.go (Document, Track, TrackDucking, Clip, Empty)
-- and the required tracks of go/internal/timeline/store.go.
-- A clip's `Metadata` is a Go map, that is a reference: here an index into a heap of maps, `none` for
-- nil, so that two clips that share one map see each other's writes.
use rushes.Base.{
  ℕ, String, Bool, false, ℤ, pos, List, [], ◌∷◌, ◌++◌, map, Option, none, text_eq, itoa, ◌<>◌, any,
  if◌then◌else◌,
}
use rushes.Float.{Floats}
use rushes.Value.{Fields}

abbrev pub default_fps : ℤ
default_fps = pos 30

pub record Clip (F : Type 0) : Type 0 where
  pub timeline_clip_id : String
  pub track_id : String
  pub asset_id : String
  pub asset_kind : String
  pub role : String
  pub text : String
  pub timeline_start_frame : ℤ
  pub timeline_end_frame : ℤ
  pub source_start_frame : ℤ
  pub source_end_frame : ℤ
  pub playback_rate : F
  pub gain_db : F
  pub fade_in_frames : ℤ
  pub fade_out_frames : ℤ
  pub subtitle_style : String
  pub parent_block_id : String
  pub linked : Bool
  pub effects : List (Fields F)
  pub metadata : Option ℕ

pub record TrackDucking (F : Type 0) : Type 0 where
  pub enabled : Bool
  pub duck_db : F
  pub trigger_tracks : List String

pub record Track (F : Type 0) : Type 0 where
  pub track_id : String
  pub track_type : String
  pub clips : List (Clip F)
  pub muted : Bool
  pub solo : Bool
  pub locked : Bool
  pub gain_db : F
  pub ducking : Option (TrackDucking F)

pub record Document (F : Type 0) : Type 0 where
  pub timeline_id : String
  pub draft_id : String
  pub version : ℤ
  pub fps : ℤ
  pub duration_frames : ℤ
  pub tracks : List (Track F)

-- The maps that the clips of a document refer to.
abbrev pub Heap : Type 0 → Type 0
Heap F = List (Fields F)

-- The IDs and types of the tracks that every document has.
abbrev pub required_tracks : List (String × String)
required_tracks =
    ("visual_base", "primary_visual")
    ∷ ("visual_overlay", "visual_overlay")
    ∷ ("original_audio", "audio")
    ∷ ("voiceover", "audio")
    ∷ ("bgm", "audio")
    ∷ ("subtitles", "text")
    ∷ ("sfx", "audio")
    ∷ []

-- `fmt.Sprintf("%s:v%d", draftID, version)`.
abbrev pub version_id : String → ℤ → String
version_id draft version = draft <> ":v" <> itoa version

module _ {F : Type 0} ⦃fl : Floats F⦄ where
  open fl use {of_int}

  abbrev pub empty_track : String × String → Track F
  empty_track (id, type) = record {
    track_id = id;
    track_type = type;
    clips = [];
    muted = false;
    solo = false;
    locked = false;
    gain_db = of_int (pos 0);
    ducking = none;
  }

  -- Go's `Clip{}`.
  abbrev pub zero_clip : Clip F
  zero_clip = record {
    timeline_clip_id = "";
    track_id = "";
    asset_id = "";
    asset_kind = "";
    role = "";
    text = "";
    timeline_start_frame = pos 0;
    timeline_end_frame = pos 0;
    source_start_frame = pos 0;
    source_end_frame = pos 0;
    playback_rate = of_int (pos 0);
    gain_db = of_int (pos 0);
    fade_in_frames = pos 0;
    fade_out_frames = pos 0;
    subtitle_style = "";
    parent_block_id = "";
    linked = false;
    effects = [];
    metadata = none;
  }

  unfoldable pub empty : String → ℤ → Document F
  empty draft version = record {
    timeline_id = version_id draft version;
    draft_id = draft;
    version = version;
    fps = default_fps;
    duration_frames = pos 1;
    tracks = map empty_track required_tracks;
  }

  -- The loop of `ensureRequiredTracks`: `existing` are the IDs of the document's own tracks.
  unfoldable pub missing_tracks : List (Track F) → List (String × String) → List (Track F)
  missing_tracks existing [] = []
  missing_tracks existing ((id, type) ∷ required) =
      if any (λ t. text_eq t.track_id id) existing
      then missing_tracks existing required
      else empty_track (id, type) ∷ missing_tracks existing required

  unfoldable pub ensure_required_tracks : Document F → Document F
  unfolding missing_tracks
  ensure_required_tracks d = record d {
    tracks = d.tracks ++ missing_tracks d.tracks required_tracks;
  }
