-- ===== src/Timeline/Insert.antt =====
-- New clips: go/internal/timeline/timeline.go (insertClip, replaceClip, defaultClipRole,
-- removeTrackClips) and editing.go (insertSubtitle, subtitleStyle).
pub mod Coverage
pub mod Tracks
use rushes.Base.{
  ℕ, ◌+◌, String, Bool, true, false, ℤ, pos, List, [], ◌∷◌, ◌++◌, Option, none, some, text_eq,
  member, length, leb_ℤ, ltb_ℤ, ◌+ℤ◌, ◌-ℤ◌, if◌then◌else◌, ◌&&◌, ◌||◌, not, Result, ok, err, ◌>>=◌,
  ◌>>◌, refuse_if, itoa, itoa_3, ◌<>◌, trim_space,
}
use rushes.Float.{Floats}
use rushes.Value.{
  Fields, lookup, has, frame_value, text_at, value_or, value_at, bool_value, object_value,
}
use rushes.Timeline.Types.{Clip, Track, Document, Heap, zero_clip}
use rushes.Timeline.Errors.{Error, plain, track_locked_error, lift, both_frames}
use rushes.Timeline.Lookup.{
  Outcome, track_by_id, update_first, locate_clip, editable_location, update_clip, is_primary,
}
use rushes.Timeline.Place.{with_clip}

abbrev pub subtitle_style_names : List String
subtitle_style_names = "default" ∷ "large_center" ∷ "top_bar" ∷ "minimal" ∷ "bold_bottom" ∷ []

abbrev pub is_subtitle_style : String → Bool
is_subtitle_style value = member value subtitle_style_names

abbrev pub default_clip_role : String → String
default_clip_role id =
    if member id ("original_audio" ∷ "voiceover" ∷ "bgm" ∷ "sfx" ∷ []) then id else "b_roll"

-- `fmt.Sprintf("%s_v%d_%03d", prefix, version+1, count+1)`.
abbrev pub generated_id : String → ℤ → ℕ → String
generated_id prefix version count =
    prefix <> "_v" <> itoa (version +ℤ pos 1) <> "_" <> itoa_3 (count + 1)

abbrev is_ok : {A : Type 0} → Result Error A → Bool
is_ok (ok a) = true
is_ok (err e) = false

abbrev reserved_key : String
reserved_key = "_rushes_preserved_audio_lineage"

module _ {F : Type 0} ⦃fl : Floats F⦄ where
  open fl use {of_int}

  -- Where a clip of the given length starts: at the end of the primary track, elsewhere where asked.
  start_frame : Document F → Track F → Fields F → ℤ → Result Error ℤ
  start_frame d t operation duration = if is_primary t then ok d.duration_frames else (do
    start ←
        if has "timeline_start_frame" operation
        then lift (frame_value operation "timeline_start_frame")
        else ok (pos 0)
    refuse_if (ltb_ℤ start (pos 0) || ltb_ℤ d.duration_frames (start +ℤ duration))
        (plain "非主视觉 clip 必须位于当前时间线范围内")
    ok start)

  -- `include_original_audio`, false if it is missing.
  wants_audio : Fields F → Result Error Bool
  wants_audio operation = elim (lookup "include_original_audio" operation) [
    | none ↦ ok false
    | some raw ↦ elim (bool_value raw) [
      | none ↦ err (plain "include_original_audio 必须是布尔值")
      | some b ↦ ok b
    ]
  ]

  -- The metadata of the operation becomes the clip's map.
  new_metadata : Fields F → Heap F → Result Error (Option ℕ × Heap F)
  new_metadata operation heap = elim (lookup "metadata" operation) [
    | none ↦ ok (none, heap)
    | some raw ↦ elim (object_value raw) [
      | none ↦ err (plain "insert_clip metadata 必须是对象")
      | some m ↦
          if has reserved_key m
          then err (plain ("insert_clip metadata 字段 \"" <> reserved_key <> "\" 为内部保留字段"))
          else ok (some (length heap), heap ++ (m ∷ []))
    ]
  ]

  unfoldable pub new_clip : Document F → Track F → Fields F → ℤ → ℤ → ℤ → Option ℕ → Clip F
  new_clip d t operation at start end metadata = record zero_clip {
    timeline_clip_id =
        value_or (text_at "timeline_clip_id" operation)
          (generated_id "clip" d.version (length t.clips));
    track_id = t.track_id;
    asset_id = text_at "asset_id" operation;
    asset_kind = text_at "asset_kind" operation;
    role = value_or (text_at "role" operation) (default_clip_role t.track_id);
    timeline_start_frame = at;
    timeline_end_frame = at +ℤ (end -ℤ start);
    source_start_frame = start;
    source_end_frame = end;
    playback_rate = of_int (pos 1);
    metadata = metadata;
  }

  -- The original sound of a primary clip, with the clip's frames and its group.
  unfoldable pub audio_of : Clip F → String → Clip F
  audio_of c group = record zero_clip {
    timeline_clip_id = c.timeline_clip_id <> "_audio";
    track_id = "original_audio";
    asset_id = c.asset_id;
    asset_kind = c.asset_kind;
    role = "original_audio";
    timeline_start_frame = c.timeline_start_frame;
    timeline_end_frame = c.timeline_end_frame;
    source_start_frame = c.source_start_frame;
    source_end_frame = c.source_end_frame;
    playback_rate = c.playback_rate;
    parent_block_id = group;
    linked = true;
  }

  -- The clip as it goes into its track, and the tracks with its sound where that is asked for.
  with_audio : Bool → Fields F → Clip F → Document F → Result Error (Clip F × List (Track F))
  unfolding audio_of
  with_audio false operation c d = ok (c, d.tracks)
  with_audio true operation c d = elim (track_by_id d "original_audio") [
    | none ↦ err (plain "原声音轨不存在，不能插入带声主视频")
    | some t ↦
        let group =
          value_or (text_at "parent_block_id" operation) ("link_" <> c.timeline_clip_id) in
        if t.locked
        then err (track_locked_error t.track_id)
        else ok (
          record c { linked = true; parent_block_id = group },
          update_first "original_audio" (with_clip (audio_of c group)) d.tracks,
        )
  ]

  abbrev pub appended : Clip F → Track F → Track F
  appended c t = record t { clips = t.clips ++ (c ∷ []) }

  insert_on : Document F → Heap F → Fields F → ℤ → ℤ → Track F → Outcome F
  unfolding start_frame wants_audio new_metadata new_clip with_audio
  insert_on d heap operation start end t = do
    refuse_if t.locked (track_locked_error t.track_id)
    at ← start_frame d t operation (end -ℤ start)
    audio ← wants_audio operation
    refuse_if (audio && not (is_primary t)) (plain "include_original_audio 只适用于主视觉视频")
    (metadata, heap') ← new_metadata operation heap
    (c, tracks) ← with_audio audio operation (new_clip d t operation at start end metadata) d
    ok (
      record d {
        duration_frames =
            if is_primary t then d.duration_frames +ℤ (end -ℤ start) else d.duration_frames;
        tracks = update_first t.track_id (appended c) tracks;
      },
      heap',
    )

  unfoldable pub insert_clip : Document F → Heap F → Fields F → Outcome F
  unfolding insert_on
  insert_clip d heap operation = do
    (start, end) ←
        both_frames (frame_value operation "source_start_frame")
          (frame_value operation "source_end_frame")
    refuse_if (text_eq (text_at "asset_id" operation) "" || ltb_ℤ start (pos 0) || leb_ℤ end start)
        (plain "insert_clip 参数无效")
    elim (track_by_id d (value_or (text_at "track_id" operation) "visual_base")) [
      | none ↦ err (plain "insert_clip track 不存在")
      | some t ↦ insert_on d heap operation start end t
    ]

  -- A non-empty text of the operation, or the clip's own.
  abbrev text_or : String → Fields F → String → String
  text_or key operation old = let new = text_at key operation in if text_eq new "" then old else new

  unfoldable pub replace_clip : Document F → Heap F → Fields F → Outcome F
  replace_clip d heap operation = do
    l ← editable_location d operation
    let asset = text_at "asset_id" operation
    refuse_if (text_eq asset "") (plain "replace_clip 缺少 asset_id")
    let metadata = object_value (value_at "metadata" operation)
    let replaced : Clip F → Clip F = λ (c : Clip F). record c {
      asset_id = asset;
      asset_kind = text_or "asset_kind" operation c.asset_kind;
      role = text_or "role" operation c.role;
      metadata = elim metadata [ none ↦ c.metadata | some m ↦ some (length heap) ];
    }
    ok (
      record d { tracks = update_clip l replaced d.tracks },
      elim metadata [ none ↦ heap | some m ↦ heap ++ (m ∷ []) ],
    )

  unfoldable pub subtitle_style : Fields F → String
  subtitle_style operation =
      let style = trim_space (text_at "style" operation) in
      if text_eq style "" then "default" else if is_subtitle_style style then style else ""

  subtitle_clip : String → String → String → ℤ → ℤ → Clip F
  subtitle_clip id text style start end = record zero_clip {
    timeline_clip_id = id;
    track_id = "subtitles";
    text = text;
    timeline_start_frame = start;
    timeline_end_frame = end;
    subtitle_style = style;
  }

  subtitle_on : Document F → Heap F → Fields F → Track F → Outcome F
  unfolding subtitle_clip
  subtitle_on d heap operation t = do
    refuse_if t.locked (track_locked_error t.track_id)
    (start, end) ←
        both_frames (frame_value operation "start_frame") (frame_value operation "end_frame")
    let text = trim_space (text_at "text" operation)
    refuse_if
        (ltb_ℤ start (pos 0) || leb_ℤ end start || ltb_ℤ d.duration_frames end || text_eq text "")
        (plain "insert_subtitle 时间范围或文字无效")
    let style = subtitle_style operation
    refuse_if (has "style" operation && text_eq style "")
        (plain "字幕 style 必须是 default、large_center、top_bar、minimal 或 bold_bottom")
    let id =
        value_or (text_at "timeline_clip_id" operation)
          (generated_id "subtitle" d.version (length t.clips))
    refuse_if (is_ok (locate_clip d id)) (plain ("timeline_clip_id 已存在: " <> id))
    ok (
      record d {
        tracks =
            update_first "subtitles" (with_clip (subtitle_clip id text style start end)) d.tracks;
      },
      heap,
    )

  unfoldable pub insert_subtitle : Document F → Heap F → Fields F → Outcome F
  unfolding subtitle_on
  insert_subtitle d heap operation = elim (track_by_id d "subtitles") [
    | none ↦ err (plain "字幕轨不存在")
    | some t ↦ subtitle_on d heap operation t
  ]

  unfoldable pub remove_track_clips : Document F → Heap F → String → Outcome F
  remove_track_clips d heap id = elim (track_by_id d id) [
    | none ↦ err (plain "不能清空不存在的轨道或主视觉轨")
    | some t ↦ do
      refuse_if (text_eq id "visual_base") (plain "不能清空不存在的轨道或主视觉轨")
      refuse_if t.locked (track_locked_error t.track_id)
      ok (record d { tracks = update_first id (λ t. record t { clips = [] }) d.tracks }, heap)
  ]
