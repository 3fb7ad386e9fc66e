-- ===== src/Timeline/Settings.antt =====
-- Edits that change no frame: go/internal/timeline/editing.go (setTrackState, setTrackDucking,
-- updateEditableClip) and timeline.go (setClipFades, clampClipFades, and the gain and subtitle edits
-- of ApplyPatch).
pub mod Coverage
pub mod Tracks
pub mod Fades
use rushes.Base.{
  String, Bool, ℤ, pos, List, [], ◌∷◌, ◌++◌, map, Option, none, some, text_eq, member, ltb_ℤ, ◌+ℤ◌,
  ◌-ℤ◌, max_ℤ, if◌then◌else◌, ◌&&◌, ◌||◌, not, Result, ok, err, ◌>>=◌, ◌>>◌, refuse_if, keep_if,
  trim_space, ◌<>◌,
}
use rushes.Float.{Floats, outside}
use rushes.Value.{
  Any, Items, no_items, item, strings, items, Fields, lookup, has, frame_value, text_at,
  string_value, value_at, bool_value, number_value, numeric_value,
}
use rushes.Timeline.Types.{Clip, Track, TrackDucking, Document, Heap}
use rushes.Timeline.Errors.{Error, plain, track_locked_error, both_frames}
use rushes.Timeline.Lookup.{
  Outcome, ClipLocation, track_by_id, update_first, editable_location, track_at, clip_at,
  update_clip, update_members, linked_group, track_family, clamp_int,
}
use rushes.Timeline.Insert.{is_subtitle_style}
use rushes.Timeline.Reorder.{has_group}

module _ {F : Type 0} where
  -- One round of the loop over the switches of a track: the new value, or the old one if the key is
  -- missing.
  switch : String → Fields F → Bool → Result Error Bool
  switch key operation old = elim (lookup key operation) [
    | none ↦ ok old
    | some raw ↦ elim (bool_value raw) [ none ↦ err (plain (key <> " 必须是布尔值")) | some b ↦ ok b ]
  ]

  -- `[]string` as it is, and `[]any` read item by item.
  item_texts : Items F → List String
  item_texts no_items = []
  item_texts (item v rest) = string_value v ∷ item_texts rest

  trigger_values : Any F → Option (List String)
  unfolding item_texts
  trigger_values (strings xs) = some xs
  trigger_values (items xs) = some (item_texts xs)
  trigger_values _ = none

abbrev pub is_trigger : String → Bool
is_trigger s = text_eq s "voiceover" || text_eq s "original_audio"

-- The loop over the triggers: `seen` are those kept so far, in order.
unfoldable pub collect_triggers : List String → List String → Result Error (List String)
collect_triggers seen [] = ok seen
collect_triggers seen (s ∷ rest) =
    let next = collect_triggers (if member s seen then seen else seen ++ (s ∷ [])) rest in
    if is_trigger s then next else err (plain "trigger_tracks 只能包含 voiceover 或 original_audio")

module _ {F : Type 0} ⦃fl : Floats F⦄ where
  track_gain : Fields F → Track F → Result Error F
  track_gain operation t = elim (lookup "gain_db" operation) [
    | none ↦ ok t.gain_db
    | some raw ↦ elim (numeric_value raw) [
      | none ↦ err (plain "gain_db 必须在 [-60,12] 范围内")
      | some gain ↦ do
        refuse_if (outside (ℤ.negsuc 59) (pos 12) gain) (plain "gain_db 必须在 [-60,12] 范围内")
        refuse_if (not (text_eq (track_family t) "audio")) (plain "只有音频轨支持轨道音量")
        ok gain
    ]
  ]

  state_of : Fields F → Track F → Result Error (Track F)
  unfolding switch track_gain
  state_of operation t = do
    muted ← switch "muted" operation t.muted
    refuse_if (has "muted" operation && text_eq t.track_id "visual_base" && muted)
        (plain "主视觉轨不能静音")
    solo ← switch "solo" operation t.solo
    locked ← switch "locked" operation t.locked
    gain ← track_gain operation t
    refuse_if
        (not (
          has "muted" operation
          || has "solo" operation
          || has "locked" operation
          || has "gain_db" operation))
        (plain "set_track_state 没有可更新字段")
    ok (record t { muted = muted; solo = solo; locked = locked; gain_db = gain })

  -- Go visits the three switches in any order, which shows only in which of several errors is
  -- returned.
  unfoldable pub set_track_state : Document F → Heap F → Fields F → Outcome F
  unfolding state_of
  set_track_state d heap operation = do
    let id = text_at "track_id" operation
    elim (track_by_id d id) [
      | none ↦ err (plain ("轨道不存在: " <> id))
      | some t ↦ do
        t' ← state_of operation t
        ok (record d { tracks = update_first id (λ _. t') d.tracks }, heap)
    ]

  ducking_of : Fields F → Result Error (TrackDucking F)
  unfolding trigger_values collect_triggers
  ducking_of operation = elim (bool_value (value_at "enabled" operation)) [
    | none ↦ err (plain "set_track_ducking 缺少 enabled 布尔值")
    | some enabled ↦ elim (numeric_value (value_at "duck_db" operation)) [
      | none ↦ err (plain "duck_db 必须在 [-18,-3] 范围内")
      | some duck_db ↦ do
        refuse_if (outside (ℤ.negsuc 17) (ℤ.negsuc 2) duck_db) (plain "duck_db 必须在 [-18,-3] 范围内")
        elim (trigger_values (value_at "trigger_tracks" operation)) [
          | none ↦ err (plain "trigger_tracks 必须是字符串数组")
          | some values ↦ do
            triggers ← collect_triggers [] values
            elim triggers [
              | [] ↦ err (plain "trigger_tracks 不能为空")
              | s ∷ rest ↦
                  ok (record { enabled = enabled; duck_db = duck_db; trigger_tracks = s ∷ rest })
            ]
        ]
    ]
  ]

  unfoldable pub set_track_ducking : Document F → Heap F → Fields F → Outcome F
  unfolding ducking_of
  set_track_ducking d heap operation = do
    refuse_if (not (text_eq (text_at "track_id" operation) "bgm"))
        (plain "set_track_ducking 只能用于 bgm 轨")
    elim (track_by_id d "bgm") [
      | none ↦ err (plain "bgm 轨不存在")
      | some t ↦ do
        refuse_if t.locked (track_locked_error t.track_id)
        ducking ← ducking_of operation
        ok (
          record d {
            tracks = update_first "bgm" (λ t. record t { ducking = some ducking }) d.tracks;
          },
          heap,
        )
    ]

  -- `updateEditableClip`.
  unfoldable pub update_editable_clip :
      Document F → Heap F → Fields F → (Track F → Clip F → Result Error (Clip F)) → Outcome F
  update_editable_clip d heap operation update = do
    l ← editable_location d operation
    c ← update (track_at d.tracks l) (clip_at d.tracks l)
    ok (record d { tracks = update_clip l (λ _. c) d.tracks }, heap)

  unfoldable pub gained : Fields F → Track F → Clip F → Result Error (Clip F)
  gained operation t c = do
    let gain = number_value (value_at "gain_db" operation)
    refuse_if (outside (ℤ.negsuc 59) (pos 12) gain) (plain "gain_db 必须在 [-60,12] 范围内")
    ok (record c { gain_db = gain })

  new_text : Fields F → Clip F → Result Error (Clip F)
  new_text operation c = elim (lookup "text" operation) [
    | none ↦ ok c
    | some raw ↦
        let text = trim_space (string_value raw) in
        refuse_if (text_eq text "") (plain "字幕文字不能为空") >> ok (record c { text = text })
  ]

  new_style : Fields F → Clip F → Result Error (Clip F)
  new_style operation c = elim (lookup "style" operation) [
    | none ↦ ok c
    | some raw ↦
        let style = trim_space (string_value raw) in
        refuse_if (not (is_subtitle_style style))
          (plain "字幕 style 必须是 default、large_center、top_bar、minimal 或 bold_bottom")
        >> ok (record c { subtitle_style = style })
  ]

  unfoldable pub retitled : Fields F → Track F → Clip F → Result Error (Clip F)
  unfolding new_text new_style
  retitled operation t c = do
    refuse_if (not (text_eq t.track_id "subtitles")) (plain "只能编辑字幕轨文字")
    c' ← new_text operation c
    new_style operation c'

  -- The sound of a linked video takes its fades.
  fade_members : Document F → ClipLocation → List ClipLocation
  fade_members d l =
      let c = clip_at d.tracks l in
      if text_eq (track_family (track_at d.tracks l)) "visual"
        && text_eq c.asset_kind "video"
        && has_group c
      then l
        ∷ keep_if (λ m. text_eq (track_at d.tracks m).track_id "original_audio")
            (linked_group d c.parent_block_id)
      else l ∷ []

  bad_fades : ℤ → ℤ → Clip F → Bool
  bad_fades fade_in fade_out c =
      ltb_ℤ fade_in (pos 0)
      || ltb_ℤ fade_out (pos 0)
      || ltb_ℤ (c.timeline_end_frame -ℤ c.timeline_start_frame) (fade_in +ℤ fade_out)

  refuse_fades : List (Track F) → ℤ → ℤ → List ClipLocation → Result Error (Unit {0})
  unfolding bad_fades
  refuse_fades tracks fade_in fade_out [] = ok tt
  refuse_fades tracks fade_in fade_out (l ∷ ls) = do
    refuse_if (track_at tracks l).locked (track_locked_error (track_at tracks l).track_id)
    refuse_if (bad_fades fade_in fade_out (clip_at tracks l)) (plain "淡入与淡出必须为非负整数帧，且总和不能超过片段时长")
    refuse_fades tracks fade_in fade_out ls

  unfoldable pub set_clip_fades : Document F → Heap F → Fields F → Outcome F
  unfolding fade_members refuse_fades
  set_clip_fades d heap operation = do
    l ← editable_location d operation
    refuse_if
        (not (text_eq (track_family (track_at d.tracks l)) "audio")
          && not (text_eq (clip_at d.tracks l).asset_kind "video"))
        (plain "只有音频片段或带声音的视频片段支持淡入淡出")
    (fade_in, fade_out) ←
        both_frames (frame_value operation "fade_in_frames")
          (frame_value operation "fade_out_frames")
    let members = fade_members d l
    refuse_fades d.tracks fade_in fade_out members
    let faded : Clip F → Clip F =
        λ (c : Clip F). record c { fade_in_frames = fade_in; fade_out_frames = fade_out }
    ok (record d { tracks = update_members faded members d.tracks }, heap)

module _ {F : Type 0} where
  -- The body of `clampClipFades`.
  unfoldable pub clamp_fades : Clip F → Clip F
  unfolding clamp_int max_ℤ
  clamp_fades c =
      let duration = max_ℤ (pos 0) (c.timeline_end_frame -ℤ c.timeline_start_frame) in
      let fade_in = clamp_int c.fade_in_frames (pos 0) duration in
      record c {
        fade_in_frames = fade_in;
        fade_out_frames = clamp_int c.fade_out_frames (pos 0) (duration -ℤ fade_in);
      }

  unfoldable pub clamp_clip_fades : Document F → Document F
  unfolding clamp_fades
  clamp_clip_fades d = record d {
    tracks = map (λ (t : Track F). record t { clips = map clamp_fades t.clips }) d.tracks;
  }
