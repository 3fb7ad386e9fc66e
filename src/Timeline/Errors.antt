-- ===== src/Timeline/Errors.antt =====
-- Errors of the timeline package: go/internal/timeline/errors.go, the `OpFieldError` of op_catalog.go,
-- plain errors by their text, and `errors.Join`.
use rushes.Base.{String, ℤ, pos, Result, ok, err, itoa, ◌<>◌, text_eq, if◌then◌else◌}
use rushes.Timeline.Types.{Clip}

pub data SemanticErrorKind : Type 0 where
  clip_not_found frame_out_of_range timeline_range_out_of_bounds track_locked : SemanticErrorKind

pub record SemanticError : Type 0 where
  pub kind : SemanticErrorKind
  pub clip_id : String
  pub track_id : String
  pub provided_frame : ℤ
  pub timeline_start_frame : ℤ
  pub timeline_end_frame : ℤ
  pub source_start_frame : ℤ
  pub source_end_frame : ℤ
  pub message : String
  pub provided_start_frame : ℤ
  pub provided_end_frame : ℤ
  pub duration_frames : ℤ

pub record OpFieldError : Type 0 where
  pub kind : String
  pub field : String
  pub reason : String

pub data Error : Type 0 where
  plain : String → Error
  semantic : SemanticError → Error
  op_field : OpFieldError → Error
  joined : Error → Error → Error

abbrev pub no_facts : SemanticErrorKind → SemanticError
no_facts kind = record {
  kind = kind;
  clip_id = "";
  track_id = "";
  provided_frame = pos 0;
  timeline_start_frame = pos 0;
  timeline_end_frame = pos 0;
  source_start_frame = pos 0;
  source_end_frame = pos 0;
  message = "";
  provided_start_frame = pos 0;
  provided_end_frame = pos 0;
  duration_frames = pos 0;
}

unfoldable pub clip_not_found_error : String → Error
clip_not_found_error id = semantic (record (no_facts clip_not_found) { clip_id = id })

unfoldable pub track_locked_error : String → Error
track_locked_error id = semantic (record (no_facts track_locked) { track_id = id })

unfoldable pub clip_frame_range_error : {F : Type 0} → Clip F → ℤ → String → Error
clip_frame_range_error c frame message = semantic (record (no_facts frame_out_of_range) {
  clip_id = c.timeline_clip_id;
  provided_frame = frame;
  timeline_start_frame = c.timeline_start_frame;
  timeline_end_frame = c.timeline_end_frame;
  source_start_frame = c.source_start_frame;
  source_end_frame = c.source_end_frame;
  message = message;
})

default_text : SemanticError → SemanticErrorKind → String
default_text e clip_not_found = "clip 不存在: " <> e.clip_id
default_text e track_locked = "轨道 " <> e.track_id <> " 已锁定"
default_text e frame_out_of_range =
    "帧 "
    <> itoa e.provided_frame
    <> " 必须位于片段 "
    <> e.clip_id
    <> " 的时间线范围 ("
    <> itoa e.timeline_start_frame
    <> ","
    <> itoa e.timeline_end_frame
    <> ") 内"
default_text e timeline_range_out_of_bounds =
    "时间线范围 ["
    <> itoa e.provided_start_frame
    <> ","
    <> itoa e.provided_end_frame
    <> ") 必须满足 0 <= start_frame < end_frame <= "
    <> itoa e.duration_frames

-- `(*SemanticError).Error`.
unfoldable pub error_text : SemanticError → String
unfolding default_text
error_text e = if text_eq e.message "" then default_text e e.kind else e.message

-- A frame that could not be read, as the error of the handler.
abbrev pub lift {ℓ} : {A : Type ℓ} → Result String A → Result Error A
lift (ok a) = ok a
lift (err text) = err (plain text)

-- Two frames that are read before either error is looked at: `errors.Join(startErr, endErr)`. A join
-- of one error has that error's text, and stands for it here.
abbrev pub both_frames : Result String ℤ → Result String ℤ → Result Error (ℤ × ℤ)
both_frames (ok a) (ok b) = ok (a, b)
both_frames (ok a) (err e) = err (plain e)
both_frames (err e) (ok b) = err (plain e)
both_frames (err e) (err e') = err (joined (plain e) (plain e'))
