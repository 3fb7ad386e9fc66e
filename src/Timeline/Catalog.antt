-- ===== src/Timeline/Catalog.antt =====
-- The catalogue of edit operations and the check of an operation's fields against it:
-- go/internal/timeline/op_catalog.go (OpField, OpSpec, Catalog, LookupOpSpec, ValidateOpFields and the
-- type tests). Summaries, descriptions and examples, which only the prompts use, are left out.
pub mod Acceptance
mod Examples
use rushes.Base.{
  String, Bool, true, false, List, [], ◌∷◌, Option, none, some, text_eq, member, any, find?,
  if◌then◌else◌, ◌&&◌, not, Result, ok, err, ◌>>◌, refuse_if, ◌<>◌, map,
}
use rushes.Float.{Floats, is_finite}
use rushes.Value.{
  Any, str, bool, int, int64, float32, float64, strings, items, object, Items, no_items, item,
  Fields, no_fields, field, lookup, has,
}
use rushes.Timeline.Errors.{Error, op_field}

pub data OpFieldType : Type 0 where
  string_field integer_field number_field boolean_field object_field string_array_field :
      OpFieldType

pub record OpField : Type 0 where
  pub name : String
  pub type : OpFieldType
  pub required : Bool
  pub injected : Bool
  pub generated : Bool

pub record OpSpec : Type 0 where
  pub kind : String
  pub fields : List OpField
  pub require_any : List String

abbrev required : String → OpFieldType → OpField
required name type = record {
  name = name;
  type = type;
  required = true;
  injected = false;
  generated = false;
}

abbrev optional : String → OpFieldType → OpField
optional name type = record {
  name = name;
  type = type;
  required = false;
  injected = false;
  generated = false;
}

abbrev injected_field : String → OpFieldType → OpField
injected_field name type = record {
  name = name;
  type = type;
  required = false;
  injected = true;
  generated = false;
}

abbrev generated_field : String → OpFieldType → OpField
generated_field name type = record {
  name = name;
  type = type;
  required = false;
  injected = false;
  generated = true;
}

abbrev clip_id_field : OpField
clip_id_field = required "timeline_clip_id" string_field

abbrev spec : String → List OpField → OpSpec
spec kind fields = record { kind = kind; fields = fields; require_any = [] }

abbrev spec_any : String → List String → List OpField → OpSpec
spec_any kind any fields = record { kind = kind; fields = fields; require_any = any }

unfoldable pub catalog : List OpSpec
catalog =
    spec "trim_clip" (
      clip_id_field
      ∷ required "source_start_frame" integer_field
      ∷ required "source_end_frame" integer_field
      ∷ [])
    ∷ spec "split_clip" (
        clip_id_field
        ∷ required "split_frame" integer_field
        ∷ generated_field "new_timeline_clip_id" string_field
        ∷ [])
    ∷ spec "reorder_clip" (clip_id_field ∷ required "target_frame" integer_field ∷ [])
    ∷ spec "move_clip" (
        clip_id_field
        ∷ required "target_frame" integer_field
        ∷ optional "mode" string_field
        ∷ optional "target_track_id" string_field
        ∷ [])
    ∷ spec "trim_clip_edge" (
        clip_id_field ∷ required "timeline_frame" integer_field ∷ required "edge" string_field ∷ [])
    ∷ spec "delete_clip" (clip_id_field ∷ [])
    ∷ spec_any "set_track_state" ("muted" ∷ "solo" ∷ "locked" ∷ "gain_db" ∷ []) (
        required "track_id" string_field
        ∷ optional "muted" boolean_field
        ∷ optional "solo" boolean_field
        ∷ optional "locked" boolean_field
        ∷ optional "gain_db" number_field
        ∷ [])
    ∷ spec "set_track_ducking" (
        required "track_id" string_field
        ∷ required "enabled" boolean_field
        ∷ required "duck_db" number_field
        ∷ required "trigger_tracks" string_array_field
        ∷ [])
    ∷ spec "set_clip_linked" (clip_id_field ∷ required "linked" boolean_field ∷ [])
    ∷ spec "insert_subtitle" (
        required "start_frame" integer_field
        ∷ required "end_frame" integer_field
        ∷ required "text" string_field
        ∷ optional "style" string_field
        ∷ generated_field "timeline_clip_id" string_field
        ∷ [])
    ∷ spec "delete_range"
        (required "start_frame" integer_field ∷ required "end_frame" integer_field ∷ [])
    ∷ spec "delete_source_range" (
        required "asset_id" string_field
        ∷ required "source_start_frame" integer_field
        ∷ required "source_end_frame" integer_field
        ∷ [])
    ∷ spec "insert_clip" (
        required "asset_id" string_field
        ∷ required "source_start_frame" integer_field
        ∷ required "source_end_frame" integer_field
        ∷ optional "track_id" string_field
        ∷ optional "timeline_start_frame" integer_field
        ∷ optional "role" string_field
        ∷ generated_field "timeline_clip_id" string_field
        ∷ generated_field "parent_block_id" string_field
        ∷ optional "metadata" object_field
        ∷ injected_field "asset_kind" string_field
        ∷ injected_field "include_original_audio" boolean_field
        ∷ [])
    ∷ spec "replace_clip" (
        clip_id_field
        ∷ required "asset_id" string_field
        ∷ optional "role" string_field
        ∷ injected_field "asset_kind" string_field
        ∷ injected_field "metadata" object_field
        ∷ [])
    ∷ spec "set_playback_rate" (clip_id_field ∷ required "playback_rate" number_field ∷ [])
    ∷ spec "adjust_gain" (clip_id_field ∷ required "gain_db" number_field ∷ [])
    ∷ spec "set_clip_fades" (
        clip_id_field
        ∷ required "fade_in_frames" integer_field
        ∷ required "fade_out_frames" integer_field
        ∷ [])
    ∷ spec_any "edit_subtitle_text" ("text" ∷ "style" ∷ [])
        (clip_id_field ∷ optional "text" string_field ∷ optional "style" string_field ∷ [])
    ∷ spec "remove_track_clips" (required "track_id" string_field ∷ [])
    ∷ []

unfoldable pub lookup_op_spec : String → Option OpSpec
unfolding catalog
lookup_op_spec kind = find? (λ (s : OpSpec). text_eq s.kind kind) catalog

abbrev type_description : OpFieldType → String
type_description string_field = "字符串"
type_description integer_field = "整数帧"
type_description number_field = "有限数值"
type_description boolean_field = "布尔值"
type_description object_field = "对象"
type_description string_array_field = "字符串数组"

-- `joinOpFieldNames`.
abbrev join_names : List String → String
join_names [] = ""
join_names (n ∷ []) = n
join_names (n ∷ m ∷ ns) = n <> "、" <> join_names (m ∷ ns)

abbrev field_error : String → String → String → Error
field_error kind name reason = op_field (record { kind = kind; field = name; reason = reason })

refuse_foreign : String → Option String → Result Error (Unit {0})
refuse_foreign kind none = ok tt
refuse_foreign kind (some k) = err (field_error kind k "不是该操作支持的字段")

module _ {F : Type 0} where
  abbrev pub all_texts : Items F → Bool
  all_texts no_items = true
  all_texts (item (str s) rest) = all_texts rest
  all_texts (item v rest) = false

  unfoldable pub is_string : Any F → Bool
  is_string (str s) = true
  is_string v = false

  unfoldable pub is_boolean : Any F → Bool
  is_boolean (bool b) = true
  is_boolean v = false

  unfoldable pub is_object : Any F → Bool
  is_object (object m) = true
  is_object v = false

  unfoldable pub is_string_array : Any F → Bool
  is_string_array (strings xs) = true
  is_string_array (items xs) = all_texts xs
  is_string_array v = false

  -- The first key of the operation that the catalogue does not allow. Go visits the keys in any order.
  foreign_key : List String → Fields F → Option String
  foreign_key allowed no_fields = none
  foreign_key allowed (field k v m) = if member k allowed then foreign_key allowed m else some k

  refuse_empty : String → List String → Fields F → Result Error (Unit {0})
  refuse_empty kind [] operation = ok tt
  refuse_empty kind (n ∷ ns) operation =
      refuse_if (not (any (λ k. has k operation) (n ∷ ns)))
        (field_error kind n ("至少需要提供一个可更新字段：" <> join_names (n ∷ ns)))

module _ {F : Type 0} ⦃fl : Floats F⦄ where
  open fl use {of_int, to_int, eq, is_whole}

  unfoldable pub whole_number : F → Bool
  whole_number x = is_finite x && is_whole x && eq (of_int (to_int x)) x

  unfoldable pub valid_integer : Any F → Bool
  unfolding whole_number
  valid_integer (int n) = true
  valid_integer (int64 n) = true
  valid_integer (float32 x) = whole_number x
  valid_integer (float64 x) = whole_number x
  valid_integer v = false

  unfoldable pub valid_number : Any F → Bool
  valid_number (int n) = true
  valid_number (int64 n) = true
  valid_number (float32 x) = is_finite x
  valid_number (float64 x) = is_finite x
  valid_number v = false

  unfoldable pub valid_field_value : OpFieldType → Any F → Bool
  unfolding is_string is_boolean is_object is_string_array valid_integer valid_number
  valid_field_value string_field v = is_string v
  valid_field_value integer_field v = valid_integer v
  valid_field_value number_field v = valid_number v
  valid_field_value boolean_field v = is_boolean v
  valid_field_value object_field v = is_object v
  valid_field_value string_array_field v = is_string_array v

  check_field : String → OpField → Option (Any F) → Result Error (Unit {0})
  check_field kind f none =
      refuse_if (f.required && not f.injected) (field_error kind f.name "缺少必填字段")
  check_field kind f (some v) =
      refuse_if (not (valid_field_value f.type v))
        (field_error kind f.name ("类型必须是" <> type_description f.type))

  check_fields : String → Fields F → List OpField → Result Error (Unit {0})
  unfolding check_field
  check_fields kind operation [] = ok tt
  check_fields kind operation (f ∷ fs) = do
    check_field kind f (lookup f.name operation)
    check_fields kind operation fs

  check_spec : String → Fields F → OpSpec → Result Error (Unit {0})
  unfolding check_fields foreign_key refuse_foreign refuse_empty
  check_spec kind operation s = do
    check_fields kind operation s.fields
    refuse_foreign kind (foreign_key ("kind" ∷ map (λ (f : OpField). f.name) s.fields) operation)
    refuse_empty kind s.require_any operation

  check_kind : Fields F → Any F → Result Error (Unit {0})
  unfolding check_spec lookup_op_spec
  check_kind operation (str kind) =
      if text_eq kind ""
      then err (field_error "" "kind" "必须是非空字符串")
      else elim (lookup_op_spec kind) [
        | none ↦ err (field_error kind "kind" "不是受支持的操作类型")
        | some s ↦ check_spec kind operation s
      ]
  check_kind operation v = err (field_error "" "kind" "必须是非空字符串")

  unfoldable pub validate_op_fields : Fields F → Result Error (Unit {0})
  unfolding check_kind
  validate_op_fields operation = elim (lookup "kind" operation) [
    | none ↦ err (field_error "" "kind" "缺少必填字段")
    | some raw ↦ check_kind operation raw
  ]
