-- ===== src/Value.antt =====
-- Go's `any`, as the timeline code meets it: the values of a decoded JSON object, and the integer,
-- `float32` and `[]string` values that callers inside the process pass. A `map[string]any` is a list of
-- fields, of which a lookup sees the first with a key.
-- timeline/timeline.go (stringValue, numberValue, frameValue, valueOr) and timeline/editing.go
-- (numericValue), under go/internal.
use rushes.Base.{
  String, Bool, true, false, ℤ, pos, List, Option, none, some, text_eq, trim_space, if◌then◌else◌,
  ◌&&◌, not, Result, ok, err, ◌<>◌,
}
use rushes.Float.{Floats, is_finite}

mutual
  pub data Any (F : Type 0) : Type 0 where
    null : Any F
    str : String → Any F
    bool : Bool → Any F
    int : ℤ → Any F
    int64 : ℤ → Any F
    float32 : F → Any F
    float64 : F → Any F
    strings : List String → Any F
    items : Items F → Any F
    object : Fields F → Any F

  pub data Items (F : Type 0) : Type 0 where
    no_items : Items F
    item : Any F → Items F → Items F

  pub data Fields (F : Type 0) : Type 0 where
    no_fields : Fields F
    field : String → Any F → Fields F → Fields F

module _ {F : Type 0} where
  -- `value, exists := m[key]`.
  unfoldable pub lookup : String → Fields F → Option (Any F)
  lookup key no_fields = none
  lookup key (field k v m) = if text_eq k key then some v else lookup key m

  -- `m[key] = value`.
  unfoldable pub insert : String → Any F → Fields F → Fields F
  insert key value no_fields = field key value no_fields
  insert key value (field k v m) =
      if text_eq k key then field k value m else field k v (insert key value m)

  abbrev pub has : String → Fields F → Bool
  has key m = elim (lookup key m) [ none ↦ false | some v ↦ true ]

  -- `m[key]`, which is nil at a missing key.
  unfoldable pub value_at : String → Fields F → Any F
  unfolding lookup
  value_at key m = elim (lookup key m) [ none ↦ null | some v ↦ v ]

  unfoldable pub string_value : Any F → String
  string_value (str s) = s
  string_value _ = ""

  -- `stringValue(m[key])`.
  unfoldable pub text_at : String → Fields F → String
  unfolding value_at string_value
  text_at key m = string_value (value_at key m)

  -- `value.(bool)`.
  unfoldable pub bool_value : Any F → Option Bool
  bool_value (bool b) = some b
  bool_value _ = none

  -- `value.(map[string]any)`.
  unfoldable pub object_value : Any F → Option (Fields F)
  object_value (object m) = some m
  object_value _ = none

-- The caller's value, or the fallback where that is blank.
unfoldable pub value_or : String → String → String
value_or value fallback = if text_eq (trim_space value) "" then fallback else value

module _ {F : Type 0} ⦃fl : Floats F⦄ where
  open fl use {of_int, to_int, eq, is_whole}

  unfoldable pub number_value : Any F → F
  number_value (float64 x) = x
  number_value (float32 x) = x
  number_value (int n) = of_int n
  number_value (int64 n) = of_int n
  number_value _ = of_int (pos 0)

  unfoldable pub numeric_value : Any F → Option F
  numeric_value (float64 x) = if is_finite x then some x else none
  numeric_value (float32 x) = if is_finite x then some x else none
  numeric_value (int n) = some (of_int n)
  numeric_value (int64 n) = some (of_int n)
  numeric_value _ = none

  whole_frame : String → F → Result String ℤ
  whole_frame key x =
      if not (is_finite x && is_whole x)
      then err (key <> " 必须是整数帧")
      else if not (eq (of_int (to_int x)) x)
      then err (key <> " 超出整数范围")
      else ok (to_int x)

  -- The integer of a numeric value. Go's `int` and `int64` have one width here, so the test
  -- `int64(int(typed)) != typed` never holds.
  frame_of : String → Any F → Result String ℤ
  frame_of key (float64 x) = whole_frame key x
  frame_of key (float32 x) = whole_frame key x
  frame_of key (int n) = ok n
  frame_of key (int64 n) = ok n
  frame_of key _ = err (key <> " 必须是整数帧")

  unfoldable pub frame_value : Fields F → String → Result String ℤ
  unfolding whole_frame frame_of
  frame_value operation key = elim (lookup key operation) [
    | none ↦ err ("patch op 缺少 " <> key)
    | some v ↦ frame_of key v
  ]
