-- ===== src/Timeline/Catalog/Acceptance.antt =====
-- What the check of the fields promises: go/internal/timeline/op_catalog.go (ValidateOpFields).
use rushes.Base.{
  String, ℤ, Bool, true, false, List, [], ◌∷◌, Option, none, some, map, ◌≡◌, refl, arith, All,
  Bool-cases, inl, inr, member, not, ◌&&◌, Result, ok, err, refuse_if, ◌>>◌, text_eq,
}
use rushes.Float.{Floats, is_finite}
use rushes.Value.{
  Any, Fields, Items, field, no_fields, lookup, str, null, bool, int, int64, float32, float64,
  strings, items, object, no_items, item,
}
use rushes.Timeline.Errors.{Error}
use rushes.Timeline.Catalog.{
  OpField, OpFieldType, string_field, integer_field, number_field, boolean_field, object_field,
  string_array_field, is_string, is_boolean, is_object, is_string_array, valid_integer,
  valid_number, whole_number, all_texts, OpSpec, validate_op_fields, valid_field_value,
  lookup_op_spec, check_kind, check_spec, check_fields, check_field, foreign_key, refuse_foreign,
  refuse_empty, field_error,
}

-- A chain that succeeds has parts that succeed.
both_ok : (m n : Result Error (Unit {0})) → m >> n ≡ ok tt → (m ≡ ok tt) × (n ≡ ok tt)
both_ok (ok u) n e = (refl, e)
both_ok (err x) n e = cc

refuse_if-ok : (bad : Bool) (x : Error) → refuse_if bad x ≡ ok tt → bad ≡ false
refuse_if-ok false x e = refl
refuse_if-ok true x e = cc

-- The keys that an operation with a specification may have.
abbrev pub allowed_keys : OpSpec → List String
allowed_keys s = "kind" ∷ map (λ (f : OpField). f.name) s.fields

refuse_foreign-ok : (kind : String) (o : Option String) → refuse_foreign kind o ≡ ok tt → o ≡ none
unfolding refuse_foreign
refuse_foreign-ok kind none e = refl
refuse_foreign-ok kind (some k) e = cc

module _ {F : Type 0} where
  abbrev pub keys : Fields F → List String
  keys no_fields = []
  keys (field k v m) = k ∷ keys m

  foreign_key-none :
      (allowed : List String) (m : Fields F)
      → foreign_key allowed m ≡ none
      → All (λ k. member k allowed ≡ true) (keys m)
  unfolding foreign_key
  foreign_key-none allowed no_fields e = tt
  foreign_key-none allowed (field k v m) e = elim (Bool-cases (member k allowed)) [
    | inl known ↦ (known, foreign_key-none allowed m (rw known at e))
    | inr unknown ↦ cc (rw unknown at e)
  ]

module _ {F : Type 0} ⦃fl : Floats F⦄ where
  open fl use {of_int, to_int, eq, is_whole}

  -- The texts of a JSON array.
  pub data AllTexts : Items F → Type 0 where
    none_left : AllTexts no_items
    one_text : (s : String) {rest : Items F} → AllTexts rest → AllTexts (item (str s) rest)

  -- A finite number that is the integer it is cut to.
  pub record IsWhole (x : F) : Type 0 where
    pub finite : is_finite x ≡ true
    pub whole : is_whole x ≡ true
    pub exact : eq (of_int (to_int x)) x ≡ true

  -- The values of each type of field.
  pub data HasType : OpFieldType → Any F → Type 0 where
    text : (s : String) → HasType string_field (str s)
    truth : (b : Bool) → HasType boolean_field (bool b)
    integer : (n : ℤ) → HasType integer_field (int n)
    integer64 : (n : ℤ) → HasType integer_field (int64 n)
    whole32 : (x : F) → IsWhole x → HasType integer_field (float32 x)
    whole64 : (x : F) → IsWhole x → HasType integer_field (float64 x)
    number : (n : ℤ) → HasType number_field (int n)
    number64 : (n : ℤ) → HasType number_field (int64 n)
    finite32 : (x : F) → is_finite x ≡ true → HasType number_field (float32 x)
    finite64 : (x : F) → is_finite x ≡ true → HasType number_field (float64 x)
    mapping : (m : Fields F) → HasType object_field (object m)
    texts : (ss : List String) → HasType string_array_field (strings ss)
    array : (vs : Items F) → AllTexts vs → HasType string_array_field (items vs)

  all_texts-AllTexts : (vs : Items F) → all_texts vs ≡ true → AllTexts vs
  all_texts-AllTexts no_items e = none_left
  all_texts-AllTexts (item (str s) rest) e = one_text s (all_texts-AllTexts rest e)
  all_texts-AllTexts (item null rest) e = absurd (cc e)
  all_texts-AllTexts (item (bool b) rest) e = absurd (cc e)
  all_texts-AllTexts (item (int n) rest) e = absurd (cc e)
  all_texts-AllTexts (item (int64 n) rest) e = absurd (cc e)
  all_texts-AllTexts (item (float32 x) rest) e = absurd (cc e)
  all_texts-AllTexts (item (float64 x) rest) e = absurd (cc e)
  all_texts-AllTexts (item (strings ss) rest) e = absurd (cc e)
  all_texts-AllTexts (item (items vs) rest) e = absurd (cc e)
  all_texts-AllTexts (item (object m) rest) e = absurd (cc e)

  whole_number-IsWhole : (x : F) → whole_number x ≡ true → IsWhole x
  unfolding whole_number
  whole_number-IsWhole x e = record {
    finite = ground arith;
    whole = ground arith;
    exact = ground arith;
  }

  valid_field_value-HasType :
      (type : OpFieldType) (v : Any F) → valid_field_value type v ≡ true → HasType type v
  unfolding valid_field_value is_string is_boolean is_object is_string_array valid_integer
      valid_number
  valid_field_value-HasType string_field null e = absurd (cc e)
  valid_field_value-HasType string_field (str s) e = text s
  valid_field_value-HasType string_field (bool b) e = absurd (cc e)
  valid_field_value-HasType string_field (int n) e = absurd (cc e)
  valid_field_value-HasType string_field (int64 n) e = absurd (cc e)
  valid_field_value-HasType string_field (float32 x) e = absurd (cc e)
  valid_field_value-HasType string_field (float64 x) e = absurd (cc e)
  valid_field_value-HasType string_field (strings ss) e = absurd (cc e)
  valid_field_value-HasType string_field (items vs) e = absurd (cc e)
  valid_field_value-HasType string_field (object m) e = absurd (cc e)
  valid_field_value-HasType integer_field null e = absurd (cc e)
  valid_field_value-HasType integer_field (str s) e = absurd (cc e)
  valid_field_value-HasType integer_field (bool b) e = absurd (cc e)
  valid_field_value-HasType integer_field (int n) e = integer n
  valid_field_value-HasType integer_field (int64 n) e = integer64 n
  valid_field_value-HasType integer_field (float32 x) e = whole32 x (whole_number-IsWhole x e)
  valid_field_value-HasType integer_field (float64 x) e = whole64 x (whole_number-IsWhole x e)
  valid_field_value-HasType integer_field (strings ss) e = absurd (cc e)
  valid_field_value-HasType integer_field (items vs) e = absurd (cc e)
  valid_field_value-HasType integer_field (object m) e = absurd (cc e)
  valid_field_value-HasType number_field null e = absurd (cc e)
  valid_field_value-HasType number_field (str s) e = absurd (cc e)
  valid_field_value-HasType number_field (bool b) e = absurd (cc e)
  valid_field_value-HasType number_field (int n) e = number n
  valid_field_value-HasType number_field (int64 n) e = number64 n
  valid_field_value-HasType number_field (float32 x) e = finite32 x e
  valid_field_value-HasType number_field (float64 x) e = finite64 x e
  valid_field_value-HasType number_field (strings ss) e = absurd (cc e)
  valid_field_value-HasType number_field (items vs) e = absurd (cc e)
  valid_field_value-HasType number_field (object m) e = absurd (cc e)
  valid_field_value-HasType boolean_field null e = absurd (cc e)
  valid_field_value-HasType boolean_field (str s) e = absurd (cc e)
  valid_field_value-HasType boolean_field (bool b) e = truth b
  valid_field_value-HasType boolean_field (int n) e = absurd (cc e)
  valid_field_value-HasType boolean_field (int64 n) e = absurd (cc e)
  valid_field_value-HasType boolean_field (float32 x) e = absurd (cc e)
  valid_field_value-HasType boolean_field (float64 x) e = absurd (cc e)
  valid_field_value-HasType boolean_field (strings ss) e = absurd (cc e)
  valid_field_value-HasType boolean_field (items vs) e = absurd (cc e)
  valid_field_value-HasType boolean_field (object m) e = absurd (cc e)
  valid_field_value-HasType object_field null e = absurd (cc e)
  valid_field_value-HasType object_field (str s) e = absurd (cc e)
  valid_field_value-HasType object_field (bool b) e = absurd (cc e)
  valid_field_value-HasType object_field (int n) e = absurd (cc e)
  valid_field_value-HasType object_field (int64 n) e = absurd (cc e)
  valid_field_value-HasType object_field (float32 x) e = absurd (cc e)
  valid_field_value-HasType object_field (float64 x) e = absurd (cc e)
  valid_field_value-HasType object_field (strings ss) e = absurd (cc e)
  valid_field_value-HasType object_field (items vs) e = absurd (cc e)
  valid_field_value-HasType object_field (object m) e = mapping m
  valid_field_value-HasType string_array_field null e = absurd (cc e)
  valid_field_value-HasType string_array_field (str s) e = absurd (cc e)
  valid_field_value-HasType string_array_field (bool b) e = absurd (cc e)
  valid_field_value-HasType string_array_field (int n) e = absurd (cc e)
  valid_field_value-HasType string_array_field (int64 n) e = absurd (cc e)
  valid_field_value-HasType string_array_field (float32 x) e = absurd (cc e)
  valid_field_value-HasType string_array_field (float64 x) e = absurd (cc e)
  valid_field_value-HasType string_array_field (strings ss) e = texts ss
  valid_field_value-HasType string_array_field (items vs) e = array vs (all_texts-AllTexts vs e)
  valid_field_value-HasType string_array_field (object m) e = absurd (cc e)

  -- A field that is there has a value of its type, and one that is not there may be missing.
  abbrev pub Fits : OpField → Option (Any F) → Type 0
  Fits f none = (f.required && not f.injected) ≡ false
  Fits f (some v) = HasType f.type v

  pub record IsAccepted (operation : Fields F) (kind : String) (s : OpSpec) : Type 0 where
    pub kind_given : lookup "kind" operation ≡ some (str kind)
    pub kind_known : lookup_op_spec kind ≡ some s
    pub fields_fit : All (λ (f : OpField). Fits f (lookup f.name operation)) s.fields
    pub keys_known : All (λ k. member k (allowed_keys s) ≡ true) (keys operation)

  check_field-Fits :
      (kind : String) (f : OpField) (o : Option (Any F)) → check_field kind f o ≡ ok tt → Fits f o
  unfolding check_field
  check_field-Fits kind f none e = refuse_if-ok (f.required && not f.injected) _ e
  check_field-Fits kind f (some v) e =
      valid_field_value-HasType f.type v
        (valid (valid_field_value f.type v) (refuse_if-ok (not (valid_field_value f.type v)) _ e))
    where
      valid : (b : Bool) → not b ≡ false → b ≡ true
      valid b e = ground arith

  check_fields-Fits :
      (kind : String) (operation : Fields F) (fs : List OpField)
      → check_fields kind operation fs ≡ ok tt
      → All (λ (f : OpField). Fits f (lookup f.name operation)) fs
  unfolding check_fields
  check_fields-Fits kind operation [] e = tt
  check_fields-Fits kind operation (f ∷ fs) e =
      let (first, rest) =
        both_ok (check_field kind f (lookup f.name operation)) (check_fields kind operation fs) e in
      (
        check_field-Fits kind f (lookup f.name operation) first,
        check_fields-Fits kind operation fs rest,
      )

  check_spec-IsAccepted :
      (kind : String) (operation : Fields F) (s : OpSpec)
      → lookup "kind" operation ≡ some (str kind)
      → lookup_op_spec kind ≡ some s
      → check_spec kind operation s ≡ ok tt
      → IsAccepted operation kind s
  unfolding check_spec
  check_spec-IsAccepted kind operation s given known e =
      let unknown = foreign_key (allowed_keys s) operation in
      let (fields, others) =
        both_ok (check_fields kind operation s.fields)
          (refuse_foreign kind unknown >> refuse_empty kind s.require_any operation) e in
      let (foreign, _) =
        both_ok (refuse_foreign kind unknown) (refuse_empty kind s.require_any operation) others in
      record {
        kind_given = given;
        kind_known = known;
        fields_fit = check_fields-Fits kind operation s.fields fields;
        keys_known =
            foreign_key-none (allowed_keys s) operation (refuse_foreign-ok kind unknown foreign);
      }

  -- An operation that `ValidateOpFields` accepts names a kind of the catalog; each field of the kind
  -- that the operation has is of the field's type; a required field is there unless the caller injects
  -- it; and the operation has no key but `kind` and the kind's fields.
  pub validate_op_fields-IsAccepted :
      (operation : Fields F)
      → validate_op_fields operation ≡ ok tt
      → (kind : String) × (s : OpSpec) × IsAccepted operation kind s
  unfolding validate_op_fields check_kind
  validate_op_fields-IsAccepted operation e = at_kind (lookup "kind" operation) refl e
    where
      with_spec :
          (kind : String) (o : Option OpSpec)
          → lookup "kind" operation ≡ some (str kind)
          → lookup_op_spec kind ≡ o
          → elim o [
            | none ↦ err (field_error kind "kind" "不是受支持的操作类型")
            | some s ↦ check_spec kind operation s
          ]
            ≡ ok tt
          → (kind : String) × (s : OpSpec) × IsAccepted operation kind s
      with_spec kind none given known e = cc
      with_spec kind (some s) given known e =
          (kind, s, check_spec-IsAccepted kind operation s given known e)

      at_kind :
          (o : Option (Any F))
          → lookup "kind" operation ≡ o
          → elim o [
            | none ↦ err (field_error "" "kind" "缺少必填字段")
            | some raw ↦ check_kind operation raw
          ]
            ≡ ok tt
          → (kind : String) × (s : OpSpec) × IsAccepted operation kind s
      at_kind none given e = cc
      at_kind (some (str kind)) given e = elim (Bool-cases (text_eq kind "")) [
        | inl empty ↦ cc (rw empty at e)
        | inr named ↦ with_spec kind (lookup_op_spec kind) given refl (rw named at e)
      ]
      at_kind (some v) given e = cc
