-- ===== src/Timeline/Catalog/Examples.antt =====
-- Operations that the check of the fields accepts: go/internal/timeline/op_catalog.go.
use rushes.Base.{String, ◌≡◌, refl, ok, text_eq}
use rushes.Float.Fixed.{fixed}
use rushes.Value.{lookup}
use rushes.Timeline.Sample.{cut_out}
use rushes.Timeline.Catalog.{OpSpec, validate_op_fields, valid_field_value}
use rushes.Timeline.Catalog.Acceptance.{IsAccepted, validate_op_fields-IsAccepted}

cut_out-passes : validate_op_fields cut_out ≡ ok tt
unfolding validate_op_fields lookup text_eq valid_field_value
cut_out-passes = refl

validate_op_fields-IsAccepted_example : (kind : String) × (s : OpSpec) × IsAccepted cut_out kind s
validate_op_fields-IsAccepted_example = validate_op_fields-IsAccepted cut_out cut_out-passes
