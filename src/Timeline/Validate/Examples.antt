-- ===== src/Timeline/Validate/Examples.antt =====
-- Checks of documents: go/internal/timeline/timeline.go (Validate).
use rushes.Base.{true, pos, ◌≡◌, refl, text_eq, some, stable_sort, ◌+ℤ◌, ◌-ℤ◌}
use rushes.Float.{outside}
use rushes.Float.Fixed.{Fixed, fixed}
use rushes.Timeline.Types.{Track}
use rushes.Timeline.Sample.{sample}
use rushes.Timeline.Reorder.{by_start}
use rushes.Timeline.Spans.{Covers}
use rushes.Timeline.Validate.{
  validate, last_track, all_issues, document_issues, track_issues, clips_issues, note_ids,
  clip_issues, id_issues, style_issues, missing_issues, primary_issues, coverage_issues,
  linked_issues, groups_of, groups_of_clips, ducking_issues,
}
use rushes.Timeline.Validate.Primary.{validate-Covers}

sample-valid : (validate sample).valid ≡ true
unfolding validate all_issues document_issues track_issues clips_issues note_ids clip_issues
    id_issues style_issues missing_issues primary_issues coverage_issues last_track linked_issues
    groups_of groups_of_clips ducking_issues text_eq stable_sort outside fixed ◌+ℤ◌ ◌-ℤ◌
sample-valid = refl

validate-Covers_example :
    (t : Track Fixed) × (last_track "visual_base" sample.tracks ≡ some t)
    × Covers (pos 0) (by_start t.clips) (pos 100)
validate-Covers_example = validate-Covers sample sample-valid
