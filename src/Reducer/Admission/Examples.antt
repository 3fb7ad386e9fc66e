-- ===== src/Reducer/Admission/Examples.antt =====
-- An example of the theorem on the writes of timeline pointers
-- (go/internal/reducer/timeline_write_admission.go).
use rushes.Base.{pos, none, some, [], ◌∷◌, All, IfOk, ok, ◌≡◌, refl, text_eq, trim_space, err}
use rushes.Float.Fixed.{Fixed}
use rushes.Value.{no_fields}
use rushes.Contracts.{Event, actor_agent, actor_user}
use rushes.Reducer.Lease.{Leases, get_live_agent_edit_lease, timeline_locked_by_agent}
use rushes.Reducer.Admission.{
  TimelineWriteAdmission, validate_timeline_write_admission, timeline_pointer_write_drafts,
  admission_time,
}
use rushes.Reducer.Admission.Owner.{IsAdmitted, validate_timeline_write_admission-IsAdmitted}

abbrev live_lease : Leases
live_lease =
    record {
      draft_id = "a";
      turn_id = "turn";
      lease_token = "key";
      acquired_at = pos 10;
      heartbeat_at = pos 10;
      expires_at = pos 50;
    }
    ∷ []

abbrev new_version : Event Fixed
new_version = record {
  event_type = "TimelineVersionCreated";
  actor = actor_agent;
  draft_id = "a";
  base_version = none;
  payload = some no_fields;
  created_at = "";
}

abbrev holder : TimelineWriteAdmission
holder = record { origin = "agent"; turn_id = "turn"; lease_token = "key"; now = pos 20 }

validate_timeline_write_admission-IsAdmitted_example :
    IfOk
      (λ _.
        All
          (IsAdmitted actor_agent live_lease (admission_time (some holder) (pos 0)) (some holder))
          (timeline_pointer_write_drafts (new_version ∷ [])))
      (validate_timeline_write_admission live_lease
        (pos 0)
        (new_version ∷ [])
        actor_agent
        (some holder))
validate_timeline_write_admission-IsAdmitted_example =
    validate_timeline_write_admission-IsAdmitted live_lease (pos 0) (new_version ∷ []) actor_agent
      (some holder)

holder_admitted :
    validate_timeline_write_admission live_lease
      (pos 0)
      (new_version ∷ [])
      actor_agent
      (some holder)
    ≡ ok tt
unfolding validate_timeline_write_admission get_live_agent_edit_lease text_eq trim_space
holder_admitted = refl

user_locked_out :
    validate_timeline_write_admission live_lease (pos 20) (new_version ∷ []) actor_user none
    ≡ err timeline_locked_by_agent
unfolding validate_timeline_write_admission get_live_agent_edit_lease text_eq trim_space
user_locked_out = refl
