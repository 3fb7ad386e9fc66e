-- ===== src/Reducer/Admission.antt =====
-- Which transactions may move a draft's timeline pointer:
-- go/internal/reducer/timeline_write_admission.go.
mod Owner
mod Examples
use rushes.Base.{
  String, Bool, true, false, ℤ, pos, List, Option, none, some, [], ◌∷◌, Result, ok, err, refuse_if,
  ◌>>◌, ◌&&◌, ◌||◌, not, text_eq, trim_space, member, ◌++◌, if◌then◌else◌, ◌==ℤ◌,
}
use rushes.Value.{string_value}
use rushes.Contracts.{Event, Actor, actor_agent, actor_user, payload_at}
use rushes.Reducer.Lease.{
  AgentEditLease, Leases, LeaseError, agent_edit_lease_lost, timeline_locked_by_agent, not_found,
  get_live_agent_edit_lease,
}

pub record TimelineWriteAdmission : Type 0 where
  pub origin : String
  pub turn_id : String
  pub lease_token : String
  pub now : ℤ

module _ {F : Type 0} where
  moves_pointer : Event F → Bool
  unfolding string_value
  moves_pointer event =
      let mode = string_value (payload_at event "mode") in
      not (text_eq event.draft_id "")
      && (text_eq event.event_type "TimelineVersionCreated"
          || (text_eq event.event_type "TimelineVersionRestored"
              && (text_eq mode "timeline" || text_eq mode "both")))

  -- The drafts whose pointer the events move, each one once.
  unfoldable pub timeline_pointer_write_drafts : List (Event F) → List String
  unfolding moves_pointer
  timeline_pointer_write_drafts [] = []
  timeline_pointer_write_drafts (event ∷ events) =
      let rest = timeline_pointer_write_drafts events in
      if moves_pointer event && not (member event.draft_id rest)
      then event.draft_id ∷ rest
      else rest

is_agent : Actor → Bool
is_agent actor_agent = true
is_agent _ = false

is_user : Actor → Bool
is_user actor_user = true
is_user _ = false

unfoldable pub origin_of : Option TimelineWriteAdmission → String
origin_of none = ""
origin_of (some a) = trim_space a.origin

unfoldable pub admission_time : Option TimelineWriteAdmission → ℤ → ℤ
admission_time none clock = clock
admission_time (some a) clock = if a.now ==ℤ pos 0 then clock else a.now

blank_owner : Option TimelineWriteAdmission → Bool
blank_owner none = true
blank_owner (some a) = text_eq (trim_space a.turn_id) "" || text_eq (trim_space a.lease_token) ""

-- `admission == nil || lease.TurnID != ... || lease.LeaseToken != ...`.
not_owner : Option TimelineWriteAdmission → AgentEditLease → Bool
not_owner none lease = true
not_owner (some a) lease =
    not (text_eq lease.turn_id a.turn_id) || not (text_eq lease.lease_token a.lease_token)

default_origin : Actor → String → String
unfolding is_user
default_origin actor origin =
    if text_eq origin "" then (if is_user actor then "manual" else "legacy") else origin

-- The answer for one draft, from the search for its live lease.
admit_draft :
    Option TimelineWriteAdmission
    → String
    → Result LeaseError AgentEditLease
    → Result LeaseError (Unit {0})
unfolding not_owner
admit_draft admission origin (err not_found) =
    if text_eq origin "agent" then err agent_edit_lease_lost else ok tt
admit_draft admission origin (err e) = err e
admit_draft admission origin (ok lease) =
    refuse_if (not (text_eq origin "agent")) timeline_locked_by_agent
    >> refuse_if (not_owner admission lease) agent_edit_lease_lost

admit_drafts :
    Leases → ℤ → Option TimelineWriteAdmission → String → List String → Result LeaseError (Unit {0})
unfolding admit_draft
admit_drafts rows now admission origin [] = ok tt
admit_drafts rows now admission origin (draft ∷ drafts) =
    admit_draft admission origin (get_live_agent_edit_lease rows draft now)
    >> admit_drafts rows now admission origin drafts

-- The two guards on the actor, before the drafts.
check_origin : Actor → Option TimelineWriteAdmission → Result LeaseError (Unit {0})
unfolding is_agent origin_of blank_owner
check_origin actor admission =
    refuse_if
      (is_agent actor && (not (text_eq (origin_of admission) "agent") || blank_owner admission))
      agent_edit_lease_lost
    >> refuse_if (text_eq (origin_of admission) "agent" && not (is_agent actor))
        agent_edit_lease_lost

unfoldable pub admit_writes :
    Leases → ℤ → Actor → Option TimelineWriteAdmission → List String → Result LeaseError (Unit {0})
unfolding check_origin default_origin admission_time origin_of admit_drafts
admit_writes rows clock actor admission [] = ok tt
admit_writes rows clock actor admission (draft ∷ drafts) =
    check_origin actor admission
    >> admit_drafts rows (admission_time admission clock) admission
        (default_origin actor (origin_of admission)) (draft ∷ drafts)

unfoldable pub validate_timeline_write_admission :
    {F : Type 0}
    → Leases
    → ℤ
    → List (Event F)
    → Actor
    → Option TimelineWriteAdmission
    → Result LeaseError (Unit {0})
unfolding admit_writes timeline_pointer_write_drafts
validate_timeline_write_admission rows clock events actor admission =
    admit_writes rows clock actor admission (timeline_pointer_write_drafts events)
