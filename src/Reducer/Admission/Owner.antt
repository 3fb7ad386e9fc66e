-- ===== src/Reducer/Admission/Owner.antt =====
-- What an admitted write of a timeline pointer has shown
-- (go/internal/reducer/timeline_write_admission.go).
use rushes.Base.{
  String, Bool, true, false, ℤ, List, Option, none, some, [], ◌∷◌, ◌≡◌, All, IfOk, IfOk-refuse_if,
  IfOk-bind, Bool-cases, inl, inr, text_eq, text_eq_iff, Result, ok, err, not, ◌&&◌, ◌||◌, refl,
  refuse_if, if◌then◌else◌, IfOk-weaken,
}
use rushes.Contracts.{Actor, actor_agent, actor_user, actor_job, other_actor, Event}
use rushes.Reducer.Lease.{
  AgentEditLease, Leases, LeaseError, agent_edit_lease_lost, timeline_locked_by_agent, not_found,
  get_live_agent_edit_lease, invalid, constraint_failed,
}
use rushes.Reducer.Lease.Keys.{neither}
use rushes.Reducer.Admission.{
  TimelineWriteAdmission, timeline_pointer_write_drafts, admission_time, origin_of, blank_owner,
  not_owner, default_origin, admit_draft, admit_drafts, check_origin, admit_writes, is_agent,
  is_user, validate_timeline_write_admission,
}

-- The caller is the holder of the draft's live lease.
abbrev pub IsHolder : Leases → ℤ → Option TimelineWriteAdmission → String → Type 0
IsHolder rows now none draft = false ≡ true
IsHolder rows now (some a) draft =
    (l : AgentEditLease) × (get_live_agent_edit_lease rows draft now ≡ ok l)
    × (l.turn_id ≡ a.turn_id)
    × (l.lease_token ≡ a.lease_token)

-- An agent's write needs the draft's live lease, any other write needs that there is none.
abbrev pub IsAdmitted : Actor → Leases → ℤ → Option TimelineWriteAdmission → String → Type 0
IsAdmitted actor_agent rows now a draft = IsHolder rows now a draft
IsAdmitted _ rows now a draft = get_live_agent_edit_lease rows draft now ≡ err not_found

negated_false : (b : Bool) → not b ≡ false → b ≡ true
negated_false true e = refl
negated_false false e = cc e

passed :
    (P : Type 0) (bad : Bool) (e : LeaseError) → (bad ≡ false → P) → IfOk (λ _. P) (refuse_if bad e)
passed P true e step = tt
passed P false e step = step refl

second : (a b : Bool) → (a || b) ≡ false → b ≡ false
second true b h = absurd (cc h)
second false b h = h

owner_found :
    (rows : Leases) (now : ℤ) (draft : String) (a : Option TimelineWriteAdmission)
    (r : Result LeaseError AgentEditLease)
    → get_live_agent_edit_lease rows draft now ≡ r
    → IfOk (λ _. IsHolder rows now a draft) (admit_draft a "agent" r)
unfolding admit_draft not_owner text_eq
owner_found rows now draft a (err not_found) e = tt
owner_found rows now draft a (err (invalid s)) e = tt
owner_found rows now draft a (err timeline_locked_by_agent) e = tt
owner_found rows now draft a (err agent_edit_lease_lost) e = tt
owner_found rows now draft a (err constraint_failed) e = tt
owner_found rows now draft none (ok lease) e = tt
owner_found rows now draft (some a) (ok lease) e =
    passed (IsHolder rows now (some a) draft) (not_owner (some a) lease) agent_edit_lease_lost (λ k.
      (
        lease,
        e,
        (text_eq_iff lease.turn_id a.turn_id).0
            (negated_false _ (neither (not (text_eq lease.turn_id a.turn_id)) _ k)),
        (text_eq_iff lease.lease_token a.lease_token).0
            (negated_false _ (second (not (text_eq lease.turn_id a.turn_id)) _ k)),
      ))

lease_absent :
    (rows : Leases) (now : ℤ) (draft origin : String) (a : Option TimelineWriteAdmission)
    (r : Result LeaseError AgentEditLease)
    → text_eq origin "agent" ≡ false
    → get_live_agent_edit_lease rows draft now ≡ r
    → IfOk (λ _. get_live_agent_edit_lease rows draft now ≡ err not_found) (admit_draft a origin r)
unfolding admit_draft
lease_absent rows now draft origin a (err not_found) other e = rw other e
lease_absent rows now draft origin a (err (invalid s)) other e = tt
lease_absent rows now draft origin a (err timeline_locked_by_agent) other e = tt
lease_absent rows now draft origin a (err agent_edit_lease_lost) other e = tt
lease_absent rows now draft origin a (err constraint_failed) other e = tt
lease_absent rows now draft origin a (ok lease) other e = rw other tt

-- What is shown for each draft holds for all of them.
admit_drafts-All :
    (P : String → Type 0) (rows : Leases) (now : ℤ) (a : Option TimelineWriteAdmission)
    (origin : String) (drafts : List String)
    → ((draft : String)
        → IfOk (λ _. P draft) (admit_draft a origin (get_live_agent_edit_lease rows draft now)))
    → IfOk (λ _. All P drafts) (admit_drafts rows now a origin drafts)
unfolding admit_drafts
admit_drafts-All P rows now a origin [] one = tt
admit_drafts-All P rows now a origin (draft ∷ drafts) one =
    IfOk-bind (λ _. P draft) (λ _. All P (draft ∷ drafts))
      (admit_draft a origin (get_live_agent_edit_lease rows draft now))
      (λ _. admit_drafts rows now a origin drafts) (one draft)
      (λ _ k.
        IfOk-weaken (λ _. All P drafts) (λ _. All P (draft ∷ drafts))
          (admit_drafts rows now a origin drafts) (admit_drafts-All P rows now a origin drafts one)
          (λ _ ks. (k, ks)))

-- The guards on the actor decide how the drafts are looked at.
abbrev OriginFits : Actor → Option TimelineWriteAdmission → Type 0
OriginFits actor_agent a = default_origin actor_agent (origin_of a) ≡ "agent"
OriginFits actor a = text_eq (default_origin actor (origin_of a)) "agent" ≡ false

default_other :
    (actor : Actor) (origin : String)
    → text_eq origin "agent" ≡ false
    → text_eq (default_origin actor origin) "agent" ≡ false
unfolding default_origin is_user text_eq
default_other actor origin e = elim (Bool-cases (text_eq origin "")) [
  | inl blank ↦ rw blank (either_name actor)
  | inr named ↦ rw named e
]
  where
    either_name :
        (actor : Actor) → text_eq (if is_user actor then "manual" else "legacy") "agent" ≡ false
    either_name actor_user = refl
    either_name actor_agent = refl
    either_name actor_job = refl
    either_name (other_actor s) = refl

agent_origin :
    (a : Option TimelineWriteAdmission)
    → (not (text_eq (origin_of a) "agent") || blank_owner a) ≡ false
    → default_origin actor_agent (origin_of a) ≡ "agent"
unfolding default_origin is_user text_eq
agent_origin a e = rw (spelled) refl
  where
    spelled : origin_of a ≡ "agent"
    spelled =
        (text_eq_iff (origin_of a) "agent").0
          (negated_false _ (neither (not (text_eq (origin_of a) "agent")) (blank_owner a) e))

first_false : (b : Bool) → (b && true) ≡ false → b ≡ false
first_false true e = cc e
first_false false e = refl

other_fits :
    (actor : Actor) (a : Option TimelineWriteAdmission)
    → IfOk
        (λ _. text_eq (default_origin actor (origin_of a)) "agent" ≡ false)
        (refuse_if (text_eq (origin_of a) "agent" && true) agent_edit_lease_lost)
other_fits actor a =
    passed _ (text_eq (origin_of a) "agent" && true) agent_edit_lease_lost
      (λ e. default_other actor (origin_of a) (first_false (text_eq (origin_of a) "agent") e))

origin_fits :
    (actor : Actor) (a : Option TimelineWriteAdmission)
    → IfOk (λ _. OriginFits actor a) (check_origin actor a)
unfolding check_origin is_agent
origin_fits actor_agent a =
    IfOk-refuse_if (λ _. OriginFits actor_agent a)
      (not (text_eq (origin_of a) "agent") || blank_owner a) agent_edit_lease_lost
      (refuse_if (text_eq (origin_of a) "agent" && false) agent_edit_lease_lost)
      (λ e. passed (OriginFits actor_agent a) _ agent_edit_lease_lost (λ _. agent_origin a e))
origin_fits actor_user a = other_fits actor_user a
origin_fits actor_job a = other_fits actor_job a
origin_fits (other_actor s) a = other_fits (other_actor s) a

one_draft :
    (actor : Actor) (rows : Leases) (now : ℤ) (a : Option TimelineWriteAdmission) (draft : String)
    → OriginFits actor a
    → IfOk
        (λ _. IsAdmitted actor rows now a draft)
        (admit_draft a
          (default_origin actor (origin_of a))
          (get_live_agent_edit_lease rows draft now))
one_draft actor_agent rows now a draft fits =
    rw fits (owner_found rows now draft a (get_live_agent_edit_lease rows draft now) refl)
one_draft actor_user rows now a draft fits =
    lease_absent rows now draft _ a (get_live_agent_edit_lease rows draft now) fits refl
one_draft actor_job rows now a draft fits =
    lease_absent rows now draft _ a (get_live_agent_edit_lease rows draft now) fits refl
one_draft (other_actor s) rows now a draft fits =
    lease_absent rows now draft _ a (get_live_agent_edit_lease rows draft now) fits refl

admitted :
    (rows : Leases) (clock : ℤ) (actor : Actor) (a : Option TimelineWriteAdmission)
    (drafts : List String)
    → IfOk
        (λ _. All (IsAdmitted actor rows (admission_time a clock) a) drafts)
        (admit_writes rows clock actor a drafts)
unfolding admit_writes
admitted rows clock actor a [] = tt
admitted rows clock actor a (draft ∷ drafts) =
    IfOk-bind (λ _. OriginFits actor a)
      (λ _. All (IsAdmitted actor rows (admission_time a clock) a) (draft ∷ drafts))
      (check_origin actor a)
      (λ _.
        admit_drafts rows (admission_time a clock) a (default_origin actor (origin_of a))
          (draft ∷ drafts))
      (origin_fits actor a)
      (λ _ fits.
        admit_drafts-All (IsAdmitted actor rows (admission_time a clock) a) rows
          (admission_time a clock) a (default_origin actor (origin_of a)) (draft ∷ drafts)
          (λ d. one_draft actor rows (admission_time a clock) a d fits))

-- Events that `validateTimelineWriteAdmission` lets through move the pointers of drafts that are
-- free for its actor: an agent's transaction names the turn and the token of the live lease of each of
-- these drafts, and for any other actor none of these drafts has a live lease.
pub validate_timeline_write_admission-IsAdmitted :
    {F : Type 0} (rows : Leases) (clock : ℤ) (events : List (Event F)) (actor : Actor)
    (admission : Option TimelineWriteAdmission)
    → IfOk
        (λ _.
          All
            (IsAdmitted actor rows (admission_time admission clock) admission)
            (timeline_pointer_write_drafts events))
        (validate_timeline_write_admission rows clock events actor admission)
unfolding validate_timeline_write_admission
validate_timeline_write_admission-IsAdmitted rows clock events actor admission =
    admitted rows clock actor admission (timeline_pointer_write_drafts events)
