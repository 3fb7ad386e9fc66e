-- ===== src/Worker/Steps/Coherent.antt =====
-- The status of a job and its claim: go/internal/worker/job.go and runner.go.
use rushes.Base.{
  arith, String, ℕ, Bool, true, false, List, Option, none, some, [], ◌∷◌, ◌≡◌, All, refl, inl, inr,
  Bool-cases, IfOk, IfOk-any, IfOk-bind, ok, ◌&&◌, refuse_if, text_eq,
}
use rushes.Float.{Floats}
use rushes.Value.{Any, Fields, value_at}
use rushes.Jobs.{
  column_is, Job, JobStatus, pending, running, succeeded, failed, cancelled, is_running, is_pending,
  update_jobs, job_at,
}
use rushes.Worker.Claim.{
  claim_row, claimed_row, heartbeat, beaten, holds, release_claim, unclaimed, schedule_retry,
  rescheduled, value,
}
use rushes.Reducer.JobEvents.{
  JobEvent, job_failed, job_succeeded, apply_job, mark_job, by_kind, marked, check_job, string_from,
  missing_job_id, asset_known, draft_known, requesting_draft,
}

abbrev pub IsSome : Option String → Type 0
IsSome none = false ≡ true
IsSome (some s) = Unit

abbrev pub Coherent : JobStatus → Option String → Option String → Option String → Type 0
Coherent pending w s h = (w ≡ none) × (s ≡ none) × (h ≡ none)
Coherent running w s h = IsSome w × IsSome s × IsSome h
Coherent _ w s h = Unit

kept_claim :
    (st : JobStatus) (w s h : Option String) (t : String)
    → is_running st ≡ true
    → Coherent st w s h
    → Coherent st w s (some t)
unfolding is_running
kept_claim pending w s h t e c = absurd (cc e)
kept_claim running w s h t e (a, b, c) = (a, b, tt)
kept_claim succeeded w s h t e c = tt
kept_claim failed w s h t e c = tt
kept_claim cancelled w s h t e c = tt

last_true : (a b c d : Bool) → (a && b && c && d) ≡ true → d ≡ true
last_true a b c d e = ground arith

-- The two events that end a job.
abbrev pub Ends : JobEvent → Type 0
Ends job_failed = Unit
Ends job_succeeded = Unit
Ends _ = false ≡ true

module _ {F : Type 0} ⦃fl : Floats F⦄ where
  -- A job that waits has no claim, and one that runs has a worker, a start and a heartbeat.
  abbrev pub IsCoherent : Job F → Type 0
  IsCoherent row = Coherent row.status row.worker_id row.started_at row.heartbeat_at

  pub update_jobs-All :
      {P : Job F → Type 0} (p : Job F → Bool) (f : Job F → Job F) (rows : List (Job F))
      → ((r : Job F) → p r ≡ true → P r → P (f r))
      → All P rows
      → All P (update_jobs p f rows)
  unfolding update_jobs
  update_jobs-All p f [] keeps h = tt
  update_jobs-All p f (r ∷ rows) keeps (h, hs) = elim (Bool-cases (p r)) [
    | inl e ↦ rw e (keeps r e h, update_jobs-All p f rows keeps hs)
    | inr e ↦ rw e (h, update_jobs-All p f rows keeps hs)
  ]

  pub claim_row-IsCoherent :
      (worker timestamp : String) (rows : List (Job F)) (o : Option (Job F))
      → All IsCoherent rows
      → All IsCoherent (claim_row worker timestamp rows o).0
  unfolding claim_row claimed_row
  claim_row-IsCoherent worker timestamp rows none h = h
  claim_row-IsCoherent worker timestamp rows (some row) h =
      update_jobs-All (λ r. text_eq r.job_id row.job_id && is_pending r.status)
        (claimed_row worker timestamp) rows (λ r _ _. (tt, tt, tt)) h

  holds_running : (job r : Job F) → holds job r ≡ true → is_running r.status ≡ true
  unfolding holds
  holds_running job r e =
      last_true (text_eq r.job_id job.job_id) (column_is r.worker_id (value job.worker_id))
        (column_is r.started_at (value job.started_at)) (is_running r.status) e

  pub heartbeat-IsCoherent :
      (job : Job F) (timestamp : String) (rows : List (Job F))
      → All IsCoherent rows
      → All IsCoherent (heartbeat job timestamp rows).0
  unfolding heartbeat beaten
  heartbeat-IsCoherent job timestamp rows h =
      update_jobs-All (holds job) (beaten timestamp) rows
        (λ r e c.
          kept_claim r.status r.worker_id r.started_at r.heartbeat_at timestamp
            (holds_running job r e) c)
        h

  pub release-IsCoherent :
      (job : Job F) (rows : List (Job F))
      → All IsCoherent rows
      → All IsCoherent (release_claim job rows).0
  unfolding release_claim unclaimed
  release-IsCoherent job rows h =
      update_jobs-All (holds job) unclaimed rows (λ r _ _. (refl, refl, refl)) h

  pub retry-IsCoherent :
      (job : Job F) (stamp : ℕ → String) (failure : Any F) (rows : List (Job F))
      → All IsCoherent rows
      → All IsCoherent (schedule_retry job stamp failure rows).0
  unfolding schedule_retry rescheduled unclaimed
  retry-IsCoherent job stamp failure rows h =
      update_jobs-All (holds job) _ rows (λ r _ _. (refl, refl, refl)) h

  marked-IsCoherent :
      (event : JobEvent) (payload : Fields F) (created : String) (r : Job F)
      → Ends event
      → IsCoherent (marked event payload created r)
  unfolding marked
  marked-IsCoherent job_failed payload created r e = tt
  marked-IsCoherent job_succeeded payload created r e = tt
  marked-IsCoherent JobEvent.job_enqueued payload created r e = absurd (cc e)
  marked-IsCoherent JobEvent.job_progress payload created r e = absurd (cc e)
  marked-IsCoherent JobEvent.job_cancelled payload created r e = absurd (cc e)

  mark_job-IsCoherent :
      (event : JobEvent) (payload : Fields F) (created id : String) (rows : List (Job F))
      (o : Option (Job F))
      → Ends event
      → All IsCoherent rows
      → IfOk (All IsCoherent) (mark_job event payload created id rows o)
  unfolding mark_job
  mark_job-IsCoherent event payload created id rows none ends h = tt
  mark_job-IsCoherent event payload created id rows (some row) ends h =
      IfOk-any (All IsCoherent) (check_job event payload row)
        (λ _. ok (update_jobs (λ r. text_eq r.job_id id) (marked event payload created) rows))
        (λ _ _.
          update_jobs-All (λ r. text_eq r.job_id id) (marked event payload created) rows
            (λ r _ _. marked-IsCoherent event payload created r ends) h)

  by_kind-IsCoherent :
      (event : JobEvent) (draft : String) (payload : Fields F) (created id : String)
      (rows : List (Job F))
      → Ends event
      → All IsCoherent rows
      → IfOk (All IsCoherent) (by_kind event draft payload created id rows)
  unfolding by_kind
  by_kind-IsCoherent job_failed draft payload created id rows ends h =
      mark_job-IsCoherent job_failed payload created id rows (job_at id rows) ends h
  by_kind-IsCoherent job_succeeded draft payload created id rows ends h =
      mark_job-IsCoherent job_succeeded payload created id rows (job_at id rows) ends h
  by_kind-IsCoherent JobEvent.job_enqueued draft payload created id rows ends h = absurd (cc ends)
  by_kind-IsCoherent JobEvent.job_progress draft payload created id rows ends h = absurd (cc ends)
  by_kind-IsCoherent JobEvent.job_cancelled draft payload created id rows ends h = absurd (cc ends)

  pub apply_job-IsCoherent :
      (drafts : List String) (event : JobEvent) (draft : String) (payload : Fields F)
      (created : String) (rows : List (Job F))
      → Ends event
      → All IsCoherent rows
      → IfOk (All IsCoherent) (apply_job drafts event draft payload created rows)
  unfolding apply_job
  apply_job-IsCoherent drafts event draft payload created rows ends h =
      let target = string_from (value_at "job_id" payload) "" in
      IfOk-any (All IsCoherent) (refuse_if (text_eq target "") missing_job_id) _ λ _ _.
        IfOk-bind (All IsCoherent) (All IsCoherent)
          (by_kind event draft payload created target rows) _
          (by_kind-IsCoherent event draft payload created target rows ends h)
          λ rows' kept. IfOk-any (All IsCoherent) (asset_known event (job_at target rows')) _ λ _ _.
            IfOk-any (All IsCoherent) (draft_known drafts (requesting_draft draft payload)) _
              λ _ _. kept
