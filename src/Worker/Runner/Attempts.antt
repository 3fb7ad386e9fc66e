-- ===== src/Worker/Runner/Attempts.antt =====
-- The runs that a failing job has left: go/internal/worker/runner.go (runOnce) and job.go
-- (ScheduleRetry).
use rushes.Base.{
  String, ℕ, Bool, true, false, pos, List, some, none, ◌≡◌, ◌⊎◌, inl, inr, refl, sym, ap, subst,
  ◌∙◌, Bool-cases, text_eq, text_eq_refl, Result, ok, leb_ℤ, leb_ℤ→le, ◌≤ℤ◌, ◌+ℤ◌, if◌then◌else◌,
}
use rushes.Float.{Floats}
use rushes.Value.{Any, Fields, value_at, lookup}
use rushes.Jobs.{
  Job, pending, running, failed, is_running, is_cancelled, job_at, update_jobs, rows_affected,
  column_is,
}
use rushes.Jobs.Rows.{updated, changed, job_at-update_jobs}
use rushes.Worker.Claim.{holds, schedule_retry, rescheduled, value, unclaimed}
use rushes.Worker.Retry.{retry_delay}
use rushes.Reducer.JobEvents.{
  ClaimError, JobEvent, job_failed, marked, mark_job, check_job, by_kind, apply_job, string_from,
  claim_lost, heartbeat_lost, heartbeat_differs, validate_job_claim, claimed_by, asset_known,
  lift_asset, requesting_draft, draft_known,
}
use rushes.Reducer.JobAsset.{reconcile_understand_job_asset}
use rushes.Worker.Runner.{
  handler_failed, option_value, finish_run, finish_stored, after_failure, retry_job, fail_job,
  emit_terminal, check_claim, terminal_payload, settled, lift_error, same_claim,
}

string_from_str :
    (G : Type 0) (s : String) → text_eq s "" ≡ false → string_from {F = G} (Any.str s) "" ≡ s
unfolding string_from
string_from_str G s e = rw e refl

module _ {F : Type 0} ⦃fl : Floats F⦄ where
  -- The job's own row is in the table, running, claimed by a worker.
  pub record IsClaimed (job : Job F) (rows : List (Job F)) : Type 0 where
    pub worker : String
    pub started : String
    pub stored : job_at job.job_id rows ≡ some job
    pub runs : job.status ≡ running
    pub by_worker : job.worker_id ≡ some worker
    pub since : job.started_at ≡ some started
    pub has_id : text_eq job.job_id "" ≡ false
    pub has_worker : text_eq worker "" ≡ false
    pub has_start : text_eq started "" ≡ false

  -- The draft that asked for the job, else its own.
  abbrev pub requester : Job F → String
  requester job =
      if text_eq (value job.requested_by_draft_id) ""
      then value job.draft_id
      else value job.requested_by_draft_id

  -- The reducer finds what an event of the job needs besides its row: an understand job names an asset,
  -- and the draft that asked for the job, if one did, is there.
  pub record CanEnd (drafts : List String) (job : Job F) : Type 0 where
    pub asset : reconcile_understand_job_asset false job ≡ ok tt
    pub draft : draft_known drafts (requester job) ≡ ok tt

  holds_itself : (job : Job F) (rows : List (Job F)) → IsClaimed job rows → holds job job ≡ true
  unfolding holds column_is value is_running
  holds_itself job rows c =
      rw
        (
          c.by_worker,
          c.since,
          c.runs,
          text_eq_refl job.job_id,
          text_eq_refl c.worker,
          text_eq_refl c.started,
        )
        refl

  -- What a failed run makes of the job's row.
  abbrev pub IsSpent : Job F → Result {0, 0} ClaimError (List (Job F)) → Type 0
  IsSpent job result =
      (rows : List (Job F)) × (result ≡ ok rows)
      × (row : Job F) × (job_at job.job_id rows ≡ some row)
      × (((row.status ≡ pending)
            × (row.attempts ≡ job.attempts +ℤ pos 1)
            × (job.attempts +ℤ pos 1 ≤ℤ row.max_retries))
          ⊎ (row.status ≡ failed))

  failed_row :
      (job : Job F) (payload : Fields F) (created : String) (rows : List (Job F))
      → job_at job.job_id rows ≡ some job
      → job_at job.job_id
          (update_jobs (λ r. text_eq r.job_id job.job_id) (marked job_failed payload created) rows)
        ≡ some (marked job_failed payload created job)
  unfolding marked
  failed_row job payload created rows e =
      job_at-update_jobs (λ r. text_eq r.job_id job.job_id) (marked job_failed payload created)
        job.job_id rows (λ r. refl)
      ∙ ap
          (changed (updated (λ r. text_eq r.job_id job.job_id) (marked job_failed payload created)))
          e
      ∙ rw (text_eq_refl job.job_id) refl

  check_claim_ok :
      (job : Job F) (rows : List (Job F)) → IsClaimed job rows → check_claim job rows ≡ ok tt
  unfolding check_claim validate_job_claim claimed_by is_cancelled is_running column_is
  check_claim_ok job rows c =
      rw
        (
          c.by_worker,
          c.since,
          c.has_id,
          c.has_worker,
          c.has_start,
          c.stored,
          c.runs,
          c.by_worker,
          c.since,
          text_eq_refl c.worker,
          text_eq_refl c.started,
        )
        refl

  -- What the payload of the last event says of the claim.
  named_job :
      (job : Job F) (result failure : Any F)
      → (value_at "job_id" (terminal_payload job result failure) ≡ Any.str job.job_id)
        × (value_at "worker_id" (terminal_payload job result failure)
            ≡ Any.str (value job.worker_id))
        × (value_at "started_at" (terminal_payload job result failure)
            ≡ Any.str (value job.started_at))
        × (lookup "heartbeat_at" (terminal_payload job result failure) ≡ none)
  unfolding value_at lookup terminal_payload text_eq
  named_job job result failure = (refl, refl, refl, refl)

  claim_kept :
      (job : Job F) (result failure : Any F) (rows : List (Job F))
      → IsClaimed job rows
      → claim_lost (terminal_payload job result failure) job ≡ false
  unfolding claim_lost value column_is
  claim_kept job result failure rows c =
      rw
        (
          (named_job job result failure).1,
          (named_job job result failure).2,
          c.by_worker,
          c.since,
          string_from_str F c.worker c.has_worker,
          string_from_str F c.started c.has_start,
          text_eq_refl c.worker,
          text_eq_refl c.started,
          c.has_worker,
        )
        refl

  beat_unnamed :
      (job : Job F) (result failure : Any F)
      → heartbeat_lost (terminal_payload job result failure) job ≡ false
  unfolding heartbeat_lost heartbeat_differs
  beat_unnamed job result failure =
      ap (λ o. heartbeat_differs o job) (named_job job result failure).3

  alive : (job : Job F) → job.status ≡ running → is_cancelled job.status ≡ false
  unfolding is_cancelled
  alive job e = ap is_cancelled e

  check_ok :
      (job : Job F) (result failure : Any F) (rows : List (Job F))
      → IsClaimed job rows
      → check_job job_failed (terminal_payload job result failure) job ≡ ok tt
  unfolding check_job
  check_ok job result failure rows c =
      rw (alive job c.runs, claim_kept job result failure rows c, beat_unnamed job result failure)
        refl

  requested_from :
      (job : Job F) (result failure : Any F)
      → requesting_draft (value job.draft_id) (terminal_payload job result failure) ≡ requester job
  unfolding requesting_draft value_at lookup terminal_payload text_eq string_from
  requested_from job result failure = refl

  asset_kept :
      (drafts : List String) (payload : Fields F) (created : String) (job : Job F)
      → CanEnd drafts job
      → asset_known job_failed (some (marked job_failed payload created job)) ≡ ok tt
  unfolding asset_known lift_asset marked reconcile_understand_job_asset
  asset_kept drafts payload created job can = ap lift_asset can.asset

  apply_failed :
      (drafts : List String) (job : Job F) (result failure : Any F) (created : String)
      (rows : List (Job F))
      → CanEnd drafts job
      → IsClaimed job rows
      → apply_job drafts job_failed
          (value job.draft_id)
          (terminal_payload job result failure)
          created
          rows
        ≡ ok (
            update_jobs
              (λ r. text_eq r.job_id job.job_id)
              (marked job_failed (terminal_payload job result failure) created)
              rows)
  unfolding apply_job by_kind mark_job
  apply_failed drafts job result failure created rows can c =
      let payload = terminal_payload job result failure in
      rw
        (
          (named_job job result failure).0,
          string_from_str F job.job_id c.has_id,
          c.has_id,
          c.stored,
          check_ok job result failure rows c,
          failed_row job payload created rows c.stored,
          asset_kept drafts payload created job can,
          requested_from job result failure,
          can.draft,
        )
        refl

  fail_job-IsSpent :
      (drafts : List String) (logged : JobEvent → String → Bool) (job : Job F) (failure : Any F)
      (created : String) (rows : List (Job F))
      → logged job_failed job.job_id ≡ false
      → CanEnd drafts job
      → IsClaimed job rows
      → IsSpent job (fail_job drafts logged job failure created rows)
  unfolding fail_job emit_terminal lift_error settled marked option_value
  fail_job-IsSpent drafts logged job failure created rows new can c = (
    update_jobs (λ r. text_eq r.job_id job.job_id)
        (marked job_failed (terminal_payload job (option_value none) failure) created) rows,
    rw
        (
          check_claim_ok job rows c,
          new,
          apply_failed drafts job (option_value none) failure created rows can c,
        )
        refl,
    marked job_failed (terminal_payload job (option_value none) failure) created job,
    failed_row job (terminal_payload job (option_value none) failure) created rows c.stored,
    inr refl,
  )

  retried_row :
      (job : Job F) (next : String) (failure : Any F) (rows : List (Job F))
      → IsClaimed job rows
      → job_at job.job_id
          (update_jobs (holds job) (rescheduled (job.attempts +ℤ pos 1) next failure) rows)
        ≡ some (rescheduled (job.attempts +ℤ pos 1) next failure job)
  unfolding rescheduled unclaimed
  retried_row job next failure rows c =
      job_at-update_jobs (holds job) (rescheduled (job.attempts +ℤ pos 1) next failure) job.job_id
        rows (λ r. refl)
      ∙ ap (changed (updated (holds job) (rescheduled (job.attempts +ℤ pos 1) next failure)))
          c.stored
      ∙ rw (holds_itself job rows c) refl

  -- The table after a retry, whether one row was rescheduled or none.
  retried :
      (drafts : List String) (logged : JobEvent → String → Bool) (job : Job F) (failure : Any F)
      (stamp : ℕ → String) (created : String) (rows : List (Job F))
      → IsClaimed job rows
      → leb_ℤ (job.attempts +ℤ pos 1) job.max_retries ≡ true
      → rows_affected (holds job) rows ≡ 1
      → IsSpent job (
          retry_job drafts logged job failure stamp created rows
            (schedule_retry job stamp failure rows))
  unfolding retry_job schedule_retry rescheduled unclaimed
  retried drafts logged job failure stamp created rows c fits one = (
    update_jobs (holds job)
        (rescheduled (job.attempts +ℤ pos 1) (stamp (retry_delay (job.attempts +ℤ pos 1))) failure)
        rows,
    rw one refl,
    rescheduled (job.attempts +ℤ pos 1) (stamp (retry_delay (job.attempts +ℤ pos 1))) failure job,
    retried_row job (stamp (retry_delay (job.attempts +ℤ pos 1))) failure rows c,
    inl (refl, refl, leb_ℤ→le (job.attempts +ℤ pos 1) job.max_retries fits),
  )

  after_failure-IsSpent :
      (drafts : List String) (logged : JobEvent → String → Bool) (job : Job F) (failure : Any F)
      (canceled : Bool) (stamp : ℕ → String) (created : String) (rows : List (Job F))
      → logged job_failed job.job_id ≡ false
      → CanEnd drafts job
      → IsClaimed job rows
      → rows_affected (holds job) rows ≡ 1
      → IsSpent job (after_failure drafts logged job failure canceled stamp created rows)
  unfolding after_failure
  after_failure-IsSpent drafts logged job failure true stamp created rows new can c one =
      fail_job-IsSpent drafts logged job failure created rows new can c
  after_failure-IsSpent drafts logged job failure false stamp created rows new can c one =
      elim (Bool-cases (leb_ℤ (job.attempts +ℤ pos 1) job.max_retries)) [
        | inl e ↦ rw e (retried drafts logged job failure stamp created rows c e one)
        | inr e ↦ rw e (fail_job-IsSpent drafts logged job failure created rows new can c)
      ]

  claim_same : (job : Job F) (rows : List (Job F)) → IsClaimed job rows → same_claim job job ≡ true
  unfolding same_claim
  claim_same job rows c =
      rw (c.by_worker, c.since, text_eq_refl c.worker, text_eq_refl c.started) refl

  still_running : (job : Job F) → job.status ≡ running → is_running job.status ≡ true
  unfolding is_running
  still_running job e = ap is_running e

  -- A run whose handler fails uses up one run of the job, if the job is in the table as the worker
  -- claimed it, no other row is held by this claim, no failure of the job is logged yet, an understand
  -- job names an asset, and the draft that asked for the job, if one did, is there: the run returns, and
  -- the job's row is then pending with one attempt more, which is at most its `max_retries`, or it has
  -- failed.
  pub finish_run-IsSpent :
      (drafts : List String) (logged : JobEvent → String → Bool) (job : Job F) (failure : Any F)
      (canceled : Bool) (stamp : ℕ → String) (created : String) (rows : List (Job F))
      → logged job_failed job.job_id ≡ false
      → CanEnd drafts job
      → IsClaimed job rows
      → rows_affected (holds job) rows ≡ 1
      → IsSpent job
          (finish_run drafts logged job (handler_failed failure canceled) false stamp created rows)
  unfolding finish_run finish_stored
  finish_run-IsSpent drafts logged job failure canceled stamp created rows new can c one =
      subst
        (λ o. IsSpent job (
          finish_stored drafts logged job (handler_failed failure canceled) false stamp created rows
            o))
        (sym c.stored)
        (rw (still_running job c.runs, claim_same job rows c)
          (after_failure-IsSpent drafts logged job failure canceled stamp created rows new can c
            one))
