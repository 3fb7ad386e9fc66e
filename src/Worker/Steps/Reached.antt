-- ===== src/Worker/Steps/Reached.antt =====
-- The status of a job and its claim after the steps of the workers: go/internal/worker/job.go and
-- runner.go.
use rushes.Base.{
  ◌⊎◌, String, ℕ, Bool, true, false, List, Option, none, some, [], ◌∷◌, ◌≡◌, All, refl, inl, inr,
  Bool-cases, IfOk, IfOk-any, IfOk-of_eq, Result, ok, err, ◌&&◌, ◌||◌, not, leb_ℤ, ◌+ℤ◌, ltb_ℤ, pos,
  if◌then◌else◌, ◌+◌,
}
use rushes.Float.{Floats}
use rushes.Value.{Any}
use rushes.Jobs.{Job, is_running, job_at}
use rushes.Worker.Claim.{
  ClaimFilter, claim_matching, claim_row, claimable, first_row, one_sided, unclaimed,
  schedule_retry, requeued, still_stale, value,
}
use rushes.Reducer.JobEvents.{JobEvent, JobError, ClaimError, job_failed, job_succeeded, apply_job}
use rushes.Worker.Runner
use rushes.Worker.Steps.{◌⟶◌, ◌⟶*◌, claims, beats, finishes, recovers, stays, and_then}
use rushes.Worker.Steps.Coherent.{
  IsCoherent, Ends, update_jobs-All, claim_row-IsCoherent, heartbeat-IsCoherent, release-IsCoherent,
  retry-IsCoherent, apply_job-IsCoherent,
}

module _ {F : Type 0} ⦃fl : Floats F⦄ where
  lift_error-IsCoherent :
      (r : Result JobError (List (Job F)))
      → IfOk (All IsCoherent) r
      → IfOk (All IsCoherent) (Runner.lift_error r)
  unfolding Runner.lift_error
  lift_error-IsCoherent (ok rows) h = h
  lift_error-IsCoherent (err e) h = tt

  settled-IsCoherent :
      (rows : List (Job F)) (r : Result ClaimError (List (Job F)))
      → All IsCoherent rows
      → IfOk (All IsCoherent) r
      → IfOk (All IsCoherent) (Runner.settled rows r)
  unfolding Runner.settled
  settled-IsCoherent rows (ok rows') h k = k
  settled-IsCoherent rows (err ClaimError.incomplete_claim) h k = tt
  settled-IsCoherent rows (err ClaimError.artifact_mismatch) h k = tt
  settled-IsCoherent rows (err (ClaimError.job_error JobError.err_job_cancelled)) h k = h
  settled-IsCoherent rows (err (ClaimError.job_error JobError.err_job_claim_lost)) h k = h
  settled-IsCoherent rows (err (ClaimError.job_error JobError.missing_job_id)) h k = tt
  settled-IsCoherent rows (err (ClaimError.job_error JobError.no_rows)) h k = tt
  settled-IsCoherent rows (err (ClaimError.job_error JobError.err_job_not_cancellable)) h k = tt
  settled-IsCoherent rows (err (ClaimError.job_error JobError.constraint_failed)) h k = tt
  settled-IsCoherent rows (err (ClaimError.job_error (JobError.asset_error e))) h k = tt
  settled-IsCoherent rows (err (ClaimError.job_error (JobError.draft_missing d))) h k = tt

  emit-IsCoherent :
      (drafts : List String) (logged : JobEvent → String → Bool) (job : Job F) (event : JobEvent)
      (result failure : Any F) (created : String) (rows : List (Job F))
      → Ends event
      → All IsCoherent rows
      → IfOk (All IsCoherent) (
          Runner.settled rows
            (Runner.emit_terminal drafts logged job event result failure created rows))
  unfolding Runner.emit_terminal
  emit-IsCoherent drafts logged job event result failure created rows ends h =
      settled-IsCoherent rows _ h (
        IfOk-any (All IsCoherent) (Runner.check_claim job rows)
          (λ _.
            if logged event job.job_id
            then ok rows
            else Runner.lift_error (
                apply_job drafts event (value job.draft_id)
                  (Runner.terminal_payload job result failure) created rows))
          (λ _ _. either (Bool-cases (logged event job.job_id))))
    where
      either :
          (logged event job.job_id ≡ true) ⊎ (logged event job.job_id ≡ false)
          → IfOk (All IsCoherent) (
              if logged event job.job_id
              then ok rows
              else Runner.lift_error (
                  apply_job drafts event
                    (value job.draft_id)
                    (Runner.terminal_payload job result failure)
                    created
                    rows))
      either (inl e) = rw e h
      either (inr e) = rw e (
          lift_error-IsCoherent _ (
            apply_job-IsCoherent drafts event (value job.draft_id)
              (Runner.terminal_payload job result failure) created rows ends h))

  failure-IsCoherent :
      (drafts : List String) (logged : JobEvent → String → Bool) (job : Job F) (failure : Any F)
      (created : String) (rows : List (Job F))
      → All IsCoherent rows
      → IfOk (All IsCoherent) (Runner.fail_job drafts logged job failure created rows)
  unfolding Runner.fail_job
  failure-IsCoherent drafts logged job failure created rows h =
      emit-IsCoherent drafts logged job job_failed (Runner.option_value none) failure created rows
        tt h

  retry_job-IsCoherent :
      (drafts : List String) (logged : JobEvent → String → Bool) (job : Job F) (failure : Any F)
      (stamp : ℕ → String) (created : String) (rows : List (Job F)) (done : List (Job F) × Bool)
      → All IsCoherent done.0
      → IfOk (All IsCoherent) (Runner.retry_job drafts logged job failure stamp created rows done)
  unfolding Runner.retry_job
  retry_job-IsCoherent drafts logged job failure stamp created rows (rows', true) h = h
  retry_job-IsCoherent drafts logged job failure stamp created rows (rows', false) h =
      failure-IsCoherent drafts logged job failure created rows' h

  end-IsCoherent :
      (drafts : List String) (logged : JobEvent → String → Bool) (job : Job F)
      (end : Runner.HandlerEnd F) (stamp : ℕ → String) (created : String) (rows : List (Job F))
      → All IsCoherent rows
      → IfOk (All IsCoherent) (elim end [
        | Runner.returned result ↦ Runner.succeed_job drafts logged job result created rows
        | Runner.handler_failed failure canceled ↦
            Runner.after_failure drafts logged job failure canceled stamp created rows
      ])
  unfolding Runner.succeed_job Runner.after_failure
  end-IsCoherent drafts logged job (Runner.returned result) stamp created rows h =
      IfOk-any (All IsCoherent) _
        (λ _. Runner.settled rows (
          Runner.emit_terminal drafts logged job job_succeeded (Runner.option_value result)
            (Runner.option_value none) created rows))
        (λ _ _.
          emit-IsCoherent drafts logged job job_succeeded (Runner.option_value result)
            (Runner.option_value none) created rows tt h)
  end-IsCoherent drafts logged job (Runner.handler_failed failure canceled) stamp created rows h =
      elim (Bool-cases (not canceled && leb_ℤ (job.attempts +ℤ pos 1) job.max_retries)) [
        | inl e ↦ rw e (
            retry_job-IsCoherent drafts logged job failure stamp created rows
              (schedule_retry job stamp failure rows) (retry-IsCoherent job stamp failure rows h))
        | inr e ↦ rw e (failure-IsCoherent drafts logged job failure created rows h)
      ]

  finish-IsCoherent :
      (drafts : List String) (logged : JobEvent → String → Bool) (job : Job F)
      (end : Runner.HandlerEnd F) (stopped : Bool) (stamp : ℕ → String) (created : String)
      (rows : List (Job F)) (o : Option (Job F))
      → All IsCoherent rows
      → IfOk
          (All IsCoherent)
          (Runner.finish_stored drafts logged job end stopped stamp created rows o)
  unfolding Runner.finish_stored
  finish-IsCoherent drafts logged job end stopped stamp created rows none h = tt
  finish-IsCoherent drafts logged job end stopped stamp created rows (some stored) h =
      elim (Bool-cases (not (is_running stored.status) || not (Runner.same_claim stored job))) [
        | inl e ↦ rw e h
        | inr e ↦ elim (Bool-cases stopped) [
          | inl d ↦ rw (e, d) (release-IsCoherent job rows h)
          | inr d ↦ rw (e, d) (end-IsCoherent drafts logged job end stamp created rows h)
        ]
      ]

  CountedIsCoherent : List (Job F) × ℕ → Type 0
  CountedIsCoherent done = All IsCoherent done.0

  failed_count-IsCoherent :
      (rows : List (Job F)) (r : Result JobError (List (Job F)))
      → All IsCoherent rows
      → IfOk (All IsCoherent) r
      → IfOk CountedIsCoherent (Runner.failed_count rows r)
  unfolding Runner.failed_count CountedIsCoherent
  failed_count-IsCoherent rows (ok rows') h k = k
  failed_count-IsCoherent rows (err JobError.err_job_cancelled) h k = h
  failed_count-IsCoherent rows (err JobError.err_job_claim_lost) h k = h
  failed_count-IsCoherent rows (err JobError.missing_job_id) h k = tt
  failed_count-IsCoherent rows (err JobError.no_rows) h k = tt
  failed_count-IsCoherent rows (err JobError.err_job_not_cancellable) h k = tt
  failed_count-IsCoherent rows (err JobError.constraint_failed) h k = tt
  failed_count-IsCoherent rows (err (JobError.asset_error e)) h k = tt
  failed_count-IsCoherent rows (err (JobError.draft_missing d)) h k = tt

  recover_job-IsCoherent :
      (drafts : List String) (logged : JobEvent → String → Bool) (cutoff next : String)
      (job : Job F) (rows : List (Job F))
      → All IsCoherent rows
      → IfOk CountedIsCoherent (Runner.recover_job drafts logged cutoff next job rows)
  unfolding Runner.recover_job CountedIsCoherent requeued unclaimed
  recover_job-IsCoherent drafts logged cutoff next job rows h =
      elim (Bool-cases (ltb_ℤ job.max_retries (job.attempts +ℤ pos 1))) [
        | inl e ↦ elim (Bool-cases (logged job_failed job.job_id)) [
          | inl d ↦ rw (e, d) h
          | inr d ↦
              rw (e, d)
                (failed_count-IsCoherent rows _ h (
                  apply_job-IsCoherent drafts job_failed (value job.draft_id)
                    (Runner.stale_payload job (job.attempts +ℤ pos 1)) next rows tt h))
        ]
        | inr e ↦ rw e (
            update_jobs-All (still_stale cutoff job) (requeued (job.attempts +ℤ pos 1) next) rows
              (λ r _ _. (refl, refl, refl)) h)
      ]

  recover_each-IsCoherent :
      (drafts : List String) (logged : JobEvent → String → Bool) (cutoff next : String)
      (jobs rows : List (Job F)) (count : ℕ)
      → All IsCoherent rows
      → All IsCoherent (Runner.recover_each drafts logged cutoff next jobs rows count).table
  unfolding Runner.recover_each CountedIsCoherent
  recover_each-IsCoherent drafts logged cutoff next [] rows count h = h
  recover_each-IsCoherent drafts logged cutoff next (job ∷ jobs) rows count h =
      went_on (Runner.recover_job drafts logged cutoff next job rows)
        (recover_job-IsCoherent drafts logged cutoff next job rows h)
        (recover_each-IsCoherent drafts logged cutoff next jobs)
    where
      went_on :
          (r : Result JobError (List (Job F) × ℕ))
          → IfOk CountedIsCoherent r
          → ((rows : List (Job F)) (count : ℕ)
              → All IsCoherent rows
              → All IsCoherent
                  (Runner.recover_each drafts logged cutoff next jobs rows count).table)
          → All IsCoherent
              (elim r as (λ _. Runner.Recovery F) [
                | ok done ↦
                    Runner.recover_each drafts logged cutoff next jobs done.0 (count + done.1)
                | err e ↦ record { table = rows; recovered = count; failure = some e }
              ]).table
      went_on (ok done) k ih = ih done.0 (count + done.1) k
      went_on (err e) k ih = h

  claim-IsCoherent :
      (worker timestamp : String) (filter : ClaimFilter) (rows : List (Job F))
      → All IsCoherent rows
      → IfOk (λ done. All IsCoherent done.0) (claim_matching worker timestamp filter rows)
  unfolding claim_matching
  claim-IsCoherent worker timestamp filter rows h =
      IfOk-any (λ done. All IsCoherent done.0) (one_sided filter)
        (λ _. ok (claim_row worker timestamp rows (first_row (claimable timestamp filter) rows)))
        (λ _ _.
          claim_row-IsCoherent worker timestamp rows (first_row (claimable timestamp filter) rows)
            h)

  step-IsCoherent :
      {rows rows' : List (Job F)} → rows ⟶ rows' → All IsCoherent rows → All IsCoherent rows'
  unfolding Runner.finish_run Runner.recover_stale CountedIsCoherent
  step-IsCoherent (claims worker timestamp filter {rows} e) h =
      IfOk-of_eq (λ done. All IsCoherent done.0) (claim_matching worker timestamp filter rows)
        (claim-IsCoherent worker timestamp filter rows h) e
  step-IsCoherent (beats job timestamp {rows}) h = heartbeat-IsCoherent job timestamp rows h
  step-IsCoherent (finishes drafts logged job end stopped stamp created {rows} e) h =
      IfOk-of_eq (All IsCoherent)
        (Runner.finish_run drafts logged job end stopped stamp created rows)
        (finish-IsCoherent drafts logged job end stopped stamp created rows (job_at job.job_id rows)
          h)
        e
  step-IsCoherent (recovers drafts logged cutoff next {rows}) h =
      recover_each-IsCoherent drafts logged cutoff next _ rows 0 h

  -- However the workers' claims, heartbeats, ends of handlers and recoveries follow each other, every job
  -- that waits then has no claim, and every job that runs has a worker, a start and a heartbeat, if this
  -- was so before.
  pub steps-IsCoherent :
      {rows rows' : List (Job F)} → rows ⟶* rows' → All IsCoherent rows → All IsCoherent rows'
  steps-IsCoherent stays h = h
  steps-IsCoherent (and_then step rest) h = steps-IsCoherent rest (step-IsCoherent step h)
