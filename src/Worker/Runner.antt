-- ===== src/Worker/Runner.antt =====
-- The runner of the worker: go/internal/worker/runner.go and RecoverStale of job.go. A duration is in
-- nanoseconds. The handlers, the goroutines and the metrics are not modelled: `finish_run` starts
-- when the handler has returned and the heartbeats have stopped.
pub mod Lanes
pub mod Attempts
mod Examples
use rushes.Base.{
  String, ℕ, zero, suc, Bool, true, false, ℤ, pos, List, Option, none, some, [], ◌∷◌, Result, ok,
  err, refuse_if, ◌>>◌, ◌>>=◌, ◌&&◌, ◌||◌, not, text_eq, ltb_ℤ, leb_ℤ, ◌==ℤ◌, if◌then◌else◌, ◌+ℤ◌,
  ◌-◌, ◌==◌, half, pos_part, ◌<>◌, itoa, keep_if, text_lt, stable_sort, ◌+◌,
}
use rushes.Float.{Floats}
use rushes.Value.{Any, Fields, field, no_fields, value_at, string_value}
use rushes.Jobs.{
  Job, running, is_running, job_at, job_execution_render, job_kinds_by_execution_class, update_jobs,
  rows_affected,
}
use rushes.Worker.Claim.{
  ClaimFilter, value, release_claim, schedule_retry, is_stale, still_stale, requeued,
}
use rushes.Reducer.JobEvents.{
  JobClaim, JobError, ClaimError, job_error, apply_job, validate_job_claim, job_failed,
  job_succeeded, err_job_cancelled, err_job_claim_lost, JobEvent, no_rows, artifact_mismatch,
}

pub record RunnerConfig : Type 0 where
  pub has_database : Bool
  pub has_registry : Bool
  pub worker_id : String
  pub concurrency : ℤ
  pub poll_interval : ℤ
  pub heartbeat_interval : ℤ
  pub heartbeat_timeout : ℤ

pub record Runner : Type 0 where
  pub worker_id : String
  pub concurrency : ℤ
  pub poll_interval : ℤ
  pub heartbeat_interval : ℤ
  pub heartbeat_timeout : ℤ

-- The value, or the default where it is not positive.
abbrev positive_or : ℤ → ℤ → ℤ
positive_or n default = if leb_ℤ n (pos 0) then default else n

-- `nanos` is the clock, for the name of a worker without one.
with_defaults : ℤ → RunnerConfig → Runner
with_defaults nanos config = record {
  worker_id = if text_eq config.worker_id "" then "worker_" <> itoa nanos else config.worker_id;
  concurrency = positive_or config.concurrency (pos 2);
  poll_interval = positive_or config.poll_interval (pos 250000000);
  heartbeat_interval = positive_or config.heartbeat_interval (pos 5000000000);
  heartbeat_timeout = positive_or config.heartbeat_timeout (pos 60000000000);
}

check_heartbeat : Runner → Result String Runner
check_heartbeat runner =
    refuse_if (ltb_ℤ (half runner.heartbeat_timeout) runner.heartbeat_interval)
      "worker heartbeat interval 必须不超过 timeout 的一半"
    >> ok runner

unfoldable pub new_runner : ℤ → RunnerConfig → Result String Runner
unfolding with_defaults check_heartbeat
new_runner nanos config =
    refuse_if (not config.has_database || not config.has_registry) "worker 缺少数据库或 registry"
    >> check_heartbeat (with_defaults nanos config)

pub record ClaimLane : Type 0 where
  pub filter : ClaimFilter
  pub worker_id : String

no_filter : ClaimFilter
no_filter = record { include_kinds = []; exclude_kinds = [] }

abbrev pub render_kinds : List String
unfolding job_kinds_by_execution_class
render_kinds = job_kinds_by_execution_class job_execution_render

-- The lanes from this index on.
general_lanes : String → ℕ → ℕ → List ClaimLane
general_lanes worker zero index = []
general_lanes worker (suc count) index =
    record {
      filter = record { include_kinds = []; exclude_kinds = render_kinds };
      worker_id = worker <> ":general:" <> itoa (pos index);
    }
    ∷ general_lanes worker count (suc index)

unfoldable pub claim_lanes : Runner → List ClaimLane
unfolding no_filter general_lanes
claim_lanes runner =
    if runner.concurrency ==ℤ pos 1
    then record { filter = no_filter; worker_id = runner.worker_id } ∷ []
    else record {
      filter = record { include_kinds = render_kinds; exclude_kinds = [] };
      worker_id = runner.worker_id <> ":render";
    }
      ∷ general_lanes runner.worker_id (pos_part runner.concurrency - 1) 1

-- How the handler of a job ends; the flag says that the context was cancelled.
pub data HandlerEnd (F : Type 0) : Type 0 where
  returned : Option (Fields F) → HandlerEnd F
  handler_failed : Any F → Bool → HandlerEnd F

-- What a recovery leaves: the table, the number of recovered jobs, and the error that ended it.
pub record Recovery (F : Type 0) : Type 0 where
  pub table : List (Job F)
  pub recovered : ℕ
  pub failure : Option JobError

module _ {F : Type 0} where
  -- `sameClaim(stored, job)`.
  unfoldable pub same_claim : Job F → Job F → Bool
  same_claim left right =
      both left.worker_id right.worker_id && both left.started_at right.started_at
    where
      both : Option String → Option String → Bool
      both (some a) (some b) = text_eq a b
      both _ _ = false

  render_artifact_id : Job F → String
  render_artifact_id job =
      (if text_eq job.kind "render_final" then "export" else "preview") <> "_" <> job.job_id

  -- The result of a render job must name the artifact of the job.
  unfoldable pub artifact_matches : Job F → Option (Fields F) → Bool
  unfolding render_artifact_id value_at string_value
  artifact_matches job result =
      not (text_eq job.kind "render_preview" || text_eq job.kind "render_final") || elim result [
        | none ↦ false
        | some m ↦ text_eq (string_value (value_at "artifact_id" m)) (render_artifact_id job)
      ]

  -- A nil `map[string]any` in an `any` is not nil: it stands here as a map without fields.
  unfoldable pub option_value : Option (Fields F) → Any F
  option_value none = Any.object no_fields
  option_value (some m) = Any.object m

module _ {F : Type 0} ⦃fl : Floats F⦄ where
  open fl use {of_int}

  unfoldable pub terminal_payload : Job F → Any F → Any F → Fields F
  unfolding value
  terminal_payload job result failure = field "job_id" (Any.str job.job_id) (
      field "kind" (Any.str job.kind) (
        field "asset_id" (Any.str (value job.asset_id)) (
          field "requested_by_draft_id" (Any.str (value job.requested_by_draft_id)) (
            field "worker_id" (Any.str (value job.worker_id)) (
              field "started_at" (Any.str (value job.started_at)) (
                field "progress" (Any.float64 (of_int (pos 1)))
                  (field "result" result (field "error" failure no_fields))))))))

  -- `claimedJobOptions`: the claim is checked where the job has one.
  unfoldable pub check_claim : Job F → List (Job F) → Result ClaimError (Unit {0})
  unfolding validate_job_claim
  check_claim job rows = elim job.worker_id [
    | none ↦ ok tt
    | some worker ↦ elim job.started_at [
      | none ↦ ok tt
      | some started ↦
          validate_job_claim
            (record { job_id = job.job_id; worker_id = worker; started_at = started }) rows
    ]
  ]

  unfoldable pub lift_error : Result JobError (List (Job F)) → Result ClaimError (List (Job F))
  lift_error (ok rows) = ok rows
  lift_error (err e) = err (job_error e)

  -- `emitTerminal`, on the table jobs. `logged` says that the event log has such an event of the job
  -- already, which the reducer then skips.
  unfoldable pub emit_terminal :
      List String
      → (JobEvent → String → Bool)
      → Job F
      → JobEvent
      → Any F
      → Any F
      → String
      → List (Job F)
      → Result ClaimError (List (Job F))
  unfolding check_claim lift_error apply_job terminal_payload value
  emit_terminal drafts logged job event result failure created rows =
      check_claim job rows
      >> (if logged event job.job_id
          then ok rows
          else lift_error (
              apply_job drafts event (value job.draft_id) (terminal_payload job result failure)
                created rows))

  -- A cancelled job and a lost claim are no errors of the run; any error leaves the table.
  unfoldable pub settled :
      List (Job F) → Result ClaimError (List (Job F)) → Result ClaimError (List (Job F))
  settled rows (ok rows') = ok rows'
  settled rows (err (job_error err_job_cancelled)) = ok rows
  settled rows (err (job_error err_job_claim_lost)) = ok rows
  settled rows (err e) = err e

  -- The job's end in a failure that is not retried, or in success.
  unfoldable pub fail_job :
      List String
      → (JobEvent → String → Bool)
      → Job F
      → Any F
      → String
      → List (Job F)
      → Result ClaimError (List (Job F))
  unfolding emit_terminal settled option_value
  fail_job drafts logged job failure created rows =
      settled rows
        (emit_terminal drafts logged job job_failed (option_value none) failure created rows)

  unfoldable pub succeed_job :
      List String
      → (JobEvent → String → Bool)
      → Job F
      → Option (Fields F)
      → String
      → List (Job F)
      → Result ClaimError (List (Job F))
  unfolding emit_terminal settled artifact_matches option_value
  succeed_job drafts logged job result created rows =
      refuse_if (not (artifact_matches job result)) artifact_mismatch
      >> settled rows (
          emit_terminal drafts logged job job_succeeded (option_value result) (option_value none)
            created rows)

  -- `stamp` gives the text of now plus a number of seconds.
  unfoldable pub retry_job :
      List String
      → (JobEvent → String → Bool)
      → Job F
      → Any F
      → (ℕ → String)
      → String
      → List (Job F)
      → List (Job F) × Bool
      → Result ClaimError (List (Job F))
  unfolding fail_job
  retry_job drafts logged job failure stamp created rows (rows', true) = ok rows'
  retry_job drafts logged job failure stamp created rows (rows', false) =
      fail_job drafts logged job failure created rows'

  unfoldable pub after_failure :
      List String
      → (JobEvent → String → Bool)
      → Job F
      → Any F
      → Bool
      → (ℕ → String)
      → String
      → List (Job F)
      → Result ClaimError (List (Job F))
  unfolding schedule_retry retry_job fail_job
  after_failure drafts logged job failure canceled stamp created rows =
      if not canceled && leb_ℤ (job.attempts +ℤ pos 1) job.max_retries
      then retry_job drafts logged job failure stamp created rows
          (schedule_retry job stamp failure rows)
      else fail_job drafts logged job failure created rows

  -- The table after the end of a handler, from the row that `GetJob` reads; `stopped` says that the
  -- worker is being shut down.
  unfoldable pub finish_stored :
      List String
      → (JobEvent → String → Bool)
      → Job F
      → HandlerEnd F
      → Bool
      → (ℕ → String)
      → String
      → List (Job F)
      → Option (Job F)
      → Result ClaimError (List (Job F))
  unfolding same_claim is_running release_claim after_failure succeed_job
  finish_stored drafts logged job end stopped stamp created rows none = err (job_error no_rows)
  finish_stored drafts logged job end stopped stamp created rows (some stored) =
      if not (is_running stored.status) || not (same_claim stored job)
      then ok rows
      else if stopped
      then ok (release_claim job rows).0
      else elim end [
        | returned result ↦ succeed_job drafts logged job result created rows
        | handler_failed failure canceled ↦
            after_failure drafts logged job failure canceled stamp created rows
      ]

  unfoldable pub finish_run :
      List String
      → (JobEvent → String → Bool)
      → Job F
      → HandlerEnd F
      → Bool
      → (ℕ → String)
      → String
      → List (Job F)
      → Result ClaimError (List (Job F))
  unfolding finish_stored job_at
  finish_run drafts logged job end stopped stamp created rows =
      finish_stored drafts logged job end stopped stamp created rows (job_at job.job_id rows)

  stale_failure : Job F → Fields F
  unfolding value
  stale_failure job = field "error_code" (Any.str "stale_recovery_exhausted") (
      field "message" (Any.str "job 心跳过期且重试额度已耗尽") (
        field "worker_id" (Any.str (value job.worker_id))
          (field "heartbeat_at" (Any.str (value job.heartbeat_at)) no_fields)))

  unfoldable pub stale_payload : Job F → ℤ → Fields F
  unfolding value stale_failure
  stale_payload job attempts = field "job_id" (Any.str job.job_id) (
      field "kind" (Any.str job.kind) (
        field "asset_id" (Any.str (value job.asset_id)) (
          field "requested_by_draft_id" (Any.str (value job.requested_by_draft_id)) (
            field "worker_id" (Any.str (value job.worker_id)) (
              field "started_at" (Any.str (value job.started_at)) (
                field "heartbeat_at" (Any.str (value job.heartbeat_at)) (
                  field "attempts" (Any.int attempts) (
                    field "progress" (Any.float64 (of_int (pos 1)))
                      (field "error" (Any.object (stale_failure job)) no_fields)))))))))

  -- An exhausted job whose claim changed meanwhile, or that was cancelled, is passed over.
  unfoldable pub failed_count :
      List (Job F) → Result JobError (List (Job F)) → Result JobError (List (Job F) × ℕ)
  failed_count rows (ok rows') = ok (rows', 1)
  failed_count rows (err err_job_cancelled) = ok (rows, 0)
  failed_count rows (err err_job_claim_lost) = ok (rows, 0)
  failed_count rows (err e) = err e

  -- One turn of the loop of `RecoverStale`, for a row that was found stale.
  unfoldable pub recover_job :
      List String
      → (JobEvent → String → Bool)
      → String
      → String
      → Job F
      → List (Job F)
      → Result JobError (List (Job F) × ℕ)
  unfolding failed_count apply_job stale_payload value update_jobs still_stale requeued
  recover_job drafts logged cutoff next job rows =
      let attempts = job.attempts +ℤ pos 1 in
      if ltb_ℤ job.max_retries attempts
      then if logged job_failed job.job_id
        then ok (rows, 0)
        else failed_count rows (
            apply_job drafts job_failed (value job.draft_id) (stale_payload job attempts) next rows)
      else ok (
        update_jobs (still_stale cutoff job) (requeued attempts next) rows,
        rows_affected (still_stale cutoff job) rows,
      )

  -- An error keeps the updates of the jobs before it, which are committed one by one.
  unfoldable pub recover_each :
      List String
      → (JobEvent → String → Bool)
      → String
      → String
      → List (Job F)
      → List (Job F)
      → ℕ
      → Recovery F
  unfolding recover_job
  recover_each drafts logged cutoff next [] rows count = record {
    table = rows;
    recovered = count;
    failure = none;
  }
  recover_each drafts logged cutoff next (job ∷ jobs) rows count =
      elim (recover_job drafts logged cutoff next job rows) [
        | ok done ↦ recover_each drafts logged cutoff next jobs done.0 (count + done.1)
        | err e ↦ record { table = rows; recovered = count; failure = some e }
      ]

  -- `ORDER BY job_id`. The rows are read once, before the loop.
  unfoldable pub recover_stale :
      List String → (JobEvent → String → Bool) → String → String → List (Job F) → Recovery F
  unfolding recover_each is_stale text_lt stable_sort
  recover_stale drafts logged cutoff next rows =
      recover_each drafts logged cutoff next
        (stable_sort (λ a b. text_lt a.job_id b.job_id) (keep_if (is_stale cutoff) rows)) rows 0
