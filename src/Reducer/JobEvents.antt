-- ===== src/Reducer/JobEvents.antt =====
-- What the events of a job do to its row: go/internal/reducer/reducer.go (applyJob, validateJobClaim).
-- Of the other tables that applyJob writes (assets, drafts.running_jobs_json) only the refusals are
-- modelled, which undo the event; `drafts` are the ids of the table drafts. The foreign keys of the new
-- row are not modelled.
pub mod Cancelled
pub mod Revival
mod Examples
use rushes.Base.{
  String, Bool, true, false, ℤ, pos, List, Option, none, some, [], ◌∷◌, Result, ok, err, refuse_if,
  ◌>>◌, ◌>>=◌, ◌&&◌, ◌||◌, not, text_eq, any, ◌++◌, member, if◌then◌else◌,
}
use rushes.Float.{Floats}
use rushes.Value.{Any, Fields, no_fields, lookup, value_at}
use rushes.Reducer.JobAsset.{AssetError, reconcile_understand_job_asset}
use rushes.Jobs.{
  Job, JobStatus, pending, running, succeeded, failed, cancelled, is_pending, is_running,
  is_cancelled, column_is, update_jobs, job_at,
}

pub data JobEvent : Type 0 where
  job_enqueued : JobEvent
  job_progress : JobEvent
  job_succeeded : JobEvent
  job_failed : JobEvent
  job_cancelled : JobEvent

pub data JobError : Type 0 where
  missing_job_id : JobError
  no_rows : JobError
  err_job_cancelled : JobError
  err_job_not_cancellable : JobError
  err_job_claim_lost : JobError
  constraint_failed : JobError
  asset_error : AssetError → JobError
  draft_missing : String → JobError

abbrev pub status_of : JobEvent → JobStatus
status_of job_enqueued = pending
status_of job_progress = running
status_of job_succeeded = succeeded
status_of job_failed = failed
status_of job_cancelled = cancelled

abbrev is_cancel : JobEvent → Bool
is_cancel job_cancelled = true
is_cancel _ = false

abbrev is_enqueue : JobEvent → Bool
is_enqueue job_enqueued = true
is_enqueue _ = false

abbrev is_terminal : JobStatus → Bool
is_terminal pending = false
is_terminal running = false
is_terminal _ = true

unfoldable pub lift_asset : Result AssetError (Unit {0}) → Result JobError (Unit {0})
lift_asset (ok u) = ok u
lift_asset (err e) = err (asset_error e)

-- `updateRunningJobs` with its `touch`, which refuses a draft that is not there.
unfoldable pub draft_known : List String → String → Result JobError (Unit {0})
draft_known drafts draft =
    refuse_if (not (text_eq draft "") && not (member draft drafts)) (draft_missing draft)

-- `COALESCE(?, column)`.
abbrev coalesce {ℓ} : {A : Type ℓ} → Option A → Option A → Option A
coalesce none old = old
coalesce (some v) old = some v

abbrev coalesce_int : Option ℤ → ℤ → ℤ
coalesce_int none old = old
coalesce_int (some v) old = v

module _ {F : Type 0} where
  unfoldable pub string_from : Any F → String → String
  string_from (Any.str s) fallback = if text_eq s "" then fallback else s
  string_from _ fallback = fallback

  unfoldable pub nullable_string : Any F → Option String
  nullable_string (Any.str s) = if text_eq s "" then none else some s
  nullable_string _ = none

  map_value : Any F → Fields F
  map_value (Any.object m) = m
  map_value _ = no_fields

  nullable_json : Any F → Option (Any F)
  nullable_json Any.null = none
  nullable_json v = some v

  -- The claim that an event names: no claim, or a worker and a start that must be the row's.
  unfoldable pub claim_lost : Fields F → Job F → Bool
  unfolding value_at string_from column_is
  claim_lost payload row =
      let worker = string_from (value_at "worker_id" payload) "" in
      let started = string_from (value_at "started_at" payload) "" in
      (not (text_eq worker "") || not (text_eq started ""))
      && not (column_is row.worker_id worker && column_is row.started_at started)

  -- The heartbeat that an event names, where it has the key.
  unfoldable pub heartbeat_differs : Option (Any F) → Job F → Bool
  unfolding string_from column_is is_running
  heartbeat_differs none row = false
  heartbeat_differs (some v) row =
      let expected = string_from v "" in
      not (is_running row.status)
      || (if text_eq expected ""
          then elim row.heartbeat_at [ none ↦ false | some beat ↦ true ]
          else not (column_is row.heartbeat_at expected))

  unfoldable pub heartbeat_lost : Fields F → Job F → Bool
  unfolding lookup heartbeat_differs
  heartbeat_lost payload row = heartbeat_differs (lookup "heartbeat_at" payload) row

  unfoldable pub check_job : JobEvent → Fields F → Job F → Result JobError (Unit {0})
  unfolding is_cancelled is_pending is_running claim_lost heartbeat_lost
  check_job event payload row =
      refuse_if (is_cancelled row.status && not (is_cancel event)) err_job_cancelled
      >> refuse_if
          (is_cancel event
            && not (is_pending row.status)
            && not (is_running row.status)
            && not (is_cancelled row.status))
          err_job_not_cancellable
      >> refuse_if (claim_lost payload row) err_job_claim_lost
      >> refuse_if (heartbeat_lost payload row) err_job_claim_lost

module _ {F : Type 0} ⦃fl : Floats F⦄ where
  open fl use {of_int, to_int}

  int_from : Any F → ℤ → ℤ
  int_from (Any.int n) fallback = n
  int_from (Any.int64 n) fallback = n
  int_from (Any.float64 x) fallback = to_int x
  int_from _ fallback = fallback

  nullable_int : Any F → Option ℤ
  nullable_int (Any.int n) = some n
  nullable_int (Any.int64 n) = some n
  nullable_int (Any.float64 x) = some (to_int x)
  nullable_int _ = none

  nullable_float : Any F → Option F
  nullable_float (Any.float64 x) = some x
  nullable_float (Any.float32 x) = some x
  nullable_float (Any.int n) = some (of_int n)
  nullable_float _ = none

  new_job : String → String → Fields F → String → Job F
  unfolding value_at string_from nullable_string map_value int_from nullable_float
  new_job job_id draft payload created = record {
    job_id = job_id;
    kind = string_from (value_at "kind" payload) "unknown";
    status = pending;
    draft_id = if text_eq draft "" then none else some draft;
    requested_by_draft_id = nullable_string (value_at "requested_by_draft_id" payload);
    asset_id = nullable_string (value_at "asset_id" payload);
    idempotency_key = string_from (value_at "idempotency_key" payload) job_id;
    payload = map_value (value_at "job_payload" payload);
    result_json = none;
    error_json = none;
    attempts = int_from (value_at "attempts" payload) (pos 0);
    max_retries = int_from (value_at "max_retries" payload) (pos 0);
    next_run_at = string_from (value_at "next_run_at" payload) created;
    priority = int_from (value_at "priority" payload) (pos 100);
    progress = nullable_float (value_at "progress" payload);
    worker_id = none;
    heartbeat_at = none;
    created_at = created;
    started_at = none;
    finished_at = none;
  }

  -- `job_id TEXT PRIMARY KEY` and `UNIQUE(kind, idempotency_key)`.
  clashes : Job F → Job F → Bool
  clashes new row =
      text_eq row.job_id new.job_id
      || (text_eq row.kind new.kind && text_eq row.idempotency_key new.idempotency_key)

  enqueue_job : Job F → List (Job F) → Result JobError (List (Job F))
  unfolding clashes
  enqueue_job new rows =
      refuse_if (any (clashes new) rows) constraint_failed >> ok (rows ++ new ∷ [])

  -- `UPDATE jobs SET status=?, progress=COALESCE(?, progress), ...`.
  unfoldable pub marked : JobEvent → Fields F → String → Job F → Job F
  unfolding value_at nullable_float nullable_json nullable_int
  marked event payload created row = record row {
    status = status_of event;
    progress = coalesce (nullable_float (value_at "progress" payload)) row.progress;
    result_json = coalesce (nullable_json (value_at "result" payload)) row.result_json;
    error_json = coalesce (nullable_json (value_at "error" payload)) row.error_json;
    attempts = coalesce_int (nullable_int (value_at "attempts" payload)) row.attempts;
    finished_at =
        coalesce (if is_terminal (status_of event) then some created else none) row.finished_at;
  }

  -- The event on the row that the search for its job gives.
  unfoldable pub mark_job :
      JobEvent
      → Fields F
      → String
      → String
      → List (Job F)
      → Option (Job F)
      → Result JobError (List (Job F))
  unfolding check_job marked update_jobs
  mark_job event payload created job_id rows none = err no_rows
  mark_job event payload created job_id rows (some row) =
      check_job event payload row
      >> ok (update_jobs (λ r. text_eq r.job_id job_id) (marked event payload created) rows)

  unfoldable pub by_kind :
      JobEvent → String → Fields F → String → String → List (Job F) → Result JobError (List (Job F))
  unfolding enqueue_job new_job mark_job job_at
  by_kind job_enqueued draft payload created job_id rows =
      enqueue_job (new_job job_id draft payload created) rows
  by_kind event draft payload created job_id rows =
      mark_job event payload created job_id rows (job_at job_id rows)

  -- `reconcileUnderstandJobAsset`, from the job's row after the write.
  unfoldable pub asset_known : JobEvent → Option (Job F) → Result JobError (Unit {0})
  unfolding reconcile_understand_job_asset lift_asset
  asset_known event none = err no_rows
  asset_known event (some row) = lift_asset (reconcile_understand_job_asset (is_enqueue event) row)

  -- The draft that lists the job among its running ones.
  unfoldable pub requesting_draft : String → Fields F → String
  unfolding value_at string_from
  requesting_draft draft payload = string_from (value_at "requested_by_draft_id" payload) draft

  unfoldable pub apply_job :
      List String
      → JobEvent
      → String
      → Fields F
      → String
      → List (Job F)
      → Result JobError (List (Job F))
  unfolding value_at string_from by_kind asset_known requesting_draft draft_known job_at
  apply_job drafts event draft payload created rows =
      let job_id = string_from (value_at "job_id" payload) "" in
      refuse_if (text_eq job_id "") missing_job_id
      >> (by_kind event draft payload created job_id rows >>= λ rows'.
          asset_known event (job_at job_id rows')
          >> (draft_known drafts (requesting_draft draft payload) >> ok rows'))

-- The claim that a worker hands to the reducer with its results. `artifact_mismatch` is the worker's own
-- refusal of a result.
pub record JobClaim : Type 0 where
  pub job_id : String
  pub worker_id : String
  pub started_at : String

pub data ClaimError : Type 0 where
  incomplete_claim : ClaimError
  job_error : JobError → ClaimError
  artifact_mismatch : ClaimError

module _ {F : Type 0} where
  unfoldable pub claimed_by : JobClaim → Option (Job F) → Result ClaimError (Unit {0})
  unfolding is_cancelled is_running column_is
  claimed_by claim none = err (job_error no_rows)
  claimed_by claim (some row) =
      refuse_if (is_cancelled row.status) (job_error err_job_cancelled)
      >> refuse_if
          (not (is_running row.status)
            || not (column_is row.worker_id claim.worker_id)
            || not (column_is row.started_at claim.started_at))
          (job_error err_job_claim_lost)

  unfoldable pub validate_job_claim : JobClaim → List (Job F) → Result ClaimError (Unit {0})
  unfolding claimed_by job_at
  validate_job_claim claim rows =
      refuse_if
        (text_eq claim.job_id "" || text_eq claim.worker_id "" || text_eq claim.started_at "")
        incomplete_claim
      >> claimed_by claim (job_at claim.job_id rows)
