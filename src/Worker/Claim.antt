-- ===== src/Worker/Claim.antt =====
-- The claims of the worker on the table jobs: go/internal/worker/job.go. `stamp` is
-- `time.Format(time.RFC3339Nano)`, and the columns are compared as texts. A job that a function
-- returns is its row.
pub mod Order
use rushes.Base.{
  String, ℕ, Bool, true, false, ℤ, pos, List, Option, none, some, [], ◌∷◌, Result, ok, err,
  refuse_if, ◌>>◌, ◌&&◌, ◌||◌, not, text_eq, text_lt, member, ltb_ℤ, ◌==ℤ◌, if◌then◌else◌, ◌+ℤ◌,
  ◌-ℤ◌, ◌==◌, keep_if,
}
use rushes.Value.{Any, Fields}
use rushes.Jobs.{
  Job, pending, running, is_pending, is_running, column_is, column_same, update_jobs, rows_affected,
}
use rushes.Worker.Retry.{retry_delay}

pub record ClaimFilter : Type 0 where
  pub include_kinds : List String
  pub exclude_kinds : List String

is_empty : List String → Bool
is_empty [] = true
is_empty (k ∷ ks) = false

-- `kind IN (...)` or `kind NOT IN (...)`, or nothing.
unfoldable pub claim_kind_predicate : ClaimFilter → String → Bool
unfolding is_empty
claim_kind_predicate filter kind =
    if not (is_empty filter.include_kinds)
    then member kind filter.include_kinds
    else if not (is_empty filter.exclude_kinds)
    then not (member kind filter.exclude_kinds)
    else true

-- `value(pointer)`.
unfoldable pub value : Option String → String
value none = ""
value (some s) = s

-- The two sides of the filter must not both be given.
unfoldable pub one_sided : ClaimFilter → Result String (Unit {0})
unfolding is_empty
one_sided filter =
    refuse_if (not (is_empty filter.include_kinds) && not (is_empty filter.exclude_kinds))
      "job claim filter 不能同时 include 与 exclude"

module _ {F : Type 0} where
  unfoldable pub claimable : String → ClaimFilter → Job F → Bool
  unfolding claim_kind_predicate is_pending
  claimable timestamp filter row =
      is_pending row.status
      && not (text_lt timestamp row.next_run_at)
      && claim_kind_predicate filter row.kind

  -- `ORDER BY priority, created_at, job_id`.
  unfoldable pub runs_before : Job F → Job F → Bool
  runs_before a b =
      ltb_ℤ a.priority b.priority
      || (a.priority ==ℤ b.priority
          && (text_lt a.created_at b.created_at
              || (text_eq a.created_at b.created_at && text_lt a.job_id b.job_id)))

  -- `ORDER BY ... LIMIT 1` over the rows that the test accepts.
  unfoldable pub first_row : (Job F → Bool) → List (Job F) → Option (Job F)
  unfolding runs_before
  first_row p [] = none
  first_row p (row ∷ rows) =
      let best = first_row p rows in
      if p row
      then elim best [ none ↦ some row | some b ↦ if runs_before b row then some b else some row ]
      else best

  unfoldable pub claimed_row : String → String → Job F → Job F
  claimed_row worker timestamp row = record row {
    status = running;
    worker_id = some worker;
    started_at = some timestamp;
    heartbeat_at = some timestamp;
  }

  -- `UPDATE ... WHERE job_id=(...) AND status='pending' RETURNING ...`.
  unfoldable pub claim_row :
      String → String → List (Job F) → Option (Job F) → List (Job F) × Option (Job F)
  unfolding claimed_row update_jobs is_pending
  claim_row worker timestamp rows none = (rows, none)
  claim_row worker timestamp rows (some row) = (
    update_jobs (λ r. text_eq r.job_id row.job_id && is_pending r.status)
        (claimed_row worker timestamp) rows,
    some (claimed_row worker timestamp row),
  )

  unfoldable pub claim_matching :
      String → String → ClaimFilter → List (Job F) → Result String (List (Job F) × Option (Job F))
  unfolding one_sided first_row claimable claim_row
  claim_matching worker timestamp filter rows =
      one_sided filter
      >> ok (claim_row worker timestamp rows (first_row (claimable timestamp filter) rows))

  -- `WHERE job_id=? AND worker_id=? AND started_at=? AND status='running'`: the row that the caller
  -- claimed, and still holds.
  unfoldable pub holds : Job F → Job F → Bool
  unfolding column_is value is_running
  holds job row =
      text_eq row.job_id job.job_id
      && column_is row.worker_id (value job.worker_id)
      && column_is row.started_at (value job.started_at)
      && is_running row.status

  unfoldable pub beaten : String → Job F → Job F
  beaten timestamp row = record row { heartbeat_at = some timestamp }

  unfoldable pub heartbeat : Job F → String → List (Job F) → List (Job F) × Bool
  unfolding holds update_jobs beaten
  heartbeat job timestamp rows =
      (update_jobs (holds job) (beaten timestamp) rows, rows_affected (holds job) rows == 1)

  unfoldable pub unclaimed : Job F → Job F
  unclaimed row = record row {
    status = pending;
    worker_id = none;
    heartbeat_at = none;
    started_at = none;
  }

  unfoldable pub release_claim : Job F → List (Job F) → List (Job F) × Bool
  unfolding holds update_jobs unclaimed
  release_claim job rows =
      (update_jobs (holds job) unclaimed rows, rows_affected (holds job) rows == 1)

  unfoldable pub rescheduled : ℤ → String → Any F → Job F → Job F
  unfolding unclaimed
  rescheduled attempts next failure row = record (unclaimed row) {
    attempts = attempts;
    next_run_at = next;
    error_json = some failure;
  }

  -- `stamp` gives the text of `now` plus a number of seconds.
  unfoldable pub schedule_retry : Job F → (ℕ → String) → Any F → List (Job F) → List (Job F) × Bool
  unfolding holds update_jobs rescheduled retry_delay
  schedule_retry job stamp failure rows =
      let attempts = job.attempts +ℤ pos 1 in
      (
        update_jobs (holds job) (rescheduled attempts (stamp (retry_delay attempts)) failure) rows,
        rows_affected (holds job) rows == 1,
      )

  -- `status='running' AND (heartbeat_at IS NULL OR heartbeat_at<?)`.
  unfoldable pub is_stale : String → Job F → Bool
  unfolding is_running
  is_stale cutoff row =
      is_running row.status
      && elim row.heartbeat_at [ none ↦ true | some beat ↦ text_lt beat cutoff ]

  -- The row is as it was when it was found stale.
  unfoldable pub still_stale : String → Job F → Job F → Bool
  unfolding is_running column_same
  still_stale cutoff job row =
      text_eq row.job_id job.job_id
      && is_running row.status
      && column_same row.worker_id job.worker_id
      && column_same row.started_at job.started_at
      && column_same row.heartbeat_at job.heartbeat_at
      && elim row.heartbeat_at [ none ↦ true | some beat ↦ text_lt beat cutoff ]

  unfoldable pub requeued : ℤ → String → Job F → Job F
  unfolding unclaimed
  requeued attempts next row = record (unclaimed row) { attempts = attempts; next_run_at = next }
