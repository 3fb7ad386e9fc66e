-- ===== src/Reducer/JobEvents/Examples.antt =====
-- Examples of the theorems on the events of jobs (go/internal/reducer/reducer.go, applyJob).
use rushes.Base.{Result, List, pos, [], refl, IfOk, text_eq}
use rushes.Float.Fixed.{Fixed, fixed}
use rushes.Value.{Any, Fields, field, no_fields, lookup, value_at}
use rushes.Jobs.{Job, job_at, cancelled}
use rushes.Jobs.Sample.{some_jobs, waiting}
use rushes.Reducer.JobEvents.{
  apply_job, job_failed, job_progress, job_succeeded, string_from, JobError,
}
use rushes.Reducer.JobEvents.Cancelled.{IsCancelledAt, apply_job-IsCancelledAt}
use rushes.Reducer.JobEvents.Revival.{RunsAfter, apply_job-RunsAfter}

abbrev failure_payload : Fields Fixed
failure_payload = field "job_id" (Any.str "job_2") no_fields

apply_job-IsCancelledAt_example :
    IfOk
      (IsCancelledAt "job_4")
      (apply_job [] job_failed "" failure_payload "2026-01-01T00:00:20Z" some_jobs)
unfolding job_at text_eq
apply_job-IsCancelledAt_example =
    apply_job-IsCancelledAt [] job_failed "" failure_payload "2026-01-01T00:00:20Z" "job_4"
      some_jobs (record (waiting "job_4" "understand" (pos 10)) { status = cancelled }, refl, refl)

-- The report of a handler that is late: the job has succeeded meanwhile.
abbrev late_progress : Fields Fixed
late_progress = field "job_id" (Any.str "job_2") (
    field "worker_id" (Any.str "w") (field "started_at" (Any.str "2026-01-01T00:00:10Z") no_fields))

abbrev AfterSuccess : Result {0, 0} JobError (List (Job Fixed)) → Type 0
AfterSuccess = IfOk λ rows.
    RunsAfter (string_from (value_at "job_id" late_progress) "")
      (apply_job [] job_progress "" late_progress "2026-01-01T00:00:21Z" rows)

apply_job-RunsAfter_example :
    AfterSuccess (apply_job [] job_succeeded "" late_progress "2026-01-01T00:00:20Z" some_jobs)
unfolding lookup text_eq
apply_job-RunsAfter_example =
    apply_job-RunsAfter [] job_succeeded "" late_progress late_progress "2026-01-01T00:00:20Z"
      "2026-01-01T00:00:21Z" some_jobs tt
      (record { job = refl; worker = refl; start = refl; draft = (λ d. refl) }) refl
