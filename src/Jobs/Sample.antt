-- ===== src/Jobs/Sample.antt =====
-- Rows of the table jobs to evaluate the model on.
use rushes.Base.{String, pos, none, some, [], ◌∷◌, List, ℤ}
use rushes.Float.Fixed.{Fixed}
use rushes.Value.{no_fields}
use rushes.Jobs.{Job, JobStatus, pending, running, cancelled}

abbrev pub waiting : String → String → ℤ → Job Fixed
waiting id kind priority = record {
  job_id = id;
  kind = kind;
  status = pending;
  draft_id = none;
  requested_by_draft_id = none;
  asset_id = none;
  idempotency_key = id;
  payload = no_fields;
  result_json = none;
  error_json = none;
  attempts = pos 0;
  max_retries = pos 2;
  next_run_at = "2026-01-01T00:00:00Z";
  priority = priority;
  progress = none;
  worker_id = none;
  heartbeat_at = none;
  created_at = "2026-01-01T00:00:00Z";
  started_at = none;
  finished_at = none;
}

abbrev pub claimed : JobStatus → Job Fixed
claimed status = record (waiting "job_2" "ingest" (pos 100)) {
  status = status;
  worker_id = some "w";
  started_at = some "2026-01-01T00:00:10Z";
  heartbeat_at = some "2026-01-01T00:00:10Z";
}

abbrev pub some_jobs : List (Job Fixed)
some_jobs =
    waiting "job_1" "render_final" (pos 100)
    ∷ claimed running
    ∷ waiting "job_3" "ingest" (pos 50)
    ∷ record (waiting "job_4" "understand" (pos 10)) { status = cancelled }
    ∷ []
