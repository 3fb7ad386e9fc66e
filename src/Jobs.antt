-- ===== src/Jobs.antt =====
-- The table jobs, which the worker and the reducer share: go/internal/storage/schema.go and the
-- kinds of jobs of go/internal/contracts/jobs.go. A time in the table is a text.
pub mod Rows
pub mod Sample
use rushes.Base.{
  String, ℕ, Bool, true, false, ℤ, List, Option, none, some, [], ◌∷◌, text_eq, map, length, keep_if,
  if◌then◌else◌, ◌&&◌, text_lt, insert_sorted, stable_sort, find?,
}
use rushes.Value.{Any, Fields}

pub data JobStatus : Type 0 where
  pending : JobStatus
  running : JobStatus
  succeeded : JobStatus
  failed : JobStatus
  cancelled : JobStatus

pub record Job (F : Type 0) : Type 0 where
  pub job_id : String
  pub kind : String
  pub status : JobStatus
  pub draft_id : Option String
  pub requested_by_draft_id : Option String
  pub asset_id : Option String
  pub idempotency_key : String
  pub payload : Fields F
  pub result_json : Option (Any F)
  pub error_json : Option (Any F)
  pub attempts : ℤ
  pub max_retries : ℤ
  pub next_run_at : String
  pub priority : ℤ
  pub progress : Option F
  pub worker_id : Option String
  pub heartbeat_at : Option String
  pub created_at : String
  pub started_at : Option String
  pub finished_at : Option String

unfoldable pub is_pending : JobStatus → Bool
is_pending pending = true
is_pending _ = false

unfoldable pub is_running : JobStatus → Bool
is_running running = true
is_running _ = false

unfoldable pub is_cancelled : JobStatus → Bool
is_cancelled cancelled = true
is_cancelled _ = false

-- `column=?` in SQL, which no NULL satisfies.
unfoldable pub column_is : Option String → String → Bool
column_is none s = false
column_is (some t) s = text_eq t s

-- `column IS ?`.
unfoldable pub column_same : Option String → Option String → Bool
column_same none none = true
column_same (some s) (some t) = text_eq s t
column_same _ _ = false

module _ {F : Type 0} where
  -- `UPDATE jobs SET ... WHERE ...`.
  unfoldable pub update_jobs : (Job F → Bool) → (Job F → Job F) → List (Job F) → List (Job F)
  update_jobs p f rows = map (λ r. if p r then f r else r) rows

  -- `SELECT ... WHERE job_id=?`, which meets at most one row.
  unfoldable pub job_at : String → List (Job F) → Option (Job F)
  job_at job_id rows = find? (λ r. text_eq r.job_id job_id) rows

  -- The number of rows that such an update changes.
  abbrev pub rows_affected : (Job F → Bool) → List (Job F) → ℕ
  rows_affected p rows = length (keep_if p rows)

pub data JobExecutionClass : Type 0 where
  job_execution_general : JobExecutionClass
  job_execution_render : JobExecutionClass

pub record JobKindSpec : Type 0 where
  pub kind : String
  pub agent_waited : Bool
  pub progress_label : String
  pub execution_class : JobExecutionClass

abbrev kind_spec : String → String → JobExecutionClass → JobKindSpec
kind_spec kind label class = record {
  kind = kind;
  agent_waited = false;
  progress_label = label;
  execution_class = class;
}

unfoldable pub job_kind_registry : List JobKindSpec
job_kind_registry =
    kind_spec "ingest" "" job_execution_general
    ∷ kind_spec "understand" "理解素材" job_execution_general
    ∷ kind_spec "render_preview" "渲染预览" job_execution_render
    ∷ kind_spec "render_final" "渲染成片" job_execution_render
    ∷ []

unfoldable pub all_job_kind_specs : List JobKindSpec
unfolding job_kind_registry text_lt stable_sort
all_job_kind_specs = stable_sort (λ a b. text_lt a.kind b.kind) job_kind_registry

in_class : JobExecutionClass → JobExecutionClass → Bool
in_class job_execution_general job_execution_general = true
in_class job_execution_render job_execution_render = true
in_class _ _ = false

unfoldable pub job_kinds_by_execution_class : JobExecutionClass → List String
unfolding in_class all_job_kind_specs
job_kinds_by_execution_class class =
    map (λ s. s.kind) (keep_if (λ s. in_class s.execution_class class) all_job_kind_specs)
