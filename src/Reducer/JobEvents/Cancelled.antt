-- ===== src/Reducer/JobEvents/Cancelled.antt =====
-- A cancelled job and the later events: go/internal/reducer/reducer.go (applyJob).
use rushes.Base.{
  String, true, false, List, Option, none, some, [], ◌∷◌, ◌≡◌, Bool-cases, inl, inr, text_eq, refl,
  ap, sym, subst, text_eq_iff, IfOk-bind, ◌∙◌, IfOk, IfOk-any, ok, err, IfOk-refuse_if, ◌++◌, any,
  Result,
}
use rushes.Float.{Floats}
use rushes.Value.{Fields, value_at}
use rushes.Jobs.{Job, cancelled, job_at, update_jobs, is_cancelled}
use rushes.Jobs.Rows.{updated, changed, job_at-update_jobs, job_at-append, job_at-job_id}
use rushes.Reducer.JobEvents.{
  JobEvent, JobError, job_enqueued, job_progress, job_succeeded, job_failed, job_cancelled, marked,
  mark_job, check_job, enqueue_job, clashes, new_job, by_kind, apply_job, missing_job_id,
  string_from, constraint_failed, status_of, asset_known, draft_known, requesting_draft,
}

passes : (m : Result JobError (Unit {0})) → IfOk (λ _. cancelled ≡ cancelled) m
passes (ok a) = refl
passes (err e) = tt

module _ {F : Type 0} ⦃fl : Floats F⦄ where
  abbrev pub IsCancelledAt : String → List (Job F) → Type 0
  IsCancelledAt id rows = (row : Job F) × (job_at id rows ≡ some row) × (row.status ≡ cancelled)

  -- Only another cancellation passes the checks of a cancelled row.
  check_cancelled :
      (event : JobEvent) (payload : Fields F) (row : Job F)
      → row.status ≡ cancelled
      → IfOk (λ _. status_of event ≡ cancelled) (check_job event payload row)
  unfolding check_job is_cancelled
  check_cancelled job_cancelled payload row e = passes (check_job job_cancelled payload row)
  check_cancelled job_enqueued payload row e = rw e tt
  check_cancelled job_progress payload row e = rw e tt
  check_cancelled job_succeeded payload row e = rw e tt
  check_cancelled job_failed payload row e = rw e tt

  marked_id :
      (event : JobEvent) (payload : Fields F) (created : String) (r : Job F)
      → (marked event payload created r).job_id ≡ r.job_id
  unfolding marked
  marked_id event payload created r = refl

  mark_job-IsCancelledAt :
      (event : JobEvent) (payload : Fields F) (created id target : String) (rows : List (Job F))
      (row : Job F) (o : Option (Job F))
      → job_at target rows ≡ o
      → job_at id rows ≡ some row
      → row.status ≡ cancelled
      → IfOk (IsCancelledAt id) (mark_job event payload created target rows o)
  unfolding mark_job marked
  mark_job-IsCancelledAt event payload created id target rows row none t e c = tt
  mark_job-IsCancelledAt event payload created id target rows row (some r) t e c =
      elim (Bool-cases (text_eq row.job_id target)) [
        | inl k ↦
            IfOk-bind (λ _. status_of event ≡ cancelled) (IsCancelledAt id)
              (check_job event payload r)
              (λ _.
                ok (update_jobs (λ r. text_eq r.job_id target) (marked event payload created) rows))
              (check_cancelled event payload r (same_row k))
              (λ _ s. (marked event payload created row, found ∙ hit k, s))
        | inr k ↦
            IfOk-any (IsCancelledAt id) (check_job event payload r)
              (λ _.
                ok (update_jobs (λ r. text_eq r.job_id target) (marked event payload created) rows))
              (λ _ _. (row, found ∙ missed k, c))
      ]
    where
      new_row : Job F
      new_row = updated (λ r. text_eq r.job_id target) (marked event payload created) row

      found :
          job_at id (update_jobs (λ r. text_eq r.job_id target) (marked event payload created) rows)
          ≡ some new_row
      found =
          job_at-update_jobs (λ r. text_eq r.job_id target) (marked event payload created) id rows
            (marked_id event payload created)
          ∙ ap (changed (updated (λ r. text_eq r.job_id target) (marked event payload created))) e

      hit :
          text_eq row.job_id target ≡ true → some new_row ≡ some (marked event payload created row)
      hit k = rw k refl

      missed : text_eq row.job_id target ≡ false → some new_row ≡ some row
      missed k = rw k refl

      same_row : text_eq row.job_id target ≡ true → r.status ≡ cancelled
      same_row k = subst (λ s. s.status ≡ cancelled) (only together) c
        where
          together : some row ≡ some r
          together =
              sym e
              ∙ ap (λ j. job_at j rows)
                  (sym ((text_eq_iff row.job_id id).0 (job_at-job_id id rows e))
                    ∙ (text_eq_iff row.job_id target).0 k)
              ∙ t

          only : {a b : Job F} → some a ≡ some b → a ≡ b
          only {a} p = ap (λ o. elim o [ none ↦ a | some r ↦ r ]) p

  by_kind-IsCancelledAt :
      (event : JobEvent) (draft : String) (payload : Fields F) (created id target : String)
      (rows : List (Job F)) (row : Job F)
      → job_at id rows ≡ some row
      → row.status ≡ cancelled
      → IfOk (IsCancelledAt id) (by_kind event draft payload created target rows)
  unfolding by_kind enqueue_job
  by_kind-IsCancelledAt job_enqueued draft payload created id target rows row e c =
      IfOk-refuse_if (IsCancelledAt id) (any (clashes (new_job target draft payload created)) rows)
        constraint_failed (ok (rows ++ new_job target draft payload created ∷ []))
        (λ _. (row, job_at-append id rows _ e, c))
  by_kind-IsCancelledAt job_progress draft payload created id target rows row e c =
      mark_job-IsCancelledAt job_progress payload created id target rows row _ refl e c
  by_kind-IsCancelledAt job_succeeded draft payload created id target rows row e c =
      mark_job-IsCancelledAt job_succeeded payload created id target rows row _ refl e c
  by_kind-IsCancelledAt job_failed draft payload created id target rows row e c =
      mark_job-IsCancelledAt job_failed payload created id target rows row _ refl e c
  by_kind-IsCancelledAt job_cancelled draft payload created id target rows row e c =
      mark_job-IsCancelledAt job_cancelled payload created id target rows row _ refl e c

  -- A cancelled job stays cancelled: after any job event that succeeds, of this job or of another, its
  -- row is there and is cancelled.
  pub apply_job-IsCancelledAt :
      (drafts : List String) (event : JobEvent) (draft : String) (payload : Fields F)
      (created id : String) (rows : List (Job F))
      → IsCancelledAt id rows
      → IfOk (IsCancelledAt id) (apply_job drafts event draft payload created rows)
  unfolding apply_job
  apply_job-IsCancelledAt drafts event draft payload created id rows (row, e, c) =
      let target = string_from (value_at "job_id" payload) "" in
      IfOk-refuse_if (IsCancelledAt id) (text_eq target "") missing_job_id _ λ _.
        IfOk-bind (IsCancelledAt id) (IsCancelledAt id)
          (by_kind event draft payload created target rows) _
          (by_kind-IsCancelledAt event draft payload created id target rows row e c)
          λ rows' kept.
            IfOk-any (IsCancelledAt id) (asset_known event (job_at target rows')) _ λ _ _.
              IfOk-any (IsCancelledAt id) (draft_known drafts (requesting_draft draft payload)) _
                λ _ _. kept
