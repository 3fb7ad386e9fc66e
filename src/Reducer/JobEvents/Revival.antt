-- ===== src/Reducer/JobEvents/Revival.antt =====
-- A progress event and the status of its job: go/internal/reducer/reducer.go (applyJob).
use rushes.Base.{
  Option, String, false, List, some, none, ◌≡◌, refl, text_eq, Result, ok, err, ap, ◌∙◌, true,
  subst, sym, IfOk, IfOk-bind, IfOk-any, IfOk-refuse_if, Bool, refuse_if, ◌>>◌, ◌&&◌, not,
}
use rushes.Float.{Floats}
use rushes.Value.{Fields, value_at, lookup}
use rushes.Jobs.{Job, running, job_at, is_cancelled, is_pending, is_running, update_jobs}
use rushes.Jobs.Rows.{updated, changed, job_at-update_jobs, job_at-job_id}
use rushes.Reducer.JobEvents.{
  JobEvent, JobError, job_progress, job_succeeded, job_failed, job_enqueued, job_cancelled, marked,
  mark_job, check_job, by_kind, apply_job, string_from, claim_lost, heartbeat_lost,
  heartbeat_differs, asset_known, lift_asset, draft_known, requesting_draft, status_of, is_enqueue,
  is_cancel, missing_job_id, err_job_cancelled, err_job_not_cancellable, err_job_claim_lost,
}
use rushes.Reducer.JobAsset.{AssetError, reconcile_understand_job_asset}

-- The two events by which a run ends a job.
abbrev pub EndsRun : JobEvent → Type 0
EndsRun job_succeeded = Unit
EndsRun job_failed = Unit
EndsRun _ = false ≡ true

third_test :
    (a b c d : Bool)
    → IfOk
        (λ _. c ≡ false)
        (refuse_if a err_job_cancelled
          >> refuse_if b err_job_not_cancellable
          >> refuse_if c err_job_claim_lost
          >> refuse_if d err_job_claim_lost)
third_test true b c d = tt
third_test false true c d = tt
third_test false false true d = tt
third_test false false false true = tt
third_test false false false false = refl

lift_asset-ok : (r : Result AssetError (Unit {0})) {u : Unit {0}} → lift_asset r ≡ ok u → r ≡ ok tt
unfolding lift_asset
lift_asset-ok (ok u) e = refl
lift_asset-ok (err x) e = cc

draft_known-ok :
    (drafts : List String) (draft : String) {u : Unit {0}}
    → draft_known drafts draft ≡ ok u
    → draft_known drafts draft ≡ ok tt
draft_known-ok drafts draft e = e

not_cancelled : (event : JobEvent) → EndsRun event → is_cancelled (status_of event) ≡ false
unfolding is_cancelled
not_cancelled job_succeeded ends = refl
not_cancelled job_failed ends = refl
not_cancelled job_enqueued ends = refl
not_cancelled job_progress ends = refl
not_cancelled job_cancelled ends = absurd (cc ends)

not_enqueue : (event : JobEvent) → EndsRun event → is_enqueue event ≡ false
not_enqueue job_succeeded ends = refl
not_enqueue job_failed ends = refl
not_enqueue job_enqueued ends = absurd (cc ends)
not_enqueue job_progress ends = refl
not_enqueue job_cancelled ends = refl

module _ {F : Type 0} ⦃fl : Floats F⦄ where
  -- The events leave a job that is there and running.
  abbrev pub RunsAfter : String → Result {0, 0} JobError (List (Job F)) → Type 0
  RunsAfter id result =
      (rows : List (Job F)) × (result ≡ ok rows)
      × (row : Job F) × (job_at id rows ≡ some row)
      × (row.status ≡ running)

  progress_row :
      (payload : Fields F) (created id : String) (rows : List (Job F)) (row : Job F)
      → job_at id rows ≡ some row
      → job_at id
          (update_jobs (λ r. text_eq r.job_id id) (marked job_progress payload created) rows)
        ≡ some (marked job_progress payload created row)
  unfolding marked
  progress_row payload created id rows row e =
      job_at-update_jobs (λ r. text_eq r.job_id id) (marked job_progress payload created) id rows
        (λ r. refl)
      ∙ ap (changed (updated (λ r. text_eq r.job_id id) (marked job_progress payload created))) e
      ∙ rw (job_at-job_id id rows e) refl

  no_heartbeat :
      (payload : Fields F) (row : Job F)
      → lookup "heartbeat_at" payload ≡ none
      → heartbeat_lost payload row ≡ false
  unfolding heartbeat_lost heartbeat_differs
  no_heartbeat payload row e = ap (λ o. heartbeat_differs o row) e

  progress_runs :
      (drafts : List String) (draft : String) (payload : Fields F) (created : String)
      (rows : List (Job F)) (row : Job F)
      → text_eq (string_from (value_at "job_id" payload) "") "" ≡ false
      → job_at (string_from (value_at "job_id" payload) "") rows ≡ some row
      → is_cancelled row.status ≡ false
      → claim_lost payload row ≡ false
      → lookup "heartbeat_at" payload ≡ none
      → reconcile_understand_job_asset false row ≡ ok tt
      → draft_known drafts (requesting_draft draft payload) ≡ ok tt
      → RunsAfter
          (string_from (value_at "job_id" payload) "")
          (apply_job drafts job_progress draft payload created rows)
  unfolding apply_job by_kind mark_job check_job marked asset_known reconcile_understand_job_asset
  progress_runs drafts draft payload created rows row named e alive held silent asset there = (
    update_jobs (λ r. text_eq r.job_id (string_from (value_at "job_id" payload) ""))
        (marked job_progress payload created) rows,
    rw
        (
          named,
          e,
          alive,
          held,
          no_heartbeat payload row silent,
          progress_row payload created (string_from (value_at "job_id" payload) "") rows row e,
          known,
          there,
        )
        refl,
    marked job_progress payload created row,
    progress_row payload created (string_from (value_at "job_id" payload) "") rows row e,
    refl,
  )
    where
      known :
          lift_asset
            (reconcile_understand_job_asset false (marked job_progress payload created row))
          ≡ ok tt
      known = ap lift_asset asset

  -- Two payloads that name one job, one claim of it and one draft.
  pub record SameClaim (p q : Fields F) : Type 0 where
    pub job : string_from (value_at "job_id" q) "" ≡ string_from (value_at "job_id" p) ""
    pub worker : string_from (value_at "worker_id" q) "" ≡ string_from (value_at "worker_id" p) ""
    pub start : string_from (value_at "started_at" q) "" ≡ string_from (value_at "started_at" p) ""
    pub draft : (d : String) → requesting_draft d q ≡ requesting_draft d p

  -- The row that an end of the job leaves.
  IsEnded : String → Fields F → List (Job F) → Type 0
  IsEnded id p rows =
      (row : Job F) × (job_at id rows ≡ some row)
      × (is_cancelled row.status ≡ false)
      × (claim_lost p row ≡ false)

  check_job-claim :
      (event : JobEvent) (p : Fields F) (row : Job F)
      → IfOk (λ _. claim_lost p row ≡ false) (check_job event p row)
  unfolding check_job
  check_job-claim event p row =
      third_test (is_cancelled row.status && not (is_cancel event))
        (is_cancel event
          && not (is_pending row.status)
          && not (is_running row.status)
          && not (is_cancelled row.status))
        (claim_lost p row) (heartbeat_lost p row)

  ended_row :
      (event : JobEvent) (p : Fields F) (created id : String) (rows : List (Job F)) (row : Job F)
      → job_at id rows ≡ some row
      → job_at id (update_jobs (λ r. text_eq r.job_id id) (marked event p created) rows)
        ≡ some (marked event p created row)
  unfolding marked
  ended_row event p created id rows row e =
      job_at-update_jobs (λ r. text_eq r.job_id id) (marked event p created) id rows (λ r. refl)
      ∙ ap (changed (updated (λ r. text_eq r.job_id id) (marked event p created))) e
      ∙ rw (job_at-job_id id rows e) refl

  mark_job-IsEnded :
      (event : JobEvent) (p : Fields F) (created id : String) (rows : List (Job F))
      (o : Option (Job F))
      → EndsRun event
      → job_at id rows ≡ o
      → IfOk (IsEnded id p) (mark_job event p created id rows o)
  unfolding mark_job IsEnded marked claim_lost
  mark_job-IsEnded event p created id rows none ends e = tt
  mark_job-IsEnded event p created id rows (some row) ends e =
      IfOk-bind (λ _. claim_lost p row ≡ false) _ (check_job event p row) _
        (check_job-claim event p row)
        λ _ held. (
          marked event p created row,
          ended_row event p created id rows row e,
          not_cancelled event ends,
          held,
        )

  by_kind-IsEnded :
      (event : JobEvent) (draft : String) (p : Fields F) (created id : String) (rows : List (Job F))
      → EndsRun event
      → IfOk (IsEnded id p) (by_kind event draft p created id rows)
  unfolding by_kind
  by_kind-IsEnded job_succeeded draft p created id rows ends =
      mark_job-IsEnded job_succeeded p created id rows (job_at id rows) ends refl
  by_kind-IsEnded job_failed draft p created id rows ends =
      mark_job-IsEnded job_failed p created id rows (job_at id rows) ends refl
  by_kind-IsEnded job_enqueued draft p created id rows ends = absurd (cc ends)
  by_kind-IsEnded job_progress draft p created id rows ends = absurd (cc ends)
  by_kind-IsEnded job_cancelled draft p created id rows ends = absurd (cc ends)

  claim_lost-SameClaim :
      (p q : Fields F) (row : Job F) → SameClaim p q → claim_lost q row ≡ claim_lost p row
  unfolding claim_lost
  claim_lost-SameClaim p q row same = rw (same.worker, same.start) refl

  asset_of :
      (event : JobEvent) (o : Option (Job F)) (row : Job F) {u : Unit {0}}
      → EndsRun event
      → o ≡ some row
      → asset_known event o ≡ ok u
      → reconcile_understand_job_asset false row ≡ ok tt
  unfolding asset_known
  asset_of event none row ends found e = absurd (cc found)
  asset_of event (some r) row ends found e = of_row same
    where
      same : r ≡ row
      same = cc found

      held : reconcile_understand_job_asset (is_enqueue event) r ≡ ok tt
      held = lift_asset-ok (reconcile_understand_job_asset (is_enqueue event) r) e

      of_row : r ≡ row → reconcile_understand_job_asset false row ≡ ok tt
      of_row q =
          ap (λ b. reconcile_understand_job_asset b row) (sym (not_enqueue event ends))
          ∙ ap (λ r. reconcile_understand_job_asset (is_enqueue event) r) (sym q)
          ∙ held

  -- Once an event that ends a job in success or failure has been applied, a progress event of the same
  -- claim, for the same draft and without a heartbeat, is applied as well, and the job that was finished
  -- is running again.
  pub apply_job-RunsAfter :
      (drafts : List String) (event : JobEvent) (draft : String) (p q : Fields F)
      (created later : String) (rows : List (Job F))
      → EndsRun event
      → SameClaim p q
      → lookup "heartbeat_at" q ≡ none
      → IfOk
          (λ rows'.
            RunsAfter
              (string_from (value_at "job_id" q) "")
              (apply_job drafts job_progress draft q later rows'))
          (apply_job drafts event draft p created rows)
  unfolding apply_job IsEnded
  apply_job-RunsAfter drafts event draft p q created later rows ends same silent =
      let id = string_from (value_at "job_id" p) "" in
      IfOk-refuse_if _ (text_eq id "") missing_job_id _ λ named.
        IfOk-bind (IsEnded id p) _ (by_kind event draft p created id rows) _
          (by_kind-IsEnded event draft p created id rows ends)
          λ rows' ended. IfOk-any _ (asset_known event (job_at id rows')) _ λ u asset.
            IfOk-any _ (draft_known drafts (requesting_draft draft p)) _ λ v there.
              progress_runs drafts draft q later rows' ended.0
                (subst (λ s. text_eq s "" ≡ false) (sym same.job) named)
                (subst (λ s. job_at s rows' ≡ some ended.0) (sym same.job) ended.1) ended.2
                (claim_lost-SameClaim p q ended.0 same ∙ ended.3) silent
                (asset_of event (job_at id rows') ended.0 ends ended.1 asset)
                (subst (λ s. draft_known drafts s ≡ ok tt) (sym (same.draft draft))
                  (draft_known-ok drafts (requesting_draft draft p) there))
