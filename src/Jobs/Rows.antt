-- ===== src/Jobs/Rows.antt =====
-- The row of a job after an update of the table jobs (go/internal/storage/schema.go).
use rushes.Base.{
  String, Bool, true, List, Option, none, some, [], ◌∷◌, ◌≡◌, Bool-cases, inl, inr, text_eq, map,
  refl, ap, ◌++◌, if◌then◌else◌, subst,
}
use rushes.Jobs.{Job, update_jobs, job_at}

module _ {F : Type 0} where
  abbrev pub updated : (Job F → Bool) → (Job F → Job F) → Job F → Job F
  updated p f r = if p r then f r else r

  abbrev pub changed : (Job F → Job F) → Option (Job F) → Option (Job F)
  changed g none = none
  changed g (some r) = some (g r)

  job_at-map :
      (g : Job F → Job F) (id : String) (rows : List (Job F))
      → ((r : Job F) → (g r).job_id ≡ r.job_id)
      → job_at id (map g rows) ≡ changed g (job_at id rows)
  unfolding job_at
  job_at-map g id [] same = refl
  job_at-map g id (x ∷ xs) same = elim (Bool-cases (text_eq x.job_id id)) [
    | inl e ↦ rw (renamed x, e) refl
    | inr e ↦ rw (renamed x, e) (job_at-map g id xs same)
  ]
    where
      renamed : (r : Job F) → text_eq (g r).job_id id ≡ text_eq r.job_id id
      renamed r = ap (λ d. text_eq d id) (same r)

  -- An update that keeps the ids gives each job its updated row.
  pub job_at-update_jobs :
      (p : Job F → Bool) (f : Job F → Job F) (id : String) (rows : List (Job F))
      → ((r : Job F) → (f r).job_id ≡ r.job_id)
      → job_at id (update_jobs p f rows) ≡ changed (updated p f) (job_at id rows)
  unfolding update_jobs
  job_at-update_jobs p f id rows same = job_at-map (updated p f) id rows kept
    where
      kept : (r : Job F) → (updated p f r).job_id ≡ r.job_id
      kept r = elim (Bool-cases (p r)) [ inl e ↦ rw e (same r) | inr e ↦ rw e refl ]

  pub job_at-append :
      (id : String) (rows new : List (Job F)) {row : Job F}
      → job_at id rows ≡ some row
      → job_at id (rows ++ new) ≡ some row
  unfolding job_at
  job_at-append id [] new e = absurd (cc e)
  job_at-append id (x ∷ xs) new e = elim (Bool-cases (text_eq x.job_id id)) [
    | inl k ↦ rw k (rw k at e)
    | inr k ↦ rw k (job_at-append id xs new (rw k at e))
  ]

  pub job_at-job_id :
      (id : String) (rows : List (Job F)) {row : Job F}
      → job_at id rows ≡ some row
      → text_eq row.job_id id ≡ true
  unfolding job_at
  job_at-job_id id [] e = absurd (cc e)
  job_at-job_id id (x ∷ xs) e = elim (Bool-cases (text_eq x.job_id id)) [
    | inl k ↦ subst (λ r. text_eq r.job_id id ≡ true) (taken (rw k at e)) k
    | inr k ↦ job_at-job_id id xs (rw k at e)
  ]
    where
      taken : {a b : Job F} → some a ≡ some b → a ≡ b
      taken {a} e = ap (λ o. elim o [ none ↦ a | some r ↦ r ]) e
