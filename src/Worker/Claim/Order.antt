-- ===== src/Worker/Claim/Order.antt =====
-- Which job a claim takes: go/internal/worker/job.go (ClaimMatching).
use rushes.Base.{
  String, Bool, true, false, List, Option, none, some, [], ◌∷◌, ◌≡◌, All, Bool-cases, inl, inr, ok,
  refl, IfOk, IfOk-any, arith, if◌then◌else◌, ◌⊎◌, ◌&&◌, ◌∙◌, text_eq, text_eq_refl, text_eq_iff,
}
use rushes.Jobs.{Job, is_pending, update_jobs, job_at}
use rushes.Jobs.Rows.{updated, changed, job_at-update_jobs, job_at-job_id}
use rushes.Worker.Claim.{
  ClaimFilter, claimable, runs_before, first_row, claimed_row, claim_matching, claim_row, one_sided,
}
use rushes.Base.{◌≤ℤ◌}

module _ {F : Type 0} where
  -- No row that the test accepts is more urgent than the job.
  abbrev pub IsMostUrgent : (Job F → Bool) → Job F → List (Job F) → Type 0
  IsMostUrgent p job rows = All (λ r. p r ≡ true → job.priority ≤ℤ r.priority) rows

  -- The row is one of these.
  abbrev pub Among : Job F → List (Job F) → Type 0
  Among row [] = false ≡ true
  Among row (r ∷ rows) = (r ≡ row) ⊎ Among row rows

  abbrev IsChosen : (Job F → Bool) → List (Job F) → Option (Job F) → Type 0
  IsChosen p rows none = All (λ r. p r ≡ false) rows
  IsChosen p rows (some job) = Among job rows × (p job ≡ true) × IsMostUrgent p job rows

  before_urgent : (a b : Job F) → runs_before a b ≡ true → a.priority ≤ℤ b.priority
  unfolding runs_before
  before_urgent a b h = ground arith

  not_before_urgent : (a b : Job F) → runs_before a b ≡ false → b.priority ≤ℤ a.priority
  unfolding runs_before
  not_before_urgent a b h = ground arith

  as_urgent :
      (p : Job F → Bool) (a b : Job F) (rows : List (Job F))
      → a.priority ≤ℤ b.priority
      → IsMostUrgent p b rows
      → IsMostUrgent p a rows
  as_urgent p a b [] le h = tt
  as_urgent p a b (r ∷ rows) le (h, hs) = (one h, as_urgent p a b rows le hs)
    where
      one : (p r ≡ true → b.priority ≤ℤ r.priority) → p r ≡ true → a.priority ≤ℤ r.priority
      one k e = ordered (k e)
        where
          ordered : b.priority ≤ℤ r.priority → a.priority ≤ℤ r.priority
          ordered q = omega arith

  vacuous :
      (p : Job F → Bool) (a : Job F) (rows : List (Job F))
      → All (λ r. p r ≡ false) rows
      → IsMostUrgent p a rows
  vacuous p a [] h = tt
  vacuous p a (r ∷ rows) (h, hs) = ((λ e. absurd (cc (e, h))), vacuous p a rows hs)

  itself : (p : Job F → Bool) (a : Job F) → p a ≡ true → a.priority ≤ℤ a.priority
  itself p a e = omega arith

  preferred :
      (p : Job F → Bool) (row : Job F) (rows : List (Job F)) (best : Option (Job F))
      → p row ≡ true
      → IsChosen p rows best
      → IsChosen p
          (row ∷ rows)
          (elim best [ none ↦ some row | some b ↦ if runs_before b row then some b else some row ])
  preferred p row rows none e h = (inl refl, e, (itself p row, vacuous p row rows h))
  preferred p row rows (some b) e (m, c, h) = elim (Bool-cases (runs_before b row)) [
    | inl k ↦ rw k (inr m, c, ((λ _. before_urgent b row k), h))
    | inr k ↦
        rw k (inl refl, e, (itself p row, as_urgent p row b rows (not_before_urgent b row k) h))
  ]

  skipped :
      (p : Job F → Bool) (row : Job F) (rows : List (Job F)) (best : Option (Job F))
      → p row ≡ false
      → IsChosen p rows best
      → IsChosen p (row ∷ rows) best
  skipped p row rows none e h = (e, h)
  skipped p row rows (some b) e (m, c, h) = (inr m, c, ((λ k. absurd (cc (e, k))), h))

  first_row-IsChosen : (p : Job F → Bool) (rows : List (Job F)) → IsChosen p rows (first_row p rows)
  unfolding first_row
  first_row-IsChosen p [] = tt
  first_row-IsChosen p (row ∷ rows) = elim (Bool-cases (p row)) [
    | inl e ↦ rw e (preferred p row rows (first_row p rows) e (first_row-IsChosen p rows))
    | inr e ↦ rw e (skipped p row rows (first_row p rows) e (first_row-IsChosen p rows))
  ]

  -- No row with the ID is waiting any more.
  abbrev pub NoneWaits : String → List (Job F) → Type 0
  NoneWaits id rows = All (λ r. (text_eq r.job_id id && is_pending r.status) ≡ false) rows

  -- What a claim says of the table before it and after it.
  abbrev pub IsClaimOf :
      String → String → ClaimFilter → List (Job F) → List (Job F) × Option (Job F) → Type 0
  IsClaimOf worker timestamp filter rows (rows', none) =
      All (λ r. claimable timestamp filter r ≡ false) rows × (rows' ≡ rows)
  IsClaimOf worker timestamp filter rows (rows', some job) =
      (row : Job F) × Among row rows
      × (claimable timestamp filter row ≡ true)
      × IsMostUrgent (claimable timestamp filter) row rows
      × (job ≡ claimed_row worker timestamp row)
      × Among job rows'
      × NoneWaits row.job_id rows'
      × ((id : String) → text_eq row.job_id id ≡ false → job_at id rows' ≡ job_at id rows)

  claimable_waits :
      (timestamp : String) (filter : ClaimFilter) (row : Job F)
      → claimable timestamp filter row ≡ true
      → is_pending row.status ≡ true
  unfolding claimable
  claimable_waits timestamp filter row e = ground arith

  abbrev takes : Job F → Job F → Bool
  takes row r = text_eq r.job_id row.job_id && is_pending r.status

  taken-Among :
      (worker timestamp : String) (row : Job F) (rows : List (Job F))
      → is_pending row.status ≡ true
      → Among row rows
      → Among
          (claimed_row worker timestamp row)
          (update_jobs (takes row) (claimed_row worker timestamp) rows)
  unfolding update_jobs
  taken-Among worker timestamp row [] waits m = m
  taken-Among worker timestamp row (r ∷ rows) waits (inl e) =
      inl (rw e (rw (text_eq_refl row.job_id, waits) refl))
  taken-Among worker timestamp row (r ∷ rows) waits (inr m) =
      inr (taken-Among worker timestamp row rows waits m)

  none_waits :
      (worker timestamp : String) (row : Job F) (rows : List (Job F))
      → NoneWaits row.job_id (update_jobs (takes row) (claimed_row worker timestamp) rows)
  unfolding update_jobs claimed_row is_pending
  none_waits worker timestamp row [] = tt
  none_waits worker timestamp row (r ∷ rows) =
      (after (takes row r) refl, none_waits worker timestamp row rows)
    where
      after :
          (b : Bool)
          → takes row r ≡ b
          → takes row (if b then claimed_row worker timestamp r else r) ≡ false
      after true e = ground arith
      after false e = e

  others_kept :
      (worker timestamp : String) (row : Job F) (rows : List (Job F)) (id : String)
      → text_eq row.job_id id ≡ false
      → job_at id (update_jobs (takes row) (claimed_row worker timestamp) rows) ≡ job_at id rows
  unfolding claimed_row
  others_kept worker timestamp row rows id other =
      job_at-update_jobs (takes row) (claimed_row worker timestamp) id rows (λ r. refl)
      ∙ same (job_at id rows) refl
    where
      same :
          (o : Option (Job F))
          → job_at id rows ≡ o
          → changed (updated (takes row) (claimed_row worker timestamp)) o ≡ o
      same none e = refl
      same (some r) e = rw (differs r (job_at-job_id id rows e)) refl
        where
          differs : (r : Job F) → text_eq r.job_id id ≡ true → text_eq r.job_id row.job_id ≡ false
          differs r found = elim (Bool-cases (text_eq r.job_id row.job_id)) [
            | inr k ↦ k
            | inl k ↦ absurd (
                cc
                  ((text_eq_iff r.job_id row.job_id).0 k, (text_eq_iff r.job_id id).0 found, other))
          ]

  claim_row-IsClaimOf :
      (worker timestamp : String) (filter : ClaimFilter) (rows : List (Job F)) (o : Option (Job F))
      → IsChosen (claimable timestamp filter) rows o
      → IsClaimOf worker timestamp filter rows (claim_row worker timestamp rows o)
  unfolding claim_row
  claim_row-IsClaimOf worker timestamp filter rows none h = (h, refl)
  claim_row-IsClaimOf worker timestamp filter rows (some row) (m, c, h) = (
    row,
    m,
    c,
    h,
    refl,
    taken-Among worker timestamp row rows (claimable_waits timestamp filter row c) m,
    none_waits worker timestamp row rows,
    others_kept worker timestamp row rows,
  )

  -- A claim that finds no job leaves the table, and no row of it is pending, due and of a kind that the
  -- filter allows. A claim that finds one takes a row of the table that is all this, and no such row has
  -- a lower priority number; it returns the row marked as running for the worker since now, which is in
  -- the table after it; no row with the job's ID is pending there any more, and the rows of all other IDs
  -- are as before.
  pub claim_matching-IsClaimOf :
      (worker timestamp : String) (filter : ClaimFilter) (rows : List (Job F))
      → IfOk (IsClaimOf worker timestamp filter rows) (claim_matching worker timestamp filter rows)
  unfolding claim_matching
  claim_matching-IsClaimOf worker timestamp filter rows =
      IfOk-any (IsClaimOf worker timestamp filter rows) (one_sided filter)
        (λ _. ok (claim_row worker timestamp rows (first_row (claimable timestamp filter) rows)))
        (λ _ _.
          claim_row-IsClaimOf worker timestamp filter rows
            (first_row (claimable timestamp filter) rows)
            (first_row-IsChosen (claimable timestamp filter) rows))
