-- ===== src/Reducer/Lease/Lock.antt =====
-- The table agent_edit_leases as one optional lock for each draft
-- (go/internal/reducer/agent_edit_lease_rows.go).
use rushes.Base.{
  String, Bool, false, ℤ, Option, none, some, [], ◌∷◌, ◌≡◌, All, inl, inr, ap, IfOk, IfOk-refuse_if,
  IfOk-bind, IfOk-any, IfOk-refuse_next, Bool-cases, text_eq, text_eq_iff, text_eq_refl, ok,
  keep_if, map, ◌++◌, if◌then◌else◌, not, ◌&&◌, refl, sym, ◌∙◌, leb_ℤ, ltb_ℤ, refuse_if, ◌>>◌, any,
  ◌||◌,
}
use rushes.Reducer.Lease.{
  AgentEditLease, AgentEditLeaseMutation, Leases, acquire, renew, release, expire_stale,
  other_operation, owns, extended, granted, token_elsewhere, replace_row, upsert, acquire_lease,
  row_of, renewed_row, renewable, renew_lease, release_lease, expire_leases, run_operation,
  persist_agent_edit_lease_mutation, AgentEditLeaseOperation, AgentEditLeaseOutcome, time_of,
  timeline_locked_by_agent, constraint_failed, acquire_fields, renew_fields, one_renewed, reread,
  renewed_outcome, release_fields, released_rows, outcome_of, get_agent_edit_lease,
  agent_edit_lease_lost,
}
use rushes.Reducer.Lease.Keys.{Apart, IsKeyed}

-- What an operation that succeeds does to the lock of one draft.
unfoldable pub lock_step :
    AgentEditLeaseOperation
    → AgentEditLeaseMutation
    → ℤ
    → String
    → Option AgentEditLease
    → Option AgentEditLease
lock_step acquire m now draft held = if text_eq m.draft_id draft then some (granted m now) else held
lock_step renew m now draft none = none
lock_step renew m now draft (some held) =
    some (if owns m held && ltb_ℤ now held.expires_at then extended m now held else held)
lock_step release m now draft none = none
lock_step release m now draft (some held) = if not (owns m held) then some held else none
lock_step expire_stale m now draft none = none
lock_step expire_stale m now draft (some held) =
    if not (leb_ℤ held.expires_at now) then some held else none
lock_step (other_operation s) m now draft held = held

-- The rows of other drafts do not matter to the row of a draft.
pub no_second_row :
    (draft : String) (x : AgentEditLease) (rows : Leases)
    → x.draft_id ≡ draft
    → All (Apart x) rows
    → row_of draft rows ≡ none
unfolding row_of
no_second_row draft x [] e h = refl
no_second_row draft x (r ∷ rows) e ((d, _), hs) = elim (Bool-cases (text_eq r.draft_id draft)) [
  | inl c ↦ absurd (d (e ∙ sym ((text_eq_iff r.draft_id draft).0 c)))
  | inr c ↦ rw c (no_second_row draft x rows e hs)
]

abbrev pub filtered : (AgentEditLease → Bool) → Option AgentEditLease → Option AgentEditLease
filtered p none = none
filtered p (some r) = if p r then some r else none

pub row_of-keep_if :
    (p : AgentEditLease → Bool) (draft : String) (rows : Leases)
    → IsKeyed rows
    → row_of draft (keep_if p rows) ≡ filtered p (row_of draft rows)
unfolding row_of
row_of-keep_if p draft [] h = refl
row_of-keep_if p draft (x ∷ xs) (h, hs) = elim (Bool-cases (text_eq x.draft_id draft)) [
  | inl e ↦ elim (Bool-cases (p x)) [
    | inl k ↦ rw (e, k, e) refl
    | inr k ↦
        rw (e, k)
          (row_of-keep_if p draft xs hs
            ∙ ap (filtered p) (no_second_row draft x xs ((text_eq_iff x.draft_id draft).0 e) h))
  ]
  | inr e ↦ elim (Bool-cases (p x)) [
    | inl k ↦ rw (e, k, e) (row_of-keep_if p draft xs hs)
    | inr k ↦ rw (e, k) (row_of-keep_if p draft xs hs)
  ]
]

abbrev changed : (AgentEditLease → AgentEditLease) → Option AgentEditLease → Option AgentEditLease
changed f none = none
changed f (some r) = some (f r)

row_of-map :
    (f : AgentEditLease → AgentEditLease) (draft : String) (rows : Leases)
    → ((r : AgentEditLease) → (f r).draft_id ≡ r.draft_id)
    → row_of draft (map f rows) ≡ changed f (row_of draft rows)
unfolding row_of
row_of-map f draft [] same = refl
row_of-map f draft (x ∷ xs) same = elim (Bool-cases (text_eq x.draft_id draft)) [
  | inl e ↦ rw (renamed x, e) refl
  | inr e ↦ rw (renamed x, e) (row_of-map f draft xs same)
]
  where
    renamed : (r : AgentEditLease) → text_eq (f r).draft_id draft ≡ text_eq r.draft_id draft
    renamed r = ap (λ d. text_eq d draft) (same r)

renewed_draft :
    (m : AgentEditLeaseMutation) (now : ℤ) (r : AgentEditLease)
    → (renewed_row m now r).draft_id ≡ r.draft_id
unfolding renewed_row extended
renewed_draft m now r = elim (Bool-cases (renewable m now r)) [
  | inl e ↦ rw e refl
  | inr e ↦ rw e refl
]

-- A write of one draft's row leaves the others, and a new row at the end is the draft's row.
replaced_other :
    (new : AgentEditLease) (draft : String) (rows : Leases)
    → text_eq new.draft_id draft ≡ false
    → row_of draft (replace_row new rows) ≡ row_of draft rows
unfolding row_of replace_row
replaced_other new draft [] other = refl
replaced_other new draft (x ∷ xs) other = elim (Bool-cases (text_eq x.draft_id new.draft_id)) [
  | inl e ↦
      rw (e, other, ap (λ d. text_eq d draft) ((text_eq_iff x.draft_id new.draft_id).0 e) ∙ other)
        (replaced_other new draft xs other)
  | inr e ↦ elim (Bool-cases (text_eq x.draft_id draft)) [
    | inl d ↦ rw (e, d) refl
    | inr d ↦ rw (e, d) (replaced_other new draft xs other)
  ]
]

replaced_same :
    (new : AgentEditLease) (rows : Leases) {held : AgentEditLease}
    → row_of new.draft_id rows ≡ some held
    → row_of new.draft_id (replace_row new rows) ≡ some new
unfolding row_of replace_row
replaced_same new [] h = absurd (cc h)
replaced_same new (x ∷ xs) h = elim (Bool-cases (text_eq x.draft_id new.draft_id)) [
  | inl e ↦ rw (e, text_eq_refl new.draft_id) refl
  | inr e ↦ rw (e, e) (replaced_same new xs (rw e at h))
]

added_other :
    (new : AgentEditLease) (draft : String) (rows : Leases)
    → text_eq new.draft_id draft ≡ false
    → row_of draft (rows ++ new ∷ []) ≡ row_of draft rows
unfolding row_of
added_other new draft [] other = rw other refl
added_other new draft (x ∷ xs) other = elim (Bool-cases (text_eq x.draft_id draft)) [
  | inl d ↦ rw d refl
  | inr d ↦ rw d (added_other new draft xs other)
]

added_same :
    (new : AgentEditLease) (rows : Leases)
    → row_of new.draft_id rows ≡ none
    → row_of new.draft_id (rows ++ new ∷ []) ≡ some new
unfolding row_of
added_same new [] h = rw (text_eq_refl new.draft_id) refl
added_same new (x ∷ xs) h = elim (Bool-cases (text_eq x.draft_id new.draft_id)) [
  | inl e ↦ absurd (cc (rw e at h))
  | inr e ↦ rw e (added_same new xs (rw e at h))
]

-- A table that gives a draft the new row and the others their old one.
written :
    (new : AgentEditLease) (draft : String) (rows rows' : Leases)
    → row_of new.draft_id rows' ≡ some new
    → (text_eq new.draft_id draft ≡ false → row_of draft rows' ≡ row_of draft rows)
    → row_of draft rows' ≡ (if text_eq new.draft_id draft then some new else row_of draft rows)
written new draft rows rows' same other = elim (Bool-cases (text_eq new.draft_id draft)) [
  | inl e ↦ rw e (ap (λ d. row_of d rows') (sym ((text_eq_iff new.draft_id draft).0 e)) ∙ same)
  | inr e ↦ rw e (other e)
]

upsert-lock :
    (known : String → Bool) (m : AgentEditLeaseMutation) (now : ℤ) (draft : String) (rows : Leases)
    (o : Option AgentEditLease)
    → row_of m.draft_id rows ≡ o
    → IfOk
        (λ rows'. row_of draft rows' ≡ lock_step acquire m now draft (row_of draft rows))
        (upsert known m now o rows)
unfolding upsert granted lock_step
upsert-lock known m now draft rows none e =
    IfOk-refuse_if _ (any (token_elsewhere m) rows || not (known m.draft_id)) constraint_failed
      (ok (rows ++ granted m now ∷ []))
      (λ _.
        written (granted m now) draft rows _ (added_same (granted m now) rows e)
          (added_other (granted m now) draft rows))
upsert-lock known m now draft rows (some held) e =
    IfOk-refuse_next _ (refuse_if (not (leb_ℤ held.expires_at now)) timeline_locked_by_agent)
      (any (token_elsewhere m) rows) constraint_failed (ok (replace_row (granted m now) rows))
      (λ _.
        written (granted m now) draft rows _ (replaced_same (granted m now) rows e)
          (replaced_other (granted m now) draft rows))

abbrev pub FollowsLock :
    AgentEditLeaseOperation
    → AgentEditLeaseMutation
    → ℤ
    → String
    → Leases
    → Leases × AgentEditLeaseOutcome
    → Type 0
FollowsLock op m now draft rows done =
    row_of draft done.0 ≡ lock_step op m now draft (row_of draft rows)

changed-renewed :
    (m : AgentEditLeaseMutation) (now : ℤ) (draft : String) (o : Option AgentEditLease)
    → changed (renewed_row m now) o ≡ lock_step renew m now draft o
unfolding lock_step renewed_row
changed-renewed m now draft none = refl
changed-renewed m now draft (some held) = refl

filtered-released :
    (m : AgentEditLeaseMutation) (now : ℤ) (draft : String) (o : Option AgentEditLease)
    → filtered (λ r. not (owns m r)) o ≡ lock_step release m now draft o
unfolding lock_step
filtered-released m now draft none = refl
filtered-released m now draft (some held) = refl

filtered-expired :
    (m : AgentEditLeaseMutation) (now : ℤ) (draft : String) (o : Option AgentEditLease)
    → filtered (λ r. not (leb_ℤ r.expires_at now)) o ≡ lock_step expire_stale m now draft o
unfolding lock_step
filtered-expired m now draft none = refl
filtered-expired m now draft (some held) = refl

reread-lock :
    (m : AgentEditLeaseMutation) (now : ℤ) (draft : String) (rows : Leases)
    → IfOk (FollowsLock renew m now draft rows) (renewed_outcome m (map (renewed_row m now) rows))
unfolding renewed_outcome reread
reread-lock m now draft rows =
    IfOk-any (FollowsLock renew m now draft rows)
      (get_agent_edit_lease (map (renewed_row m now) rows) m.draft_id)
      (reread m (map (renewed_row m now) rows))
      (λ lease _.
        IfOk-refuse_if (FollowsLock renew m now draft rows) _ agent_edit_lease_lost
          (ok (map (renewed_row m now) rows, outcome_of lease))
          (λ _.
            row_of-map (renewed_row m now) draft rows (renewed_draft m now)
            ∙ changed-renewed m now draft (row_of draft rows)))

pub run_operation-lock :
    (op : AgentEditLeaseOperation) (known : String → Bool) (m : AgentEditLeaseMutation) (now : ℤ)
    (draft : String) (rows : Leases)
    → IsKeyed rows
    → IfOk (FollowsLock op m now draft rows) (run_operation op known m now rows)
unfolding run_operation acquire_lease renew_lease release_lease expire_leases
run_operation-lock acquire known m now draft rows h =
    IfOk-bind _ (FollowsLock acquire m now draft rows)
      (acquire_fields m >> upsert known m now (row_of m.draft_id rows) rows)
      (λ rows'. ok (rows', outcome_of (granted m now)))
      (IfOk-any _ (acquire_fields m) (λ _. upsert known m now (row_of m.draft_id rows) rows)
        (λ _ _. upsert-lock known m now draft rows (row_of m.draft_id rows) refl))
      (λ rows' k. k)
run_operation-lock renew known m now draft rows h =
    IfOk-any (FollowsLock renew m now draft rows) (renew_fields m >> one_renewed m now rows)
      (λ _. renewed_outcome m (map (renewed_row m now) rows)) (λ _ _. reread-lock m now draft rows)
run_operation-lock release known m now draft rows h =
    IfOk-any (FollowsLock release m now draft rows) (release_fields m)
      (λ _. ok (released_rows m rows))
      (λ _ _.
        row_of-keep_if (λ r. not (owns m r)) draft rows h
        ∙ filtered-released m now draft (row_of draft rows))
run_operation-lock expire_stale known m now draft rows h =
    row_of-keep_if (λ r. not (leb_ℤ r.expires_at now)) draft rows h
    ∙ filtered-expired m now draft (row_of draft rows)
run_operation-lock (other_operation s) known m now draft rows h = tt

-- For each draft the table of the edit leases is one optional lock: a mutation that succeeds on a
-- table with its keys gives the draft the row that `lock_step` computes from the draft's old row
-- alone, whatever the rows of other drafts are.
pub persist_agent_edit_lease_mutation-lock :
    (known : String → Bool) (m : AgentEditLeaseMutation) (clock : ℤ) (draft : String)
    (rows : Leases)
    → IsKeyed rows
    → IfOk
        (λ done.
          row_of draft done.0 ≡ lock_step m.operation m (time_of m clock) draft (row_of draft rows))
        (persist_agent_edit_lease_mutation known m clock rows)
unfolding persist_agent_edit_lease_mutation
persist_agent_edit_lease_mutation-lock known m clock draft rows h =
    run_operation-lock m.operation known m (time_of m clock) draft rows h
