-- ===== src/Reducer/Lease/Exclusion.antt =====
-- Mutual exclusion by the edit leases (go/internal/reducer/agent_edit_lease_rows.go).
use rushes.Base.{
  String, Bool, true, false, ℤ, some, ◌≡◌, inl, inr, ap, IfOk, IfOk-weaken, IfOk-bind, IfOk-any,
  Bool-cases, text_eq, text_eq_iff, Result, ok, err, ◌&&◌, refl, ◌∙◌, leb_ℤ, ltb_ℤ, ◌>>◌, ◌<ℤ◌,
  arith, if◌then◌else◌,
}
use rushes.Reducer.Lease.{
  AgentEditLease, AgentEditLeaseMutation, Leases, acquire, renew, release, expire_stale,
  other_operation, owns, extended, granted, upsert, acquire_lease, row_of, run_operation,
  persist_agent_edit_lease_mutation, LeaseError, AgentEditLeaseOperation, AgentEditLeaseOutcome,
  time_of, timeline_locked_by_agent, acquire_fields, committed, outcome_of,
}
use rushes.Reducer.Lease.Keys.{IsKeyed, committed-IsKeyed}
use rushes.Reducer.Lease.Lock.{lock_step, FollowsLock, run_operation-lock}

-- The turn has the draft's lease, in the row with this token.
abbrev pub Held : String → String → String → Leases → Type 0
Held draft turn token rows =
    (l : AgentEditLease) × (row_of draft rows ≡ some l)
    × (l.turn_id ≡ turn)
    × (l.lease_token ≡ token)

not_expired : (a b : ℤ) → a <ℤ b → leb_ℤ b a ≡ false
not_expired a b h = ground arith

lock_step-Held :
    (op : AgentEditLeaseOperation) (m : AgentEditLeaseMutation) (now : ℤ) (draft : String)
    (held : AgentEditLease) (rows' : Leases)
    → now <ℤ held.expires_at
    → (op ≡ release → owns m held ≡ false)
    → (op ≡ acquire → text_eq m.draft_id draft ≡ false)
    → row_of draft rows' ≡ lock_step op m now draft (some held)
    → Held draft held.turn_id held.lease_token rows'
unfolding lock_step extended
lock_step-Held acquire m now draft held rows' live keeps other e =
    (held, e ∙ ap (λ b. if b then some (granted m now) else some held) (other refl), refl, refl)
lock_step-Held renew m now draft held rows' live keeps other e =
    elim (Bool-cases (owns m held && ltb_ℤ now held.expires_at)) [
      | inl c ↦ (extended m now held, rw c at e, refl, refl)
      | inr c ↦ (held, rw c at e, refl, refl)
    ]
lock_step-Held release m now draft held rows' live keeps other e =
    (held, rw (keeps refl) at e, refl, refl)
lock_step-Held expire_stale m now draft held rows' live keeps other e =
    (held, rw (not_expired now held.expires_at live) at e, refl, refl)
lock_step-Held (other_operation s) m now draft held rows' live keeps other e = (held, e, refl, refl)

upsert_refused :
    (known : String → Bool) (m : AgentEditLeaseMutation) (now : ℤ) (rows : Leases)
    (held : AgentEditLease)
    → now <ℤ held.expires_at
    → upsert known m now (some held) rows ≡ err timeline_locked_by_agent
unfolding upsert
upsert_refused known m now rows held live = rw (not_expired now held.expires_at live) refl

-- A live lease refuses another acquire of its draft.
acquire_refused :
    (known : String → Bool) (m : AgentEditLeaseMutation) (now : ℤ) (rows : Leases)
    (held : AgentEditLease) (Q : Leases × AgentEditLeaseOutcome → Type 0)
    → row_of m.draft_id rows ≡ some held
    → now <ℤ held.expires_at
    → IfOk Q (acquire_lease known m now rows)
unfolding acquire_lease
acquire_refused known m now rows held Q e live =
    IfOk-bind (λ _. false ≡ true) Q
      (acquire_fields m >> upsert known m now (row_of m.draft_id rows) rows)
      (λ rows'. ok (rows', outcome_of (granted m now)))
      (IfOk-any (λ _. false ≡ true) (acquire_fields m)
        (λ _. upsert known m now (row_of m.draft_id rows) rows)
        (λ _ _. rw (e, upsert_refused known m now rows held live) tt))
      (λ a k. absurd (cc k))

run_operation-Held :
    (op : AgentEditLeaseOperation) (known : String → Bool) (m : AgentEditLeaseMutation) (now : ℤ)
    (draft : String) (rows : Leases) (held : AgentEditLease)
    → IsKeyed rows
    → row_of draft rows ≡ some held
    → now <ℤ held.expires_at
    → (op ≡ release → owns m held ≡ false)
    → IfOk
        (λ done. Held draft held.turn_id held.lease_token done.0)
        (run_operation op known m now rows)
unfolding run_operation
run_operation-Held op known m now draft rows held h e live keeps =
    elim (Bool-cases (text_eq m.draft_id draft)) [
      | inl same ↦ with_draft op same keeps
      | inr other ↦ followed op keeps (λ _. other)
    ]
  where
    followed :
        (op : AgentEditLeaseOperation)
        → (op ≡ release → owns m held ≡ false)
        → (op ≡ acquire → text_eq m.draft_id draft ≡ false)
        → IfOk
            (λ done. Held draft held.turn_id held.lease_token done.0)
            (run_operation op known m now rows)
    followed op keeps other =
        IfOk-weaken (FollowsLock op m now draft rows) _ (run_operation op known m now rows)
          (run_operation-lock op known m now draft rows h)
          (λ done k. lock_step-Held op m now draft held done.0 live keeps other (rw e at k))

    with_draft :
        (op : AgentEditLeaseOperation)
        → text_eq m.draft_id draft ≡ true
        → (op ≡ release → owns m held ≡ false)
        → IfOk
            (λ done. Held draft held.turn_id held.lease_token done.0)
            (run_operation op known m now rows)
    with_draft acquire same keeps =
        acquire_refused known m now rows held
          (λ done. Held draft held.turn_id held.lease_token done.0)
          (ap (λ d. row_of d rows) ((text_eq_iff m.draft_id draft).0 same) ∙ e) live
    with_draft renew same keeps = followed renew keeps (λ c. absurd (cc c))
    with_draft release same keeps = followed release keeps (λ c. absurd (cc c))
    with_draft expire_stale same keeps = followed expire_stale keeps (λ c. absurd (cc c))
    with_draft (other_operation s) same keeps =
        followed (other_operation s) keeps (λ c. absurd (cc c))

-- Transactions that run, each one, while the draft's lease has not expired, and of which none is the
-- holder's own release.
pub data Undisturbed (known : String → Bool) (draft : String) : Leases → Leases → Type 0 where
  nothing : {rows : Leases} → Undisturbed known draft rows rows
  then_mutation :
      (m : AgentEditLeaseMutation) (clock : ℤ) {rows rows' : Leases} (held : AgentEditLease)
      → row_of draft rows ≡ some held
      → time_of m clock <ℤ held.expires_at
      → (m.operation ≡ release → owns m held ≡ false)
      → Undisturbed known draft
          (committed rows (persist_agent_edit_lease_mutation known m clock rows))
          rows'
      → Undisturbed known draft rows rows'

committed-Held :
    (known : String → Bool) (m : AgentEditLeaseMutation) (clock : ℤ) (draft : String)
    (rows : Leases) (held : AgentEditLease)
    → IsKeyed rows
    → row_of draft rows ≡ some held
    → time_of m clock <ℤ held.expires_at
    → (m.operation ≡ release → owns m held ≡ false)
    → Held draft held.turn_id held.lease_token
        (committed rows (persist_agent_edit_lease_mutation known m clock rows))
unfolding committed persist_agent_edit_lease_mutation
committed-Held known m clock draft rows held h e live keeps =
    settled (run_operation m.operation known m (time_of m clock) rows)
      (run_operation-Held m.operation known m (time_of m clock) draft rows held h e live keeps)
  where
    settled :
        (r : Result LeaseError (Leases × AgentEditLeaseOutcome))
        → IfOk (λ done. Held draft held.turn_id held.lease_token done.0) r
        → Held draft held.turn_id held.lease_token (committed rows r)
    settled (ok done) k = k
    settled (err x) k = (held, e, refl, refl)

-- A turn that has a draft's lease keeps it, with its token, through any sequence of edit-lease
-- transactions of any callers, as long as each one runs before the lease that the draft has then
-- expires and none is the holder's own release.
pub Undisturbed-Held :
    (known : String → Bool) (draft turn token : String) {rows rows' : Leases}
    → Undisturbed known draft rows rows'
    → IsKeyed rows
    → Held draft turn token rows
    → Held draft turn token rows'
Undisturbed-Held known draft turn token nothing h held = held
Undisturbed-Held known draft turn token (then_mutation m clock {rows} held e live keeps rest) h
      (l, found_l, same_turn, same_token) =
    Undisturbed-Held known draft turn token rest (committed-IsKeyed known m clock rows h)
      (carried (committed-Held known m clock draft rows held h e live keeps))
  where
    carried :
        Held draft held.turn_id held.lease_token
          (committed rows (persist_agent_edit_lease_mutation known m clock rows))
        → Held draft turn token
            (committed rows (persist_agent_edit_lease_mutation known m clock rows))
    carried (l', found_l', t, k) =
        (l', found_l', cc (t, same_turn, e, found_l), cc (k, same_token, e, found_l))
