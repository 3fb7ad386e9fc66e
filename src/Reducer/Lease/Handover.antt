-- ===== src/Reducer/Lease/Handover.antt =====
-- An edit lease that is taken and given back (go/internal/reducer/agent_edit_lease_rows.go).
use rushes.Base.{
  String, Bool, true, false, ℤ, none, [], ◌∷◌, ◌≡◌, inl, inr, Bool-cases, text_eq, text_eq_refl, ok,
  ◌||◌, refl, any, keep_if, ◌++◌, ◌∙◌, ap, not, ◌>>=◌,
}
use rushes.Reducer.Lease.{
  AgentEditLease, AgentEditLeaseMutation, Leases, owns, granted, token_elsewhere, upsert,
  acquire_lease, row_of, acquire_fields, outcome_of, incomplete, no_ttl, release_lease,
  release_fields, released_rows, no_outcome,
}
use rushes.Reducer.Lease.Keys.{neither}

own_row : (m : AgentEditLeaseMutation) (now : ℤ) → owns m (granted m now) ≡ true
unfolding owns granted
own_row m now =
    rw (text_eq_refl m.draft_id, text_eq_refl m.turn_id, text_eq_refl m.lease_token) refl

not_owned :
    (m : AgentEditLeaseMutation) (x : AgentEditLease)
    → text_eq x.draft_id m.draft_id ≡ false
    → owns m x ≡ false
unfolding owns
not_owned m x d = rw d refl

-- No row of a draft without one is the caller's.
kept_rows :
    (m : AgentEditLeaseMutation) (now : ℤ) (rows : Leases)
    → row_of m.draft_id rows ≡ none
    → keep_if (λ r. not (owns m r)) (rows ++ granted m now ∷ []) ≡ rows
unfolding row_of
kept_rows m now [] e = rw (own_row m now) refl
kept_rows m now (x ∷ xs) e = elim (Bool-cases (text_eq x.draft_id m.draft_id)) [
  | inl d ↦ absurd (cc (rw d at e))
  | inr d ↦ rw (not_owned m x d) (ap (λ rest. x ∷ rest) (kept_rows m now xs (rw d at e)))
]

given_rows :
    (m : AgentEditLeaseMutation) (now : ℤ) (rows : Leases)
    → row_of m.draft_id rows ≡ none
    → keep_if (owns m) (rows ++ granted m now ∷ []) ≡ granted m now ∷ []
unfolding row_of
given_rows m now [] e = rw (own_row m now) refl
given_rows m now (x ∷ xs) e = elim (Bool-cases (text_eq x.draft_id m.draft_id)) [
  | inl d ↦ absurd (cc (rw d at e))
  | inr d ↦ rw (not_owned m x d) (given_rows m now xs (rw d at e))
]

acquired :
    (known : String → Bool) (m : AgentEditLeaseMutation) (now : ℤ) (rows : Leases)
    → (incomplete m || no_ttl m) ≡ false
    → known m.draft_id ≡ true
    → any (token_elsewhere m) rows ≡ false
    → row_of m.draft_id rows ≡ none
    → acquire_lease known m now rows ≡ ok (rows ++ granted m now ∷ [], outcome_of (granted m now))
unfolding acquire_lease acquire_fields upsert
acquired known m now rows fields exists fresh e = rw (fields, e, fresh, exists) refl

released :
    (m : AgentEditLeaseMutation) (now : ℤ) (rows : Leases)
    → incomplete m ≡ false
    → row_of m.draft_id rows ≡ none
    → release_lease m (rows ++ granted m now ∷ [])
      ≡ ok (rows, record { lease = none; released = true; expired_count = 0 })
unfolding release_lease release_fields released_rows no_outcome
released m now rows fields e = rw (fields, kept_rows m now rows e, given_rows m now rows e) refl

-- An acquire with complete fields and a time to live, of a draft that exists and has no row, with a
-- token that no row has, succeeds; the release by the same caller succeeds too, reports that the lease
-- is released, and gives back the table from before.
pub acquire_lease-release_lease :
    (known : String → Bool) (m : AgentEditLeaseMutation) (now : ℤ) (rows : Leases)
    → (incomplete m || no_ttl m) ≡ false
    → known m.draft_id ≡ true
    → any (token_elsewhere m) rows ≡ false
    → row_of m.draft_id rows ≡ none
    → (acquire_lease known m now rows >>= λ done. release_lease m done.0)
      ≡ ok (rows, record { lease = none; released = true; expired_count = 0 })
acquire_lease-release_lease known m now rows fields exists fresh e =
    ap (λ r. r >>= λ done. release_lease m done.0) (acquired known m now rows fields exists fresh e)
    ∙ released m now rows (neither (incomplete m) (no_ttl m) fields) e
