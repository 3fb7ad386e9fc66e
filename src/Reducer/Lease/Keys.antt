-- ===== src/Reducer/Lease/Keys.antt =====
-- The primary key and the unique token of the table agent_edit_leases
-- (go/internal/reducer/agent_edit_lease_rows.go).
use rushes.Base.{
  String, Bool, true, false, ℤ, Option, none, some, [], ◌∷◌, ◌≡◌, ◌≢◌, inl, inr, All, All-append,
  IfOk, IfOk-refuse_if, IfOk-bind, IfOk-any, IfOk-refuse_next, ◌>>◌, refuse_if, leb_ℤ, Bool-cases,
  text_eq, text_eq_iff, Result, ok, err, keep_if, map, any, ◌++◌, not, ◌||◌, refl, sym, ◌∙◌,
}
use rushes.Reducer.Lease.{
  AgentEditLease, AgentEditLeaseMutation, Leases, acquire, renew, release, expire_stale,
  other_operation, owns, extended, granted, token_elsewhere, replace_row, upsert, acquire_lease,
  row_of, renewed_row, renewable, renew_lease, release_lease, expire_leases, run_operation,
  persist_agent_edit_lease_mutation, committed, LeaseError, acquire_fields, renew_fields,
  one_renewed, reread, renewed_outcome, release_fields, released_rows, outcome_of,
  get_agent_edit_lease, agent_edit_lease_lost, AgentEditLeaseOperation, time_of, constraint_failed,
  timeline_locked_by_agent, AgentEditLeaseOutcome,
}

-- Two rows that the table may hold together.
abbrev pub Apart : AgentEditLease → AgentEditLease → Type 0
Apart x y = (x.draft_id ≢ y.draft_id) × (x.lease_token ≢ y.lease_token)

-- No two rows have one draft, or one token.
abbrev pub IsKeyed : Leases → Type 0
IsKeyed [] = Unit
IsKeyed (x ∷ xs) = All (Apart x) xs × IsKeyed xs

pub text_neq : (s t : String) → text_eq s t ≡ false → s ≢ t
text_neq s t e p = absurd (cc (e, (text_eq_iff s t).1 p))

keep_if-All :
    (P : AgentEditLease → Type 0) (p : AgentEditLease → Bool) (rows : Leases)
    → All P rows
    → All P (keep_if p rows)
keep_if-All P p [] h = tt
keep_if-All P p (x ∷ xs) (h, hs) = elim (Bool-cases (p x)) [
  | inl e ↦ rw e (h, keep_if-All P p xs hs)
  | inr e ↦ rw e (keep_if-All P p xs hs)
]

keep_if-IsKeyed :
    (p : AgentEditLease → Bool) (rows : Leases) → IsKeyed rows → IsKeyed (keep_if p rows)
keep_if-IsKeyed p [] h = tt
keep_if-IsKeyed p (x ∷ xs) (h, hs) = elim (Bool-cases (p x)) [
  | inl e ↦ rw e (keep_if-All (Apart x) p xs h, keep_if-IsKeyed p xs hs)
  | inr e ↦ rw e (keep_if-IsKeyed p xs hs)
]

-- A change that keeps the draft and the token of each row keeps the keys.
map-All :
    (f : AgentEditLease → AgentEditLease) (x : AgentEditLease) (rows : Leases)
    → ((r : AgentEditLease) → Apart x r → Apart (f x) (f r))
    → All (Apart x) rows
    → All (Apart (f x)) (map f rows)
map-All f x [] keeps h = tt
map-All f x (r ∷ rows) keeps (h, hs) = (keeps r h, map-All f x rows keeps hs)

renewed-Apart :
    (m : AgentEditLeaseMutation) (now : ℤ) (x y : AgentEditLease)
    → Apart x y
    → Apart (renewed_row m now x) (renewed_row m now y)
unfolding renewed_row extended
renewed-Apart m now x y h = elim (Bool-cases (renewable m now x)) [
  | inl e ↦ elim (Bool-cases (renewable m now y)) [ inl d ↦ rw (e, d) h | inr d ↦ rw (e, d) h ]
  | inr e ↦ elim (Bool-cases (renewable m now y)) [ inl d ↦ rw (e, d) h | inr d ↦ rw (e, d) h ]
]

renewed-IsKeyed :
    (m : AgentEditLeaseMutation) (now : ℤ) (rows : Leases)
    → IsKeyed rows
    → IsKeyed (map (renewed_row m now) rows)
renewed-IsKeyed m now [] h = tt
renewed-IsKeyed m now (x ∷ xs) (h, hs) =
    (map-All (renewed_row m now) x xs (λ r. renewed-Apart m now x r) h, renewed-IsKeyed m now xs hs)

-- The row that an upsert writes is apart from the rows of other drafts.
abbrev Fits : AgentEditLease → AgentEditLease → Type 0
Fits new r = text_eq r.draft_id new.draft_id ≡ false → Apart r new

elsewhere-Fits :
    (m : AgentEditLeaseMutation) (now : ℤ) (rows : Leases)
    → any (token_elsewhere m) rows ≡ false
    → All (Fits (granted m now)) rows
unfolding token_elsewhere granted
elsewhere-Fits m now [] e = tt
elsewhere-Fits m now (x ∷ xs) e = elim (Bool-cases (token_elsewhere m x)) [
  | inl d ↦ absurd (cc (e, d))
  | inr d ↦ (one d, elsewhere-Fits m now xs (rw d at e))
]
  where
    one : token_elsewhere m x ≡ false → Fits (granted m now) x
    one d s = (text_neq x.draft_id m.draft_id s, text_neq x.lease_token m.lease_token (rw s at d))

replaced-All :
    (new x : AgentEditLease) (rows : Leases)
    → Apart x new
    → All (Apart x) rows
    → All (Apart x) (replace_row new rows)
unfolding replace_row
replaced-All new x [] h hs = tt
replaced-All new x (r ∷ rows) h (a, hs) = elim (Bool-cases (text_eq r.draft_id new.draft_id)) [
  | inl e ↦ rw e (h, replaced-All new x rows h hs)
  | inr e ↦ rw e (a, replaced-All new x rows h hs)
]

-- Behind a row whose draft is written over, no other row is of that draft.
replaced-past :
    (new x : AgentEditLease) (rows : Leases)
    → x.draft_id ≡ new.draft_id
    → All (Apart x) rows
    → All (Fits new) rows
    → All (Apart new) (replace_row new rows)
unfolding replace_row
replaced-past new x [] same h fits = tt
replaced-past new x (r ∷ rows) same ((d, t), hs) (fit, fits) =
    elim (Bool-cases (text_eq r.draft_id new.draft_id)) [
      | inl e ↦ absurd (d (same ∙ sym ((text_eq_iff r.draft_id new.draft_id).0 e)))
      | inr e ↦ rw e (flipped (fit e), replaced-past new x rows same hs fits)
    ]
  where
    flipped : Apart r new → Apart new r
    flipped (a, b) = (λ p. a (sym p), λ p. b (sym p))

replace_row-IsKeyed :
    (new : AgentEditLease) (rows : Leases)
    → All (Fits new) rows
    → IsKeyed rows
    → IsKeyed (replace_row new rows)
unfolding replace_row
replace_row-IsKeyed new [] fits h = tt
replace_row-IsKeyed new (x ∷ xs) (fit, fits) (h, hs) =
    elim (Bool-cases (text_eq x.draft_id new.draft_id)) [
      | inl e ↦ rw e (
        replaced-past new x xs ((text_eq_iff x.draft_id new.draft_id).0 e) h fits,
        replace_row-IsKeyed new xs fits hs,
      )
      | inr e ↦ rw e (replaced-All new x xs (fit e) h, replace_row-IsKeyed new xs fits hs)
    ]

-- A row at the end, of a draft that has none.
added-IsKeyed :
    (new : AgentEditLease) (rows : Leases)
    → row_of new.draft_id rows ≡ none
    → All (Fits new) rows
    → IsKeyed rows
    → IsKeyed (rows ++ new ∷ [])
unfolding row_of
added-IsKeyed new [] e fits h = (tt, tt)
added-IsKeyed new (x ∷ xs) e (fit, fits) (h, hs) =
    elim (Bool-cases (text_eq x.draft_id new.draft_id)) [
      | inl d ↦ absurd (some_row (rw d at e))
      | inr d ↦ (
        All-append (Apart x) xs (new ∷ []) h (fit d, tt),
        added-IsKeyed new xs (rw d at e) fits hs,
      )
    ]
  where
    some_row : some x ≢ none
    some_row p = cc p

pub neither : (a b : Bool) → (a || b) ≡ false → a ≡ false
neither true b h = absurd (cc h)
neither false b h = refl

upsert-IsKeyed :
    (known : String → Bool) (m : AgentEditLeaseMutation) (now : ℤ) (rows : Leases)
    (o : Option AgentEditLease)
    → row_of m.draft_id rows ≡ o
    → IsKeyed rows
    → IfOk IsKeyed (upsert known m now o rows)
unfolding upsert granted
upsert-IsKeyed known m now rows none e h =
    IfOk-refuse_if IsKeyed (any (token_elsewhere m) rows || not (known m.draft_id))
      constraint_failed (ok (rows ++ granted m now ∷ []))
      (λ c.
        added-IsKeyed (granted m now) rows e
          (elsewhere-Fits m now rows (neither (any (token_elsewhere m) rows) _ c)) h)
upsert-IsKeyed known m now rows (some held) e h =
    IfOk-refuse_next IsKeyed (refuse_if (not (leb_ℤ held.expires_at now)) timeline_locked_by_agent)
      (any (token_elsewhere m) rows) constraint_failed (ok (replace_row (granted m now) rows))
      (λ c. replace_row-IsKeyed (granted m now) rows (elsewhere-Fits m now rows c) h)

abbrev TableIsKeyed : Leases × AgentEditLeaseOutcome → Type 0
TableIsKeyed done = IsKeyed done.0

reread-IsKeyed :
    (m : AgentEditLeaseMutation) (rows : Leases)
    → IsKeyed rows
    → IfOk TableIsKeyed (renewed_outcome m rows)
unfolding renewed_outcome reread
reread-IsKeyed m rows h =
    IfOk-any TableIsKeyed (get_agent_edit_lease rows m.draft_id) (reread m rows) (λ lease _.
      IfOk-refuse_if TableIsKeyed _ agent_edit_lease_lost (ok (rows, outcome_of lease)) (λ _. h))

run_operation-IsKeyed :
    (op : AgentEditLeaseOperation) (known : String → Bool) (m : AgentEditLeaseMutation) (now : ℤ)
    (rows : Leases)
    → IsKeyed rows
    → IfOk TableIsKeyed (run_operation op known m now rows)
unfolding run_operation acquire_lease renew_lease release_lease expire_leases
run_operation-IsKeyed acquire known m now rows h =
    IfOk-bind IsKeyed TableIsKeyed
      (acquire_fields m >> upsert known m now (row_of m.draft_id rows) rows)
      (λ rows'. ok (rows', outcome_of (granted m now)))
      (IfOk-any IsKeyed (acquire_fields m) (λ _. upsert known m now (row_of m.draft_id rows) rows)
        (λ _ _. upsert-IsKeyed known m now rows (row_of m.draft_id rows) refl h))
      (λ rows' k. k)
run_operation-IsKeyed renew known m now rows h =
    IfOk-any TableIsKeyed (renew_fields m >> one_renewed m now rows)
      (λ _. renewed_outcome m (map (renewed_row m now) rows))
      (λ _ _. reread-IsKeyed m (map (renewed_row m now) rows) (renewed-IsKeyed m now rows h))
run_operation-IsKeyed release known m now rows h =
    IfOk-any TableIsKeyed (release_fields m) (λ _. ok (released_rows m rows))
      (λ _ _. keep_if-IsKeyed (λ r. not (owns m r)) rows h)
run_operation-IsKeyed expire_stale known m now rows h =
    keep_if-IsKeyed (λ r. not (leb_ℤ r.expires_at now)) rows h
run_operation-IsKeyed (other_operation s) known m now rows h = tt

-- A transaction that changes the edit leases, whether it commits or is rolled back, leaves a table in
-- which no two rows have the same draft or the same token, if the table before it was one.
pub committed-IsKeyed :
    (known : String → Bool) (m : AgentEditLeaseMutation) (clock : ℤ) (rows : Leases)
    → IsKeyed rows
    → IsKeyed (committed rows (persist_agent_edit_lease_mutation known m clock rows))
unfolding committed persist_agent_edit_lease_mutation
committed-IsKeyed known m clock rows h =
    kept (run_operation m.operation known m (time_of m clock) rows)
      (run_operation-IsKeyed m.operation known m (time_of m clock) rows h)
  where
    kept :
        (r : Result LeaseError (Leases × AgentEditLeaseOutcome))
        → IfOk TableIsKeyed r
        → IsKeyed (committed rows r)
    kept (ok done) k = k
    kept (err e) k = h
