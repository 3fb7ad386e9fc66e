-- ===== src/Reducer/Lease.antt =====
-- The edit leases of the agent's turns: go/internal/reducer/agent_edit_lease_rows.go and
-- go/internal/storage/agent_edit_leases.go. The table agent_edit_leases is the list of its rows. A
-- time is the nanoseconds from Go's zero time; the code stores it in a text of fixed width, whose
-- order is the order of the times.
pub mod Keys
pub mod Lock
pub mod Exclusion
mod Handover
mod Examples
use rushes.Base.{
  String, ℕ, Bool, true, false, ℤ, pos, List, Option, none, some, [], ◌∷◌, Result, ok, err,
  refuse_if, ◌>>◌, ◌>>=◌, ◌&&◌, ◌||◌, not, text_eq, trim_space, find?, any, map, ◌++◌, keep_if,
  length, ◌==◌, if◌then◌else◌, ◌+ℤ◌, leb_ℤ, ltb_ℤ, ◌==ℤ◌,
}

pub record AgentEditLease : Type 0 where
  pub draft_id : String
  pub turn_id : String
  pub lease_token : String
  pub acquired_at : ℤ
  pub heartbeat_at : ℤ
  pub expires_at : ℤ

pub data AgentEditLeaseOperation : Type 0 where
  acquire : AgentEditLeaseOperation
  renew : AgentEditLeaseOperation
  release : AgentEditLeaseOperation
  expire_stale : AgentEditLeaseOperation
  other_operation : String → AgentEditLeaseOperation

pub record AgentEditLeaseMutation : Type 0 where
  pub operation : AgentEditLeaseOperation
  pub draft_id : String
  pub turn_id : String
  pub lease_token : String
  pub now : ℤ
  pub ttl : ℤ

pub record AgentEditLeaseOutcome : Type 0 where
  pub lease : Option AgentEditLease
  pub released : Bool
  pub expired_count : ℕ

-- `constraint_failed` is SQLite's answer to a row that breaks a constraint of the table.
pub data LeaseError : Type 0 where
  invalid : String → LeaseError
  timeline_locked_by_agent : LeaseError
  agent_edit_lease_lost : LeaseError
  not_found : LeaseError
  constraint_failed : LeaseError

abbrev pub Leases : Type 0
Leases = List AgentEditLease

unfoldable pub live_at : ℤ → AgentEditLease → Bool
live_at now lease = not (text_eq lease.draft_id "") && ltb_ℤ now lease.expires_at

-- `SELECT ... WHERE draft_id=?`, which meets at most one row.
unfoldable pub row_of : String → Leases → Option AgentEditLease
row_of draft rows = find? (λ r. text_eq r.draft_id draft) rows

found : Option AgentEditLease → Result LeaseError AgentEditLease
found none = err not_found
found (some lease) = ok lease

unfoldable pub get_agent_edit_lease : Leases → String → Result LeaseError AgentEditLease
unfolding found row_of
get_agent_edit_lease rows draft = found (row_of draft rows)

unfoldable pub get_live_agent_edit_lease : Leases → String → ℤ → Result LeaseError AgentEditLease
unfolding found
get_live_agent_edit_lease rows draft now =
    found (find? (λ r. text_eq r.draft_id draft && ltb_ℤ now r.expires_at) rows)

-- The fields that a caller must give; a release needs no time to live.
unfoldable pub incomplete : AgentEditLeaseMutation → Bool
incomplete m =
    text_eq (trim_space m.draft_id) ""
    || text_eq (trim_space m.turn_id) ""
    || text_eq (trim_space m.lease_token) ""

unfoldable pub no_ttl : AgentEditLeaseMutation → Bool
no_ttl m = leb_ℤ m.ttl (pos 0)

-- `mutation.Now`, or the clock where the caller gives Go's zero time.
unfoldable pub time_of : AgentEditLeaseMutation → ℤ → ℤ
time_of m clock = if m.now ==ℤ pos 0 then clock else m.now

unfoldable pub granted : AgentEditLeaseMutation → ℤ → AgentEditLease
granted m now = record {
  draft_id = m.draft_id;
  turn_id = m.turn_id;
  lease_token = m.lease_token;
  acquired_at = now;
  heartbeat_at = now;
  expires_at = now +ℤ m.ttl;
}

-- The row that the mutation names by draft, turn and token.
unfoldable pub owns : AgentEditLeaseMutation → AgentEditLease → Bool
owns m r =
    text_eq r.draft_id m.draft_id
    && text_eq r.turn_id m.turn_id
    && text_eq r.lease_token m.lease_token

unfoldable pub extended : AgentEditLeaseMutation → ℤ → AgentEditLease → AgentEditLease
extended m now r = record r { heartbeat_at = now; expires_at = now +ℤ m.ttl }

unfoldable pub leased_token : String → AgentEditLease → Bool
leased_token token r = text_eq r.lease_token token

-- Another draft's row has the token.
unfoldable pub token_elsewhere : AgentEditLeaseMutation → AgentEditLease → Bool
token_elsewhere m r = not (text_eq r.draft_id m.draft_id) && text_eq r.lease_token m.lease_token

-- `DO UPDATE SET`: the row of the draft is written over.
unfoldable pub replace_row : AgentEditLease → Leases → Leases
replace_row new rows = map (λ r. if text_eq r.draft_id new.draft_id then new else r) rows

no_outcome : AgentEditLeaseOutcome
no_outcome = record { lease = none; released = false; expired_count = 0 }

outcome_of : AgentEditLease → AgentEditLeaseOutcome
outcome_of lease = record { lease = some lease; released = false; expired_count = 0 }

-- `INSERT ... ON CONFLICT(draft_id) DO UPDATE ... WHERE expires_at<=excluded.acquired_at`, with the
-- test of the number of rows that follows it. `known` says which drafts exist.
unfoldable pub upsert :
    (String → Bool)
    → AgentEditLeaseMutation
    → ℤ
    → Option AgentEditLease
    → Leases
    → Result LeaseError Leases
unfolding token_elsewhere granted replace_row
upsert known m now none rows =
    refuse_if (any (token_elsewhere m) rows || not (known m.draft_id)) constraint_failed
    >> ok (rows ++ granted m now ∷ [])
upsert known m now (some held) rows =
    refuse_if (not (leb_ℤ held.expires_at now)) timeline_locked_by_agent
    >> refuse_if (any (token_elsewhere m) rows) constraint_failed
    >> ok (replace_row (granted m now) rows)

acquire_fields : AgentEditLeaseMutation → Result LeaseError (Unit {0})
unfolding incomplete no_ttl
acquire_fields m = refuse_if (incomplete m || no_ttl m) (invalid "edit lease acquire 字段不完整")

unfoldable pub acquire_lease :
    (String → Bool)
    → AgentEditLeaseMutation
    → ℤ
    → Leases
    → Result LeaseError (Leases × AgentEditLeaseOutcome)
unfolding acquire_fields upsert row_of outcome_of granted
acquire_lease known m now rows =
    acquire_fields m >> upsert known m now (row_of m.draft_id rows) rows >>= λ rows'.
    ok (rows', outcome_of (granted m now))

renewable : AgentEditLeaseMutation → ℤ → AgentEditLease → Bool
unfolding owns
renewable m now r = owns m r && ltb_ℤ now r.expires_at

renewed_row : AgentEditLeaseMutation → ℤ → AgentEditLease → AgentEditLease
unfolding renewable extended
renewed_row m now r = if renewable m now r then extended m now r else r

renew_fields : AgentEditLeaseMutation → Result LeaseError (Unit {0})
unfolding incomplete no_ttl
renew_fields m = refuse_if (incomplete m || no_ttl m) (invalid "edit lease renew 字段不完整")

one_renewed : AgentEditLeaseMutation → ℤ → Leases → Result LeaseError (Unit {0})
unfolding renewable
one_renewed m now rows =
    refuse_if (not (length (keep_if (renewable m now) rows) == 1)) agent_edit_lease_lost

-- The row is read again, and must still name the caller.
reread :
    AgentEditLeaseMutation
    → Leases
    → AgentEditLease
    → Result LeaseError (Leases × AgentEditLeaseOutcome)
unfolding outcome_of
reread m rows lease =
    refuse_if
      (not (text_eq lease.turn_id m.turn_id) || not (text_eq lease.lease_token m.lease_token))
      agent_edit_lease_lost
    >> ok (rows, outcome_of lease)

renewed_outcome :
    AgentEditLeaseMutation → Leases → Result LeaseError (Leases × AgentEditLeaseOutcome)
unfolding get_agent_edit_lease reread
renewed_outcome m rows = get_agent_edit_lease rows m.draft_id >>= reread m rows

unfoldable pub renew_lease :
    AgentEditLeaseMutation → ℤ → Leases → Result LeaseError (Leases × AgentEditLeaseOutcome)
unfolding renew_fields one_renewed renewed_row renewed_outcome
renew_lease m now rows =
    renew_fields m >> one_renewed m now rows >> renewed_outcome m (map (renewed_row m now) rows)

release_fields : AgentEditLeaseMutation → Result LeaseError (Unit {0})
unfolding incomplete
release_fields m = refuse_if (incomplete m) (invalid "edit lease release 字段不完整")

-- The rows that stay, and whether one row went.
released_rows : AgentEditLeaseMutation → Leases → Leases × AgentEditLeaseOutcome
unfolding owns no_outcome
released_rows m rows = (
  keep_if (λ r. not (owns m r)) rows,
  record no_outcome { released = length (keep_if (owns m) rows) == 1 },
)

unfoldable pub release_lease :
    AgentEditLeaseMutation → Leases → Result LeaseError (Leases × AgentEditLeaseOutcome)
unfolding release_fields released_rows
release_lease m rows = release_fields m >> ok (released_rows m rows)

unfoldable pub expire_leases : ℤ → Leases → Leases × AgentEditLeaseOutcome
unfolding no_outcome
expire_leases now rows = (
  keep_if (λ r. not (leb_ℤ r.expires_at now)) rows,
  record no_outcome { expired_count = length (keep_if (λ r. leb_ℤ r.expires_at now) rows) },
)

unfoldable pub run_operation :
    AgentEditLeaseOperation
    → (String → Bool)
    → AgentEditLeaseMutation
    → ℤ
    → Leases
    → Result LeaseError (Leases × AgentEditLeaseOutcome)
unfolding acquire_lease renew_lease release_lease expire_leases
run_operation acquire known m now rows = acquire_lease known m now rows
run_operation renew known m now rows = renew_lease m now rows
run_operation release known m now rows = release_lease m rows
run_operation expire_stale known m now rows = ok (expire_leases now rows)
run_operation (other_operation s) known m now rows = err (invalid "edit lease operation 无效")

unfoldable pub persist_agent_edit_lease_mutation :
    (String → Bool)
    → AgentEditLeaseMutation
    → ℤ
    → Leases
    → Result LeaseError (Leases × AgentEditLeaseOutcome)
unfolding run_operation time_of
persist_agent_edit_lease_mutation known m clock rows =
    run_operation m.operation known m (time_of m clock) rows

-- The table after the transaction, which an error rolls back.
unfoldable pub committed : Leases → Result LeaseError (Leases × AgentEditLeaseOutcome) → Leases
committed rows (ok (rows', outcome)) = rows'
committed rows (err e) = rows
