-- ===== src/Reducer/Lease/Examples.antt =====
-- Examples of the theorems on the edit leases (go/internal/reducer/agent_edit_lease_rows.go).
use rushes.Base.{
  String, Bool, true, pos, ℤ, none, some, [], ◌∷◌, ◌≡◌, refl, IfOk, ok, arith, text_eq, ◌+ℤ◌,
  trim_space, ◌>>=◌,
}
use rushes.Reducer.Lease.{
  AgentEditLease, AgentEditLeaseMutation, AgentEditLeaseOperation, Leases, acquire, renew,
  persist_agent_edit_lease_mutation, committed, row_of, incomplete, no_ttl, token_elsewhere,
  acquire_lease, release_lease, time_of,
}
use rushes.Reducer.Lease.Keys.{IsKeyed, text_neq}
use rushes.Reducer.Lease.Lock.{lock_step, persist_agent_edit_lease_mutation-lock}
use rushes.Reducer.Lease.Exclusion.{Held, nothing, then_mutation, Undisturbed-Held}
use rushes.Reducer.Lease.Handover.{acquire_lease-release_lease}

abbrev any_draft : String → Bool
any_draft s = true

abbrev lease : String → String → String → ℤ → AgentEditLease
lease draft turn token expires = record {
  draft_id = draft;
  turn_id = turn;
  lease_token = token;
  acquired_at = pos 10;
  heartbeat_at = pos 10;
  expires_at = expires;
}

abbrev call : AgentEditLeaseOperation → String → String → String → AgentEditLeaseMutation
call op draft turn token = record {
  operation = op;
  draft_id = draft;
  turn_id = turn;
  lease_token = token;
  now = pos 20;
  ttl = pos 100;
}

abbrev two_leases : Leases
two_leases = lease "a" "turn_a" "key_a" (pos 50) ∷ lease "b" "turn_b" "key_b" (pos 15) ∷ []

two_leases-IsKeyed : IsKeyed two_leases
unfolding text_eq
two_leases-IsKeyed = (((text_neq "a" "b" refl, text_neq "key_a" "key_b" refl), tt), (tt, tt))

-- The lease of the draft b has expired.
abbrev take_over : AgentEditLeaseMutation
take_over = call acquire "b" "turn_c" "key_c"

persist_agent_edit_lease_mutation-lock_example :
    IfOk
      (λ done.
        row_of "b" done.0
        ≡ lock_step acquire take_over (time_of take_over (pos 0)) "b" (row_of "b" two_leases))
      (persist_agent_edit_lease_mutation any_draft take_over (pos 0) two_leases)
persist_agent_edit_lease_mutation-lock_example =
    persist_agent_edit_lease_mutation-lock any_draft take_over (pos 0) "b" two_leases
      two_leases-IsKeyed

-- Another turn wants the draft a, and is refused; the holder extends its lease.
abbrev intrusion : AgentEditLeaseMutation
intrusion = call acquire "a" "turn_c" "key_c"

abbrev extension : AgentEditLeaseMutation
extension = call renew "a" "turn_a" "key_a"

Undisturbed-Held_example : Held "a" "turn_a" "key_a" (
    committed
      (committed two_leases
        (persist_agent_edit_lease_mutation any_draft intrusion (pos 0) two_leases))
      (persist_agent_edit_lease_mutation any_draft extension (pos 0) (
        committed two_leases
          (persist_agent_edit_lease_mutation any_draft intrusion (pos 0) two_leases))))
unfolding committed persist_agent_edit_lease_mutation row_of text_eq trim_space ◌+ℤ◌ time_of
Undisturbed-Held_example =
    Undisturbed-Held any_draft "a" "turn_a" "key_a" {rows = two_leases}
      (then_mutation intrusion (pos 0) (lease "a" "turn_a" "key_a" (pos 50)) refl (omega arith)
        (λ e. absurd (cc e))
        (then_mutation extension (pos 0) (lease "a" "turn_a" "key_a" (pos 50)) refl (omega arith)
          (λ e. absurd (cc e)) nothing))
      two_leases-IsKeyed (lease "a" "turn_a" "key_a" (pos 50), refl, refl, refl)

extended_lease :
    row_of "a" (
      committed two_leases
        (persist_agent_edit_lease_mutation any_draft extension (pos 0) two_leases))
    ≡ some (record (lease "a" "turn_a" "key_a" (pos 120)) { heartbeat_at = pos 20 })
unfolding committed persist_agent_edit_lease_mutation row_of text_eq trim_space ◌+ℤ◌
extended_lease = refl

acquire_lease-release_lease_example :
    (acquire_lease any_draft (call acquire "c" "turn_c" "key_c") (pos 20) two_leases >>= λ done.
    release_lease (call acquire "c" "turn_c" "key_c") done.0)
    ≡ ok (two_leases, record { lease = none; released = true; expired_count = 0 })
unfolding incomplete no_ttl trim_space text_eq token_elsewhere row_of
acquire_lease-release_lease_example =
    acquire_lease-release_lease any_draft (call acquire "c" "turn_c" "key_c") (pos 20) two_leases
      refl refl refl refl
