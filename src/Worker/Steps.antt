-- ===== src/Worker/Steps.antt =====
-- What the workers do to the table jobs, as steps: go/internal/worker/job.go and runner.go.
mod Coherent
pub mod Reached
mod Examples
use rushes.Base.{String, ℕ, Bool, ℤ, List, Option, ok, ◌≡◌}
use rushes.Float.{Floats}
use rushes.Jobs.{Job}
use rushes.Worker.Claim.{ClaimFilter, claim_matching, heartbeat}
use rushes.Reducer.JobEvents.{JobEvent}
use rushes.Worker.Runner.{HandlerEnd, finish_run, recover_stale}

module _ {F : Type 0} ⦃fl : Floats F⦄ where
  -- A claim, a heartbeat, the end of a handler, a recovery of stale jobs, and a sequence of these, of any
  -- workers in any order.
  infix 40 ◌⟶◌ ◌⟶*◌
  pub data ◌⟶◌ : List (Job F) → List (Job F) → Type 0 where
    claims :
        (worker timestamp : String) (filter : ClaimFilter) {rows rows' : List (Job F)}
        {job : Option (Job F)}
        → claim_matching worker timestamp filter rows ≡ ok (rows', job)
        → rows ⟶ rows'
    beats :
        (job : Job F) (timestamp : String) {rows : List (Job F)}
        → rows ⟶ (heartbeat job timestamp rows).0
    finishes :
        (drafts : List String) (logged : JobEvent → String → Bool) (job : Job F)
        (end : HandlerEnd F) (stopped : Bool) (stamp : ℕ → String) (created : String)
        {rows rows' : List (Job F)}
        → finish_run drafts logged job end stopped stamp created rows ≡ ok rows'
        → rows ⟶ rows'
    recovers :
        (drafts : List String) (logged : JobEvent → String → Bool) (cutoff next : String)
        {rows : List (Job F)}
        → rows ⟶ (recover_stale drafts logged cutoff next rows).table

  pub data ◌⟶*◌ : List (Job F) → List (Job F) → Type 0 where
    stays : {rows : List (Job F)} → rows ⟶* rows
    and_then : {rows rows' rows'' : List (Job F)} → rows ⟶ rows' → rows' ⟶* rows'' → rows ⟶* rows''
