-- ===== src/Worker/Runner/Lanes.antt =====
-- The lanes in which a runner claims jobs: go/internal/worker/runner.go (NewRunner, claimLanes).
use rushes.Base.{
  String, ℕ, zero, suc, Bool, true, false, ℤ, pos, negsuc, List, [], ◌∷◌, ◌≡◌, refl, IfOk, IfOk-any,
  IfOk-weaken, IfOk-refuse_if, not, ◌||◌, any, length, ◌≤ℤ◌, ◌+ℤ◌, half, arith, All, ◌<>◌, leb_ℤ,
  ltb_ℤ, ◌==ℤ◌, ok, pos_part, ◌-◌, member, ap, if◌then◌else◌, +ℤ_parts,
}
use rushes.Worker.Claim.{claim_kind_predicate, one_sided}
use rushes.Worker.Runner.{
  RunnerConfig, Runner, new_runner, with_defaults, check_heartbeat, ClaimLane, claim_lanes,
  general_lanes, render_kinds, no_filter,
}

-- Every duration is positive, and two heartbeats fit into the timeout.
pub record IsTimed (r : Runner) : Type 0 where
  pub runs : pos 1 ≤ℤ r.concurrency
  pub polls : pos 1 ≤ℤ r.poll_interval
  pub beats : pos 1 ≤ℤ r.heartbeat_interval
  pub beats_twice : r.heartbeat_interval +ℤ r.heartbeat_interval ≤ℤ r.heartbeat_timeout

defaults_positive :
    (n default : ℤ) → pos 1 ≤ℤ default → pos 1 ≤ℤ (if leb_ℤ n (pos 0) then default else n)
defaults_positive n default h = ground arith

twice_half : (a t : ℤ) → pos 1 ≤ℤ t → ltb_ℤ (half t) a ≡ false → a +ℤ a ≤ℤ t
unfolding half
twice_half a (pos t) p h = ground (arith, +ℤ_parts a a)
twice_half a (negsuc t) p h = ground arith

-- A runner that `NewRunner` makes has at least one lane and positive intervals, and its heartbeat
-- interval is at most half of the timeout after which a running job counts as stale.
pub new_runner-IsTimed :
    (nanos : ℤ) (config : RunnerConfig) → IfOk IsTimed (new_runner nanos config)
unfolding new_runner with_defaults check_heartbeat
new_runner-IsTimed nanos config =
    IfOk-any IsTimed _ (λ _. check_heartbeat (with_defaults nanos config))
      (λ _ _. IfOk-refuse_if IsTimed _ _ (ok (with_defaults nanos config)) (λ e. record {
        runs = defaults_positive config.concurrency (pos 2) (omega arith);
        polls = defaults_positive config.poll_interval _ (omega arith);
        beats = defaults_positive config.heartbeat_interval _ (omega arith);
        beats_twice = twice_half _ _ (defaults_positive config.heartbeat_timeout _ (omega arith)) e;
      }))

serves : String → ClaimLane → Bool
serves kind lane = claim_kind_predicate lane.filter kind

abbrev IsServed : String → ℕ → List ClaimLane → Type 0
IsServed kind count lanes =
    (any (serves kind) lanes ≡ true)
    × (length lanes ≡ count)
    × All (λ l. one_sided l.filter ≡ ok tt) lanes

general_length :
    (worker : String) (count index : ℕ) → length (general_lanes worker count index) ≡ count
unfolding general_lanes
general_length worker zero index = refl
general_length worker (suc count) index = ap suc (general_length worker count (suc index))

general_one_sided :
    (worker : String) (count index : ℕ)
    → All (λ l. one_sided l.filter ≡ ok tt) (general_lanes worker count index)
unfolding general_lanes one_sided
general_one_sided worker zero index = tt
general_one_sided worker (suc count) index = (refl, general_one_sided worker count (suc index))

one_of_two : (a b : Bool) → (a || (not a || b)) ≡ true
one_of_two true b = refl
one_of_two false b = refl

-- The first general lane takes every kind that the render lane does not.
first_two :
    (kind worker : String) (count : ℕ)
    → any (serves kind) (
        record {
          filter = record { include_kinds = render_kinds; exclude_kinds = [] };
          worker_id = worker <> ":render";
        }
        ∷ general_lanes worker (suc count) 1)
      ≡ true
unfolding serves claim_kind_predicate general_lanes render_kinds
first_two kind worker count =
    one_of_two (member kind render_kinds) (any (serves kind) (general_lanes worker count 2))

many_lanes :
    (kind worker : String) (n : ℕ)
    → IsServed kind (suc (suc n)) (
        record {
          filter = record { include_kinds = render_kinds; exclude_kinds = [] };
          worker_id = worker <> ":render";
        }
        ∷ general_lanes worker (suc n) 1)
unfolding one_sided render_kinds
many_lanes kind worker n = (
  first_two kind worker n,
  ap suc (general_length worker (suc n) 1),
  (refl, general_one_sided worker (suc n) 1),
)

single :
    (kind : String) (runner : Runner)
    → runner.concurrency ≡ pos 1
    → IsServed kind (pos_part runner.concurrency) (claim_lanes runner)
unfolding claim_lanes serves claim_kind_predicate no_filter one_sided
single kind runner e = rw e (refl, refl, (refl, tt))

not_one : (n : ℕ) → (pos (suc (suc n)) ==ℤ pos 1) ≡ false
not_one n = ground arith

fewer : (n : ℕ) → suc (suc n) - 1 ≡ suc n
fewer n = omega arith

several :
    (kind : String) (runner : Runner) (n : ℕ)
    → runner.concurrency ≡ pos (suc (suc n))
    → IsServed kind (pos_part runner.concurrency) (claim_lanes runner)
unfolding claim_lanes
several kind runner n e = rw (e, not_one n, fewer n) (many_lanes kind runner.worker_id n)

-- The lanes of a runner that `NewRunner` made are as many as its concurrency, each one's filter is one
-- that a claim accepts, and for every kind of job, known or not, some lane claims jobs of the kind.
pub claim_lanes-IsServed :
    (nanos : ℤ) (config : RunnerConfig) (kind : String)
    → IfOk
        (λ runner.
          (any (λ l. claim_kind_predicate l.filter kind) (claim_lanes runner) ≡ true)
          × (length (claim_lanes runner) ≡ pos_part runner.concurrency)
          × All (λ l. one_sided l.filter ≡ ok tt) (claim_lanes runner))
        (new_runner nanos config)
unfolding serves
claim_lanes-IsServed nanos config kind =
    IfOk-weaken IsTimed _ (new_runner nanos config) (new_runner-IsTimed nanos config)
      (λ runner h. of_concurrency runner runner.concurrency refl h.runs)
  where
    of_concurrency :
        (runner : Runner) (n : ℤ)
        → runner.concurrency ≡ n
        → pos 1 ≤ℤ n
        → IsServed kind (pos_part runner.concurrency) (claim_lanes runner)
    of_concurrency runner (pos zero) e h = absurd (omega arith)
    of_concurrency runner (negsuc n) e h = absurd (omega arith)
    of_concurrency runner (pos (suc zero)) e h = single kind runner e
    of_concurrency runner (pos (suc (suc n))) e h = several kind runner n e
