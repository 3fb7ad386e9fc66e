-- ===== src/Worker/Runner/Examples.antt =====
-- Examples of the theorems on the worker (go/internal/worker).
use rushes.Base.{
  String, Bool, ℕ, true, false, pos, [], ◌∷◌, ◌≡◌, refl, IfOk, ok, text_eq, ◌≤◌, ◌+ℤ◌, ◌*◌, any,
  length, All, pos_part,
}
use rushes.Float.Fixed.{fixed}
use rushes.Value.{Any}
use rushes.Jobs.{job_at, running, is_running, column_is}
use rushes.Jobs.Sample.{some_jobs, claimed}
use rushes.Reducer.JobEvents.{JobEvent, draft_known}
use rushes.Reducer.JobAsset.{reconcile_understand_job_asset}
use rushes.Worker.Retry.{retry_delay, retry_delay_bounds}
use rushes.Worker.Claim.{ClaimFilter, claim_matching, claim_kind_predicate, one_sided, holds, value}
use rushes.Worker.Claim.Order.{IsClaimOf, claim_matching-IsClaimOf}
use rushes.Worker.Runner.{RunnerConfig, new_runner, claim_lanes, finish_run, handler_failed}
use rushes.Worker.Runner.Lanes.{IsTimed, new_runner-IsTimed, claim_lanes-IsServed}
use rushes.Worker.Runner.Attempts.{CanEnd, IsClaimed, IsSpent, finish_run-IsSpent}

retry_delay_bounds_example :
    (1 ≤ retry_delay (pos 6))
    × (retry_delay (pos 6) ≤ 60)
    × (retry_delay (pos 6) ≤ retry_delay (pos 6 +ℤ pos 1))
    × (retry_delay (pos 6 +ℤ pos 1) ≤ 2 * retry_delay (pos 6))
retry_delay_bounds_example = retry_delay_bounds (pos 6)

capped : (retry_delay (pos 6) ≡ 32) × (retry_delay (pos 7) ≡ 60) × (retry_delay (pos 0) ≡ 1)
unfolding retry_delay
capped = (refl, refl, refl)

abbrev no_render : ClaimFilter
no_render = record { include_kinds = []; exclude_kinds = "render_final" ∷ [] }

claim_matching-IsClaimOf_example :
    IfOk
      (IsClaimOf "w:general:1" "2026-01-01T00:00:20Z" no_render some_jobs)
      (claim_matching "w:general:1" "2026-01-01T00:00:20Z" no_render some_jobs)
claim_matching-IsClaimOf_example =
    claim_matching-IsClaimOf "w:general:1" "2026-01-01T00:00:20Z" no_render some_jobs

abbrev config : RunnerConfig
config = record {
  has_database = true;
  has_registry = true;
  worker_id = "w";
  concurrency = pos 3;
  poll_interval = pos 0;
  heartbeat_interval = pos 0;
  heartbeat_timeout = pos 0;
}

new_runner-IsTimed_example : IfOk IsTimed (new_runner (pos 0) config)
new_runner-IsTimed_example = new_runner-IsTimed (pos 0) config

claim_lanes-IsServed_example :
    IfOk
      (λ runner.
        (any (λ l. claim_kind_predicate l.filter "understand") (claim_lanes runner) ≡ true)
        × (length (claim_lanes runner) ≡ pos_part runner.concurrency)
        × All (λ l. one_sided l.filter ≡ ok tt) (claim_lanes runner))
      (new_runner (pos 0) config)
claim_lanes-IsServed_example = claim_lanes-IsServed (pos 0) config "understand"

abbrev nothing_logged : JobEvent → String → Bool
nothing_logged event id = false

abbrev stamp : ℕ → String
stamp n = "2026-01-01T00:00:21Z"

claimed-IsClaimed : IsClaimed (claimed running) some_jobs
unfolding job_at text_eq
claimed-IsClaimed = record {
  worker = "w";
  started = "2026-01-01T00:00:10Z";
  stored = refl;
  runs = refl;
  by_worker = refl;
  since = refl;
  has_id = refl;
  has_worker = refl;
  has_start = refl;
}

claimed-CanEnd : CanEnd [] (claimed running)
unfolding text_eq reconcile_understand_job_asset draft_known value
claimed-CanEnd = record { asset = refl; draft = refl }

finish_run-IsSpent_example : IsSpent (claimed running) (
    finish_run [] nothing_logged
      (claimed running)
      (handler_failed (Any.str "probe failed") false)
      false
      stamp
      "2026-01-01T00:00:20Z"
      some_jobs)
unfolding holds text_eq column_is value is_running
finish_run-IsSpent_example =
    finish_run-IsSpent [] nothing_logged (claimed running) (Any.str "probe failed") false stamp
      "2026-01-01T00:00:20Z" some_jobs refl claimed-CanEnd claimed-IsClaimed refl
