-- ===== src/Worker/Retry.antt =====
-- The pause before a job runs again: go/internal/worker/job.go (RetryDelay).
use rushes.Base.{
  ℕ, ℤ, pos, negsuc, ◌≤◌, ◌*◌, if◌then◌else◌, ltb, ◌+ℤ◌, zero, suc, arith, ◌≡◌, eq_of_parts,
  int_laws,
}

-- `1 << n`.
abbrev shifted : ℕ → ℕ
shifted zero = 1
shifted (suc n) = 2 * shifted n

-- `attempts-1`, where less than one attempt counts as one.
doublings : ℤ → ℕ
doublings (pos zero) = 0
doublings (pos (suc n)) = n
doublings (negsuc n) = 0

-- The seconds of the pause after this many doublings, of which the code makes six at most.
doubled : ℕ → ℕ
doubled n =
    let seconds = shifted (if ltb n 6 then n else 6) in if ltb 60 seconds then 60 else seconds

-- In seconds.
unfoldable pub retry_delay : ℤ → ℕ
unfolding doublings doubled
retry_delay attempts = doubled (doublings attempts)

doubled_bounds :
    (n : ℕ)
    → (1 ≤ doubled n)
      × (doubled n ≤ 60)
      × (doubled n ≤ doubled (suc n))
      × (doubled (suc n) ≤ 2 * doubled n)
unfolding doubled
doubled_bounds zero = ground arith
doubled_bounds (suc zero) = ground arith
doubled_bounds (suc (suc zero)) = ground arith
doubled_bounds (suc (suc (suc zero))) = ground arith
doubled_bounds (suc (suc (suc (suc zero)))) = ground arith
doubled_bounds (suc (suc (suc (suc (suc zero))))) = ground arith
doubled_bounds (suc (suc (suc (suc (suc (suc n)))))) = ground arith

one_more : (n : ℕ) → pos (suc n) +ℤ pos 1 ≡ pos (suc (suc n))
one_more n = eq_of_parts _ _ (omega int_laws)

one_less : (n : ℕ) → negsuc (suc n) +ℤ pos 1 ≡ negsuc n
one_less n = eq_of_parts _ _ (omega int_laws)

-- The pause before a retry is between one second and a minute for any number of attempts, never
-- shrinks with one attempt more, and at most doubles.
pub retry_delay_bounds :
    (attempts : ℤ)
    → (1 ≤ retry_delay attempts)
      × (retry_delay attempts ≤ 60)
      × (retry_delay attempts ≤ retry_delay (attempts +ℤ pos 1))
      × (retry_delay (attempts +ℤ pos 1) ≤ 2 * retry_delay attempts)
unfolding retry_delay ◌+ℤ◌
retry_delay_bounds (pos zero) = ground (arith, doubled_bounds 0)
retry_delay_bounds (pos (suc n)) = rw (one_more n) (doubled_bounds n)
retry_delay_bounds (negsuc zero) = ground (arith, doubled_bounds 0)
retry_delay_bounds (negsuc (suc n)) = rw (one_less n) (ground (arith, doubled_bounds 0))
