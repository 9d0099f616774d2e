-- ===== src/Cron/Next.antt =====
-- The times that nextRun of internal/cron/cron.go computes.
use job_manager_quorum.Common.{
  ℕ, suc, ◌+◌, ◌*◌, ◌/◌, ◌%◌, ◌≤◌, ◌<◌, ◌≡◌, inl, inr, leb, arith, Bool-cases,
}
use job_manager_quorum.Cron.{Location, truncated, minute, next_multiple}

-- A time on a full minute, later than `from` by at most an hour.
pub record IsNext (from next : ℕ) : Type 0 where
  pub later : from < next
  pub soon : next ≤ from + 60 * minute
  pub full : next % minute ≡ 0

-- Package time finds each minute of the clock hour of `t` where it is: the location's offset from UTC
-- is of whole minutes, and no change of the clocks falls into the hour or repeats it.
pub record IsSteady (location : Location) (t : ℕ) : Type 0 where
  pub in_hour : location.minute_of t < 60
  pub at_minute :
      (m : ℕ) → m < 60 → location.at_minute t m + location.minute_of t * minute ≡ t + m * minute
  pub next_hour : location.next_hour t + location.minute_of t * minute ≡ t + 60 * minute
  pub minute_at : (m : ℕ) → m < 60 → location.minute_of (location.at_minute t m) ≡ m
  pub minute_next : location.minute_of (location.next_hour t) ≡ 0

mul-mod_self : (q k : ℕ) → q * suc k % suc k ≡ 0
mul-mod_self q k = grind arith

-- The minute of the hour is a multiple of the interval.
pub next_multiple-aligned :
    (location : Location) (k from : ℕ)
    → IsSteady location (truncated from)
    → location.minute_of (next_multiple location (suc k) from) % suc k ≡ 0
unfolding next_multiple
next_multiple-aligned location k from steady =
    let current = location.minute_of (truncated from) in
    let target = (current / suc k + 1) * suc k in
    elim (Bool-cases (leb 60 target)) [
      | inl over ↦ rw (over, steady.minute_next) (grind arith)
      | inr within ↦
          let small : target < 60 = ground arith in
          rw (within, steady.minute_at target small) (mul-mod_self (current / suc k + 1) k)
    ]
