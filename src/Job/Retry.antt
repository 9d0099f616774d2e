-- ===== src/Job/Retry.antt =====
-- internal/retry/policy.go: the retry budget and the exponential backoff. A duration is Go's int64
-- number of nanoseconds; `1 << n` and the product wrap at 64 bits.
pub mod Bounds
use job_manager_quorum.Common.{
  ℕ, zero, suc, ℤ, pos, negsuc, ltℤ, ◌+◌, ◌-◌, ◌*◌, ◌%◌, ◌^◌, ◌≤◌, ◌<◌, ◌≡◌, refl, Bool, true, ltb,
  arith, if◌then◌else◌,
}
use job_manager_quorum.Job.{Job}

abbrev pub second : ℕ
second = 1_000_000_000

unfoldable pub should_retry : Job → Bool
should_retry j = ltb j.retry_count j.max_retries

-- A 64-bit pattern read as a signed number.
unfoldable pub to_int64 : ℕ → ℤ
to_int64 n = let r = n % 2 ^ 64 in if ltb r (2 ^ 63) then pos r else negsuc (2 ^ 64 - r - 1)

-- The pattern of `time.Second * time.Duration(1<<j.RetryCount)`: a shift by 64 or more gives 0.
unfoldable pub raw_delay : ℕ → ℕ
raw_delay n = (if ltb n 64 then second * 2 ^ n else 0) % 2 ^ 64

unfoldable pub backoff : Job → ℤ → ℤ
unfolding to_int64 raw_delay
backoff j max_backoff =
    let delay = to_int64 (raw_delay j.retry_count) in
    if ltℤ max_backoff delay then max_backoff else delay

-- `t.Add(d)`, for a time no earlier than Go's zero time by more than `d`.
unfoldable pub add_duration : ℕ → ℤ → ℕ
add_duration t (pos n) = t + n
add_duration t (negsuc n) = t - (n + 1)

-- The clock's reading is an argument.
unfoldable pub next_retry_time : ℕ → Job → ℤ → ℕ
unfolding add_duration backoff
next_retry_time now j max_backoff = add_duration now (backoff j max_backoff)
