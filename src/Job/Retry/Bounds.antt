-- ===== src/Job/Retry/Bounds.antt =====
-- The delays that Backoff of internal/retry/policy.go computes.
use Prim.Native.Nat.{min}
use job_manager_quorum.Common.{
  ℕ, zero, suc, ◌+◌, ◌*◌, ◌^◌, ◌<◌, ◌≡◌, refl, ℤ, pos, pos_part, neg_part, Bool, true, ◌&&◌, ◌==◌,
  arith, if◌then◌else◌, false,
}
use job_manager_quorum.Job.{Job, zero_job}
use job_manager_quorum.Job.Retry.{second, backoff, next_retry_time}

-- A test passes at every count below a bound.
passes_up_to : (ℕ → Bool) → ℕ → Bool
passes_up_to test zero = true
passes_up_to test (suc bound) = if test bound then passes_up_to test bound else false

passes_at :
    (test : ℕ → Bool) (bound count : ℕ)
    → count < bound
    → passes_up_to test bound ≡ true
    → test count ≡ true
unfolding passes_up_to
passes_at test zero count below all_pass = absurd (omega arith)
passes_at test (suc bound) count below all_pass = ground (arith, passes_at test bound count)

abbrev one_minute : ℤ
one_minute = pos (60 * second)

abbrev with_count : ℕ → Job
with_count n = record zero_job { retry_count = n }

is_exact : ℕ → Bool
unfolding backoff
is_exact n =
    let d = backoff (with_count n) one_minute in
    neg_part d == 0 && pos_part d == second * min (2 ^ n) 60

exact_table : passes_up_to is_exact 34 ≡ true
unfolding passes_up_to is_exact
exact_table = refl

ℤ-eq_of_pos : (d : ℤ) (n : ℕ) → (neg_part d == 0 && pos_part d == n) ≡ true → d ≡ pos n
ℤ-eq_of_pos d n h = ground arith

-- With a retry count n of at most 33 and a maximum of one minute, Backoff is 2 ^ n seconds, cut at
-- that minute.
pub backoff-exact :
    (j : Job)
    → j.retry_count < 34
    → backoff j (pos (60 * second)) ≡ pos (second * min (2 ^ j.retry_count) 60)
unfolding is_exact backoff
backoff-exact j h =
    ℤ-eq_of_pos (backoff j one_minute) (second * min (2 ^ j.retry_count) 60)
      (passes_at is_exact 34 j.retry_count h exact_table)

pub next_retry_time-exact :
    (now : ℕ) (j : Job)
    → j.retry_count < 34
    → next_retry_time now j (pos (60 * second)) ≡ now + second * min (2 ^ j.retry_count) 60
unfolding next_retry_time
next_retry_time-exact now j h = rw (backoff-exact j h)
