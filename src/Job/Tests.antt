-- ===== src/Job/Tests.antt =====
-- The theorems on jobs, retries and leases at concrete inputs.
use job_manager_quorum.Common.{◌≡◌, pos, arith, ℕ-key, ◌*◌}
use job_manager_quorum.Job.{Job, zero_job}
use job_manager_quorum.Job.Retry.{second, backoff}
use job_manager_quorum.Job.Retry.Bounds.{backoff-exact}

abbrev tried_job : Job
tried_job = record zero_job { id = 4; retry_count = 5; max_retries = 10 }

backoff-exact_example : backoff tried_job (pos (60 * second)) ≡ pos (32 * second)
unfolding second
backoff-exact_example = backoff-exact tried_job (omega arith)
