-- ===== src/Job.antt =====
-- internal/job/job.go and internal/job/result.go: the persistent job record, its status and the
-- result of one attempt. Go's `string`-typed Status can hold any text, which is `other`. A time is
-- the number of nanoseconds since Go's zero time, so `IsZero` is equality with 0.
pub mod Transitions
pub mod Retry
pub mod Lease
pub mod ById
mod Tests
use job_manager_quorum.Common.{
  ℕ, String, String-discrete, ℤ, pos, ◌≡◌, Bool, true, false, Option, ite, Key, ◌||◌,
}

pub data Status : Type 0 where
  pending scheduled completed failed cancelled : Status
  other : String → Status

unfoldable pub Status-discrete : Discrete Status
unfolding String-discrete
Status-discrete = hlevel String-discrete

instance abbrev pub Status-key : Key Status
Status-key = record { eq? = Status-discrete }

pub record Job : Type 0 where
  pub id : ℕ
  pub kind : String  -- the field `Type`
  pub priority : ℤ
  pub status : Status
  pub retry_count : ℕ
  pub max_retries : ℕ
  pub next_run_at : ℕ
  pub last_error : String
  pub idempotency_key : String

-- The zero value `job.Job{}`.
abbrev pub zero_job : Job
zero_job = record {
  id = 0;
  kind = "";
  priority = pos 0;
  status = other "";
  retry_count = 0;
  max_retries = 0;
  next_run_at = 0;
  last_error = "";
  idempotency_key = "";
}

unfoldable pub new_job : ℕ → String → ℤ → Job
new_job id kind priority = record zero_job {
  id = id;
  kind = kind;
  priority = priority;
  status = pending;
  max_retries = 3;
}

-- The `switch` of IsValidTransition.
abbrev transition_switch : Status → Status → Bool
transition_switch pending scheduled = true
transition_switch pending completed = true
transition_switch pending failed = true
transition_switch pending cancelled = true
transition_switch scheduled pending = true
transition_switch scheduled cancelled = true
transition_switch _ _ = false

unfoldable pub is_valid_transition : Status → Status → Bool
unfolding Status-discrete
is_valid_transition current next =
    ite (Status-discrete current next) true (transition_switch current next)

-- The test for a final status that the store, the dispatcher and the engine share.
unfoldable pub is_terminal : Status → Bool
is_terminal completed = true
is_terminal failed = true
is_terminal cancelled = true
is_terminal _ = false

-- `Error` is `none` for a successful attempt, and else the error's text.
pub record Result : Type 0 where
  pub job_id : ℕ
  pub success : Bool
  pub error : Option String
  pub attempt : ℕ
