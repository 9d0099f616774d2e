-- ===== src/Executor/Breaker.antt =====
-- internal/executor/breaker.go: the circuit breaker. Execute holds the mutex before and after the
-- wrapped call, but not during it, so it is two steps: `enter` and `leave`.
pub mod Trips
use job_manager_quorum.Common.{
  ℕ, suc, ◌+◌, ℤ, pos, ltℤ, Bool, true, false, not, Option, none, some, ltb, if◌then◌else◌,
}

pub data BreakerState : Type 0 where
  closed : BreakerState
  opened : BreakerState
  half_open : BreakerState

pub record CircuitBreakerExecutor : Type 0 where
  pub state : BreakerState
  pub failures : ℕ
  pub failure_threshold : ℤ
  pub reset_timeout : ℕ
  pub opened_at : ℕ
  pub half_open_testing : Bool

pub data ExecuteError (E : Type 0) : Type 0 where
  circuit_open : ExecuteError E
  next_error : E → ExecuteError E

unfoldable pub new_circuit_breaker_executor : ℤ → ℕ → CircuitBreakerExecutor
new_circuit_breaker_executor threshold reset_timeout = record {
  state = closed;
  failures = 0;
  failure_threshold = threshold;
  reset_timeout = reset_timeout;
  opened_at = 0;
  half_open_testing = false;
}

-- The part before the wrapped call, and whether the call is made.
unfoldable pub enter : ℕ → CircuitBreakerExecutor → CircuitBreakerExecutor × Bool
enter now c = elim c.state [
  | closed ↦ (c, true)
  | opened ↦
      if ltb now (c.opened_at + c.reset_timeout)
      then (c, false)
      else (record c { state = half_open; half_open_testing = true }, true)
  | half_open ↦
      if c.half_open_testing then (c, false) else (record c { half_open_testing = true }, true)
]

-- The part after the wrapped call, by its success.
unfoldable pub leave : Bool → ℕ → CircuitBreakerExecutor → CircuitBreakerExecutor
leave success now c =
    let failures = suc c.failures in
    let failed = record c { half_open_testing = false; failures = failures } in
    if success
    then record c { half_open_testing = false; failures = 0; state = closed }
    else (if ltℤ (pos failures) c.failure_threshold
        then failed
        else record failed { state = opened; opened_at = now })

abbrev is_nil : {E : Type 0} → Option E → Bool
is_nil none = true
is_nil (some e) = false

abbrev wrapped : {E : Type 0} → Option E → Option (ExecuteError E)
wrapped none = none
wrapped (some e) = some (next_error e)

-- One Execute that no other overlaps, from `start` to `end`; `err` is what the wrapped call returns.
unfoldable pub execute :
    {E : Type 0}
    → Option E
    → ℕ
    → ℕ
    → CircuitBreakerExecutor
    → CircuitBreakerExecutor × Option (ExecuteError E)
unfolding enter leave
execute err start end c =
    let (entered, admitted) = enter start c in
    if admitted then (leave (is_nil err) end entered, wrapped err) else (c, some circuit_open)
