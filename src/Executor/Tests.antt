-- ===== src/Executor/Tests.antt =====
-- The limiter at a concrete history.
use job_manager_quorum.Common.{◌+◌, ◌≤◌, ◌≡◌, refl, pos, [], ◌∷◌, List}
use job_manager_quorum.Executor.TokenBucket.{
  Event, ticked, called, run, step, refill, acquire, ticks, calls, new_callers,
  new_token_bucket_limiter, IsIdle, run-bounded,
}

-- Two callers wait, and two ticks give them their tokens.
abbrev history : List Event
history = called ∷ called ∷ called ∷ ticked ∷ ticked ∷ called ∷ []

history_served : (run history (new_callers (pos 1))).0 ≡ 3
unfolding run step refill acquire new_token_bucket_limiter
history_served = refl

run-bounded_example :
    let (n, after) = run history (new_callers (pos 1)) in
    (n + after.limiter.tokens ≤ 1 + 2)
    × (after.limiter.tokens ≤ 1)
    × (n + after.waiting ≡ 4)
    × IsIdle after
unfolding ticks calls
run-bounded_example = run-bounded (pos 1) history
