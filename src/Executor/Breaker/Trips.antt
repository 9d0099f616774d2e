-- ===== src/Executor/Breaker/Trips.antt =====
-- When the circuit breaker opens, what it then rejects, and how it recovers.
use job_manager_quorum.Common.{
  ℕ, suc, ◌+◌, ◌≤◌, ◌<◌, ◌≡◌, refl, pos, Bool, true, false, some, List, [], ◌∷◌, length, ap, ◌∙◌,
  All, arith, if◌then◌else◌, ltℤ,
}
use job_manager_quorum.Executor.Breaker.{
  CircuitBreakerExecutor, closed, opened, half_open, enter, leave, execute,
  new_circuit_breaker_executor,
}

-- Calls that begin and end at the given times and fail, one after another.
unfoldable pub fail_all :
    {E : Type 0} → E → List (ℕ × ℕ) → CircuitBreakerExecutor → CircuitBreakerExecutor
fail_all e [] c = c
fail_all e ((start, end) ∷ times) c = fail_all e times (execute (some e) start end c).0

-- Callers that arrive at the given times while no call ends, and whether one is let through.
unfoldable pub enter_all : List ℕ → CircuitBreakerExecutor → CircuitBreakerExecutor × Bool
enter_all [] c = (c, false)
enter_all (now ∷ times) c =
    let (c', admitted) = enter now c in
    let rest = enter_all times c' in if admitted then (c', true) else rest

open_rejects :
    (times : List ℕ) (c : CircuitBreakerExecutor)
    → c.state ≡ opened
    → All (λ t. t < c.opened_at + c.reset_timeout) times
    → enter_all times c ≡ (c, false)
unfolding enter_all enter
open_rejects [] c is_open early = refl
open_rejects (t ∷ times) c is_open (now, later) =
    ground (arith, is_open, now, open_rejects times c is_open later)

testing_rejects :
    (times : List ℕ) (c : CircuitBreakerExecutor)
    → c.state ≡ half_open
    → c.half_open_testing ≡ true
    → enter_all times c ≡ (c, false)
unfolding enter_all enter
testing_rejects [] c half testing = refl
testing_rejects (t ∷ times) c half testing =
    ground (arith, half, testing, testing_rejects times c half testing)

fails_at :
    {E : Type 0} (e : E) (start end : ℕ) (c : CircuitBreakerExecutor) (n : ℕ)
    → c.state ≡ closed
    → c.failure_threshold ≡ pos n
    → suc c.failures < n
    → let c' = (execute (some e) start end c).0 in
      (c'.state ≡ closed)
      × (c'.failures ≡ suc c.failures)
      × (c'.failure_threshold ≡ pos n)
      × (c'.reset_timeout ≡ c.reset_timeout)
unfolding execute enter leave
fails_at e start end c n is_closed threshold few = ground (arith, is_closed, threshold, few)

trips_at :
    {E : Type 0} (e : E) (start end : ℕ) (c : CircuitBreakerExecutor) (n : ℕ)
    → c.state ≡ closed
    → c.failure_threshold ≡ pos n
    → suc c.failures ≡ n
    → let c' = (execute (some e) start end c).0 in
      (c'.state ≡ opened) × (c'.opened_at ≡ end) × (c'.reset_timeout ≡ c.reset_timeout)
unfolding execute enter leave
trips_at e start end c n is_closed threshold last = ground (arith, is_closed, threshold, last)

-- When the last of the calls ends.
abbrev pub last_end : ℕ × ℕ → List (ℕ × ℕ) → ℕ
last_end (start, end) [] = end
last_end first (next ∷ times) = last_end next times

record IsTripped (c : CircuitBreakerExecutor) (from span : ℕ) : Type 0 where
  state : c.state ≡ opened
  since : c.opened_at ≡ from
  timeout : c.reset_timeout ≡ span

fail_all-IsTripped :
    {E : Type 0} (e : E) (first : ℕ × ℕ) (times : List (ℕ × ℕ)) (c : CircuitBreakerExecutor)
    → c.state ≡ closed
    → c.failure_threshold ≡ pos (suc (c.failures + length times))
    → IsTripped (fail_all e (first ∷ times) c) (last_end first times) c.reset_timeout
unfolding fail_all
fail_all-IsTripped e (start, end) [] c is_closed threshold =
    let (s, o, r) = trips_at e start end c _ is_closed threshold (omega arith) in
    record { state = s; since = o; timeout = r }
fail_all-IsTripped e (start, end) (next ∷ times) c is_closed threshold =
    let (s, f, n, r) = fails_at e start end c _ is_closed threshold (omega arith) in
    let rest =
      fail_all-IsTripped e next times (execute (some e) start end c).0 s
        (n ∙ ap pos (omega (arith, f))) in
    record { state = rest.state; since = rest.since; timeout = rest.timeout ∙ r }

-- A new breaker opens after as many failing calls in a row as its threshold, and then rejects every
-- caller until the reset timeout has passed since the last of them ended.
pub trips :
    {E : Type 0} (e : E) (first : ℕ × ℕ) (times : List (ℕ × ℕ)) (timeout : ℕ) (callers : List ℕ)
    → All (λ t. t < last_end first times + timeout) callers
    → let c =
        fail_all e
          (first ∷ times)
          (new_circuit_breaker_executor (pos (suc (length times))) timeout) in
      (c.state ≡ opened) × (enter_all callers c ≡ (c, false))
unfolding new_circuit_breaker_executor
trips e first times timeout callers early =
    let new = new_circuit_breaker_executor (pos (suc (length times))) timeout in
    let tripped = fail_all-IsTripped e first times new refl (ap pos (omega arith)) in
    (
      tripped.state,
      open_rejects callers (fail_all e (first ∷ times) new) tripped.state
          (rw (tripped.since, tripped.timeout) early),
    )

-- When the reset timeout of an open breaker has passed, one caller is let through, and while it runs
-- every other one is rejected. If it succeeds the breaker closes with no failure counted; if it
-- fails, the count being at the threshold already, the breaker is open again from then on.
pub one_trial :
    (now done_at : ℕ) (callers : List ℕ) (c : CircuitBreakerExecutor)
    → c.state ≡ opened
    → c.opened_at + c.reset_timeout ≤ now
    → ltℤ (pos c.failures) c.failure_threshold ≡ false
    → let (trial, admitted) = enter now c in
      (admitted ≡ true)
      × (enter_all callers trial ≡ (trial, false))
      × ((leave true done_at trial).state ≡ closed)
      × ((leave true done_at trial).failures ≡ 0)
      × ((leave false done_at trial).state ≡ opened)
      × ((leave false done_at trial).opened_at ≡ done_at)
unfolding enter leave
one_trial now done_at callers c is_open late reached =
    let (trial, admitted) = enter now c in
    let half : trial.state ≡ half_open = ground (arith, is_open, late) in
    let testing : trial.half_open_testing ≡ true = ground (arith, is_open, late) in
    (
      ground (arith, is_open, late),
      testing_rejects callers trial half testing,
      refl,
      refl,
      ground (arith, is_open, late, reached),
      ground (arith, is_open, late, reached),
    )
