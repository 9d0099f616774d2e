-- ===== src/Executor/TokenBucket.antt =====
-- internal/executor/token_bucket.go and ratelimited.go: the limiter is a channel of `burst` tokens
-- that a ticker refills, so its state is the number of tokens in the channel.
use job_manager_quorum.Common.{
  ℕ, zero, suc, ◌+◌, ◌/◌, ◌==◌, ◌≤◌, ◌≡◌, refl, ◌⊎◌, true, ℤ, pos, negsuc, Option, none, some, List,
  [], ◌∷◌, ltb, arith, Bool-cases, inl, inr, if◌then◌else◌,
}

pub record TokenBucketLimiter : Type 0 where
  pub burst : ℕ
  pub tokens : ℕ

-- A burst or rate below 1 counts as 1.
abbrev pub at_least_one : ℤ → ℕ
at_least_one (pos zero) = 1
at_least_one (pos (suc n)) = suc n
at_least_one (negsuc n) = 1

unfoldable pub new_token_bucket_limiter : ℤ → TokenBucketLimiter
new_token_bucket_limiter burst = record { burst = at_least_one burst; tokens = at_least_one burst }

-- One tick of the refill goroutine.
unfoldable pub refill : TokenBucketLimiter → TokenBucketLimiter
refill l = record l { tokens = if ltb l.tokens l.burst then suc l.tokens else l.tokens }

-- None while the call blocks.
unfoldable pub acquire : TokenBucketLimiter → Option TokenBucketLimiter
acquire l = elim l.tokens [ zero ↦ none | suc n ↦ some (record l { tokens = n }) ]

-- The time between two ticks in nanoseconds: a second by the rate, which counts as 1 below 1, and a
-- millisecond where that is nothing.
unfoldable pub refill_interval : ℤ → ℕ
refill_interval rate =
    let interval = 1000000000 / at_least_one rate in if interval == 0 then 1000000 else interval

-- Execute of RateLimitedExecutor: the wrapped executor runs once there is a token; none while the
-- call blocks.
unfoldable pub limited_execute :
    {E : Type 0} → TokenBucketLimiter → Option E → Option (TokenBucketLimiter × Option E)
unfolding acquire
limited_execute l result = elim (acquire l) [ none ↦ none | some l' ↦ some (l', result) ]

pub data Event : Type 0 where
  ticked : Event
  called : Event

-- The limiter, and how many callers are blocked in Acquire.
pub record Callers : Type 0 where
  pub limiter : TokenBucketLimiter
  pub waiting : ℕ

-- An event, with how many callers get their token at it. A call that finds no token waits, and the
-- token of a tick goes to a waiting caller.
unfoldable pub step : Event → Callers → ℕ × Callers
unfolding refill acquire
step called s = elim (acquire s.limiter) [
  | none ↦ (0, record s { waiting = suc s.waiting })
  | some l ↦ (1, record s { limiter = l })
]
step ticked s =
    let l = refill s.limiter in
    elim s.waiting [
      | zero ↦ (0, record s { limiter = l })
      | suc w ↦ elim (acquire l) [
        | none ↦ (0, record s { limiter = l })
        | some l' ↦ (1, record { limiter = l'; waiting = w })
      ]
    ]

unfoldable pub run : List Event → Callers → ℕ × Callers
unfolding step
run [] s = (0, s)
run (e ∷ events) s = let (n, s') = step e s in let (m, after) = run events s' in (n + m, after)

abbrev pub new_callers : ℤ → Callers
new_callers burst = record { limiter = new_token_bucket_limiter burst; waiting = 0 }

unfoldable pub ticks : List Event → ℕ
ticks [] = 0
ticks (ticked ∷ events) = suc (ticks events)
ticks (called ∷ events) = ticks events

unfoldable pub calls : List Event → ℕ
calls [] = 0
calls (ticked ∷ events) = calls events
calls (called ∷ events) = suc (calls events)

abbrev callers : ℕ → ℕ → ℕ → Callers
callers b t w = record { limiter = record { burst = b; tokens = t }; waiting = w }

-- Nobody waits while there is a token.
abbrev pub IsIdle : Callers → Type 0
IsIdle s = (s.waiting ≡ 0) ⊎ (s.limiter.tokens ≡ 0)

-- What a run from `t` tokens and `w` waiting callers comes to.
abbrev Within : List Event → ℕ → ℕ → ℕ → ℕ × Callers → Type 0
Within events b t w (n, after) =
    (n + after.limiter.tokens ≤ t + ticks events)
    × (after.limiter.tokens ≤ b)
    × (n + after.waiting ≡ w + calls events)
    × IsIdle after

-- A tick's token goes to a waiting caller.
handed_over : (b w : ℕ) → ltb 0 b ≡ true → step ticked (callers b 0 (suc w)) ≡ (1, callers b 0 w)
unfolding step refill acquire
handed_over b w room = rw (step, room) refl

run-Within :
    (events : List Event) (b t w : ℕ)
    → 1 ≤ b
    → t ≤ b
    → IsIdle (callers b t w)
    → Within events b t w (run events (callers b t w))
unfolding run step ticks calls refill acquire
run-Within [] b t w one h idle = (omega arith, h, omega arith, idle)
run-Within (called ∷ events) b zero w one h idle =
    let (held, small, served, rest) = run-Within events b 0 (suc w) one h (inr refl) in
    (omega (arith, held), small, omega (arith, served), rest)
run-Within (called ∷ events) b (suc t) w one h idle =
    let nobody : w ≡ 0 = ground (arith, idle) in
    let (held, small, served, rest) = run-Within events b t w one (omega arith) (inl nobody) in
    (omega (arith, held), small, omega (arith, served), rest)
run-Within (ticked ∷ events) b t zero one h idle = elim (Bool-cases (ltb t b)) [
  | inl room ↦
      let (held, small, served, rest) =
        run-Within events b (suc t) 0 one (ground arith) (inl refl) in
      rw (room, run) (omega (arith, held), small, omega (arith, served), rest)
  | inr full ↦
      let (held, small, served, rest) = run-Within events b t 0 one h (inl refl) in
      rw (full, run) (omega (arith, held), small, omega (arith, served), rest)
]
run-Within (ticked ∷ events) b zero (suc w) one h idle =
    let room : ltb 0 b ≡ true = ground (arith, one) in
    let (held, small, served, rest) = run-Within events b 0 w one h (inr refl) in
    rw (handed_over b w room, run) (omega (arith, held), small, omega (arith, served), rest)
run-Within (ticked ∷ events) b (suc t) (suc w) one h idle = absurd (ground (arith, idle))

one_le : (z : ℤ) → 1 ≤ at_least_one z
one_le (pos zero) = omega arith
one_le (pos (suc n)) = omega arith
one_le (negsuc n) = omega arith

-- From a new limiter, in any history of ticks and calls, where a call that finds no token waits for
-- one: the calls that got their token are at most `burst` more than there were ticks (a burst below 1
-- counts as 1), the channel never holds more than `burst` tokens, every call either got its token or
-- waits, and none waits while there is a token.
pub run-bounded :
    (burst : ℤ) (events : List Event)
    → let (n, after) = run events (new_callers burst) in
      (n + after.limiter.tokens ≤ at_least_one burst + ticks events)
      × (after.limiter.tokens ≤ at_least_one burst)
      × (n + after.waiting ≡ calls events)
      × IsIdle after
unfolding new_token_bucket_limiter
run-bounded burst events =
    let b = at_least_one burst in
    let (held, small, served, rest) =
      run-Within events b b 0 (one_le burst) (omega arith) (inl refl) in
    (held, small, omega (arith, served), rest)
