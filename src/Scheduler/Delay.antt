-- ===== src/Scheduler/Delay.antt =====
-- ProcessDelayedJobs of internal/scheduler/scheduler.go: it ends, and leaves no due job at the head.
use job_manager_quorum.Common.{
  ℕ, zero, suc, ◌<◌, ◌≡◌, refl, ◌⊎◌, inl, inr, Option, none, some, length, length-perm, ltb,
  Option-cases, Bool-cases, arith,
}
use job_manager_quorum.Job.{Job}
use job_manager_quorum.Store.{Store}
use job_manager_quorum.Queue.{JobQueue, delay_comparator, dequeue, peek}
use job_manager_quorum.Queue.Laws.{dequeue-perm, Dequeued}
use job_manager_quorum.Scheduler.{Scheduler, enqueue_priority}
use job_manager_quorum.Scheduler.Rounds.{
  drop_delayed, promote, delayed_round, process_delayed, process_delayed_jobs,
}

module _ {S : Type 0} (st : Store S) where
  -- The head of the delay queue is absent, or is a stored job that is not due.
  abbrev pub HeadNotDue : ℕ → Scheduler S → Type 0
  HeadNotDue now s =
      (peek s.delay_queue ≡ none)
      ⊎ ((id : ℕ) × (j : Job) × (peek s.delay_queue ≡ some id)
          × (st.get id s.store ≡ some j)
          × (now < j.next_run_at))

  drop_shorter_of :
      (s : Scheduler S) (id : ℕ) (r : Option (ℕ × JobQueue))
      → peek s.delay_queue ≡ some id
      → dequeue (delay_comparator st s.store) s.delay_queue ≡ r
      → Dequeued (delay_comparator st s.store) s.delay_queue r
      → length (drop_delayed st s).delay_queue.items < length s.delay_queue.items
  unfolding drop_delayed peek
  drop_shorter_of s id none p e empty = absurd (ground arith)
  drop_shorter_of s id (some (x, q)) p e (same, front, token) =
      rw (e, drop_delayed) (omega (arith, length-perm same))

  drop_shorter :
      (s : Scheduler S) (id : ℕ)
      → peek s.delay_queue ≡ some id
      → length (drop_delayed st s).delay_queue.items < length s.delay_queue.items
  drop_shorter s id p =
      drop_shorter_of s id _ p refl (dequeue-perm (delay_comparator st s.store) s.delay_queue)

  promote-queue :
      (id : ℕ) (j : Job) (s : Scheduler S)
      → (promote st id j s).delay_queue ≡ (drop_delayed st s).delay_queue
  unfolding promote enqueue_priority
  promote-queue id j s = ground arith

  -- A round either stops with no due job at the head, or shortens the delay queue.
  abbrev RoundEnd : ℕ → Scheduler S → Option (Scheduler S) → Type 0
  RoundEnd now s none = HeadNotDue now s
  RoundEnd now s (some s') = length s'.delay_queue.items < length s.delay_queue.items

  delayed_round-RoundEnd : (now : ℕ) (s : Scheduler S) → RoundEnd now s (delayed_round st now s)
  unfolding delayed_round
  delayed_round-RoundEnd now s = elim (Option-cases (peek s.delay_queue)) [
    | inl e ↦ rw (e, delayed_round) (inl e)
    | inr (id, e) ↦ elim (Option-cases (st.get id s.store)) [
      | inl gone ↦ rw (e, delayed_round, gone) (drop_shorter s id e)
      | inr (j, found) ↦ elim (Bool-cases (ltb now j.next_run_at)) [
        | inl later ↦ rw (e, delayed_round, found, later) (inr (id, j, e, found, ground arith))
        | inr due ↦ rw (e, delayed_round, found, due, promote-queue id j s) (drop_shorter s id e)
      ]
    ]
  ]

  round_total :
      (fuel now : ℕ) (s : Scheduler S) (r : Option (Scheduler S))
      → length s.delay_queue.items < suc fuel
      → RoundEnd now s r
      → ((s' : Scheduler S)
          → length s'.delay_queue.items < fuel
          → (s'' : Scheduler S) × (process_delayed st fuel now s' ≡ some s'') × HeadNotDue now s'')
      → delayed_round st now s ≡ r
      → (s' : Scheduler S) × (process_delayed st (suc fuel) now s ≡ some s') × HeadNotDue now s'
  unfolding process_delayed
  round_total fuel now s none h done rec e = (s, rw (e, process_delayed), done)
  round_total fuel now s (some s') h shorter rec e = rw (e, process_delayed) (rec s' (omega arith))

  process_delayed_total :
      (fuel now : ℕ) (s : Scheduler S)
      → length s.delay_queue.items < fuel
      → (s' : Scheduler S) × (process_delayed st fuel now s ≡ some s') × HeadNotDue now s'
  process_delayed_total zero now s h = absurd (omega arith)
  process_delayed_total (suc fuel) now s h =
      round_total fuel now s (delayed_round st now s) h (delayed_round-RoundEnd now s)
        (process_delayed_total fuel now) refl

  -- ProcessDelayedJobs always ends, and then the delay queue is empty or its head is a stored job
  -- that is not due yet.
  pub process_delayed_jobs_total :
      (now : ℕ) (s : Scheduler S)
      → (s' : Scheduler S) × (process_delayed_jobs st now s ≡ some s') × HeadNotDue now s'
  unfolding process_delayed_jobs
  process_delayed_jobs_total now s =
      process_delayed_total (suc (length s.delay_queue.items)) now s (omega arith)
