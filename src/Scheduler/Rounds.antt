-- ===== src/Scheduler/Rounds.antt =====
-- internal/scheduler/scheduler.go: ProcessDelayedJobs, and one round of resultLoop, delayLoop and
-- recoveryLoop.
use job_manager_quorum.Common.{
  ℕ, zero, suc, ◌+◌, String, Bool, false, not, ◌&&◌, Option, none, some, List, [], ◌∷◌, ltb, ◌==◌,
  ite, length, if◌then◌else◌,
}
use job_manager_quorum.Common.Outcome.{Outcome, ok, ◌>>=◌, or_panic}
use job_manager_quorum.Job.{Job, Result, pending, scheduled, completed, failed, Status-discrete}
use job_manager_quorum.Job.Retry.{should_retry, next_retry_time}
use job_manager_quorum.Job.Lease.{Lease}
use job_manager_quorum.Job.Lease
use job_manager_quorum.Store.{Store}
use job_manager_quorum.Queue.{delay_comparator, dequeue, peek}
use job_manager_quorum.Dlq
use job_manager_quorum.Scheduler.{Scheduler, max_backoff, enqueue_priority, enqueue_delay}

-- The test for a result of an attempt that the lease no longer counts.
abbrev pub is_stale : Option Lease → Result → Bool
is_stale none r = false
is_stale (some lease) r = ltb 0 r.attempt && not (r.attempt == lease.attempt)

module _ {S : Type 0} (st : Store S) where
  -- `s.DelayQueue.Dequeue()` with its result dropped.
  unfoldable pub drop_delayed : Scheduler S → Scheduler S
  drop_delayed s = elim (dequeue (delay_comparator st s.store) s.delay_queue) [
    | none ↦ s
    | some (id, q) ↦ record s { delay_queue = q }
  ]

  -- The promotion of a due job that stands at the head of the delay queue.
  unfoldable pub promote : ℕ → Job → Scheduler S → Scheduler S
  unfolding drop_delayed
  promote id j s =
      let s' = drop_delayed s in
      let (store, failure) = st.update (record j { status = pending }) s'.store in
      let updated = record s' { store = store } in
      elim failure [ some _ ↦ updated | none ↦ enqueue_priority st id updated ]

  -- One round of the loop of ProcessDelayedJobs; `none` when it returns.
  unfoldable pub delayed_round : ℕ → Scheduler S → Option (Scheduler S)
  unfolding promote drop_delayed
  delayed_round now s = elim (peek s.delay_queue) [
    | none ↦ none
    | some id ↦ elim (st.get id s.store) [
      | none ↦ some (drop_delayed s)
      | some j ↦ if ltb now j.next_run_at then none else some (promote id j s)
    ]
  ]

  -- The loop, with fuel. Its clock is read once: the same `now` serves every round.
  unfoldable pub process_delayed : ℕ → ℕ → Scheduler S → Option (Scheduler S)
  process_delayed zero now s = none
  process_delayed (suc fuel) now s = elim (delayed_round now s) [
    | none ↦ some s
    | some s' ↦ process_delayed fuel now s'
  ]

  -- Each round takes an id off the delay queue (Delay), so this fuel is enough.
  unfoldable pub process_delayed_jobs : ℕ → Scheduler S → Option (Scheduler S)
  process_delayed_jobs now s = process_delayed (suc (length s.delay_queue.items)) now s

  -- The branch of resultLoop for an attempt that failed, with the text of its error.
  unfoldable pub handle_failure : ℕ → Job → String → Scheduler S → Scheduler S
  handle_failure now j text s =
      let counted = record j {
        retry_count = j.retry_count + 1;
        status = scheduled;
        last_error = text;
      } in
      let retried = record counted { next_run_at = next_retry_time now counted max_backoff } in
      let dead = record j { status = failed; last_error = text } in
      if should_retry j
      then enqueue_delay st j.id (record s { store = (st.update retried s.store).0 })
      else record s {
        store = (st.add_dlq dead (st.update dead s.store).0).0;
        dlq = Dlq.add dead s.dlq;
      }

  -- A failed result with a nil error panics: `result.Error.Error()`.
  unfoldable pub handle_released : ℕ → Job → Result → Scheduler S → Outcome (Scheduler S)
  unfolding handle_failure
  handle_released now j r s =
      let done = record j { status = completed } in
      if r.success
      then ok (record s { store = (st.update done s.store).0 })
      else (do text ← or_panic r.error; ok (handle_failure now j text s))

  -- One result received by resultLoop.
  unfoldable pub handle_result : ℕ → Result → Scheduler S → Outcome (Scheduler S)
  unfolding handle_released
  handle_result now r s = elim (st.get r.job_id s.store) [
    | none ↦ ok s
    | some j ↦
        if is_stale (Lease.get s.leases r.job_id) r
        then ok s
        else handle_released now j r (record s { leases = Lease.release s.leases r.job_id })
  ]

  -- The loop of recoveryLoop over the released jobs.
  unfoldable pub requeue_released : List ℕ → Scheduler S → Scheduler S
  requeue_released [] s = s
  requeue_released (id ∷ ids) s = requeue_released ids (elim (st.get id s.store) [
    | none ↦ s
    | some j ↦ ite (Status-discrete j.status pending) (enqueue_priority st id s) s
  ])

  -- One dead worker received by recoveryLoop.
  unfoldable pub handle_dead_worker : ℕ → Scheduler S → Scheduler S
  handle_dead_worker worker_id s =
      let (released, leases) = Lease.release_by_worker s.leases worker_id in
      requeue_released released (record s { leases = leases })
