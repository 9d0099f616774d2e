-- ===== src/Scheduler/Dispatch.antt =====
-- Dispatch and the inner loop of dispatchLoop (internal/scheduler/scheduler.go).

use job_manager_quorum.Common.{
  ℕ, ◌≡◌, inl, inr, refl, Bool, true, false, some, ◌∷◌, Perm, Option-cases, Bool-cases, arith,
  lookup-insert, ℕ-key,
}
use job_manager_quorum.Job.{Job}
use job_manager_quorum.Job.Lease.{Lease}
use job_manager_quorum.Job.Lease
use job_manager_quorum.Store.{Store}
use job_manager_quorum.Queue.{priority_comparator}
use job_manager_quorum.Queue.Laws.{enqueue-perm}
use job_manager_quorum.Scheduler.{
  Scheduler, enqueue_priority, choose_worker, next_attempt, dispatch_to, dispatch,
}

module _ {S : Type 0} (st : Store S) where
  -- The lease that Dispatch grants for a job.
  abbrev granted : Scheduler S → Job → ℕ → ℕ → Lease
  granted s j w now = record {
    job_id = j.id;
    worker_id = w;
    term = 1;
    attempt = next_attempt (Lease.get s.leases j.id);
    started_at = now;
  }

  -- The outcome of Dispatch while the context is live.
  abbrev pub Dispatched : (ℕ → Job → Bool) → ℕ → Job → Scheduler S → Scheduler S × Bool → Type 0
  Dispatched submit_ok now j s (s', true) =
      (w : ℕ) × (submit_ok w j ≡ true)
      × (Lease.get s'.leases j.id ≡ some (granted s j w now))
      × (s'.priority_queue ≡ s.priority_queue)
      × (s'.store ≡ s.store)
  Dispatched submit_ok now j s (s', false) =
      Perm s'.priority_queue.items (j.id ∷ s.priority_queue.items) × (s'.store ≡ s.store)

  module _ (submit_ok : ℕ → Job → Bool) (now : ℕ) (j : Job) where
    dispatch_to-Dispatched :
        (w : ℕ) (s : Scheduler S)
        → Dispatched submit_ok now j s (dispatch_to st submit_ok now j w s)
    unfolding dispatch_to enqueue_priority Lease.get Lease.acquire
    dispatch_to-Dispatched w s = elim (Bool-cases (submit_ok w j)) [
      | inl e ↦
          rw e
            (w, e, ground (arith, lookup-insert j.id j.id (granted s j w now) s.leases), refl, refl)
      | inr e ↦ rw e ((enqueue-perm (priority_comparator st s.store) j.id s.priority_queue).0, refl)
    ]

    -- A Dispatch with a live context either hands the job to a worker whose Submit succeeded, under a
    -- lease with the attempt number after that of its lease, and leaves the priority queue as it was,
    -- or adds the job to the priority queue. Neither changes the store.
    pub dispatch-Dispatched :
        (s : Scheduler S) → Dispatched submit_ok now j s (dispatch st false submit_ok now j s)
    unfolding dispatch enqueue_priority
    dispatch-Dispatched s =
        let left = (choose_worker st j.kind s).1 in
        elim (Option-cases (choose_worker st j.kind s).0) [
          | inl e ↦
              rw (e, dispatch)
                ((enqueue-perm (priority_comparator st s.store) j.id s.priority_queue).0, refl)
          | inr (w, e) ↦ rw (e, dispatch) (dispatch_to-Dispatched w (record s { available = left }))
        ]
