-- ===== src/Scheduler/Recovery.antt =====
-- recoveryLoop of internal/scheduler/scheduler.go after a worker's death, and RebuildQueuesFromStore.
use mathlib.Core.List.{Mem, mem-cons_self, mem-cons_of_mem}
use mathlib.Core.List.Perm
use job_manager_quorum.Common.{
  ℕ, ◌≡◌, refl, sym, ◌∙◌, ap, inl, inr, Bool, true, false, none, some, List, [], ◌∷◌, ite, if_pos,
  if_neg, Distinct, In, Option-cases, arith, lookup, ℕ-key, subst, lookup-insert,
}
use job_manager_quorum.Job.{Job, Result, Status-discrete, pending}
use job_manager_quorum.Job.Lease.{Lease, release_by_worker}
use job_manager_quorum.Job.Lease
use job_manager_quorum.Job.Lease.Laws.{unless_held, released_leases, released_jobs}
use job_manager_quorum.Store.{Store}
use job_manager_quorum.Queue.{priority_comparator}
use job_manager_quorum.Queue.Laws.{enqueue-perm}
use job_manager_quorum.Scheduler.{Scheduler, enqueue_priority, dispatch_to}
use job_manager_quorum.Scheduler.Rounds.{is_stale, requeue_released, handle_dead_worker}

module _ {S : Type 0} (st : Store S) where
  Mem-enqueue_priority :
      (id x : ℕ) (s : Scheduler S)
      → Mem x s.priority_queue.items
      → Mem x (enqueue_priority st id s).priority_queue.items
  unfolding enqueue_priority
  Mem-enqueue_priority id x s m =
      (Perm.mem_iff (enqueue-perm (priority_comparator st s.store) id s.priority_queue).0).1
        (mem-cons_of_mem id m)

  -- One job of the loop: it is queued if it is still pending, and nothing else is touched.
  abbrev requeue_one : ℕ → Scheduler S → Scheduler S
  requeue_one id s = elim (st.get id s.store) [
    | none ↦ s
    | some j ↦ ite (Status-discrete j.status pending) (enqueue_priority st id s) s
  ]

  record Grows (s s' : Scheduler S) : Type 0 where
    store : s'.store ≡ s.store
    leases : s'.leases ≡ s.leases
    queue : (x : ℕ) → Mem x s.priority_queue.items → Mem x s'.priority_queue.items

  requeue_one-Grows : (id : ℕ) (s : Scheduler S) → Grows s (requeue_one id s)
  unfolding enqueue_priority
  requeue_one-Grows id s = elim (Option-cases (st.get id s.store)) [
    | inl e ↦ rw (e, requeue_one) (record { store = refl; leases = refl; queue = λ x m. m })
    | inr (j, e) ↦ elim (Status-discrete j.status pending) [
      | yes p ↦
          rw (e, requeue_one, if_pos _ p)
            (record { store = refl; leases = refl; queue = λ x m. Mem-enqueue_priority id x s m })
      | no n ↦
          rw (e, requeue_one, if_neg _ n) (record { store = refl; leases = refl; queue = λ x m. m })
    ]
  ]

  requeue_released-Grows : (ids : List ℕ) (s : Scheduler S) → Grows s (requeue_released st ids s)
  unfolding requeue_released
  requeue_released-Grows [] s = record { store = refl; leases = refl; queue = λ x m. m }
  requeue_released-Grows (id ∷ ids) s =
      let one = requeue_one-Grows id s in
      let rest = requeue_released-Grows ids (requeue_one id s) in
      record {
        store = rest.store ∙ one.store;
        leases = rest.leases ∙ one.leases;
        queue = λ x m. rest.queue x (one.queue x m);
      }

  requeue_one-pending :
      (id : ℕ) (s : Scheduler S) (j : Job)
      → st.get id s.store ≡ some j
      → j.status ≡ pending
      → requeue_one id s ≡ enqueue_priority st id s
  requeue_one-pending id s j e p = rw (e, requeue_one, if_pos _ p)

  requeued_pending :
      (ids : List ℕ) (s : Scheduler S) (k : ℕ) (j : Job)
      → In k ids
      → st.get k s.store ≡ some j
      → j.status ≡ pending
      → Mem k (requeue_released st ids s).priority_queue.items
  unfolding requeue_released enqueue_priority
  requeued_pending [] s k j h e p = absurd h
  requeued_pending (id ∷ ids) s k j (inr h) e p =
      let one = requeue_one-Grows id s in
      requeued_pending ids (requeue_one id s) k j h (ap (st.get k) one.store ∙ e) p
  requeued_pending (id ∷ ids) s k j (inl same) e p =
      (requeue_released-Grows ids (requeue_one id s)).queue k (
        subst (λ i. Mem k (requeue_one i s).priority_queue.items) (sym same)
          (subst (λ u. Mem k u.priority_queue.items) (sym (requeue_one-pending k s j e p))
            ((Perm.mem_iff (enqueue-perm (priority_comparator st s.store) k s.priority_queue).0).1
              mem-cons_self)))

  -- When a worker dies, recoveryLoop drops exactly its leases, changes no stored job, and queues every
  -- job that it held a lease of and that is stored as pending, where each job has one lease.
  pub handle_dead_worker-recovers :
      (w : ℕ) (s : Scheduler S)
      → Distinct s.leases
      → let s' = handle_dead_worker st w s in
        ((k : ℕ) → Lease.get s'.leases k ≡ unless_held w (Lease.get s.leases k))
        × (s'.store ≡ s.store)
        × ((k : ℕ) (lease : Lease) (j : Job)
            → Lease.get s.leases k ≡ some lease
            → lease.worker_id ≡ w
            → st.get k s.store ≡ some j
            → j.status ≡ pending
            → Mem k s'.priority_queue.items)
  unfolding handle_dead_worker Lease.get
  handle_dead_worker-recovers w s d =
      let (ids, kept) = release_by_worker s.leases w in
      let grown = requeue_released-Grows ids (record s { leases = kept }) in
      (
        λ k. ap (lookup k) grown.leases ∙ released_leases s.leases w k d,
        grown.store,
        λ k lease j held by stored open_job.
            requeued_pending ids (record s { leases = kept }) k j
              (released_jobs s.leases w k lease held by) stored open_job,
      )

  -- After the recovery from a worker's death and the dispatch of a job that it held, to another worker
  -- whose Submit succeeds, a result of attempt 1 of that job does not count as stale.
  pub late_result_accepted :
      (submit_ok : ℕ → Job → Bool) (now w w' : ℕ) (j : Job) (lease : Lease) (r : Result)
      (s : Scheduler S)
      → Distinct s.leases
      → Lease.get s.leases j.id ≡ some lease
      → lease.worker_id ≡ w
      → submit_ok w' j ≡ true
      → r.attempt ≡ 1
      → let (s', sent) = dispatch_to st submit_ok now j w' (handle_dead_worker st w s) in
        (sent ≡ true) × (is_stale (Lease.get s'.leases j.id) r ≡ false)
  unfolding dispatch_to Lease.get Lease.acquire
  late_result_accepted submit_ok now w w' j lease r s d held by accepted first =
      let gone : Lease.get (handle_dead_worker st w s).leases j.id ≡ none =
        (handle_dead_worker-recovers w s d).0 j.id ∙ ap (unless_held w) held ∙ ground arith in
      let s' = handle_dead_worker st w s in
      let granted : Lease = record {
        job_id = j.id;
        worker_id = w';
        term = 1;
        attempt = 1;
        started_at = now;
      } in
      ground (arith, gone, lookup-insert j.id j.id granted s'.leases)
