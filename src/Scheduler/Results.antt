-- ===== src/Scheduler/Results.antt =====
-- resultLoop of internal/scheduler/scheduler.go: what a result does to the job that it is about.
use Prim.Native.Nat.{min}
use job_manager_quorum.Common.{
  ℕ, ◌+◌, ◌*◌, ◌^◌, ◌≤◌, ◌<◌, ◌≡◌, ◌∙◌, inl, inr, refl, sym, ap, subst, String, true, false, none,
  some, ◌∷◌, Perm, Bool-cases, arith, lookup-insert, lookup-delete, ℕ-key, ltb, lt→ltb, ltb→lt,
  in_then, in_else, if◌then◌else◌,
}
use job_manager_quorum.Common.Outcome.{ok}
use job_manager_quorum.Job.{
  Job, Result, Status, pending, scheduled, completed, failed, Status-discrete, is_valid_transition,
}
use job_manager_quorum.Job.Retry.{second, should_retry}
use job_manager_quorum.Job.Retry.Bounds.{next_retry_time-exact}
use job_manager_quorum.Job.Lease
use job_manager_quorum.Store.{Store, ContractWithin, accepts, Puts}
use job_manager_quorum.Queue.{delay_comparator}
use job_manager_quorum.Queue.Laws.{enqueue-perm}
use job_manager_quorum.Dlq
use job_manager_quorum.Scheduler.{Scheduler, enqueue_delay}
use job_manager_quorum.Scheduler.Rounds.{is_stale, handle_failure, handle_result}

-- The job as it is to be after a failed attempt that it may retry.
abbrev pub retried : ℕ → String → Job → Job
retried now text j = record j {
  status = scheduled;
  retry_count = j.retry_count + 1;
  last_error = text;
  next_run_at = now + second * min (2 ^ (j.retry_count + 1)) 60;
}

-- The job as it is to be after its last failed attempt.
abbrev pub dead : String → Job → Job
dead text j = record j { status = failed; last_error = text }

abbrev pub done : Job → Job
done j = record j { status = completed }

module _ {S : Type 0} (st : Store S) where
  -- The stored job has become `j'`, and every other stored job is as it was.
  abbrev pub Stored : Job → Scheduler S → Scheduler S → Type 0
  Stored j' s s' = Puts st j' s.store s'.store

  pub record Retried (now : ℕ) (text : String) (j : Job) (s s' : Scheduler S) : Type 0 where
    pub stored : Stored (retried now text j) s s'
    pub released : Lease.get s'.leases j.id ≡ none
    pub delayed : Perm s'.delay_queue.items (j.id ∷ s.delay_queue.items)
    pub same_dlq : s'.dlq ≡ s.dlq

  pub record Buried (text : String) (j : Job) (s s' : Scheduler S) : Type 0 where
    pub stored : Stored (dead text j) s s'
    pub released : Lease.get s'.leases j.id ≡ none
    pub not_delayed : s'.delay_queue ≡ s.delay_queue
    pub in_dlq : Dlq.get j.id s'.dlq ≡ some (dead text j)

  pub record Finished (j : Job) (s s' : Scheduler S) : Type 0 where
    pub stored : Stored (done j) s s'
    pub released : Lease.get s'.leases j.id ≡ none
    pub not_delayed : s'.delay_queue ≡ s.delay_queue
    pub same_dlq : s'.dlq ≡ s.dlq

  -- What is to become of the job of a result: completed if the attempt succeeded, scheduled again if
  -- it failed with retries left, and buried if it failed for the last time.
  abbrev pub Settled : ℕ → Result → String → Job → Scheduler S → Scheduler S → Type 0
  Settled now r text j s s' =
      if r.success
      then Finished j s s'
      else if ltb j.retry_count j.max_retries
      then Retried now text j s s'
      else Buried text j s s'

  released_lem : (s : Scheduler S) (id : ℕ) → Lease.get (Lease.release s.leases id) id ≡ none
  unfolding Lease.get Lease.release
  released_lem s id = ground (arith, lookup-delete id id s.leases)

  handle_failure-retry :
      (now : ℕ) (j : Job) (text : String) (s : Scheduler S)
      → j.retry_count < j.max_retries
      → j.max_retries ≤ 33
      → handle_failure st now j text s
        ≡ enqueue_delay st j.id (record s { store = (st.update (retried now text j) s.store).0 })
  unfolding handle_failure should_retry
  handle_failure-retry now j text s budget small =
      let counted = record j {
        retry_count = j.retry_count + 1;
        status = scheduled;
        last_error = text;
      } in
      rw
        (lt→ltb j.retry_count j.max_retries budget, next_retry_time-exact now counted (omega arith))

  handle_failure-dead :
      (now : ℕ) (j : Job) (text : String) (s : Scheduler S)
      → j.max_retries ≤ j.retry_count
      → handle_failure st now j text s ≡ record s {
        store = (st.add_dlq (dead text j) (st.update (dead text j) s.store).0).0;
        dlq = Dlq.add (dead text j) s.dlq;
      }
  unfolding handle_failure should_retry
  handle_failure-dead now j text s spent =
      let over : ltb j.retry_count j.max_retries ≡ false = ground arith in rw over

  module _ {Fits : Job → Type 0} {IsConsistent : S → Type 0}
      (c : ContractWithin st Fits IsConsistent) where
    module _ (now : ℕ) (r : Result) (j : Job) (s : Scheduler S) (v : IsConsistent s.store)
        (stored : st.get r.job_id s.store ≡ some j) (is_pending : j.status ≡ pending)
        (fresh : is_stale (Lease.get s.leases r.job_id) r ≡ false) where
      same : j.id ≡ r.job_id
      same = c.get-id s.store r.job_id j v stored

      released_job : Lease.get (Lease.release s.leases r.job_id) j.id ≡ none
      released_job =
          subst (λ k. Lease.get (Lease.release s.leases r.job_id) k ≡ none) (sym same)
            (released_lem s r.job_id)

      accepted :
          (t : Status)
          → is_valid_transition pending t ≡ true
          → accepts (st.get j.id s.store) t ≡ true
      accepted t h =
          subst (λ o. accepts o t ≡ true) (sym (ap (λ k. st.get k s.store) same ∙ stored))
            (subst (λ u. is_valid_transition u t ≡ true) (sym is_pending) h)

      -- A successful attempt of a pending job completes it.
      pub success_completes :
          Fits (done j)
          → r.success ≡ true
          → (s' : Scheduler S) × (handle_result st now r s ≡ ok s') × Finished j s s'
      unfolding handle_result is_valid_transition Status-discrete
      success_completes fits e =
          let s1 = record s { leases = Lease.release s.leases r.job_id } in
          (
            record s1 { store = (st.update (done j) s.store).0 },
            rw (stored, handle_result, fresh, e),
            record {
              stored = (c.update-ok (done j) s.store v fits (accepted completed refl)).1;
              released = released_job;
              not_delayed = refl;
              same_dlq = refl;
            },
          )

      -- A failed attempt of a pending job that has retries left schedules the next one.
      failure_retries :
          (text : String)
          → Fits (retried now text j)
          → r.success ≡ false
          → r.error ≡ some text
          → j.retry_count < j.max_retries
          → j.max_retries ≤ 33
          → (s' : Scheduler S) × (handle_result st now r s ≡ ok s') × Retried now text j s s'
      unfolding handle_result enqueue_delay is_valid_transition Status-discrete
      failure_retries text fits e f budget small =
          let s1 = record s { leases = Lease.release s.leases r.job_id } in
          let s2 = record s1 { store = (st.update (retried now text j) s.store).0 } in
          (
            enqueue_delay st j.id s2,
            rw (stored, handle_result, fresh, e, f)
                (ap ok (handle_failure-retry now j text s1 budget small)),
            record {
              stored =
                  (c.update-ok (retried now text j) s.store v fits (accepted scheduled refl)).1;
              released = released_job;
              delayed = (enqueue-perm (delay_comparator st s2.store) j.id s.delay_queue).0;
              same_dlq = refl;
            },
          )

      -- The last failed attempt of a pending job buries it in both dead-letter queues.
      failure_buries :
          (text : String)
          → Fits (dead text j)
          → r.success ≡ false
          → r.error ≡ some text
          → j.max_retries ≤ j.retry_count
          → (s' : Scheduler S) × (handle_result st now r s ≡ ok s') × Buried text j s s'
      unfolding handle_result is_valid_transition Status-discrete Dlq.get Dlq.add
      failure_buries text fits e f spent =
          let s1 = record s { leases = Lease.release s.leases r.job_id } in
          let updated = (st.update (dead text j) s.store).0 in
          let put = (c.update-ok (dead text j) s.store v fits (accepted failed refl)).1 in
          (
            record s1 {
              store = (st.add_dlq (dead text j) updated).0;
              dlq = Dlq.add (dead text j) s.dlq;
            },
            rw (stored, handle_result, fresh, e, f)
                (ap ok (handle_failure-dead now j text s1 spent)),
            record {
              stored = λ id. (c.add_dlq-keeps (dead text j) updated id).0 ∙ put id;
              released = released_job;
              not_delayed = refl;
              in_dlq = ground (arith, lookup-insert j.id j.id (dead text j) s.dlq);
            },
          )

    -- A result for a stored pending job that is not stale, with an error text if it is a failure,
    -- never panics. It releases the lease and changes no other stored job; the job is completed, or
    -- scheduled after 2 ^ n seconds (at most a minute) with its n-th retry counted and queued in the
    -- delay queue, or failed and put into the dead-letter queue when its retries, of which 33 at most
    -- are configured, are spent. The three jobs that may be
    -- written keep the limits that the store has.
    pub handle_result-Settled :
        (now : ℕ) (r : Result) (text : String) (j : Job) (s : Scheduler S)
        → IsConsistent s.store
        → Fits (done j) × Fits (retried now text j) × Fits (dead text j)
        → st.get r.job_id s.store ≡ some j
        → j.status ≡ pending
        → j.max_retries ≤ 33
        → is_stale (Lease.get s.leases r.job_id) r ≡ false
        → (r.success ≡ false → r.error ≡ some text)
        → (s' : Scheduler S) × (handle_result st now r s ≡ ok s') × Settled now r text j s s'
    handle_result-Settled now r text j s v fits stored open_job small fresh has_text =
        elim (Bool-cases r.success) [
          | inl e ↦
              let (s', run, p) = success_completes now r j s v stored open_job fresh fits.0 e in
              (s', run, in_then _ _ r.success e p)
          | inr e ↦ elim (Bool-cases (ltb j.retry_count j.max_retries)) [
            | inl more ↦
                let (s', run, p) =
                  failure_retries now r j s v stored open_job fresh text fits.1 e (has_text e)
                    (ltb→lt _ _ more) small in
                (
                  s',
                  run,
                  in_else _ _ r.success e (in_then _ _ (ltb j.retry_count j.max_retries) more p),
                )
            | inr spent ↦
                let (s', run, p) =
                  failure_buries now r j s v stored open_job fresh text fits.2 e (has_text e)
                    (ground arith) in
                (
                  s',
                  run,
                  in_else _ _ r.success e (in_else _ _ (ltb j.retry_count j.max_retries) spent p),
                )
          ]
        ]
