-- ===== src/Runner/LocalRetry.antt =====
-- A local worker (internal/runner/runner.go) writes the outcome of a job to the store that the
-- scheduler shares; what resultLoop (internal/scheduler/scheduler.go) then does with its result.
use job_manager_quorum.Common.{
  ℕ, String, ◌<◌, ◌≡◌, refl, ap, ◌∙◌, true, false, Option, none, some, ◌∷◌, Perm, if_pos, lt→ltb,
  ◌+◌, ℕ_discrete, arith,
}
use job_manager_quorum.Common.Outcome.{ok}
use job_manager_quorum.Job.{
  Job, Result, pending, scheduled, failed, Status-discrete, is_valid_transition,
}
use job_manager_quorum.Job.Retry.{should_retry, next_retry_time}
use job_manager_quorum.Job.Lease
use job_manager_quorum.Job.Lease.{Lease}
use job_manager_quorum.Store.{Store, ContractWithin, accepts}
use job_manager_quorum.Queue.{delay_comparator}
use job_manager_quorum.Queue.Laws.{enqueue-perm}
use job_manager_quorum.Scheduler.{Scheduler, enqueue_delay, max_backoff}
use job_manager_quorum.Scheduler.Rounds.{is_stale, handle_failure, handle_released, handle_result}
use job_manager_quorum.Runner.{
  Runner, failure, executed, result_of, write_back, finish_execute, execute,
}

pub never_stale : (l : Option Lease) (r : Result) → r.attempt ≡ 0 → is_stale l r ≡ false
never_stale none r e = refl
never_stale (some lease) r e = ground (arith, e)

-- The job as the local worker leaves it after a failure.
abbrev pub failed_job : String → Job → Job
failed_job text j = record j { status = failed; last_error = text }

module _ {S : Type 0} (st : Store S) {Fits : Job → Type 0} {IsConsistent : S → Type 0}
    (k : ContractWithin st Fits IsConsistent) (text : String) (now : ℕ) (j : Job) (r : Runner)
    (s : Scheduler S) where
  -- The scheduler with the store as the local worker leaves it.
  abbrev pub after_worker : Scheduler S
  after_worker = record s { store = (execute st true (some (failure text)) j r s.store).1 }

  -- When a job that is pending and has retries left fails on a local worker, the job is already
  -- stored as failed when resultLoop gets the result: its update to scheduled is refused, so the job
  -- stays failed with its retry count as it was. Its id is put into the delay queue all the same, and
  -- the job is not put into the dead-letter queue. The failed job keeps the limits that the store has.
  pub local_failure-kept :
      IsConsistent s.store
      → Fits (failed_job text j)
      → st.get j.id s.store ≡ some j
      → j.status ≡ pending
      → j.retry_count < j.max_retries
      → (s' : Scheduler S) × (handle_result st now (result_of (some (failure text)) j) after_worker
          ≡ ok s')
        × (st.get j.id s'.store ≡ some (failed_job text j))
        × Perm s'.delay_queue.items (j.id ∷ s.delay_queue.items)
        × (s'.dlq ≡ s.dlq)
  unfolding execute finish_execute write_back executed handle_result handle_released handle_failure
      should_retry enqueue_delay is_valid_transition Status-discrete
  local_failure-kept v fits stored is_pending more =
      let fj = failed_job text j in
      let allowed : accepts (st.get j.id s.store) failed ≡ true =
        ground (arith, stored, is_pending) in
      let (ok1, put, v') = k.update-ok fj s.store v fits allowed in
      let found : st.get j.id (st.update fj s.store).0 ≡ some fj =
        put j.id ∙ if_pos (ℕ_discrete j.id j.id) refl _ _ in
      let s1 = record after_worker { leases = Lease.release s.leases j.id } in
      let counted = record fj { retry_count = j.retry_count + 1; status = scheduled } in
      let again = record counted { next_run_at = next_retry_time now counted max_backoff } in
      let refused : accepts (st.get j.id s1.store) scheduled ≡ false = rw found refl in
      let same = (k.update-rejected again s1.store v' refused).0 in
      let s2 = record s1 { store = (st.update again s1.store).0 } in
      (
        enqueue_delay st j.id s2,
        rw (
          found,
          handle_result,
          never_stale (Lease.get s.leases j.id) (result_of (some (failure text)) j) refl,
          lt→ltb j.retry_count j.max_retries more,
        ),
        ap (st.get j.id) same ∙ found,
        (enqueue-perm (delay_comparator st s2.store) j.id s.delay_queue).0,
        refl,
      )
