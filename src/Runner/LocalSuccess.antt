-- ===== src/Runner/LocalSuccess.antt =====
-- What resultLoop (internal/scheduler/scheduler.go) does with the result of a job that a local worker
-- (internal/runner/runner.go) completed.
use job_manager_quorum.Common.{
  ℕ, ◌≡◌, ◌≢◌, refl, ◌∙◌, true, none, some, if_pos, if_neg, ℕ_discrete, ℕ-key, lookup-delete, arith,
}
use job_manager_quorum.Common.Outcome.{ok}
use job_manager_quorum.Job.{Job, pending, completed, Status-discrete, is_valid_transition}
use job_manager_quorum.Job.Lease
use job_manager_quorum.Store.{Store, ContractWithin, accepts}
use job_manager_quorum.Scheduler.{Scheduler}
use job_manager_quorum.Scheduler.Rounds.{handle_released, handle_result}
use job_manager_quorum.Runner.{Runner, executed, result_of, write_back, finish_execute, execute}
use job_manager_quorum.Runner.LocalRetry.{never_stale}

abbrev pub completed_job : Job → Job
completed_job j = record j { status = completed }

module _ {S : Type 0} (st : Store S) {Fits : Job → Type 0} {IsConsistent : S → Type 0}
    (k : ContractWithin st Fits IsConsistent) (now : ℕ) (j : Job) (r : Runner)
    (s : Scheduler S) where
  -- The scheduler with the store as the worker leaves it.
  abbrev pub after_success : Scheduler S
  after_success = record s { store = (execute st true none j r s.store).1 }

  -- The job is completed in the store, its lease is gone, and all else is as before.
  pub record Completed (s' : Scheduler S) : Type 0 where
    pub stored : st.get j.id s'.store ≡ some (completed_job j)
    pub others : (id : ℕ) → j.id ≢ id → st.get id s'.store ≡ st.get id s.store
    pub released : Lease.get s'.leases j.id ≡ none
    pub queue : s'.priority_queue ≡ s.priority_queue
    pub delayed : s'.delay_queue ≡ s.delay_queue
    pub consistent : IsConsistent s'.store

  -- When a pending job succeeds on a local worker, the worker's and resultLoop's updates both pass, and
  -- the job ends as completed without a lease; no other job and no queue changes.
  pub local_success-Completed :
      IsConsistent s.store
      → Fits (completed_job j)
      → st.get j.id s.store ≡ some j
      → j.status ≡ pending
      → (s' : Scheduler S) × (handle_result st now (result_of none j) after_success ≡ ok s')
        × Completed s'
  unfolding execute finish_execute write_back executed handle_result handle_released
      is_valid_transition Status-discrete Lease.get Lease.release
  local_success-Completed v fits stored is_pending =
      let cj = completed_job j in
      let allowed : accepts (st.get j.id s.store) completed ≡ true =
        ground (arith, stored, is_pending) in
      let (ok1, put, v') = k.update-ok cj s.store v fits allowed in
      let found : st.get j.id (st.update cj s.store).0 ≡ some cj =
        put j.id ∙ if_pos (ℕ_discrete j.id j.id) refl _ _ in
      let again : accepts (st.get j.id (st.update cj s.store).0) completed ≡ true = rw found refl in
      let (ok2, put2, v2) = k.update-ok cj (st.update cj s.store).0 v' fits again in
      (
        record s {
          store = (st.update cj (st.update cj s.store).0).0;
          leases = Lease.release s.leases j.id;
        },
        rw (found, handle_result, never_stale (Lease.get s.leases j.id) (result_of none j) refl)
            refl,
        record {
          stored = put2 j.id ∙ if_pos (ℕ_discrete j.id j.id) refl _ _;
          others = λ id n.
              put2 id
              ∙ if_neg (ℕ_discrete j.id id) n _ _
              ∙ put id
              ∙ if_neg (ℕ_discrete j.id id) n _ _;
          released = lookup-delete j.id j.id s.leases ∙ if_pos (ℕ_discrete j.id j.id) refl _ _;
          queue = refl;
          delayed = refl;
          consistent = v2;
        },
      )
