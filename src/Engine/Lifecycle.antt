-- ===== src/Engine/Lifecycle.antt =====
-- A job on its way through the engine of internal/engine/engine.go: submitted, dispatched to an idle
-- local worker, executed, and its result taken.
use job_manager_quorum.Common.{ℕ, ◌≡◌, Bool, true, false, some, List, [], ◌∷◌, ℕ-key}
use job_manager_quorum.Job.{Job, is_terminal}
use job_manager_quorum.Job.Lease.{Lease}
use job_manager_quorum.Job.Lease
use job_manager_quorum.Store.{Store}
use job_manager_quorum.Broker.{Broker, can_handle}
use job_manager_quorum.Scheduler.{Scheduler}
use job_manager_quorum.Runner.{Runner}
use job_manager_quorum.Engine.{Engine}

module _ {S : Type 0} (st : Store S) (submit_ok : ℕ → Job → Bool) (now : ℕ) (j : Job) (w : ℕ)
    (rest : List ℕ) (b : Broker) where
  -- The job is the only one in the queue, and the next worker can handle it and takes it.
  pub record IsReady (s : Scheduler S) : Type 0 where
    pub queued : s.priority_queue.items ≡ j.id ∷ []
    pub stored : st.get j.id s.store ≡ some j
    pub live : is_terminal j.status ≡ false
    pub routed : s.broker ≡ some b
    pub next : s.available ≡ w ∷ rest
    pub capable : can_handle b w j.kind ≡ true
    pub takes : submit_ok w j ≡ true

  -- The job has left the queue for the worker, under a lease.
  pub record Sent (s s' : Scheduler S) : Type 0 where
    pub emptied : s'.priority_queue.items ≡ []
    pub lease : Lease
    pub leased : Lease.get s'.leases j.id ≡ some lease
    pub holder : lease.worker_id ≡ w
    pub store : s'.store ≡ s.store
    pub left : s'.available ≡ rest
