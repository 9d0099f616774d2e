-- ===== src/Scheduler.antt =====
-- internal/scheduler/scheduler.go: the leader's scheduler, over any job store. Each round of one of
-- its four loops is a function of the scheduler's state. What the environment supplies is an
-- argument: the clock's reading, whether the context is done, and the outcome of a worker's Submit.
-- Events, logs and trace spans change no state of the scheduler and are left out.
pub mod Rounds
pub mod Dispatch
pub mod Kept
pub mod Starvation
pub mod Results
pub mod Delay
pub mod DelayLoop
pub mod Recovery
pub mod Rebuild
mod Tests
use job_manager_quorum.Common.{
  ℕ, ◌+◌, ◌*◌, String, ℤ, pos, Bool, true, false, not, ◌&&◌, Option, none, some, List, [], ◌∷◌, ltb,
  leb, ◌==◌, ite, length, if◌then◌else◌,
}
use job_manager_quorum.Common.Outcome.{Outcome, ok, panic}
use job_manager_quorum.Job.{
  Job, Result, Status, pending, scheduled, completed, failed, Status-discrete, is_terminal,
}
use job_manager_quorum.Job.Retry.{should_retry, next_retry_time, second}
use job_manager_quorum.Job.Lease.{Lease, LeaseManager}
use job_manager_quorum.Job.Lease
use job_manager_quorum.Store.{Store, StoreError}
use job_manager_quorum.Queue.{
  JobQueue, priority_comparator, delay_comparator, enqueue, dequeue, peek,
}
use job_manager_quorum.Broker.{Broker, select_worker}
use job_manager_quorum.Dlq.{DeadLetterQueue}
use job_manager_quorum.Dlq

pub record Scheduler (S : Type 0) : Type 0 where
  pub priority_queue : JobQueue
  pub delay_queue : JobQueue
  pub available : List ℕ
  pub store : S
  pub dlq : DeadLetterQueue
  pub broker : Option Broker
  pub leases : LeaseManager

-- NewScheduler: the queues, the channel and the broker are shared with the engine and its manager.
unfoldable pub new_scheduler :
    {S : Type 0} → JobQueue → JobQueue → List ℕ → S → DeadLetterQueue → Option Broker → Scheduler S
new_scheduler priority_queue delay_queue available store dlq broker = record {
  priority_queue = priority_queue;
  delay_queue = delay_queue;
  available = available;
  store = store;
  dlq = dlq;
  broker = broker;
  leases = [];
}

-- The capacity of the channel of available workers (internal/workermanager/manager.go).
abbrev pub available_cap : ℕ
available_cap = 100

-- `config.Default().MaxBackoff`, one minute.
abbrev pub max_backoff : ℤ
max_backoff = pos (60 * second)

-- The number of the attempt that is about to start.
abbrev pub next_attempt : Option Lease → ℕ
next_attempt none = 1
next_attempt (some lease) = lease.attempt + 1

-- How a round of the inner loop of dispatchLoop ends: the queue is empty, or the loop goes on,
-- or the context is done.
pub data Round : Type 0 where
  drained continue cancelled_round : Round

module _ {S : Type 0} (st : Store S) where
  unfoldable pub enqueue_priority : ℕ → Scheduler S → Scheduler S
  enqueue_priority id s = record s {
    priority_queue = enqueue (priority_comparator st s.store) id s.priority_queue;
  }

  unfoldable pub enqueue_delay : ℕ → Scheduler S → Scheduler S
  enqueue_delay id s = record s {
    delay_queue = enqueue (delay_comparator st s.store) id s.delay_queue;
  }

  -- The `for` of RebuildQueuesFromStore over one list of jobs.
  unfoldable pub enqueue_all :
      (ℕ → Scheduler S → Scheduler S) → List Job → Scheduler S → Scheduler S
  enqueue_all put [] s = s
  enqueue_all put (j ∷ js) s = enqueue_all put js (put j.id s)

  unfoldable pub rebuild_scheduled :
      List Job × Option StoreError → Scheduler S → Scheduler S × Option StoreError
  rebuild_scheduled (jobs, some e) s = (s, some e)
  rebuild_scheduled (jobs, none) s = (enqueue_all enqueue_delay jobs s, none)

  unfoldable pub rebuild_pending :
      List Job × Option StoreError → Scheduler S → Scheduler S × Option StoreError
  unfolding rebuild_scheduled
  rebuild_pending (jobs, some e) s = (s, some e)
  rebuild_pending (jobs, none) s =
      rebuild_scheduled (st.list_by_status scheduled s.store) (enqueue_all enqueue_priority jobs s)

  unfoldable pub rebuild_queues_from_store : Scheduler S → Scheduler S × Option StoreError
  unfolding rebuild_pending
  rebuild_queues_from_store s = rebuild_pending (st.list_by_status pending s.store) s

  -- The choice of a worker: by the broker, or whoever is first in the channel.
  unfoldable pub choose_worker : String → Scheduler S → Option ℕ × List ℕ
  choose_worker kind s = elim s.broker [
    | some b ↦ select_worker b kind available_cap s.available
    | none ↦ elim s.available [ [] ↦ (none, []) | w ∷ rest ↦ (some w, rest) ]
  ]

  -- What follows when a worker was taken from the channel; `submit_ok` is the outcome of Submit.
  unfoldable pub dispatch_to : (ℕ → Job → Bool) → ℕ → Job → ℕ → Scheduler S → Scheduler S × Bool
  dispatch_to submit_ok now j w s =
      let attempt = next_attempt (Lease.get s.leases j.id) in
      let leased = record s { leases = Lease.acquire s.leases j.id w 1 attempt now } in
      if submit_ok w j then (leased, true) else (
        enqueue_priority j.id (record leased { leases = Lease.release leased.leases j.id }),
        false,
      )

  unfoldable pub dispatch : Bool → (ℕ → Job → Bool) → ℕ → Job → Scheduler S → Scheduler S × Bool
  unfolding dispatch_to
  dispatch ctx_done submit_ok now j s =
      let (chosen, left) = choose_worker j.kind s in
      let taken = record s { available = left } in
      if ctx_done then (s, false) else (elim chosen [
        | none ↦ (enqueue_priority j.id taken, false)
        | some w ↦ dispatch_to submit_ok now j w taken
      ])

  -- One round of the inner loop of dispatchLoop.
  unfoldable pub dispatch_round : Bool → (ℕ → Job → Bool) → ℕ → Scheduler S → Scheduler S × Round
  dispatch_round ctx_done submit_ok now s =
      elim (dequeue (priority_comparator st s.store) s.priority_queue) [
        | none ↦ (s, drained)
        | some (id, q) ↦
            let s' = record s { priority_queue = q } in
            elim (st.get id s.store) [
              | none ↦ (s', continue)
              | some j ↦
                  if is_terminal j.status
                  then (s', continue)
                  else (let (after, sent) = dispatch ctx_done submit_ok now j s' in
                      (after, if not sent && ctx_done then cancelled_round else continue))
            ]
      ]
