-- ===== src/Scheduler/Tests.antt =====
-- Runs of the scheduler over the in-memory store, and its theorems at concrete inputs.
use mathlib.Core.List.{Mem, mem-cons, mem-cons_self, not-mem-nil}
use mathlib.Core.Logic.Or
use mathlib.Core.Bool.{Bool-set}
use job_manager_quorum.Common.{
  ℕ, zero, suc, ◌≡◌, ◌≢◌, refl, Bool, true, false, some, List, [], ◌∷◌, pos, insert, lookup, delete,
  String-discrete, arith, ℕ_discrete,
}
use job_manager_quorum.Common.Outcome.{ok}
use job_manager_quorum.Common.Arrays.{at}
use job_manager_quorum.Job.{Job, Result, scheduled, pending, zero_job, is_terminal}
use job_manager_quorum.Job.Lease
use job_manager_quorum.Store.Memory.{
  MemoryStore, memory_store, new_memory_store, add, get, new_memory_store,
}
use job_manager_quorum.Store.Memory.Index.{IsConsistent}
use job_manager_quorum.Store.Memory.Contract.{memory_store-Contract, new_memory_store-IsConsistent}
use job_manager_quorum.Queue.{priority_comparator, delay_comparator, peek}
use job_manager_quorum.Heap.Order.{IsHeap}
use job_manager_quorum.Broker.{Broker, can_handle}
use job_manager_quorum.Scheduler.{Scheduler, dispatch, dispatch_round}
use job_manager_quorum.Scheduler.Rounds.{handle_result}
use job_manager_quorum.Scheduler.Dispatch.{Dispatched, dispatch-Dispatched}
use job_manager_quorum.Scheduler.Kept.{IsTracked, dispatch_round-IsTracked}
use job_manager_quorum.Scheduler.Starvation.{IsBlocked, dispatch_rounds, blocked_forever}
use job_manager_quorum.Common.{Distinct, ℕ-key}
use job_manager_quorum.Job.Lease.Laws.{unless_held}
use job_manager_quorum.Scheduler.Rounds.{process_delayed_jobs, handle_dead_worker}
use job_manager_quorum.Scheduler.DelayLoop.{until_timer, delay_turn, Sleeps, delay_turn-Sleeps}
use job_manager_quorum.Scheduler.Delay.{HeadNotDue, process_delayed_jobs_total}
use job_manager_quorum.Scheduler.Recovery.{handle_dead_worker-recovers}
use job_manager_quorum.Scheduler.Results.{Settled, handle_result-Settled}

abbrev email_job : Job
email_job = record zero_job {
  id = 1;
  kind = "email";
  priority = pos 5;
  status = pending;
  max_retries = 3;
}

abbrev video_job : Job
video_job = record zero_job {
  id = 2;
  kind = "video";
  priority = pos 9;
  status = pending;
  max_retries = 3;
}

abbrev one_job : MemoryStore
one_job = (add email_job new_memory_store).0

abbrev two_jobs : MemoryStore
two_jobs = (add video_job one_job).0

one_job-IsConsistent : IsConsistent one_job
unfolding get new_memory_store lookup
one_job-IsConsistent =
    (memory_store-Contract.common.add-ok email_job new_memory_store new_memory_store-IsConsistent tt
      refl).2

two_jobs-IsConsistent : IsConsistent two_jobs
unfolding get add new_memory_store lookup insert delete ℕ_discrete
two_jobs-IsConsistent =
    (memory_store-Contract.common.add-ok video_job one_job one_job-IsConsistent tt refl).2

-- Worker 7 is available, and handles e-mail only.
abbrev email_broker : Broker
email_broker = record {
  worker_topics = (7, ("email", tt) ∷ []) ∷ [];
  worker_is_all = (7, false) ∷ [];
}

abbrev sample : Scheduler MemoryStore
sample = record {
  priority_queue = record { items = 2 ∷ 1 ∷ []; notify = true };
  delay_queue = record { items = []; notify = false };
  available = 7 ∷ [];
  store = two_jobs;
  dlq = [];
  broker = some email_broker;
  leases = [];
}

abbrev accepts_all : ℕ → Job → Bool
accepts_all w j = true

abbrev failure : Result
failure = record { job_id = 1; success = false; error = some "timeout"; attempt = 1 }

dispatch-Dispatched_example :
    Dispatched memory_store accepts_all 50 email_job sample
      (dispatch memory_store false accepts_all 50 email_job sample)
dispatch-Dispatched_example = dispatch-Dispatched memory_store accepts_all 50 email_job sample

dispatch_round-IsTracked_example :
    IsTracked 2 (dispatch_round memory_store false accepts_all 50 sample).0
unfolding get add new_memory_store lookup insert delete ℕ_discrete is_terminal
dispatch_round-IsTracked_example =
    dispatch_round-IsTracked memory_store accepts_all 50 memory_store-Contract.common sample 2
      two_jobs-IsConsistent mem-cons_self refl

handle_result-Settled_example :
    (s' : Scheduler MemoryStore) × (handle_result memory_store 100 failure sample ≡ ok s')
    × Settled memory_store 100 failure "timeout" email_job sample s'
unfolding get add new_memory_store lookup insert delete ℕ_discrete Lease.get
handle_result-Settled_example =
    handle_result-Settled memory_store memory_store-Contract.common 100 failure "timeout" email_job
      sample two_jobs-IsConsistent (tt, tt, tt) refl refl (omega arith) refl (λ e. refl)

two_ordered : IsHeap (priority_comparator memory_store two_jobs) (2 ∷ 1 ∷ []) 2
unfolding priority_comparator at get add new_memory_store lookup insert delete ℕ_discrete
two_ordered zero p q = absurd (omega arith)
two_ordered (suc zero) p q = refl
two_ordered (suc (suc c)) p q = absurd (omega arith)

video_first :
    (x : ℕ) → Mem x (2 ∷ 1 ∷ []) → x ≢ 2 → priority_comparator memory_store two_jobs 2 x ≡ true
unfolding priority_comparator get add new_memory_store lookup insert delete ℕ_discrete
video_first x m n =
    Or.elim (Bool-set _ _) (mem-cons.0 m) (λ e. absurd (n e))
      (λ rest. Or.elim (Bool-set _ _) (mem-cons.0 rest) (λ e. rw e) (λ k. absurd (not-mem-nil k)))

sample-IsBlocked : IsBlocked memory_store video_job email_broker sample
unfolding can_handle get add new_memory_store lookup insert delete ℕ_discrete String-discrete
    is_terminal
sample-IsBlocked = record {
  routed = refl;
  refused = (refl, tt);
  bounded = omega arith;
  stored = refl;
  live = refl;
  ordered = two_ordered;
  queued = mem-cons_self;
  first = video_first;
}

abbrev three_rounds : List ((ℕ → Job → Bool) × ℕ)
three_rounds = (accepts_all, 1) ∷ (accepts_all, 2) ∷ (accepts_all, 3) ∷ []

blocked_forever_example : (dispatch_rounds memory_store three_rounds sample).0.leases ≡ []
blocked_forever_example =
    (blocked_forever memory_store video_job email_broker three_rounds sample sample-IsBlocked).1

-- Jobs 1 and 2 are leased to worker 7 and worker 8.
abbrev leased : Scheduler MemoryStore
leased = record sample {
  priority_queue = record { items = []; notify = false };
  delay_queue = record { items = 2 ∷ 1 ∷ []; notify = true };
  leases =
      (1, record { job_id = 1; worker_id = 7; term = 1; attempt = 1; started_at = 10 })
      ∷ (2, record { job_id = 2; worker_id = 8; term = 1; attempt = 1; started_at = 11 })
      ∷ [];
}

leased-Distinct : Distinct leased.leases
unfolding lookup ℕ_discrete
leased-Distinct = (refl, (refl, tt))

process_delayed_jobs_total_example :
    (s' : Scheduler MemoryStore) × (process_delayed_jobs memory_store 100 leased ≡ some s')
    × HeadNotDue memory_store 100 s'
process_delayed_jobs_total_example = process_delayed_jobs_total memory_store 100 leased

handle_dead_worker-recovers_example :
    Lease.get (handle_dead_worker memory_store 7 leased).leases 1
    ≡ unless_held 7 (Lease.get leased.leases 1)
handle_dead_worker-recovers_example =
    (handle_dead_worker-recovers memory_store 7 leased leased-Distinct).0 1

-- Job 1 is scheduled for the time 90.
abbrev delayed : Scheduler MemoryStore
delayed = record sample {
  delay_queue = record { items = 1 ∷ []; notify = false };
  store = (add (record email_job { status = scheduled; next_run_at = 90 }) new_memory_store).0;
}

delayed-IsOrdered : IsHeap (delay_comparator memory_store delayed.store) (1 ∷ []) 1
delayed-IsOrdered zero p q = absurd (omega arith)
delayed-IsOrdered (suc c) p q = absurd (omega arith)

delay_turn-Sleeps_example : Sleeps memory_store 50 delayed (delay_turn memory_store 50 delayed)
delay_turn-Sleeps_example = delay_turn-Sleeps memory_store 50 delayed delayed-IsOrdered

sleeps : delay_turn memory_store 50 delayed ≡ until_timer 40
unfolding delay_turn get add new_memory_store lookup insert delete ℕ_discrete peek
sleeps = refl
