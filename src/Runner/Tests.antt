-- ===== src/Runner/Tests.antt =====
-- One pending job that fails on a local worker, and the loop of worker 7.
use job_manager_quorum.Common.{
  suc, true, ◌≤◌, ◌≢◌, ◌≡◌, refl, false, none, some, [], ◌∷◌, pos, lookup, insert, delete,
  ℕ_discrete, arith, Perm,
}
use job_manager_quorum.Common.Outcome.{ok}
use job_manager_quorum.Job.{Job, new_job}
use job_manager_quorum.Store.Memory.{MemoryStore, memory_store, new_memory_store, add, get}
use job_manager_quorum.Store.Memory.Index.{IsConsistent}
use job_manager_quorum.Store.Memory.Contract.{memory_store-Contract, new_memory_store-IsConsistent}
use job_manager_quorum.Scheduler.{Scheduler}
use job_manager_quorum.Scheduler.Rounds.{handle_result}
use job_manager_quorum.Runner.{Runner, new_runner, failure, result_of, submit, worker_busy}
use job_manager_quorum.Runner.Loop.{
  Phase, offering, offered, waiting, executing, is_receiving, System, count, Reach, here, next,
  offer, arrive, accept,
}
use job_manager_quorum.Runner.Available.{IsNew, places, Reach-places, rejected_forever}
use job_manager_quorum.Runner.LocalRetry.{failed_job, after_worker, local_failure-kept}

abbrev email_job : Job
email_job = new_job 1 "email" (pos 5)

abbrev one_job : MemoryStore
one_job = (add email_job new_memory_store).0

one_job-IsConsistent : IsConsistent one_job
unfolding get new_memory_store lookup
one_job-IsConsistent =
    (memory_store-Contract.common.add-ok email_job new_memory_store new_memory_store-IsConsistent tt
      refl).2

abbrev scheduler : Scheduler MemoryStore
scheduler = record {
  priority_queue = record { items = []; notify = false };
  delay_queue = record { items = []; notify = false };
  available = [];
  store = one_job;
  dlq = [];
  broker = none;
  leases = [];
}

abbrev runner : Runner
runner = new_runner 100

local_failure-kept_example :
    (s' : Scheduler MemoryStore) × (handle_result memory_store 50
        (result_of (some (failure "timeout")) email_job)
        (after_worker memory_store memory_store-Contract.common "timeout" 50 email_job runner
          scheduler)
      ≡ ok s')
    × (get 1 s'.store ≡ some (failed_job "timeout" email_job))
    × Perm s'.delay_queue.items (1 ∷ [])
    × (s'.dlq ≡ [])
unfolding get add new_memory_store new_job lookup insert delete ℕ_discrete
local_failure-kept_example =
    local_failure-kept memory_store memory_store-Contract.common "timeout" 50 email_job runner
      scheduler one_job-IsConsistent tt refl refl (omega arith)

abbrev starting : System MemoryStore
starting = record { phase = offering; available = 4 ∷ []; runner = runner; store = one_job }

starting-IsNew : IsNew memory_store 7 starting
unfolding count
starting-IsNew = (refl, refl)

-- Worker 7 stands in the channel, and its goroutine is not at the receive yet.
abbrev standing : System MemoryStore
standing = record starting { phase = offered; available = 4 ∷ 7 ∷ [] }

to_standing : Reach memory_store 7 starting standing
to_standing = next here (offer starting refl (omega arith))

abbrev running : System MemoryStore
running = record starting { phase = executing email_job }

to_running : Reach memory_store 7 starting running
unfolding count submit is_receiving
to_running =
    next (next to_standing (arrive standing refl))
      (accept (record standing { phase = waiting }) (4 ∷ []) email_job refl refl)

Reach-places_example : count 7 running.available ≤ places running.phase
Reach-places_example = Reach-places memory_store 7 starting-IsNew to_running

taken : count 7 standing.available ≡ suc (count 7 (4 ∷ []))
unfolding count
taken = refl

busy : submit false (is_receiving standing.phase) true ≡ some worker_busy
unfolding submit is_receiving
busy = refl

rejected_forever_example : (count 7 (4 ∷ []) ≡ 0) × ((j : Job) → Phase.waiting ≢ executing j)
rejected_forever_example =
    rejected_forever memory_store 7 {u = record standing { phase = waiting; available = 4 ∷ [] }}
      (4 ∷ []) starting-IsNew to_standing taken busy
      (next here (arrive (record standing { available = 4 ∷ [] }) refl))
