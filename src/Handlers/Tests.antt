-- ===== src/Handlers/Tests.antt =====
-- Requests to a server without jobs.
use job_manager_quorum.Common.{
  ◌≡◌, refl, String-discrete, pos, negsuc, false, none, some, [], lookup, ℕ-key,
}
use job_manager_quorum.Common.Text.{trim_space}
use job_manager_quorum.Job.{Job}
use job_manager_quorum.Store.Memory.{
  MemoryStore, memory_store, new_memory_store, get, find_by_idempotency_key,
}
use job_manager_quorum.Store.Memory.Contract.{new_memory_store-IsConsistent}
use job_manager_quorum.Engine.{Engine}
use job_manager_quorum.Engine.Submit.{Accepted, IsNewJob}
use job_manager_quorum.Handlers.{
  SubmitJobRequest, post, respond, refuse, job_submitted, jobs_handler, submit_job_handler,
  submit_decoded,
}
use job_manager_quorum.Handlers.Submission.{IsImmediate, post-twice}

abbrev engine : Engine MemoryStore
engine = record {
  scheduler = record {
    priority_queue = record { items = []; notify = false };
    delay_queue = record { items = []; notify = false };
    available = [];
    store = new_memory_store;
    dlq = [];
    broker = none;
    leases = [];
  };
  next_job_id = 0;
  cron_jobs = [];
}

abbrev request : SubmitJobRequest
request = record { kind = "email"; priority = pos 5; run_at = " "; idempotency_key = "k" }

abbrev other_request : SubmitJobRequest
other_request = record request { kind = "video"; priority = pos 1 }

refuses :
    jobs_handler memory_store none
      (λ s. none)
      0
      post
      (some (record request { priority = negsuc 0 }))
      engine
    ≡ (engine, refuse 400 "priority must be >= 0")
unfolding jobs_handler submit_job_handler submit_decoded String-discrete
refuses = refl

request-IsImmediate : IsImmediate request
unfolding String-discrete trim_space
request-IsImmediate = (refl, refl, refl)

other_request-IsImmediate : IsImmediate other_request
unfolding String-discrete trim_space
other_request-IsImmediate = (refl, refl, refl)

post-twice_example :
    (e' : Engine MemoryStore) × (j : Job) × (jobs_handler memory_store none
        (λ s. none)
        7
        post
        (some request)
        engine
      ≡ (e', respond 201 (job_submitted j.id j.idempotency_key)))
    × IsNewJob 1 "email" (pos 5) "k" j
    × Accepted memory_store j engine e'
    × (jobs_handler memory_store none (λ s. none) 9 post (some other_request) e'
        ≡ (e', respond 200 (job_submitted j.id j.idempotency_key)))
unfolding find_by_idempotency_key get new_memory_store lookup String-discrete
post-twice_example =
    post-twice (λ s. none) 7 9 request other_request engine request-IsImmediate
      other_request-IsImmediate (λ e. cc) refl new_memory_store-IsConsistent (λ id above. refl) refl
