-- ===== src/Handlers/Submission.antt =====
-- POST /jobs of internal/handlers/jobs.go with an idempotency key, through
-- internal/engine/engine.go to the in-memory store.
use job_manager_quorum.Common.{
  ℕ, suc, ◌≡◌, ◌≢◌, refl, ap, ◌∙◌, String, true, false, Option, none, some, ltℤ, pos,
}
use job_manager_quorum.Common.Text.{trim_space}
use job_manager_quorum.Job.{Job}
use job_manager_quorum.Store.Memory.{MemoryStore, memory_store, find_by_idempotency_key}
use job_manager_quorum.Store.Memory.Index.{IsConsistent}
use job_manager_quorum.Engine.{Engine, submit_job_idempotent}
use job_manager_quorum.Engine.Submit.{IsFresh, Accepted, IsNewJob, submit_job_idempotent-twice}
use job_manager_quorum.Handlers.{
  SubmitJobRequest, post, respond, job_submitted, is_blank, submitted_response, submit_decoded,
  submit_job_handler, jobs_handler,
}

-- A request for an immediate job that the handler's checks let pass.
abbrev pub IsImmediate : SubmitJobRequest → Type 0
IsImmediate req =
    (is_blank req.kind ≡ false)
    × (ltℤ req.priority (pos 0) ≡ false)
    × (is_blank (trim_space req.run_at) ≡ true)

-- What the handler does with such a request.
immediate :
    (parse_time : String → Option ℕ) (now : ℕ) (req : SubmitJobRequest) (e : Engine MemoryStore)
    → IsImmediate req
    → jobs_handler memory_store none parse_time now post (some req) e
      ≡ submitted_response memory_store none
          (submit_job_idempotent memory_store none req.idempotency_key req.kind req.priority e)
unfolding jobs_handler submit_job_handler submit_decoded
immediate parse_time now req e (kind, priority, run_at) = rw (kind, priority, run_at) refl

-- In the standalone mode over the in-memory store, with a counter above every stored id: the first
-- POST /jobs with a key that is not empty and not seen yet is answered with 201 and stores a new
-- pending job under the next id, with the type, the priority and the key of the request, which it
-- queues; a POST with the same key that comes next, whatever type and priority it gives, is answered
-- with 200 and the id and key of that job, and changes nothing. Both requests have a type, a priority that is not negative, and no `run_at`.
pub post-twice :
    (parse_time : String → Option ℕ) (now later : ℕ) (req req' : SubmitJobRequest)
    (e : Engine MemoryStore)
    → IsImmediate req
    → IsImmediate req'
    → req.idempotency_key ≢ ""
    → req'.idempotency_key ≡ req.idempotency_key
    → IsConsistent e.scheduler.store
    → IsFresh memory_store e
    → find_by_idempotency_key req.idempotency_key e.scheduler.store ≡ none
    → (e' : Engine MemoryStore) × (j : Job) × (jobs_handler memory_store none parse_time now post
          (some req)
          e
        ≡ (e', respond 201 (job_submitted j.id j.idempotency_key)))
      × IsNewJob (suc e.next_job_id) req.kind req.priority req.idempotency_key j
      × Accepted memory_store j e e'
      × (jobs_handler memory_store none parse_time later post (some req') e'
          ≡ (e', respond 200 (job_submitted j.id j.idempotency_key)))
post-twice parse_time now later req req' e i i' named same v fresh unseen =
    let (e', j, first, created, accepted, second) =
      submit_job_idempotent-twice req.idempotency_key req.kind req'.kind req.priority req'.priority
        e named v fresh unseen in
    (
      e',
      j,
      immediate parse_time now req e i ∙ ap (submitted_response memory_store none) first,
      created,
      accepted,
      immediate parse_time later req' e' i'
          ∙ ap
              (λ key.
                submitted_response memory_store none
                  (submit_job_idempotent memory_store none key req'.kind req'.priority e'))
              same
          ∙ ap (submitted_response memory_store none) second,
    )
