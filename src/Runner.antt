-- ===== src/Runner.antt =====
-- internal/runner/runner.go and internal/worker/worker.go: the execution of one job on a worker. What
-- the executor returns is an argument. A map of cancel functions is the list of running ids, each
-- with the number of its context; `cancelled` lists the contexts whose cancel function was called.
pub mod LocalRetry
pub mod LocalSuccess
pub mod Loop
pub mod Available
mod Tests
use job_manager_quorum.Common.{
  ℕ, suc, String, Bool, true, false, Option, none, some, List, [], ◌∷◌, ◌++◌, Map, lookup, insert,
  delete, ℕ-key, length, ltb, if◌then◌else◌,
}
use job_manager_quorum.Job.{Job, Result, Status, completed, failed, cancelled}
use job_manager_quorum.Store.{Store}

pub record Runner : Type 0 where
  pub results : List Result
  pub results_cap : ℕ
  pub active_tasks : Map ℕ ℕ
  pub cancelled : List ℕ
  pub next_context : ℕ

unfoldable pub new_runner : ℕ → Runner
new_runner results_cap = record {
  results = [];
  results_cap = results_cap;
  active_tasks = [];
  cancelled = [];
  next_context = 0;
}

-- The error of an executor: the cancellation of its context, or any other with its text.
pub data ExecuteError : Type 0 where
  context_canceled : ExecuteError
  failure : String → ExecuteError

abbrev pub error_text : ExecuteError → String
error_text context_canceled = "context canceled"
error_text (failure text) = text

unfoldable pub cancel : ℕ → Runner → Runner × Bool
cancel job_id r = elim (lookup job_id r.active_tasks) [
  | none ↦ (r, false)
  | some context ↦ (
    record r { active_tasks = delete job_id r.active_tasks; cancelled = context ∷ r.cancelled },
    true,
  )
]

unfoldable pub send_result : Result → Runner → Runner
send_result result r = record r {
  results = if ltb (length r.results) r.results_cap then r.results ++ result ∷ [] else r.results;
}

-- The part of Execute before the executor runs: its new context is the task's.
unfoldable pub start_execute : Job → Runner → Runner
start_execute j r = record r {
  active_tasks = insert j.id r.next_context r.active_tasks;
  next_context = suc r.next_context;
}

-- The job as Execute writes it back, by what the executor returned.
unfoldable pub executed : Option ExecuteError → Job → Job
executed none j = record j { status = completed }
executed (some context_canceled) j = record j { status = cancelled }
executed (some (failure text)) j = record j { status = failed; last_error = text }

abbrev pub result_of : Option ExecuteError → Job → Result
result_of none j = record { job_id = j.id; success = true; error = none; attempt = 0 }
result_of (some e) j = record {
  job_id = j.id;
  success = false;
  error = some (error_text e);
  attempt = 0;
}

module _ {S : Type 0} (st : Store S) where
  -- `r.Store` may be nil: then nothing is written, and `s` is not read.
  unfoldable pub write_back : Bool → Job → S → S
  write_back has_store j s = if has_store then (st.update j s).0 else s

  -- The part after the executor returned: the store, the result, and the deferred clean-up.
  unfoldable pub finish_execute : Bool → Option ExecuteError → Job → ℕ → Runner → S → Runner × S
  unfolding write_back executed send_result
  finish_execute has_store err j context r s =
      let sent = send_result (result_of err j) r in
      (
        record sent {
          active_tasks = delete j.id sent.active_tasks;
          cancelled = context ∷ sent.cancelled;
        },
        write_back has_store (executed err j) s,
      )

  unfoldable pub execute : Bool → Option ExecuteError → Job → Runner → S → Runner × S
  unfolding start_execute finish_execute
  execute has_store err j r s = finish_execute has_store err j r.next_context (start_execute j r) s

-- internal/worker/worker.go
pub data SubmitError : Type 0 where
  context_done : SubmitError
  worker_busy : SubmitError

-- Submit: `receiving` tells whether the worker waits at its unbuffered channel. A `select` whose
-- context is done and whose worker waits takes either way: `prefers_send` is its choice.
unfoldable pub submit : Bool → Bool → Bool → Option SubmitError
submit ctx_done receiving prefers_send =
    if ctx_done
    then (if receiving
        then (if prefers_send then none else some context_done)
        else some context_done)
    else (if receiving then none else some worker_busy)
