-- ===== src/Rpc/Attempts.antt =====
-- The attempt number of a result on its way from a worker node (internal/runner/runner.go,
-- cmd/worker/main.go) to resultLoop (internal/scheduler/scheduler.go).
use job_manager_quorum.Common.{
  ℕ, ◌<◌, ◌≡◌, refl, false, Option, none, some, [], ◌∷◌, ◌++◌, length, lt→ltb, is_some, not,
}
use job_manager_quorum.Job.{Job, Result}
use job_manager_quorum.Job.Lease.{Lease}
use job_manager_quorum.Store.{Store}
use job_manager_quorum.Scheduler.Rounds.{is_stale}
use job_manager_quorum.Runner.{
  Runner, ExecuteError, execute, start_execute, finish_execute, send_result, result_of,
}
use job_manager_quorum.Rpc.{submit_message, received_job, report_request, reported_result}

-- What a result of this worker becomes at the control node.
arrives :
    (worker_id : ℕ) (err : Option ExecuteError) (j : Job)
    → let r = reported_result (report_request worker_id (result_of err j)) in
      (r.job_id ≡ j.id) × (r.success ≡ not (is_some err)) × (r.attempt ≡ 0)
unfolding reported_result report_request
arrives worker_id none j = (refl, refl, refl)
arrives worker_id (some e) j = (refl, refl, refl)

never_stale : (lease : Option Lease) (r : Result) → r.attempt ≡ 0 → is_stale lease r ≡ false
never_stale none r h = refl
never_stale (some lease) r h = rw h refl

-- The job that the control node sends to a worker node, executed there while its channel of results
-- has room, yields one result. What the node's report of it becomes at the control node has the
-- job's id and tells whether the executor returned without an error, but resultLoop never takes it
-- for stale, whichever attempt holds the lease.
pub remote_result-accepted :
    {S : Type 0} (st : Store S) (worker_id : ℕ) (err : Option ExecuteError) (j : Job) (r : Runner)
    (s : S) (lease : Option Lease)
    → length r.results < r.results_cap
    → let j' = received_job (submit_message worker_id j) in
      let arrived = reported_result (report_request worker_id (result_of err j')) in
      ((execute st false err j' r s).0.results ≡ r.results ++ result_of err j' ∷ [])
      × (arrived.job_id ≡ j.id)
      × (arrived.success ≡ not (is_some err))
      × (is_stale lease arrived ≡ false)
unfolding execute start_execute finish_execute send_result received_job submit_message
remote_result-accepted st worker_id err j r s lease room =
    let j' = received_job (submit_message worker_id j) in
    let (id, success, attempt) = arrives worker_id err j' in
    (
      rw (lt→ltb (length r.results) r.results_cap room) refl,
      id,
      success,
      never_stale lease (reported_result (report_request worker_id (result_of err j'))) attempt,
    )
