-- ===== src/Rpc/Tests.antt =====
-- A job that a remote worker executes, and a worker's client before a new leader.
use job_manager_quorum.Common.{
  ℕ, List, ◌≡◌, refl, true, ℕ-key, false, some, [], ◌∷◌, ◌++◌, pos, negsuc, arith, not, is_some,
  ◌-◌, ◌^◌,
}
use job_manager_quorum.Job.{Job, zero_job}
use job_manager_quorum.Job.Lease.{Lease}
use job_manager_quorum.Store.Memory.{memory_store, new_memory_store}
use job_manager_quorum.Scheduler.Rounds.{is_stale}
use job_manager_quorum.Runner.{new_runner, execute, failure, result_of}
use job_manager_quorum.WorkerManager.{new_manager}
use job_manager_quorum.Events.{Event, global_broadcaster}
use job_manager_quorum.Rpc.{
  ReportResultRequest, RegisterWorkerRequest, WorkerServer, submit_message, received_job,
  report_request, reported_result, int32,
}
use job_manager_quorum.Rpc.Attempts.{remote_result-accepted}
use job_manager_quorum.Rpc.Client.{
  ClientCall, register_call, heartbeat_call, report_call, client_start,
}

wraps : int32 (pos (2 ^ 32 - 1)) ≡ negsuc 0
unfolding int32
wraps = refl

abbrev email_job : Job
email_job = record zero_job { id = 4; kind = "email"; priority = pos 5 }

abbrev third_lease : Lease
third_lease = record { job_id = 4; worker_id = 9; term = 1; attempt = 3; started_at = 0 }

remote_result-accepted_example :
    let j' = received_job (submit_message 7 email_job) in
    let err = some (failure "timeout") in
    let arrived = reported_result (report_request 7 (result_of err j')) in
    ((execute memory_store false err j' (new_runner 8) new_memory_store).0.results
      ≡ [] ++ result_of err j' ∷ [])
    × (arrived.job_id ≡ 4)
    × (arrived.success ≡ not (is_some err))
    × (is_stale (some third_lease) arrived ≡ false)
unfolding new_runner
remote_result-accepted_example =
    remote_result-accepted memory_store 7 (some (failure "timeout")) email_job (new_runner 8)
      new_memory_store (some third_lease) (omega arith)

abbrev new_leader : WorkerServer
new_leader = record { manager = new_manager; results = []; events = global_broadcaster }

abbrev registration : RegisterWorkerRequest
registration = record { worker_id = 7; address = "localhost:50052"; topics = "*" ∷ [] }

abbrev told : Event
told = record { type = "WORKER_REGISTERED"; message = "Worker-7"; timestamp = 1; metadata = [] }

abbrev report : ReportResultRequest
report = record { job_id = 1; success = true; error = ""; worker_id = 7; attempt = 1 }

abbrev follow_ups : List (ClientCall × ℕ)
follow_ups = (heartbeat_call 7, 8) ∷ (report_call report, 9) ∷ (heartbeat_call 7, 12) ∷ []

starts :
    client_start true registration (1 ∷ 2 ∷ [])
    ≡ register_call registration ∷ heartbeat_call 7 ∷ heartbeat_call 7 ∷ []
unfolding client_start
starts = refl
