-- ===== src/Rpc.antt =====
-- internal/rpc: the calls between the control node and a worker node (client/client.go,
-- server/server.go, server/execution_server.go), and the loop of cmd/worker/main.go that reports
-- results. gRPC carries the messages as they are; ids and attempts fit into their fields.
pub mod Attempts
pub mod Client
mod Tests
use job_manager_quorum.Common.{
  ℕ, suc, ◌+◌, ◌-◌, ◌%◌, ◌^◌, String, ℤ, pos, negsuc, Bool, true, false, Option, none, some, List,
  [], ◌∷◌, ◌++◌, ltb, if◌then◌else◌,
}
use job_manager_quorum.Job.{Job, Result, zero_job}
use job_manager_quorum.WorkerManager
use job_manager_quorum.WorkerManager.{Manager, register, make_available, heartbeat}
use job_manager_quorum.Events.{Event, Broadcaster, broadcast}

pub record RegisterWorkerRequest : Type 0 where
  pub worker_id : ℕ
  pub address : String
  pub topics : List String

pub record SubmitJobMessage : Type 0 where
  pub id : ℕ
  pub kind : String  -- the field `Type`
  pub priority : ℤ
  pub worker_id : ℕ
  pub attempt : ℕ

pub record ReportResultRequest : Type 0 where
  pub job_id : ℕ
  pub success : Bool
  pub error : String
  pub worker_id : ℕ
  pub attempt : ℕ

abbrev pub signed_32 : ℕ → ℤ
signed_32 n = if ltb n (2 ^ 31) then pos n else negsuc (2 ^ 32 - n - 1)

-- The conversion to `int32`.
unfoldable pub int32 : ℤ → ℤ
int32 (pos n) = signed_32 (n % 2 ^ 32)
int32 (negsuc n) = signed_32 (2 ^ 32 - 1 - n % 2 ^ 32)

-- The control node's Submit for a remote worker: the attempt is always 1.
unfoldable pub submit_message : ℕ → Job → SubmitJobMessage
unfolding int32
submit_message worker_id j = record {
  id = j.id;
  kind = j.kind;
  priority = int32 j.priority;
  worker_id = worker_id;
  attempt = 1;
}

-- The worker node's SubmitJob hands this job to its runner.
unfoldable pub received_job : SubmitJobMessage → Job
received_job m = record zero_job { id = m.id; kind = m.kind; priority = m.priority }

-- The worker node accepts every job, and executes it beside those that are running.
unfoldable pub execution_submit_job : SubmitJobMessage → Job × Bool
unfolding received_job
execution_submit_job m = (received_job m, true)

-- What comes back from SubmitJob: the error of the call, or the node's answer with its error's text.
pub data SubmitAnswer : Type 0 where
  call_failed : String → SubmitAnswer
  submit_answered : Bool → String → SubmitAnswer

-- The error that the control node's Submit, and so RemoteWorker's, returns.
unfoldable pub submit_outcome : SubmitAnswer → Option String
submit_outcome (call_failed text) = some text
submit_outcome (submit_answered true text) = none
submit_outcome (submit_answered false text) = some text

-- The control node's own SubmitJob.
unfoldable pub control_submit_job : SubmitJobMessage → Option String
control_submit_job m = some "SubmitJob must not be called on the control node WorkerServer"

abbrev pub error_message : Option String → String
error_message none = ""
error_message (some text) = text

-- The worker node's report of a result.
unfoldable pub report_request : ℕ → Result → ReportResultRequest
report_request worker_id r = record {
  job_id = r.job_id;
  success = r.success;
  error = error_message r.error;
  worker_id = worker_id;
  attempt = r.attempt;
}

pub record WorkerServer : Type 0 where
  pub manager : Manager
  pub results : List Result
  pub events : Broadcaster

-- The result that the control node makes of a report.
unfoldable pub reported_result : ReportResultRequest → Result
reported_result req = record {
  job_id = req.job_id;
  success = req.success;
  error = if req.success then none else some req.error;
  attempt = req.attempt;
}

abbrev pub available_again : Option ℕ → Manager → Manager
available_again none m = m
available_again (some w) m = make_available w m

-- `sent` tells that the channel of results took the result before the call's context was done.
unfoldable pub report_result : Bool → ReportResultRequest → WorkerServer → WorkerServer × Bool
unfolding reported_result
report_result sent req s =
    if sent
    then (
      record s {
        results = s.results ++ reported_result req ∷ [];
        manager = available_again (WorkerManager.get req.worker_id s.manager) s.manager;
      },
      true,
    )
    else (s, false)

-- `dialed` tells that the connection to the worker's address was made; the event is told to all.
unfoldable pub register_worker_node :
    Bool → ℕ → Event → RegisterWorkerRequest → WorkerServer → WorkerServer × Bool
register_worker_node dialed now registered req s =
    if dialed
    then (
      record s {
        manager =
            make_available req.worker_id
              (register req.worker_id req.address req.topics now s.manager);
        events = broadcast now registered s.events;
      },
      true,
    )
    else (s, false)

unfoldable pub heartbeat_received : ℕ → ℕ → WorkerServer → WorkerServer
heartbeat_received worker_id now s = record s { manager = heartbeat worker_id now s.manager }
