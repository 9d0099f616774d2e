-- ===== src/Rpc/Client.antt =====
-- internal/rpc/client/client.go: the calls that a worker node's client makes to the control node, those
-- of Start and ReportResult, and what they leave there. An error of a call is only logged.
use job_manager_quorum.Common.{ℕ, ◌≡◌, Bool, true, List, [], ◌∷◌, ℕ-key, if◌then◌else◌}
use job_manager_quorum.Events.{Event}
use job_manager_quorum.Rpc.{
  RegisterWorkerRequest, ReportResultRequest, WorkerServer, register_worker_node,
  heartbeat_received, report_result,
}

pub data ClientCall : Type 0 where
  register_call : RegisterWorkerRequest → ClientCall
  heartbeat_call : ℕ → ClientCall
  report_call : ReportResultRequest → ClientCall

-- `ticks` are the ticks of the ticker before the context is done.
abbrev pub heartbeats : ℕ → List ℕ → List ClientCall
heartbeats id [] = []
heartbeats id (t ∷ ticks) = heartbeat_call id ∷ heartbeats id ticks

-- The calls of Start; `registered` tells that RegisterWorker returned no error.
unfoldable pub client_start : Bool → RegisterWorkerRequest → List ℕ → List ClientCall
client_start registered req ticks =
    register_call req ∷ (if registered then heartbeats req.worker_id ticks else [])

-- A call as the control node takes it, at a time; `event` is what a registration tells, and `sent`
-- tells that the channel of results takes a reported one.
unfoldable pub serve_call : Event → Bool → ClientCall × ℕ → WorkerServer → WorkerServer
unfolding register_worker_node heartbeat_received report_result
serve_call event sent (register_call req, now) s = (register_worker_node true now event req s).0
serve_call event sent (heartbeat_call id, now) s = heartbeat_received id now s
serve_call event sent (report_call req, now) s = (report_result sent req s).0

unfoldable pub serve_calls : Event → Bool → List (ClientCall × ℕ) → WorkerServer → WorkerServer
unfolding serve_call
serve_calls event sent [] s = s
serve_calls event sent (c ∷ cs) s = serve_calls event sent cs (serve_call event sent c s)

-- A call that the client of this worker makes after its first.
abbrev pub IsFollowUp : ℕ → ClientCall → Type 0
IsFollowUp id (register_call req) = ⊥
IsFollowUp id (heartbeat_call w) = w ≡ id
IsFollowUp id (report_call req) = req.worker_id ≡ id

abbrev pub FollowUps : ℕ → List (ClientCall × ℕ) → Type 0
FollowUps id [] = Unit
FollowUps id ((c, t) ∷ cs) = IsFollowUp id c × FollowUps id cs

-- The time of the last heartbeat among the calls.
abbrev pub last_beat : ℕ → List (ClientCall × ℕ) → ℕ
last_beat t [] = t
last_beat t ((register_call req, now) ∷ cs) = last_beat t cs
last_beat t ((heartbeat_call id, now) ∷ cs) = last_beat now cs
last_beat t ((report_call req, now) ∷ cs) = last_beat t cs
