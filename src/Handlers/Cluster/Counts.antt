-- ===== src/Handlers/Cluster/Counts.antt =====
-- The numbers of Status of internal/handlers/cluster.go.
use job_manager_quorum.Common.{
  ℕ, suc, ◌+◌, ◌≤◌, ◌≡◌, Bool-cases, inl, inr, Option, List, [], ◌∷◌, ite, Map, length, arith,
}
use job_manager_quorum.Job.{
  Job, Status, pending, scheduled, completed, failed, cancelled, other, Status-discrete,
}
use job_manager_quorum.WorkerManager.{
  Manager, WorkerInfo, alive_clients, list, node_snapshots, nodes,
}
use job_manager_quorum.Handlers.Cluster.{
  RaftView, NodeCounts, JobCounts, count_nodes, count_job, count_jobs, no_nodes, no_jobs, status_of,
}

abbrev one_if : Status → Status → ℕ
one_if s t = ite (Status-discrete t s) 1 0

-- How many jobs of a list have the status.
unfoldable pub with_status : Status → List Job → ℕ
with_status s [] = 0
with_status s (j ∷ js) = one_if s j.status + with_status s js

count_job-one :
    (t : Status) (c : JobCounts)
    → let c' = count_job t c in
      (c'.pending ≡ c.pending + (one_if pending t + one_if scheduled t))
      × (c'.completed ≡ c.completed + one_if completed t)
      × (c'.failed ≡ c.failed + one_if failed t)
      × (c'.cancelled ≡ c.cancelled + one_if cancelled t)
unfolding count_job Status-discrete
count_job-one pending c = (omega arith, omega arith, omega arith, omega arith)
count_job-one scheduled c = (omega arith, omega arith, omega arith, omega arith)
count_job-one completed c = (omega arith, omega arith, omega arith, omega arith)
count_job-one failed c = (omega arith, omega arith, omega arith, omega arith)
count_job-one cancelled c = (omega arith, omega arith, omega arith, omega arith)
count_job-one (other _) c = (omega arith, omega arith, omega arith, omega arith)

one_if-sum :
    (t : Status)
    → one_if pending t
        + one_if scheduled t
        + one_if completed t
        + one_if failed t
        + one_if cancelled t
      ≤ 1
unfolding Status-discrete
one_if-sum pending = omega arith
one_if-sum scheduled = omega arith
one_if-sum completed = omega arith
one_if-sum failed = omega arith
one_if-sum cancelled = omega arith
one_if-sum (other _) = omega arith

count_jobs-with_status :
    (js : List Job) (c : JobCounts)
    → let c' = count_jobs js c in
      (c'.pending ≡ c.pending + (with_status pending js + with_status scheduled js))
      × (c'.completed ≡ c.completed + with_status completed js)
      × (c'.failed ≡ c.failed + with_status failed js)
      × (c'.cancelled ≡ c.cancelled + with_status cancelled js)
unfolding count_jobs with_status
count_jobs-with_status [] c = (omega arith, omega arith, omega arith, omega arith)
count_jobs-with_status (j ∷ js) c =
    let (p, q, r, s) = count_job-one j.status c in
    let (p', q', r', s') = count_jobs-with_status js (count_job j.status c) in
    (omega (arith, p, p'), omega (arith, q, q'), omega (arith, r, r'), omega (arith, s, s'))

with_status-sum :
    (js : List Job)
    → with_status pending js
        + with_status scheduled js
        + with_status completed js
        + with_status failed js
        + with_status cancelled js
      ≤ length js
unfolding with_status
with_status-sum [] = omega arith
with_status-sum (j ∷ js) = omega (arith, one_if-sum j.status, with_status-sum js)

count_nodes-sum :
    (workers : Map ℕ WorkerInfo) (c : NodeCounts)
    → let c' = count_nodes (node_snapshots workers) c in
      (c'.active ≡ c.active + length (alive_clients workers))
      × (c'.active + c'.dead ≡ c.active + c.dead + length (node_snapshots workers))
unfolding count_nodes node_snapshots alive_clients
count_nodes-sum [] c = (omega arith, omega arith)
count_nodes-sum ((i, info) ∷ workers) c = elim (Bool-cases info.alive) [
  | inl up ↦ rw up (
      let (p, q) = count_nodes-sum workers (record c { active = suc c.active }) in
      (omega (arith, p), omega (arith, q)))
  | inr down ↦ rw down (
      let (p, q) = count_nodes-sum workers (record c { dead = suc c.dead }) in
      (omega (arith, p), omega (arith, q)))
]

-- Status counts right: its active nodes are the workers that List of the manager returns, active and
-- dead nodes add up to all nodes, pending are the pending and the scheduled jobs, and the completed,
-- failed and cancelled ones are the jobs of that status; together they are at most all jobs.
pub status_of-counts :
    (raft : Option RaftView) (m : Manager) (js : List Job)
    → let s = status_of raft (nodes m) js in
      (s.active_nodes ≡ length (list m))
      × (s.active_nodes + s.dead_nodes ≡ s.total_nodes)
      × (s.pending_jobs ≡ with_status pending js + with_status scheduled js)
      × (s.completed_jobs ≡ with_status completed js)
      × (s.failed_jobs ≡ with_status failed js)
      × (s.cancelled_jobs ≡ with_status cancelled js)
      × (s.pending_jobs + s.completed_jobs + s.failed_jobs + s.cancelled_jobs ≤ s.total_jobs)
unfolding status_of nodes list
status_of-counts raft m js =
    let (a, b) = count_nodes-sum m.workers no_nodes in
    let (p, q, r, s) = count_jobs-with_status js no_jobs in
    (
      omega (arith, a),
      omega (arith, b),
      omega (arith, p),
      omega (arith, q),
      omega (arith, r),
      omega (arith, s),
      omega (arith, p, q, r, s, with_status-sum js),
    )
