-- ===== src/Handlers/Cluster.antt =====
-- internal/handlers/cluster.go: the pages on the cluster. The scheduler's leases stand in the engine's
-- scheduler; what hashicorp/raft tells of this node, if there is one, is an argument.
pub mod Counts
pub mod Evicted
mod Tests
use Prim.Native.String
use job_manager_quorum.Common.{
  ℕ, suc, String, String-discrete, ℤ, pos, negsuc, Bool, true, false, Option, none, some, List, [],
  ◌∷◌, ite, length, if◌then◌else◌,
}
use job_manager_quorum.Common.Numerals.{atoi, decimal}
use job_manager_quorum.Common.Text.{trim_prefix}
use job_manager_quorum.Job.{Job, Status, pending, scheduled, completed, failed, cancelled, other}
use job_manager_quorum.Job.Lease.{LeaseManager}
use job_manager_quorum.Store.{Store}
use job_manager_quorum.Broker.{Broker}
use job_manager_quorum.WorkerManager.{Manager, NodeSnapshot, nodes, remove}
use job_manager_quorum.Events.{Event, Broadcaster, broadcast}
use job_manager_quorum.Engine.{Engine, jobs}
use job_manager_quorum.Handlers.{Method, post, get, other_method, is_blank}

pub record ClusterStatus : Type 0 where
  pub total_nodes : ℕ
  pub active_nodes : ℕ
  pub dead_nodes : ℕ
  pub total_jobs : ℕ
  pub pending_jobs : ℕ
  pub completed_jobs : ℕ
  pub failed_jobs : ℕ
  pub cancelled_jobs : ℕ
  pub leader_node : String
  pub raft_term : ℕ

-- What IsLeader, LeaderTerm and LeaderAddr of the node return.
pub record RaftView : Type 0 where
  pub is_leader : Bool
  pub leader_term : ℕ
  pub leader_addr : String

-- What the handlers reach: the engine, its worker manager and the global broadcaster.
pub record Cluster (S : Type 0) : Type 0 where
  pub engine : Engine S
  pub manager : Manager
  pub events : Broadcaster

pub data Page : Type 0 where
  failure : ℕ → String → Page
  node_list : List NodeSnapshot → Page
  cluster_status : ClusterStatus → Page
  raft_status : Bool → ℕ → String → String → Page
  lease_list : LeaseManager → Page
  simulation_started : Page
  node_evicted : ℤ → Page

abbrev pub method_not_allowed : Page
method_not_allowed = failure 405 "method not allowed"

-- The counts of Status, over the nodes and over the jobs.
pub record NodeCounts : Type 0 where
  pub active : ℕ
  pub dead : ℕ

unfoldable pub count_nodes : List NodeSnapshot → NodeCounts → NodeCounts
count_nodes [] c = c
count_nodes (n ∷ ns) c =
    count_nodes ns
      (if n.alive then record c { active = suc c.active } else record c { dead = suc c.dead })

pub record JobCounts : Type 0 where
  pub pending : ℕ
  pub completed : ℕ
  pub failed : ℕ
  pub cancelled : ℕ

unfoldable pub count_job : Status → JobCounts → JobCounts
count_job pending c = record c { pending = suc c.pending }
count_job scheduled c = record c { pending = suc c.pending }
count_job completed c = record c { completed = suc c.completed }
count_job failed c = record c { failed = suc c.failed }
count_job cancelled c = record c { cancelled = suc c.cancelled }
count_job (other _) c = c

unfoldable pub count_jobs : List Job → JobCounts → JobCounts
unfolding count_job
count_jobs [] c = c
count_jobs (j ∷ js) c = count_jobs js (count_job j.status c)

abbrev pub no_nodes : NodeCounts
no_nodes = record { active = 0; dead = 0 }

abbrev pub no_jobs : JobCounts
no_jobs = record { pending = 0; completed = 0; failed = 0; cancelled = 0 }

unfoldable pub leader_of : Option RaftView → String × ℕ
leader_of none = ("node-1", 1)
leader_of (some v) = (if is_blank v.leader_addr then "node-1" else v.leader_addr, v.leader_term)

unfoldable pub status_of : Option RaftView → List NodeSnapshot → List Job → ClusterStatus
unfolding count_nodes count_jobs leader_of
status_of raft ns js =
    let n = count_nodes ns no_nodes in
    let j = count_jobs js no_jobs in
    record {
      total_nodes = length ns;
      active_nodes = n.active;
      dead_nodes = n.dead;
      total_jobs = length js;
      pending_jobs = j.pending;
      completed_jobs = j.completed;
      failed_jobs = j.failed;
      cancelled_jobs = j.cancelled;
      leader_node = (leader_of raft).0;
      raft_term = (leader_of raft).1;
    }

-- The messages of the simulated failover, in their order.
abbrev pub failover_steps : List (String × String)
failover_steps =
    ("FAILOVER_TRIGGERED", "Simulated Leader Crash triggered: Leader node-1 terminated")
    ∷ ("LEADER_CHANGED", "Raft election started across active peers")
    ∷ ("LEADER_CHANGED", "New Raft Leader elected: node-2 (Term incremented)")
    ∷ ("QUEUE_REBUILT", "Rebuilt scheduler queues from BoltDB status buckets (O(k) scan)")
    ∷ ("WORKER_REGISTERED", "Active remote workers re-registered during 1s grace period")
    ∷ (
      "DISPATCH_RESUMED",
      "Scheduler & Cron dispatch loops resumed cleanly (Failover duration: 1.2s)",
    )
    ∷ []

-- The broadcasts of FailoverSimulate, with the times at which they happen.
unfoldable pub simulate : List (String × String) → List ℕ → Broadcaster → Broadcaster
simulate [] times b = b
simulate (step ∷ steps) [] b = b
simulate ((type, message) ∷ steps) (now ∷ times) b =
    simulate steps times
      (broadcast now (record { type = type; message = message; timestamp = now; metadata = [] }) b)

unfoldable pub is_delete : Method → Bool
is_delete post = false
is_delete get = false
is_delete (other_method m) = ite (String-discrete m "DELETE") true false

-- The path behind the prefix; nothing where it is empty or the path has no such prefix.
unfoldable pub node_id_text : String → String
node_id_text path =
    let rest = trim_prefix "/cluster/nodes/" path in ite (String-discrete rest path) "" rest

abbrev pub only_get : Method → Page → Page
only_get post page = method_not_allowed
only_get get page = page
only_get (other_method _) page = method_not_allowed

-- Remove of an id; no worker has a negative one.
abbrev pub remove_node : ℤ → Manager → Manager
remove_node (pos id) m = remove id m
remove_node (negsuc _) m = m

unfoldable pub evicted_event : ℤ → Event
evicted_event id = record {
  type = "WORKER_EVICTED";
  message = String.◌++◌ (String.◌++◌ "Worker " (decimal id)) " evicted from cluster";
  timestamp = 0;
  metadata = [];
}

-- The scheduler's broker, if it has one, is the manager's: the engine's New passes it on.
abbrev pub shared_broker : Broker → Option Broker → Option Broker
shared_broker b none = none
shared_broker b (some _) = some b

module _ {S : Type 0} where
  unfoldable pub nodes_handler : Method → Cluster S → Cluster S × Page
  nodes_handler method c = (c, only_get method (node_list (nodes c.manager)))

  unfoldable pub status_handler : Store S → Option RaftView → Method → Cluster S → Cluster S × Page
  unfolding status_of jobs
  status_handler st raft method c =
      (c, only_get method (cluster_status (status_of raft (nodes c.manager) (jobs st c.engine))))

  unfoldable pub raft_status_handler : Option RaftView → String → Cluster S → Cluster S × Page
  raft_status_handler none node_id c = (c, raft_status true 1 "127.0.0.1:18088" node_id)
  raft_status_handler (some v) node_id c =
      (c, raft_status v.is_leader v.leader_term v.leader_addr node_id)

  unfoldable pub leases_handler : Cluster S → Cluster S × Page
  leases_handler c = (c, lease_list c.engine.scheduler.leases)

  -- With the goroutine's broadcasts, which are over 1.2 seconds after the answer.
  unfoldable pub failover_simulate_handler : List ℕ → Cluster S → Cluster S × Page
  unfolding simulate
  failover_simulate_handler times c =
      (record c { events = simulate failover_steps times c.events }, simulation_started)

  abbrev pub with_broker : Broker → Engine S → Engine S
  with_broker b e = record e {
    scheduler = record e.scheduler { broker = shared_broker b e.scheduler.broker };
  }

  unfoldable pub evict : ℕ → ℤ → Cluster S → Cluster S × Page
  evict now id c =
      let manager = remove_node id c.manager in
      (
        record c {
          engine = with_broker manager.broker c.engine;
          manager = manager;
          events = broadcast now (evicted_event id) c.events;
        },
        node_evicted id,
      )

  unfoldable pub node_route_handler : ℕ → Method → String → Cluster S → Cluster S × Page
  unfolding nodes_handler evict atoi node_id_text is_delete
  node_route_handler now method path c =
      if is_blank (node_id_text path)
      then nodes_handler method c
      else (elim (atoi (node_id_text path)) [
        | none ↦ (c, failure 400 "invalid node ID")
        | some id ↦ if is_delete method then evict now id c else (c, method_not_allowed)
      ])
