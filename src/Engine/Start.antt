-- ===== src/Engine/Start.antt =====
-- internal/engine/engine.go: New, Start and Stop. What opening the store and the Raft node returns is an
-- argument. The goroutines that Start launches are told by a list.
use Prim.Native.String
use job_manager_quorum.Common.{
  String-discrete, ite, if◌then◌else◌, ℕ, zero, suc, ℤ, pos, negsuc, false, Option, none, some,
  List, [], ◌∷◌, ◌++◌, if◌then◌else◌, ℕ-key,
}
use job_manager_quorum.Common.Numerals.{decimal}
use job_manager_quorum.Scheduler.{new_scheduler, rebuild_queues_from_store}
use job_manager_quorum.Queue.{JobQueue}
use job_manager_quorum.WorkerManager.{Manager, new_manager, register, list}
use job_manager_quorum.Config.{Config}
use job_manager_quorum.Store.{Store}
use job_manager_quorum.Engine.{Engine}

-- The loop over `1 .. WorkerCount`, which registers the local workers; a worker client is its id.
unfoldable pub register_local : ℕ → ℕ → Manager → Manager
unfolding register decimal
register_local now zero m = m
register_local now (suc n) m =
    register (suc n) (String.◌++◌ "localhost:local-" (decimal (pos (suc n)))) ("*" ∷ []) now
      (register_local now n m)

abbrev count_of : ℤ → ℕ
count_of (pos n) = n
count_of (negsuc _) = 0

-- The worker manager that New builds.
unfoldable pub local_manager : Config → ℕ → Manager
unfolding register_local new_manager
local_manager cfg now = register_local now (count_of cfg.worker_count) new_manager

-- An empty queue of internal/queue.
abbrev empty_queue : JobQueue
empty_queue = record { items = []; notify = false }

-- An engine, its manager, and its Raft node, if there is one.
pub record Built (S R : Type 0) : Type 0 where
  pub engine : Engine S
  pub manager : Manager
  pub raft_node : Option R

-- The store that the settings choose.
unfoldable pub open_store : {S : Type 0} → Config → Option S → S → Option S
open_store cfg bolt memory = ite (String-discrete cfg.storage_type "bolt") bolt (some memory)

-- New: `bolt` is the store that NewBoltStore opens, or none on an error, and `raft` the node that
-- NewRaftNode returns, which New goes without if it fails.
module _ {S R : Type 0} where
  unfoldable pub new_engine : Config → ℕ → Option S → S → Option R → Option (Built S R)
  unfolding local_manager open_store new_scheduler
  new_engine cfg now bolt memory raft =
      let m = local_manager cfg now in
      elim (open_store cfg bolt memory) [
        | none ↦ none
        | some store ↦ some (record {
          engine = record {
            scheduler = new_scheduler empty_queue empty_queue m.available store [] (some m.broker);
            next_job_id = 0;
            cron_jobs = [];
          };
          manager = m;
          raft_node = if cfg.raft_enabled then raft else none;
        })
      ]

pub data Routine : Type 0 where
  worker_loop : ℕ → Routine
  monitor : ℕ → Routine
  watch : Routine
  scheduler_loops cron_loop : Routine

abbrev pub worker_loops : List ℕ → List Routine
worker_loops [] = []
worker_loops (w ∷ ws) = worker_loop w ∷ worker_loops ws

-- Start: what it launches, after the rebuild of the queues where there is no Raft node.
unfoldable pub start : {S R : Type 0} → Store S → Config → Built S R → Built S R × List Routine
unfolding list rebuild_queues_from_store
start st cfg b =
    let loops = worker_loops (list b.manager) ++ monitor cfg.heartbeat_timeout ∷ [] in
    elim b.raft_node [
      | some r ↦ (b, loops ++ watch ∷ [])
      | none ↦ (
        record b {
          engine = record b.engine {
            scheduler = (rebuild_queues_from_store st b.engine.scheduler).0;
          };
        },
        loops ++ scheduler_loops ∷ cron_loop ∷ [],
      )
    ]

-- Stop: the error of closing the store, where the store can be closed.
unfoldable pub stop : {E : Type 0} → Option (Option E) → Option E
stop none = none
stop (some closing) = closing
