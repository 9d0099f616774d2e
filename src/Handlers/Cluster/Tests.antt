-- ===== src/Handlers/Cluster/Tests.antt =====
-- A cluster of two workers, of which one is dead.
use job_manager_quorum.Common.{
  ℕ, ◌≡◌, refl, String, String-discrete, pos, true, false, none, some, List, [], ◌∷◌, lookup, ℕ-key,
  In,
}
use job_manager_quorum.Common.Numerals.{atoi}
use job_manager_quorum.Common.Text.{trim_prefix}
use job_manager_quorum.Job.{Job, zero_job, scheduled, failed}
use job_manager_quorum.Store.Memory.{MemoryStore, memory_store, new_memory_store}
use job_manager_quorum.Scheduler.{Scheduler, choose_worker}
use job_manager_quorum.WorkerManager.{Manager}
use job_manager_quorum.Events.{global_broadcaster}
use job_manager_quorum.Engine.{Engine}
use job_manager_quorum.Handlers.{other_method}
use job_manager_quorum.Handlers.Cluster.{
  Cluster, node_evicted, failure, evict, node_route_handler, node_id_text, is_delete,
}
use job_manager_quorum.Handlers.Cluster.Evicted.{ticks, rerouted, evict-selected}

abbrev manager : Manager
manager = record {
  workers =
      (
        7,
        record {
          client = 7;
          last_heartbeat = 20;
          alive = true;
          topics = "email" ∷ [];
          address = "a";
        },
      )
      ∷ (
        8,
        record { client = 8; last_heartbeat = 3; alive = false; topics = "*" ∷ []; address = "b" },
      )
      ∷ [];
  available = 7 ∷ [];
  dead_workers = 8 ∷ [];
  broker = record {
    worker_topics = (7, ("email", tt) ∷ []) ∷ (8, []) ∷ [];
    worker_is_all = (7, false) ∷ (8, true) ∷ [];
  };
  active_workers = pos 1;
}

abbrev engine : Engine MemoryStore
engine = record {
  scheduler = record {
    priority_queue = record { items = []; notify = false };
    delay_queue = record { items = []; notify = false };
    available = 7 ∷ [];
    store = new_memory_store;
    dlq = [];
    broker = some manager.broker;
    leases = (1, record { job_id = 1; worker_id = 7; term = 1; attempt = 1; started_at = 10 }) ∷ [];
  };
  next_job_id = 1;
  cron_jobs = [];
}

abbrev cluster : Cluster MemoryStore
cluster = record { engine = engine; manager = manager; events = global_broadcaster }

abbrev jobs : List Job
jobs = zero_job ∷ record zero_job { status = scheduled } ∷ record zero_job { status = failed } ∷ []

evicts :
    (node_route_handler 30 (other_method "DELETE") "/cluster/nodes/7" cluster).1
    ≡ node_evicted (pos 7)
unfolding node_route_handler node_id_text trim_prefix String-discrete atoi is_delete
evicts = refl

refuses_path :
    node_route_handler 30 (other_method "DELETE") "/cluster/nodes/x" cluster
    ≡ (cluster, failure 400 "invalid node ID")
unfolding node_route_handler node_id_text trim_prefix String-discrete atoi
refuses_path = refl

evict-selected_example :
    (lookup 7 (evict 30 (pos 7) cluster).0.manager.workers ≡ none)
    × ((evict 30 (pos 7) cluster).0.engine
        ≡ rerouted engine (evict 30 (pos 7) cluster).0.manager.broker)
    × ((job_type : String) (s : Scheduler MemoryStore) (rest : List ℕ)
        → s.broker ≡ (evict 30 (pos 7) cluster).0.engine.scheduler.broker
        → s.available ≡ 7 ∷ rest
        → choose_worker memory_store job_type s ≡ (some 7, rest))
    × ((ts : List (ℕ × ℕ))
        → In {A = ℕ} 7 (ticks ts (evict 30 (pos 7) cluster).0.manager).dead_workers
        → In {A = ℕ} 7 manager.dead_workers)
evict-selected_example = evict-selected memory_store 30 7 cluster refl (refl, (refl, tt))
