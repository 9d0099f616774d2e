-- ===== src/WorkerManager.antt =====
-- internal/workermanager/manager.go: the registry of workers, their heartbeats and the monitor that
-- declares them dead. A worker client is its id; a method, and one tick of Monitor, runs under the
-- manager's mutex and is one step. The gauge ActiveWorkers stands beside the manager's fields.
pub mod Gauge
pub mod Monitor
pub mod Punctual
mod Tests
use job_manager_quorum.Common.{
  ℕ, zero, suc, ◌+◌, String, ℤ, pos, negsuc, Bool, true, false, ◌&&◌, not, Option, none, some, List,
  [], ◌∷◌, Map, lookup, insert, delete, ℕ-key, length, ltb, if◌then◌else◌,
}
use job_manager_quorum.Broker.{Broker, register_worker, unregister_worker, try_send}
use job_manager_quorum.Broker

abbrev pub dead_workers_buf_size : ℕ
dead_workers_buf_size = 100

abbrev pub available_buf_size : ℕ
available_buf_size = 100

pub record WorkerInfo : Type 0 where
  pub client : ℕ
  pub last_heartbeat : ℕ
  pub alive : Bool
  pub topics : List String
  pub address : String

pub record NodeSnapshot : Type 0 where
  pub id : ℕ
  pub address : String
  pub alive : Bool
  pub last_heartbeat : ℕ
  pub topics : List String

pub record Manager : Type 0 where
  pub workers : Map ℕ WorkerInfo
  pub available : List ℕ
  pub dead_workers : List ℕ
  pub broker : Broker
  pub active_workers : ℤ

abbrev pub inc : ℤ → ℤ
inc (pos n) = pos (suc n)
inc (negsuc zero) = pos 0
inc (negsuc (suc n)) = negsuc n

abbrev pub dec : ℤ → ℤ
dec (pos zero) = negsuc 0
dec (pos (suc n)) = pos n
dec (negsuc n) = negsuc (suc n)

unfoldable pub new_manager : Manager
new_manager = record {
  workers = [];
  available = [];
  dead_workers = [];
  broker = Broker.new;
  active_workers = pos 0;
}

unfoldable pub register : ℕ → String → List String → ℕ → Manager → Manager
register w address topics now m = record m {
  workers =
      insert w
        (record {
          client = w;
          last_heartbeat = now;
          alive = true;
          topics = topics;
          address = address;
        })
        m.workers;
  active_workers = inc m.active_workers;
  broker = register_worker w topics m.broker;
}

unfoldable pub make_available : ℕ → Manager → Manager
make_available w m = record m { available = try_send available_buf_size w m.available }

-- What Remove does to the gauge, by the worker's entry.
abbrev pub without : Option WorkerInfo → ℤ → ℤ
without none g = g
without (some info) g = if info.alive then dec g else g

unfoldable pub remove : ℕ → Manager → Manager
remove id m = record m {
  workers = delete id m.workers;
  active_workers = without (lookup id m.workers) m.active_workers;
  broker = unregister_worker id m.broker;
}

unfoldable pub get : ℕ → Manager → Option ℕ
get id m = elim (lookup id m.workers) [ none ↦ none | some info ↦ some info.client ]

unfoldable pub count : Manager → ℕ
count m = length m.workers

unfoldable pub alive_clients : Map ℕ WorkerInfo → List ℕ
alive_clients [] = []
alive_clients ((id, info) ∷ workers) =
    let rest = alive_clients workers in if info.alive then info.client ∷ rest else rest

unfoldable pub list : Manager → List ℕ
list m = alive_clients m.workers

unfoldable pub node_snapshots : Map ℕ WorkerInfo → List NodeSnapshot
node_snapshots [] = []
node_snapshots ((i, info) ∷ workers) =
    record {
      id = i;
      address = info.address;
      alive = info.alive;
      last_heartbeat = info.last_heartbeat;
      topics = info.topics;
    }
    ∷ node_snapshots workers

unfoldable pub nodes : Manager → List NodeSnapshot
nodes m = node_snapshots m.workers

unfoldable pub heartbeat : ℕ → ℕ → Manager → Manager
heartbeat id now m = elim (lookup id m.workers) [
  | none ↦ m
  | some info ↦ record m {
    workers = insert id (record info { last_heartbeat = now; alive = true }) m.workers;
    active_workers = if info.alive then m.active_workers else inc m.active_workers;
  }
]

-- `time.Since(info.LastHeartbeat) > timeout`
abbrev pub is_late : ℕ → ℕ → WorkerInfo → Bool
is_late timeout now info = ltb (info.last_heartbeat + timeout) now

-- The loop of one tick over the workers: the new entries, DeadWorkers and the gauge.
unfoldable pub sweep : ℕ → ℕ → Map ℕ WorkerInfo → List ℕ → ℤ → Map ℕ WorkerInfo × List ℕ × ℤ
sweep timeout now [] dead g = ([], dead, g)
sweep timeout now ((id, info) ∷ workers) dead g =
    let late = is_late timeout now info && info.alive in
    let info' = record info { alive = if late then false else info.alive } in
    let dead' = if late then try_send dead_workers_buf_size info.client dead else dead in
    let g' = if late then dec g else g in
    let (workers', dead'', g'') = sweep timeout now workers dead' g' in
    ((id, info') ∷ workers', dead'', g'')

unfoldable pub monitor_tick : ℕ → ℕ → Manager → Manager
unfolding sweep
monitor_tick timeout now m =
    let (workers, dead, g) = sweep timeout now m.workers m.dead_workers m.active_workers in
    record m { workers = workers; dead_workers = dead; active_workers = g }
