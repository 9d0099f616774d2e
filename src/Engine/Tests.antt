-- ===== src/Engine/Tests.antt =====
-- Submissions to an engine with one stored job.
use job_manager_quorum.Common.{
  ℕ, Option, some, ◌≡◌, refl, ℕ-key, pos, true, false, none, [], ◌∷◌, lookup, insert, delete,
  ℕ_discrete, String-discrete, if_neg, arith,
}
use job_manager_quorum.Job.{Job, new_job, Status-discrete}
use job_manager_quorum.Store.Memory.{
  MemoryStore, memory_store, new_memory_store, add, get, find_by_idempotency_key, list_by_status,
  add_to_status_index,
}
use job_manager_quorum.Store.Memory.Index.{IsConsistent}
use job_manager_quorum.Store.Memory.Contract.{memory_store-Contract, new_memory_store-IsConsistent}
use job_manager_quorum.Engine.{Engine, submit_job_idempotent}
use job_manager_quorum.Engine.Submit.{IsFresh, Accepted, IsNewJob, submit_job_idempotent-twice}
use mathlib.Core.List.Perm
use job_manager_quorum.Common.{In, Perm, is_some}
use job_manager_quorum.Engine.Leadership.{
  Leadership, Signals, PutsBack, watch_leadership, regained-leaks, watch_leadership-one,
  reclaimed-twice, as_list,
}
use job_manager_quorum.WorkerManager.{WorkerInfo, monitor_tick, list, alive_clients, register}
use job_manager_quorum.Config.{Config, default}
use job_manager_quorum.Engine.Start.{
  Built, worker_loop, monitor, scheduler_loops, cron_loop, local_manager, open_store, new_engine,
  start,
}
use job_manager_quorum.Common.{Bool}
use job_manager_quorum.Broker.{Broker}
use job_manager_quorum.Scheduler.{Scheduler}
use job_manager_quorum.Engine.Local.{local_workers_die}

abbrev stored_job : Job
stored_job = new_job 1 "email" (pos 5)

abbrev one_job : MemoryStore
one_job = (add stored_job new_memory_store).0

one_job-IsConsistent : IsConsistent one_job
unfolding get new_memory_store lookup
one_job-IsConsistent =
    (memory_store-Contract.common.add-ok stored_job new_memory_store new_memory_store-IsConsistent
      tt refl).2

abbrev engine : Engine MemoryStore
engine = record {
  scheduler = record {
    priority_queue = record { items = 1 ∷ []; notify = true };
    delay_queue = record { items = []; notify = false };
    available = [];
    store = one_job;
    dlq = [];
    broker = none;
    leases = [];
  };
  next_job_id = 1;
  cron_jobs = [];
}

engine-IsFresh : IsFresh memory_store engine
unfolding get add new_memory_store new_job lookup insert delete
engine-IsFresh id above = if_neg (ℕ_discrete 1 id) (λ e. omega arith) _ _

submit_job_idempotent-twice_example :
    (e' : Engine MemoryStore) × (j : Job) × (submit_job_idempotent memory_store none "k" "video"
        (pos 9)
        engine
      ≡ (e', j, false, none))
    × IsNewJob 2 "video" (pos 9) "k" j
    × Accepted memory_store j engine e'
    × (submit_job_idempotent memory_store none "k" "email" (pos 1) e' ≡ (e', j, true, none))
unfolding find_by_idempotency_key get add new_memory_store new_job lookup String-discrete
submit_job_idempotent-twice_example =
    submit_job_idempotent-twice "k" "video" "email" (pos 9) (pos 1) engine (λ e. cc)
      one_job-IsConsistent engine-IsFresh refl

-- A follower that holds the job.
abbrev follower : Leadership MemoryStore
follower = record { scheduler = engine.scheduler; running = []; current = none; next_context = 0 }

abbrev nothing : Scheduler MemoryStore → Scheduler MemoryStore
nothing s = s

-- Only the queue's wake-up is set.
abbrev touched : Scheduler MemoryStore → Scheduler MemoryStore
touched s = record s { priority_queue = record { items = s.priority_queue.items; notify = true } }

nothing-PutsBack : (s : Scheduler MemoryStore) → PutsBack memory_store s (nothing s)
nothing-PutsBack s = record {
  store = refl;
  ready = Perm.refl s.priority_queue.items;
  delayed = Perm.refl s.delay_queue.items;
}

touched-PutsBack : (s : Scheduler MemoryStore) → PutsBack memory_store s (touched s)
touched-PutsBack s = record {
  store = refl;
  ready = Perm.refl s.priority_queue.items;
  delayed = Perm.refl s.delay_queue.items;
}

regained-leaks_example :
    In 0
      (watch_leadership memory_store
        ((nothing, true) ∷ (touched, true) ∷ (nothing, false) ∷ [])
        follower).running
regained-leaks_example =
    regained-leaks memory_store nothing touched ((nothing, false) ∷ []) follower

watch_leadership-one_example :
    let signals : Signals MemoryStore = (nothing, true) ∷ (touched, false) ∷ (nothing, true) ∷ [] in
    let l = watch_leadership memory_store signals follower in
    (l.running ≡ as_list l.current) × (is_some l.current ≡ true)
watch_leadership-one_example =
    watch_leadership-one memory_store (nothing ∷ touched ∷ nothing ∷ []) true follower refl refl

reclaimed-twice_example :
    Perm
      (watch_leadership memory_store
        ((nothing, true) ∷ (touched, false) ∷ (nothing, true) ∷ [])
        follower).scheduler.priority_queue.items
      (1 ∷ 1 ∷ 1 ∷ [])
unfolding list_by_status get add new_memory_store new_job lookup insert delete ℕ_discrete
    add_to_status_index Status-discrete
reclaimed-twice_example =
    (reclaimed-twice memory_store nothing touched nothing follower (stored_job ∷ []) []
      (nothing-PutsBack _) (touched-PutsBack _) (nothing-PutsBack _) refl refl).0

-- Two local workers.
abbrev local_config : Config
local_config = record (default (λ name. "")) { worker_count = pos 2 }

local_workers_die_example :
    let m = monitor_tick 5 11 (local_manager local_config 5) in
    ((info : WorkerInfo) × (lookup 2 m.workers ≡ some info) × (info.alive ≡ false))
    × In 2 m.dead_workers
local_workers_die_example =
    local_workers_die local_config 2 5 5 11 refl (omega arith) (omega arith) 2 (omega arith)
      (omega arith)

abbrev built : Option (Built MemoryStore ℕ)
built = new_engine local_config 5 none new_memory_store none

opens_no_bolt : built ≡ none
unfolding new_engine open_store default String-discrete
opens_no_bolt = refl

abbrev standalone : Built MemoryStore ℕ
standalone = record { engine = engine; manager = local_manager local_config 5; raft_node = none }

-- Without Raft the schedulers start at once.
launches :
    (start memory_store local_config standalone).1
    ≡ worker_loop 2 ∷ worker_loop 1 ∷ monitor 5_000_000_000 ∷ scheduler_loops ∷ cron_loop ∷ []
unfolding start default local_manager list alive_clients register delete insert ℕ_discrete
launches = refl

-- Worker 7 is idle and handles every type.
abbrev any_broker : Broker
any_broker = record { worker_topics = []; worker_is_all = (7, true) ∷ [] }

abbrev idle : Engine MemoryStore
idle = record engine {
  scheduler = record engine.scheduler {
    priority_queue = record { items = []; notify = false };
    available = 7 ∷ [];
    broker = some any_broker;
  };
}

abbrev accepts_all : ℕ → Job → Bool
accepts_all w j = true

abbrev next_job : Job
next_job = new_job 2 "video" (pos 9)
