-- ===== src/WorkerManager/Tests.antt =====
-- The registry of workers at concrete inputs.
use job_manager_quorum.Common.{
  ◌≡◌, refl, pos, true, some, List, [], ◌∷◌, lookup, ℕ_discrete, ℕ-key, arith,
}
use job_manager_quorum.Broker
use job_manager_quorum.WorkerManager.{Manager, WorkerInfo}
use job_manager_quorum.WorkerManager.Gauge.{Event, removed, beat, ticked}
use job_manager_quorum.WorkerManager.Punctual.{history, punctual_stays}

abbrev worker_7 : WorkerInfo
worker_7 = record { client = 7; last_heartbeat = 10; alive = true; topics = []; address = "a:1" }

abbrev worker_8 : WorkerInfo
worker_8 = record { client = 8; last_heartbeat = 90; alive = true; topics = []; address = "a:2" }

abbrev two_alive : Manager
two_alive = record {
  workers = (7, worker_7) ∷ (8, worker_8) ∷ [];
  available = [];
  dead_workers = 3 ∷ [];
  broker = Broker.new;
  active_workers = pos 2;
}

-- The worker's heartbeat comes before the tick that would find it late.
abbrev events : List Event
events = ticked 50 60 ∷ beat 7 70 ∷ removed 8 ∷ ticked 50 110 ∷ []

punctual_stays_example :
    (info : WorkerInfo) × (lookup 7 (history events two_alive).workers ≡ some info)
    × (info.alive ≡ true)
unfolding ℕ_discrete lookup
punctual_stays_example =
    punctual_stays 7 10 events two_alive (omega arith, ((λ e. omega (arith, e)), (omega arith, tt)))
      (record { info = worker_7; entry = refl; alive = refl; heartbeat_at = refl })
