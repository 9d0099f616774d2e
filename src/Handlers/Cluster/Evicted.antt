-- ===== src/Handlers/Cluster/Evicted.antt =====
-- What becomes of a worker that DELETE /cluster/nodes/{id} of internal/handlers/cluster.go evicts.
use job_manager_quorum.Common.{
  ℕ, ◌≡◌, ◌≢◌, refl, ap, ◌∙◌, sym, String, ℤ, pos, ◌&&◌, none, some, List, [], ◌∷◌, ◌++◌, Map,
  lookup, delete, ℕ-key, lookup-delete, arith, if_pos, if_neg, ℕ_discrete, All, In, inl, inr,
  Bool-cases, length, ltb,
}
use job_manager_quorum.Store.{Store}
use job_manager_quorum.Engine.{Engine}
use job_manager_quorum.Scheduler.{Scheduler, choose_worker}
use job_manager_quorum.Broker.{
  Broker, can_handle, select_worker, select_loop, try_send, try_send_all, unregister_worker,
}
use job_manager_quorum.WorkerManager.{
  Manager, WorkerInfo, dead_workers_buf_size, is_late, remove, sweep, monitor_tick,
}
use job_manager_quorum.WorkerManager.Gauge.{sweep-keys}
use job_manager_quorum.Handlers.Cluster.{Cluster, shared_broker, evict}

-- Every entry has the key that its worker has as its id.
abbrev pub IsKeyed : Map ℕ WorkerInfo → Type 0
IsKeyed = All (λ entry. entry.1.client ≡ entry.0)

-- The ticks of the monitor, each with its timeout and clock.
abbrev pub ticks : List (ℕ × ℕ) → Manager → Manager
ticks [] m = m
ticks ((timeout, now) ∷ more) m = ticks more (monitor_tick timeout now m)

In-append_one : {A : Type 0} (a b : A) (xs : List A) → b ≢ a → In a (xs ++ b ∷ []) → In a xs
In-append_one a b [] n (inl e) = absurd (n e)
In-append_one a b [] n (inr m) = m
In-append_one a b (x ∷ xs) n (inl e) = inl e
In-append_one a b (x ∷ xs) n (inr m) = inr (In-append_one a b xs n m)

In-try_send : (cap id w : ℕ) (ch : List ℕ) → w ≢ id → In id (try_send cap w ch) → In id ch
unfolding try_send
In-try_send cap id w ch n = elim (Bool-cases (ltb (length ch) cap)) [
  | inl room ↦ rw room (In-append_one id w ch n)
  | inr full ↦ rw full (λ m. m)
]

other_key :
    {V : Type 0} (k id : ℕ) (v : V) (m : Map ℕ V)
    → lookup id ((k, v) ∷ m) ≡ none
    → (k ≢ id) × (lookup id m ≡ none)
unfolding lookup
other_key k id v m h = ground (arith, h)

sweep-absent :
    (timeout now id : ℕ) (workers : Map ℕ WorkerInfo) (dead : List ℕ) (g : ℤ)
    → IsKeyed workers
    → lookup id workers ≡ none
    → In id (sweep timeout now workers dead g).1
    → In id dead
unfolding sweep
sweep-absent timeout now id [] dead g keyed gone = λ m. m
sweep-absent timeout now id ((k, info) ∷ workers) dead g (key, keyed) gone =
    let (other, gone') = other_key k id info workers gone in
    elim (Bool-cases (is_late timeout now info && info.alive)) [
      | inl late ↦ rw late (λ m.
          In-try_send dead_workers_buf_size id info.client dead (λ e. other (sym key ∙ e))
            (sweep-absent timeout now id workers _ _ keyed gone' m))
      | inr fresh ↦ rw fresh (sweep-absent timeout now id workers _ _ keyed gone')
    ]

sweep-IsKeyed :
    (timeout now : ℕ) (workers : Map ℕ WorkerInfo) (dead : List ℕ) (g : ℤ)
    → IsKeyed workers
    → IsKeyed (sweep timeout now workers dead g).0
unfolding sweep
sweep-IsKeyed timeout now [] dead g keyed = tt
sweep-IsKeyed timeout now ((k, info) ∷ workers) dead g (key, keyed) =
    (key, sweep-IsKeyed timeout now workers _ _ keyed)

ticks-absent :
    (id : ℕ) (ts : List (ℕ × ℕ)) (m : Manager)
    → IsKeyed m.workers
    → lookup id m.workers ≡ none
    → In id (ticks ts m).dead_workers
    → In id m.dead_workers
unfolding monitor_tick
ticks-absent id [] m keyed gone h = h
ticks-absent id ((timeout, now) ∷ ts) m keyed gone h =
    sweep-absent timeout now id m.workers m.dead_workers m.active_workers keyed gone (
      ticks-absent id ts (monitor_tick timeout now m)
        (sweep-IsKeyed timeout now m.workers m.dead_workers m.active_workers keyed)
        (sweep-keys timeout now id m.workers m.dead_workers m.active_workers gone) h)

delete-IsKeyed :
    (id : ℕ) (workers : Map ℕ WorkerInfo) → IsKeyed workers → IsKeyed (delete id workers)
unfolding delete
delete-IsKeyed id [] keyed = tt
delete-IsKeyed id ((k, info) ∷ workers) (key, keyed) =
    let rest = delete-IsKeyed id workers keyed in
    elim (ℕ_discrete k id) [
      | yes same ↦ rw (if_pos (ℕ_discrete k id) same _ _) rest
      | no other ↦ rw (if_neg (ℕ_discrete k id) other _ _) (key, rest)
    ]

lookup-deleted : {V : Type 0} (id : ℕ) (m : Map ℕ V) → lookup id (delete id m) ≡ none
lookup-deleted id m = lookup-delete id id m ∙ if_pos (ℕ_discrete id id) refl _ _

-- The scheduler as it was, with another broker.
abbrev pub rerouted : {S : Type 0} → Engine S → Broker → Engine S
rerouted e b = record e { scheduler = record e.scheduler { broker = some b } }

-- After DELETE /cluster/nodes/{id} the manager has no entry of the worker, and of the engine, whose
-- broker is the manager's, only the broker is another, still the manager's: the leases are as before.
-- That broker takes the worker for one of every topic: a scheduler with it chooses the worker for a
-- job of any type, where it is the next of the channel of available workers. Whatever ticks the
-- monitor makes, it signals the worker's death only if it had signalled it before, where each entry
-- has its worker's id as its key.
pub evict-selected :
    {S : Type 0} (st : Store S) (now id : ℕ) (c : Cluster S)
    → c.engine.scheduler.broker ≡ some c.manager.broker
    → IsKeyed c.manager.workers
    → let c' = (evict now (pos id) c).0 in
      (lookup id c'.manager.workers ≡ none)
      × (c'.engine ≡ rerouted c.engine c'.manager.broker)
      × ((job_type : String) (s : Scheduler S) (rest : List ℕ)
          → s.broker ≡ c'.engine.scheduler.broker
          → s.available ≡ id ∷ rest
          → choose_worker st job_type s ≡ (some id, rest))
      × ((ts : List (ℕ × ℕ))
          → In id (ticks ts c'.manager).dead_workers
          → In id c.manager.dead_workers)
unfolding evict remove can_handle unregister_worker select_worker select_loop try_send_all
    choose_worker
evict-selected st now id c shared keyed = (
  lookup-deleted id c.manager.workers,
  ap
      (λ b. record c.engine {
        scheduler = record c.engine.scheduler {
          broker = shared_broker (remove id c.manager).broker b;
        };
      })
      shared,
  λ job_type s rest routed next.
      rw
        (
          routed,
          shared,
          choose_worker,
          next,
          select_worker,
          select_loop,
          can_handle,
          lookup-deleted id c.manager.broker.worker_is_all,
          lookup-deleted id c.manager.broker.worker_topics,
        )
        refl,
  λ ts.
      ticks-absent id ts (remove id c.manager) (delete-IsKeyed id c.manager.workers keyed)
        (lookup-deleted id c.manager.workers),
)
