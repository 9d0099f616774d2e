-- ===== src/Engine/Local.antt =====
-- The local workers that New of internal/engine/engine.go registers, and the monitor.
use job_manager_quorum.Common.{
  ℕ, zero, suc, ◌+◌, ◌≤◌, ◌<◌, ◌≡◌, refl, sym, ap, ◌∙◌, subst, pos, true, false, ◌&&◌, some, [],
  ◌∷◌, ◌++◌, if◌then◌else◌, lookup, insert, delete, ℕ-key, ℕ_discrete, In, length, arith, if_pos,
  if_neg, inl, inr, lookup-insert, Map, Bool-cases,
}
use job_manager_quorum.WorkerManager.{
  Manager, WorkerInfo, dead_workers_buf_size, new_manager, register, is_late, monitor_tick,
}
use job_manager_quorum.WorkerManager.Monitor.{judged, newly_dead, monitor_tick-judged}
use job_manager_quorum.Config.{Config}
use job_manager_quorum.Engine.Start.{register_local, local_manager}

-- The worker was registered at that time and never heard of again.
pub record IsLocal (now id : ℕ) (workers : Map ℕ WorkerInfo) : Type 0 where
  pub info : WorkerInfo
  pub entry : lookup id workers ≡ some info
  pub client : info.client ≡ id
  pub alive : info.alive ≡ true
  pub heartbeat_at : info.last_heartbeat ≡ now

register_local-IsLocal :
    (now n id : ℕ) (m : Manager) → 1 ≤ id → id ≤ n → IsLocal now id (register_local now n m).workers
unfolding register_local register
register_local-IsLocal now zero id m low high = absurd (omega arith)
register_local-IsLocal now (suc n) id m low high = elim (ℕ_discrete (suc n) id) [
  | yes same ↦ record {
    info = _;
    entry =
        lookup-insert id (suc n) _ (register_local now n m).workers
        ∙ if_pos (ℕ_discrete (suc n) id) same _ _;
    client = same;
    alive = refl;
    heartbeat_at = refl;
  }
  | no other ↦
      let h = register_local-IsLocal now n id m low (omega (arith, other)) in
      record {
        info = h.info;
        entry =
            lookup-insert id (suc n) _ (register_local now n m).workers
            ∙ if_neg (ℕ_discrete (suc n) id) other _ _
            ∙ h.entry;
        client = h.client;
        alive = h.alive;
        heartbeat_at = h.heartbeat_at;
      }
]

length-delete : {V : Type 0} (k : ℕ) (m : Map ℕ V) → length (delete k m) ≤ length m
unfolding delete
length-delete k [] = omega arith
length-delete k ((j, v) ∷ m) = ground (arith, length-delete k m)

register_local-length :
    (now n : ℕ) (m : Manager) → length (register_local now n m).workers ≤ n + length m.workers
unfolding register_local register insert
register_local-length now zero m = omega arith
register_local-length now (suc n) m =
    omega
      (arith, length-delete (suc n) (register_local now n m).workers, register_local-length now n m)

register_local-dead :
    (now n : ℕ) (m : Manager) → (register_local now n m).dead_workers ≡ m.dead_workers
unfolding register_local register
register_local-dead now zero m = refl
register_local-dead now (suc n) m = register_local-dead now n m

first_dead :
    (timeout now k : ℕ) (i : WorkerInfo) (workers : Map ℕ WorkerInfo)
    → (is_late timeout now i && i.alive) ≡ true
    → In i.client (newly_dead timeout now ((k, i) ∷ workers))
unfolding newly_dead
first_dead timeout now k i workers late = rw (late, newly_dead) (inl refl)

rest_dead :
    (timeout now k : ℕ) (i : WorkerInfo) (workers : Map ℕ WorkerInfo) (w : ℕ)
    → In w (newly_dead timeout now workers)
    → In w (newly_dead timeout now ((k, i) ∷ workers))
unfolding newly_dead
rest_dead timeout now k i workers w h = elim (Bool-cases (is_late timeout now i && i.alive)) [
  | inl late ↦ rw (late, newly_dead) (inr h)
  | inr fresh ↦ rw (fresh, newly_dead) h
]

In-newly_dead :
    (timeout now id : ℕ) (workers : Map ℕ WorkerInfo) (info : WorkerInfo)
    → lookup id workers ≡ some info
    → (is_late timeout now info && info.alive) ≡ true
    → In info.client (newly_dead timeout now workers)
unfolding newly_dead lookup
In-newly_dead timeout now id [] info e late = cc
In-newly_dead timeout now id ((k, i) ∷ workers) info e late = elim (ℕ_discrete k id) [
  | yes same ↦
      let found : some i ≡ some info = sym (if_pos (ℕ_discrete k id) same _ _) ∙ e in
      let first : i ≡ info = cc in
      subst (λ w. In w.client (newly_dead timeout now ((k, i) ∷ workers))) first
        (first_dead timeout now k i workers
          (ap (λ w. is_late timeout now w && w.alive) first ∙ late))
  | no other ↦ rest_dead timeout now k i workers info.client (
      In-newly_dead timeout now id workers info (sym (if_neg (ℕ_discrete k id) other _ _) ∙ e) late)
]

all_late :
    (n start timeout now id : ℕ)
    → n ≤ dead_workers_buf_size
    → start + timeout < now
    → 1 ≤ id
    → id ≤ n
    → let m = monitor_tick timeout now (register_local start n new_manager) in
      ((info : WorkerInfo) × (lookup id m.workers ≡ some info) × (info.alive ≡ false))
      × In id m.dead_workers
unfolding new_manager
all_late n start timeout now id few later low high =
    let m = register_local start n new_manager in
    let h = register_local-IsLocal start n id new_manager low high in
    let none_yet : m.dead_workers ≡ [] = register_local-dead start n new_manager in
    let room : length m.dead_workers + length m.workers ≤ dead_workers_buf_size =
      omega (arith, ap length none_yet, register_local-length start n new_manager) in
    let (judgement, signals) = monitor_tick-judged timeout now m room in
    let late : is_late timeout now h.info ≡ true = ground (arith, later, h.heartbeat_at) in
    let signalled : In h.info.client (newly_dead timeout now m.workers) =
      In-newly_dead timeout now id m.workers h.info h.entry (ground (arith, late, h.alive)) in
    (
      (
        _,
        judgement id ∙ ap (judged timeout now) h.entry,
        ap (λ b. if b then false else h.info.alive) late,
      ),
      subst (In id) (sym (signals ∙ ap (λ d. d ++ newly_dead timeout now m.workers) none_yet))
          (subst (λ w. In w (newly_dead timeout now m.workers)) h.client signalled),
    )

-- The first tick of the monitor that is later than New by more than its timeout declares every local
-- worker dead and signals its death, where nothing but New has touched the manager and there are at
-- most as many local workers as DeadWorkers has room for.
pub local_workers_die :
    (cfg : Config) (n start timeout now : ℕ)
    → cfg.worker_count ≡ pos n
    → n ≤ dead_workers_buf_size
    → start + timeout < now
    → let m = monitor_tick timeout now (local_manager cfg start) in
      (id : ℕ)
      → 1 ≤ id
      → id ≤ n
      → ((info : WorkerInfo) × (lookup id m.workers ≡ some info) × (info.alive ≡ false))
        × In id m.dead_workers
unfolding local_manager
local_workers_die cfg n start timeout now e few later id low high =
    rw (e, local_manager) (all_late n start timeout now id few later low high)
