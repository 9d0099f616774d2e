-- ===== src/WorkerManager/Monitor.antt =====
-- One tick of Monitor of internal/workermanager/manager.go.
use job_manager_quorum.Common.{
  ℕ, ◌+◌, ◌≤◌, ◌<◌, ◌≡◌, refl, sym, ap, ◌∙◌, ℤ, Bool, false, ◌&&◌, inl, inr, Option, none, some,
  List, [], ◌∷◌, ◌++◌, Map, lookup, ℕ-key, length, length-append, if_pos, if_neg, ℕ_discrete,
  Bool-cases, arith, if◌then◌else◌,
}
use mathlib.Core.List.{append-nil, append_assoc}
use job_manager_quorum.Broker.{try_send}
use job_manager_quorum.WorkerManager.{
  Manager, WorkerInfo, dead_workers_buf_size, is_late, dec, sweep, monitor_tick,
}

-- A worker's entry after the tick: dead if its last heartbeat is late, else as before.
abbrev pub judged : ℕ → ℕ → Option WorkerInfo → Option WorkerInfo
judged timeout now none = none
judged timeout now (some info) =
    some (record info { alive = if is_late timeout now info then false else info.alive })

-- The ids of the living workers whose heartbeat is late, in the map's order.
unfoldable pub newly_dead : ℕ → ℕ → Map ℕ WorkerInfo → List ℕ
newly_dead timeout now [] = []
newly_dead timeout now ((id, info) ∷ workers) =
    let rest = newly_dead timeout now workers in
    if is_late timeout now info && info.alive then info.client ∷ rest else rest

not_alive :
    (late alive : Bool) → (if late && alive then false else alive) ≡ (if late then false else alive)
not_alive late alive = ground arith

pub sweep-judged :
    (timeout now k : ℕ) (workers : Map ℕ WorkerInfo) (dead : List ℕ) (g : ℤ)
    → lookup k (sweep timeout now workers dead g).0 ≡ judged timeout now (lookup k workers)
unfolding sweep lookup
sweep-judged timeout now k [] dead g = refl
sweep-judged timeout now k ((id, info) ∷ workers) dead g = elim (ℕ_discrete id k) [
  | yes same ↦
      if_pos (ℕ_discrete id k) same _ _
      ∙ ap (λ b. some (record info { alive = b })) (not_alive (is_late timeout now info) info.alive)
      ∙ ap (judged timeout now) (sym (if_pos (ℕ_discrete id k) same _ _))
  | no other ↦
      if_neg (ℕ_discrete id k) other _ _
      ∙ sweep-judged timeout now k workers _ _
      ∙ ap (judged timeout now) (sym (if_neg (ℕ_discrete id k) other _ _))
]

newly_dead-length :
    (timeout now : ℕ) (workers : Map ℕ WorkerInfo)
    → length (newly_dead timeout now workers) ≤ length workers
unfolding newly_dead
newly_dead-length timeout now [] = omega arith
newly_dead-length timeout now ((id, info) ∷ workers) =
    ground (arith, newly_dead-length timeout now workers)

room_for :
    (ch : List ℕ) (w : ℕ)
    → length ch < dead_workers_buf_size
    → try_send dead_workers_buf_size w ch ≡ ch ++ w ∷ []
unfolding try_send
room_for ch w h = ground arith

sweep-dead :
    (timeout now : ℕ) (workers : Map ℕ WorkerInfo) (dead : List ℕ) (g : ℤ)
    → length dead + length workers ≤ dead_workers_buf_size
    → (sweep timeout now workers dead g).1 ≡ dead ++ newly_dead timeout now workers
unfolding sweep newly_dead
sweep-dead timeout now [] dead g h = sym (append-nil dead)
sweep-dead timeout now ((id, info) ∷ workers) dead g h =
    elim (Bool-cases (is_late timeout now info && info.alive)) [
      | inl late ↦
          rw (late, room_for dead info.client (omega arith))
            (sweep-dead timeout now workers (dead ++ info.client ∷ []) (dec g)
                (omega (arith, length-append dead (info.client ∷ [])))
              ∙ append_assoc dead (info.client ∷ []) (newly_dead timeout now workers))
      | inr fresh ↦ rw fresh (sweep-dead timeout now workers dead g (omega arith))
    ]

pub monitor_tick-judged :
    (timeout now : ℕ) (m : Manager)
    → length m.dead_workers + length m.workers ≤ dead_workers_buf_size
    → let m' = monitor_tick timeout now m in
      ((k : ℕ) → lookup k m'.workers ≡ judged timeout now (lookup k m.workers))
      × (m'.dead_workers ≡ m.dead_workers ++ newly_dead timeout now m.workers)
unfolding monitor_tick
monitor_tick-judged timeout now m room = (
  λ k. sweep-judged timeout now k m.workers m.dead_workers m.active_workers,
  sweep-dead timeout now m.workers m.dead_workers m.active_workers room,
)
