-- ===== src/WorkerManager/Gauge.antt =====
-- The gauge ActiveWorkers of internal/workermanager/manager.go.
use job_manager_quorum.Common.{
  ℕ, ◌+◌, ◌≡◌, refl, sym, ap, ◌∙◌, String, ℤ, pos, Bool, true, false, ◌&&◌, Option, none, some,
  List, [], ◌∷◌, Map, lookup, insert, delete, ℕ-key, Distinct, Distinct-delete, Distinct-insert,
  if_neg, ℕ_discrete, Option-cases, arith, inl, inr, if◌then◌else◌,
}
use job_manager_quorum.WorkerManager.{
  Manager, WorkerInfo, dec, register, remove, heartbeat, is_late, sweep, monitor_tick,
}

abbrev pub one_if_alive : Option WorkerInfo → ℕ
one_if_alive none = 0
one_if_alive (some info) = if info.alive then 1 else 0

-- How many entries are alive.
unfoldable pub alive_count : Map ℕ WorkerInfo → ℕ
alive_count [] = 0
alive_count ((id, info) ∷ workers) = one_if_alive (some info) + alive_count workers

-- Each worker has one entry, and the gauge counts the living ones.
pub record IsCounted (m : Manager) : Type 0 where
  pub distinct : Distinct m.workers
  pub gauge : m.active_workers ≡ pos (alive_count m.workers)

alive_count-delete :
    (id : ℕ) (workers : Map ℕ WorkerInfo)
    → Distinct workers
    → alive_count workers ≡ one_if_alive (lookup id workers) + alive_count (delete id workers)
unfolding alive_count lookup delete
alive_count-delete id [] d = refl
alive_count-delete id ((n, info) ∷ workers) (alone, d) =
    let rest = alive_count-delete id workers d in
    elim (ℕ_discrete n id) [
      | yes same ↦ ground (arith, rest, alone)
      | no other ↦ ground (arith, rest)
    ]

-- Register counts the worker once more; if a living worker of that id was registered already, the
-- gauge is then one more than the number of living workers.
pub register-gauge :
    (w : ℕ) (address : String) (topics : List String) (now : ℕ) (m : Manager)
    → IsCounted m
    → let m' = register w address topics now m in
      m'.active_workers ≡ pos (one_if_alive (lookup w m.workers) + alive_count m'.workers)
unfolding register alive_count insert
register-gauge w address topics now m c =
    ground (arith, c.gauge, alive_count-delete w m.workers c.distinct)

-- The calls that change the registry.
pub data Event : Type 0 where
  registered : ℕ → String → List String → ℕ → Event
  removed : ℕ → Event
  beat : ℕ → ℕ → Event
  ticked : ℕ → ℕ → Event

unfoldable pub step : Event → Manager → Manager
step (registered w address topics now) m = register w address topics now m
step (removed id) m = remove id m
step (beat id now) m = heartbeat id now m
step (ticked timeout now) m = monitor_tick timeout now m

-- A worker is registered only while no living worker has its id.
abbrev pub IsFresh : Event → Manager → Type 0
IsFresh (registered w address topics now) m = one_if_alive (lookup w m.workers) ≡ 0
IsFresh (removed id) m = Unit
IsFresh (beat id now) m = Unit
IsFresh (ticked timeout now) m = Unit

pub sweep-keys :
    (timeout now k : ℕ) (workers : Map ℕ WorkerInfo) (dead : List ℕ) (g : ℤ)
    → lookup k workers ≡ none
    → lookup k (sweep timeout now workers dead g).0 ≡ none
unfolding sweep lookup
sweep-keys timeout now k [] dead g h = refl
sweep-keys timeout now k ((id, info) ∷ workers) dead g h = elim (ℕ_discrete id k) [
  | yes same ↦ absurd (ground (arith, h, same))
  | no other ↦
      if_neg (ℕ_discrete id k) other _ _
      ∙ sweep-keys timeout now k workers _ _ (sym (if_neg (ℕ_discrete id k) other _ _) ∙ h)
]

sweep-Distinct :
    (timeout now : ℕ) (workers : Map ℕ WorkerInfo) (dead : List ℕ) (g : ℤ)
    → Distinct workers
    → Distinct (sweep timeout now workers dead g).0
unfolding sweep
sweep-Distinct timeout now [] dead g d = tt
sweep-Distinct timeout now ((id, info) ∷ workers) dead g (alone, d) =
    (sweep-keys timeout now id workers _ _ alone, sweep-Distinct timeout now workers _ _ d)

-- One entry of the sweep: `late` tells whether its heartbeat is late.
gauge_of_entry :
    (late alive : Bool) (n c : ℕ) (g : ℤ)
    → g ≡ pos (n + ((if alive then 1 else 0) + c))
    → (if late && alive then dec g else g)
      ≡ pos ((n + (if (if late && alive then false else alive) then 1 else 0)) + c)
gauge_of_entry late alive n c g e = ground (arith, e)

sweep-gauge :
    (timeout now : ℕ) (workers : Map ℕ WorkerInfo) (n : ℕ) (dead : List ℕ) (g : ℤ)
    → g ≡ pos (n + alive_count workers)
    → (sweep timeout now workers dead g).2
      ≡ pos (n + alive_count (sweep timeout now workers dead g).0)
unfolding sweep alive_count
sweep-gauge timeout now [] n dead g e = e
sweep-gauge timeout now ((id, info) ∷ workers) n dead g e =
    sweep-gauge timeout now workers _ _ _
      (gauge_of_entry (is_late timeout now info) info.alive n (alive_count workers) g e)
    ∙ ap pos (omega arith)

remove-IsCounted : (id : ℕ) (m : Manager) → IsCounted m → IsCounted (remove id m)
unfolding remove
remove-IsCounted id m c = record {
  distinct = Distinct-delete id m.workers c.distinct;
  gauge = ground (arith, c.gauge, alive_count-delete id m.workers c.distinct);
}

heartbeat-IsCounted : (id now : ℕ) (m : Manager) → IsCounted m → IsCounted (heartbeat id now m)
unfolding heartbeat insert alive_count
heartbeat-IsCounted id now m c = elim (Option-cases (lookup id m.workers)) [
  | inl e ↦ rw (e, heartbeat) c
  | inr (info, e) ↦
      rw (e, heartbeat)
        (record {
          distinct =
              Distinct-insert id (record info { last_heartbeat = now; alive = true }) m.workers
                c.distinct;
          gauge = ground (arith, e, c.gauge, alive_count-delete id m.workers c.distinct);
        })
]

register-IsCounted :
    (w : ℕ) (address : String) (topics : List String) (now : ℕ) (m : Manager)
    → one_if_alive (lookup w m.workers) ≡ 0
    → IsCounted m
    → IsCounted (register w address topics now m)
unfolding register
register-IsCounted w address topics now m fresh c = record {
  distinct = Distinct-insert w _ m.workers c.distinct;
  gauge =
      register-gauge w address topics now m c
      ∙ ap (λ n. pos (n + alive_count (register w address topics now m).workers)) fresh
      ∙ ap pos (omega arith);
}

monitor_tick-IsCounted :
    (timeout now : ℕ) (m : Manager) → IsCounted m → IsCounted (monitor_tick timeout now m)
unfolding monitor_tick
monitor_tick-IsCounted timeout now m c = record {
  distinct = sweep-Distinct timeout now m.workers m.dead_workers m.active_workers c.distinct;
  gauge =
      sweep-gauge timeout now m.workers 0 m.dead_workers m.active_workers
        (c.gauge ∙ ap pos (omega arith))
      ∙ ap pos (omega arith);
}

-- Register of an id that no living worker has, Remove, Heartbeat and a tick of the monitor keep the
-- gauge ActiveWorkers at the number of living workers.
pub step-IsCounted : (e : Event) (m : Manager) → IsFresh e m → IsCounted m → IsCounted (step e m)
unfolding step
step-IsCounted (registered w address topics now) m fresh c =
    register-IsCounted w address topics now m fresh c
step-IsCounted (removed id) m fresh c = remove-IsCounted id m c
step-IsCounted (beat id now) m fresh c = heartbeat-IsCounted id now m c
step-IsCounted (ticked timeout now) m fresh c = monitor_tick-IsCounted timeout now m c
