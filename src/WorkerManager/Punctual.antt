-- ===== src/WorkerManager/Punctual.antt =====
-- The monitor of internal/workermanager/manager.go and a worker whose heartbeats come in time.
use job_manager_quorum.Common.{
  ℕ, ◌+◌, ◌≤◌, ◌≡◌, refl, sym, ap, ◌∙◌, String, true, false, none, some, List, [], ◌∷◌, lookup,
  ℕ-key, ℕ_discrete, if_pos, subst, if_neg, arith, ite, ◌≢◌, insert, if◌then◌else◌, lookup-insert,
  lookup-delete, Option-cases, inl, inr,
}
use job_manager_quorum.WorkerManager.{
  Manager, WorkerInfo, register, remove, heartbeat, is_late, monitor_tick,
}
use job_manager_quorum.WorkerManager.Gauge.{Event, registered, removed, beat, ticked, step}
use job_manager_quorum.WorkerManager.Monitor.{judged, sweep-judged}

unfoldable pub history : List Event → Manager → Manager
unfolding step
history [] m = m
history (e ∷ es) m = history es (step e m)

-- Every tick comes at most its timeout after the worker's last sign of life, and nobody removes it.
abbrev pub IsPunctual : ℕ → List Event → ℕ → Type 0
IsPunctual id [] last = Unit
IsPunctual id (registered w address topics now ∷ es) last =
    IsPunctual id es (ite (ℕ_discrete w id) now last)
IsPunctual id (removed w ∷ es) last = (w ≢ id) × IsPunctual id es last
IsPunctual id (beat w now ∷ es) last = IsPunctual id es (ite (ℕ_discrete w id) now last)
IsPunctual id (ticked timeout now ∷ es) last = (now ≤ last + timeout) × IsPunctual id es last

-- The worker is alive, and its last heartbeat was then.
pub record IsAlive (id last : ℕ) (m : Manager) : Type 0 where
  pub info : WorkerInfo
  pub entry : lookup id m.workers ≡ some info
  pub alive : info.alive ≡ true
  pub heartbeat_at : info.last_heartbeat ≡ last

-- The entry under a key after it or another key got a new one.
insert-IsAlive :
    (id last w now : ℕ) (info : WorkerInfo) (m m' : Manager)
    → m'.workers ≡ insert w info m.workers
    → info.alive ≡ true
    → info.last_heartbeat ≡ now
    → IsAlive id last m
    → IsAlive id (ite (ℕ_discrete w id) now last) m'
insert-IsAlive id last w now info m m' e up at h = elim (ℕ_discrete w id) [
  | yes same ↦
      subst (λ l. IsAlive id l m') (sym (if_pos (ℕ_discrete w id) same now last))
        (record {
          info = info;
          entry =
              ap (lookup id) e
              ∙ lookup-insert id w info m.workers
              ∙ if_pos (ℕ_discrete w id) same _ _;
          alive = up;
          heartbeat_at = at;
        })
  | no other ↦
      subst (λ l. IsAlive id l m') (sym (if_neg (ℕ_discrete w id) other now last))
        (record {
          info = h.info;
          entry =
              ap (lookup id) e
              ∙ lookup-insert id w info m.workers
              ∙ if_neg (ℕ_discrete w id) other _ _
              ∙ h.entry;
          alive = h.alive;
          heartbeat_at = h.heartbeat_at;
        })
]

register-IsAlive :
    (id last w : ℕ) (address : String) (topics : List String) (now : ℕ) (m : Manager)
    → IsAlive id last m
    → IsAlive id (ite (ℕ_discrete w id) now last) (register w address topics now m)
unfolding register
register-IsAlive id last w address topics now m =
    insert-IsAlive id last w now _ m (register w address topics now m) refl refl refl

unknown-IsAlive :
    (id last w now : ℕ) (m : Manager)
    → lookup w m.workers ≡ none
    → IsAlive id last m
    → IsAlive id (ite (ℕ_discrete w id) now last) m
unknown-IsAlive id last w now m gone h = elim (ℕ_discrete w id) [
  | yes same ↦ absurd (ground (arith, gone, h.entry, same))
  | no other ↦ subst (λ l. IsAlive id l m) (sym (if_neg (ℕ_discrete w id) other now last)) h
]

heartbeat-IsAlive :
    (id last w now : ℕ) (m : Manager)
    → IsAlive id last m
    → IsAlive id (ite (ℕ_discrete w id) now last) (heartbeat w now m)
unfolding heartbeat
heartbeat-IsAlive id last w now m h = elim (Option-cases (lookup w m.workers)) [
  | inl gone ↦ rw (gone, heartbeat) (unknown-IsAlive id last w now m gone h)
  | inr (info, e) ↦
      rw (e, heartbeat)
        (insert-IsAlive id last w now (record info { last_heartbeat = now; alive = true }) m _ refl
          refl refl h)
]

remove-IsAlive :
    (id last w : ℕ) (m : Manager) → w ≢ id → IsAlive id last m → IsAlive id last (remove w m)
unfolding remove
remove-IsAlive id last w m other h = record {
  info = h.info;
  entry = lookup-delete id w m.workers ∙ if_neg (ℕ_discrete w id) other _ _ ∙ h.entry;
  alive = h.alive;
  heartbeat_at = h.heartbeat_at;
}

monitor_tick-IsAlive :
    (id last timeout now : ℕ) (m : Manager)
    → now ≤ last + timeout
    → IsAlive id last m
    → IsAlive id last (monitor_tick timeout now m)
unfolding monitor_tick
monitor_tick-IsAlive id last timeout now m in_time h =
    let fresh : is_late timeout now h.info ≡ false = ground (arith, in_time, h.heartbeat_at) in
    record {
      info = record h.info { alive = if is_late timeout now h.info then false else h.info.alive };
      entry = sweep-judged timeout now id m.workers _ _ ∙ ap (judged timeout now) h.entry;
      alive = ap (λ b. if b then false else h.info.alive) fresh ∙ h.alive;
      heartbeat_at = h.heartbeat_at;
    }

step-IsAlive :
    (id last : ℕ) (e : Event) (es : List Event) (m : Manager)
    → IsPunctual id (e ∷ es) last
    → IsAlive id last m
    → (last' : ℕ) × IsPunctual id es last' × IsAlive id last' (step e m)
unfolding step
step-IsAlive id last (registered w address topics now) es m p h =
    (_, p, register-IsAlive id last w address topics now m h)
step-IsAlive id last (removed w) es m p h = (_, p.1, remove-IsAlive id last w m p.0 h)
step-IsAlive id last (beat w now) es m p h = (_, p, heartbeat-IsAlive id last w now m h)
step-IsAlive id last (ticked timeout now) es m p h =
    (_, p.1, monitor_tick-IsAlive id last timeout now m p.0 h)

-- A living worker stays registered and alive through any history of the manager in which nobody removes
-- it and each tick of the monitor comes at most its timeout after the worker's last registration or
-- heartbeat.
pub punctual_stays :
    (id last : ℕ) (es : List Event) (m : Manager)
    → IsPunctual id es last
    → IsAlive id last m
    → (info : WorkerInfo) × (lookup id (history es m).workers ≡ some info) × (info.alive ≡ true)
unfolding history
punctual_stays id last [] m p h = (h.info, h.entry, h.alive)
punctual_stays id last (e ∷ es) m p h =
    let (last', p', h') = step-IsAlive id last e es m p h in
    punctual_stays id last' es (step e m) p' h'
