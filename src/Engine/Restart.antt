-- ===== src/Engine/Restart.antt =====
-- Restore of internal/engine/engine.go at the server's start.
use job_manager_quorum.Common.{
  ℕ, ◌≤◌, ◌≡◌, sym, ap, ◌∙◌, none, some, List, [], ◌∷◌, if_neg, ℕ_discrete, arith, Map, values,
  lookup, ℕ-key, Option-cases, inl, inr, ltb, if◌then◌else◌,
}
use job_manager_quorum.Job.{Job, Status, pending, scheduled}
use job_manager_quorum.Store.Memory.{MemoryStore, memory_store, list, get, list_by_status}
use job_manager_quorum.Store.Memory.Index.{IsConsistent}
use job_manager_quorum.Scheduler.Rebuild.{rebuild-Filled}
use job_manager_quorum.Engine.{Engine, max_id, restore}
use job_manager_quorum.Engine.Submit.{IsFresh}

max_id-above : (js : List Job) (m : ℕ) → m ≤ max_id memory_store js m
unfolding max_id
max_id-above [] m = omega arith
max_id-above (j ∷ js) m = ground (arith, max_id-above js (if ltb m j.id then j.id else m))

max_id-stored :
    (jobs : Map ℕ Job) (m id : ℕ) (j : Job)
    → lookup id jobs ≡ some j
    → j.id ≤ max_id memory_store (values jobs) m
unfolding max_id lookup
max_id-stored [] m id j e = absurd (ground (arith, e))
max_id-stored ((k, x) ∷ jobs) m id j e = elim (ℕ_discrete k id) [
  | yes p ↦
      let same : x ≡ j = ground (arith, e, p) in
      ground (arith, same, max_id-above (values jobs) (if ltb m x.id then x.id else m))
  | no n ↦
      max_id-stored jobs (if ltb m x.id then x.id else m) id j
        (sym (if_neg (ℕ_discrete k id) n _ _) ∙ e)
]

lists_without_error :
    (t : Status) (s : MemoryStore) → list_by_status t s ≡ ((list_by_status t s).0, none)
unfolding list_by_status
lists_without_error t s = ground arith

-- After Restore over the in-memory store the counter is at least every stored id, so that the next
-- submission gets an id that is free; the stored jobs are as before.
pub restore-IsFresh :
    (e : Engine MemoryStore)
    → IsConsistent e.scheduler.store
    → let e' = (restore memory_store e).0 in
      IsFresh memory_store e' × (e'.scheduler.store ≡ e.scheduler.store)
unfolding restore get list
restore-IsFresh e v =
    let s = e.scheduler in
    let filled =
      rebuild-Filled memory_store s (list_by_status pending s.store).0
        (list_by_status scheduled s.store).0 (lists_without_error pending s.store)
        (lists_without_error scheduled s.store) in
    (
      λ id above.
          ap (lookup id) (ap (λ u. u.jobs) filled.store)
          ∙ elim (Option-cases (lookup id s.store.jobs)) [
            | inl free ↦ free
            | inr (j, taken) ↦
                absurd (omega (arith, v.ids id j taken, max_id-stored s.store.jobs 0 id j taken))
          ],
      filled.store,
    )
