-- ===== src/Engine/Submit.antt =====
-- SubmitJob and SubmitJobIdempotent of internal/engine/engine.go in the standalone mode.
use job_manager_quorum.Common.{
  ℕ, suc, ◌<◌, ◌≡◌, ◌≢◌, refl, sym, ap, ◌∙◌, String, String-discrete, ℤ, true, false, Option, none,
  some, ◌∷◌, if_neg, ℕ_discrete, Perm, arith, lookup-insert, ℕ-key, String-key,
}
use job_manager_quorum.Job.{Job, new_job, pending}
use job_manager_quorum.Store.{Store, StoreError, ContractWithin, Puts}
use job_manager_quorum.Store.Memory.{MemoryStore, memory_store, add, get, find_by_idempotency_key}
use job_manager_quorum.Store.Memory.Index.{IsConsistent}
use job_manager_quorum.Store.Memory.Contract.{memory_store-Contract}
use job_manager_quorum.Queue.{priority_comparator}
use job_manager_quorum.Queue.Laws.{enqueue-perm}
use job_manager_quorum.Scheduler.{enqueue_priority}
use job_manager_quorum.Engine.{
  Engine, submit, submitted, submit_job, submit_job_idempotent, with_next_id,
}

module _ {S : Type 0} (st : Store S) where
  -- No id above the counter is taken.
  abbrev pub IsFresh : Engine S → Type 0
  IsFresh e = (id : ℕ) → e.next_job_id < id → st.get id e.scheduler.store ≡ none

  -- The job is stored, and its id stands in the priority queue once more; the counter is its id, and
  -- the workers are as before.
  pub record Accepted (j : Job) (e e' : Engine S) : Type 0 where
    pub added : e'.scheduler.store ≡ (st.add j e.scheduler.store).0
    pub stored : Puts st j e.scheduler.store e'.scheduler.store
    pub queued : Perm e'.scheduler.priority_queue.items (j.id ∷ e.scheduler.priority_queue.items)
    pub counted : e'.next_job_id ≡ j.id
    pub available : e'.scheduler.available ≡ e.scheduler.available
    pub broker : e'.scheduler.broker ≡ e.scheduler.broker
    pub fresh : IsFresh e'

  module _ {Fits : Job → Type 0} {IsConsistent : S → Type 0}
      (k : ContractWithin st Fits IsConsistent) where
    run_of :
        (r : S × Option StoreError) (j : Job) (e : Engine S)
        → r.1 ≡ none
        → submitted st (enqueue_priority st) j (with_next_id e) r ≡ (
          record {
            scheduler = enqueue_priority st j.id (record e.scheduler { store = r.0 });
            next_job_id = suc e.next_job_id;
            cron_jobs = e.cron_jobs;
          },
          j,
          none,
        )
    unfolding submitted
    run_of (s, none) j e h = refl
    run_of (s, some x) j e h = absurd (ground (arith, h))

    submit-Accepted :
        (j : Job) (e : Engine S)
        → j.id ≡ suc e.next_job_id
        → IsConsistent e.scheduler.store
        → Fits j
        → IsFresh e
        → (e' : Engine S) × (submit st none (enqueue_priority st) j (with_next_id e)
            ≡ (e', j, none))
          × Accepted j e e'
          × IsConsistent e'.scheduler.store
    unfolding submit submitted enqueue_priority
    submit-Accepted j e next v fits fresh =
        let free : st.get j.id e.scheduler.store ≡ none = fresh j.id (omega arith) in
        let (ok, put, v') = k.add-ok j e.scheduler.store v fits free in
        let e' : Engine S = record {
          scheduler =
              enqueue_priority st j.id
                (record e.scheduler { store = (st.add j e.scheduler.store).0 });
          next_job_id = suc e.next_job_id;
          cron_jobs = e.cron_jobs;
        } in
        (
          e',
          run_of (st.add j e.scheduler.store) j e ok,
          record {
            added = refl;
            stored = put;
            queued = (enqueue-perm (priority_comparator st _) j.id e.scheduler.priority_queue).0;
            counted = sym next;
            available = refl;
            broker = refl;
            fresh = λ id above.
                put id
                ∙ if_neg (ℕ_discrete j.id id) (λ p. omega arith) _ _
                ∙ fresh id (omega arith);
          },
          v',
        )

    -- SubmitJob with a counter above every stored id, of a job within the store's limits, in the
    -- standalone mode, succeeds: it returns a
    -- pending job under the next id, stores exactly this job, adds it to the priority queue, and keeps
    -- the counter above every stored id.
    pub submit_job-Accepted :
        (kind : String) (priority : ℤ) (e : Engine S)
        → IsConsistent e.scheduler.store
        → Fits (new_job (suc e.next_job_id) kind priority)
        → IsFresh e
        → let j = new_job (suc e.next_job_id) kind priority in
          (e' : Engine S) × (submit_job st none kind priority e ≡ (e', j, none))
          × Accepted j e e'
          × IsConsistent e'.scheduler.store
    unfolding submit_job new_job
    submit_job-Accepted kind priority e v fits fresh =
        submit-Accepted (new_job (suc e.next_job_id) kind priority) e refl v fits fresh

find-add :
    (j : Job) (s : MemoryStore)
    → get j.id s ≡ none
    → j.idempotency_key ≢ ""
    → find_by_idempotency_key j.idempotency_key (add j s).0 ≡ some j
unfolding find_by_idempotency_key get add
find-add j s free key = ground (
  arith,
  free,
  key,
  lookup-insert j.id j.id j s.jobs,
  lookup-insert j.idempotency_key j.idempotency_key j.id s.idempotency_index,
)

-- A job as a submission makes it, with its idempotency key.
pub record IsNewJob (id : ℕ) (kind : String) (priority : ℤ) (idempotency_key : String) (j : Job)
    : Type 0 where
  pub has_id : j.id ≡ id
  pub has_kind : j.kind ≡ kind
  pub has_priority : j.priority ≡ priority
  pub has_key : j.idempotency_key ≡ idempotency_key
  pub is_pending : j.status ≡ pending
  pub not_retried : j.retry_count ≡ 0

-- With the in-memory store, a counter above every stored id and a key that is not empty and not seen
-- yet: SubmitJobIdempotent creates a pending job under the next id, with the type, the priority and
-- the key, and a second call with the key, whatever type and priority it gives, returns that job,
-- flagged as a duplicate, and changes nothing.
pub submit_job_idempotent-twice :
    (key kind kind' : String) (priority priority' : ℤ) (e : Engine MemoryStore)
    → key ≢ ""
    → IsConsistent e.scheduler.store
    → IsFresh memory_store e
    → find_by_idempotency_key key e.scheduler.store ≡ none
    → (e' : Engine MemoryStore) × (j : Job) × (submit_job_idempotent memory_store none key kind
          priority e
        ≡ (e', j, false, none))
      × IsNewJob (suc e.next_job_id) kind priority key j
      × Accepted memory_store j e e'
      × (submit_job_idempotent memory_store none key kind' priority' e' ≡ (e', j, true, none))
unfolding submit_job_idempotent new_job
submit_job_idempotent-twice key kind kind' priority priority' e named v fresh unseen =
    let j : Job = record (new_job (suc e.next_job_id) kind priority) { idempotency_key = key } in
    let (e', run, accepted, v') =
      submit-Accepted memory_store memory_store-Contract.common j e refl v tt fresh in
    let seen : find_by_idempotency_key key e'.scheduler.store ≡ some j =
      ap (find_by_idempotency_key key) accepted.added
      ∙ find-add j e.scheduler.store (fresh j.id (omega arith)) named in
    (
      e',
      j,
      rw (if_neg (String-discrete key "") named, unseen, run) refl,
      record {
        has_id = refl;
        has_kind = refl;
        has_priority = refl;
        has_key = refl;
        is_pending = refl;
        not_retried = refl;
      },
      accepted,
      rw (if_neg (String-discrete key "") named, seen) refl,
    )
