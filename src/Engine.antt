-- ===== src/Engine.antt =====
-- internal/engine/engine.go: the calls of the API on jobs. The Raft node is a parameter: none in the
-- standalone mode, else what Propose does to this node's store and the error that it returns. The
-- mutex `submitMu` makes an idempotent submission one step.
pub mod Submit
pub mod Start
pub mod Local
pub mod Lifecycle
pub mod Restart
pub mod Crons
pub mod Leadership
mod Tests
use job_manager_quorum.Common.{
  ℕ, suc, String, String-discrete, ℤ, Bool, true, false, Option, none, some, List, [], ◌∷◌, ite,
  ltb, if◌then◌else◌,
}
use job_manager_quorum.Job.{Job, zero_job, new_job, scheduled}
use job_manager_quorum.Store.{Store, StoreError}
use job_manager_quorum.Cron.{CronJobs}
use job_manager_quorum.Dlq
use job_manager_quorum.Scheduler.{
  Scheduler, enqueue_priority, enqueue_delay, rebuild_queues_from_store,
}
use job_manager_quorum.Consensus.{
  Command, CommandType, add_job, delete_job, cancel_job, zero_command,
}

pub record Engine (S : Type 0) : Type 0 where
  pub scheduler : Scheduler S
  pub next_job_id : ℕ
  pub cron_jobs : CronJobs

abbrev pub Propose : Type 0 → Type 0
Propose S = Command → S → S × Option StoreError

abbrev pub with_next_id : {S : Type 0} → Engine S → Engine S
with_next_id e = record e { next_job_id = suc e.next_job_id }

module _ {S : Type 0} (st : Store S) where
  -- The loop for the largest id.
  unfoldable pub max_id : List Job → ℕ → ℕ
  max_id [] m = m
  max_id (j ∷ js) m = max_id js (if ltb m j.id then j.id else m)

  unfoldable pub restore : Engine S → Engine S × Option StoreError
  unfolding max_id
  restore e =
      let (s, err) = rebuild_queues_from_store st e.scheduler in
      (
        record {
          scheduler = s;
          next_job_id = max_id (st.list e.scheduler.store) 0;
          cron_jobs = e.cron_jobs;
        },
        err,
      )

  -- What follows an Add or a proposal: the job and `queue` on success, the zero job on an error.
  unfoldable pub submitted :
      (ℕ → Scheduler S → Scheduler S)
      → Job
      → Engine S
      → S × Option StoreError
      → Engine S × Job × Option StoreError
  submitted queue j e (store, some err) =
      (record e { scheduler = record e.scheduler { store = store } }, zero_job, some err)
  submitted queue j e (store, none) =
      (record e { scheduler = queue j.id (record e.scheduler { store = store }) }, j, none)

  -- The common end of the submissions: through Raft, where nothing is queued, or into the store.
  unfoldable pub submit :
      Option (Propose S)
      → (ℕ → Scheduler S → Scheduler S)
      → Job
      → Engine S
      → Engine S × Job × Option StoreError
  unfolding submitted
  submit raft queue j e = elim raft [
    | some propose ↦
        submitted (λ id s. s) j e
          (propose (record zero_command { type = add_job; job = j }) e.scheduler.store)
    | none ↦ submitted queue j e (st.add j e.scheduler.store)
  ]

  unfoldable pub submit_job :
      Option (Propose S) → String → ℤ → Engine S → Engine S × Job × Option StoreError
  unfolding submit
  submit_job raft kind priority e =
      submit raft (enqueue_priority st) (new_job (suc e.next_job_id) kind priority) (with_next_id e)

  unfoldable pub submit_job_at :
      Option (Propose S) → String → ℤ → ℕ → Engine S → Engine S × Job × Option StoreError
  unfolding submit
  submit_job_at raft kind priority run_at e =
      let j = record (new_job (suc e.next_job_id) kind priority) {
        status = scheduled;
        next_run_at = run_at;
      } in
      submit raft (enqueue_delay st) j (with_next_id e)

  -- The flag tells whether the key was seen before.
  unfoldable pub submit_job_idempotent :
      Option (Propose S)
      → String
      → String
      → ℤ
      → Engine S
      → Engine S × Job × Bool × Option StoreError
  unfolding submit_job submit
  submit_job_idempotent raft key kind priority e =
      ite (String-discrete key "")
        (let (e', j, err) = submit_job raft kind priority e in (e', j, false, err))
        (elim (st.find_by_idempotency_key key e.scheduler.store) [
          | some existing ↦ (e, existing, true, none)
          | none ↦
              let fresh = new_job (suc e.next_job_id) kind priority in
              let (e', j, err) =
                submit raft (enqueue_priority st) (record fresh { idempotency_key = key })
                  (with_next_id e) in
              (e', j, false, err)
        ])

  unfoldable pub jobs : Engine S → List Job
  jobs e = st.list e.scheduler.store

  unfoldable pub job : ℕ → Engine S → Option Job
  job id e = st.get id e.scheduler.store

  abbrev with_store : Engine S → S → Engine S
  with_store e store = record e { scheduler = record e.scheduler { store = store } }

  -- In the Raft mode the outcome of the proposal is ignored.
  unfoldable pub delete_job_by_id : Option (Propose S) → ℕ → Engine S → Engine S × Bool
  delete_job_by_id raft id e = elim raft [
    | some propose ↦ (
      with_store e
          (propose (record zero_command { type = delete_job; id = id }) e.scheduler.store).0,
      true,
    )
    | none ↦ let (store, ok, err) = st.delete id e.scheduler.store in (with_store e store, ok)
  ]

  unfoldable pub cancel_in_store : Option (Propose S) → ℕ → S → S × Option StoreError
  cancel_in_store raft id s = elim raft [
    | some propose ↦ propose (record zero_command { type = cancel_job; id = id }) s
    | none ↦ st.cancel id s
  ]

  unfoldable pub cancel_job_by_id : Option (Propose S) → ℕ → Engine S → Engine S × Option StoreError
  unfolding cancel_in_store
  cancel_job_by_id raft id e =
      let (store, err) = cancel_in_store raft id e.scheduler.store in (with_store e store, err)

  -- The store's dead jobs, or those in memory when it has none or fails.
  unfoldable pub dead_jobs : Engine S → List Job
  dead_jobs e = elim (st.list_dlq e.scheduler.store).1 [
    | some err ↦ Dlq.list e.scheduler.dlq
    | none ↦ elim (st.list_dlq e.scheduler.store).0 [
      | [] ↦ Dlq.list e.scheduler.dlq
      | j ∷ js ↦ j ∷ js
    ]
  ]
