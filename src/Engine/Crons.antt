-- ===== src/Engine/Crons.antt =====
-- The calls of internal/engine/engine.go on recurring jobs.
use job_manager_quorum.Common.{
  ℕ, ◌≡◌, refl, inl, String, String-key, ℤ, Option, none, some, List, [], ◌∷◌, insert, In,
}
use job_manager_quorum.Cron
use job_manager_quorum.Cron.{Location, CronJob, CronJobs, AddError, next_run}
use job_manager_quorum.Store.{Store, StoreError}
use job_manager_quorum.Store.Memory.{MemoryStore, memory_store, list_crons, add_cron}
use job_manager_quorum.Consensus.{add_cron_job, delete_cron_job, zero_command}
use job_manager_quorum.Engine.{Engine, Propose, with_store, submit_job}

pub data CronError : Type 0 where
  store_error : StoreError → CronError
  add_error : AddError → CronError

abbrev as_store_error : Option StoreError → Option CronError
as_store_error none = none
as_store_error (some e) = some (store_error e)

abbrev as_add_error : Option AddError → Option CronError
as_add_error none = none
as_add_error (some e) = some (add_error e)

abbrev pub cron_job : String → String → String → ℤ → CronJob
cron_job id schedule kind priority = record {
  id = id;
  schedule = schedule;
  kind = kind;
  priority = priority;
  next_run = 0;
}

module _ {S : Type 0} (st : Store S) where
  -- What follows AddCron of the store: the job goes to the cron scheduler.
  unfoldable pub stored_cron :
      Location → ℕ → CronJob → Engine S → S × Option StoreError → Engine S × Option CronError
  stored_cron location now c e (store, some err) = (with_store st e store, some (store_error err))
  stored_cron location now c e (store, none) =
      let (jobs, err) = Cron.add location now c e.cron_jobs in
      (record (with_store st e store) { cron_jobs = jobs }, as_add_error err)

  unfoldable pub add_cron_job_to :
      Option (Propose S) → Location → ℕ → CronJob → Engine S → Engine S × Option CronError
  unfolding stored_cron
  add_cron_job_to raft location now c e = elim raft [
    | some propose ↦
        let (store, err) =
          propose (record zero_command { type = add_cron_job; cron = c }) e.scheduler.store in
        (with_store st e store, as_store_error err)
    | none ↦ stored_cron location now c e (st.add_cron c e.scheduler.store)
  ]

  unfoldable pub remove_cron_job : Option (Propose S) → String → Engine S → Engine S
  remove_cron_job raft id e = elim raft [
    | some propose ↦
        with_store st e
          (propose (record zero_command { type = delete_cron_job; cron_id = id })
            e.scheduler.store).0
    | none ↦ record (with_store st e (st.delete_cron id e.scheduler.store).0) {
      cron_jobs = Cron.remove id e.cron_jobs;
    }
  ]

  -- The store's recurring jobs, or those in memory when it has none or fails.
  unfoldable pub list_cron_jobs : Engine S → List CronJob
  list_cron_jobs e = elim (st.list_crons e.scheduler.store).1 [
    | some err ↦ Cron.list e.cron_jobs
    | none ↦ elim (st.list_crons e.scheduler.store).0 [
      | [] ↦ Cron.list e.cron_jobs
      | c ∷ cs ↦ c ∷ cs
    ]
  ]

  -- The callback that the engine gives to the cron scheduler.
  unfoldable pub submit_cron :
      Option (Propose S) → String → ℤ → Engine S → Engine S × Option StoreError
  unfolding submit_job
  submit_cron raft kind priority e =
      let (e', j, err) = submit_job st raft kind priority e in (e', err)

-- In the standalone mode over the in-memory store, AddCronJob of a job that the cron scheduler
-- rejects returns its error and starts no recurring job, but the job stays in the store and
-- ListCronJobs lists it.
pub rejected_cron_stored :
    (location : Location) (now : ℕ) (c : CronJob) (err : AddError) (e : Engine MemoryStore)
    → Cron.add location now c e.cron_jobs ≡ (e.cron_jobs, some err)
    → let (e', failure) = add_cron_job_to memory_store none location now c e in
      (failure ≡ some (add_error err))
      × (e'.cron_jobs ≡ e.cron_jobs)
      × In c (list_cron_jobs memory_store e')
unfolding add_cron_job_to stored_cron add_cron list_crons list_cron_jobs insert
rejected_cron_stored location now c err e rejected = rw rejected (refl, refl, inl refl)
