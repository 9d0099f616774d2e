-- ===== src/Consensus.antt =====
-- internal/consensus/fsm.go: the state machine that applies the committed log to the job store.
-- encoding/json is a parameter: what decoding some bytes gives, or none for its error.
pub mod Replay
pub mod Snapshot
pub mod Raft
pub mod Node
mod Tests
use job_manager_quorum.Common.{
  ◌&&◌, ℕ, pos, String, Bool, Option, none, some, List, [], ◌∷◌, if◌then◌else◌,
}
use job_manager_quorum.Job.{Job, zero_job}
use job_manager_quorum.Cron.{CronJob}
use job_manager_quorum.Store.{Store, StoreError}

-- A Go string; `unknown` stands for every other text.
pub data CommandType : Type 0 where
  add_job : CommandType
  update_job : CommandType
  delete_job : CommandType
  cancel_job : CommandType
  add_cron_job : CommandType
  delete_cron_job : CommandType
  unknown : String → CommandType

pub record Command : Type 0 where
  pub type : CommandType
  pub job : Job
  pub id : ℕ
  pub cron : CronJob
  pub cron_id : String

abbrev pub zero_command : Command
zero_command = record {
  type = unknown "";
  job = zero_job;
  id = 0;
  cron = record { id = ""; schedule = ""; kind = ""; priority = pos 0; next_run = 0 };
  cron_id = "";
}

pub data ApplyError : Type 0 where
  unmarshal_error : ApplyError
  decode_error : ApplyError
  store_error : StoreError → ApplyError

abbrev pub as_apply_error : Option StoreError → Option ApplyError
as_apply_error none = none
as_apply_error (some e) = some (store_error e)

module _ {S : Type 0} (st : Store S) where
  -- The switch of Apply. The state `S` is that of the FSM's store; an unknown type is only logged.
  unfoldable pub apply_command : Command → S → S × Option StoreError
  apply_command c s = elim c.type [
    | add_job ↦ st.add c.job s
    | update_job ↦ st.update c.job s
    | delete_job ↦ ((st.delete c.id s).0, (st.delete c.id s).2)
    | cancel_job ↦ st.cancel c.id s
    | add_cron_job ↦ st.add_cron c.cron s
    | delete_cron_job ↦ ((st.delete_cron c.cron_id s).0, (st.delete_cron c.cron_id s).2)
    | unknown _ ↦ (s, none)
  ]

  -- The loop over a decoded snapshot, which ignores the errors of Add.
  unfoldable pub restore_jobs : List Job → S → S
  restore_jobs [] s = s
  restore_jobs (j ∷ js) s = restore_jobs js (st.add j s).0

  unfoldable pub snapshot : S → List Job
  snapshot s = st.list s

  module _ {D : Type 0} where
    unfoldable pub apply : (D → Option Command) → D → S → S × Option ApplyError
    unfolding apply_command
    apply unmarshal bytes s = elim (unmarshal bytes) [
      | none ↦ (s, some unmarshal_error)
      | some c ↦ let (s', e) = apply_command c s in (s', as_apply_error e)
    ]

    unfoldable pub restore : (D → Option (List Job)) → D → S → S × Option ApplyError
    unfolding restore_jobs
    restore decode bytes s = elim (decode bytes) [
      | none ↦ (s, some decode_error)
      | some js ↦ (restore_jobs js s, none)
    ]

-- What Persist leaves in the sink, or none when it cancels the sink; `write_ok` is the outcome of
-- the sink's Write.
-- The bytes that the sink keeps; none where Persist returns an error, that of Close included.
unfoldable pub persist :
    {D : Type 0} → (List Job → Option D) → (D → Bool) → Bool → List Job → Option D
persist marshal write_ok close_ok jobs = elim (marshal jobs) [
  | none ↦ none
  | some bytes ↦ if write_ok bytes && close_ok then some bytes else none
]
