-- ===== src/Consensus/Raft.antt =====
-- internal/consensus/raft.go: proposals to the cluster. hashicorp/raft is a parameter: what its Apply
-- does to this node's store, the error of its future and the response of the state machine.
use job_manager_quorum.Common.{ℕ, String, ◌≡◌, refl, Bool, true, Option, none, some, if◌then◌else◌}
use job_manager_quorum.Job.{Job}
use job_manager_quorum.Cron.{CronJob}
use job_manager_quorum.Store.{Store, StoreError}
use job_manager_quorum.Consensus.{
  Command, add_job, update_job, delete_job, cancel_job, add_cron_job, delete_cron_job, zero_command,
  ApplyError, store_error, as_apply_error, apply, apply_command,
}

pub data ProposeError (E : Type 0) : Type 0 where
  not_leader : ProposeError E
  marshal_failed : ProposeError E
  raft_failed : E → ProposeError E
  response : ApplyError → ProposeError E

-- The store after the library's Apply, the future's error and its response.
abbrev pub RaftApply : Type 0 → Type 0 → Type 0 → Type 0
RaftApply S D E = D → S → S × Option E × Option ApplyError

abbrev pub as_response : {E : Type 0} → Option StoreError → Option (ProposeError E)
as_response none = none
as_response (some e) = some (response (store_error e))

module _ {S E : Type 0} where
  abbrev pub answered : S × Option E × Option ApplyError → S × Option (ProposeError E)
  answered (s, some e, r) = (s, some (raft_failed e))
  answered (s, none, some r) = (s, some (response r))
  answered (s, none, none) = (s, none)

  unfoldable pub propose :
      {D : Type 0}
      → Bool
      → (Command → Option D)
      → RaftApply S D E
      → Command
      → S
      → S × Option (ProposeError E)
  propose is_leader marshal raft_apply c s =
      let sent = elim (marshal c) as (λ o. S × Option (ProposeError E)) [
        | none ↦ (s, some marshal_failed)
        | some bytes ↦ answered (raft_apply bytes s)
      ] in
      if is_leader then sent else (s, some not_leader)

  -- The six calls, over Propose of the node.
  module _ (run : Command → S → S × Option (ProposeError E)) where
    unfoldable pub propose_add_job : Job → S → S × Option (ProposeError E)
    propose_add_job j = run (record zero_command { type = add_job; job = j })

    unfoldable pub propose_update_job : Job → S → S × Option (ProposeError E)
    propose_update_job j = run (record zero_command { type = update_job; job = j })

    unfoldable pub propose_delete_job : ℕ → S → S × Option (ProposeError E)
    propose_delete_job id = run (record zero_command { type = delete_job; id = id })

    unfoldable pub propose_cancel_job : ℕ → S → S × Option (ProposeError E)
    propose_cancel_job id = run (record zero_command { type = cancel_job; id = id })

    unfoldable pub propose_add_cron : CronJob → S → S × Option (ProposeError E)
    propose_add_cron c = run (record zero_command { type = add_cron_job; cron = c })

    unfoldable pub propose_delete_cron : String → S → S × Option (ProposeError E)
    propose_delete_cron id = run (record zero_command { type = delete_cron_job; cron_id = id })

  answered-apply :
      (r : S × Option StoreError)
      → answered (r.0, none, as_apply_error r.1) ≡ (r.0, as_response r.1)
  answered-apply (s, none) = refl
  answered-apply (s, some e) = refl

  -- On the leader, with a JSON codec that reads back what it wrote and a library that commits
  -- the entry and applies it here, with no other entry before it, a proposal does to this node's store exactly what the state machine
  -- does with the command, and returns the store's error.
  pub propose-applies :
      {D : Type 0} (st : Store S) (marshal : Command → Option D) (unmarshal : D → Option Command)
      (raft_apply : RaftApply S D E) (c : Command) (bytes : D) (s : S)
      → ((d : Command) (b : D) → marshal d ≡ some b → unmarshal b ≡ some d)
      → ((b : D) (t : S)
          → raft_apply b t ≡ ((apply st unmarshal b t).0, none, (apply st unmarshal b t).1))
      → marshal c ≡ some bytes
      → propose true marshal raft_apply c s
        ≡ ((apply_command st c s).0, as_response (apply_command st c s).1)
  unfolding propose apply
  propose-applies st marshal unmarshal raft_apply c bytes s codec commits written =
      rw (written, commits bytes s, codec c bytes written, apply)
        (answered-apply (apply_command st c s))
