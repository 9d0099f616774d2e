-- ===== src/Consensus/Tests.antt =====
-- A log and a snapshot over the in-memory store.
use job_manager_quorum.Common.{
  ℕ, ◌≡◌, refl, true, Option, none, some, List, [], ◌∷◌, pos, insert, lookup, delete, ℕ_discrete,
  Distinct, ℕ-key, arith, String, false,
}
use job_manager_quorum.Consensus.Node.{opened, new_raft_node}
use job_manager_quorum.Job.{Job, pending, completed, zero_job, is_terminal}
use job_manager_quorum.Cron.{CronJob}
use job_manager_quorum.Store.Memory.{MemoryStore, memory_store, new_memory_store, add, get, list}
use job_manager_quorum.Store.Memory.Index.{IsConsistent}
use job_manager_quorum.Store.Memory.Contract.{memory_store-Contract, new_memory_store-IsConsistent}
use job_manager_quorum.Consensus.{
  Command, CommandType, update_job, cancel_job, delete_job, restore, snapshot, persist,
}
use job_manager_quorum.Consensus.Replay.{HasStatus, replay, replay-keeps_final}
use job_manager_quorum.Consensus.Snapshot.{restore-snapshot}

abbrev done_job : Job
done_job = record zero_job { id = 1; status = completed }

abbrev other_job : Job
other_job = record zero_job { id = 1; status = pending; kind = "email" }

abbrev one_done : MemoryStore
one_done = (add done_job new_memory_store).0

one_done-IsConsistent : IsConsistent one_done
unfolding get new_memory_store lookup
one_done-IsConsistent =
    (memory_store-Contract.common.add-ok done_job new_memory_store new_memory_store-IsConsistent tt
      refl).2

one_done-Distinct : Distinct one_done.jobs
unfolding add new_memory_store lookup insert delete ℕ_discrete
one_done-Distinct = (refl, tt)

abbrev no_cron : CronJob
no_cron = record { id = ""; schedule = ""; kind = ""; priority = pos 0; next_run = 0 }

abbrev command : CommandType → ℕ → Command
command t id = record { type = t; job = other_job; id = id; cron = no_cron; cron_id = "" }

abbrev log : List Command
log = command update_job 1 ∷ command cancel_job 1 ∷ command delete_job 2 ∷ []

has_done : HasStatus memory_store 1 completed one_done
unfolding get add new_memory_store lookup insert delete ℕ_discrete
has_done = (done_job, refl, refl)

final_completed : is_terminal completed ≡ true
unfolding is_terminal
final_completed = refl

replay-keeps_final_example : HasStatus memory_store 1 completed (replay memory_store log one_done)
replay-keeps_final_example =
    replay-keeps_final memory_store memory_store-Contract log one_done 1 completed
      one_done-IsConsistent has_done final_completed
      ((λ e. cc), ((λ e. cc), ((λ e. omega arith), tt)))

abbrev written : Option (List Job)
written = some (done_job ∷ [])

restore-snapshot_example :
    let (s', e) = restore memory_store some (done_job ∷ []) new_memory_store in
    (e ≡ none) × ((id : ℕ) → get id s' ≡ get id one_done)
unfolding persist snapshot list add new_memory_store lookup insert delete ℕ_discrete
restore-snapshot_example =
    restore-snapshot some some (λ bytes. true) true one_done (done_job ∷ []) (λ js d h. cc)
      one_done-IsConsistent one_done-Distinct refl

-- A node that finds no state bootstraps a cluster of itself.
bootstraps :
    new_raft_node {E = String} "node1" (record {
      mkdir = none;
      resolve = none;
      transport = none;
      snapshots = none;
      raft = none;
      state_error = none;
      has_state = false;
      local_addr = "127.0.0.1:18088";
    })
    ≡ opened (record {
      node_id = "node1";
      bootstrapped = some (record { id = "node1"; address = "127.0.0.1:18088" } ∷ []);
    })
unfolding new_raft_node
bootstraps = refl
