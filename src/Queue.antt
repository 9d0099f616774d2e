-- ===== src/Queue.antt =====
-- internal/queue: the job queue over the heap (queue.go) and its two comparators (priority.go,
-- delay.go). A call runs under the queue's mutex, so it is one step. The one-place channel `notify`
-- is a flag: a token waits in it or not. Its comparator reads the job store as it is at the call.
pub mod Laws
pub mod Single
pub mod Comparators
mod Tests
use job_manager_quorum.Common.{
  ℕ, ℤ, ltℤ, ltb, Bool, true, false, Option, none, some, List, [], ◌∷◌, length, if◌then◌else◌, ◌==◌,
}
use job_manager_quorum.Common.Outcome.{Outcome, ok, panic, out_of_fuel}
use job_manager_quorum.Job.{Job, zero_job}
use job_manager_quorum.Store.{Store}
use job_manager_quorum.Heap.{push, pop}

pub record JobQueue : Type 0 where
  pub items : List ℕ
  pub notify : Bool

-- `heap.Init` of an empty slice does nothing.
unfoldable pub new_job_queue : JobQueue
new_job_queue = record { items = []; notify = false }

-- A read of a missing job gives the zero job.
abbrev pub job_or_zero : Option Job → Job
job_or_zero none = zero_job
job_or_zero (some j) = j

module _ {S : Type 0} (st : Store S) where
  unfoldable pub priority_comparator : S → ℕ → ℕ → Bool
  priority_comparator s a_id b_id =
      let a = job_or_zero (st.get a_id s) in
      let b = job_or_zero (st.get b_id s) in ltℤ b.priority a.priority

  unfoldable pub delay_comparator : S → ℕ → ℕ → Bool
  delay_comparator s a_id b_id =
      let a = job_or_zero (st.get a_id s) in
      let b = job_or_zero (st.get b_id s) in ltb a.next_run_at b.next_run_at

-- The heap calls always end (Laws), so the last two cases are never reached.
settle {ℓ} : {A : Type ℓ} → A → Outcome A → A
settle a (ok b) = b
settle a panic = a
settle a out_of_fuel = a

module _ (cmp : ℕ → ℕ → Bool) where
  unfoldable pub enqueue : ℕ → JobQueue → JobQueue
  unfolding settle
  enqueue id q = record { items = settle q.items (push cmp q.items id); notify = true }

  unfoldable pub dequeue : JobQueue → Option (ℕ × JobQueue)
  unfolding settle
  dequeue q =
      let (id, items) = settle (0, q.items) (pop cmp q.items) in
      elim q.items [ [] ↦ none | _ ∷ _ ↦ some (id, record q { items = items }) ]

unfoldable pub peek : JobQueue → Option ℕ
peek q = elim q.items [ [] ↦ none | id ∷ rest ↦ some id ]

-- A receive from the channel that `Wait` returns: whether a token was there, and the queue after it.
unfoldable pub wait : JobQueue → Bool × JobQueue
wait q = (q.notify, record q { notify = false })
