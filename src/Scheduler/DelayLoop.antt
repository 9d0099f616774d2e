-- ===== src/Scheduler/DelayLoop.antt =====
-- delayLoop of internal/scheduler/scheduler.go: one turn of its loop, up to where it waits.
use job_manager_quorum.Common.{
  ℕ, ◌+◌, ◌-◌, ◌≤◌, ◌<◌, ◌≡◌, refl, ap, subst, Bool, false, Option, none, some, List, [], ◌∷◌,
  length, leb, Option-cases, Bool-cases, inl, inr, arith, if◌then◌else◌,
}
use job_manager_quorum.Common.Arrays.{at}
use job_manager_quorum.Job.{Job}
use job_manager_quorum.Store.{Store}
use job_manager_quorum.Queue.{JobQueue, job_or_zero, delay_comparator, dequeue, peek}
use job_manager_quorum.Queue.Laws.{Dequeued, DequeuedFirst, IsOrdered, dequeue-first, dequeue-perm}
use job_manager_quorum.Queue.Comparators.{delay_comparator-IsWeakOrder}
use job_manager_quorum.Scheduler.{Scheduler}
use job_manager_quorum.Scheduler.Rounds.{drop_delayed, process_delayed_jobs}

-- What a turn comes to: a wait for the queue's wake-up, a wait on a timer that the wake-up ends too,
-- or the next turn.
pub data Turn (S : Type 0) : Type 0 where
  until_woken : Turn S
  until_timer : ℕ → Turn S
  next_turn : Scheduler S → Turn S

-- ProcessDelayedJobs always ends (Delay), so the first case is never reached.
abbrev processed : {S : Type 0} → Scheduler S → Option (Scheduler S) → Scheduler S
processed s none = s
processed s (some s') = s'

module _ {S : Type 0} (st : Store S) where
  unfoldable pub delay_turn : ℕ → Scheduler S → Turn S
  unfolding drop_delayed process_delayed_jobs
  delay_turn now s = elim (peek s.delay_queue) [
    | none ↦ until_woken
    | some id ↦ elim (st.get id s.store) [
      | none ↦ next_turn (drop_delayed st s)
      | some j ↦
          if leb j.next_run_at now
          then next_turn (processed s (process_delayed_jobs st now s))
          else until_timer (j.next_run_at - now)
    ]
  ]

  -- No queued job is due before the wait is over.
  abbrev pub Sleeps : ℕ → Scheduler S → Turn S → Type 0
  Sleeps now s until_woken = s.delay_queue.items ≡ []
  Sleeps now s (until_timer wait) =
      (i : ℕ)
      → i < length s.delay_queue.items
      → now + wait ≤ (job_or_zero (st.get (at s.delay_queue.items i) s.store)).next_run_at
  Sleeps now s (next_turn s') = Unit

  module _ (s : S) where
    abbrev cmp : ℕ → ℕ → Bool
    cmp = delay_comparator st s

    first_of_dequeue :
        (q : JobQueue) (id : ℕ) (r : Option (ℕ × JobQueue))
        → Dequeued cmp q r
        → DequeuedFirst cmp (delay_comparator-IsWeakOrder st s) q r
        → peek q ≡ some id
        → (i : ℕ) → i < length q.items
        → cmp (at q.items i) id ≡ false
    first_of_dequeue q id none empty first e i h = absurd (omega (arith, ap length empty))
    first_of_dequeue q id (some (x, q')) (same, front, token) (ordered, first) e i h =
        let here : x ≡ id = cc in subst (λ y. cmp (at q.items i) y ≡ false) here (first i h)

    first_of_peek :
        (q : JobQueue) (id : ℕ)
        → IsOrdered cmp (delay_comparator-IsWeakOrder st s) q
        → peek q ≡ some id
        → (i : ℕ) → i < length q.items
        → cmp (at q.items i) id ≡ false
    first_of_peek q id ordered =
        first_of_dequeue q id (dequeue cmp q) (dequeue-perm cmp q)
          (dequeue-first cmp (delay_comparator-IsWeakOrder st s) q ordered)

  empty_of_peek :
      (items : List ℕ) (notify : Bool)
      → peek (record { items = items; notify = notify }) ≡ none
      → items ≡ []
  unfolding peek
  empty_of_peek [] notify e = refl
  empty_of_peek (x ∷ xs) notify e = cc

  not_before :
      (now x id : ℕ) (j : Job) (s : S)
      → st.get id s ≡ some j
      → leb j.next_run_at now ≡ false
      → delay_comparator st s x id ≡ false
      → now + (j.next_run_at - now) ≤ (job_or_zero (st.get x s)).next_run_at
  unfolding delay_comparator
  not_before now x id j s found later first = ground (arith, found, later, first)

  -- While the delay queue is ordered: delayLoop waits for a wake-up only when the queue is empty, and
  -- on a timer only when no queued job is due before the timer ends.
  pub delay_turn-Sleeps :
      (now : ℕ) (s : Scheduler S)
      → IsOrdered
          (delay_comparator st s.store)
          (delay_comparator-IsWeakOrder st s.store)
          s.delay_queue
      → Sleeps now s (delay_turn now s)
  unfolding delay_turn peek
  delay_turn-Sleeps now s ordered = elim (Option-cases (peek s.delay_queue)) [
    | inl e ↦ rw (e, delay_turn) (empty_of_peek s.delay_queue.items s.delay_queue.notify e)
    | inr (id, e) ↦ elim (Option-cases (st.get id s.store)) [
      | inl gone ↦ rw (e, delay_turn, gone) tt
      | inr (j, found) ↦ elim (Bool-cases (leb j.next_run_at now)) [
        | inl due ↦ rw (e, delay_turn, found, due) tt
        | inr later ↦
            rw (e, delay_turn, found, later)
              (λ i h.
                not_before now (at s.delay_queue.items i) id j s.store found later
                  (first_of_peek s.store s.delay_queue id ordered e i h))
      ]
    ]
  ]
