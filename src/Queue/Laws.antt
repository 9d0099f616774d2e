-- ===== src/Queue/Laws.antt =====
-- What the operations of internal/queue/queue.go do to the ids that are queued.

use job_manager_quorum.Common.{
  ℕ, ◌<◌, ◌≡◌, refl, sym, ap, Bool, true, false, Option, none, some, List, [], ◌∷◌, Perm, length,
  arith,
}
use job_manager_quorum.Common.Outcome.{Ends-value}
use job_manager_quorum.Common.Arrays.{at}
use job_manager_quorum.Heap.Order.{IsWeakOrder, IsHeap}
use job_manager_quorum.Heap.Total.{push_total, pop_total}
use job_manager_quorum.Heap.Push.{push-IsHeap, pop-IsHeap}
use job_manager_quorum.Queue.{JobQueue, enqueue, dequeue, peek}

module _ (cmp : ℕ → ℕ → Bool) where
  -- Enqueue adds exactly the id, and leaves a wake-up token, whatever the comparator answers.
  pub enqueue-perm :
      (id : ℕ) (q : JobQueue)
      → Perm (enqueue cmp id q).items (id ∷ q.items) × ((enqueue cmp id q).notify ≡ true)
  unfolding enqueue
  enqueue-perm id q = let (out, e, p) = Ends-value (push_total cmp q.items id) in rw e (p, refl)

  -- What Dequeue returns on a queue that is not empty.
  abbrev pub Dequeued : JobQueue → Option (ℕ × JobQueue) → Type 0
  Dequeued q none = q.items ≡ []
  Dequeued q (some (id, q')) =
      Perm (id ∷ q'.items) q.items × (peek q ≡ some id) × (q'.notify ≡ q.notify)

  dequeue-perm_of_items :
      (items : List ℕ) (notify : Bool)
      → let q : JobQueue = record { items = items; notify = notify } in Dequeued q (dequeue cmp q)
  unfolding dequeue peek at
  dequeue-perm_of_items [] notify = refl
  dequeue-perm_of_items (x ∷ items) notify =
      let (r, e, (front, same)) = Ends-value (pop_total cmp (x ∷ items) (omega arith)) in
      rw e (same, ap some (sym front), refl)

  -- Dequeue returns nothing only on an empty queue. Else it returns the id that Peek shows, and leaves
  -- exactly the other ids and the wake-up token as it was, whatever the comparator answers.
  pub dequeue-perm : (q : JobQueue) → Dequeued q (dequeue cmp q)
  dequeue-perm q = dequeue-perm_of_items q.items q.notify

module _ (cmp : ℕ → ℕ → Bool) (o : IsWeakOrder cmp) where
  -- The queue's slice is a heap under the comparator.
  abbrev pub IsOrdered : JobQueue → Type 0
  IsOrdered q = IsHeap cmp q.items (length q.items)

  -- Under a comparator that is a strict weak order, Enqueue keeps the heap order.
  pub enqueue-IsOrdered : (id : ℕ) (q : JobQueue) → IsOrdered q → IsOrdered (enqueue cmp id q)
  unfolding enqueue
  enqueue-IsOrdered id q h = let (out, e, p) = Ends-value (push-IsHeap cmp o q.items id h) in rw e p

  -- The id that Dequeue returns comes after no other queued id, and the rest stays ordered.
  abbrev pub DequeuedFirst : JobQueue → Option (ℕ × JobQueue) → Type 0
  DequeuedFirst q none = q.items ≡ []
  DequeuedFirst q (some (id, q')) =
      IsOrdered q' × ((i : ℕ) → i < length q.items → cmp (at q.items i) id ≡ false)

  first_of_items :
      (items : List ℕ) (notify : Bool)
      → let q : JobQueue = record { items = items; notify = notify } in
        IsOrdered q → DequeuedFirst q (dequeue cmp q)
  unfolding dequeue
  first_of_items [] notify h = refl
  first_of_items (x ∷ items) notify h =
      let (r, e, p) = Ends-value (pop-IsHeap cmp o (x ∷ items) (omega arith) h) in rw e p

  -- On a heap under a comparator that is a strict weak order, Dequeue returns an id that no queued id
  -- comes before, and leaves a heap.
  pub dequeue-first : (q : JobQueue) → IsOrdered q → DequeuedFirst q (dequeue cmp q)
  dequeue-first q h = first_of_items q.items q.notify h
