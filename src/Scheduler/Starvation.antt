-- ===== src/Scheduler/Starvation.antt =====
-- The inner loop of dispatchLoop (internal/scheduler/scheduler.go) when the first job of the queue
-- has a type that no available worker handles.
use mathlib.Core.List.{Mem, mem-cons, mem-cons_self, not-mem-nil}
use mathlib.Core.List.Perm
use mathlib.Core.Logic.Or
use mathlib.Core.Bool.{Bool-set}
use job_manager_quorum.Common.{
  ℕ, suc, ◌≤◌, ◌<◌, ◌≡◌, ◌≢◌, ◌∙◌, refl, subst, Bool, true, false, Option, none, some, List, [],
  ◌∷◌, ◌++◌, Perm, ℕ_discrete, length, All, arith, String,
}
use job_manager_quorum.Common.Arrays.{at}
use job_manager_quorum.Job.{Job, is_terminal}
use job_manager_quorum.Store.{Store}
use job_manager_quorum.Queue.{JobQueue, priority_comparator, enqueue, dequeue}
use job_manager_quorum.Queue.Comparators.{priority_comparator-IsWeakOrder}
use job_manager_quorum.Queue.Laws.{
  dequeue-perm, Dequeued, dequeue-first, DequeuedFirst, IsOrdered, enqueue-IsOrdered, enqueue-perm,
}
use job_manager_quorum.Broker.{Broker, can_handle}
use job_manager_quorum.Broker.Select.{Selected, select_worker-Selected}
use job_manager_quorum.Scheduler.{
  Scheduler, available_cap, choose_worker, enqueue_priority, dispatch, Round, continue,
  dispatch_round,
}

All-middle : (P : ℕ → Type 0) (before after : List ℕ) (w : ℕ) → All P (before ++ w ∷ after) → P w
All-middle P [] after w h = h.0
All-middle P (x ∷ before) after w h = All-middle P before after w h.1

Mem-at :
    (cmp : ℕ → ℕ → Bool) (id x : ℕ) (items : List ℕ)
    → ((i : ℕ) → i < length items → cmp (at items i) id ≡ false)
    → Mem x items
    → cmp x id ≡ false
unfolding at
Mem-at cmp id x [] h m = absurd (not-mem-nil m)
Mem-at cmp id x (y ∷ items) h m =
    Or.elim (Bool-set _ _) (mem-cons.0 m) (λ e. rw e (h 0 (omega arith)))
      (Mem-at cmp id x items (λ i p. h (suc i) (omega arith)))

select_none :
    (b : Broker) (kind : String) (available : List ℕ) (r : Option ℕ × List ℕ)
    → All (λ w. can_handle b w kind ≡ false) available
    → Selected b kind available_cap available r
    → r ≡ (none, available)
select_none b kind available (none, left) h (same, rest) = rw same
select_none b kind available (some w, left) h (before, after, e, f, capable, rest) =
    let not_capable : can_handle b w kind ≡ false =
      All-middle (λ v. can_handle b v kind ≡ false) before after w
        (subst (All (λ v. can_handle b v kind ≡ false)) e h) in
    cc (not_capable, capable)

module _ {S : Type 0} (st : Store S) where
  -- The job `j` has the highest priority in the queue, alone, and no available worker takes it.
  pub record IsBlocked (j : Job) (b : Broker) (s : Scheduler S) : Type 0 where
    pub routed : s.broker ≡ some b
    pub refused : All (λ w. can_handle b w j.kind ≡ false) s.available
    pub bounded : length s.available ≤ available_cap
    pub stored : st.get j.id s.store ≡ some j
    pub live : is_terminal j.status ≡ false
    pub ordered :
        IsOrdered
          (priority_comparator st s.store)
          (priority_comparator-IsWeakOrder st s.store)
          s.priority_queue
    pub queued : Mem j.id s.priority_queue.items
    pub first :
        (x : ℕ)
        → Mem x s.priority_queue.items
        → x ≢ j.id
        → priority_comparator st s.store j.id x ≡ true

  module _ (j : Job) (b : Broker) (submit_ok : ℕ → Job → Bool) (now : ℕ) where
    abbrev cmp : Scheduler S → ℕ → ℕ → Bool
    cmp s = priority_comparator st s.store

    -- The scheduler with its first job taken off the queue and put back.
    requeued : JobQueue → Scheduler S → Scheduler S
    requeued q s = record s { priority_queue = enqueue (cmp s) j.id q }

    blocked-dispatch :
        (s : Scheduler S) (q : JobQueue)
        → IsBlocked j b s
        → dispatch st false submit_ok now j (record s { priority_queue = q })
          ≡ (requeued q s, false)
    unfolding dispatch choose_worker enqueue_priority requeued
    blocked-dispatch s q k =
        let nobody =
          select_none b j.kind s.available _ k.refused
            (select_worker-Selected b j.kind available_cap s.available k.bounded) in
        ground (arith, k.routed, nobody)

    first_is_job :
        (s : Scheduler S) (x : ℕ) (q : JobQueue)
        → IsBlocked j b s
        → Dequeued (cmp s) s.priority_queue (some (x, q))
        → DequeuedFirst
            (cmp s)
            (priority_comparator-IsWeakOrder st s.store)
            s.priority_queue
            (some (x, q))
        → x ≡ j.id
    first_is_job s x q k (same, front, token) (rest, least) = elim (ℕ_discrete x j.id) [
      | yes e ↦ e
      | no n ↦
          let before = k.first x ((Perm.mem_iff same).0 mem-cons_self) n in
          let after = Mem-at (cmp s) x j.id s.priority_queue.items least k.queued in
          absurd (cc (before, after))
    ]

    requeued-IsBlocked :
        (s : Scheduler S) (x : ℕ) (q : JobQueue)
        → IsBlocked j b s
        → x ≡ j.id
        → Dequeued (cmp s) s.priority_queue (some (x, q))
        → IsOrdered (cmp s) (priority_comparator-IsWeakOrder st s.store) q
        → IsBlocked j b (requeued q s)
    unfolding requeued
    requeued-IsBlocked s x q k e (same, front, token) rest =
        let back = (enqueue-perm (cmp s) j.id q).0 in
        let all : Perm (enqueue (cmp s) j.id q).items s.priority_queue.items =
          Perm.trans back (subst (λ y. Perm (y ∷ q.items) s.priority_queue.items) e same) in
        record {
          routed = k.routed;
          refused = k.refused;
          bounded = k.bounded;
          stored = k.stored;
          live = k.live;
          ordered =
              enqueue-IsOrdered (cmp s) (priority_comparator-IsWeakOrder st s.store) j.id q rest;
          queued = (Perm.mem_iff all).1 k.queued;
          first = λ y m n. k.first y ((Perm.mem_iff all).0 m) n;
        }

    -- What one round does to a blocked scheduler: the queue is rearranged, and nothing else happens.
    abbrev pub Spins : Scheduler S → Scheduler S × Round → Type 0
    Spins s (s', r) =
        (r ≡ continue)
        × (s'.leases ≡ s.leases)
        × (s'.available ≡ s.available)
        × (s'.store ≡ s.store)
        × IsBlocked j b s'

    blocked_round_of :
        (s : Scheduler S) (r : Option (ℕ × JobQueue))
        → IsBlocked j b s
        → dequeue (cmp s) s.priority_queue ≡ r
        → Dequeued (cmp s) s.priority_queue r
        → DequeuedFirst (cmp s) (priority_comparator-IsWeakOrder st s.store) s.priority_queue r
        → Spins s (dispatch_round st false submit_ok now s)
    unfolding dispatch_round requeued
    blocked_round_of s none k e empty first = absurd (not-mem-nil (subst (Mem j.id) empty k.queued))
    blocked_round_of s (some (x, q)) k e took first =
        let same = first_is_job s x q k took first in
        rw (e, dispatch_round, same, k.stored, k.live, blocked-dispatch s q k)
          (refl, refl, refl, refl, requeued-IsBlocked s x q k same took first.0)

    pub blocked_round :
        (s : Scheduler S) → IsBlocked j b s → Spins s (dispatch_round st false submit_ok now s)
    blocked_round s k =
        blocked_round_of s (dequeue (cmp s) s.priority_queue) k refl
          (dequeue-perm (cmp s) s.priority_queue)
          (dequeue-first (cmp s) (priority_comparator-IsWeakOrder st s.store) s.priority_queue
            k.ordered)

  -- Rounds of the inner loop, until it ends; each with its own outcomes of Submit and its own clock.
  unfoldable pub dispatch_rounds : List ((ℕ → Job → Bool) × ℕ) → Scheduler S → Scheduler S × Round
  dispatch_rounds [] s = (s, continue)
  dispatch_rounds ((submit_ok, now) ∷ inputs) s =
      let (s', r) = dispatch_round st false submit_ok now s in
      let rest = dispatch_rounds inputs s' in elim r [ continue ↦ rest | ended ↦ (s', ended) ]

  -- While the job that stands alone at the top of the priority order has a type that no available
  -- worker handles, the inner loop never ends: however many rounds it makes, it goes on, grants no
  -- lease and takes no worker out of the channel.
  pub blocked_forever :
      (j : Job) (b : Broker) (inputs : List ((ℕ → Job → Bool) × ℕ)) (s : Scheduler S)
      → IsBlocked j b s
      → let (s', r) = dispatch_rounds inputs s in
        (r ≡ continue) × (s'.leases ≡ s.leases) × (s'.available ≡ s.available)
  unfolding dispatch_rounds
  blocked_forever j b [] s k = (refl, refl, refl)
  blocked_forever j b ((submit_ok, now) ∷ inputs) s k =
      let (goes_on, leases, available, store, still) = blocked_round j b submit_ok now s k in
      let (end, leases', available') =
        blocked_forever j b inputs (dispatch_round st false submit_ok now s).0 still in
      rw (goes_on, dispatch_rounds) (end, leases' ∙ leases, available' ∙ available)
