-- ===== src/Scheduler/Kept.antt =====
-- The inner loop of dispatchLoop (internal/scheduler/scheduler.go) loses no job that may still run.
use mathlib.Core.List.{Mem, mem-cons, mem-cons_self, mem-cons_of_mem, not-mem-nil}
use mathlib.Core.List.Perm
use mathlib.Core.Logic.Or
use mathlib.Core.Logic.{∥∥₁_prop}
use job_manager_quorum.Common.{
  ℕ, ◌≡◌, ◌≢◌, ◌⊎◌, inl, inr, refl, sym, ◌∙◌, subst, Bool, true, false, not, Option, none, some,
  List, ◌∷◌, ℕ_discrete, Option-cases, Bool-cases, arith, is_some,
}
use job_manager_quorum.Job.{Job, is_terminal}
use job_manager_quorum.Job.Lease
use job_manager_quorum.Store.{Store, ContractWithin}
use job_manager_quorum.Queue.{JobQueue, priority_comparator, dequeue}
use job_manager_quorum.Queue.Laws.{dequeue-perm, Dequeued}
use job_manager_quorum.Scheduler.{Scheduler, dispatch, dispatch_round}
use job_manager_quorum.Scheduler.Dispatch.{Dispatched, dispatch-Dispatched}

-- A stored job that is in no final status.
abbrev pub is_live : Option Job → Bool
is_live none = false
is_live (some j) = not (is_terminal j.status)

module _ {S : Type 0} where
  -- The id is queued, or its job is leased to a worker.
  abbrev pub IsTracked : ℕ → Scheduler S → Type 0
  IsTracked id s = Mem id s.priority_queue.items ⊎ (is_some (Lease.get s.leases id) ≡ true)

mem_tail : (id x : ℕ) (xs : List ℕ) → Mem id (x ∷ xs) → id ≢ x → Mem id xs
mem_tail id x xs m h = Or.elim ∥∥₁_prop (mem-cons.0 m) (λ e. absurd (h e)) (λ k. k)

module _ {S : Type 0} (st : Store S) (submit_ok : ℕ → Job → Bool) (now : ℕ) where
  IsTracked-of_Dispatched :
      (j : Job) (id : ℕ) (s : Scheduler S) (r : Scheduler S × Bool)
      → Dispatched st submit_ok now j s r
      → Mem id s.priority_queue.items ⊎ (j.id ≡ id)
      → IsTracked id r.0
  IsTracked-of_Dispatched j id s (s', true) (w, accepted, leased, queue, store) (inl m) =
      inl (subst (λ q. Mem id q.items) (sym queue) m)
  IsTracked-of_Dispatched j id s (s', true) (w, accepted, leased, queue, store) (inr e) =
      inr (rw (← e, leased) refl)
  IsTracked-of_Dispatched j id s (s', false) (same, store) (inl m) =
      inl ((Perm.mem_iff same).1 (mem-cons_of_mem j.id m))
  IsTracked-of_Dispatched j id s (s', false) (same, store) (inr e) =
      inl ((Perm.mem_iff same).1 (rw e mem-cons_self))

  module _ {Fits : Job → Type 0} {IsConsistent : S → Type 0}
      (c : ContractWithin st Fits IsConsistent) where
    after_dequeue-IsTracked :
        (s : Scheduler S) (id : ℕ) (r : Option (ℕ × JobQueue))
        → IsConsistent s.store
        → dequeue (priority_comparator st s.store) s.priority_queue ≡ r
        → Dequeued (priority_comparator st s.store) s.priority_queue r
        → Mem id s.priority_queue.items
        → is_live (st.get id s.store) ≡ true
        → IsTracked id (dispatch_round st false submit_ok now s).0
    unfolding dispatch_round
    after_dequeue-IsTracked s id none v e empty m live =
        absurd (not-mem-nil (subst (Mem id) empty m))
    after_dequeue-IsTracked s id (some (x, q)) v e (same, front, token) m live =
        let s' = record s { priority_queue = q } in
        let split : Mem id q.items ⊎ (id ≡ x) = elim (ℕ_discrete id x) [
          | yes p ↦ inr p
          | no p ↦ inl (mem_tail id x q.items ((Perm.mem_iff same).1 m) p)
        ] in
        elim (Option-cases (st.get x s.store)) [
          | inl gone ↦
              rw (e, dispatch_round, gone)
                (elim split [ inl k ↦ inl k | inr p ↦ absurd (ground arith) ])
          | inr (j, found) ↦ elim (Bool-cases (is_terminal j.status)) [
            | inl final ↦
                rw (e, dispatch_round, found, final)
                  (elim split [ inl k ↦ inl k | inr p ↦ absurd (ground arith) ])
            | inr open_job ↦
                rw (e, dispatch_round, found, open_job)
                  (IsTracked-of_Dispatched j id s' (dispatch st false submit_ok now j s')
                    (dispatch-Dispatched st submit_ok now j s')
                    (elim split [
                      | inl k ↦ inl k
                      | inr p ↦ inr (c.get-id s.store x j v found ∙ sym p)
                    ]))
          ]
        ]

    -- In a round of the loop with a live context, every queued job of the store that is in no final
    -- status stays queued or is leased afterwards.
    pub dispatch_round-IsTracked :
        (s : Scheduler S) (id : ℕ)
        → IsConsistent s.store
        → Mem id s.priority_queue.items
        → is_live (st.get id s.store) ≡ true
        → IsTracked id (dispatch_round st false submit_ok now s).0
    dispatch_round-IsTracked s id v m live =
        let cmp = priority_comparator st s.store in
        after_dequeue-IsTracked s id (dequeue cmp s.priority_queue) v refl
          (dequeue-perm cmp s.priority_queue) m live
