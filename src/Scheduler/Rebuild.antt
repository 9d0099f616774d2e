-- ===== src/Scheduler/Rebuild.antt =====
-- RebuildQueuesFromStore of internal/scheduler/scheduler.go.
use mathlib.Core.List.{perm_middle}
use mathlib.Core.List.Perm
use job_manager_quorum.Common.{
  ℕ, ◌≡◌, refl, sym, ◌∙◌, ap, subst, none, List, [], ◌∷◌, ◌++◌, Perm, map,
}
use job_manager_quorum.Job.{Job, pending, scheduled}
use job_manager_quorum.Store.{Store}
use job_manager_quorum.Queue.{priority_comparator, delay_comparator}
use job_manager_quorum.Queue.Laws.{enqueue-perm}
use job_manager_quorum.Scheduler.{
  Scheduler, enqueue_priority, enqueue_delay, enqueue_all, rebuild_scheduled, rebuild_pending,
  rebuild_queues_from_store,
}

abbrev pub ids : List Job → List ℕ
ids = map (λ j. j.id)

module _ {S : Type 0} (st : Store S) where
  -- `s'` is `s` with ids added to its two queues.
  pub record Filled (ps qs : List ℕ) (s s' : Scheduler S) : Type 0 where
    pub store : s'.store ≡ s.store
    pub leases : s'.leases ≡ s.leases
    pub ready : Perm s'.priority_queue.items (ps ++ s.priority_queue.items)
    pub delayed : Perm s'.delay_queue.items (qs ++ s.delay_queue.items)

  enqueue_all-priority :
      (js : List Job) (s : Scheduler S)
      → Filled (ids js) [] s (enqueue_all st (enqueue_priority st) js s)
  unfolding enqueue_all enqueue_priority
  enqueue_all-priority [] s = record {
    store = refl;
    leases = refl;
    ready = Perm.rfl;
    delayed = Perm.rfl;
  }
  enqueue_all-priority (j ∷ js) s =
      let one = enqueue_priority st j.id s in
      let put = (enqueue-perm (priority_comparator st s.store) j.id s.priority_queue).0 in
      let rest = enqueue_all-priority js one in
      record {
        store = rest.store;
        leases = rest.leases;
        ready =
            Perm.trans rest.ready
              (Perm.trans (Perm.append (Perm.refl (ids js)) put) (perm_middle (ids js) _));
        delayed = rest.delayed;
      }

  enqueue_all-delay :
      (js : List Job) (s : Scheduler S)
      → Filled [] (ids js) s (enqueue_all st (enqueue_delay st) js s)
  unfolding enqueue_all enqueue_delay
  enqueue_all-delay [] s = record {
    store = refl;
    leases = refl;
    ready = Perm.rfl;
    delayed = Perm.rfl;
  }
  enqueue_all-delay (j ∷ js) s =
      let one = enqueue_delay st j.id s in
      let put = (enqueue-perm (delay_comparator st s.store) j.id s.delay_queue).0 in
      let rest = enqueue_all-delay js one in
      record {
        store = rest.store;
        leases = rest.leases;
        ready = rest.ready;
        delayed =
            Perm.trans rest.delayed
              (Perm.trans (Perm.append (Perm.refl (ids js)) put) (perm_middle (ids js) _));
      }

  -- Where the store lists its jobs without an error, a rebuild adds every pending id to the priority
  -- queue and every scheduled id to the delay queue, on top of what is queued already, and changes
  -- neither the store nor the leases.
  pub rebuild-Filled :
      (s : Scheduler S) (ps qs : List Job)
      → st.list_by_status pending s.store ≡ (ps, none)
      → st.list_by_status scheduled s.store ≡ (qs, none)
      → Filled (ids ps) (ids qs) s (rebuild_queues_from_store st s).0
  unfolding rebuild_queues_from_store rebuild_pending rebuild_scheduled
  rebuild-Filled s ps qs listed listed' =
      let one = enqueue_all st (enqueue_priority st) ps s in
      let first = enqueue_all-priority ps s in
      let second = enqueue_all-delay qs one in
      let start : rebuild_queues_from_store st s ≡ rebuild_pending st (ps, none) s =
        ap (λ r. rebuild_pending st r s) listed in
      let finish : rebuild_pending st (ps, none) s
          ≡ (enqueue_all st (enqueue_delay st) qs one, none) =
        ap (λ r. rebuild_scheduled st r one) listed' in
      subst (λ r. Filled (ids ps) (ids qs) s r.0) (sym (start ∙ finish))
        (record {
          store = second.store ∙ first.store;
          leases = second.leases ∙ first.leases;
          ready = Perm.trans second.ready first.ready;
          delayed = Perm.trans second.delayed (Perm.append (Perm.refl (ids qs)) first.delayed);
        })

  -- Where the store lists its jobs without an error, two rebuilds in a row queue every pending and
  -- every scheduled job twice.
  pub rebuild_twice :
      (s : Scheduler S) (ps qs : List Job)
      → st.list_by_status pending s.store ≡ (ps, none)
      → st.list_by_status scheduled s.store ≡ (qs, none)
      → let s' = (rebuild_queues_from_store st (rebuild_queues_from_store st s).0).0 in
        Perm s'.priority_queue.items (ids ps ++ (ids ps ++ s.priority_queue.items))
        × Perm s'.delay_queue.items (ids qs ++ (ids qs ++ s.delay_queue.items))
  rebuild_twice s ps qs listed listed' =
      let one = rebuild-Filled s ps qs listed listed' in
      let s1 = (rebuild_queues_from_store st s).0 in
      let two =
        rebuild-Filled s1 ps qs (ap (st.list_by_status pending) one.store ∙ listed)
          (ap (st.list_by_status scheduled) one.store ∙ listed') in
      (
        Perm.trans two.ready (Perm.append (Perm.refl (ids ps)) one.ready),
        Perm.trans two.delayed (Perm.append (Perm.refl (ids qs)) one.delayed),
      )
