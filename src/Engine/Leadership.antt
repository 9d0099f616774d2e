-- ===== src/Engine/Leadership.antt =====
-- watchLeadership of internal/engine/engine.go: what a node does with the signals of LeaderCh. The
-- loops of the schedulers run under a context each, by its number; `current` is the context that
-- `schedCancel` cancels. What the loops, the API and the results of workers do to the scheduler
-- before a signal comes is any function on it. The logging changes no state; the second of grace
-- before the queues are rebuilt belongs to the time before the signal.
use mathlib.Core.List.Perm
use job_manager_quorum.Common.{
  ℕ, suc, ◌<◌, ◌≡◌, ◌≢◌, refl, sym, ap, ◌∙◌, inl, inr, Bool, true, false, not, Option, none, some,
  List, [], ◌∷◌, ◌++◌, Perm, In, ite, ℕ_discrete, arith, is_some,
}
use job_manager_quorum.Job.{Job, pending, scheduled}
use job_manager_quorum.Job.Lease.{clear}
use job_manager_quorum.Store.{Store}
use job_manager_quorum.Scheduler.{Scheduler, rebuild_queues_from_store}
use job_manager_quorum.Scheduler.Rebuild.{ids, rebuild-Filled}

-- The signals that come, each with what is done to the scheduler before it.
abbrev pub Signals : Type 0 → Type 0
Signals S = List ((Scheduler S → Scheduler S) × Bool)

pub record Leadership (S : Type 0) : Type 0 where
  pub scheduler : Scheduler S
  pub running : List ℕ
  pub current : Option ℕ
  pub next_context : ℕ

-- The loops that go on after the cancellation of a context.
unfoldable pub without_context : ℕ → List ℕ → List ℕ
without_context c [] = []
without_context c (d ∷ running) =
    let rest = without_context c running in ite (ℕ_discrete d c) rest (d ∷ rest)

abbrev pub cancel_current : Option ℕ → List ℕ → List ℕ
cancel_current none running = running
cancel_current (some c) running = without_context c running

module _ {S : Type 0} (st : Store S) where
  -- The start of a leader: an error of the rebuild is only logged.
  unfoldable pub claim : Leadership S → Leadership S
  claim l = record {
    scheduler = (rebuild_queues_from_store st l.scheduler).0;
    running = l.next_context ∷ l.running;
    current = some l.next_context;
    next_context = suc l.next_context;
  }

  unfoldable pub step_down : Leadership S → Leadership S
  unfolding without_context
  step_down l = record l {
    scheduler = record l.scheduler { leases = clear l.scheduler.leases };
    running = cancel_current l.current l.running;
    current = none;
  }

  abbrev after_work : (Scheduler S → Scheduler S) → Leadership S → Leadership S
  after_work work l = record l { scheduler = work l.scheduler }

  unfoldable pub watch_leadership : Signals S → Leadership S → Leadership S
  unfolding claim step_down
  watch_leadership [] l = l
  watch_leadership ((work, true) ∷ signals) l = watch_leadership signals (claim (after_work work l))
  watch_leadership ((work, false) ∷ signals) l =
      watch_leadership signals (step_down (after_work work l))

abbrev pub alternating : {A : Type 0} → Bool → List A → List (A × Bool)
alternating b [] = []
alternating b (a ∷ more) = (a, b) ∷ alternating (not b) more

abbrev pub last_signal : {A : Type 0} → Bool → List (A × Bool) → Bool
last_signal b [] = b
last_signal b ((a, c) ∷ signals) = last_signal c signals

abbrev pub as_list : Option ℕ → List ℕ
as_list none = []
as_list (some c) = c ∷ []

In-without : (c d : ℕ) (running : List ℕ) → In c running → c ≢ d → In c (without_context d running)
unfolding without_context
In-without c d [] h other = h
In-without c d (x ∷ running) (inl e) other = ground (arith, e, other)
In-without c d (x ∷ running) (inr h) other = ground (arith, In-without c d running h other)

In-cancel :
    (o : Option ℕ) (c : ℕ) (running : List ℕ)
    → In c running
    → o ≢ some c
    → In c (cancel_current o running)
In-cancel none c running h other = h
In-cancel (some d) c running h other = In-without c d running h (λ e. other (ap some (sym e)))

cancel_current-all :
    (o : Option ℕ) (running : List ℕ) → running ≡ as_list o → cancel_current o running ≡ []
unfolding without_context
cancel_current-all none running e = e
cancel_current-all (some c) running e = ap (without_context c) e ∙ ground arith

module _ {S : Type 0} (st : Store S) where
  -- A loop that schedCancel does not cancel goes on, whatever signals come.
  In-watch :
      (signals : Signals S) (c : ℕ) (l : Leadership S)
      → In c l.running
      → c < l.next_context
      → l.current ≢ some c
      → In c (watch_leadership st signals l).running
  unfolding watch_leadership claim step_down
  In-watch [] c l h old other = h
  In-watch ((work, true) ∷ signals) c l h old other =
      In-watch signals c (claim st (after_work st work l)) (inr h) (omega arith)
        (λ e. ground (arith, e, old))
  In-watch ((work, false) ∷ signals) c l h old other =
      In-watch signals c (step_down st (after_work st work l))
        (In-cancel l.current c l.running h other) old (λ e. ground (arith, e))

  -- When the channel delivers two signals of a gained leadership in a row, as hashicorp/raft does
  -- where leadership was lost and regained before the receiver was ready, the schedulers that the
  -- first one started run on, whatever signals follow and whatever is done to the scheduler meanwhile.
  pub regained-leaks :
      (work work' : Scheduler S → Scheduler S) (signals : Signals S) (l : Leadership S)
      → In l.next_context (watch_leadership st ((work, true) ∷ (work', true) ∷ signals) l).running
  unfolding watch_leadership claim
  regained-leaks work work' signals l =
      In-watch signals l.next_context
        (claim st (after_work st work' (claim st (after_work st work l)))) (inr (inl refl))
        (omega arith) (λ e. ground (arith, e))

  -- While the signals alternate between gained and lost leadership, the schedulers run under the
  -- current context and no other, and there is one exactly where the last signal was a gain, whatever is
  -- done to the scheduler meanwhile.
  pub watch_leadership-one :
      (works : List (Scheduler S → Scheduler S)) (b : Bool) (l : Leadership S)
      → l.running ≡ as_list l.current
      → is_some l.current ≡ not b
      → let l' = watch_leadership st (alternating b works) l in
        (l'.running ≡ as_list l'.current)
        × (is_some l'.current ≡ last_signal (not b) (alternating b works))
  unfolding watch_leadership claim step_down
  watch_leadership-one [] b l one leads = (one, leads)
  watch_leadership-one (work ∷ works) true l one leads =
      let follows : l.current ≡ none = ground (arith, leads) in
      watch_leadership-one works false (claim st (after_work st work l))
        (ap (λ r. l.next_context ∷ r) (one ∙ ap as_list follows)) refl
  watch_leadership-one (work ∷ works) false l one leads =
      watch_leadership-one works true (step_down st (after_work st work l))
        (cancel_current-all l.current l.running one) refl

  -- From one state to the other the store stays as it is, and what is taken out of a queue is put back,
  -- as by the rounds of dispatchLoop that find no worker for a job.
  pub record PutsBack (s s' : Scheduler S) : Type 0 where
    pub store : s'.store ≡ s.store
    pub ready : Perm s'.priority_queue.items s.priority_queue.items
    pub delayed : Perm s'.delay_queue.items s.delay_queue.items

  -- One start of a leader after such work.
  claim-Filled :
      (work : Scheduler S → Scheduler S) (l : Leadership S) (ps qs : List Job)
      → PutsBack l.scheduler (work l.scheduler)
      → st.list_by_status pending l.scheduler.store ≡ (ps, none)
      → st.list_by_status scheduled l.scheduler.store ≡ (qs, none)
      → let s' = (claim st (after_work st work l)).scheduler in
        (s'.store ≡ l.scheduler.store)
        × Perm s'.priority_queue.items (ids ps ++ l.scheduler.priority_queue.items)
        × Perm s'.delay_queue.items (ids qs ++ l.scheduler.delay_queue.items)
  unfolding claim
  claim-Filled work l ps qs back listed listed' =
      let s = l.scheduler in
      let filled =
        rebuild-Filled st (work s) ps qs (ap (st.list_by_status pending) back.store ∙ listed)
          (ap (st.list_by_status scheduled) back.store ∙ listed') in
      (
        filled.store ∙ back.store,
        Perm.trans filled.ready (Perm.append (Perm.refl (ids ps)) back.ready),
        Perm.trans filled.delayed (Perm.append (Perm.refl (ids qs)) back.delayed),
      )

  -- Where the store lists its jobs without an error, and whatever is done to the scheduler before each
  -- signal leaves the store as it is and puts back into the queues what it takes out: after
  -- leadership is gained, lost and gained again, every pending and every scheduled job stands in its
  -- queue twice, on top of what was there.
  pub reclaimed-twice :
      (first second third : Scheduler S → Scheduler S) (l : Leadership S) (ps qs : List Job)
      → PutsBack l.scheduler (first l.scheduler)
      → let led = claim st (after_work st first l) in
        let idle = step_down st (after_work st second led) in
        PutsBack led.scheduler (second led.scheduler)
        → PutsBack idle.scheduler (third idle.scheduler)
        → st.list_by_status pending l.scheduler.store ≡ (ps, none)
        → st.list_by_status scheduled l.scheduler.store ≡ (qs, none)
        → let s = l.scheduler in
          let signals : Signals S = (first, true) ∷ (second, false) ∷ (third, true) ∷ [] in
          let s' = (watch_leadership st signals l).scheduler in
          Perm s'.priority_queue.items (ids ps ++ (ids ps ++ s.priority_queue.items))
          × Perm s'.delay_queue.items (ids qs ++ (ids qs ++ s.delay_queue.items))
  unfolding watch_leadership step_down
  reclaimed-twice first second third l ps qs back back' back'' listed listed' =
      let led = claim st (after_work st first l) in
      let (kept, ready, delayed) = claim-Filled first l ps qs back listed listed' in
      let idle = step_down st (after_work st second led) in
      let same = back'.store ∙ kept in
      let (kept', ready', delayed') =
        claim-Filled third idle ps qs back'' (ap (st.list_by_status pending) same ∙ listed)
          (ap (st.list_by_status scheduled) same ∙ listed') in
      (
        Perm.trans ready' (Perm.append (Perm.refl (ids ps)) (Perm.trans back'.ready ready)),
        Perm.trans delayed' (Perm.append (Perm.refl (ids qs)) (Perm.trans back'.delayed delayed)),
      )
