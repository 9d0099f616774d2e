-- ===== src/Runner/Available.antt =====
-- The place of a local worker in the channel of available workers (internal/worker/worker.go).
use job_manager_quorum.Common.{
  ℕ, suc, ◌+◌, ◌≤◌, ◌≡◌, ◌≢◌, refl, ap, ◌∙◌, List, [], ◌∷◌, ◌++◌, true, false, ◌==◌, arith,
  if◌then◌else◌, some,
}
use job_manager_quorum.Store.{Store}
use job_manager_quorum.Job.{Job}
use job_manager_quorum.Runner.{submit, worker_busy}
use job_manager_quorum.Runner.Loop.{
  Phase, offering, offered, waiting, executing, stopped, is_receiving, System, count, Step, offer,
  arrive, accept, reject, finish, stop_offering, stop_waiting, others, Reach, here, next,
}

count-append :
    (w v : ℕ) (vs : List ℕ) → count w (vs ++ v ∷ []) ≡ count w vs + (if v == w then 1 else 0)
unfolding count
count-append w v [] = omega arith
count-append w v (u ∷ vs) = omega (arith, count-append w v vs)

-- How often a worker in this phase may stand in the channel.
unfoldable pub places : Phase → ℕ
places offering = 0
places offered = 1
places waiting = 1
places (executing _) = 0
places stopped = 1

places-le : (p : Phase) → places p ≤ 1
unfolding places
places-le offering = omega arith
places-le offered = omega arith
places-le waiting = omega arith
places-le (executing _) = omega arith
places-le stopped = omega arith

module _ {S : Type 0} (st : Store S) (w : ℕ) where
  abbrev IsOffered : System S → Type 0
  IsOffered s = count w s.available ≤ places s.phase

  Step-IsOffered : {s t : System S} → Step st w s t → IsOffered s → IsOffered t
  unfolding places
  Step-IsOffered (offer s e room) h = ground (arith, ap places e, count-append w w s.available)
  Step-IsOffered (arrive s e) h = omega (arith, ap places e)
  Step-IsOffered (accept s left j taken ok) h = omega (arith, taken, places-le s.phase)
  Step-IsOffered (reject s left j taken busy) h = omega (arith, taken)
  Step-IsOffered (finish s j err e) h = omega (arith, ap places e)
  Step-IsOffered (stop_offering s e) h = omega (arith, ap places e)
  Step-IsOffered (stop_waiting s e) h = omega (arith, ap places e)
  Step-IsOffered (others s available runner store same) h = omega (arith, same)

  abbrev pub IsNew : System S → Type 0
  IsNew s = (s.phase ≡ offering) × (count w s.available ≡ 0)

  -- A worker that starts outside the channel, and that nobody but its own loop puts into the channel
  -- (its registration or a report over rpc would), stands in it at most once ever after, and not at
  -- all while it runs a job or tries to offer itself.
  pub Reach-places :
      {s t : System S} → IsNew s → Reach st w s t → count w t.available ≤ places t.phase
  unfolding places
  Reach-places new here = omega (arith, new.1)
  Reach-places new (next r step) = Step-IsOffered step (Reach-places new r)

  -- Out of the channel, and not on the way back to it.
  abbrev IsLost : System S → Type 0
  IsLost s = (count w s.available ≡ 0) × (places s.phase ≡ 1)

  Step-IsLost : {s t : System S} → Step st w s t → IsLost s → IsLost t
  unfolding places
  Step-IsLost (offer s e room) h = absurd (omega (arith, ap places e, h.1))
  Step-IsLost (arrive s e) h = (h.0, refl)
  Step-IsLost (accept s left j taken ok) h = absurd (omega (arith, taken, h.0))
  Step-IsLost (reject s left j taken busy) h = absurd (omega (arith, taken, h.0))
  Step-IsLost (finish s j err e) h = absurd (omega (arith, ap places e, h.1))
  Step-IsLost (stop_offering s e) h = absurd (omega (arith, ap places e, h.1))
  Step-IsLost (stop_waiting s e) h = (h.0, refl)
  Step-IsLost (others s available runner store same) h = (same ∙ h.0, h.1)

  Reach-IsLost : {s t : System S} → Reach st w s t → IsLost s → IsLost t
  Reach-IsLost here h = h
  Reach-IsLost (next r step) h = Step-IsLost step (Reach-IsLost r h)

  not_executing : (p : Phase) → places p ≡ 1 → (j : Job) → p ≢ executing j
  unfolding places
  not_executing p h j e = omega (arith, h, ap places e)

  -- When the dispatcher takes a worker from the channel and Submit returns ErrWorkerBusy, since the
  -- worker has not reached its receive yet, the worker never stands in the channel again and never
  -- runs a job. The worker started outside the channel, and nobody else puts it there.
  pub rejected_forever :
      {s t u : System S} (left : List ℕ)
      → IsNew s
      → Reach st w s t
      → count w t.available ≡ suc (count w left)
      → submit false (is_receiving t.phase) true ≡ some worker_busy
      → Reach st w (record t { available = left }) u
      → (count w u.available ≡ 0) × ((j : Job) → u.phase ≢ executing j)
  rejected_forever {t} {u} left new r taken busy after =
      let once : count w t.available ≤ places t.phase = Reach-places new r in
      let (gone, idle) = Reach-IsLost after (
        omega (arith, taken, once, places-le t.phase),
        omega (arith, taken, once, places-le t.phase),
      ) in
      (gone, not_executing u.phase idle)
