-- ===== src/Runner/Loop.antt =====
-- internal/worker/worker.go: Start, the loop of a local worker, with the calls of Submit that reach it.
-- A step is one communication of the worker's goroutine, or one of those around it.
use job_manager_quorum.Common.{
  ℕ, suc, ◌+◌, ◌<◌, ◌≡◌, List, [], ◌∷◌, ◌++◌, length, Bool, true, false, Option, some, ◌==◌,
  if◌then◌else◌,
}
use job_manager_quorum.Job.{Job}
use job_manager_quorum.Store.{Store}
use job_manager_quorum.WorkerManager.{available_buf_size}
use job_manager_quorum.Runner.{Runner, ExecuteError, execute, submit, worker_busy}

-- Where the goroutine is: at the outer `select`, between the two, at the inner one, in
-- Runner.Execute, or returned.
pub data Phase : Type 0 where
  offering offered waiting : Phase
  executing : Job → Phase
  stopped : Phase

-- The worker is ready to receive from JobChannel.
unfoldable pub is_receiving : Phase → Bool
is_receiving waiting = true
is_receiving _ = false

-- One worker, the channel Available that it shares with the others, and the store.
pub record System (S : Type 0) : Type 0 where
  pub phase : Phase
  pub available : List ℕ
  pub runner : Runner
  pub store : S

-- How often a worker stands in the channel.
unfoldable pub count : ℕ → List ℕ → ℕ
count w [] = 0
count w (v ∷ vs) = (if v == w then 1 else 0) + count w vs

module _ {S : Type 0} (st : Store S) (w : ℕ) where
  pub data Step : System S → System S → Type 0 where
    -- `case w.Available <- w`
    offer :
        (s : System S)
        → s.phase ≡ offering
        → length s.available < available_buf_size
        → Step s (record s { phase = offered; available = s.available ++ w ∷ [] })
    -- The goroutine gets to the inner `select`.
    arrive : (s : System S) → s.phase ≡ offered → Step s (record s { phase = waiting })
    -- The dispatcher takes the worker from the channel, and its Submit sends the job or finds
    -- nobody receiving.
    accept :
        (s : System S) (left : List ℕ) (j : Job)
        → count w s.available ≡ suc (count w left)
        → submit false (is_receiving s.phase) true ≡ Option.none
        → Step s (record s { phase = executing j; available = left })
    reject :
        (s : System S) (left : List ℕ) (j : Job)
        → count w s.available ≡ suc (count w left)
        → submit false (is_receiving s.phase) true ≡ some worker_busy
        → Step s (record s { available = left })
    -- Runner.Execute is over, with what the executor returned.
    finish :
        (s : System S) (j : Job) (err : Option ExecuteError)
        → s.phase ≡ executing j
        → Step s (record s {
          phase = offering;
          runner = (execute st true err j s.runner s.store).0;
          store = (execute st true err j s.runner s.store).1;
        })
    -- The context is done at one of the two `select`.
    stop_offering : (s : System S) → s.phase ≡ offering → Step s (record s { phase = stopped })
    stop_waiting : (s : System S) → s.phase ≡ waiting → Step s (record s { phase = stopped })
    -- What the other goroutines do, with the results and the store too: they neither take this
    -- worker nor put it into the channel.
    others :
        (s : System S) (available : List ℕ) (runner : Runner) (store : S)
        → count w available ≡ count w s.available
        → Step s (record s { available = available; runner = runner; store = store })

  pub data Reach (s : System S) : System S → Type 0 where
    here : Reach s s
    next : {t u : System S} → Reach s t → Step t u → Reach s u
