-- ===== src/Broker/Tests.antt =====
-- SelectWorker on a concrete broker.
use job_manager_quorum.Common.{false, true, [], ◌∷◌, arith}
use job_manager_quorum.Broker.{Broker, select_worker}
use job_manager_quorum.Broker.Select.{Selected, select_worker-Selected}

-- Worker 7 handles e-mail only, worker 8 everything.
abbrev two_workers : Broker
two_workers = record {
  worker_topics = (7, ("email", tt) ∷ []) ∷ [];
  worker_is_all = (7, false) ∷ (8, true) ∷ [];
}

select_worker-Selected_example :
    Selected two_workers "video" 100
      (7 ∷ 8 ∷ [])
      (select_worker two_workers "video" 100 (7 ∷ 8 ∷ []))
select_worker-Selected_example =
    select_worker-Selected two_workers "video" 100 (7 ∷ 8 ∷ []) (omega arith)
