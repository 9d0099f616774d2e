-- ===== src/Events/Tests.antt =====
-- A broadcast to one subscriber.
use job_manager_quorum.Common.{◌≡◌, refl, some, [], ◌∷◌, lookup, ℕ-key, ℕ_discrete, arith}
use job_manager_quorum.Events.{Event, Broadcaster, stamped}
use job_manager_quorum.Events.Delivery.{broadcast_all, broadcast_all-delivers}

abbrev job_submitted : Event
job_submitted = record { type = "JOB_SUBMITTED"; message = "Job #1"; timestamp = 0; metadata = [] }

abbrev one_subscriber : Broadcaster
one_subscriber = record { subscribers = (0, []) ∷ []; next_channel = 1; closed = [] }

broadcast_all-delivers_example :
    lookup 0
      (broadcast_all ((5, job_submitted) ∷ (6, job_submitted) ∷ []) one_subscriber).subscribers
    ≡ some (stamped 5 job_submitted ∷ stamped 6 job_submitted ∷ [])
unfolding lookup ℕ_discrete
broadcast_all-delivers_example =
    (broadcast_all-delivers ((5, job_submitted) ∷ (6, job_submitted) ∷ []) one_subscriber 0).0 []
      refl (omega arith)
