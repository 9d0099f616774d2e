-- ===== src/Job/Lease.antt =====
-- internal/job/lease.go: the leases that the leader holds in memory.
pub mod Laws
use job_manager_quorum.Common.{
  ℕ, ◌≡◌, refl, Option, none, some, List, [], ◌∷◌, ite, ℕ_discrete, arith, Map, lookup, insert,
  delete, ℕ-key,
}

pub record Lease : Type 0 where
  pub job_id : ℕ
  pub worker_id : ℕ
  pub term : ℕ
  pub attempt : ℕ
  pub started_at : ℕ

abbrev pub LeaseManager : Type 0
LeaseManager = Map ℕ Lease

unfoldable pub acquire : LeaseManager → ℕ → ℕ → ℕ → ℕ → ℕ → LeaseManager
acquire lm job_id worker_id term attempt now =
    insert job_id
      (record {
        job_id = job_id;
        worker_id = worker_id;
        term = term;
        attempt = attempt;
        started_at = now;
      })
      lm

unfoldable pub get : LeaseManager → ℕ → Option Lease
get lm job_id = lookup job_id lm

unfoldable pub release : LeaseManager → ℕ → LeaseManager
release lm job_id = delete job_id lm

-- The loop over the map: the jobs that are released, and the leases that stay.
unfoldable pub release_by_worker : LeaseManager → ℕ → List ℕ × LeaseManager
release_by_worker [] worker_id = ([], [])
release_by_worker ((job_id, lease) ∷ lm) worker_id =
    let (released, kept) = release_by_worker lm worker_id in
    ite (ℕ_discrete lease.worker_id worker_id) (job_id ∷ released, kept)
      (released, (job_id, lease) ∷ kept)

unfoldable pub clear : LeaseManager → LeaseManager
clear lm = []
