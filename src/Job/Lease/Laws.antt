-- ===== src/Job/Lease/Laws.antt =====
-- What ReleaseByWorker of internal/job/lease.go releases, and which leases it keeps.
use job_manager_quorum.Common.{
  ℕ, ◌≡◌, refl, Option, none, some, [], ◌∷◌, ite, ℕ_discrete, lookup, Distinct, ℕ-key, In, arith,
}
use job_manager_quorum.Job.Lease.{Lease, LeaseManager, release_by_worker}

-- A lease, unless the worker holds it.
abbrev pub unless_held : ℕ → Option Lease → Option Lease
unless_held w none = none
unless_held w (some lease) = ite (ℕ_discrete lease.worker_id w) none (some lease)

-- In a table with one lease a job, ReleaseByWorker drops exactly the leases that the worker holds, and
-- leaves every other job's lease as it is.
pub released_leases :
    (lm : LeaseManager) (w k : ℕ)
    → Distinct lm
    → lookup k (release_by_worker lm w).1 ≡ unless_held w (lookup k lm)
unfolding release_by_worker lookup
released_leases [] w k h = refl
released_leases ((j, lease) ∷ lm) w k h = elim (ℕ_discrete j k) [
  | yes e ↦ ground (arith, released_leases lm w k h.1)
  | no n ↦ ground (arith, released_leases lm w k h.1)
]

pub released_jobs :
    (lm : LeaseManager) (w k : ℕ) (lease : Lease)
    → lookup k lm ≡ some lease
    → lease.worker_id ≡ w
    → In k (release_by_worker lm w).0
unfolding release_by_worker lookup
released_jobs [] w k lease e f = cc e
released_jobs ((j, l) ∷ lm) w k lease e f = elim (ℕ_discrete j k) [
  | yes p ↦ ground arith
  | no n ↦ ground (arith, released_jobs lm w k lease)
]
