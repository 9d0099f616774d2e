-- ===== src/Store/Memory/Index.antt =====
-- The invariant of the in-memory store: each status set holds exactly the jobs of that status.
use job_manager_quorum.Common.{
  ℕ, ◌≡◌, ◌↔◌, inl, inr, Bool, true, false, Option, none, some, [], ◌∷◌, ite, Map, lookup, insert,
  delete, lookup-insert, lookup-delete, ℕ-key, String-key, arith, is_some, In, Option-cases,
  ℕ_discrete,
}
use job_manager_quorum.Job.{Job, Status, Status-discrete, Status-key}
use job_manager_quorum.Store.Memory.{
  MemoryStore, IdSet, set_or_nil, add_to_status_index, remove_from_status_index, jobs_of,
}

-- Whether the index lists an id under a status.
abbrev pub indexed : Status → ℕ → Map Status IdSet → Bool
indexed t id index = is_some (lookup id (set_or_nil (lookup t index)))

abbrev pub has_status : Status → Option Job → Bool
has_status t none = false
has_status t (some j) = ite (Status-discrete j.status t) true false

pub record IsConsistent (s : MemoryStore) : Type 0 where
  pub ids : (id : ℕ) (j : Job) → lookup id s.jobs ≡ some j → j.id ≡ id
  pub index : (t : Status) (id : ℕ) → indexed t id s.status_index ≡ has_status t (lookup id s.jobs)

-- Adding an id to a status set adds it there and changes no other entry of the index.
pub indexed-add :
    (t u : Status) (id k : ℕ) (index : Map Status IdSet)
    → indexed u k (add_to_status_index t id index)
      ≡ ite
          (Status-discrete t u)
          (ite (ℕ_discrete id k) true (indexed u k index))
          (indexed u k index)
unfolding add_to_status_index
indexed-add t u id k index = ground (
  arith,
  lookup-insert u t (insert id tt (set_or_nil (lookup t index))) index,
  lookup-insert k id tt (set_or_nil (lookup t index)),
)

pub indexed-remove :
    (t u : Status) (id k : ℕ) (index : Map Status IdSet)
    → indexed u k (remove_from_status_index t id index)
      ≡ ite
          (Status-discrete t u)
          (ite (ℕ_discrete id k) false (indexed u k index))
          (indexed u k index)
unfolding remove_from_status_index lookup
indexed-remove t u id k index = elim (Option-cases (lookup t index)) [
  | inl e ↦ ground arith
  | inr (ids, e) ↦ ground (arith, lookup-insert u t (delete id ids) index, lookup-delete k id ids)
]

pub lookup-put :
    (j : Job) (jobs : Map ℕ Job) (t : Status) (k : ℕ)
    → has_status t (lookup k (insert j.id j jobs))
      ≡ ite
          (ℕ_discrete j.id k)
          (ite (Status-discrete j.status t) true false)
          (has_status t (lookup k jobs))
lookup-put j jobs t k = ground (arith, lookup-insert k j.id j jobs)

-- An id of a status set stands among the jobs listed for it exactly with its job.
pub jobs_of_iff :
    (jobs : Map ℕ Job) (ids : IdSet) (j : Job)
    → ((k : ℕ) (x : Job) → lookup k jobs ≡ some x → x.id ≡ k)
    → In j (jobs_of jobs ids) ↔ ((is_some (lookup j.id ids) ≡ true) × (lookup j.id jobs ≡ some j))
unfolding jobs_of lookup
jobs_of_iff jobs [] j h = (λ f. absurd f, λ p. cc p.0)
jobs_of_iff jobs ((id, u) ∷ ids) j h =
    let ih = jobs_of_iff jobs ids j h in
    elim (Option-cases (lookup id jobs)) [
      | inl e ↦ (λ f. ground (arith, ih.0), λ p. ground (arith, ih.1))
      | inr (x, e) ↦ (λ f. ground (arith, ih.0, h id x e), λ p. ground (arith, ih.1, h id x e))
    ]
