-- ===== src/Job/ById.antt =====
-- Lists of jobs, searched by their ids.
use job_manager_quorum.Common.{
  ℕ, ◌≡◌, refl, Option, none, some, List, [], ◌∷◌, ite, ℕ_discrete, arith, Map, values, lookup,
  ℕ-key, Distinct,
}
use job_manager_quorum.Job.{Job}

-- The first job of a list with an id.
unfoldable pub first_with_id : ℕ → List Job → Option Job
first_with_id id [] = none
first_with_id id (j ∷ js) = ite (ℕ_discrete j.id id) (some j) (first_with_id id js)

pub first_with_id-values :
    (m : Map ℕ Job) (id : ℕ)
    → Distinct m
    → ((n : ℕ) (j : Job) → lookup n m ≡ some j → j.id ≡ n)
    → first_with_id id (values m) ≡ lookup id m
unfolding first_with_id lookup
first_with_id-values [] id d ids = refl
first_with_id-values ((n, j) ∷ m) id (alone, d) ids =
    let here : j.id ≡ n = ids n j (ground arith) in
    let rest = first_with_id-values m id d (λ i x e. elim (ℕ_discrete n i) [
      | yes p ↦ ground (arith, alone, e, p)
      | no other ↦ ids i x (ground (arith, e, other))
    ]) in
    ground (arith, here, rest)
