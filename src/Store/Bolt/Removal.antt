-- ===== src/Store/Bolt/Removal.antt =====
-- Delete of internal/store/bolt_store.go.
use job_manager_quorum.Common.{
  ℕ, ◌≡◌, refl, ap, inl, inr, true, none, some, ite, arith, is_some, Option-cases, ℕ_discrete,
}
use job_manager_quorum.Common.Numerals.{itoa_inj}
use job_manager_quorum.Store.Bbolt.{Bolt, Json, jobs, key}
use job_manager_quorum.Store.Bolt.{get, delete, delete_steps}
use job_manager_quorum.Store.Bolt.Consistent.{Laws, IsConsistent}
use job_manager_quorum.Store.Bolt.Effects.{forget-ok, delete_job-ok}
use job_manager_quorum.Store.Bolt.Stored.{committed, stored_job}

module _ {D V : Type 0} (bolt : Bolt D V) (json : Json V) (laws : Laws bolt json) where
  module _ (d : D) (v : IsConsistent bolt json d) where
    delete_steps-ok :
        (id : ℕ) (x : V)
        → bolt.get jobs (key id) d ≡ some x
        → (d' : D) × (delete_steps bolt json id d ≡ inr d')
          × ((k : ℕ) → get bolt json k d' ≡ ite (ℕ_discrete id k) none (get bolt json k d))
          × IsConsistent bolt json d'
    unfolding delete_steps get
    delete_steps-ok id x here =
        let (j, reads, known, same) = stored_job bolt json laws d v id x here in
        let (d1, forgot, jobs1, index1) = forget-ok bolt json laws id j d in
        let (d2, deleted, jobs2, index2) = delete_job-ok bolt json laws id d1 in
        (
          d2,
          rw (here, delete_steps, reads, forgot, deleted) refl,
          λ k. ground (arith, jobs2 (key k), jobs1 (key k), itoa_inj id k, ap (λ (n : ℕ). key n)),
          record {
            keyed = λ k y e. v.keyed k y (ground (arith, jobs2 k, jobs1 k, e));
            index = λ b t k of. ground (
              arith,
              jobs2 k,
              jobs1 k,
              index2 b t k of,
              index1 b t k of,
              v.index b t k of,
              here,
              reads,
            );
          },
        )

    pub delete-ok :
        (id : ℕ)
        → ((delete bolt json true id d).1 ≡ is_some (get bolt json id d))
          × ((k : ℕ)
              → get bolt json k (delete bolt json true id d).0
                ≡ ite (ℕ_discrete id k) none (get bolt json k d))
          × IsConsistent bolt json (delete bolt json true id d).0
    unfolding delete delete_steps get
    delete-ok id = elim (Option-cases (bolt.get jobs (key id) d)) [
      | inl empty ↦
          rw
            (committed bolt json laws (delete_steps bolt json id) d d
              (rw (empty, delete_steps) refl))
            (ground (arith, empty), λ k. ground (arith, empty, ap (λ (n : ℕ). key n)), v)
      | inr (x, here) ↦
          let (j, reads, known, same) = stored_job bolt json laws d v id x here in
          let (d', ran, gone, v') = delete_steps-ok id x here in
          rw (committed bolt json laws (delete_steps bolt json id) d d' ran)
            (ground (arith, here, reads), gone, v')
    ]
