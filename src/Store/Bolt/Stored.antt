-- ===== src/Store/Bolt/Stored.antt =====
-- Transactions of internal/store/bolt_store.go that end well or not, and the job of a stored entry.
use job_manager_quorum.Common.{
  ℕ, ◌≡◌, refl, sym, ap, ◌∙◌, inl, inr, true, none, some, arith, Option-cases,
}
use job_manager_quorum.Common.Numerals.{itoa_inj}
use job_manager_quorum.Job.{Job}
use job_manager_quorum.Store.{StoreError}
use job_manager_quorum.Store.Bbolt.{Bolt, Json, jobs, key, Step}
use job_manager_quorum.Store.Bolt.{get, transact}
use job_manager_quorum.Store.Bolt.Consistent.{Laws, IsConsistent}

module _ {D V : Type 0} (bolt : Bolt D V) (json : Json V) (laws : Laws bolt json) where
  -- A transaction whose steps end well.
  pub committed :
      (f : D → Step D) (d d' : D) → f d ≡ inr d' → transact bolt json true f d ≡ (d', none)
  unfolding transact
  committed f d d' e = rw (e, transact) refl

  pub rolled_back :
      (f : D → Step D) (d : D) (e : StoreError)
      → f d ≡ inl e
      → transact bolt json true f d ≡ (d, some e)
  unfolding transact
  rolled_back f d e h = rw (h, transact) refl

  module _ (d : D) (v : IsConsistent bolt json d) where
    pub get-id : (id : ℕ) (j : Job) → get bolt json id d ≡ some j → j.id ≡ id
    unfolding get
    get-id id j e = elim (Option-cases (bolt.get jobs (key id) d)) [
      | inl empty ↦ absurd (ground (arith, empty, e))
      | inr (x, here) ↦
          let (i, reads, at) = v.keyed (key id) x here in
          let same : i ≡ j = ground (arith, here, reads, e) in
          sym (ap (λ j. j.id) same) ∙ itoa_inj i.id id at
    ]

    -- The job under a key whose entry is there.
    pub stored_job :
        (id : ℕ) (x : V)
        → bolt.get jobs (key id) d ≡ some x
        → (j : Job) × (json.unmarshal_job x ≡ some j) × (get bolt json id d ≡ some j) × (j.id ≡ id)
    unfolding get
    stored_job id x here =
        let (j, reads, at) = v.keyed (key id) x here in
        (j, reads, ground (arith, here, reads), itoa_inj j.id id at)
