-- ===== src/Store/Bolt/Writes.antt =====
-- Add, Update and Cancel of internal/store/bolt_store.go as writes of one job.
use job_manager_quorum.Common.{
  ℕ, ◌≡◌, refl, ap, ◌∙◌, inl, inr, String, String-discrete, none, some, ite, arith, is_some,
  Option-cases, ℕ_discrete,
}
use job_manager_quorum.Common.Numerals.{itoa_inj}
use job_manager_quorum.Job.{Job, Status}
use job_manager_quorum.Store.Bbolt.{Bolt, Json, Bucket, jobs, key}
use job_manager_quorum.Store.Bolt.{get, add_steps, overwrite}
use job_manager_quorum.Store.Bolt.Consistent.{Laws, Fits, IsConsistent, has_status, status_of}
use job_manager_quorum.Store.Bolt.Effects.{
  add_to_status_bucket-ok, remove_from_status_bucket-ok, put_job-ok, put_idempotency_key-ok,
}

module _ {D V : Type 0} (bolt : Bolt D V) (json : Json V) where
  -- The new contents hold the job, listed under its status only, and all else as before.
  pub record Wrote (j : Job) (d d' : D) : Type 0 where
    pub value : V
    pub reads : json.unmarshal_job value ≡ some j
    pub at_key :
        (k : String)
        → bolt.get jobs k d' ≡ ite (String-discrete (key j.id) k) (some value) (bolt.get jobs k d)
    pub listed :
        (b : Bucket) (t : Status) (k : String)
        → status_of b ≡ some t
        → is_some (bolt.get b k d')
          ≡ ite (String-discrete (key j.id) k) (has_status t (some j)) (is_some (bolt.get b k d))

  module _ (j : Job) (d d' : D) (w : Wrote j d d') where
    pub Wrote-get :
        (id : ℕ) → get bolt json id d' ≡ ite (ℕ_discrete j.id id) (some j) (get bolt json id d)
    unfolding get
    Wrote-get id =
        ground (arith, w.at_key (key id), w.reads, itoa_inj j.id id, ap (λ (n : ℕ). key n))

    pub Wrote-IsConsistent : IsConsistent bolt json d → IsConsistent bolt json d'
    Wrote-IsConsistent v = record {
      keyed = λ k x e. elim (String-discrete (key j.id) k) [
        | yes here ↦
            let same : x ≡ w.value = ground (arith, w.at_key k, here, e) in
            (j, ap json.unmarshal_job same ∙ w.reads, here)
        | no other ↦ v.keyed k x (ground (arith, w.at_key k, other, e))
      ];
      index = λ b t k of. ground (arith, w.at_key k, w.reads, w.listed b t k of, v.index b t k of);
    }

  module _ (laws : Laws bolt json) (j : Job) (d : D) (v : IsConsistent bolt json d) where
    -- An id without a job has no entry at all.
    free_key : get bolt json j.id d ≡ none → bolt.get jobs (key j.id) d ≡ none
    unfolding get
    free_key free = elim (Option-cases (bolt.get jobs (key j.id) d)) [
      | inl e ↦ e
      | inr (x, e) ↦
          let (i, reads, here) = v.keyed (key j.id) x e in absurd (ground (arith, e, reads, free))
    ]

    pub add_steps-Wrote :
        Fits bolt json laws j
        → get bolt json j.id d ≡ none
        → (d' : D) × (add_steps bolt json j d ≡ inr d') × Wrote j d d'
    unfolding add_steps
    add_steps-Wrote fits free =
        let empty = free_key free in
        let (d1, x, put, reads, at1, index1) = put_job-ok bolt json laws j d fits in
        let (d2, noted, jobs2, index2) = put_idempotency_key-ok bolt json laws j d1 fits in
        let (d3, added, jobs3, index3) =
          add_to_status_bucket-ok bolt json laws j.status j.id d2 fits.id_fits in
        (
          d3,
          rw (put, noted, added) refl,
          record {
            value = x;
            reads = reads;
            at_key = λ k. jobs3 k ∙ jobs2 k ∙ at1 k;
            listed = λ b t k of.
                ground (
                  arith,
                  index3 b t k of,
                  index2 b t k of,
                  index1 b t k of,
                  v.index b t k of,
                  empty,
                );
          },
        )

    pub overwrite-Wrote :
        (old : Job) (x : V)
        → Fits bolt json laws j
        → bolt.get jobs (key j.id) d ≡ some x
        → json.unmarshal_job x ≡ some old
        → (d' : D) × (overwrite bolt json old.status j d ≡ inr d') × Wrote j d d'
    unfolding overwrite
    overwrite-Wrote old x fits here is_old =
        let (d1, removed, jobs1, index1) =
          remove_from_status_bucket-ok bolt json laws old.status j.id d in
        let (d2, y, put, reads, at2, index2) = put_job-ok bolt json laws j d1 fits in
        let (d3, added, jobs3, index3) =
          add_to_status_bucket-ok bolt json laws j.status j.id d2 fits.id_fits in
        (
          d3,
          rw (removed, put, added) refl,
          record {
            value = y;
            reads = reads;
            at_key = λ k. jobs3 k ∙ ground (arith, at2 k, jobs1 k);
            listed = λ b t k of. ground (
              arith,
              index3 b t k of,
              index2 b t k of,
              index1 b t k of,
              v.index b t k of,
              here,
              is_old,
            );
          },
        )
