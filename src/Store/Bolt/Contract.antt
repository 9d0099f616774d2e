-- ===== src/Store/Bolt/Contract.antt =====
-- The bbolt store against the laws of the store interface that its clients rely on.
use job_manager_quorum.Common.{
  ℕ, ◌≡◌, refl, sym, ap, ◌∙◌, inl, inr, true, false, none, some, arith, is_some, Option-cases,
}
use job_manager_quorum.Job.{Job, is_valid_transition, is_terminal}
use job_manager_quorum.Store.{
  accepts, cancellable, cancel_job, Puts, ContractWithin, not_found_for_update, invalid_transition,
  job_not_found, already_terminal,
}
use job_manager_quorum.Store.Bbolt.{Bolt, Json, jobs, key}
use job_manager_quorum.Store.Bolt.{
  get, add, update, cancel, add_cron, delete_cron, add_dlq, bolt_store, add_steps, update_steps,
  cancel_steps, overwrite,
}
use job_manager_quorum.Store.Bolt.Consistent.{Laws, Fits, IsConsistent}
use job_manager_quorum.Store.Bolt.Effects.{KeepsJobs, KeepsIndex}
use job_manager_quorum.Store.Bolt.Beside.{add_dlq-Keeps, add_cron-Keeps, delete_cron-Keeps}
use job_manager_quorum.Store.Bolt.Listing.{list_by_status_iff}
use job_manager_quorum.Store.Bolt.Writes.{
  Wrote-get, Wrote-IsConsistent, add_steps-Wrote, overwrite-Wrote,
}
use job_manager_quorum.Store.Bolt.Stored.{committed, rolled_back, get-id, stored_job}
use job_manager_quorum.Store.Bolt.Removal.{delete-ok}

module _ {D V : Type 0} (bolt : Bolt D V) (json : Json V) (laws : Laws bolt json) where
  module _ (d : D) (v : IsConsistent bolt json d) where
    add-ok :
        (j : Job)
        → Fits bolt json laws j
        → get bolt json j.id d ≡ none
        → ((add bolt json true j d).1 ≡ none)
          × Puts (bolt_store bolt json true) j d (add bolt json true j d).0
          × IsConsistent bolt json (add bolt json true j d).0
    unfolding add
    add-ok j fits free =
        let (d', ran, w) = add_steps-Wrote bolt json laws j d v fits free in
        rw (committed bolt json laws (add_steps bolt json j) d d' ran)
          (refl, Wrote-get bolt json j d d' w, Wrote-IsConsistent bolt json j d d' w v)

    update-ok :
        (j : Job)
        → Fits bolt json laws j
        → accepts (get bolt json j.id d) j.status ≡ true
        → ((update bolt json true j d).1 ≡ none)
          × Puts (bolt_store bolt json true) j d (update bolt json true j d).0
          × IsConsistent bolt json (update bolt json true j d).0
    unfolding update update_steps get
    update-ok j fits h = elim (Option-cases (bolt.get jobs (key j.id) d)) [
      | inl empty ↦ absurd (ground (arith, empty, h))
      | inr (x, here) ↦
          let (old, reads, known, same) = stored_job bolt json laws d v j.id x here in
          let valid : is_valid_transition old.status j.status ≡ true =
            ground (arith, here, reads, h) in
          let (d', ran, w) = overwrite-Wrote bolt json laws j d v old x fits here reads in
          let steps : update_steps bolt json j d ≡ inr d' =
            rw (here, update_steps, reads, valid) ran in
          rw (committed bolt json laws (update_steps bolt json j) d d' steps)
            (refl, Wrote-get bolt json j d d' w, Wrote-IsConsistent bolt json j d d' w v)
    ]

    update-rejected :
        (j : Job)
        → accepts (get bolt json j.id d) j.status ≡ false
        → ((update bolt json true j d).0 ≡ d) × (is_some (update bolt json true j d).1 ≡ true)
    unfolding update update_steps get
    update-rejected j h = elim (Option-cases (bolt.get jobs (key j.id) d)) [
      | inl empty ↦
          rw
            (rolled_back bolt json laws (update_steps bolt json j) d (not_found_for_update j.id)
              (rw (empty, update_steps) refl))
            (refl, refl)
      | inr (x, here) ↦
          let (old, reads, known, same) = stored_job bolt json laws d v j.id x here in
          let invalid : is_valid_transition old.status j.status ≡ false =
            ground (arith, here, reads, h) in
          let e = invalid_transition old.status j.status j.id in
          rw
            (rolled_back bolt json laws (update_steps bolt json j) d e
              (rw (here, update_steps, reads, invalid) refl))
            (refl, refl)
    ]

    cancel-ok :
        (id : ℕ) (j : Job)
        → Fits bolt json laws (cancel_job j)
        → get bolt json id d ≡ some j
        → is_terminal j.status ≡ false
        → ((cancel bolt json true id d).1 ≡ none)
          × Puts (bolt_store bolt json true) (cancel_job j) d (cancel bolt json true id d).0
          × IsConsistent bolt json (cancel bolt json true id d).0
    unfolding cancel cancel_steps overwrite get
    cancel-ok id j fits known live = elim (Option-cases (bolt.get jobs (key id) d)) [
      | inl empty ↦ absurd (ground (arith, empty, known))
      | inr (x, here) ↦
          let reads : json.unmarshal_job x ≡ some j = ground (arith, here, known) in
          let same : j.id ≡ id = get-id bolt json laws d v id j known in
          let here' : bolt.get jobs (key j.id) d ≡ some x =
            ap (λ i. bolt.get jobs (key i) d) same ∙ here in
          let (d', ran, w) =
            overwrite-Wrote bolt json laws (cancel_job j) d v j x fits here' reads in
          let steps : cancel_steps bolt json id d ≡ inr d' =
            rw (here, cancel_steps, reads, live) (rw (sym same) ran) in
          rw (committed bolt json laws (cancel_steps bolt json id) d d' steps) (
            refl,
            Wrote-get bolt json (cancel_job j) d d' w,
            Wrote-IsConsistent bolt json (cancel_job j) d d' w v,
          )
    ]

    cancel-rejected :
        (id : ℕ)
        → cancellable (get bolt json id d) ≡ false
        → ((cancel bolt json true id d).0 ≡ d) × (is_some (cancel bolt json true id d).1 ≡ true)
    unfolding cancel cancel_steps get
    cancel-rejected id h = elim (Option-cases (bolt.get jobs (key id) d)) [
      | inl empty ↦
          rw
            (rolled_back bolt json laws (cancel_steps bolt json id) d job_not_found
              (rw (empty, cancel_steps) refl))
            (refl, refl)
      | inr (x, here) ↦
          let (j, reads, known, same) = stored_job bolt json laws d v id x here in
          let final : is_terminal j.status ≡ true = ground (arith, here, reads, h) in
          let e = already_terminal j.status in
          rw
            (rolled_back bolt json laws (cancel_steps bolt json id) d e
              (rw (here, cancel_steps, reads, final) refl))
            (refl, refl)
    ]

  -- A transaction that leaves the jobs and the status buckets as they are.
  keeps-IsConsistent :
      (d d' : D)
      → KeepsJobs bolt d d'
      → KeepsIndex bolt d d'
      → ((id : ℕ) → get bolt json id d' ≡ get bolt json id d)
        × (IsConsistent bolt json d → IsConsistent bolt json d')
  unfolding get
  keeps-IsConsistent d d' same index = (
    λ id. rw (same (key id)) refl,
    λ v. record {
      keyed = λ k x e. v.keyed k x (sym (same k) ∙ e);
      index = λ b t k of. ground (arith, same k, index b t k of, v.index b t k of);
    },
  )

  -- Where bbolt and encoding/json do what they promise and every commit succeeds, on a database whose
  -- status buckets agree with its jobs: Add of a new id, an Update that the transition rules accept
  -- and Cancel of a job that is in no final status store exactly that job, change no other and leave
  -- such a database behind, and so does Delete; an Update that the rules reject and a Cancel of a
  -- final or missing job return an error and change nothing; the operations on recurring jobs and on
  -- the dead-letter bucket change no job; ListByStatus of a status of the program lists exactly the
  -- stored jobs of the status. The jobs that Add, Update and Cancel write have an id and an
  -- idempotency key within bbolt's limit on keys (32768 bytes), and a JSON within its limit on values
  -- (2147483646 bytes).
  pub bolt_store-ContractWithin :
      ContractWithin (bolt_store bolt json true) (Fits bolt json laws) (IsConsistent bolt json)
  bolt_store-ContractWithin = record {
    get-id = λ d id j v e. get-id bolt json laws d v id j e;
    add-ok = λ j d v fits e. add-ok d v j fits e;
    update-ok = λ j d v fits h. update-ok d v j fits h;
    update-rejected = λ j d v h. update-rejected d v j h;
    cancel-ok = λ d id j v fits e live. cancel-ok d v id j fits e live;
    cancel-rejected = λ d id v h. cancel-rejected d v id h;
    delete-ok = λ d id v. delete-ok bolt json laws d v id;
    add_dlq-keeps = λ j d id.
        let (same, index) = add_dlq-Keeps bolt json laws true d j in
        let (gets, keeps) = keeps-IsConsistent d (add_dlq bolt json true j d).0 same index in
        (gets id, keeps);
    add_cron-keeps = λ c d.
        let (same, index) = add_cron-Keeps bolt json laws true d c in
        keeps-IsConsistent d (add_cron bolt json true c d).0 same index;
    delete_cron-keeps = λ c d.
        let (same, index) = delete_cron-Keeps bolt json laws true d c in
        keeps-IsConsistent d (delete_cron bolt json true c d).0 same index;
    list_by_status_iff = λ t d j v known. list_by_status_iff bolt json laws d v t j known;
  }
