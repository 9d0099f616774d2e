-- ===== src/Store/Bolt/Effects.antt =====
-- What the parts of a transaction of internal/store/bolt_store.go change in the buckets.
use job_manager_quorum.Common.{
  ℕ, ◌≡◌, ◌≤◌, refl, inl, inr, String, String-discrete, Bool, true, false, Option, none, some, ite,
  arith, is_some, Option-cases,
}
use job_manager_quorum.Common.Numerals.{itoa, itoa_nonempty}
use job_manager_quorum.Job.{Job, Status, Status-discrete}
use job_manager_quorum.Store.Bbolt.{Bolt, Json, Bucket, jobs, idempotency_keys, key}
use job_manager_quorum.Store.Bolt.{
  get_status_bucket, put_job, put_idempotency_key, add_to_status_bucket, remove_from_status_bucket,
  forget,
}
use job_manager_quorum.Store.Bolt.Consistent.{
  Laws, Fits, max_key_size, max_value_size, status_of, status_of-bucket, bucket-status_of,
}

pub is_some-value : {A : Type 0} (o : Option A) → is_some o ≡ true → (a : A) × (o ≡ some a)
is_some-value none h = absurd (ground (arith, h))
is_some-value (some a) h = (a, refl)

module _ {D V : Type 0} (bolt : Bolt D V) where
  -- The jobs' bucket is the same.
  abbrev pub KeepsJobs : D → D → Type 0
  KeepsJobs d d' = (k : String) → bolt.get jobs k d' ≡ bolt.get jobs k d

  -- The status buckets are the same.
  abbrev pub KeepsIndex : D → D → Type 0
  KeepsIndex d d' =
      (b : Bucket) (t : Status) (k : String)
      → status_of b ≡ some t
      → is_some (bolt.get b k d') ≡ is_some (bolt.get b k d)

  -- The key of a job is listed under a status or not, and all else is the same.
  abbrev pub Lists : Bool → Status → String → D → D → Type 0
  Lists listed t k d d' =
      (b : Bucket) (u : Status) (l : String)
      → status_of b ≡ some u
      → is_some (bolt.get b l d')
        ≡ ite (Status-discrete t u) (ite (String-discrete k l) listed (is_some (bolt.get b l d)))
            (is_some (bolt.get b l d))

  module _ (json : Json V) (laws : Laws bolt json) where
    -- A text that is a key fits as a value too.
    text_fits :
        (t : String)
        → laws.key_size t ≤ max_key_size
        → laws.value_size (json.of_text t) ≤ max_value_size
    text_fits t h = omega (arith, h, laws.size-of_text t)

    module _ (t : Status) (id : ℕ) (d : D) where
      pub add_to_status_bucket-ok :
          laws.key_size (key id) ≤ max_key_size
          → (d' : D) × (add_to_status_bucket bolt json t id d ≡ inr d')
            × KeepsJobs d d'
            × Lists true t (key id) d d'
      unfolding add_to_status_bucket
      add_to_status_bucket-ok fits = elim (Option-cases (get_status_bucket t)) [
        | inl no_bucket ↦ (
          d,
          rw (no_bucket, add_to_status_bucket) refl,
          λ k. refl,
          λ c u l of. ground (arith, no_bucket, bucket-status_of c u of),
        )
        | inr (b, e) ↦
            let (d', done) = is_some-value (bolt.put b (key id) (json.of_text "") d) (
              laws.put_ok b (key id) (json.of_text "") d (itoa_nonempty id) fits
                (text_fits "" (omega (arith, laws.size-empty)))) in
            let is_of = status_of-bucket t b e in
            (
              d',
              rw (e, add_to_status_bucket, done) refl,
              λ k.
                  ground (arith, laws.get-put b (key id) (json.of_text "") d d' jobs k done, is_of),
              λ c u l of. ground (
                arith,
                laws.get-put b (key id) (json.of_text "") d d' c l done,
                is_of,
                e,
                of,
                bucket-status_of c u of,
              ),
            )
      ]

      pub remove_from_status_bucket-ok :
          (d' : D) × (remove_from_status_bucket bolt json t id d ≡ inr d')
          × KeepsJobs d d'
          × Lists false t (key id) d d'
      unfolding remove_from_status_bucket
      remove_from_status_bucket-ok = elim (Option-cases (get_status_bucket t)) [
        | inl no_bucket ↦ (
          d,
          rw (no_bucket, remove_from_status_bucket) refl,
          λ k. refl,
          λ c u l of. ground (arith, no_bucket, bucket-status_of c u of),
        )
        | inr (b, e) ↦
            let (d', done) =
              is_some-value (bolt.delete b (key id) d) (laws.delete_ok b (key id) d) in
            let is_of = status_of-bucket t b e in
            (
              d',
              rw (e, remove_from_status_bucket, done) refl,
              λ k. ground (arith, laws.get-delete b (key id) d d' jobs k done, is_of),
              λ c u l of. ground (
                arith,
                laws.get-delete b (key id) d d' c l done,
                is_of,
                e,
                of,
                bucket-status_of c u of,
              ),
            )
      ]

    pub put_job-ok :
        (j : Job) (d : D)
        → Fits bolt json laws j
        → (d' : D) × (v : V) × (put_job bolt json j d ≡ inr d')
          × (json.unmarshal_job v ≡ some j)
          × ((k : String)
              → bolt.get jobs k d'
                ≡ ite (String-discrete (key j.id) k) (some v) (bolt.get jobs k d))
          × KeepsIndex d d'
    unfolding put_job
    put_job-ok j d fits =
        let (v, json_ok) = is_some-value (json.marshal_job j) fits.encodes in
        let (d', done) = is_some-value (bolt.put jobs (key j.id) v d) (
          laws.put_ok jobs (key j.id) v d (itoa_nonempty j.id) fits.id_fits
            (fits.value_fits v json_ok)) in
        let law = laws.get-put jobs (key j.id) v d d' in
        (
          d',
          v,
          rw (put_job, json_ok, done) refl,
          laws.reads_back j v json_ok,
          λ k. ground (arith, law jobs k done),
          λ b t k of. ground (arith, law b k done, of),
        )

    pub put_idempotency_key-ok :
        (j : Job) (d : D)
        → Fits bolt json laws j
        → (d' : D) × (put_idempotency_key bolt json j d ≡ inr d') × KeepsJobs d d' × KeepsIndex d d'
    unfolding put_idempotency_key
    put_idempotency_key-ok j d fits = elim (String-discrete j.idempotency_key "") [
      | yes empty ↦ (d, ground (arith, empty), λ k. refl, λ b t k of. refl)
      | no given ↦
          let (d', done) =
            is_some-value (bolt.put idempotency_keys j.idempotency_key (json.of_text (itoa j.id)) d)
              (laws.put_ok idempotency_keys j.idempotency_key (json.of_text (itoa j.id)) d given
                fits.key_fits (text_fits (itoa j.id) fits.id_fits)) in
          let law =
            laws.get-put idempotency_keys j.idempotency_key (json.of_text (itoa j.id)) d d' in
          (
            d',
            ground (arith, given, done),
            λ k. ground (arith, law jobs k done),
            λ b t k of. ground (arith, law b k done, of),
          )
    ]

    -- The clean-up of Delete unlists the job and touches no stored one.
    pub forget-ok :
        (id : ℕ) (j : Job) (d : D)
        → (d' : D) × (forget bolt json id (some j) d ≡ d')
          × KeepsJobs d d'
          × Lists false j.status (key id) d d'
    unfolding forget
    forget-ok id j d =
        let (d1, removed, jobs1, index1) = remove_from_status_bucket-ok j.status id d in
        elim (String-discrete j.idempotency_key "") [
          | yes empty ↦ (d1, ground (arith, empty, removed), jobs1, index1)
          | no given ↦
              let (d2, done) =
                is_some-value (bolt.delete idempotency_keys j.idempotency_key d1)
                  (laws.delete_ok idempotency_keys j.idempotency_key d1) in
              let law = laws.get-delete idempotency_keys j.idempotency_key d1 d2 in
              (
                d2,
                ground (arith, given, removed, done),
                λ k. ground (arith, law jobs k done, jobs1 k),
                λ b u l of. ground (arith, law b l done, of, index1 b u l of),
              )
        ]

    -- The last write of Delete.
    pub delete_job-ok :
        (id : ℕ) (d : D)
        → (d' : D) × (bolt.delete jobs (key id) d ≡ some d')
          × ((k : String)
              → bolt.get jobs k d' ≡ ite (String-discrete (key id) k) none (bolt.get jobs k d))
          × KeepsIndex d d'
    delete_job-ok id d =
        let (d', done) =
          is_some-value (bolt.delete jobs (key id) d) (laws.delete_ok jobs (key id) d) in
        let law = laws.get-delete jobs (key id) d d' in
        (
          d',
          done,
          λ k. ground (arith, law jobs k done),
          λ b t k of. ground (arith, law b k done, of),
        )
