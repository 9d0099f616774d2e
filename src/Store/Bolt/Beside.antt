-- ===== src/Store/Bolt/Beside.antt =====
-- The transactions of internal/store/bolt_store.go on the buckets beside the jobs' ones.
use job_manager_quorum.Common.{
  ◌≡◌, ◌≢◌, refl, ◌⊎◌, inl, inr, String, Bool, Option, none, some, arith, Option-cases, Bool-cases,
  subst,
}
use job_manager_quorum.Job.{Job}
use job_manager_quorum.Cron.{CronJob}
use job_manager_quorum.Store.{StoreError}
use job_manager_quorum.Store.Bbolt.{
  Bolt, Json, Bucket, jobs, crons, dlq, key, Step, with_value, or_fail,
}
use job_manager_quorum.Store.Bolt.{transact, add_cron, delete_cron, delete_cron_steps, add_dlq}
use job_manager_quorum.Store.Bolt.Consistent.{Laws, status_of}
use job_manager_quorum.Store.Bolt.Effects.{KeepsJobs, KeepsIndex}

Step-cases : {D : Type 0} (r : Step D) → ((e : StoreError) × (r ≡ inl e)) ⊎ ((d : D) × (r ≡ inr d))
Step-cases (inl e) = inl (e, refl)
Step-cases (inr d) = inr (d, refl)

or_fail-inr : {D : Type 0} (o : Option D) (d : D) → or_fail o ≡ inr d → o ≡ some d
or_fail-inr none d e = absurd (ground (arith, e))
or_fail-inr (some x) d e = ground (arith, e)

with_value-inr :
    {D V : Type 0} (o : Option V) (put : V → Option D) (d : D)
    → with_value o put ≡ inr d
    → (v : V) × (put v ≡ some d)
with_value-inr none put d e = absurd (ground (arith, e))
with_value-inr (some v) put d e = (v, or_fail-inr (put v) d e)

module _ {D V : Type 0} (bolt : Bolt D V) (json : Json V) where
  abbrev pub Keeps : D → D → Type 0
  Keeps d d' = KeepsJobs bolt d d' × KeepsIndex bolt d d'

  transact-Keeps :
      (commit_ok : Bool) (f : D → Step D) (d : D)
      → ((d' : D) → f d ≡ inr d' → Keeps d d')
      → Keeps d (transact bolt json commit_ok f d).0
  unfolding transact
  transact-Keeps commit_ok f d keeps = elim (Step-cases (f d)) [
    | inl (e, failed) ↦ rw (failed, transact) (λ k. refl, λ b t k of. refl)
    | inr (d', ran) ↦ elim (Bool-cases commit_ok) [
      | inl c ↦ rw (ran, c, transact) (keeps d' ran)
      | inr c ↦ rw (ran, c, transact) (λ k. refl, λ b t k of. refl)
    ]
  ]

  module _ (laws : Laws bolt json) (commit_ok : Bool) (d : D) where
    put-Keeps :
        (c : Bucket) (k : String) (v : V) (d' : D)
        → c ≢ jobs
        → status_of c ≡ none
        → bolt.put c k v d ≡ some d'
        → Keeps d d'
    put-Keeps c k v d' other no_status done = (
      λ l. ground (arith, laws.get-put c k v d d' jobs l done, other),
      λ b t l of. ground (arith, laws.get-put c k v d d' b l done, of, no_status),
    )

    delete-Keeps :
        (c : Bucket) (k : String) (d' : D)
        → c ≢ jobs
        → status_of c ≡ none
        → bolt.delete c k d ≡ some d'
        → Keeps d d'
    delete-Keeps c k d' other no_status done = (
      λ l. ground (arith, laws.get-delete c k d d' jobs l done, other),
      λ b t l of. ground (arith, laws.get-delete c k d d' b l done, of, no_status),
    )

    pub add_dlq-Keeps : (j : Job) → Keeps d (add_dlq bolt json commit_ok j d).0
    unfolding add_dlq
    add_dlq-Keeps j =
        transact-Keeps commit_ok
          (λ d. with_value (json.marshal_job j) (λ v. bolt.put dlq (key j.id) v d)) d
          (λ d' e.
            let (v, done) =
              with_value-inr (json.marshal_job j) (λ v. bolt.put dlq (key j.id) v d) d' e in
            put-Keeps dlq (key j.id) v d' (λ p. cc p) refl done)

    pub add_cron-Keeps : (c : CronJob) → Keeps d (add_cron bolt json commit_ok c d).0
    unfolding add_cron
    add_cron-Keeps c =
        transact-Keeps commit_ok
          (λ d. with_value (json.marshal_cron c) (λ v. bolt.put crons c.id v d)) d
          (λ d' e.
            let (v, done) =
              with_value-inr (json.marshal_cron c) (λ v. bolt.put crons c.id v d) d' e in
            put-Keeps crons c.id v d' (λ p. cc p) refl done)

    pub delete_cron-Keeps : (id : String) → Keeps d (delete_cron bolt json commit_ok id d).0
    unfolding delete_cron delete_cron_steps
    delete_cron-Keeps id = transact-Keeps commit_ok (delete_cron_steps bolt json id) d (λ d' e.
        elim (Option-cases (bolt.get crons id d)) [
          | inl missing ↦
              let same : d ≡ d' = ground (arith, missing, e) in
              subst (Keeps d) same (λ k. refl, λ b t k of. refl)
          | inr (x, there) ↦
              delete-Keeps crons id d' (λ p. cc p) refl
                (or_fail-inr (bolt.delete crons id d) d' (ground (arith, there, e)))
        ])
