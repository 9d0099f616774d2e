-- ===== src/Store/Memory/Contract.antt =====
-- The in-memory store keeps the contract of the store interface.
use job_manager_quorum.Common.{
  ℕ, String, ◌≡◌, ◌↔◌, inl, inr, refl, true, false, none, some, ite, lookup, insert, lookup-insert,
  lookup-delete, ℕ-key, String-key, arith, is_some, In, Option-cases, ℕ_discrete,
}
use job_manager_quorum.Job.{Job, Status, Status-key, cancelled, is_valid_transition, is_terminal}
use job_manager_quorum.Store.{accepts, cancellable, cancel_job, Puts, Contract}
use job_manager_quorum.Store.Memory.{
  MemoryStore, add, get, update, delete, cancel, add_cron, delete_cron, add_dlq, list_by_status,
  memory_store, new_memory_store, add_to_status_index, remove_from_status_index,
}
use job_manager_quorum.Store.Memory.Index.{
  IsConsistent, indexed-add, indexed-remove, lookup-put, jobs_of_iff,
}

pub new_memory_store-IsConsistent : IsConsistent new_memory_store
unfolding new_memory_store lookup
new_memory_store-IsConsistent = record { ids = λ id j e. cc; index = λ t id. refl }

module _ (j : Job) (s : MemoryStore) (v : IsConsistent s) where
  add-ok :
      get j.id s ≡ none
      → ((add j s).1 ≡ none) × Puts memory_store j s (add j s).0 × IsConsistent (add j s).0
  unfolding get add
  add-ok e =
      rw (e, add)
        (
          refl,
          λ id. lookup-insert id j.id j s.jobs,
          record {
            ids = λ id x f. ground (arith, lookup-insert id j.id j s.jobs, v.ids id x);
            index = λ t id. ground (
              arith,
              indexed-add j.status t j.id id s.status_index,
              lookup-put j s.jobs t id,
              v.index t id,
            );
          },
        )

  -- An overwrite that moves the id from its old status set to the new one.
  move-IsConsistent :
      (old : Job)
      → lookup j.id s.jobs ≡ some old
      → IsConsistent (record s {
        status_index =
            add_to_status_index j.status j.id
              (remove_from_status_index old.status j.id s.status_index);
        jobs = insert j.id j s.jobs;
      })
  move-IsConsistent old e = record {
    ids = λ id x f. ground (arith, lookup-insert id j.id j s.jobs, v.ids id x);
    index = λ t id. ground (
      arith,
      indexed-add j.status t j.id id (remove_from_status_index old.status j.id s.status_index),
      indexed-remove old.status t j.id id s.status_index,
      lookup-put j s.jobs t id,
      v.index t id,
    );
  }

  update-ok :
      accepts (get j.id s) j.status ≡ true
      → ((update j s).1 ≡ none) × Puts memory_store j s (update j s).0 × IsConsistent (update j s).0
  unfolding get update
  update-ok h = elim (Option-cases (lookup j.id s.jobs)) [
    | inl e ↦ ground arith
    | inr (old, e) ↦
        let valid : is_valid_transition old.status j.status ≡ true = ground arith in
        rw (e, update, valid) (refl, λ id. lookup-insert id j.id j s.jobs, move-IsConsistent old e)
  ]

  update-rejected :
      accepts (get j.id s) j.status ≡ false → ((update j s).0 ≡ s) × (is_some (update j s).1 ≡ true)
  unfolding get update
  update-rejected h = ground arith

module _ (s : MemoryStore) (id : ℕ) (v : IsConsistent s) where
  cancel-ok :
      (j : Job)
      → get id s ≡ some j
      → is_terminal j.status ≡ false
      → ((cancel id s).1 ≡ none)
        × Puts memory_store (cancel_job j) s (cancel id s).0
        × IsConsistent (cancel id s).0
  unfolding get cancel
  cancel-ok j e live =
      let same : j.id ≡ id = v.ids id j e in
      rw (e, cancel, live)
        (
          refl,
          λ k. ground (arith, lookup-insert k id (cancel_job j) s.jobs),
          record {
            ids = λ k x f. ground (arith, lookup-insert k id (cancel_job j) s.jobs, v.ids k x);
            index = λ t k. ground (
              arith,
              indexed-add cancelled t id k (remove_from_status_index j.status id s.status_index),
              indexed-remove j.status t id k s.status_index,
              lookup-insert k id (cancel_job j) s.jobs,
              v.index t k,
            );
          },
        )

  cancel-rejected :
      cancellable (get id s) ≡ false → ((cancel id s).0 ≡ s) × (is_some (cancel id s).1 ≡ true)
  unfolding get cancel
  cancel-rejected h = ground arith

  delete-ok :
      ((delete id s).1 ≡ is_some (get id s))
      × ((k : ℕ) → get k (delete id s).0 ≡ ite (ℕ_discrete id k) none (get k s))
      × IsConsistent (delete id s).0
  unfolding get delete
  delete-ok = elim (Option-cases (lookup id s.jobs)) [
    | inl e ↦ rw (e, delete) (refl, λ k. ground arith, v)
    | inr (j, e) ↦
        rw (e, delete)
          (
            refl,
            λ k. lookup-delete k id s.jobs,
            record {
              ids = λ k x f. ground (arith, lookup-delete k id s.jobs, v.ids k x);
              index = λ t k. ground (
                arith,
                indexed-remove j.status t id k s.status_index,
                lookup-delete k id s.jobs,
                v.index t k,
              );
            },
          )
  ]

list_by_status_iff :
    (t : Status) (s : MemoryStore) (j : Job)
    → IsConsistent s
    → In j (list_by_status t s).0 ↔ ((get j.id s ≡ some j) × (j.status ≡ t))
unfolding get list_by_status lookup
list_by_status_iff t s j v =
    let listed = v.index t j.id in
    elim (Option-cases (lookup t s.status_index)) [
      | inl e ↦ (λ f. ground arith, λ p. ground arith)
      | inr (ids, e) ↦
          let among = jobs_of_iff s.jobs ids j v.ids in
          (λ f. ground (arith, among.0), λ p. ground (arith, among.1))
    ]

add-rejected :
    (j : Job) (s : MemoryStore)
    → is_some (get j.id s) ≡ true
    → ((add j s).0 ≡ s) × (is_some (add j s).1 ≡ true)
unfolding get add
add-rejected j s h = ground arith

delete_cron-keeps :
    (c : String) (s : MemoryStore)
    → ((id : ℕ) → get id (delete_cron c s).0 ≡ get id s)
      × (IsConsistent s → IsConsistent (delete_cron c s).0)
unfolding get delete_cron
delete_cron-keeps c s = elim (Option-cases (lookup c s.crons)) [
  | inl e ↦ rw (e, delete_cron) (λ id. refl, λ v. v)
  | inr (x, e) ↦ rw (e, delete_cron) (λ id. refl, λ v. record { ids = v.ids; index = v.index })
]

-- On a store whose status index agrees with its jobs: Add of a new id, an Update that the transition
-- rules accept and Cancel of a job that is in no final status store exactly that job, change no other
-- and leave such a store behind, so do Delete and AddDLQ; an Update that the rules reject and a Cancel
-- of a final or missing job return an error and change nothing, as does Add of a stored
-- id; the cron operations change no job; ListByStatus lists exactly the stored jobs of the status.
pub memory_store-Contract : Contract memory_store IsConsistent
unfolding get add_dlq add_cron
memory_store-Contract = record {
  common = record {
    get-id = λ s id j v e. v.ids id j e;
    add-ok = λ j s v fits e. add-ok j s v e;
    update-ok = λ j s v fits h. update-ok j s v h;
    update-rejected = λ j s v h. update-rejected j s v h;
    cancel-ok = λ s id j v fits e live. cancel-ok s id v j e live;
    cancel-rejected = λ s id v h. cancel-rejected s id v h;
    delete-ok = λ s id v. delete-ok s id v;
    add_dlq-keeps = λ j s id. (refl, λ v. record { ids = v.ids; index = v.index });
    add_cron-keeps = λ c s. (λ id. refl, λ v. record { ids = v.ids; index = v.index });
    delete_cron-keeps = delete_cron-keeps;
    list_by_status_iff = λ t s j v known. list_by_status_iff t s j v;
  };
  add-rejected = λ j s v h. add-rejected j s h;
  list_by_any_status_iff = list_by_status_iff;
}
