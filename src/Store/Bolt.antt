-- ===== src/Store/Bolt.antt =====
-- internal/store/bolt_store.go: the store in a bbolt database. The database and encoding/json are
-- parameters; keys are texts, and values are bytes of a type `V`.
pub mod Consistent
pub mod Effects
pub mod Writes
pub mod Listing
pub mod Beside
pub mod Stored
pub mod Removal
pub mod Contract
pub mod Duplicate
mod Tests
use job_manager_quorum.Common.{
  ℕ, String, String-discrete, ℤ, pos, negsuc, Bool, true, false, Option, none, some, List, [], ◌∷◌,
  values, map, ◌⊎◌, inl, inr, ite, if◌then◌else◌, ◌==◌, is_some,
}
use job_manager_quorum.Common.Numerals.{itoa, atoi}
use job_manager_quorum.Job.{
  Job, Status, pending, scheduled, completed, failed, cancelled, other, is_valid_transition,
  is_terminal,
}
use job_manager_quorum.Cron.{CronJob}
use job_manager_quorum.Store.Bbolt.{
  Bucket, jobs, crons, dlq, idempotency_keys, status_pending, status_scheduled, status_completed,
  status_failed, status_cancelled, Bolt, Json, key, Step, ◌>>=◌, or_fail, with_value, collect,
  ignored,
}
use job_manager_quorum.Store.{
  Store, StoreError, not_found_for_update, invalid_transition, job_not_found, already_terminal,
  backend_failure,
}

unfoldable pub get_status_bucket : Status → Option Bucket
get_status_bucket pending = some status_pending
get_status_bucket scheduled = some status_scheduled
get_status_bucket completed = some status_completed
get_status_bucket failed = some status_failed
get_status_bucket cancelled = some status_cancelled
get_status_bucket (other _) = none

module _ {D V : Type 0} (bolt : Bolt D V) (json : Json V) where
  -- `db.Update`: an error of the function rolls back, and a commit may fail.
  unfoldable pub transact : Bool → (D → Step D) → D → D × Option StoreError
  transact commit_ok f d = elim (f d) [
    | inl e ↦ (d, some e)
    | inr d' ↦ if commit_ok then (d', none) else (d, some backend_failure)
  ]

  unfoldable pub put_job : Job → D → Step D
  put_job j d = with_value (json.marshal_job j) (λ v. bolt.put jobs (key j.id) v d)

  unfoldable pub add_to_status_bucket : Status → ℕ → D → Step D
  unfolding get_status_bucket
  add_to_status_bucket status id d = elim (get_status_bucket status) [
    | none ↦ inr d
    | some b ↦ or_fail (bolt.put b (key id) (json.of_text "") d)
  ]

  unfoldable pub remove_from_status_bucket : Status → ℕ → D → Step D
  unfolding get_status_bucket
  remove_from_status_bucket status id d = elim (get_status_bucket status) [
    | none ↦ inr d
    | some b ↦ or_fail (bolt.delete b (key id) d)
  ]

  abbrev pub stored : ℕ → D → Option V
  stored id d = bolt.get jobs (key id) d

  abbrev pub decoded : Option V → Option Job
  decoded none = none
  decoded (some v) = json.unmarshal_job v

  -- The mapping of a key that is given, in the same transaction as the job.
  unfoldable pub put_idempotency_key : Job → D → Step D
  put_idempotency_key j d =
      ite (String-discrete j.idempotency_key "") (inr d)
        (or_fail (bolt.put idempotency_keys j.idempotency_key (json.of_text (itoa j.id)) d))

  unfoldable pub add_steps : Job → D → Step D
  unfolding put_job put_idempotency_key add_to_status_bucket
  add_steps j d = put_job j d >>= put_idempotency_key j >>= add_to_status_bucket j.status j.id

  unfoldable pub get : ℕ → D → Option Job
  get id d = decoded (stored id d)

  unfoldable pub list : D → List Job
  list d = (collect json.unmarshal_job (values (bolt.for_each jobs d))).0

  -- The stored values under the keys of a status bucket.
  unfoldable pub found_values : D → List (String × V) → List V
  found_values d [] = []
  found_values d ((k, _) ∷ kvs) =
      let rest = found_values d kvs in elim (bolt.get jobs k d) [ none ↦ rest | some v ↦ v ∷ rest ]

  unfoldable pub list_by_status : Status → D → List Job × Option StoreError
  unfolding get_status_bucket found_values
  list_by_status status d = elim (get_status_bucket status) [
    | none ↦ ([], none)
    | some b ↦ collect json.unmarshal_job (found_values d (bolt.for_each b d))
  ]

  -- The writes of Update and Cancel over a stored job.
  unfoldable pub overwrite : Status → Job → D → Step D
  unfolding put_job add_to_status_bucket remove_from_status_bucket
  overwrite old j d =
      remove_from_status_bucket old j.id d >>= put_job j >>= add_to_status_bucket j.status j.id

  unfoldable pub update_steps : Job → D → Step D
  unfolding overwrite
  update_steps j d = elim (stored j.id d) [
    | none ↦ inl (not_found_for_update j.id)
    | some v ↦ elim (json.unmarshal_job v) [
      | none ↦ inl backend_failure
      | some existing ↦
          if is_valid_transition existing.status j.status
          then overwrite existing.status j d
          else inl (invalid_transition existing.status j.status j.id)
    ]
  ]

  -- The clean-up of Delete, whose errors are ignored.
  unfoldable pub forget : ℕ → Option Job → D → D
  unfolding remove_from_status_bucket
  forget id none d = d
  forget id (some j) d =
      let d1 = ignored d (remove_from_status_bucket j.status id d) in
      ite (String-discrete j.idempotency_key "") d1
        (ignored d1 (or_fail (bolt.delete idempotency_keys j.idempotency_key d1)))

  unfoldable pub delete_steps : ℕ → D → Step D
  unfolding forget
  delete_steps id d = elim (stored id d) [
    | none ↦ inr d
    | some v ↦ or_fail (bolt.delete jobs (key id) (forget id (json.unmarshal_job v) d))
  ]

  unfoldable pub cancel_steps : ℕ → D → Step D
  unfolding overwrite put_job add_to_status_bucket remove_from_status_bucket
  cancel_steps id d = elim (stored id d) [
    | none ↦ inl job_not_found
    | some v ↦ elim (json.unmarshal_job v) [
      | none ↦ inl backend_failure
      | some j ↦
          if is_terminal j.status
          then inl (already_terminal j.status)
          else remove_from_status_bucket j.status id d
            >>= put_job (record j { status = cancelled })
            >>= add_to_status_bucket cancelled id
    ]
  ]

  unfoldable pub delete_cron_steps : String → D → Step D
  delete_cron_steps id d = elim (bolt.get crons id d) [
    | none ↦ inr d
    | some _ ↦ or_fail (bolt.delete crons id d)
  ]

  unfoldable pub find_by_idempotency_key : String → D → Option Job
  unfolding get
  find_by_idempotency_key ikey d =
      ite (String-discrete ikey "") none (elim (bolt.get idempotency_keys ikey d) [
        | none ↦ none
        | some text ↦ elim (atoi (json.to_text text)) [
          | some (pos id) ↦ get id d
          | some (negsuc _) ↦ none
          | none ↦ none
        ]
      ])

  unfoldable pub list_crons : D → List CronJob × Option StoreError
  list_crons d = collect json.unmarshal_cron (values (bolt.for_each crons d))

  unfoldable pub list_dlq : D → List Job × Option StoreError
  list_dlq d = collect json.unmarshal_job (values (bolt.for_each dlq d))

  module _ (commit_ok : Bool) where
    unfoldable pub add : Job → D → D × Option StoreError
    unfolding add_steps transact
    add j = transact commit_ok (add_steps j)

    unfoldable pub update : Job → D → D × Option StoreError
    unfolding update_steps transact
    update j = transact commit_ok (update_steps j)

    -- `found` is set before the transaction ends.
    unfoldable pub delete : ℕ → D → D × Bool × Option StoreError
    unfolding delete_steps transact
    delete id d =
        let (d', err) = transact commit_ok (delete_steps id) d in (d', is_some (stored id d), err)

    unfoldable pub cancel : ℕ → D → D × Option StoreError
    unfolding cancel_steps transact
    cancel id = transact commit_ok (cancel_steps id)

    unfoldable pub add_cron : CronJob → D → D × Option StoreError
    unfolding transact
    add_cron c =
        transact commit_ok (λ d. with_value (json.marshal_cron c) (λ v. bolt.put crons c.id v d))

    unfoldable pub delete_cron : String → D → D × Bool × Option StoreError
    unfolding transact delete_cron_steps
    delete_cron id d =
        let (d', err) = transact commit_ok (delete_cron_steps id) d in
        (d', is_some (bolt.get crons id d), err)

    unfoldable pub add_dlq : Job → D → D × Option StoreError
    unfolding transact
    add_dlq j =
        transact commit_ok (λ d. with_value (json.marshal_job j) (λ v. bolt.put dlq (key j.id) v d))

    -- The bbolt store as a value of the interface.
    abbrev pub bolt_store : Store D
    bolt_store = record {
      add = add;
      get = get;
      list = list;
      list_by_status = list_by_status;
      update = update;
      delete = delete;
      cancel = cancel;
      add_cron = add_cron;
      delete_cron = delete_cron;
      list_crons = list_crons;
      add_dlq = add_dlq;
      list_dlq = list_dlq;
      find_by_idempotency_key = find_by_idempotency_key;
    }
