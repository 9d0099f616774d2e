-- ===== src/Store.antt =====
-- internal/store/store.go: the interface of the job stores, and the contract that its comments
-- state, on which the queues, the scheduler and the engine rely.
pub mod Memory
pub mod Bbolt
pub mod Bolt
use job_manager_quorum.Common.{
  ℕ, String, ◌≡◌, ◌↔◌, ◌≢◌, Bool, true, false, Option, none, some, List, ite, ℕ_discrete, In,
  is_some,
}
use job_manager_quorum.Job.{Job, Status, cancelled, other, is_valid_transition, is_terminal}
use job_manager_quorum.Cron.{CronJob}

-- The errors that a store makes, with the values that their texts print.
pub data StoreError : Type 0 where
  already_exists : ℕ → StoreError
  not_found_for_update : ℕ → StoreError
  invalid_transition : Status → Status → ℕ → StoreError
  job_not_found : StoreError
  already_terminal : Status → StoreError
  backend_failure : StoreError

-- A method takes the store's state and returns the new one, with the Go results behind it.
pub record Store (S : Type 0) : Type 0 where
  pub add : Job → S → S × Option StoreError
  pub get : ℕ → S → Option Job
  pub list : S → List Job
  pub list_by_status : Status → S → List Job × Option StoreError
  pub update : Job → S → S × Option StoreError
  pub delete : ℕ → S → S × Bool × Option StoreError
  pub cancel : ℕ → S → S × Option StoreError
  pub add_cron : CronJob → S → S × Option StoreError
  pub delete_cron : String → S → S × Bool × Option StoreError
  pub list_crons : S → List CronJob × Option StoreError
  pub add_dlq : Job → S → S × Option StoreError
  pub list_dlq : S → List Job × Option StoreError
  pub find_by_idempotency_key : String → S → Option Job

-- Whether a stored job may be overwritten by one of the given status.
abbrev pub accepts : Option Job → Status → Bool
accepts none t = false
accepts (some j) t = is_valid_transition j.status t

-- The statuses that the program names.
abbrev pub is_known : Status → Bool
is_known (other _) = false
is_known _ = true

-- Whether a stored job may be cancelled.
abbrev pub cancellable : Option Job → Bool
cancellable none = false
cancellable (some j) = elim (is_terminal j.status) [ true ↦ false | false ↦ true ]

abbrev pub cancel_job : Job → Job
cancel_job j = record j { status = cancelled }

-- The store `s'` holds the job `j`, and all else as `s` does.
abbrev pub Puts : {S : Type 0} → Store S → Job → S → S → Type 0
Puts st j s s' = (id : ℕ) → st.get id s' ≡ ite (ℕ_discrete j.id id) (some j) (st.get id s)

-- What the in-memory store and the bbolt store have in common, where the written jobs keep the
-- backend's limits.
pub record ContractWithin {S : Type 0} (st : Store S) (Fits : Job → Type 0)
    (IsConsistent : S → Type 0) : Type 0 where
  pub get-id : (s : S) (id : ℕ) (j : Job) → IsConsistent s → st.get id s ≡ some j → j.id ≡ id
  pub add-ok :
      (j : Job) (s : S)
      → IsConsistent s
      → Fits j
      → st.get j.id s ≡ none
      → ((st.add j s).1 ≡ none) × Puts st j s (st.add j s).0 × IsConsistent (st.add j s).0
  pub update-ok :
      (j : Job) (s : S)
      → IsConsistent s
      → Fits j
      → accepts (st.get j.id s) j.status ≡ true
      → ((st.update j s).1 ≡ none) × Puts st j s (st.update j s).0 × IsConsistent (st.update j s).0
  pub update-rejected :
      (j : Job) (s : S)
      → IsConsistent s
      → accepts (st.get j.id s) j.status ≡ false
      → ((st.update j s).0 ≡ s) × (is_some (st.update j s).1 ≡ true)
  pub cancel-ok :
      (s : S) (id : ℕ) (j : Job)
      → IsConsistent s
      → Fits (cancel_job j)
      → st.get id s ≡ some j
      → is_terminal j.status ≡ false
      → ((st.cancel id s).1 ≡ none)
        × Puts st (cancel_job j) s (st.cancel id s).0
        × IsConsistent (st.cancel id s).0
  pub cancel-rejected :
      (s : S) (id : ℕ)
      → IsConsistent s
      → cancellable (st.get id s) ≡ false
      → ((st.cancel id s).0 ≡ s) × (is_some (st.cancel id s).1 ≡ true)
  pub delete-ok :
      (s : S) (id : ℕ)
      → IsConsistent s
      → ((st.delete id s).1 ≡ is_some (st.get id s))
        × ((k : ℕ) → st.get k (st.delete id s).0 ≡ ite (ℕ_discrete id k) none (st.get k s))
        × IsConsistent (st.delete id s).0
  pub add_dlq-keeps :
      (j : Job) (s : S) (id : ℕ)
      → (st.get id (st.add_dlq j s).0 ≡ st.get id s)
        × (IsConsistent s → IsConsistent (st.add_dlq j s).0)
  pub add_cron-keeps :
      (c : CronJob) (s : S)
      → ((id : ℕ) → st.get id (st.add_cron c s).0 ≡ st.get id s)
        × (IsConsistent s → IsConsistent (st.add_cron c s).0)
  pub delete_cron-keeps :
      (c : String) (s : S)
      → ((id : ℕ) → st.get id (st.delete_cron c s).0 ≡ st.get id s)
        × (IsConsistent s → IsConsistent (st.delete_cron c s).0)
  pub list_by_status_iff :
      (t : Status) (s : S) (j : Job)
      → IsConsistent s
      → is_known t ≡ true
      → In j (st.list_by_status t s).0 ↔ ((st.get j.id s ≡ some j) × (j.status ≡ t))

-- A store without limits.
abbrev pub CommonContract : {S : Type 0} → Store S → (S → Type 0) → Type 0
CommonContract st IsConsistent = ContractWithin st (λ j. Unit) IsConsistent

-- With what only the in-memory store does: it rejects an id that is stored, and it indexes any status.
pub record Contract {S : Type 0} (st : Store S) (IsConsistent : S → Type 0) : Type 0 where
  pub common : CommonContract st IsConsistent
  pub add-rejected :
      (j : Job) (s : S)
      → IsConsistent s
      → is_some (st.get j.id s) ≡ true
      → ((st.add j s).0 ≡ s) × (is_some (st.add j s).1 ≡ true)
  pub list_by_any_status_iff :
      (t : Status) (s : S) (j : Job)
      → IsConsistent s
      → In j (st.list_by_status t s).0 ↔ ((st.get j.id s ≡ some j) × (j.status ≡ t))
