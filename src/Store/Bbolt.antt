-- ===== src/Store/Bbolt.antt =====
-- What internal/store/bolt_store.go uses of go.etcd.io/bbolt and encoding/json, and its transactions
-- as steps that may fail.
use job_manager_quorum.Common.{ℕ, String, Option, none, some, List, [], ◌∷◌, ◌⊎◌, inl, inr}
use job_manager_quorum.Common.Numerals.{itoa}
use job_manager_quorum.Job.{Job}
use job_manager_quorum.Cron.{CronJob}
use job_manager_quorum.Store.{StoreError, backend_failure}

pub data Bucket : Type 0 where
  jobs crons dlq idempotency_keys : Bucket
  status_pending status_scheduled status_completed status_failed status_cancelled : Bucket

-- The calls of go.etcd.io/bbolt inside a transaction on contents `D`; none is an error.
pub record Bolt (D V : Type 0) : Type 0 where
  pub get : Bucket → String → D → Option V
  pub put : Bucket → String → V → D → Option D
  pub delete : Bucket → String → D → Option D
  pub for_each : Bucket → D → List (String × V)

-- The calls of encoding/json on the stored values, and the conversions between texts and bytes.
pub record Json (V : Type 0) : Type 0 where
  pub marshal_job : Job → Option V
  pub unmarshal_job : V → Option Job
  pub marshal_cron : CronJob → Option V
  pub unmarshal_cron : V → Option CronJob
  pub of_text : String → V
  pub to_text : V → String

abbrev pub key : ℕ → String
key id = itoa id

abbrev pub Step : Type 0 → Type 0
Step D = StoreError ⊎ D

infixl 5 ◌>>=◌
abbrev pub ◌>>=◌ : {D : Type 0} → Step D → (D → Step D) → Step D
inl e >>= f = inl e
inr d >>= f = f d

-- An error of bbolt, which the store passes on.
abbrev pub or_fail : {A : Type 0} → Option A → StoreError ⊎ A
or_fail none = inl backend_failure
or_fail (some a) = inr a

-- What is put for a value that may fail to be encoded.
abbrev pub with_value : {D V : Type 0} → Option V → (V → Option D) → Step D
with_value none put = inl backend_failure
with_value (some v) put = or_fail (put v)

-- The jobs that a loop over values collects; an undecodable value ends it with an error.
abbrev pub collect : {A V : Type 0} → (V → Option A) → List V → List A × Option StoreError
collect unmarshal [] = ([], none)
collect unmarshal (v ∷ vs) =
    let rest = collect unmarshal vs in
    elim (unmarshal v) [ none ↦ ([], some backend_failure) | some a ↦ (a ∷ rest.0, rest.1) ]

-- What is left when an error is ignored.
abbrev pub ignored : {D : Type 0} → D → Step D → D
ignored d (inl e) = d
ignored d (inr d') = d'
