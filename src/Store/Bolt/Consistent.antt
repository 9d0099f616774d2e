-- ===== src/Store/Bolt/Consistent.antt =====
-- What go.etcd.io/bbolt and encoding/json promise, and the invariant of the database.
use job_manager_quorum.Common.{
  ℕ, ◌≡◌, ◌≢◌, ◌↔◌, ◌≤◌, sym, ap, String, String-discrete, Bool, true, false, Option, none, some,
  In, ite, is_some,
}
use job_manager_quorum.Job.{
  Job, Status, Status-discrete, pending, scheduled, completed, failed, cancelled, other,
}
use job_manager_quorum.Store.Bbolt.{
  Bolt, Json, Bucket, jobs, crons, dlq, idempotency_keys, status_pending, status_scheduled,
  status_completed, status_failed, status_cancelled, key,
}
use job_manager_quorum.Store.Bolt.{get_status_bucket, decoded}

pub Bucket-discrete : Discrete Bucket
Bucket-discrete = hlevel

-- The status whose ids a bucket holds.
abbrev pub status_of : Bucket → Option Status
status_of status_pending = some pending
status_of status_scheduled = some scheduled
status_of status_completed = some completed
status_of status_failed = some failed
status_of status_cancelled = some cancelled
status_of _ = none

pub status_of-bucket :
    (t : Status) (b : Bucket) → get_status_bucket t ≡ some b → status_of b ≡ some t
unfolding get_status_bucket
status_of-bucket pending b e = let same : status_pending ≡ b = cc in ap status_of (sym same)
status_of-bucket scheduled b e = let same : status_scheduled ≡ b = cc in ap status_of (sym same)
status_of-bucket completed b e = let same : status_completed ≡ b = cc in ap status_of (sym same)
status_of-bucket failed b e = let same : status_failed ≡ b = cc in ap status_of (sym same)
status_of-bucket cancelled b e = let same : status_cancelled ≡ b = cc in ap status_of (sym same)
status_of-bucket (other x) b e = absurd cc

pub bucket-status_of :
    (b : Bucket) (t : Status) → status_of b ≡ some t → get_status_bucket t ≡ some b
unfolding get_status_bucket
bucket-status_of status_pending t e = let same : pending ≡ t = cc in ap get_status_bucket (sym same)
bucket-status_of status_scheduled t e =
    let same : scheduled ≡ t = cc in ap get_status_bucket (sym same)
bucket-status_of status_completed t e =
    let same : completed ≡ t = cc in ap get_status_bucket (sym same)
bucket-status_of status_failed t e = let same : failed ≡ t = cc in ap get_status_bucket (sym same)
bucket-status_of status_cancelled t e =
    let same : cancelled ≡ t = cc in ap get_status_bucket (sym same)
bucket-status_of jobs t e = absurd cc
bucket-status_of crons t e = absurd cc
bucket-status_of dlq t e = absurd cc
bucket-status_of idempotency_keys t e = absurd cc

abbrev pub has_status : Status → Option Job → Bool
has_status t none = false
has_status t (some j) = ite (Status-discrete j.status t) true false

-- The constants MaxKeySize and MaxValueSize of bbolt.
abbrev pub max_key_size : ℕ
max_key_size = 32768

abbrev pub max_value_size : ℕ
max_value_size = 2147483646

module _ {D V : Type 0} (bolt : Bolt D V) (json : Json V) where
  -- Sizes are in bytes. Put fails on an empty key, and on a key or a value above its limit, only;
  -- encoding/json reads back what it wrote.
  pub record Laws : Type 0 where
    pub key_size : String → ℕ
    pub value_size : V → ℕ
    pub size-empty : key_size "" ≡ 0
    pub size-of_text : (t : String) → value_size (json.of_text t) ≡ key_size t
    pub put_ok :
        (b : Bucket) (k : String) (v : V) (d : D)
        → k ≢ ""
        → key_size k ≤ max_key_size
        → value_size v ≤ max_value_size
        → is_some (bolt.put b k v d) ≡ true
    pub delete_ok : (b : Bucket) (k : String) (d : D) → is_some (bolt.delete b k d) ≡ true
    pub get-put :
        (b : Bucket) (k : String) (v : V) (d d' : D) (c : Bucket) (l : String)
        → bolt.put b k v d ≡ some d'
        → bolt.get c l d'
          ≡ ite
              (Bucket-discrete b c)
              (ite (String-discrete k l) (some v) (bolt.get c l d))
              (bolt.get c l d)
    pub get-delete :
        (b : Bucket) (k : String) (d d' : D) (c : Bucket) (l : String)
        → bolt.delete b k d ≡ some d'
        → bolt.get c l d'
          ≡ ite
              (Bucket-discrete b c)
              (ite (String-discrete k l) none (bolt.get c l d))
              (bolt.get c l d)
    pub for_each_iff :
        (b : Bucket) (k : String) (v : V) (d : D)
        → In (k, v) (bolt.for_each b d) ↔ (bolt.get b k d ≡ some v)
    pub reads_back : (j : Job) (v : V) → json.marshal_job j ≡ some v → json.unmarshal_job v ≡ some j

  -- The job has a JSON, and the keys that the store writes for it, and the value, keep bbolt's limits.
  pub record Fits (laws : Laws) (j : Job) : Type 0 where
    pub encodes : is_some (json.marshal_job j) ≡ true
    pub id_fits : laws.key_size (key j.id) ≤ max_key_size
    pub key_fits : laws.key_size j.idempotency_key ≤ max_key_size
    pub value_fits : (v : V) → json.marshal_job j ≡ some v → laws.value_size v ≤ max_value_size

  -- Each job stands under its own id, and each status bucket holds exactly the keys of its jobs.
  pub record IsConsistent (d : D) : Type 0 where
    pub keyed :
        (k : String) (v : V)
        → bolt.get jobs k d ≡ some v
        → (j : Job) × (json.unmarshal_job v ≡ some j) × (key j.id ≡ k)
    pub index :
        (b : Bucket) (t : Status) (k : String)
        → status_of b ≡ some t
        → is_some (bolt.get b k d) ≡ has_status t (decoded bolt json (bolt.get jobs k d))
