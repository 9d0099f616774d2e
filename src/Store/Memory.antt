-- ===== src/Store/Memory.antt =====
-- internal/store/memory_store.go: the in-memory store. Every method runs under the store's mutex,
-- so it is one step. The order in which Go walks a map is the order of the association list.
pub mod Index
pub mod Contract
use job_manager_quorum.Common.{
  ℕ, String, String-discrete, ◌≡◌, Bool, true, false, Option, none, some, List, [], ◌∷◌, map, ite,
  Map, values, lookup, insert, delete as map_delete, ℕ-key, String-key, if◌then◌else◌,
}
use job_manager_quorum.Job.{
  Job, Status, cancelled, Status-discrete, Status-key, is_valid_transition, is_terminal,
}
use job_manager_quorum.Cron.{CronJob}
use job_manager_quorum.Store.{
  Store, StoreError, already_exists, not_found_for_update, invalid_transition, job_not_found,
  already_terminal,
}

-- Go's `map[int]struct{}`.
abbrev pub IdSet : Type 0
IdSet = Map ℕ (Unit {0})

pub record MemoryStore : Type 0 where
  pub jobs : Map ℕ Job
  pub status_index : Map Status IdSet
  pub crons : Map String CronJob
  pub dlq : Map ℕ Job
  pub idempotency_index : Map String ℕ

unfoldable pub new_memory_store : MemoryStore
new_memory_store = record {
  jobs = [];
  status_index = [];
  crons = [];
  dlq = [];
  idempotency_index = [];
}

-- A read of a missing set gives Go's nil map, which has no element.
abbrev pub set_or_nil : Option IdSet → IdSet
set_or_nil none = []
set_or_nil (some ids) = ids

unfoldable pub add_to_status_index : Status → ℕ → Map Status IdSet → Map Status IdSet
unfolding insert
add_to_status_index status id index =
    insert status (insert id tt (set_or_nil (lookup status index))) index

-- The set is shared with the index, so that `delete(set, id)` is seen there.
unfoldable pub remove_from_status_index : Status → ℕ → Map Status IdSet → Map Status IdSet
remove_from_status_index status id index = elim (lookup status index) [
  | none ↦ index
  | some ids ↦ insert status (map_delete id ids) index
]

unfoldable pub add : Job → MemoryStore → MemoryStore × Option StoreError
add j s = elim (lookup j.id s.jobs) [
  | some _ ↦ (s, some (already_exists j.id))
  | none ↦ (
    record s {
      jobs = insert j.id j s.jobs;
      idempotency_index =
          ite (String-discrete j.idempotency_key "") s.idempotency_index
            (insert j.idempotency_key j.id s.idempotency_index);
      status_index = add_to_status_index j.status j.id s.status_index;
    },
    none,
  )
]

unfoldable pub get : ℕ → MemoryStore → Option Job
get id s = lookup id s.jobs

unfoldable pub list : MemoryStore → List Job
list s = values s.jobs

-- The loop over the ids of a status.
unfoldable pub jobs_of : Map ℕ Job → IdSet → List Job
jobs_of jobs [] = []
jobs_of jobs ((id, _) ∷ ids) =
    let rest = jobs_of jobs ids in elim (lookup id jobs) [ some j ↦ j ∷ rest | none ↦ rest ]

unfoldable pub list_by_status : Status → MemoryStore → List Job × Option StoreError
unfolding jobs_of
list_by_status status s = elim (lookup status s.status_index) [
  | none ↦ ([], none)
  | some ids ↦ (jobs_of s.jobs ids, none)
]

unfoldable pub update : Job → MemoryStore → MemoryStore × Option StoreError
update j s = elim (lookup j.id s.jobs) [
  | none ↦ (s, some (not_found_for_update j.id))
  | some existing ↦
      if is_valid_transition existing.status j.status
      then (
        record s {
          status_index =
              add_to_status_index j.status j.id
                (remove_from_status_index existing.status j.id s.status_index);
          jobs = insert j.id j s.jobs;
        },
        none,
      )
      else (s, some (invalid_transition existing.status j.status j.id))
]

unfoldable pub delete : ℕ → MemoryStore → MemoryStore × Bool × Option StoreError
delete id s = elim (lookup id s.jobs) [
  | none ↦ (s, false, none)
  | some j ↦ (
    record s {
      status_index = remove_from_status_index j.status id s.status_index;
      idempotency_index =
          ite (String-discrete j.idempotency_key "") s.idempotency_index
            (map_delete j.idempotency_key s.idempotency_index);
      jobs = map_delete id s.jobs;
    },
    true,
    none,
  )
]

unfoldable pub cancel : ℕ → MemoryStore → MemoryStore × Option StoreError
cancel id s = elim (lookup id s.jobs) [
  | none ↦ (s, some job_not_found)
  | some j ↦ if is_terminal j.status then (s, some (already_terminal j.status)) else (
    record s {
      status_index =
          add_to_status_index cancelled id (remove_from_status_index j.status id s.status_index);
      jobs = insert id (record j { status = cancelled }) s.jobs;
    },
    none,
  )
]

unfoldable pub add_cron : CronJob → MemoryStore → MemoryStore × Option StoreError
add_cron c s = (record s { crons = insert c.id c s.crons }, none)

unfoldable pub delete_cron : String → MemoryStore → MemoryStore × Bool × Option StoreError
delete_cron id s = elim (lookup id s.crons) [
  | none ↦ (s, false, none)
  | some _ ↦ (record s { crons = map_delete id s.crons }, true, none)
]

unfoldable pub list_crons : MemoryStore → List CronJob × Option StoreError
list_crons s = (values s.crons, none)

unfoldable pub add_dlq : Job → MemoryStore → MemoryStore × Option StoreError
add_dlq j s = (record s { dlq = insert j.id j s.dlq }, none)

unfoldable pub list_dlq : MemoryStore → List Job × Option StoreError
list_dlq s = (values s.dlq, none)

unfoldable pub find_by_idempotency_key : String → MemoryStore → Option Job
find_by_idempotency_key key s =
    ite (String-discrete key "") none
      (elim (lookup key s.idempotency_index) [ none ↦ none | some id ↦ lookup id s.jobs ])

-- The in-memory store as a value of the interface.
abbrev pub memory_store : Store MemoryStore
memory_store = record {
  add = add;
  get = get;
  list = list;
  list_by_status = list_by_status;
  update = update;
  delete = delete;
  cancel = cancel;
  add_cron = add_cron;
  delete_cron = delete_cron;
  list_crons = list_crons;
  add_dlq = add_dlq;
  list_dlq = list_dlq;
  find_by_idempotency_key = find_by_idempotency_key;
}
