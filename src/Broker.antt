-- ===== src/Broker.antt =====
-- internal/broker/broker.go: topic subscriptions of workers, and the choice of a worker for a job.
-- A worker client is its id. The channel of available workers is the list of the ids in it, oldest
-- first, with its capacity; sends and receives on it do not block.
pub mod Select
pub mod Topics
mod Tests
use job_manager_quorum.Common.{
  ℕ, zero, suc, ◌≡◌, String, String-discrete, Bool, true, false, ◌||◌, Option, none, some, List, [],
  ◌∷◌, ◌++◌, ite, Map, lookup, insert, delete, ℕ-key, String-key, length, ltb, is_some,
  if◌then◌else◌,
}
use job_manager_quorum.Common.Text.{trim_space}

abbrev pub TopicSet : Type 0
TopicSet = Map String (Unit {0})

pub record Broker : Type 0 where
  pub worker_topics : Map ℕ TopicSet
  pub worker_is_all : Map ℕ Bool

unfoldable pub new : Broker
new = record { worker_topics = []; worker_is_all = [] }

unfoldable pub is_wildcard : String → Bool
is_wildcard trimmed =
    ite (String-discrete trimmed "*") true
      (ite (String-discrete trimmed "all") true (ite (String-discrete trimmed "") true false))

-- The loop over the topics, which stops at the first wildcard.
unfoldable pub read_topics : List String → TopicSet → Bool → TopicSet × Bool
read_topics [] topic_set is_all = (topic_set, is_all)
read_topics (t ∷ topics) topic_set is_all =
    let trimmed = trim_space t in
    let rest = read_topics topics (insert trimmed tt topic_set) is_all in
    if is_wildcard trimmed then (topic_set, true) else rest

abbrev pub is_empty {ℓ} : {A : Type ℓ} → List A → Bool
is_empty [] = true
is_empty (_ ∷ _) = false

unfoldable pub register_worker : ℕ → List String → Broker → Broker
register_worker worker_id topics b =
    let (topic_set, is_all) = read_topics topics [] (is_empty topics) in
    record {
      worker_topics = insert worker_id topic_set b.worker_topics;
      worker_is_all = insert worker_id is_all b.worker_is_all;
    }

unfoldable pub unregister_worker : ℕ → Broker → Broker
unregister_worker worker_id b = record {
  worker_topics = delete worker_id b.worker_topics;
  worker_is_all = delete worker_id b.worker_is_all;
}

-- A read of a missing flag gives false.
abbrev pub flag : Option Bool → Bool
flag none = false
flag (some b) = b

unfoldable pub can_handle : Broker → ℕ → String → Bool
can_handle b worker_id job_type =
    if flag (lookup worker_id b.worker_is_all)
    then true
    else (elim (lookup worker_id b.worker_topics) [
      | none ↦ true
      | some topics ↦ is_some (lookup job_type topics)
    ])

-- A send in a `select` with a default: a full channel drops the value.
unfoldable pub try_send : ℕ → ℕ → List ℕ → List ℕ
try_send cap w ch = if ltb (length ch) cap then ch ++ w ∷ [] else ch

unfoldable pub try_send_all : ℕ → List ℕ → List ℕ → List ℕ
try_send_all cap [] ch = ch
try_send_all cap (w ∷ ws) ch = try_send_all cap ws (try_send cap w ch)

-- The loop of SelectWorker, with the rounds left, the workers skipped and the channel.
unfoldable pub select_loop : Broker → String → ℕ → ℕ → List ℕ → List ℕ → Option ℕ × List ℕ
unfolding try_send_all
select_loop b job_type cap zero skipped ch = (none, try_send_all cap skipped ch)
select_loop b job_type cap (suc i) skipped [] = (none, try_send_all cap skipped [])
select_loop b job_type cap (suc i) skipped (w ∷ ch) =
    let rest = select_loop b job_type cap i (skipped ++ w ∷ []) ch in
    if can_handle b w job_type then (some w, try_send_all cap skipped ch) else rest

unfoldable pub select_worker : Broker → String → ℕ → List ℕ → Option ℕ × List ℕ
select_worker b job_type cap available = select_loop b job_type cap (length available) [] available
