-- ===== src/Dlq.antt =====
-- internal/dlq/dlq.go: the dead-letter queue in memory.
use job_manager_quorum.Common.{ℕ, List, [], ◌∷◌, Option, Map, lookup, insert, ℕ-key}
use job_manager_quorum.Common.{delete as map_delete}
use job_manager_quorum.Job.{Job}

abbrev pub DeadLetterQueue : Type 0
DeadLetterQueue = Map ℕ Job

unfoldable pub add : Job → DeadLetterQueue → DeadLetterQueue
add j d = insert j.id j d

unfoldable pub get : ℕ → DeadLetterQueue → Option Job
get id d = lookup id d

unfoldable pub list : DeadLetterQueue → List Job
list [] = []
list ((id, j) ∷ d) = j ∷ list d

unfoldable pub delete : ℕ → DeadLetterQueue → DeadLetterQueue
delete id d = map_delete id d
