-- ===== src/Node.antt =====
-- cmd/worker/main.go: how a worker node reads its surroundings. `none` is the end of the program by
-- log.Fatalf; metrics, tracing and the servers themselves are left out.
pub mod Topics
mod Tests
use Prim.Native.String
use job_manager_quorum.Common.{
  ℕ, String, String-discrete, ℤ, pos, Bool, Option, none, some, List, [], ◌∷◌, ite,
}
use job_manager_quorum.Common.Numerals.{atoi, decimal}
use job_manager_quorum.Common.Text.{trim_space}
use job_manager_quorum.Common.Split.{split}
use job_manager_quorum.Config.{Config, or_default}
use job_manager_quorum.Executor.TokenBucket.{TokenBucketLimiter, new_token_bucket_limiter}
use job_manager_quorum.Executor.Breaker.{CircuitBreakerExecutor, new_circuit_breaker_executor}
use job_manager_quorum.Runner.{Runner, new_runner}

pub record WorkerNode : Type 0 where
  pub id : ℤ
  pub metrics_port : ℤ
  pub port : ℤ
  pub topics : List String
  pub address : String
  pub controller_address : String
  pub limiter : TokenBucketLimiter
  pub breaker : CircuitBreakerExecutor
  pub runner : Runner

-- A number of the environment: its default where it is empty, and the end where it is none.
unfoldable pub required_int : String → ℤ → Option ℤ
unfolding atoi
required_int value other = ite (String-discrete value "") (some other) (atoi value)

abbrev value_or : ℤ → Option ℤ → ℤ
value_or other none = other
value_or other (some n) = n

-- A number that falls back to its default where it is none.
unfoldable pub optional_int : String → ℤ → ℤ
unfolding atoi
optional_int value other = ite (String-discrete value "") other (value_or other (atoi value))

-- The loop over the topics that are given.
unfoldable pub named_topics : List String → List String
unfolding trim_space
named_topics [] = []
named_topics (t ∷ ts) =
    let trimmed = trim_space t in
    let rest = named_topics ts in ite (String-discrete trimmed "") rest (trimmed ∷ rest)

abbrev pub or_any : List String → List String
or_any [] = "*" ∷ []
or_any (t ∷ ts) = t ∷ ts

unfoldable pub worker_topics : String → List String
unfolding named_topics split
worker_topics value =
    ite (String-discrete value "") ("*" ∷ []) (or_any (named_topics (split b',' value)))

abbrev pub local_address : ℤ → String
local_address port = String.◌++◌ "localhost:" (decimal port)

unfoldable pub start : Config → (String → String) → Option WorkerNode
unfolding required_int optional_int worker_topics new_token_bucket_limiter
    new_circuit_breaker_executor new_runner
start cfg getenv = elim (required_int (getenv "QUORUM_WORKER_ID") cfg.worker_id) [
  | none ↦ none
  | some id ↦ elim (required_int (getenv "QUORUM_WORKER_PORT") cfg.worker_grpc_port) [
    | none ↦ none
    | some port ↦ some (record {
      id = id;
      metrics_port = optional_int (getenv "QUORUM_METRICS_PORT") (pos 9090);
      port = port;
      topics = worker_topics (getenv "QUORUM_WORKER_TOPICS");
      address = or_default (getenv "QUORUM_WORKER_ADDR") (local_address port);
      controller_address =
          or_default (getenv "QUORUM_CONTROLLER_ADDR") (local_address cfg.controller_grpc_port);
      limiter = new_token_bucket_limiter cfg.rate_burst;
      breaker =
          new_circuit_breaker_executor cfg.breaker_failure_threshold cfg.breaker_reset_timeout;
      runner = new_runner cfg.result_buffer;
    })
  ]
]
