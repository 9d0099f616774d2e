-- ===== src/Config.antt =====
-- internal/config/config.go: the settings and their defaults. `getenv` is os.Getenv, which gives the
-- empty text for a variable that is not set; durations are nanoseconds.
use job_manager_quorum.Common.{ℕ, ◌*◌, ◌^◌, String, String-discrete, ℤ, pos, Bool, true, false, ite}
use job_manager_quorum.Job.Retry.{second}

pub record Config : Type 0 where
  pub worker_count : ℤ
  pub worker_id : ℤ
  pub heartbeat_timeout : ℕ
  pub max_retries : ℕ
  pub max_backoff : ℕ
  pub result_buffer : ℕ
  pub worker_execution_timeout : ℕ
  pub delay_queue_poll_interval : ℕ
  pub rate_limit : ℤ
  pub rate_burst : ℤ
  pub breaker_failure_threshold : ℤ
  pub breaker_reset_timeout : ℕ
  pub controller_grpc_port : ℤ
  pub worker_grpc_port : ℤ
  pub storage_type : String
  pub storage_path : String
  pub raft_enabled : Bool
  pub raft_node_id : String
  pub raft_addr : String
  pub raft_data_dir : String
  pub jwt_secret : String
  pub auth_enabled : Bool

-- A variable's value, or another text where it is empty.
abbrev pub or_default : String → String → String
or_default value other = ite (String-discrete value "") other value

unfoldable pub secret_of : (String → String) → String
secret_of getenv =
    or_default (getenv "QUORUM_JWT_SECRET")
      (or_default (getenv "JWT_SECRET") "quorum-jwt-secret-key-change-in-production")

unfoldable pub is_enabled : String → Bool
is_enabled value =
    ite (String-discrete value "true") true (ite (String-discrete value "1") true false)

unfoldable pub default : (String → String) → Config
unfolding secret_of is_enabled
default getenv = record {
  worker_count = pos 0;
  worker_id = pos 1;
  heartbeat_timeout = 5 * second;
  max_retries = 3;
  max_backoff = 60 * second;
  result_buffer = 100;
  worker_execution_timeout = 30 * second;
  delay_queue_poll_interval = 500 * 10 ^ 6;
  rate_limit = pos 5;
  rate_burst = pos 10;
  breaker_failure_threshold = pos 5;
  breaker_reset_timeout = 30 * second;
  controller_grpc_port = pos 50051;
  worker_grpc_port = pos 50052;
  storage_type = "bolt";
  storage_path = "quorum.db";
  raft_enabled = true;
  raft_node_id = "node1";
  raft_addr = "127.0.0.1:18088";
  raft_data_dir = "data/raft";
  jwt_secret = secret_of getenv;
  auth_enabled = is_enabled (getenv "QUORUM_AUTH_ENABLED");
}
