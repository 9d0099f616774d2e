-- ===== src/Node/Tests.antt =====
-- A worker node with two topics.
use job_manager_quorum.Common.{
  ◌≡◌, refl, String, String-discrete, ite, pos, true, none, some, [], ◌∷◌, ◌||◌,
}
use job_manager_quorum.Common.Numerals.{decimal}
use job_manager_quorum.Common.Text.{trim_space}
use job_manager_quorum.Common.Split.{split}
use job_manager_quorum.Broker.{can_handle, is_wildcard}
use job_manager_quorum.WorkerManager.{new_manager}
use job_manager_quorum.Events.{Event, global_broadcaster}
use job_manager_quorum.Rpc.{WorkerServer, register_worker_node}
use job_manager_quorum.Executor.TokenBucket.{new_token_bucket_limiter}
use job_manager_quorum.Executor.Breaker.{new_circuit_breaker_executor}
use job_manager_quorum.Runner.{new_runner}
use job_manager_quorum.Config.{Config, default}
use job_manager_quorum.Node.{WorkerNode, required_int, start}
use job_manager_quorum.Node.Topics.{all_blank, mentioned, configured-handles}

abbrev getenv : String → String
getenv name = ite (String-discrete name "QUORUM_WORKER_TOPICS") " email,, video" ""

abbrev config : Config
config = default getenv

abbrev node : WorkerNode
node = record {
  id = pos 1;
  metrics_port = pos 9090;
  port = pos 50052;
  topics = "email" ∷ "video" ∷ [];
  address = "localhost:50052";
  controller_address = "localhost:50051";
  limiter = new_token_bucket_limiter (pos 10);
  breaker = new_circuit_breaker_executor (pos 5) 30_000_000_000;
  runner = new_runner 100;
}

starts : start config getenv ≡ some node
unfolding start default String-discrete decimal
starts = refl

rejects_id : required_int "7x" (pos 1) ≡ none
unfolding required_int String-discrete
rejects_id = refl

abbrev server : WorkerServer
server = record { manager = new_manager; results = []; events = global_broadcaster }

abbrev event : Event
event = record { type = "WORKER_REGISTERED"; message = "Worker-1"; timestamp = 5; metadata = [] }

configured-handles_example :
    can_handle
      (register_worker_node true 5 event
        (record { worker_id = 1; address = node.address; topics = node.topics })
        server).0.manager.broker
      1
      "video"
    ≡ (all_blank (split b',' (getenv "QUORUM_WORKER_TOPICS"))
        || mentioned (split b',' (getenv "QUORUM_WORKER_TOPICS")) "video")
configured-handles_example = configured-handles config getenv node 1 5 event server "video" starts

mentions : mentioned (split b',' " email,, video") "video" ≡ true
unfolding mentioned split trim_space String-discrete is_wildcard
mentions = refl
