-- ===== src/Node/Topics.antt =====
-- QUORUM_WORKER_TOPICS of cmd/worker/main.go, from the worker node to the broker of the control node.
use job_manager_quorum.Common.{
  ℕ, ◌≡◌, refl, ap, ◌∙◌, sym, String, String-discrete, Bool, true, false, not, ◌&&◌, ◌||◌, some,
  List, [], ◌∷◌, ite, Option-cases, arith,
}
use job_manager_quorum.Common.Text.{trim_space, trim_space-twice}
use job_manager_quorum.Common.Split.{split}
use job_manager_quorum.Broker.{is_wildcard, is_empty, can_handle}
use job_manager_quorum.Broker.Topics.{same, names, register_worker-handles}
use job_manager_quorum.WorkerManager.{register, make_available}
use job_manager_quorum.Events.{Event}
use job_manager_quorum.Rpc.{RegisterWorkerRequest, WorkerServer, register_worker_node}
use job_manager_quorum.Config.{Config}
use job_manager_quorum.Node.{WorkerNode, required_int, named_topics, or_any, worker_topics, start}

abbrev is_blank : String → Bool
is_blank part = same (trim_space part) ""

-- Every part of the list is blank.
unfoldable pub all_blank : List String → Bool
all_blank [] = true
all_blank (p ∷ ps) = is_blank p && all_blank ps

-- Some part that is not blank is a wildcard or the job's type.
unfoldable pub mentioned : List String → String → Bool
mentioned [] job_type = false
mentioned (p ∷ ps) job_type =
    not (is_blank p) && (is_wildcard (trim_space p) || same (trim_space p) job_type)
    || mentioned ps job_type

names-named_topics :
    (ps : List String) (job_type : String)
    → names (named_topics ps) job_type ≡ mentioned ps job_type
unfolding names named_topics mentioned
names-named_topics [] job_type = refl
names-named_topics (p ∷ ps) job_type =
    let t = trim_space p in
    let hit : String → Bool = λ s. is_wildcard s || same s job_type in
    elim (String-discrete t "")
      as (λ d.
        names (ite d (named_topics ps) (t ∷ named_topics ps)) job_type
        ≡ (not (ite d true false) && hit t || mentioned ps job_type)) [
          | yes blank ↦ names-named_topics ps job_type
          | no given ↦
              ap (λ s. hit s || names (named_topics ps) job_type) (trim_space-twice p)
              ∙ ap (λ b. hit t || b) (names-named_topics ps job_type)
        ]

is_empty-named_topics : (ps : List String) → is_empty (named_topics ps) ≡ all_blank ps
unfolding named_topics all_blank
is_empty-named_topics [] = refl
is_empty-named_topics (p ∷ ps) =
    elim (String-discrete (trim_space p) "")
      as (λ d.
        is_empty (ite d (named_topics ps) (trim_space p ∷ named_topics ps))
        ≡ (ite d true false && all_blank ps)) [
          | yes blank ↦ is_empty-named_topics ps
          | no given ↦ refl
        ]

abbrev handled : List String → String → Bool
handled topics job_type = is_empty topics || names topics job_type

any_handles : (job_type : String) → handled ("*" ∷ []) job_type ≡ true
unfolding names is_wildcard trim_space String-discrete
any_handles job_type = refl

or_any-handled :
    (topics : List String) (job_type : String)
    → handled (or_any topics) job_type ≡ handled topics job_type
or_any-handled [] job_type = any_handles job_type
or_any-handled (t ∷ ts) job_type = refl

blank_text : all_blank (split b',' "") ≡ true
unfolding all_blank split trim_space String-discrete
blank_text = refl

worker_topics-handled :
    (value job_type : String)
    → handled (worker_topics value) job_type
      ≡ (all_blank (split b',' value) || mentioned (split b',' value) job_type)
unfolding worker_topics
worker_topics-handled value job_type =
    let parts = split b',' value in
    let expected = all_blank parts || mentioned parts job_type in
    elim (String-discrete value "")
      as (λ d. handled (ite d ("*" ∷ []) (or_any (named_topics parts))) job_type ≡ expected) [
        | yes empty ↦
            any_handles job_type
            ∙ sym (
                ap (λ b. b || mentioned parts job_type)
                  (ap (λ v. all_blank (split b',' v)) empty ∙ blank_text))
        | no given ↦
            or_any-handled (named_topics parts) job_type
            ∙ ap (λ b. b || names (named_topics parts) job_type) (is_empty-named_topics parts)
            ∙ ap (λ b. all_blank parts || b) (names-named_topics parts job_type)
      ]

start-topics :
    (cfg : Config) (getenv : String → String) (node : WorkerNode)
    → start cfg getenv ≡ some node
    → node.topics ≡ worker_topics (getenv "QUORUM_WORKER_TOPICS")
unfolding start
start-topics cfg getenv node e = ground (
  arith,
  e,
  Option-cases (required_int (getenv "QUORUM_WORKER_ID") cfg.worker_id),
  Option-cases (required_int (getenv "QUORUM_WORKER_PORT") cfg.worker_grpc_port),
)

-- Once a worker node that starts has registered, the control node's broker lets it handle the jobs
-- whose type stands between commas in QUORUM_WORKER_TOPICS, spaces around it aside, and no others;
-- it lets it handle all jobs where a part that is not blank is a wildcard, or every part is blank.
pub configured-handles :
    (cfg : Config) (getenv : String → String) (node : WorkerNode) (id now : ℕ) (registered : Event)
    (s : WorkerServer) (job_type : String)
    → start cfg getenv ≡ some node
    → let request : RegisterWorkerRequest = record {
      worker_id = id;
      address = node.address;
      topics = node.topics;
    } in
      let parts = split b',' (getenv "QUORUM_WORKER_TOPICS") in
      can_handle (register_worker_node true now registered request s).0.manager.broker id job_type
      ≡ (all_blank parts || mentioned parts job_type)
unfolding register_worker_node register make_available
configured-handles cfg getenv node id now registered s job_type e =
    register_worker-handles id node.topics s.manager.broker job_type
    ∙ ap (λ ts. handled ts job_type) (start-topics cfg getenv node e)
    ∙ worker_topics-handled (getenv "QUORUM_WORKER_TOPICS") job_type
