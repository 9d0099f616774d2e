-- ===== src/Server.antt =====
-- cmd/server/server.go: which handler serves a request, and behind which roles. The choice of a pattern
-- is net/http's: a `Route` is the pattern that ServeMux chose, with the id that it cut out of the path.
mod Kept
pub mod Access
pub mod Stream
mod Tests
use job_manager_quorum.Common.{
  ℕ, String, String-discrete, Bool, Option, none, List, [], ◌∷◌, ite, if◌then◌else◌,
}
use job_manager_quorum.Store.{Store}
use job_manager_quorum.Auth.{Codec}
use job_manager_quorum.Middleware.{Request, answer, require_roles}
use job_manager_quorum.Middleware
use job_manager_quorum.Common.Outcome.{Outcome, ok, panic}
use job_manager_quorum.Middleware.Wrapped.{Writer, logging, tracing, with_request_id}
use job_manager_quorum.Events.{Broadcaster, subscribe, unsubscribe}
use job_manager_quorum.Engine.{Engine, Propose}
use job_manager_quorum.Handlers.{
  Method, post, get, other_method, SubmitJobRequest, CreateCronJobRequest, submit_job_handler,
  list_jobs_handler, get_job_handler, cancel_job_handler, create_cron_job_handler,
  list_cron_jobs_handler, delete_cron_job_handler,
}
use job_manager_quorum.Handlers
use job_manager_quorum.Cron.{Location}
use job_manager_quorum.Handlers.Cluster.{
  Cluster, RaftView, Page, nodes_handler, status_handler, raft_status_handler, leases_handler,
  failover_simulate_handler, node_route_handler, is_delete,
}

pub data Route : Type 0 where
  ui_route ui_files_route root_route : Route
  jobs_route : Route
  job_route cancel_job_route : String → Route
  cron_route : Route
  delete_cron_route : String → Route
  status_route nodes_route node_route raft_route failover_route leases_route : Route
  metrics_route events_route : Route

-- What the handlers read of a request besides its header: encoding/json's reading of the body for
-- the two handlers that decode one.
pub record Call : Type 0 where
  pub method : Method
  pub path : String
  pub job_body : Option SubmitJobRequest
  pub cron_body : Option CreateCronJobRequest

pub data Reply : Type 0 where
  api : Handlers.Response → Reply
  page : Page → Reply
  redirect : ℕ → String → Reply
  plain_error : ℕ → String → Reply
  running static_file metrics panicked : Reply
  stream : ℕ → Reply  -- the channel of the events that follow

-- The server's surroundings: the store's implementation, the Raft node, and the clocks.
pub record Surroundings (S : Type 0) : Type 0 where
  pub store : Store S
  pub raft : Option (Propose S)
  pub view : Option RaftView
  pub node_id : String
  pub parse_time : String → Option ℕ
  pub location : Location
  pub now : ℕ
  pub failover_times : List ℕ

abbrev pub ServerHandler : Type 0 → Type 0
ServerHandler S = Middleware.Handler (Cluster S) Reply

module _ {S : Type 0} where
  -- A handler of the engine, and one of the cluster, as handlers of the server.
  abbrev pub on_engine : (Engine S → Engine S × Handlers.Response) → ServerHandler S
  on_engine f r c =
      let (e, response) = f c.engine in (record c { engine = e }, answer (api response))

  abbrev pub on_cluster : (Cluster S → Cluster S × Page) → ServerHandler S
  on_cluster f r c = let (c', p) = f c in (c', answer (page p))

  abbrev pub plain : Reply → ServerHandler S
  plain reply r c = (c, answer reply)

  abbrev pub unsubscribed : Cluster S → Outcome Broadcaster → Cluster S
  unsubscribed c (ok b) = record c { events = b }
  unsubscribed c _ = c

  -- HTTPHandler of the broadcaster: a new subscriber, whose channel the response streams. On a
  -- writer without Flush the handler panics behind the first event, and its deferred call
  -- unsubscribes.
  unfoldable pub stream_events : Bool → ServerHandler S
  unfolding subscribe unsubscribe
  stream_events is_flusher r c =
      let (b, ch) = subscribe c.events in
      if is_flusher
      then (record c { events = b }, answer (stream ch))
      else (unsubscribed (record c { events = b }) (unsubscribe ch b), answer panicked)

module _ (codec : Codec) (secret : String) (auth_enabled : Bool) {S : Type 0}
    (env : Surroundings S) where
  unfoldable pub guard : List String → ServerHandler S → ServerHandler S
  unfolding require_roles
  guard allowed_roles next =
      if auth_enabled then require_roles codec env.now secret allowed_roles next else next

  abbrev pub submitter : ServerHandler S → ServerHandler S
  submitter = guard ("submitter" ∷ "admin" ∷ [])

  abbrev pub viewer : ServerHandler S → ServerHandler S
  viewer = guard ("viewer" ∷ "submitter" ∷ "admin" ∷ [])

  abbrev pub admin : ServerHandler S → ServerHandler S
  admin = guard ("admin" ∷ [])

  unfoldable pub serve_jobs : Call → ServerHandler S
  unfolding guard submit_job_handler list_jobs_handler
  serve_jobs call = elim call.method [
    | post ↦ submitter (
        on_engine
          (submit_job_handler env.store env.raft env.parse_time env.now call.method call.job_body))
    | get ↦ viewer (on_engine (list_jobs_handler env.store env.raft call.method))
    | other_method _ ↦ plain (plain_error 405 "Method Not Allowed")
  ]

  unfoldable pub serve_cron : Call → ServerHandler S
  unfolding guard create_cron_job_handler list_cron_jobs_handler
  serve_cron call = elim call.method [
    | post ↦
        admin (
          on_engine
            (create_cron_job_handler env.store env.raft env.location env.now call.cron_body))
    | get ↦ viewer (on_engine (list_cron_jobs_handler env.store env.raft))
    | other_method _ ↦ plain (plain_error 405 "Method Not Allowed")
  ]

  unfoldable pub serve_node : Call → ServerHandler S
  unfolding guard node_route_handler is_delete
  serve_node call =
      let handler = on_cluster (node_route_handler env.now call.method call.path) in
      if is_delete call.method then admin handler else viewer handler

  unfoldable pub serve_root : Call → ServerHandler S
  serve_root call = plain (ite (String-discrete call.path "/") (redirect 302 "/ui/") running)

  unfoldable pub serve : Bool → Route → Call → ServerHandler S
  unfolding guard serve_jobs serve_cron serve_node serve_root stream_events get_job_handler
      cancel_job_handler delete_cron_job_handler nodes_handler status_handler raft_status_handler
      leases_handler failover_simulate_handler
  serve is_flusher ui_route call = plain (redirect 301 "/ui/")
  serve is_flusher ui_files_route call = plain static_file
  serve is_flusher root_route call = serve_root call
  serve is_flusher jobs_route call = serve_jobs call
  serve is_flusher (job_route id) call = viewer (on_engine (get_job_handler env.store env.raft id))
  serve is_flusher (cancel_job_route id) call =
      submitter (on_engine (cancel_job_handler env.store env.raft id))
  serve is_flusher cron_route call = serve_cron call
  serve is_flusher (delete_cron_route id) call =
      admin (on_engine (delete_cron_job_handler env.store env.raft id))
  serve is_flusher status_route call =
      viewer (on_cluster (status_handler env.store env.view call.method))
  serve is_flusher nodes_route call = viewer (on_cluster (nodes_handler call.method))
  serve is_flusher node_route call = serve_node call
  serve is_flusher raft_route call = viewer (on_cluster (raft_status_handler env.view env.node_id))
  serve is_flusher failover_route call =
      admin (on_cluster (failover_simulate_handler env.failover_times))
  serve is_flusher leases_route call = viewer (on_cluster leases_handler)
  serve is_flusher metrics_route call = plain metrics
  serve is_flusher events_route call = stream_events is_flusher

  -- The server's handler, on the writer of net/http: the mux behind the three outer handlers.
  unfoldable pub handler : String → String → Writer → Route → Call → ServerHandler S
  unfolding serve logging tracing with_request_id
  handler header generated w route call =
      with_request_id header generated (tracing (logging (λ w id. serve w.is_flusher route call))) w
        none
