-- ===== src/Server/Tests.antt =====
-- The server at requests.
use job_manager_quorum.Common.{
  ℕ, ◌≡◌, refl, String-discrete, pos, true, false, none, some, [], ◌∷◌, lookup, ℕ-key,
}
use job_manager_quorum.Auth.{Codec, verify_token, verify_parts}
use job_manager_quorum.Store.Memory.{MemoryStore, memory_store, new_memory_store}
use job_manager_quorum.WorkerManager.{new_manager}
use job_manager_quorum.Events.{global_broadcaster}
use job_manager_quorum.Cron.{fixed_offset}
use job_manager_quorum.Handlers.{post, get, SubmitJobRequest}
use job_manager_quorum.Handlers.Cluster.{Cluster}
use job_manager_quorum.Middleware.{Request, auth_error, answer, authenticate, require_roles}
use job_manager_quorum.Server.{
  Call, Surroundings, jobs_route, failover_route, events_route, panicked, serve, handler,
  serve_jobs, guard,
}
use job_manager_quorum.Server.Access.{Access, serve-Access}
use job_manager_quorum.Server.Stream.{handler-panics}

-- Every signature is one byte, and every token names the same submitter.
abbrev lax : Codec
lax = record {
  sign_hs256 = λ message key. 7 ∷ [];
  encode = λ b. "";
  decode = λ s. some (7 ∷ []);
  marshal_header = λ h. none;
  marshal_claims = λ c. none;
  unmarshal_claims = λ b.
      some (record { user_id = "ann"; role = "submitter"; issued_at = pos 0; expires_at = pos 0 });
}

abbrev env : Surroundings MemoryStore
env = record {
  store = memory_store;
  raft = none;
  view = none;
  node_id = "node1";
  parse_time = λ s. none;
  location = fixed_offset 0;
  now = 0;
  failover_times = [];
}

abbrev cluster : Cluster MemoryStore
cluster = record {
  engine = record {
    scheduler = record {
      priority_queue = record { items = []; notify = false };
      delay_queue = record { items = []; notify = false };
      available = [];
      store = new_memory_store;
      dlq = [];
      broker = none;
      leases = [];
    };
    next_job_id = 0;
    cron_jobs = [];
  };
  manager = new_manager;
  events = global_broadcaster;
}

abbrev body : SubmitJobRequest
body = record { kind = "email"; priority = pos 5; run_at = ""; idempotency_key = "" }

abbrev call : Call
call = record { method = post; path = "/jobs"; job_body = some body; cron_body = none }

abbrev request : Request
request = record { authorization = "bearer h.c.s"; user_claims = none }

abbrev anonymous : Request
anonymous = record { authorization = ""; user_claims = none }

refuses :
    serve lax "key" true env true jobs_route call anonymous cluster
    ≡ (cluster, auth_error 401 "missing Authorization header")
unfolding serve serve_jobs guard require_roles authenticate String-discrete
refuses = refl

-- A submitter may not start the simulation.
forbids :
    (serve lax "key" true env true failover_route call request cluster).1
    ≡ auth_error 403 "insufficient permissions for this resource"
unfolding serve guard require_roles authenticate verify_token verify_parts String-discrete
forbids = refl

serve-Access_example :
    Access lax "key" env request cluster
      (serve lax "key" true env true jobs_route call request cluster).0
serve-Access_example = serve-Access lax "key" env true jobs_route call request cluster

handler-panics_example :
    let (c', response) =
      handler lax "key" true env "" "0a"
        (record { status_code = 0; is_flusher = true })
        events_route
        (record call { method = get; path = "/events" })
        anonymous
        cluster in
    (response ≡ answer panicked)
    × (c'.engine ≡ cluster.engine)
    × (c'.manager ≡ cluster.manager)
    × ((k : ℕ) → lookup k c'.events.subscribers ≡ lookup k cluster.events.subscribers)
unfolding global_broadcaster lookup
handler-panics_example =
    handler-panics lax "key" true env "" "0a" (record { status_code = 0; is_flusher = true })
      (record call { method = get; path = "/events" }) anonymous cluster refl refl
