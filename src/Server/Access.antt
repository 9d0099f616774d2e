-- ===== src/Server/Access.antt =====
-- Which requests the server of cmd/server/server.go lets change what, where authentication is on.
use job_manager_quorum.Common.{
  ℕ, ◌≡◌, refl, ap, ◌∙◌, sym, inl, inr, String, Bool, true, Bool-cases, some, List, [], ◌∷◌,
}
use job_manager_quorum.Common.Outcome.{Outcome, ok, panic, out_of_fuel}
use job_manager_quorum.Events.{Broadcaster, subscribe, unsubscribe}
use job_manager_quorum.Auth.{Claims, Codec, role_satisfies}
use job_manager_quorum.Auth.Signed.{IsSigned}
use job_manager_quorum.Middleware.{Request, Handler, bearer_token, require_roles}
use job_manager_quorum.Middleware
use job_manager_quorum.Middleware.Guarded.{
  Guarded, no_token, bad_token, forbidden, admitted, require_roles-Guarded,
}
use job_manager_quorum.Engine.{Engine}
use job_manager_quorum.Handlers.{
  Method, post, get, other_method, submit_job_handler, list_jobs_handler, get_job_handler,
  cancel_job_handler, create_cron_job_handler, list_cron_jobs_handler, delete_cron_job_handler,
}
use job_manager_quorum.Handlers
use job_manager_quorum.Handlers.Cluster.{
  Cluster, Page, status_handler, raft_status_handler, failover_simulate_handler, node_route_handler,
  nodes_handler, leases_handler, is_delete,
}
use job_manager_quorum.Server.{
  Route, ui_route, ui_files_route, root_route, jobs_route, job_route, cancel_job_route, cron_route,
  delete_cron_route, status_route, nodes_route, node_route, raft_route, failover_route,
  leases_route, metrics_route, events_route, Call, Surroundings, ServerHandler, on_engine,
  on_cluster, guard, serve_jobs, serve_cron, serve_node, stream_events, unsubscribed, serve,
}
use job_manager_quorum.Server.Kept.{
  submit_job_handler-cron_jobs, cancel_job_handler-cron_jobs, list_jobs_handler-engine,
  get_job_handler-engine, raft_status_handler-cluster, node_route_handler-cluster,
}

module _ (codec : Codec) (now : ℕ) (secret : String) where
  -- The header is `Bearer <token>` with a token that is signed under the secret, is not expired and
  -- names a user whose role is admin or one of the given ones.
  pub record IsAuthorized (roles : List String) (r : Request) : Type 0 where
    pub token : String
    pub claims : Claims
    pub given : bearer_token r.authorization ≡ some token
    pub signed : IsSigned codec now secret token claims
    pub may : role_satisfies claims.role roles ≡ true

  -- A guarded handler leaves the state as it was, or is authorized and does what the handler does.
  data Passed {S R : Type 0} (roles : List String) (next : Handler S R) (r : Request) (s : S)
      (out : S) : Type 0 where
    kept : out ≡ s → Passed roles next r s out
    passed : (r' : Request) → IsAuthorized roles r → out ≡ (next r' s).0 → Passed roles next r s out

  Passed-of_Guarded :
      {S R : Type 0} {roles : List String} {next : Handler S R} {r : Request} {s : S}
      {out : S × Middleware.Response R}
      → Guarded codec now secret roles next r s out
      → Passed roles next r s out.0
  Passed-of_Guarded (no_token h) = kept refl
  Passed-of_Guarded (bad_token h v) = kept refl
  Passed-of_Guarded (forbidden h v barred) = kept refl
  Passed-of_Guarded (admitted h v may) =
      passed _ (record { token = _; claims = _; given = h; signed = v; may = may }) refl

module _ (codec : Codec) (secret : String) {S : Type 0} (env : Surroundings S) where
  abbrev MayWrite : Request → Type 0
  MayWrite = IsAuthorized codec env.now secret ("submitter" ∷ "admin" ∷ [])

  abbrev MayManage : Request → Type 0
  MayManage = IsAuthorized codec env.now secret ("admin" ∷ [])

  -- What a request may have changed: of the engine and the manager nothing; or of the engine anything
  -- but the running recurring jobs, for a submitter or an admin; or anything, for an admin.
  pub data Access (r : Request) (c out : Cluster S) : Type 0 where
    read_only : out.engine ≡ c.engine → out.manager ≡ c.manager → Access r c out
    wrote_jobs :
        MayWrite r
        → out.engine.cron_jobs ≡ c.engine.cron_jobs
        → out.manager ≡ c.manager
        → Access r c out
    managed : MayManage r → Access r c out

  Guard-Passed :
      (roles : List String) (next : ServerHandler S) (r : Request) (c : Cluster S)
      → Passed codec env.now secret roles next r c (guard codec secret true env roles next r c).0
  unfolding guard
  Guard-Passed roles next r c =
      Passed-of_Guarded codec env.now secret
        (require_roles-Guarded codec env.now secret roles next r c)

  unsubscribed-parts :
      (c : Cluster S) (o : Outcome Broadcaster)
      → ((unsubscribed c o).engine ≡ c.engine) × ((unsubscribed c o).manager ≡ c.manager)
  unsubscribed-parts c (ok b) = (refl, refl)
  unsubscribed-parts c panic = (refl, refl)
  unsubscribed-parts c out_of_fuel = (refl, refl)

  unchanged : (r : Request) (c out : Cluster S) → out ≡ c → Access r c out
  unchanged r c out e = read_only (ap (λ x. x.engine) e) (ap (λ x. x.manager) e)

  abbrev readers : List String
  readers = "viewer" ∷ "submitter" ∷ "admin" ∷ []

  abbrev writers : List String
  writers = "submitter" ∷ "admin" ∷ []

  viewed_cluster :
      (f : Cluster S → Cluster S × Page) (r : Request) (c : Cluster S)
      → (f c).0 ≡ c
      → Access r c (guard codec secret true env readers (on_cluster f) r c).0
  viewed_cluster f r c h = elim (Guard-Passed readers (on_cluster f) r c) [
    | kept e ↦ unchanged r c _ e
    | passed r' a e ↦ unchanged r c _ (e ∙ h)
  ]

  viewed_engine :
      (f : Engine S → Engine S × Handlers.Response) (r : Request) (c : Cluster S)
      → (f c.engine).0 ≡ c.engine
      → Access r c (guard codec secret true env readers (on_engine f) r c).0
  viewed_engine f r c h = elim (Guard-Passed readers (on_engine f) r c) [
    | kept e ↦ unchanged r c _ e
    | passed r' a e ↦ unchanged r c _ (e ∙ ap (λ x. record c { engine = x }) h)
  ]

  written :
      (f : Engine S → Engine S × Handlers.Response) (r : Request) (c : Cluster S)
      → (f c.engine).0.cron_jobs ≡ c.engine.cron_jobs
      → Access r c (guard codec secret true env writers (on_engine f) r c).0
  written f r c h = elim (Guard-Passed writers (on_engine f) r c) [
    | kept e ↦ unchanged r c _ e
    | passed r' a e ↦ wrote_jobs a (ap (λ x. x.engine.cron_jobs) e ∙ h) (ap (λ x. x.manager) e)
  ]

  administered :
      (next : ServerHandler S) (r : Request) (c : Cluster S)
      → Access r c (guard codec secret true env ("admin" ∷ []) next r c).0
  administered next r c = elim (Guard-Passed ("admin" ∷ []) next r c) [
    | kept e ↦ unchanged r c _ e
    | passed r' a e ↦ managed a
  ]

  serve_jobs-Access :
      (method : Method) (call : Call) (r : Request) (c : Cluster S)
      → method ≡ call.method
      → Access r c (serve_jobs codec secret true env call r c).0
  unfolding serve_jobs
  serve_jobs-Access post call r c e =
      rw (sym e, serve_jobs)
        (written
          (submit_job_handler env.store env.raft env.parse_time env.now call.method call.job_body) r
          c
          (submit_job_handler-cron_jobs env.store env.raft env.parse_time env.now call.method
            call.job_body c.engine))
  serve_jobs-Access get call r c e =
      rw (sym e, serve_jobs)
        (viewed_engine (list_jobs_handler env.store env.raft call.method) r c
          (list_jobs_handler-engine env.store env.raft call.method c.engine))
  serve_jobs-Access (other_method _) call r c e = rw (sym e, serve_jobs) (read_only refl refl)

  serve_cron-Access :
      (method : Method) (call : Call) (r : Request) (c : Cluster S)
      → method ≡ call.method
      → Access r c (serve_cron codec secret true env call r c).0
  unfolding serve_cron list_cron_jobs_handler
  serve_cron-Access post call r c e =
      rw (sym e, serve_cron)
        (administered
          (on_engine
            (create_cron_job_handler env.store env.raft env.location env.now call.cron_body))
          r c)
  serve_cron-Access get call r c e =
      rw (sym e, serve_cron) (viewed_engine (list_cron_jobs_handler env.store env.raft) r c refl)
  serve_cron-Access (other_method _) call r c e = rw (sym e, serve_cron) (read_only refl refl)

  serve_node-Access :
      (call : Call) (r : Request) (c : Cluster S)
      → Access r c (serve_node codec secret true env call r c).0
  unfolding serve_node
  serve_node-Access call r c =
      let f = node_route_handler env.now call.method call.path in
      elim (Bool-cases (is_delete call.method)) [
        | inl d ↦ rw (d, serve_node) (administered (on_cluster f) r c)
        | inr n ↦
            rw (n, serve_node)
              (viewed_cluster f r c (node_route_handler-cluster env.now call.method call.path c n))
      ]

  -- With AuthEnabled, whatever pattern serves a request: the engine and the worker manager stay as they
  -- were, unless its header is `Bearer <token>` with a token that is signed under the secret, is not
  -- expired and names a user who is a submitter or an admin; for a submitter the manager and the
  -- running recurring jobs stay as they were all the same.
  pub serve-Access :
      (is_flusher : Bool) (route : Route) (call : Call) (r : Request) (c : Cluster S)
      → Access r c (serve codec secret true env is_flusher route call r c).0
  unfolding serve stream_events status_handler nodes_handler leases_handler
  serve-Access is_flusher ui_route call r c = read_only refl refl
  serve-Access is_flusher ui_files_route call r c = read_only refl refl
  serve-Access is_flusher root_route call r c = read_only refl refl
  serve-Access is_flusher jobs_route call r c = serve_jobs-Access call.method call r c refl
  serve-Access is_flusher (job_route id) call r c =
      viewed_engine (get_job_handler env.store env.raft id) r c
        (get_job_handler-engine env.store env.raft id c.engine)
  serve-Access is_flusher (cancel_job_route id) call r c =
      written (cancel_job_handler env.store env.raft id) r c
        (cancel_job_handler-cron_jobs env.store env.raft id c.engine)
  serve-Access is_flusher cron_route call r c = serve_cron-Access call.method call r c refl
  serve-Access is_flusher (delete_cron_route id) call r c =
      administered (on_engine (delete_cron_job_handler env.store env.raft id)) r c
  serve-Access is_flusher status_route call r c =
      viewed_cluster (status_handler env.store env.view call.method) r c refl
  serve-Access is_flusher nodes_route call r c = viewed_cluster (nodes_handler call.method) r c refl
  serve-Access is_flusher node_route call r c = serve_node-Access call r c
  serve-Access is_flusher raft_route call r c =
      viewed_cluster (raft_status_handler env.view env.node_id) r c
        (raft_status_handler-cluster env.view env.node_id c)
  serve-Access is_flusher failover_route call r c =
      administered (on_cluster (failover_simulate_handler env.failover_times)) r c
  serve-Access is_flusher leases_route call r c = viewed_cluster leases_handler r c refl
  serve-Access is_flusher metrics_route call r c = read_only refl refl
  serve-Access is_flusher events_route call r c = elim (Bool-cases is_flusher) [
    | inl f ↦ rw f (read_only refl refl)
    | inr n ↦
        let (b, ch) = subscribe c.events in
        let (e, m) = unsubscribed-parts (record c { events = b }) (unsubscribe ch b) in
        rw n (read_only e m)
  ]
