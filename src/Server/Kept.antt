-- ===== src/Server/Kept.antt =====
-- What the handlers of internal/handlers/jobs.go, cron.go, cancel.go and cluster.go leave as it was.
use job_manager_quorum.Common.{
  ℕ, suc, ◌≡◌, refl, ◌∙◌, inl, inr, String, String-discrete, ℤ, pos, negsuc, Bool, true, false,
  Bool-cases, Option, none, some, Option-cases, ite, ltb, ltℤ,
}
use job_manager_quorum.Common.Numerals.{atoi}
use job_manager_quorum.Common.Text.{trim_space}
use job_manager_quorum.Job.{Job, new_job, scheduled}
use job_manager_quorum.Scheduler.{Scheduler, enqueue_priority, enqueue_delay}
use job_manager_quorum.Store.{Store, StoreError}
use job_manager_quorum.Engine.{
  Engine, Propose, submitted, submit, submit_job, submit_job_at, submit_job_idempotent,
  cancel_job_by_id, with_next_id,
}
use job_manager_quorum.Consensus.{zero_command, add_job}
use job_manager_quorum.Handlers.{
  Method, post, get, other_method, SubmitJobRequest, is_blank, submitted_response,
  scheduled_response, cancelled_response, submit_at, submit_decoded, submit_job_handler,
  list_jobs_handler, get_job_handler, cancel_job_handler,
}
use job_manager_quorum.Handlers.Cluster.{
  Cluster, RaftView, raft_status_handler, node_route_handler, node_id_text, is_delete,
  nodes_handler,
}

ite_case : {X A : Type 0} (P : A → Type 0) (d : Dec X) {a b : A} → P a → P b → P (ite d a b)
ite_case P (yes x) p q = p
ite_case P (no n) p q = q

module _ {S : Type 0} (st : Store S) (raft : Option (Propose S)) where
  submitted-cron_jobs :
      (queue : ℕ → Scheduler S → Scheduler S) (j : Job) (e : Engine S) (r : S × Option StoreError)
      → (submitted st queue j e r).0.cron_jobs ≡ e.cron_jobs
  unfolding submitted
  submitted-cron_jobs queue j e (s, none) = refl
  submitted-cron_jobs queue j e (s, some err) = refl

  submit-cron_jobs :
      (queue : ℕ → Scheduler S → Scheduler S) (j : Job) (e : Engine S)
      → (submit st raft queue j e).0.cron_jobs ≡ e.cron_jobs
  unfolding submit
  submit-cron_jobs queue j e = elim (Option-cases raft) [
    | inl n ↦ rw n (submitted-cron_jobs queue j e _)
    | inr (propose, p) ↦ rw p (
        submitted-cron_jobs (λ id s. s) j e
          (propose (record zero_command { type = add_job; job = j }) e.scheduler.store))
  ]

  idempotent-cron_jobs :
      (key kind : String) (priority : ℤ) (e : Engine S)
      → (submit_job_idempotent st raft key kind priority e).0.cron_jobs ≡ e.cron_jobs
  unfolding submit_job_idempotent submit_job
  idempotent-cron_jobs key kind priority e =
      let fresh = new_job (suc e.next_job_id) kind priority in
      ite_case (λ (o : Engine S × Job × Bool × Option StoreError). o.0.cron_jobs ≡ e.cron_jobs)
        (String-discrete key "") (submit-cron_jobs (enqueue_priority st) fresh (with_next_id e))
        (elim (Option-cases (st.find_by_idempotency_key key e.scheduler.store)) [
          | inl n ↦ rw n (
              submit-cron_jobs (enqueue_priority st) (record fresh { idempotency_key = key })
                (with_next_id e))
          | inr (existing, f) ↦ rw f refl
        ])

  submitted_response-cron_jobs :
      (o : Engine S × Job × Bool × Option StoreError)
      → (submitted_response st raft o).0.cron_jobs ≡ o.0.cron_jobs
  submitted_response-cron_jobs (e, j, b, some err) = refl
  submitted_response-cron_jobs (e, j, true, none) = refl
  submitted_response-cron_jobs (e, j, false, none) = refl

  scheduled_response-cron_jobs :
      (o : Engine S × Job × Option StoreError)
      → (scheduled_response st raft o).0.cron_jobs ≡ o.0.cron_jobs
  scheduled_response-cron_jobs (e, j, some err) = refl
  scheduled_response-cron_jobs (e, j, none) = refl

  submit_job_at-cron_jobs :
      (kind : String) (priority : ℤ) (run_at : ℕ) (e : Engine S)
      → (submit_job_at st raft kind priority run_at e).0.cron_jobs ≡ e.cron_jobs
  unfolding submit_job_at
  submit_job_at-cron_jobs kind priority run_at e =
      submit-cron_jobs (enqueue_delay st)
        (record (new_job (suc e.next_job_id) kind priority) {
          status = scheduled;
          next_run_at = run_at;
        })
        (with_next_id e)

  submit_at-cron_jobs :
      (parse_time : String → Option ℕ) (now : ℕ) (req : SubmitJobRequest) (e : Engine S)
      → (submit_at st raft parse_time now req e).0.cron_jobs ≡ e.cron_jobs
  unfolding submit_at
  submit_at-cron_jobs parse_time now req e = elim (Option-cases (parse_time req.run_at)) [
    | inl n ↦ rw (n, submit_at) refl
    | inr (run_at, p) ↦ elim (Bool-cases (ltb now run_at)) [
      | inl later ↦
          rw (p, later, submit_at)
            (scheduled_response-cron_jobs (submit_job_at st raft req.kind req.priority run_at e)
              ∙ submit_job_at-cron_jobs req.kind req.priority run_at e)
      | inr past ↦ rw (p, past, submit_at) refl
    ]
  ]

  submit_decoded-cron_jobs :
      (parse_time : String → Option ℕ) (now : ℕ) (req : SubmitJobRequest) (e : Engine S)
      → (submit_decoded st raft parse_time now req e).0.cron_jobs ≡ e.cron_jobs
  unfolding submit_decoded submit_at
  submit_decoded-cron_jobs parse_time now req e = elim (Bool-cases (is_blank req.kind)) [
    | inl b ↦ rw b refl
    | inr nb ↦ elim (Bool-cases (ltℤ req.priority (pos 0))) [
      | inl neg ↦ rw (nb, neg) refl
      | inr ok ↦ elim (Bool-cases (is_blank (trim_space req.run_at))) [
        | inl at_once ↦
            rw (nb, ok, at_once)
              (submitted_response-cron_jobs
                  (submit_job_idempotent st raft req.idempotency_key req.kind req.priority e)
                ∙ idempotent-cron_jobs req.idempotency_key req.kind req.priority e)
        | inr later ↦ rw (nb, ok, later) (submit_at-cron_jobs parse_time now req e)
      ]
    ]
  ]

  -- Submitting a job starts and stops no recurring job.
  pub submit_job_handler-cron_jobs :
      (parse_time : String → Option ℕ) (now : ℕ) (method : Method) (body : Option SubmitJobRequest)
      (e : Engine S)
      → (submit_job_handler st raft parse_time now method body e).0.cron_jobs ≡ e.cron_jobs
  unfolding submit_job_handler
  submit_job_handler-cron_jobs parse_time now post none e = refl
  submit_job_handler-cron_jobs parse_time now post (some req) e =
      submit_decoded-cron_jobs parse_time now req e
  submit_job_handler-cron_jobs parse_time now get body e = refl
  submit_job_handler-cron_jobs parse_time now (other_method _) body e = refl

  cancelled_response-cron_jobs :
      (o : Engine S × Option StoreError)
      → (cancelled_response st raft o).0.cron_jobs ≡ o.0.cron_jobs
  cancelled_response-cron_jobs (e, some err) = refl
  cancelled_response-cron_jobs (e, none) = refl

  -- Nor does a cancellation.
  pub cancel_job_handler-cron_jobs :
      (id : String) (e : Engine S) → (cancel_job_handler st raft id e).0.cron_jobs ≡ e.cron_jobs
  unfolding cancel_job_handler cancel_job_by_id
  cancel_job_handler-cron_jobs id e = elim (Option-cases (atoi id)) [
    | inl n ↦ rw (n, cancel_job_handler) refl
    | inr (pos k, p) ↦
        rw (p, cancel_job_handler) (cancelled_response-cron_jobs (cancel_job_by_id st raft k e))
    | inr (negsuc k, p) ↦ rw (p, cancel_job_handler) refl
  ]

  -- Reading jobs changes nothing.
  pub list_jobs_handler-engine :
      (method : Method) (e : Engine S) → (list_jobs_handler st raft method e).0 ≡ e
  unfolding list_jobs_handler
  list_jobs_handler-engine post e = refl
  list_jobs_handler-engine get e = refl
  list_jobs_handler-engine (other_method _) e = refl

  pub get_job_handler-engine : (id : String) (e : Engine S) → (get_job_handler st raft id e).0 ≡ e
  unfolding get_job_handler
  get_job_handler-engine id e = elim (Option-cases (atoi id)) [
    | inl n ↦ rw (n, get_job_handler) refl
    | inr (pos k, p) ↦ rw (p, get_job_handler) refl
    | inr (negsuc k, p) ↦ rw (p, get_job_handler) refl
  ]

module _ {S : Type 0} where
  pub raft_status_handler-cluster :
      (view : Option RaftView) (id : String) (c : Cluster S) → (raft_status_handler view id c).0 ≡ c
  unfolding raft_status_handler
  raft_status_handler-cluster none id c = refl
  raft_status_handler-cluster (some v) id c = refl

  -- Without the method DELETE the pages on nodes evict none.
  pub node_route_handler-cluster :
      (now : ℕ) (method : Method) (path : String) (c : Cluster S)
      → is_delete method ≡ false
      → (node_route_handler now method path c).0 ≡ c
  unfolding node_route_handler nodes_handler
  node_route_handler-cluster now method path c h =
      elim (Bool-cases (is_blank (node_id_text path))) [
        | inl all ↦ rw all refl
        | inr one ↦ elim (Option-cases (atoi (node_id_text path))) [
          | inl n ↦ rw (one, n) refl
          | inr (id, p) ↦ rw (one, p, h) refl
        ]
      ]
