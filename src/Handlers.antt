-- ===== src/Handlers.antt =====
-- internal/handlers/jobs.go, cron.go and cancel.go: the HTTP handlers on jobs and recurring jobs. What
-- encoding/json makes of a request's body is an argument, and so is what time.Parse makes of a text.
pub mod Cluster
pub mod Submission
mod Tests
use job_manager_quorum.Common.{
  ℕ, String, String-discrete, ℤ, pos, negsuc, ltℤ, Bool, true, false, Option, none, some, List, ite,
  ltb, if◌then◌else◌,
}
use job_manager_quorum.Common.Numerals.{atoi}
use job_manager_quorum.Common.Text.{trim_space}
use job_manager_quorum.Job.{Job}
use job_manager_quorum.Cron.{Location, CronJob}
use job_manager_quorum.Store.{Store, StoreError, job_not_found}
use job_manager_quorum.Engine.{
  Engine, Propose, submit_job_at, submit_job_idempotent, jobs, job, cancel_job_by_id,
}
use job_manager_quorum.Engine.Crons.{
  CronError, add_cron_job_to, remove_cron_job, list_cron_jobs, cron_job,
}

pub record SubmitJobRequest : Type 0 where
  pub kind : String  -- the field `Type`
  pub priority : ℤ
  pub run_at : String
  pub idempotency_key : String

pub record CreateCronJobRequest : Type 0 where
  pub id : String
  pub schedule : String
  pub kind : String
  pub priority : ℤ

pub data Method : Type 0 where
  post get : Method
  other_method : String → Method

-- What is written as a response's body; the error texts of the engine are their errors.
pub data Body : Type 0 where
  message : String → Body
  cron_failure : CronError → Body
  cancel_failure : StoreError → Body
  job_submitted : ℕ → String → Body  -- the id, and the key if it is not empty
  job_scheduled : ℕ → ℕ → Body  -- the id and `run_at`
  job_list : List Job → Body
  one_job : Job → Body
  cron_created : String → Body
  cron_removed : String → Body
  cron_list : List CronJob → Body
  cancelled : Body

pub record Response : Type 0 where
  pub status : ℕ
  pub body : Body

abbrev pub respond : ℕ → Body → Response
respond status body = record { status = status; body = body }

abbrev pub refuse : ℕ → String → Response
refuse status text = respond status (message text)

abbrev pub is_blank : String → Bool
is_blank text = ite (String-discrete text "") true false

module _ {S : Type 0} (st : Store S) (raft : Option (Propose S)) where
  abbrev pub scheduled_response : Engine S × Job × Option StoreError → Engine S × Response
  scheduled_response (e, j, some err) = (e, refuse 500 "Failed to submit job")
  scheduled_response (e, j, none) = (e, respond 201 (job_scheduled j.id j.next_run_at))

  abbrev pub submitted_response : Engine S × Job × Bool × Option StoreError → Engine S × Response
  submitted_response (e, j, was_duplicate, some err) = (e, refuse 500 "Failed to submit job")
  submitted_response (e, j, true, none) = (e, respond 200 (job_submitted j.id j.idempotency_key))
  submitted_response (e, j, false, none) = (e, respond 201 (job_submitted j.id j.idempotency_key))

  -- The branch of a request with `run_at`.
  unfoldable pub submit_at :
      (String → Option ℕ) → ℕ → SubmitJobRequest → Engine S → Engine S × Response
  unfolding submit_job_at
  submit_at parse_time now req e = elim (parse_time req.run_at) [
    | none ↦ (e, refuse 400 "run_at must be RFC3339")
    | some run_at ↦
        if ltb now run_at
        then scheduled_response (submit_job_at st raft req.kind req.priority run_at e)
        else (e, refuse 400 "run_at must be in the future")
  ]

  unfoldable pub submit_decoded :
      (String → Option ℕ) → ℕ → SubmitJobRequest → Engine S → Engine S × Response
  unfolding submit_at submit_job_idempotent trim_space
  submit_decoded parse_time now req e =
      if is_blank req.kind
      then (e, refuse 400 "type is required")
      else if ltℤ req.priority (pos 0)
      then (e, refuse 400 "priority must be >= 0")
      else if is_blank (trim_space req.run_at)
      then submitted_response
          (submit_job_idempotent st raft req.idempotency_key req.kind req.priority e)
      else submit_at parse_time now req e

  unfoldable pub submit_job_handler :
      (String → Option ℕ) → ℕ → Method → Option SubmitJobRequest → Engine S → Engine S × Response
  unfolding submit_decoded
  submit_job_handler parse_time now method decoded e = elim method [
    | post ↦ elim decoded [
      | none ↦ (e, refuse 400 "Invalid JSON")
      | some req ↦ submit_decoded parse_time now req e
    ]
    | get ↦ (e, refuse 405 "Method Not Allowed")
    | other_method _ ↦ (e, refuse 405 "Method Not Allowed")
  ]

  unfoldable pub list_jobs_handler : Method → Engine S → Engine S × Response
  unfolding jobs
  list_jobs_handler method e = elim method [
    | get ↦ (e, respond 200 (job_list (jobs st e)))
    | post ↦ (e, refuse 405 "Method Not Allowed")
    | other_method _ ↦ (e, refuse 405 "Method Not Allowed")
  ]

  unfoldable pub jobs_handler :
      (String → Option ℕ) → ℕ → Method → Option SubmitJobRequest → Engine S → Engine S × Response
  unfolding submit_job_handler list_jobs_handler
  jobs_handler parse_time now method decoded e = elim method [
    | post ↦ submit_job_handler parse_time now post decoded e
    | get ↦ list_jobs_handler get e
    | other_method _ ↦ (e, refuse 405 "Method Not Allowed")
  ]

  abbrev found_response : Option Job → Response
  found_response none = refuse 404 "Job not found"
  found_response (some j) = respond 200 (one_job j)

  -- No job has a negative id.
  unfoldable pub get_job_handler : String → Engine S → Engine S × Response
  unfolding job atoi
  get_job_handler id_text e = elim (atoi id_text) [
    | none ↦ (e, refuse 400 "Invalid job ID")
    | some (pos id) ↦ (e, found_response (job st id e))
    | some (negsuc _) ↦ (e, refuse 404 "Job not found")
  ]

  abbrev pub cancelled_response : Engine S × Option StoreError → Engine S × Response
  cancelled_response (e, some err) = (e, respond 409 (cancel_failure err))
  cancelled_response (e, none) = (e, respond 200 cancelled)

  -- No job has a negative id: its cancellation fails.
  unfoldable pub cancel_job_handler : String → Engine S → Engine S × Response
  unfolding cancel_job_by_id atoi
  cancel_job_handler id_text e = elim (atoi id_text) [
    | none ↦ (e, refuse 400 "invalid job id")
    | some (pos id) ↦ cancelled_response (cancel_job_by_id st raft id e)
    | some (negsuc _) ↦ (e, respond 409 (cancel_failure job_not_found))
  ]

  abbrev created_response : String → Engine S × Option CronError → Engine S × Response
  created_response id (e, some err) = (e, respond 400 (cron_failure err))
  created_response id (e, none) = (e, respond 201 (cron_created id))

  unfoldable pub create_cron_job_handler :
      Location → ℕ → Option CreateCronJobRequest → Engine S → Engine S × Response
  unfolding add_cron_job_to trim_space
  create_cron_job_handler location now decoded e = elim decoded [
    | none ↦ (e, refuse 400 "Invalid JSON")
    | some req ↦
        let id = trim_space req.id in
        let schedule = trim_space req.schedule in
        let kind = trim_space req.kind in
        if is_blank id
        then (e, refuse 400 "id is required")
        else if is_blank schedule
        then (e, refuse 400 "schedule is required")
        else if is_blank kind
        then (e, refuse 400 "type is required")
        else if ltℤ req.priority (pos 0)
        then (e, refuse 400 "priority must be >= 0")
        else created_response id
            (add_cron_job_to st raft location now (cron_job id schedule kind req.priority) e)
  ]

  unfoldable pub list_cron_jobs_handler : Engine S → Engine S × Response
  unfolding list_cron_jobs
  list_cron_jobs_handler e = (e, respond 200 (cron_list (list_cron_jobs st e)))

  unfoldable pub delete_cron_job_handler : String → Engine S → Engine S × Response
  unfolding remove_cron_job trim_space
  delete_cron_job_handler id_text e =
      let id = trim_space id_text in
      if is_blank id
      then (e, refuse 400 "id is required")
      else (remove_cron_job st raft id e, respond 200 (cron_removed id))
