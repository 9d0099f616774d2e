-- ===== src/Middleware/Wrapped.antt =====
-- internal/middleware/logging.go, tracing.go and requestid.go: what the outer handlers put around a
-- request. Log lines and spans are left out.
use job_manager_quorum.Common.{
  ℕ, String, String-discrete, ◌≡◌, refl, Bool, true, false, Option, none, some, ite,
}

-- A ResponseWriter by what its users ask of it: the status written last, and whether it has the
-- method Flush, which an interface that is embedded does not pass on.
pub record Writer : Type 0 where
  pub status_code : ℕ
  pub is_flusher : Bool

-- `&responseWriter{ResponseWriter: w, statusCode: http.StatusOK}`
unfoldable pub response_writer : Writer → Writer
response_writer w = record { status_code = 200; is_flusher = false }

unfoldable pub write_header : ℕ → Writer → Writer
write_header code w = record w { status_code = code }

-- The request's id: that of its header, or a generated one if it is empty.
unfoldable pub request_id : String → String → String
request_id header generated = ite (String-discrete header "") generated header

unfoldable pub request_id_from_context : Option String → String
request_id_from_context none = ""
request_id_from_context (some id) = id

-- Logging, Tracing and RequestID around a handler that takes the writer and the id of the request.
abbrev pub Wrapped : Type 0 → Type 0
Wrapped A = Writer → Option String → A

module _ {A : Type 0} where
  unfoldable pub logging : Wrapped A → Wrapped A
  unfolding response_writer
  logging next w id = next (response_writer w) id

  unfoldable pub tracing : Wrapped A → Wrapped A
  unfolding response_writer
  tracing next w id = next (response_writer w) id

  unfoldable pub with_request_id : String → String → Wrapped A → Wrapped A
  unfolding request_id
  with_request_id header generated next w id = next w (some (request_id header generated))

writes :
    (write_header 404 (response_writer (record { status_code = 0; is_flusher = true }))).status_code
    ≡ 404
unfolding write_header
writes = refl

generates : request_id "" "00ff" ≡ "00ff"
unfolding request_id String-discrete
generates = refl
