-- ===== src/Middleware.antt =====
-- internal/middleware/auth.go: the handlers of internal/handlers behind the check of a token. A
-- handler takes the request and the server's state to the new state and its answer; the parts of a
-- request that the check does not read are the handler's own.
pub mod Guarded
pub mod Wrapped
mod Tests
use Prim.Native.Char.{Char, code}
use job_manager_quorum.Common.{
  ℕ, String, String-discrete, Bool, true, false, Option, none, some, List, [], ◌∷◌, ite, inl, inr,
  if◌then◌else◌,
}
use job_manager_quorum.Common.Text.{trim_space}
use job_manager_quorum.Common.Split.{split_once, equal_fold}
use job_manager_quorum.Auth.{AuthError, expired_token, Claims, Codec, role_satisfies, verify_token}

-- A header that is missing is the empty text; `user_claims` is the value of the request's context.
pub record Request : Type 0 where
  pub authorization : String
  pub user_claims : Option Claims

-- An answer with status and message, or any other answer of a handler.
pub data Response (R : Type 0) : Type 0 where
  auth_error : ℕ → String → Response R
  answer : R → Response R

abbrev pub Handler : Type 0 → Type 0 → Type 0
Handler S R = Request → S → S × Response R

unfoldable pub user_from_context : Request → Option Claims
user_from_context r = r.user_claims

unfoldable pub user_id_from_context : Request → String
unfolding user_from_context
user_id_from_context r = elim (user_from_context r) [ none ↦ "" | some c ↦ c.user_id ]

unfoldable pub role_from_context : Request → String
unfolding user_from_context
role_from_context r = elim (user_from_context r) [ none ↦ "" | some c ↦ c.role ]

abbrev space : Char
space = " "

-- The token of a header of the form `Bearer <token>`.
unfoldable pub bearer_token : String → Option String
unfolding split_once equal_fold trim_space
bearer_token header = elim (split_once (code space) header) [
  | none ↦ none
  | some p ↦ if equal_fold p.0 "Bearer" then some (trim_space p.1) else none
]

abbrev pub refusal : AuthError → String
refusal expired_token = "token has expired"
refusal _ = "invalid or malformed token"

abbrev pub malformed : String
malformed = "invalid Authorization header format, expected 'Bearer <token>'"

module _ (codec : Codec) (now : ℕ) (secret : String) {S R : Type 0} where
  unfoldable pub authenticate : Handler S R → Handler S R
  unfolding bearer_token
  authenticate next r s =
      ite (String-discrete r.authorization "") (s, auth_error 401 "missing Authorization header")
        (elim (bearer_token r.authorization) [
          | none ↦ (s, auth_error 401 malformed)
          | some token ↦ elim (verify_token codec now secret token) [
            | inl e ↦ (s, auth_error 401 (refusal e))
            | inr claims ↦ next (record r { user_claims = some claims }) s
          ]
        ])

  abbrev pub check_role : List String → Handler S R → Handler S R
  check_role allowed_roles next r s = elim (user_from_context r) [
    | none ↦ (s, auth_error 403 "insufficient permissions for this resource")
    | some claims ↦
        if role_satisfies claims.role allowed_roles
        then next r s
        else (s, auth_error 403 "insufficient permissions for this resource")
  ]

  unfoldable pub require_roles : List String → Handler S R → Handler S R
  unfolding authenticate user_from_context role_satisfies
  require_roles allowed_roles next = authenticate (check_role allowed_roles next)

  unfoldable pub require_admin : Handler S R → Handler S R
  require_admin = require_roles ("admin" ∷ [])

  unfoldable pub require_submitter : Handler S R → Handler S R
  require_submitter = require_roles ("submitter" ∷ "admin" ∷ [])

  unfoldable pub require_viewer : Handler S R → Handler S R
  require_viewer = require_roles ("viewer" ∷ "submitter" ∷ "admin" ∷ [])
