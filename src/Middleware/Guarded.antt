-- ===== src/Middleware/Guarded.antt =====
-- Which requests RequireRoles of internal/middleware/auth.go lets through to its handler.
use job_manager_quorum.Common.{
  ℕ, ◌≡◌, ◌≢◌, refl, ap, ◌∙◌, String, String-discrete, true, false, Option, none, some, List,
  if_pos, arith, if_neg, inl, inr, ◌⊎◌, Bool-cases,
}
use job_manager_quorum.Auth.{AuthError, Claims, Codec, role_satisfies, verify_token}
use job_manager_quorum.Auth.Signed.{IsSigned, IsSigned-of_verified, verified_of-IsSigned}
use job_manager_quorum.Middleware.{
  Request, Response, auth_error, Handler, user_from_context, bearer_token, refusal, malformed,
  authenticate, check_role, require_roles,
}

no_header : bearer_token "" ≡ none
unfolding bearer_token
no_header = refl

module _ (codec : Codec) (now : ℕ) (secret : String) {S R : Type 0} where
  -- How a guarded handler ends: with an answer 401 or 403 that leaves the state as it was, or in the
  -- handler, with the claims of a signed token in the request's context.
  pub data Guarded (roles : List String) (next : Handler S R) (r : Request) (s : S)
      : S × Response R → Type 0 where
    no_token :
        {message : String}
        → bearer_token r.authorization ≡ none
        → Guarded roles next r s (s, auth_error 401 message)
    bad_token :
        {message token : String}
        → bearer_token r.authorization ≡ some token
        → (secret ≢ "" → (c : Claims) → ¬ IsSigned codec now secret token c)
        → Guarded roles next r s (s, auth_error 401 message)
    forbidden :
        {message token : String} {c : Claims}
        → bearer_token r.authorization ≡ some token
        → IsSigned codec now secret token c
        → role_satisfies c.role roles ≡ false
        → Guarded roles next r s (s, auth_error 403 message)
    admitted :
        {token : String} {c : Claims}
        → bearer_token r.authorization ≡ some token
        → IsSigned codec now secret token c
        → role_satisfies c.role roles ≡ true
        → Guarded roles next r s (next (record r { user_claims = some c }) s)

  after_role :
      (roles : List String) (next : Handler S R) (r : Request) (s : S) (token : String) (c : Claims)
      → bearer_token r.authorization ≡ some token
      → IsSigned codec now secret token c
      → Guarded roles next r s
          (check_role codec now secret roles next (record r { user_claims = some c }) s)
  unfolding user_from_context
  after_role roles next r s token c h v = elim (Bool-cases (role_satisfies c.role roles)) [
    | inl may ↦ rw may (admitted h v may)
    | inr barred ↦ rw barred (forbidden h v barred)
  ]

  after_token :
      (roles : List String) (next : Handler S R) (r : Request) (s : S) (token : String)
      (v : AuthError ⊎ Claims)
      → bearer_token r.authorization ≡ some token
      → verify_token codec now secret token ≡ v
      → Guarded roles next r s (elim v [
        | inl e ↦ (s, auth_error 401 (refusal e))
        | inr claims ↦
            check_role codec now secret roles next (record r { user_claims = some claims }) s
      ])
  after_token roles next r s token (inl e) h v = bad_token h (λ given c signed.
      absurd (ground (arith, v, verified_of-IsSigned codec now secret token c given signed)))
  after_token roles next r s token (inr c) h v =
      after_role roles next r s token c h (IsSigned-of_verified codec now secret token c v)

  after_bearer :
      (roles : List String) (next : Handler S R) (r : Request) (s : S) (o : Option String)
      → bearer_token r.authorization ≡ o
      → Guarded roles next r s (elim o [
        | none ↦ (s, auth_error 401 malformed)
        | some token ↦ elim (verify_token codec now secret token) [
          | inl e ↦ (s, auth_error 401 (refusal e))
          | inr claims ↦
              check_role codec now secret roles next (record r { user_claims = some claims }) s
        ]
      ])
  after_bearer roles next r s none h = no_token h
  after_bearer roles next r s (some token) h =
      after_token roles next r s token (verify_token codec now secret token) h refl

  -- Under a secret that is not empty, a handler behind RequireRoles runs exactly for a request with a
  -- bearer token in its header that is signed under the secret, is not expired and names a user whose
  -- role is admin or one of the given ones; it runs with the token's claims in the request's context.
  -- Any other request is answered with 401, or with 403 where only the role is missing, and changes
  -- nothing.
  pub require_roles-Guarded :
      (roles : List String) (next : Handler S R) (r : Request) (s : S)
      → Guarded roles next r s (require_roles codec now secret roles next r s)
  unfolding require_roles authenticate
  require_roles-Guarded roles next r s = elim (String-discrete r.authorization "") [
    | yes empty ↦
        rw (if_pos (String-discrete r.authorization "") empty _ _)
          (no_token (ap bearer_token empty ∙ no_header))
    | no given ↦
        rw (if_neg (String-discrete r.authorization "") given _ _)
          (after_bearer roles next r s (bearer_token r.authorization) refl)
  ]
