-- ===== src/Middleware/Tests.antt =====
-- A guarded handler at a request.
use job_manager_quorum.Common.{ℕ, suc, String-discrete, ◌≡◌, refl, pos, none, some, [], ◌∷◌}
use job_manager_quorum.Auth.{Codec, verify_token, verify_parts}
use job_manager_quorum.Middleware.{Request, Response, answer, require_roles, require_submitter}
use job_manager_quorum.Middleware.Guarded.{Guarded, require_roles-Guarded}

-- Every signature is one byte, and every token names the same user.
abbrev lax : Codec
lax = record {
  sign_hs256 = λ message key. 7 ∷ [];
  encode = λ b. "";
  decode = λ s. some (7 ∷ []);
  marshal_header = λ h. none;
  marshal_claims = λ c. none;
  unmarshal_claims = λ b.
      some (record { user_id = "ann"; role = "submitter"; issued_at = pos 0; expires_at = pos 0 });
}

abbrev request : Request
request = record { authorization = "bearer h.c.s"; user_claims = none }

-- The state counts the calls.
abbrev count_up : Request → ℕ → ℕ × Response ℕ
count_up r n = (suc n, answer n)

lets_in : (require_submitter lax 0 "key" count_up request 3).0 ≡ 4
unfolding require_submitter require_roles String-discrete verify_token verify_parts
lets_in = refl

require_roles-Guarded_example :
    Guarded lax 0 "key"
      ("submitter" ∷ [])
      count_up
      request
      3
      (require_roles lax 0 "key" ("submitter" ∷ []) count_up request 3)
require_roles-Guarded_example =
    require_roles-Guarded lax 0 "key" ("submitter" ∷ []) count_up request 3
