-- ===== src/Auth.antt =====
-- internal/auth/jwt.go: signed tokens and the roles of users. The crypto, base64 and JSON packages
-- are parameters. A time is the number of nanoseconds since Go's zero time.
pub mod Tokens
pub mod Signed
mod Tests
use Prim.Native.Char.{Char, code}
use Prim.Native.String
use job_manager_quorum.Common.{
  ℕ, suc, ◌+◌, ◌-◌, ◌/◌, String, String-discrete, ℤ, pos, negsuc, ltℤ, Bool, true, false, Option,
  none, some, List, [], ◌∷◌, ◌&&◌, ◌||◌, ◌⊎◌, inl, inr, ite, ◌==◌, ltb, if◌then◌else◌,
}
use job_manager_quorum.Common.Split.{split}

abbrev pub Bytes : Type 0
Bytes = List ℕ

pub data AuthError : Type 0 where
  invalid_token expired_token invalid_role empty_secret marshal_failed : AuthError

pub record Claims : Type 0 where
  pub user_id : String
  pub role : String
  pub issued_at : ℤ
  pub expires_at : ℤ

pub record Header : Type 0 where
  pub alg : String
  pub typ : String

abbrev pub text_eq : String → String → Bool
text_eq s t = ite (String-discrete s t) true false

unfoldable pub is_valid_role : String → Bool
is_valid_role role = text_eq role "admin" || text_eq role "submitter" || text_eq role "viewer"

any_equal : String → List String → Bool
any_equal role [] = false
any_equal role (allowed ∷ rest) = text_eq role allowed || any_equal role rest

unfoldable pub role_satisfies : String → List String → Bool
unfolding any_equal
role_satisfies user_role allowed_roles =
    if text_eq user_role "admin" then true else any_equal user_role allowed_roles

-- `hmac.Equal`
unfoldable pub equal : Bytes → Bytes → Bool
equal [] [] = true
equal [] (y ∷ ys) = false
equal (x ∷ xs) [] = false
equal (x ∷ xs) (y ∷ ys) = x == y && equal xs ys

-- `t.Add(d)`, for times that are not before Go's zero time.
abbrev pub add_duration : ℕ → ℤ → ℕ
add_duration t (pos d) = t + d
add_duration t (negsuc d) = t - suc d

abbrev pub seconds_before_1970 : ℕ
seconds_before_1970 = 62135596800

abbrev pub difference : ℕ → ℕ → ℤ
difference a b = if ltb a b then negsuc (b - a - 1) else pos (a - b)

-- `t.Unix()`
unfoldable pub unix : ℕ → ℤ
unix t = difference (t / 1000000000) seconds_before_1970

abbrev pub dot : Char
dot = "."

abbrev pub dotted : String → String → String
dotted s t = String.◌++◌ s (String.◌∷◌ dot t)

-- The package functions that the tokens are made with.
pub record Codec : Type 0 where
  pub sign_hs256 : String → String → Bytes  -- of a message and a key
  pub encode : Bytes → String
  pub decode : String → Option Bytes
  pub marshal_header : Header → Option Bytes
  pub marshal_claims : Claims → Option Bytes
  pub unmarshal_claims : Bytes → Option Claims

module _ (codec : Codec) where
  abbrev pub signed : String → String → String
  signed secret input = dotted input (codec.encode (codec.sign_hs256 input secret))

  abbrev pub token_of : String → Option Bytes → Option Bytes → AuthError ⊎ String
  token_of secret none claims_json = inl marshal_failed
  token_of secret (some header_json) none = inl marshal_failed
  token_of secret (some header_json) (some claims_json) =
      inr (signed secret (dotted (codec.encode header_json) (codec.encode claims_json)))

  unfoldable pub generate_token : ℕ → String → String → String → ℤ → AuthError ⊎ String
  unfolding is_valid_role unix
  generate_token now secret user_id role ttl =
      let claims : Claims = record {
        user_id = user_id;
        role = role;
        issued_at = unix now;
        expires_at = unix (add_duration now ttl);
      } in
      ite (String-discrete secret "") (inl empty_secret) (
        if is_valid_role role
        then token_of secret (codec.marshal_header (record { alg = "HS256"; typ = "JWT" }))
            (codec.marshal_claims claims)
        else inl invalid_role)

  abbrev pub is_expired : ℕ → Claims → Bool
  is_expired now claims = ltℤ (pos 0) claims.expires_at && ltℤ claims.expires_at (unix now)

  -- The checks of the claims themselves.
  unfoldable pub check_claims : ℕ → Claims → AuthError ⊎ Claims
  unfolding is_valid_role unix
  check_claims now claims =
      if is_expired now claims
      then inl expired_token
      else if is_valid_role claims.role
      then inr claims
      else inl invalid_role

  -- The three parts of a token.
  unfoldable pub verify_parts : ℕ → String → String → String → String → AuthError ⊎ Claims
  unfolding equal check_claims
  verify_parts now secret header claims signature = elim (codec.decode signature) [
    | none ↦ inl invalid_token
    | some actual ↦
        if equal (codec.sign_hs256 (dotted header claims) secret) actual
        then elim (codec.decode claims) [
          | none ↦ inl invalid_token
          | some bytes ↦ elim (codec.unmarshal_claims bytes) [
            | none ↦ inl invalid_token
            | some c ↦ check_claims now c
          ]
        ]
        else inl invalid_token
  ]

  abbrev pub verify_split : ℕ → String → List String → AuthError ⊎ Claims
  verify_split now secret [] = inl invalid_token
  verify_split now secret (a ∷ []) = inl invalid_token
  verify_split now secret (a ∷ b ∷ []) = inl invalid_token
  verify_split now secret (a ∷ b ∷ c ∷ []) = verify_parts now secret a b c
  verify_split now secret (a ∷ b ∷ c ∷ d ∷ ps) = inl invalid_token

  unfoldable pub verify_token : ℕ → String → String → AuthError ⊎ Claims
  unfolding verify_split split
  verify_token now secret token =
      ite (String-discrete secret "") (inl empty_secret)
        (verify_split now secret (split (code dot) token))
