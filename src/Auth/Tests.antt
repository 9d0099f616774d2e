-- ===== src/Auth/Tests.antt =====
-- A toy codec and a token that is made and read with it.
use Prim.Native.Char.{Char, code}
use job_manager_quorum.Common.{
  ℕ, zero, suc, ◌+◌, ◌*◌, ◌≡◌, refl, sym, ap, String, String-discrete, ℤ, pos, Option, none, some,
  [], ◌∷◌, inl, inr, ℕ_discrete, ◌==◌, if◌then◌else◌,
}
use job_manager_quorum.Common.Split.{Lacks}
use job_manager_quorum.Auth.{
  Bytes, expired_token, Claims, Codec, dot, unix, generate_token, is_expired, verify_token,
  seconds_before_1970,
}
use job_manager_quorum.Auth.Tokens.{IsFaithful, verify_token-generated}

abbrev a_char : Char
a_char = "a"

abbrev b_char : Char
b_char = "b"

-- A number in unary digits, in front of a text.
abbrev unary : ℕ → String → String
unary zero t = String.◌∷◌ b_char t
unary (suc n) t = String.◌∷◌ a_char (unary n t)

abbrev encode : Bytes → String
encode [] = ""
encode (n ∷ ns) = unary n (encode ns)

abbrev one_more : Option Bytes → Option Bytes
one_more none = none
one_more (some []) = none
one_more (some (n ∷ ns)) = some (suc n ∷ ns)

abbrev zero_more : Option Bytes → Option Bytes
zero_more none = none
zero_more (some ns) = some (0 ∷ ns)

abbrev decode : String → Option Bytes
decode String.[] = some []
decode (String.◌∷◌ c s) =
    let rest = decode s in if code c == b'b' then zero_more rest else one_more rest

decode-unary :
    (n : ℕ) (t : String) (ns : Bytes) → decode t ≡ some ns → decode (unary n t) ≡ some (n ∷ ns)
decode-unary zero t ns h = ap zero_more h
decode-unary (suc n) t ns h = ap one_more (decode-unary n t ns h)

reads : (b : Bytes) → decode (encode b) ≡ some b
reads [] = refl
reads (n ∷ ns) = decode-unary n (encode ns) ns (reads ns)

unary-Lacks : (n : ℕ) (t : String) → Lacks (code dot) t → Lacks (code dot) (unary n t)
unary-Lacks zero t h = (refl, h)
unary-Lacks (suc n) t h = (refl, unary-Lacks n t h)

no_dot : (b : Bytes) → Lacks (code dot) (encode b)
no_dot [] = tt
no_dot (n ∷ ns) = unary-Lacks n (encode ns) (no_dot ns)

Claims-discrete : Discrete Claims
Claims-discrete = hlevel (ℕ_discrete, String-discrete)

abbrev now : ℕ
now = (seconds_before_1970 + 100) * 1000000000

abbrev hour : ℤ
hour = pos (3600 * 1000000000)

abbrev ann : Claims
ann = record { user_id = "ann"; role = "viewer"; issued_at = pos 100; expires_at = pos 3700 }

abbrev chosen : {P : Type 0} → Dec P → Option Bytes
chosen (yes _) = some (1 ∷ [])
chosen (no _) = none

abbrev toy : Codec
toy = record {
  sign_hs256 = λ message key. 7 ∷ [];
  encode = encode;
  decode = decode;
  marshal_header = λ h. some (2 ∷ []);
  marshal_claims = λ c. chosen (Claims-discrete c ann);
  unmarshal_claims = λ b. some ann;
}

json :
    (c : Claims) (b : Bytes) (d : Dec (c ≡ ann))
    → chosen d ≡ some b
    → toy.unmarshal_claims b ≡ some c
json c b (yes p) h = ap some (sym p)
json c b (no q) h = absurd cc

toy-IsFaithful : IsFaithful toy
toy-IsFaithful = (reads, no_dot, λ c b h. json c b (Claims-discrete c ann) h)

abbrev token : String
token = "aab.ab.aaaaaaab"

chosen-ann : (d : Dec (ann ≡ ann)) → chosen d ≡ some (1 ∷ [])
chosen-ann (yes p) = refl
chosen-ann (no q) = absurd (q refl)

makes : generate_token toy now "key" "ann" "viewer" hour ≡ inr token
unfolding generate_token String-discrete
makes = rw (chosen-ann (Claims-discrete ann ann)) refl

verify_token-generated_example :
    verify_token toy now "key" token
    ≡ (if is_expired toy now ann then inl expired_token else inr ann)
unfolding unix
verify_token-generated_example =
    verify_token-generated toy now now "key" "ann" "viewer" token hour toy-IsFaithful makes
