-- ===== src/Auth/Signed.antt =====
-- What VerifyToken of internal/auth/jwt.go asks of a token that it accepts.
use Prim.Native.Char.{code}
use job_manager_quorum.Common.{
  ℕ, ◌≡◌, ◌≢◌, refl, if_neg, sym, ap, ◌∙◌, String, String-discrete, true, false, some, List, [],
  ◌∷◌, inl, inr, arith, Bool-cases, Option-cases,
}
use job_manager_quorum.Common.Split.{split}
use job_manager_quorum.Auth.{
  Bytes, Claims, Codec, is_valid_role, equal, dot, dotted, is_expired, check_claims, verify_parts,
  verify_split, verify_token,
}
use job_manager_quorum.Auth.Tokens.{equal_refl, equal→≡}

check_claims-inr :
    (codec : Codec) (now : ℕ) (c' c : Claims)
    → check_claims codec now c' ≡ inr c
    → (c' ≡ c) × (is_expired codec now c' ≡ false) × (is_valid_role c'.role ≡ true)
unfolding check_claims
check_claims-inr codec now c' c e = elim (Bool-cases (is_expired codec now c')) [
  | inl late ↦ absurd (ground (arith, late, e))
  | inr live ↦ elim (Bool-cases (is_valid_role c'.role)) [
    | inl valid ↦ (ground (arith, live, valid, e), live, valid)
    | inr invalid ↦ absurd (ground (arith, live, invalid, e))
  ]
]

module _ (codec : Codec) (now : ℕ) (secret : String) where
  -- The token has three parts, the third is the signature of the first two under the secret, and the
  -- second holds the claims, which have a role and are not expired.
  abbrev pub IsSigned : String → Claims → Type 0
  IsSigned token c =
      (header : String) × (body : String) × (signature : String) × (bytes : Bytes) × (split
          (code dot) token
        ≡ header ∷ body ∷ signature ∷ [])
      × (codec.decode signature ≡ some (codec.sign_hs256 (dotted header body) secret))
      × (codec.decode body ≡ some bytes)
      × (codec.unmarshal_claims bytes ≡ some c)
      × (is_expired codec now c ≡ false)
      × (is_valid_role c.role ≡ true)

  verify_parts-inr :
      (header body signature : String) (c : Claims)
      → verify_parts codec now secret header body signature ≡ inr c
      → (bytes : Bytes) × (codec.decode signature
          ≡ some (codec.sign_hs256 (dotted header body) secret))
        × (codec.decode body ≡ some bytes)
        × (codec.unmarshal_claims bytes ≡ some c)
        × (is_expired codec now c ≡ false)
        × (is_valid_role c.role ≡ true)
  unfolding verify_parts
  verify_parts-inr header body signature c e = elim (Option-cases (codec.decode signature)) [
    | inl bad ↦ absurd (ground (arith, bad, e))
    | inr (actual, sig) ↦
        let sum = codec.sign_hs256 (dotted header body) secret in
        elim (Bool-cases (equal sum actual)) [
          | inr differ ↦ absurd (ground (arith, sig, differ, e))
          | inl same ↦ elim (Option-cases (codec.decode body)) [
            | inl bad ↦ absurd (ground (arith, sig, same, bad, e))
            | inr (bytes, read) ↦ elim (Option-cases (codec.unmarshal_claims bytes)) [
              | inl bad ↦ absurd (ground (arith, sig, same, read, bad, e))
              | inr (c', json) ↦
                  let (eq, live, valid) =
                    check_claims-inr codec now c' c (ground (arith, sig, same, read, json, e)) in
                  (
                    bytes,
                    sig ∙ ap some (sym (equal→≡ sum actual same)),
                    read,
                    json ∙ ap some eq,
                    sym (ap (is_expired codec now) eq) ∙ live,
                    sym (ap (λ x. is_valid_role x.role) eq) ∙ valid,
                  )
            ]
          ]
        ]
  ]

  verify_split-inr :
      (parts : List String) (c : Claims)
      → verify_split codec now secret parts ≡ inr c
      → (header : String) × (body : String) × (signature : String) × (parts
          ≡ header ∷ body ∷ signature ∷ [])
        × (verify_parts codec now secret header body signature ≡ inr c)
  verify_split-inr [] c e = absurd (ground (arith, e))
  verify_split-inr (a ∷ []) c e = absurd (ground (arith, e))
  verify_split-inr (a ∷ b ∷ []) c e = absurd (ground (arith, e))
  verify_split-inr (a ∷ b ∷ s ∷ []) c e = (a, b, s, refl, e)
  verify_split-inr (a ∷ b ∷ s ∷ d ∷ ps) c e = absurd (ground (arith, e))

  pub IsSigned-of_verified :
      (token : String) (c : Claims) → verify_token codec now secret token ≡ inr c → IsSigned token c
  unfolding verify_token
  IsSigned-of_verified token c e = elim (String-discrete secret "") [
    | yes empty ↦ absurd (ground (arith, empty, e))
    | no given ↦
        let (header, body, signature, three, rest) =
          verify_split-inr (split (code dot) token) c (ground (arith, given, e)) in
        let (bytes, sig, read, json, live, valid) = verify_parts-inr header body signature c rest in
        (header, body, signature, bytes, three, sig, read, json, live, valid)
  ]

  -- A token that is signed is accepted, with its claims.
  pub verified_of-IsSigned :
      (token : String) (c : Claims)
      → secret ≢ ""
      → IsSigned token c
      → verify_token codec now secret token ≡ inr c
  unfolding verify_token verify_parts check_claims
  verified_of-IsSigned token c given
        (header, body, signature, bytes, three, sig, read, json, live, valid) =
      rw
        (
          if_neg (String-discrete secret "") given,
          three,
          verify_parts,
          sig,
          equal_refl (codec.sign_hs256 (dotted header body) secret),
          read,
          json,
          check_claims,
          live,
          valid,
        )
        refl
