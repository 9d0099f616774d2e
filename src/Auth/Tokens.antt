-- ===== src/Auth/Tokens.antt =====
-- What VerifyToken of internal/auth/jwt.go makes of tokens, its own and others.
use Prim.Native.Char.{code}
use Prim.Native.String
use text.Mathlib.TextLemmas.{append_assoc, cons-append}
use job_manager_quorum.Common.{
  ℕ, ◌≡◌, ◌≢◌, refl, sym, ap, ◌∙◌, String, String-discrete, ℤ, true, Option, none, some, [], ◌∷◌,
  inl, inr, if_neg, if◌then◌else◌, arith, Bool-cases,
}
use job_manager_quorum.Common.Split.{split, Lacks, split-append, split-Lacks}
use job_manager_quorum.Auth.{
  Bytes, expired_token, Claims, Codec, is_valid_role, equal, unix, add_duration, dot, dotted,
  signed, token_of, generate_token, is_expired, check_claims, verify_parts, verify_token,
}

pub equal_refl : (xs : Bytes) → equal xs xs ≡ true
unfolding equal
equal_refl [] = refl
equal_refl (x ∷ xs) = ground (arith, equal_refl xs)

pub equal→≡ : (xs ys : Bytes) → equal xs ys ≡ true → xs ≡ ys
unfolding equal
equal→≡ [] [] h = refl
equal→≡ [] (y ∷ ys) h = absurd (ground (arith, h))
equal→≡ (x ∷ xs) [] h = absurd (ground (arith, h))
equal→≡ (x ∷ xs) (y ∷ ys) h = ground (arith, equal→≡ xs ys)

module _ (codec : Codec) where
  -- Base64 and JSON read back what they wrote, and the alphabet of base64 has no dot.
  abbrev pub IsFaithful : Type 0
  IsFaithful =
      ((b : Bytes) → codec.decode (codec.encode b) ≡ some b)
      × ((b : Bytes) → Lacks (code dot) (codec.encode b))
      × ((c : Claims) (b : Bytes)
          → codec.marshal_claims c ≡ some b
          → codec.unmarshal_claims b ≡ some c)

  split-signed :
      (h b s : String)
      → Lacks (code dot) h
      → Lacks (code dot) b
      → Lacks (code dot) s
      → split (code dot) (dotted (dotted h b) s) ≡ h ∷ b ∷ s ∷ []
  split-signed h b s lh lb ls =
      let tail = String.◌∷◌ dot s in
      ap (split (code dot)) (append_assoc h (String.◌∷◌ dot b) tail)
      ∙ ap (λ t. split (code dot) (String.◌++◌ h t)) (cons-append dot b tail)
      ∙ split-append h dot (String.◌++◌ b tail) lh
      ∙ ap (λ l. h ∷ l) (split-append b dot s lb)
      ∙ ap (λ l. h ∷ b ∷ l) (split-Lacks (code dot) s ls)

  verify_parts-signed :
      (now : ℕ) (secret h : String) (b : Bytes) (c : Claims)
      → IsFaithful
      → codec.unmarshal_claims b ≡ some c
      → let body = codec.encode b in
        verify_parts codec now secret h body
          (codec.encode (codec.sign_hs256 (dotted h body) secret))
        ≡ check_claims codec now c
  unfolding verify_parts
  verify_parts-signed now secret h b c (reads, no_dot, json) e =
      let sum = codec.sign_hs256 (dotted h (codec.encode b)) secret in
      rw (verify_parts, reads sum, equal_refl sum, reads b, e) refl

  verify_token-signed_by :
      (now : ℕ) (secret : String) (h b : Bytes) (c : Claims)
      → IsFaithful
      → secret ≢ ""
      → codec.unmarshal_claims b ≡ some c
      → verify_token codec now secret
          (signed codec secret (dotted (codec.encode h) (codec.encode b)))
        ≡ check_claims codec now c
  unfolding verify_token
  verify_token-signed_by now secret h b c f secret_given e =
      let (reads, no_dot, json) = f in
      let sum = codec.sign_hs256 (dotted (codec.encode h) (codec.encode b)) secret in
      let parts =
        split-signed (codec.encode h) (codec.encode b) (codec.encode sum) (no_dot h) (no_dot b)
          (no_dot sum) in
      if_neg (String-discrete secret "") secret_given _ _
      ∙ rw parts (verify_parts-signed now secret (codec.encode h) b c f e)

  token_of-inr :
      (secret token : String) (header claims : Option Bytes)
      → token_of codec secret header claims ≡ inr token
      → (h b : Bytes) × (claims ≡ some b)
        × (signed codec secret (dotted (codec.encode h) (codec.encode b)) ≡ token)
  token_of-inr secret token none claims e = absurd (ground (arith, e))
  token_of-inr secret token (some h) none e = absurd (ground (arith, e))
  token_of-inr secret token (some h) (some b) e = (h, b, refl, ground (arith, e))

  -- When GenerateToken returns a token, VerifyToken with the same secret accepts it, then or later,
  -- until its time is over, and returns the claims that it was made for; from then on it reports the
  -- token as expired. Base64 and JSON read back what they wrote, and the alphabet of base64 has no
  -- dot.
  pub verify_token-generated :
      (now later : ℕ) (secret user_id role token : String) (ttl : ℤ)
      → IsFaithful
      → generate_token codec now secret user_id role ttl ≡ inr token
      → let c : Claims = record {
        user_id = user_id;
        role = role;
        issued_at = unix now;
        expires_at = unix (add_duration now ttl);
      } in
        verify_token codec later secret token
        ≡ (if is_expired codec later c then inl expired_token else inr c)
  unfolding generate_token check_claims
  verify_token-generated now later secret user_id role token ttl f e =
      elim (String-discrete secret "") [
        | yes empty ↦ absurd (ground (arith, empty, e))
        | no given ↦ elim (Bool-cases (is_valid_role role)) [
          | inr invalid ↦ absurd (ground (arith, invalid, given, e))
          | inl valid ↦
              let c : Claims = record {
                user_id = user_id;
                role = role;
                issued_at = unix now;
                expires_at = unix (add_duration now ttl);
              } in
              let header = codec.marshal_header (record { alg = "HS256"; typ = "JWT" }) in
              let (h, b, json, made) =
                token_of-inr secret token header (codec.marshal_claims c)
                  (ground (arith, valid, given, e)) in
              ap (verify_token codec later secret) (sym made)
              ∙ verify_token-signed_by later secret h b c f given (f.2 c b json)
              ∙ rw valid refl
        ]
      ]
