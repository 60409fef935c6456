-- ===== src/Auth/Soundness.antt =====
-- What a token must be for `ValidateToken` to accept it.
use axiler_fin.Base.{
  String, ◌≡◌, refl, sym, ap, subst, eq_iff, Option-cases, some, ok, inl, inr, arith,
}
use axiler_fin.Models.{Time}
use axiler_fin.Auth.{TokenManager, validate_token, key_func, verified}
use axiler_fin.Auth.Interface.{Jwt, JwtLaws, TokenClaims, SigningMethod, rsa, other, ParsedToken}

module _ (jwt : Jwt) (tm : TokenManager jwt) where
  -- The token is signed by an RSA method, under the manager's key and over the claims, which name the
  -- manager's issuer.
  pub record Genuine (token : String) (claims : TokenClaims) : Type 0 where
    pub alg : String
    pub method : jwt.method_of token ≡ rsa alg
    pub signature : jwt.Verifies tm.verifying_key token claims
    pub issuer : claims.issuer ≡ tm.issuer

  verified-ok :
      (p : ParsedToken) (claims : TokenClaims)
      → verified jwt tm p ≡ ok claims
      → (p.claims ≡ some claims) × (claims.issuer ≡ tm.issuer)
  verified-ok p claims h = elim (Option-cases p.claims) [
    | inl missing ↦ absurd (ground arith)
    | inr (c, held) ↦
        let same : c ≡ claims = ground arith in
        let own : c.issuer ≡ tm.issuer = ground (arith, eq_iff c.issuer tm.issuer) in
        (rw held (ap some same), subst (λ x. x.issuer ≡ tm.issuer) same own)
  ]

  key_func-rsa :
      (method : SigningMethod) (key : jwt.RsaPublicKey)
      → key_func jwt tm method ≡ some key
      → (alg : String) × (method ≡ rsa alg) × (tm.verifying_key ≡ key)
  key_func-rsa (rsa alg) key h = (alg, refl, cc h)
  key_func-rsa (other alg) key h = absurd (ground arith)

  -- `ValidateToken` accepts only tokens that are signed by an RSA method under the manager's own key,
  -- so neither unsigned tokens nor such as another method signs, and whose claims, which it returns, are
  -- those signed and name the manager's issuer.
  pub validate_token-Genuine :
      (laws : JwtLaws jwt) (now : Time) (token : String) (claims : TokenClaims)
      → validate_token jwt tm now token ≡ ok claims
      → Genuine token claims
  unfolding validate_token
  validate_token-Genuine laws now token claims h =
      elim (Option-cases (jwt.parse_with_claims now token (key_func jwt tm))) [
        | inl bad ↦ absurd (ground arith)
        | inr (p, parsed) ↦
            let (held, issuer) = verified-ok p claims (rw parsed at h) in
            let (key, known, signed) =
              laws.parse-verified now token (key_func jwt tm) p claims parsed held in
            let (alg, method, same) = key_func-rsa (jwt.method_of token) key known in
            record {
              alg = alg;
              method = method;
              signature = subst (λ k. jwt.Verifies k token claims) (sym same) signed;
              issuer = issuer;
            }
      ]
