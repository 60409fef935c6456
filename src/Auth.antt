-- ===== src/Auth.antt =====
-- pkg/auth/auth.go and keys.go: the token manager. The JWT library and the key formats of Go's
-- crypto packages are parameters.
pub mod Interface
pub mod RoundTrip
pub mod Soundness
use axiler_fin.Base.{
  ℕ, ◌+◌, ◌*◌, String, Bool, true, false, Option, none, some, ◌≡◌, Result, ok, err, ◌>>=◌, ◌>>◌,
  or_fail, ◌=ˢ◌, ◌+ˢ◌, if◌then◌else◌,
}
use axiler_fin.Models.{Time}
use axiler_fin.Auth.Interface.{
  Jwt, TokenClaims, SigningMethod, rsa, other, ParsedToken, PublicKey, rsa_key, other_key,
}

-- Nanoseconds.
abbrev pub hour : ℕ
hour = 3_600_000_000_000

-- The two key files that keys.go embeds.
pub record Keys : Type 0 where
  pub private_pem : String
  pub public_pem : String

module _ (jwt : Jwt) where
  open jwt use {PrivateKey, RsaPublicKey, numeric_date}

  pub record TokenManager : Type 0 where
    pub signing_key : PrivateKey
    pub verifying_key : RsaPublicKey
    pub issuer : String
    pub expiry_hours : ℕ

  -- `pubKeyInterface.(*rsa.PublicKey)`
  abbrev as_rsa : PublicKey RsaPublicKey → Result RsaPublicKey
  as_rsa (rsa_key k) = ok k
  as_rsa other_key = err "public key is not RSA"

  -- `New`
  unfoldable pub new : String → String → Result TokenManager
  new private_pem public_pem = do
    priv_block ← or_fail (jwt.pem_decode private_pem) "failed to parse private key PEM"
    priv_key ← or_fail (jwt.parse_private priv_block) "failed to parse private key"
    pub_block ← or_fail (jwt.pem_decode public_pem) "failed to parse public key PEM"
    pub_key ← or_fail (jwt.parse_public pub_block) "failed to parse public key"
    rsa_pub ← as_rsa pub_key
    ok (record {
      signing_key = priv_key;
      verifying_key = rsa_pub;
      issuer = "fintech-platform";
      expiry_hours = 24;
    })

  -- The claims that `NewToken` signs at the time `now`.
  abbrev pub claims_at : TokenManager → Time → String → String → String → TokenClaims
  claims_at tm now tenant user client = record {
    tenant_id = tenant;
    user_id = user;
    client_id = client;
    issuer = tm.issuer;
    subject = user;
    expires_at = numeric_date (now + tm.expiry_hours * hour);
    issued_at = numeric_date now;
    not_before = numeric_date now;
  }

  -- `NewToken`, where `time.Now()` is `now`
  unfoldable pub new_token : TokenManager → Time → String → String → String → Result String
  new_token tm now tenant user client =
      or_fail (jwt.signed_string tm.signing_key (claims_at tm now tenant user client))
        "failed to sign token"

  -- The function that hands the verifying key to the parser.
  abbrev pub key_func : TokenManager → SigningMethod → Option RsaPublicKey
  key_func tm (rsa alg) = some tm.verifying_key
  key_func tm (other alg) = none

  abbrev pub verified : TokenManager → ParsedToken → Result TokenClaims
  verified tm token =
      if token.valid
      then elim token.claims [
        | none ↦ err "invalid token claims"
        | some claims ↦
            if claims.issuer =ˢ tm.issuer
            then ok claims
            else err ("invalid issuer: " +ˢ claims.issuer)
      ]
      else err "token is invalid"

  -- `ValidateToken`, where the parser's clock reads `now`
  unfoldable pub validate_token : TokenManager → Time → String → Result TokenClaims
  validate_token tm now token_string = do
    token ← or_fail (jwt.parse_with_claims now token_string (key_func tm)) "token parsing failed"
    verified tm token
