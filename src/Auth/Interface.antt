-- ===== src/Auth/Interface.antt =====
-- What pkg/auth/auth.go uses of github.com/golang-jwt/jwt/v5 and of Go's crypto packages, and the
-- documented behaviour that is relied on.
use axiler_fin.Base.{◌+◌, ◌≤◌, ◌<◌, String, Bool, true, Option, none, some, ◌≡◌}
use axiler_fin.Models.{Time}

-- `TokenClaims` with its registered claims. A numeric date is given as the time that it stands for.
pub record TokenClaims : Type 0 where
  pub tenant_id : String
  pub user_id : String
  pub client_id : String
  pub issuer : String
  pub subject : String
  pub expires_at : Time
  pub issued_at : Time
  pub not_before : Time

-- A token's signing method, with the name of the algorithm: `*jwt.SigningMethodRSA`, or another.
pub data SigningMethod : Type 0 where
  rsa : String → SigningMethod
  other : String → SigningMethod

-- What `x509.ParsePKIXPublicKey` returns.
pub data PublicKey (K : Type 0) : Type 0 where
  rsa_key : K → PublicKey K
  other_key : PublicKey K

-- `claims` is none where they are of another type than `*TokenClaims`.
pub record ParsedToken : Type 0 where
  pub valid : Bool
  pub claims : Option TokenClaims

pub record Jwt : Type 1 where
  pub PrivateKey : Type 0
  pub RsaPublicKey : Type 0
  -- `pem.Decode`, `x509.ParsePKCS1PrivateKey`, `x509.ParsePKIXPublicKey`
  pub pem_decode : String → Option String
  pub parse_private : String → Option PrivateKey
  pub parse_public : String → Option (PublicKey RsaPublicKey)
  -- `jwt.NewNumericDate`
  pub numeric_date : Time → Time
  -- `jwt.NewWithClaims(jwt.SigningMethodRS256, claims).SignedString(key)`
  pub signed_string : PrivateKey → TokenClaims → Option String
  -- `jwt.ParseWithClaims(token, &TokenClaims{}, keyfunc)` when the clock reads the given time
  pub parse_with_claims : Time → String → (SigningMethod → Option RsaPublicKey) → Option ParsedToken
  -- The method in the token's header.
  pub method_of : String → SigningMethod
  -- The token's signature by that method is valid under the key, and is over the claims.
  pub Verifies : RsaPublicKey → String → TokenClaims → Type 0
  -- The two keys are halves of one key pair.
  pub Pair : PrivateKey → RsaPublicKey → Type 0

pub record JwtLaws (jwt : Jwt) : Type 0 where
  -- A numeric date is the time cut to whole seconds.
  pub date-le : (t : Time) → jwt.numeric_date t ≤ t
  pub lt-date : (t : Time) → t < jwt.numeric_date t + 1_000_000_000
  -- A token that was signed with RS256 parses to its claims in its period of validity.
  pub parse-signed :
      (now : Time) (priv : jwt.PrivateKey) (public : jwt.RsaPublicKey) (c : TokenClaims)
      (t : String) (keys : SigningMethod → Option jwt.RsaPublicKey)
      → jwt.Pair priv public
      → jwt.signed_string priv c ≡ some t
      → keys (rsa "RS256") ≡ some public
      → c.not_before ≤ now
      → c.issued_at ≤ now
      → now < c.expires_at
      → jwt.parse_with_claims now t keys ≡ some (record { valid = true; claims = some c })
  -- A token parses only if the key function has a key for its method, and its signature is valid under
  -- that key.
  pub parse-verified :
      (now : Time) (t : String) (keys : SigningMethod → Option jwt.RsaPublicKey) (p : ParsedToken)
      (c : TokenClaims)
      → jwt.parse_with_claims now t keys ≡ some p
      → p.claims ≡ some c
      → (key : jwt.RsaPublicKey) × (keys (jwt.method_of t) ≡ some key) × jwt.Verifies key t c
  -- After it, parsing fails.
  pub parse-expired :
      (now : Time) (priv : jwt.PrivateKey) (c : TokenClaims) (t : String)
      (keys : SigningMethod → Option jwt.RsaPublicKey)
      → jwt.signed_string priv c ≡ some t
      → c.expires_at ≤ now
      → jwt.parse_with_claims now t keys ≡ none
