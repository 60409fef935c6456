-- ===== src/Auth/RoundTrip.antt =====
-- A token that `NewToken` issues is accepted by `ValidateToken` of a manager with the matching key
-- for its hours of validity, and refused after them.
use axiler_fin.Base.{true, ◌+◌, ◌*◌, ◌≤◌, String, ◌≡◌, some, ok, err, eq_iff, arith, refl}
use axiler_fin.Models.{Time}
use axiler_fin.Auth.{TokenManager, hour, claims_at, new_token, validate_token, key_func, verified}
use axiler_fin.Auth.Interface.{Jwt, JwtLaws, TokenClaims}

module _ (jwt : Jwt) (laws : JwtLaws jwt) where
  -- What `NewToken` returns is the signature over the claims.
  new_token-signed :
      (tm : TokenManager jwt) (now : Time) (tenant user client t : String)
      → new_token jwt tm now tenant user client ≡ ok t
      → jwt.signed_string tm.signing_key (claims_at jwt tm now tenant user client) ≡ some t
  unfolding new_token
  new_token-signed tm now tenant user client t h = ground arith

  starts : (t0 now : Time) → t0 ≤ now → jwt.numeric_date t0 ≤ now
  starts t0 now h = omega (arith, laws.date-le t0)

  verified-same :
      (tm vm : TokenManager jwt) (c : TokenClaims)
      → vm.issuer ≡ tm.issuer
      → c.issuer ≡ tm.issuer
      → verified jwt vm (record { valid = true; claims = some c }) ≡ ok c
  verified-same tm vm c same e = ground (arith, eq_iff c.issuer vm.issuer)

  -- A token issued at `t0` is accepted by every manager with the matching verifying key and the same
  -- issuer, at each time from `t0` until a second before its hours are over, with the tenant, user
  -- and client for which it was issued.
  pub validate-new_token :
      (tm vm : TokenManager jwt) (t0 now : Time) (tenant user client t : String)
      → jwt.Pair tm.signing_key vm.verifying_key
      → vm.issuer ≡ tm.issuer
      → new_token jwt tm t0 tenant user client ≡ ok t
      → t0 ≤ now
      → now + 1_000_000_000 ≤ t0 + tm.expiry_hours * hour
      → validate_token jwt vm now t ≡ ok (claims_at jwt tm t0 tenant user client)
  unfolding validate_token
  validate-new_token tm vm t0 now tenant user client t pair same issued after before =
      let c = claims_at jwt tm t0 tenant user client in
      rw
        (laws.parse-signed now tm.signing_key vm.verifying_key c t (key_func jwt vm) pair
          (new_token-signed tm t0 tenant user client t issued) refl (starts t0 now after)
          (starts t0 now after) (omega (arith, laws.lt-date (t0 + tm.expiry_hours * hour))))
        (verified-same tm vm c same refl)

  -- A token is refused from the end of its hours on, by every manager.
  pub validate-new_token_expired :
      (tm vm : TokenManager jwt) (t0 now : Time) (tenant user client t : String)
      → new_token jwt tm t0 tenant user client ≡ ok t
      → t0 + tm.expiry_hours * hour ≤ now
      → validate_token jwt vm now t ≡ err "token parsing failed"
  unfolding validate_token
  validate-new_token_expired tm vm t0 now tenant user client t issued late =
      let c = claims_at jwt tm t0 tenant user client in
      rw
        (laws.parse-expired now tm.signing_key c t (key_func jwt vm)
          (new_token-signed tm t0 tenant user client t issued)
          (omega (arith, laws.date-le (t0 + tm.expiry_hours * hour))))
        refl
