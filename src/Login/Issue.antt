-- ===== src/Login/Issue.antt =====
-- The token of a login is for the tenant whose credentials were given.
use mathlib.Core.List.{Memᴰ}
use axiler_fin.Base.{
  ◌+◌, ◌*◌, ◌≤◌, String, true, false, [], ◌∷◌, Dict, ◌≡◌, ◌≢◌, refl, sym, ap, ◌∙◌, Option, none,
  some, ok, Bool-cases, Option-cases, ◌⊎◌, inl, inr, All, ◌=ˢ◌, ◌+ˢ◌, eq_iff, ne→=ˢ,
}
use axiler_fin.Models.{Time, AuthRequest, AuthResponse}
use axiler_fin.Http.{Request, Body, login, error}
use axiler_fin.Auth.{TokenManager, new_token, validate_token, claims_at, hour}
use axiler_fin.Auth.Interface.{Jwt, JwtLaws}
use axiler_fin.Auth.RoundTrip.{validate-new_token}
use axiler_fin.Login.{matches, find_tenant, LoginTimes, handle_login}

-- Every entry that matches the request is the tenant's.
abbrev pub OnlyTenant : String → AuthRequest → Dict (Dict String) → Type 0
OnlyTenant tenant req = All (λ entry. matches entry.1 req ≡ true → entry.0 ≡ tenant)

pub find_tenant-OnlyTenant :
    (order : Dict (Dict String)) (req : AuthRequest) (tenant : String) (creds : Dict String)
    → Memᴰ (tenant, creds) order
    → matches creds req ≡ true
    → OnlyTenant tenant req order
    → find_tenant order req ≡ tenant
unfolding find_tenant
find_tenant-OnlyTenant [] req tenant creds k m h = elim k [ ]
find_tenant-OnlyTenant ((t, c) ∷ rest) req tenant creds (Memᴰ.head e) m (own, h) =
    let same : matches c req ≡ true = ap (λ entry. matches entry.1 req) (sym e) ∙ m in
    rw same (own same)
find_tenant-OnlyTenant ((t, c) ∷ rest) req tenant creds (Memᴰ.tail k) m (own, h) =
    elim (Bool-cases (matches c req)) [
      | inl same ↦ rw same (own same)
      | inr other ↦ rw other (find_tenant-OnlyTenant rest req tenant creds k m h)
    ]

module _ (jwt : Jwt) (laws : JwtLaws jwt) (F : Type 0) (decode : Body → Option AuthRequest) where
  -- The answer to a login for which this token is signed: the response carries it with the tenant, and it
  -- is good for its period of validity at every manager with the matching key.
  pub record LoggedIn (tm : TokenManager jwt) (order : Dict (Dict String)) (now : LoginTimes)
      (r : Request) (req : AuthRequest) (tenant token : String) : Type 0 where
    pub signed :
        jwt.signed_string tm.signing_key
          (claims_at jwt tm now.issue_at tenant (tenant +ˢ "_user") req.api_key)
        ≡ some token
    pub status : (handle_login jwt {F = F} decode tm order now r).response.status ≡ 200
    pub told :
        (handle_login jwt {F = F} decode tm order now r).response.payload
        ≡ login
            (record { token = token; expires_at = now.expiry_from + 24 * hour; tenant_id = tenant })
    pub accepted :
        (vm : TokenManager jwt) (at : Time)
        → jwt.Pair tm.signing_key vm.verifying_key
        → vm.issuer ≡ tm.issuer
        → now.issue_at ≤ at
        → at + 1_000_000_000 ≤ now.issue_at + tm.expiry_hours * hour
        → validate_token jwt vm at token
          ≡ ok (claims_at jwt tm now.issue_at tenant (tenant +ˢ "_user") req.api_key)

  -- The answer to a login for which no token can be signed.
  pub record Unsigned (tm : TokenManager jwt) (order : Dict (Dict String)) (now : LoginTimes)
      (r : Request) (req : AuthRequest) (tenant : String) : Type 0 where
    pub failed :
        jwt.signed_string tm.signing_key
          (claims_at jwt tm now.issue_at tenant (tenant +ˢ "_user") req.api_key)
        ≡ none
    pub status : (handle_login jwt {F = F} decode tm order now r).response.status ≡ 500
    pub told :
        (handle_login jwt {F = F} decode tm order now r).response.payload
        ≡ error "token generation failed"

  pub login_issues :
      (tm : TokenManager jwt) (order : Dict (Dict String)) (now : LoginTimes) (r : Request)
      (req : AuthRequest) (tenant : String) (creds : Dict String)
      → r.method ≡ "POST"
      → decode r.body ≡ some req
      → Memᴰ (tenant, creds) order
      → matches creds req ≡ true
      → OnlyTenant tenant req order
      → tenant ≢ ""
      → ((token : String) × LoggedIn tm order now r req tenant token)
        ⊎ Unsigned tm order now r req tenant
  unfolding handle_login new_token
  login_issues tm order now r req tenant creds post decoded mem match_ only named =
      let is_post : (r.method =ˢ "POST") ≡ true = (eq_iff r.method "POST").1 post in
      let found = find_tenant-OnlyTenant order req tenant creds mem match_ only in
      let nonempty : (tenant =ˢ "") ≡ false = ne→=ˢ tenant "" named in
      let user = tenant +ˢ "_user" in
      let claims = claims_at jwt tm now.issue_at tenant user req.api_key in
      elim (Option-cases (jwt.signed_string tm.signing_key claims)) [
        | inl failed ↦ inr (record {
          failed = failed;
          status = rw (is_post, decoded, found, nonempty, failed) refl;
          told = rw (is_post, decoded, found, nonempty, failed) refl;
        })
        | inr (token, signed) ↦
            let made : new_token jwt tm now.issue_at tenant user req.api_key ≡ ok token =
              rw signed refl in
            inl (
              token,
              record {
                signed = signed;
                status = rw (is_post, decoded, found, nonempty, signed) refl;
                told = rw (is_post, decoded, found, nonempty, signed) refl;
                accepted = λ vm at pair same after before.
                    validate-new_token jwt laws tm vm now.issue_at at tenant user req.api_key token
                      pair same made after before;
              },
            )
      ]

module _ (jwt : Jwt) (F : Type 0) (decode : Body → Option AuthRequest) (tm : TokenManager jwt)
    (order : Dict (Dict String)) (now : LoginTimes) where
  -- The tenant's own API key and secret were given, and the token was signed for the tenant.
  pub record Entitled (r : Request) (told : AuthResponse) : Type 0 where
    pub req : AuthRequest
    pub decoded : decode r.body ≡ some req
    pub creds : Dict String
    pub stored : Memᴰ (told.tenant_id, creds) order
    pub matching : matches creds req ≡ true
    pub signed :
        new_token jwt tm now.issue_at told.tenant_id (told.tenant_id +ˢ "_user") req.api_key
        ≡ ok told.token
