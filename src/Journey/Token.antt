-- ===== src/Journey/Token.antt =====
-- A login at cmd/auth-service, and what its token is good for at a service with the same keys.
use text.Mathlib.TextLemmas.{nil-append, cons-append, append_assoc}
use mathlib.Core.List.{Memᴰ}
use axiler_fin.Base.{
  ◌+◌, ◌*◌, ◌≤◌, String, ◌≡◌, ◌≢◌, refl, sym, ap, ◌∙◌, true, false, Option, none, some, ◌⊎◌, Dict,
  Result, Result-cases, ok, err, ◌+ˢ◌, eq_iff, cut-append, inl, inr, has_code,
}
use axiler_fin.Base.Float.{Float64}
use axiler_fin.Models.{Time, AuthRequest, AuthResponse}
use axiler_fin.Http.{Request, Body, Payload, login, error}
use axiler_fin.Auth.{TokenManager, Keys, new, validate_token, claims_at, hour}
use axiler_fin.Auth.Interface.{Jwt, TokenClaims, JwtLaws}
use axiler_fin.Service.{Outcome, bearer_token}
use axiler_fin.Router.{Chi, ChiLaws, post, is_static}
use axiler_fin.Login.{matches}
use axiler_fin.Login.Issue.{OnlyTenant, login_issues}
use axiler_fin.Login.Server.{Server, Call, routes, login as login_endpoint, start, serve}

space : (s : String) → " " +ˢ s ≡ String.◌∷◌ " " s
space s = cons-append _ "" s ∙ ap (String.◌∷◌ _) (nil-append s)

bearer_plain : has_code b' ' "Bearer" ≡ false
unfolding has_code
bearer_plain = refl

-- The header that a client makes of a token gives the token back.
pub bearer_token-Bearer : (token : String) → bearer_token ("Bearer " +ˢ token) ≡ some token
unfolding bearer_token
bearer_token-Bearer token =
    let split = append_assoc "Bearer" " " token ∙ ap (λ s. "Bearer" +ˢ s) (space token) in
    rw (split, cut-append b' ' "Bearer" token " " bearer_plain refl) refl

login_found :
    {chi : Chi} (laws : ChiLaws chi) (r : Request)
    → r.method ≡ "POST"
    → chi.route_path r ≡ "/auth/login"
    → (params : Dict String) × (chi.find routes r ≡ some (login_endpoint, params))
unfolding is_static
login_found laws r method path =
    laws.find-static routes r (post "/auth/login") login_endpoint
      (Memᴰ.tail (Memᴰ.tail (Memᴰ.head refl)))
      (λ e. absurd (cc e), (λ e. absurd (cc e), (λ e. refl, tt)))
      ((eq_iff "POST" r.method).1 (sym method)) refl path

-- The token manager of a started service is made of its keys.
abbrev pub login_manager : {jwt : Jwt} → Result (Server jwt) → Result (TokenManager jwt)
login_manager (ok s) = ok s.token_manager
login_manager (err message) = err message

pub login_started :
    (jwt : Jwt) (keys : Keys)
    → login_manager (start jwt keys) ≡ new jwt keys.private_pem keys.public_pem
unfolding start
login_started jwt keys = elim (Result-cases (new jwt keys.private_pem keys.public_pem)) [
  | inl (message, failed) ↦ rw (failed, start) refl
  | inr (tm, made) ↦ rw (made, start) refl
]

-- What the login service tells of a token.
abbrev pub issued_to : {F : Type 0} → String → String → Call F → AuthResponse
issued_to tenant token cl = record {
  token = token;
  expires_at = cl.login_at.expiry_from + 24 * hour;
  tenant_id = tenant;
}

-- The token that a response carries, or "".
unfoldable pub answered_token : {F : Type 0} → Payload F → String
answered_token (login told) = told.token
answered_token p = ""

-- A login with a tenant's own API key and secret.
pub record Login {F : Type 0} {jwt : Jwt} (chi : Chi) (decode : Body → Option AuthRequest)
    (a : Server jwt) (c : Call F) (tenant : String) : Type 0 where
  pub method : c.request.method ≡ "POST"
  pub path : chi.route_path c.request ≡ "/auth/login"
  pub req : AuthRequest
  pub decoded : decode c.request.body ≡ some req
  pub creds : Dict String
  pub stored : Memᴰ (tenant, creds) c.order
  pub matching : matches creds req ≡ true
  pub only : OnlyTenant tenant req c.order
  pub named : tenant ≢ ""

module _ (fl : Float64) (jwt : Jwt) (chi : Chi) (decode : Body → Option AuthRequest) where
  open fl use {F}

  abbrev pub log_in : Call F → Server jwt → Outcome F
  log_in c a = serve fl jwt decode chi c a

  module _ (a : Server jwt) (c : Call F) (tenant : String) (l : Login chi decode a c tenant) where
    -- The claims of the token.
    abbrev pub issued_claims : TokenClaims
    issued_claims =
        claims_at jwt a.token_manager c.login_at.issue_at tenant (tenant +ˢ "_user") l.req.api_key

    -- No token can be signed for these claims, and the login is answered with 500 and an error.
    pub record Unanswered : Type 0 where
      pub failed : jwt.signed_string a.token_manager.signing_key issued_claims ≡ none
      pub status : (log_in c a).response.status ≡ 500
      pub payload : (log_in c a).response.payload ≡ error "token generation failed"

    -- The login is answered with 200 and a token, which a manager with the same keys accepts in its
    -- hours.
    pub record Answered (token : String) : Type 0 where
      pub status : (log_in c a).response.status ≡ 200
      pub payload : (log_in c a).response.payload ≡ login (issued_to tenant token c)
      pub accepted :
          (tm : TokenManager jwt) (at : Time)
          → tm ≡ a.token_manager
          → jwt.Pair a.token_manager.signing_key a.token_manager.verifying_key
          → c.login_at.issue_at ≤ at
          → at + 1_000_000_000 ≤ c.login_at.issue_at + a.token_manager.expiry_hours * hour
          → validate_token jwt tm at token ≡ ok issued_claims

    pub login_cases : JwtLaws jwt → ChiLaws chi → ((token : String) × Answered token) ⊎ Unanswered
    unfolding serve
    login_cases jwt_laws laws =
        let (params, found) = login_found laws c.request l.method l.path in
        elim (login_issues jwt jwt_laws F decode a.token_manager c.order c.login_at c.request l.req
          tenant l.creds l.method l.decoded l.stored l.matching l.only l.named) [
            | inl (token, answer) ↦ inl (
              token,
              record {
                status = rw found answer.status;
                payload = rw found answer.told;
                accepted = λ tm at same pair after before.
                    rw same (answer.accepted a.token_manager at pair refl after before);
              },
            )
            | inr answer ↦ inr (record {
              failed = answer.failed;
              status = rw found answer.status;
              payload = rw found answer.told;
            })
          ]
