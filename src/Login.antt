-- ===== src/Login.antt =====
-- cmd/auth-service: the login handler and its credentials. JSON decoding is a parameter, `none` on an
-- error.
pub mod Issue
pub mod Order
pub mod Server
use axiler_fin.Base.{
  ℕ, ◌+◌, ◌*◌, String, Bool, Option, none, some, List, [], ◌∷◌, Dict, lookup_or, Result, ok, err,
  ◌=ˢ◌, ◌+ˢ◌, ◌&&◌, if◌then◌else◌,
}
use axiler_fin.Base.Int.{pos}
use axiler_fin.Base.Float.{Float64, one_f}
use axiler_fin.Models.{Time, AuthRequest, AuthResponse, HealthResponse}
use axiler_fin.Metrics.{inc, set, edge_auth_failures, service_health}
use axiler_fin.Http.{Body, Request, no_payload, error, login, health}
use axiler_fin.Auth.{TokenManager, new_token, hour}
use axiler_fin.Auth.Interface.{Jwt}
use axiler_fin.Service.{Outcome, reply}

-- `credentials`
abbrev pub credentials : Dict (Dict String)
credentials =
    ("alpha", ("api_key", "alpha_key_123") ∷ ("secret", "alpha_secret_456") ∷ [])
    ∷ ("beta", ("api_key", "beta_key_789") ∷ ("secret", "beta_secret_012") ∷ [])
    ∷ ("gamma", ("api_key", "gamma_key_345") ∷ ("secret", "gamma_secret_678") ∷ [])
    ∷ []

unfoldable pub matches : Dict String → AuthRequest → Bool
matches creds req =
    lookup_or "" "api_key" creds =ˢ req.api_key && lookup_or "" "secret" creds =ˢ req.secret

-- The loop over the credentials, in the order in which the range visits them: "" if none match.
unfoldable pub find_tenant : Dict (Dict String) → AuthRequest → String
unfolding matches
find_tenant [] req = ""
find_tenant ((tenant, creds) ∷ rest) req =
    if matches creds req then tenant else find_tenant rest req

-- What the clock reads when the token is made, and then.
pub record LoginTimes : Type 0 where
  pub issue_at : Time
  pub expiry_from : Time

module _ (jwt : Jwt) {F : Type 0} (decode : Body → Option AuthRequest) where
  -- The response with a new token.
  abbrev pub issued : String → LoginTimes → Result String → Outcome F
  issued tenant now (err e) =
      reply 500 (error "token generation failed")
        (inc edge_auth_failures ("token_generation_failed" ∷ []) ∷ [])
  issued tenant now (ok token) = record {
    response = record {
      status = 200;
      header = ("Content-Type", "application/json") ∷ [];
      payload =
          login (record {
            token = token;
            expires_at = now.expiry_from + 24 * hour;
            tenant_id = tenant;
          });
    };
    samples = [];
  }

  -- The handler from the decoded request on.
  abbrev pub log_in : TokenManager jwt → Dict (Dict String) → LoginTimes → AuthRequest → Outcome F
  log_in tm order now req =
      let tenant = find_tenant order req in
      if tenant =ˢ ""
      then reply 401 (error "invalid credentials")
          (inc edge_auth_failures ("invalid_credentials" ∷ []) ∷ [])
      else issued tenant now (new_token jwt tm now.issue_at tenant (tenant +ˢ "_user") req.api_key)

  -- `handleLogin`, where `order` is the order in which the range visits `credentials`
  unfoldable pub handle_login :
      TokenManager jwt → Dict (Dict String) → LoginTimes → Request → Outcome F
  handle_login tm order now r =
      if r.method =ˢ "POST"
      then elim (decode r.body) [
        | none ↦
            reply 400 (error "invalid request")
              (inc edge_auth_failures ("invalid_request" ∷ []) ∷ [])
        | some req ↦ log_in tm order now req
      ]
      else reply 405 no_payload []

-- The answer to `GET /health` of a service.
unfoldable pub handle_health : (fl : Float64) → Time → Outcome fl.F
handle_health fl now = record {
  response = record {
    status = 200;
    header = ("Content-Type", "application/json") ∷ [];
    payload = health (record {
      status = "healthy";
      timestamp = now;
      service = "auth";
      version = "1.0.0";
      dependencies = ("token_manager", "ok") ∷ [];
    });
  };
  samples = set service_health ("auth" ∷ []) (one_f fl) ∷ [];
}
