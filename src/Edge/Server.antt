-- ===== src/Edge/Server.antt =====
-- cmd/edge-service/main.go: `init`, `main` and the edge's health endpoint. A fatal log entry ends the
-- program: an error.
pub mod Sealed
pub mod Emitted
pub mod Gauge
pub mod InFlight
use axiler_fin.Base.{
  ℕ, String, Bool, Option, none, some, List, [], ◌∷◌, Dict, lookup_or, Result, ok, ◌>>=◌,
}
use axiler_fin.Base.Float.{Float64, one_f}
use axiler_fin.Models.{Time}
use axiler_fin.Metrics.{set, service_health}
use axiler_fin.Http.{Request, edge_health}
use axiler_fin.RateLimit
use axiler_fin.Service.{Outcome}
use axiler_fin.Auth.{TokenManager, Keys}
use axiler_fin.Auth
use axiler_fin.Auth.Interface.{Jwt}
use axiler_fin.Router.{Chi, Route, get, post, handle, Replies, from_library}
use axiler_fin.Edge.Abuse.{new_abuse_detector}
use axiler_fin.Edge.Middleware.{
  Edge, Clock, security_middleware, proxy_request, handle_rate_limit_status,
}

-- `handleEdgeHealth`
unfoldable pub handle_edge_health : (fl : Float64) → Time → Outcome fl.F
handle_edge_health fl now = record {
  response = record {
    status = 200;
    header = ("Content-Type", "application/json") ∷ [];
    payload = edge_health "healthy" now "edge" (
        "mTLS validation" ∷ "rate limiting" ∷ "secret scanning" ∷ "abuse detection"
        ∷ "policy enforcement" ∷ "audit logging" ∷ []);
  };
  samples = set service_health ("edge" ∷ []) (one_f fl) ∷ [];
}

-- The three protected routes have one handler, `securityMiddleware(proxyRequest)`.
pub data Endpoint : Type 0 where
  metrics health protected ratelimit_status : Endpoint

abbrev pub routes : List (Route × Endpoint)
routes =
    (handle "/metrics", metrics)
    ∷ (get "/health", health)
    ∷ (post "/auth/login", protected)
    ∷ (post "/api/v1/search", protected)
    ∷ (post "/api/v1/transfer", protected)
    ∷ (get "/admin/ratelimit-status/{tenant}", ratelimit_status)
    ∷ []

-- What comes from outside while a request is served: the clock, the order of the range over the
-- backends, what the reverse proxy answers, and the libraries' own answers.
pub record Call (F : Type 0) : Type 0 where
  pub health_at : Time
  pub now : Clock
  pub order : Dict String
  pub proxied : String → Request → Outcome F
  pub replies : Replies F
  pub request : Request

-- The package variables that are not constants of the program.
pub record Server (jwt : Jwt) (F : Type 0) : Type 0 where
  pub token_manager : TokenManager jwt
  pub edge : Edge F

module _ (fl : Float64) (jwt : Jwt) where
  open fl use {F}

  -- `init`
  unfoldable pub start : Keys → Result (Server jwt F)
  start keys = do
    tm ← Auth.new jwt keys.private_pem keys.public_pem
    ok (record {
      token_manager = tm;
      edge = record { limiter = RateLimit.new fl; detector = new_abuse_detector };
    })

  module _ (login_key : List ℕ → Option String) (parses : String → Bool) where
    abbrev pub answer : Endpoint → Dict String → Call F → Server jwt F → Outcome F × Server jwt F
    answer metrics params c s = (from_library c.replies.page, s)
    answer health params c s = (handle_edge_health fl c.health_at, s)
    answer protected params c s =
        let (out, edge) =
          security_middleware fl jwt login_key s.token_manager c.now
            (proxy_request parses c.proxied c.order) c.request s.edge in
        (out, record s { edge = edge })
    answer ratelimit_status params c s =
        (handle_rate_limit_status fl (lookup_or "" "tenant" params) s.edge, s)

    abbrev pub answer_found :
        Option (Endpoint × Dict String) → Call F → Server jwt F → Outcome F × Server jwt F
    answer_found none c s = (from_library c.replies.unrouted, s)
    answer_found (some (e, params)) c s = answer e params c s

    -- The router that `main` serves.
    unfoldable pub serve : Chi → Call F → Server jwt F → Outcome F × Server jwt F
    serve chi c s = answer_found (chi.find routes c.request) c s
