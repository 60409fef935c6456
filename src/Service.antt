-- ===== src/Service.antt =====
-- What the handlers of the services share: the outcome of a handler, the identifiers of a request,
-- and `authMiddleware`, which cmd/search-service/main.go and cmd/transfer-service/main.go both have.
pub mod Gate
use axiler_fin.Base.{
  ℕ, String, Bool, Option, none, some, List, [], ◌∷◌, ◌++◌, Dict, lookup, Result, ok, err, cut,
  ◌=ˢ◌, ◌+ˢ◌, decimal, ◌/◌, if◌then◌else◌,
}
use axiler_fin.Models.{Time}
use axiler_fin.Metrics.{Sample, inc, edge_auth_failures}
use axiler_fin.Http.{Request, Response, Payload, error, get_header}
use axiler_fin.Context.{RequestContext, Context, new_context_with_request}
use axiler_fin.Auth.{TokenManager, validate_token}
use axiler_fin.Auth.Interface.{Jwt, TokenClaims}

-- What a handler has done: its response, and the calls that it made on the metrics.
pub record Outcome (F : Type 0) : Type 0 where
  pub response : Response F
  pub samples : List (Sample F)

-- A response with no header of its own.
abbrev pub reply : {F : Type 0} → ℕ → Payload F → List (Sample F) → Outcome F
reply code payload samples = record {
  response = record { status = code; header = []; payload = payload };
  samples = samples;
}

-- A handler over a state that it may change.
abbrev pub Handler : Type 0 → Type 0 → Type 0
Handler F S = Context → Request → S → Outcome F × S

-- `generateRequestID` and `generateTraceID`, where `time.Now()` is `now`
unfoldable pub generate_request_id : Time → String
generate_request_id now = "req_" +ˢ decimal now

unfoldable pub generate_trace_id : Time → String
generate_trace_id now = "trace_" +ˢ decimal now

-- What the clock reads at each call of it in the middleware.
pub record Readings : Type 0 where
  pub validate_at : Time
  pub request_at : Time
  pub trace_at : Time
  pub stamp_at : Time

-- The token of the header `Bearer TOKEN`: `strings.SplitN(authHeader, " ", 2)` has two parts, of
-- which the first is `Bearer`.
abbrev pub bearer_of : String × Option String → Option String
bearer_of (scheme, none) = none
bearer_of (scheme, some token) = if scheme =ˢ "Bearer" then some token else none

unfoldable pub bearer_token : String → Option String
bearer_token auth_header = bearer_of (cut b' ' auth_header)

module _ (jwt : Jwt) (tm : TokenManager jwt) where
  -- The context that the middleware makes for validated claims.
  abbrev pub request_context : Readings → TokenClaims → RequestContext
  request_context now claims = record {
    tenant_id = claims.tenant_id;
    user_id = claims.user_id;
    request_id = generate_request_id now.request_at;
    trace_id = generate_trace_id now.trace_at;
    client_cert = "";
    timestamp = now.stamp_at / 1_000_000_000;
    release_ver = "1.0.0";
  }

  -- The two headers set on the response before `next` writes to it.
  abbrev pub with_ids : {F S : Type 0} → RequestContext → Outcome F × S → Outcome F × S
  with_ids rc (out, s) = (
    record out {
      response = record (out.response) {
        header =
            ("X-Trace-ID", rc.trace_id) ∷ ("X-Request-ID", rc.request_id) ∷ out.response.header;
      };
    },
    s,
  )

  -- `authMiddleware`: `next` gets the request with its context, which was `ctx`.
  unfoldable pub auth_middleware : {F S : Type 0} → Readings → Handler F S → Handler F S
  auth_middleware now next ctx r s =
      let auth_header = get_header "Authorization" r in
      if auth_header =ˢ ""
      then (
        reply 401 (error "missing authorization")
            (inc edge_auth_failures ("missing_token" ∷ []) ∷ []),
        s,
      )
      else elim (bearer_token auth_header) [
        | none ↦ (
          reply 401 (error "invalid token format")
              (inc edge_auth_failures ("invalid_token_format" ∷ []) ∷ []),
          s,
        )
        | some token ↦ elim (validate_token jwt tm now.validate_at token) [
          | err e ↦ (
            reply 401 (error "invalid token") (inc edge_auth_failures ("invalid_token" ∷ []) ∷ []),
            s,
          )
          | ok claims ↦
              let rc = request_context now claims in
              with_ids rc (next (new_context_with_request rc ctx) r s)
        ]
      ]
