-- ===== src/Transfer/Middleware.antt =====
-- The transfer service's own copies of `authMiddleware`, `generateRequestID` and `generateTraceID`. The
-- other modules use those of the search service, to which these come to the same.
use axiler_fin.Base.{
  String, ◌≡◌, refl, Option, none, some, [], ◌∷◌, ok, err, cut, ◌=ˢ◌, ◌+ˢ◌, decimal, ◌/◌,
  if◌then◌else◌, Bool-cases, Option-cases, Result-cases, inl, inr,
}
use axiler_fin.Models.{Time}
use axiler_fin.Metrics.{inc, edge_auth_failures}
use axiler_fin.Http.{Request, error, get_header}
use axiler_fin.Context.{Context, RequestContext, new_context_with_request}
use axiler_fin.Auth.{TokenManager, validate_token}
use axiler_fin.Auth.Interface.{Jwt, TokenClaims}
use axiler_fin.Service
use axiler_fin.Service.{
  Handler, Outcome, Readings, reply, bearer_token, bearer_of, with_ids, request_context,
}

generate_request_id : Time → String
generate_request_id now = "req_" +ˢ decimal now

generate_trace_id : Time → String
generate_trace_id now = "trace_" +ˢ decimal now

-- The second part of the header where the first is `Bearer`.
abbrev token_of : String × Option String → Option String
token_of (scheme, some token) = if scheme =ˢ "Bearer" then some token else none
token_of (scheme, none) = none

token_of-split : (parts : String × Option String) → token_of parts ≡ bearer_of parts
token_of-split (scheme, none) = refl
token_of-split (scheme, some token) = refl

token_of-bearer : (header : String) → token_of (cut b' ' header) ≡ bearer_token header
unfolding bearer_token
token_of-bearer header = token_of-split (cut b' ' header)

module _ (jwt : Jwt) (token_manager : TokenManager jwt) where
  -- The context made of the claims.
  abbrev req_ctx : Readings → TokenClaims → RequestContext
  unfolding generate_request_id generate_trace_id
  req_ctx now claims = record {
    tenant_id = claims.tenant_id;
    user_id = claims.user_id;
    request_id = generate_request_id now.request_at;
    trace_id = generate_trace_id now.trace_at;
    client_cert = "";
    timestamp = now.stamp_at / 1_000_000_000;
    release_ver = "1.0.0";
  }

  -- The call of `next`, with the two headers set before.
  abbrev authorized :
      {F S : Type 0} → Readings → Handler F S → TokenClaims → Context → Request → S → Outcome F × S
  authorized now next claims ctx r s =
      let rc = req_ctx now claims in
      let (out, s') = next (new_context_with_request rc ctx) r s in
      (
        record out {
          response = record (out.response) {
            header =
                ("X-Trace-ID", rc.trace_id) ∷ ("X-Request-ID", rc.request_id) ∷ out.response.header;
          };
        },
        s',
      )

  pub auth_middleware : {F S : Type 0} → Readings → Handler F S → Handler F S
  auth_middleware now next ctx r s =
      let auth_header = get_header "Authorization" r in
      if auth_header =ˢ ""
      then (
        reply 401 (error "missing authorization")
            (inc edge_auth_failures ("missing_token" ∷ []) ∷ []),
        s,
      )
      else elim (token_of (cut b' ' auth_header)) [
        | none ↦ (
          reply 401 (error "invalid token format")
              (inc edge_auth_failures ("invalid_token_format" ∷ []) ∷ []),
          s,
        )
        | some token ↦ elim (validate_token jwt token_manager now.validate_at token) [
          | err e ↦ (
            reply 401 (error "invalid token") (inc edge_auth_failures ("invalid_token" ∷ []) ∷ []),
            s,
          )
          | ok claims ↦ authorized now next claims ctx r s
        ]
      ]

  authorized-same :
      {F S : Type 0} (now : Readings) (next : Handler F S) (claims : TokenClaims) (ctx : Context)
      (r : Request) (s : S)
      → authorized now next claims ctx r s
        ≡ with_ids jwt token_manager
            (request_context jwt token_manager now claims)
            (next (new_context_with_request (request_context jwt token_manager now claims) ctx) r s)
  unfolding generate_request_id generate_trace_id Service.generate_request_id
      Service.generate_trace_id
  authorized-same now next claims ctx r s = refl

  -- The two middlewares do the same, for every handler and every request.
  pub middlewares_agree :
      {F S : Type 0} (now : Readings) (next : Handler F S) (ctx : Context) (r : Request) (s : S)
      → auth_middleware now next ctx r s
        ≡ Service.auth_middleware jwt token_manager now next ctx r s
  unfolding auth_middleware Service.auth_middleware
  middlewares_agree now next ctx r s = elim (Bool-cases (get_header "Authorization" r =ˢ "")) [
    | inl blank ↦ rw blank refl
    | inr there ↦
        rw (there, token_of-bearer (get_header "Authorization" r))
          (elim (Option-cases (bearer_token (get_header "Authorization" r))) [
            | inl missing ↦ rw missing refl
            | inr (token, bears) ↦
                elim (Result-cases (validate_token jwt token_manager now.validate_at token)) [
                  | inl (message, bad) ↦ rw (bears, bad) refl
                  | inr (claims, good) ↦ rw (bears, good) (authorized-same now next claims ctx r s)
                ]
          ])
  ]
