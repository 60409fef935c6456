-- ===== src/Service/Gate.antt =====
-- `authMiddleware` lets a request pass exactly if its bearer token validates.
use axiler_fin.Base.{
  if◌then◌else◌, String, ◌≡◌, ◌⊎◌, inl, inr, refl, ok, err, some, none, arith, Option-cases,
  Result-cases, Bool-cases, ◌=ˢ◌, eq_iff, cut, ap, ◌∙◌, false, ◌∷◌,
}
use axiler_fin.Http.{Request, error, get_header}
use axiler_fin.Context.{Context, new_context_with_request, from_context, tenant_from_context}
use axiler_fin.Service.{Handler, Readings, bearer_token, auth_middleware, request_context, with_ids}
use axiler_fin.Auth.{TokenManager, validate_token}
use axiler_fin.Auth.Interface.{Jwt, TokenClaims}

module _ (jwt : Jwt) (tm : TokenManager jwt) where
  -- The request's `Authorization` header is `Bearer` and a token that validates to these claims.
  pub record Bears (now : Readings) (r : Request) (claims : TokenClaims) : Type 0 where
    pub token : String
    pub bearer : bearer_token (get_header "Authorization" r) ≡ some token
    pub valid : validate_token jwt tm now.validate_at token ≡ ok claims

  -- The handler ran with a context that tells the tenant and the user of the claims, and the outcome is
  -- its own, but for the two identifiers of the context in the header.
  pub record Passed {F S : Type 0} (now : Readings) (next : Handler F S) (ctx : Context)
      (r : Request) (s : S) : Type 0 where
    pub claims : TokenClaims
    pub bears : Bears now r claims
    pub result :
        auth_middleware jwt tm now next ctx r s
        ≡ with_ids jwt tm
            (request_context jwt tm now claims)
            (next (new_context_with_request (request_context jwt tm now claims) ctx) r s)
    pub given : Context
    pub tenant : (from_context given).tenant_id ≡ claims.tenant_id
    pub user : (from_context given).user_id ≡ claims.user_id
    pub tenant_alone : tenant_from_context given ≡ claims.tenant_id
    pub status :
        (auth_middleware jwt tm now next ctx r s).0.response.status
        ≡ (next given r s).0.response.status
    pub payload :
        (auth_middleware jwt tm now next ctx r s).0.response.payload
        ≡ (next given r s).0.response.payload
    pub header :
        (auth_middleware jwt tm now next ctx r s).0.response.header
        ≡ ("X-Trace-ID", (from_context given).trace_id)
          ∷ ("X-Request-ID", (from_context given).request_id)
          ∷ (next given r s).0.response.header
    pub samples : (auth_middleware jwt tm now next ctx r s).0.samples ≡ (next given r s).0.samples
    pub state : (auth_middleware jwt tm now next ctx r s).1 ≡ (next given r s).1

  -- A request whose token does not validate gets 401 and never reaches the handler, so the outcome
  -- is the same whatever the handler is, and the state stays as it was.
  pub record Refused {F S : Type 0} (now : Readings) (next : Handler F S) (ctx : Context)
      (r : Request) (s : S) : Type 0 where
    pub unborne : (claims : TokenClaims) → ¬ Bears now r claims
    pub status : (auth_middleware jwt tm now next ctx r s).0.response.status ≡ 401
    pub message : String
    pub told : (auth_middleware jwt tm now next ctx r s).0.response.payload ≡ error message
    pub kept : (auth_middleware jwt tm now next ctx r s).1 ≡ s
    pub unread :
        (next' : Handler F S)
        → auth_middleware jwt tm now next' ctx r s ≡ auth_middleware jwt tm now next ctx r s

  bearer-empty : bearer_token "" ≡ none
  unfolding bearer_token cut
  bearer-empty = refl

  module _ {F S : Type 0} (now : Readings) (next : Handler F S) (ctx : Context) (r : Request)
      (s : S) where
    no_token : bearer_token (get_header "Authorization" r) ≡ none → Refused now next ctx r s
    unfolding auth_middleware
    no_token e = record {
      unborne = λ claims b. cc (e, b.bearer);
      status = ground arith;
      message =
          if get_header "Authorization" r =ˢ ""
          then "missing authorization"
          else "invalid token format";
      told = ground arith;
      kept = ground arith;
      unread = λ next'. ground arith;
    }

    bad_token :
        (token message : String)
        → bearer_token (get_header "Authorization" r) ≡ some token
        → validate_token jwt tm now.validate_at token ≡ err message
        → Refused now next ctx r s
    unfolding auth_middleware
    bad_token token message e bad = record {
      unborne = λ claims b. cc (e, b.bearer, bad, b.valid);
      status = ground arith;
      message =
          if get_header "Authorization" r =ˢ "" then "missing authorization" else "invalid token";
      told = ground arith;
      kept = ground arith;
      unread = λ next'. ground arith;
    }

    header_nonempty :
        (token : String)
        → bearer_token (get_header "Authorization" r) ≡ some token
        → (get_header "Authorization" r =ˢ "") ≡ false
    header_nonempty token e = elim (Bool-cases (get_header "Authorization" r =ˢ "")) [
      | inl blank ↦
          let none_found : bearer_token (get_header "Authorization" r) ≡ none =
            ap bearer_token ((eq_iff _ _).0 blank) ∙ bearer-empty in
          cc (e, none_found)
      | inr other ↦ other
    ]

    pub auth_middleware-valid :
        (token : String) (claims : TokenClaims)
        → bearer_token (get_header "Authorization" r) ≡ some token
        → validate_token jwt tm now.validate_at token ≡ ok claims
        → auth_middleware jwt tm now next ctx r s
          ≡ with_ids jwt tm
              (request_context jwt tm now claims)
              (next (new_context_with_request (request_context jwt tm now claims) ctx) r s)
    unfolding auth_middleware
    auth_middleware-valid token claims e good = rw (header_nonempty token e, e, good)

    good_token :
        (token : String) (claims : TokenClaims)
        → bearer_token (get_header "Authorization" r) ≡ some token
        → validate_token jwt tm now.validate_at token ≡ ok claims
        → Passed now next ctx r s
    unfolding from_context tenant_from_context new_context_with_request
    good_token token claims e good =
        let passed = auth_middleware-valid token claims e good in
        record {
          claims = claims;
          bears = record { token = token; bearer = e; valid = good };
          result = passed;
          given = new_context_with_request (request_context jwt tm now claims) ctx;
          tenant = refl;
          user = refl;
          tenant_alone = refl;
          status = ap (λ o. o.0.response.status) passed;
          payload = ap (λ o. o.0.response.payload) passed;
          header = ap (λ o. o.0.response.header) passed;
          samples = ap (λ o. o.0.samples) passed;
          state = ap (λ o. o.1) passed;
        }

    -- The middleware either passes the request on as it is, with a context in which the handler reads
    -- the tenant and the user of the request's valid token, and then gives the handler's own status,
    -- payload, samples and state, with the context's trace and request identifiers ahead in the header;
    -- or it answers 401 with an error, does not call the handler, and changes no state. It refuses no
    -- request that bears a valid token.
    pub auth_gate : Passed now next ctx r s ⊎ Refused now next ctx r s
    auth_gate = elim (Option-cases (bearer_token (get_header "Authorization" r))) [
      | inl missing ↦ inr (no_token missing)
      | inr (token, e) ↦ elim (Result-cases (validate_token jwt tm now.validate_at token)) [
        | inl (message, bad) ↦ inr (bad_token token message e bad)
        | inr (claims, good) ↦ inl (good_token token claims e good)
      ]
    ]
