-- ===== src/Edge/Middleware/Gate.antt =====
-- What `securityMiddleware` demands of a request before it hands it on, whatever the expressions of the
-- detector are.
use axiler_fin.Base.{
  Result-cases, ℕ, true, false, String, List, ◌≡◌, ◌≢◌, refl, arith, Option, Option-cases,
  Bool-cases, ◌⊎◌, inl, inr, ok, some, codes, contains, eq_iff, ◌∷◌, ap, ◌∙◌,
}
use axiler_fin.Base.Float.{Float64}
use axiler_fin.Base.Utf8.{runes}
use axiler_fin.Base.Regexp.{match_string}
use axiler_fin.Http.{Request, reader, get_header}
use axiler_fin.RateLimit.{allow}
use axiler_fin.Auth.{TokenManager, validate_token}
use axiler_fin.Auth.Interface.{Jwt, TokenClaims}
use axiler_fin.Service.{Outcome, bearer_token, generate_request_id, generate_trace_id}
use axiler_fin.Edge.Abuse.Detect.Handed.{detect-body}
use axiler_fin.Edge.Abuse.Checks.{Scan}
use axiler_fin.Edge.Abuse.Detect.{detect}
use axiler_fin.Edge.Middleware.{
  Edge, Clock, secret_pattern, read_all, or_unknown, token_tenant, claims_tenant, tenant_of,
  pass_on, limited, security_middleware,
}
use axiler_fin.Edge.Middleware.Blocked.{IsRefusal}

module _ (fl : Float64) (jwt : Jwt) (login_key : List ℕ → Option String) (tm : TokenManager jwt)
    (now : Clock) where
  open fl use {F}

  -- The request bears a valid token of the tenant, which is named.
  pub record Vouched (r : Request) (tenant : String) : Type 0 where
    pub token : String
    pub claims : TokenClaims
    pub bearer : bearer_token (get_header "Authorization" r) ≡ some token
    pub valid : validate_token jwt tm now.validate_at token ≡ ok claims
    pub own : claims.tenant_id ≡ tenant
    pub named : tenant ≢ ""

  -- The request's URI holds the path of the login, anywhere, also in its query.
  abbrev pub NamesLogin : Request → Type 0
  NamesLogin r = contains (codes r.request_uri) (codes "/auth/login") ≡ true

  claims_tenant-ok :
      (claims : TokenClaims) (tenant : String)
      → claims_tenant fl jwt login_key (ok claims) ≡ ok tenant
      → (claims.tenant_id ≡ tenant) × (tenant ≢ "")
  claims_tenant-ok claims tenant h = ground (arith, eq_iff claims.tenant_id "")

  token_tenant-Vouched :
      (r : Request) (tenant : String)
      → token_tenant fl jwt login_key tm now.validate_at r ≡ ok tenant
      → Vouched r tenant
  unfolding token_tenant
  token_tenant-Vouched r tenant h =
      elim (Option-cases (bearer_token (get_header "Authorization" r))) [
        | inl missing ↦ absurd (ground arith)
        | inr (token, bears) ↦ elim (Result-cases (validate_token jwt tm now.validate_at token)) [
          | inl (message, bad) ↦ absurd (ground arith)
          | inr (claims, good) ↦
              let (own, named) = claims_tenant-ok claims tenant (ground arith) in
              record {
                token = token;
                claims = claims;
                bearer = bears;
                valid = good;
                own = own;
                named = named;
              }
        ]
      ]

  tenant_of-cases :
      (r : Request) (body : List ℕ) (tenant : String)
      → tenant_of fl jwt login_key tm now.validate_at r body ≡ ok tenant
      → NamesLogin r ⊎ Vouched r tenant
  unfolding tenant_of
  tenant_of-cases r body tenant h =
      elim (Bool-cases (contains (codes r.request_uri) (codes "/auth/login"))) [
        | inl login ↦ inl login
        | inr other ↦ inr (token_tenant-Vouched r tenant (ground arith))
      ]

  -- What is scanned for abuse: the request with the body that was read.
  abbrev pub scan_of : Request → List ℕ → Edge F → Scan
  scan_of r body e = record {
    request = record r { body = reader body false };
    detector = e.detector;
  }

  -- A part of the middleware refuses the request, and never meets the handler.
  abbrev Stops : ((Request → Outcome F) → Outcome F × Edge F) → Type 0
  Stops part =
      ((next : Request → Outcome F) → IsRefusal (part next).0.response.status)
      × ((next next' : Request → Outcome F) → part next' ≡ part next)

  -- The request is within its tenant's limit and is not reported, and is handed on.
  record Clear (tenant : String) (body : List ℕ) (r : Request) (e : Edge F) : Type 0 where
    allowed : (allow fl tenant now.allow_at e.limiter).0 ≡ true
    passed : (detect now.abuse tenant (scan_of r body e)).0.detected ≡ false
    result :
        (next : Request → Outcome F)
        → (limited fl jwt login_key now tenant body (scan_of r body e).request next e).0
          ≡ pass_on fl jwt login_key now tenant body
              (detect now.abuse tenant (scan_of r body e)).1.request
              next

  limited-cases :
      (tenant : String) (body : List ℕ) (r : Request) (e : Edge F)
      → Clear tenant body r e
        ⊎ Stops (λ next. limited fl jwt login_key now tenant body (scan_of r body e).request next e)
  limited-cases tenant body r e = elim (Bool-cases (allow fl tenant now.allow_at e.limiter).0) [
    | inl allows ↦ elim (Bool-cases (detect now.abuse tenant (scan_of r body e)).0.detected) [
      | inl alarm ↦
          inr (
            λ next. rw (allows, alarm) (inr (inr (inl refl))),
            λ next next'. rw (allows, alarm) refl,
          )
      | inr quiet ↦
          inl
            (record { allowed = allows; passed = quiet; result = λ next. rw (allows, quiet) refl })
    ]
    | inr exhausted ↦
        inr (λ next. rw exhausted (inr (inr (inr refl))), λ next next'. rw exhausted refl)
  ]

  -- A request that is handed on has a body in which the scan finds no secret, names the login in its
  -- URI or bears a valid token, is within the limit of its tenant and is not reported. The handler gets
  -- it with the whole body and nothing else changed, and the response is the handler's with five more
  -- headers.
  pub record Forwarded (next : Request → Outcome F) (r : Request) (e : Edge F) : Type 0 where
    pub body : List ℕ
    pub tenant : String
    pub read : read_all r.body ≡ some body
    pub clean : match_string secret_pattern (runes body) ≡ false
    pub vouched : NamesLogin r ⊎ Vouched r tenant
    pub allowed : (allow fl (or_unknown tenant) now.allow_at e.limiter).0 ≡ true
    pub passed : (detect now.abuse (or_unknown tenant) (scan_of r body e)).0.detected ≡ false
    pub result :
        (security_middleware fl jwt login_key tm now next r e).0
        ≡ pass_on fl jwt login_key now
            (or_unknown tenant)
            body
            (detect now.abuse (or_unknown tenant) (scan_of r body e)).1.request
            next
    pub status :
        (security_middleware fl jwt login_key tm now next r e).0.response.status
        ≡ (next (record r { body = reader body false })).response.status
    pub payload :
        (security_middleware fl jwt login_key tm now next r e).0.response.payload
        ≡ (next (record r { body = reader body false })).response.payload
    pub header :
        (security_middleware fl jwt login_key tm now next r e).0.response.header
        ≡ ("X-Trace-ID", generate_trace_id now.trace_at)
          ∷ ("X-Request-ID", generate_request_id now.request_at)
          ∷ ("X-Content-Type-Options", "nosniff")
          ∷ ("X-Frame-Options", "DENY")
          ∷ ("Strict-Transport-Security", "max-age=31536000; includeSubDomains")
          ∷ (next (record r { body = reader body false })).response.header

  -- A request that is refused never meets the handler.
  pub record Stopped (next : Request → Outcome F) (r : Request) (e : Edge F) : Type 0 where
    pub refused : IsRefusal (security_middleware fl jwt login_key tm now next r e).0.response.status
    pub unread :
        (next' : Request → Outcome F)
        → security_middleware fl jwt login_key tm now next' r e
          ≡ security_middleware fl jwt login_key tm now next r e

  handed_on :
      (next : Request → Outcome F) (r : Request) (e : Edge F) (body : List ℕ) (tenant : String)
      → read_all r.body ≡ some body
      → match_string secret_pattern (runes body) ≡ false
      → NamesLogin r ⊎ Vouched r tenant
      → Clear (or_unknown tenant) body r e
      → (security_middleware fl jwt login_key tm now next r e).0
        ≡ pass_on fl jwt login_key now
            (or_unknown tenant)
            body
            (detect now.abuse (or_unknown tenant) (scan_of r body e)).1.request
            next
      → Forwarded next r e
  handed_on next r e body tenant read clean vouched c passed_on =
      let same : record ((detect now.abuse (or_unknown tenant) (scan_of r body e)).1.request) {
        body = reader body false;
      }
          ≡ record r { body = reader body false } =
        detect-body now.abuse (or_unknown tenant) (scan_of r body e) (reader body false) in
      record {
        body = body;
        tenant = tenant;
        read = read;
        clean = clean;
        vouched = vouched;
        allowed = c.allowed;
        passed = c.passed;
        result = passed_on;
        status = ap (λ o. o.response.status) passed_on ∙ ap (λ q. (next q).response.status) same;
        payload = ap (λ o. o.response.payload) passed_on ∙ ap (λ q. (next q).response.payload) same;
        header =
            ap (λ o. o.response.header) passed_on
            ∙ ap
                (λ q.
                  ("X-Trace-ID", generate_trace_id now.trace_at)
                  ∷ ("X-Request-ID", generate_request_id now.request_at)
                  ∷ ("X-Content-Type-Options", "nosniff")
                  ∷ ("X-Frame-Options", "DENY")
                  ∷ ("Strict-Transport-Security", "max-age=31536000; includeSubDomains")
                  ∷ (next q).response.header)
                same;
      }

  clean-gate :
      (next : Request → Outcome F) (r : Request) (e : Edge F) (body : List ℕ)
      → read_all r.body ≡ some body
      → match_string secret_pattern (runes body) ≡ false
      → Forwarded next r e ⊎ Stopped next r e
  unfolding security_middleware
  clean-gate next r e body read clean =
      elim (Result-cases (tenant_of fl jwt login_key tm now.validate_at r body)) [
        | inl (message, nobody) ↦ inr (record {
          refused = rw (read, clean, nobody, security_middleware) (inr (inl refl));
          unread = λ next'. rw (read, clean, nobody, security_middleware) refl;
        })
        | inr (tenant, known) ↦ elim (limited-cases (or_unknown tenant) body r e) [
          | inl c ↦ inl (
              handed_on next r e body tenant read clean (tenant_of-cases r body tenant known) c
                (rw (read, clean, known, security_middleware) (c.result next)))
          | inr (refused, unread) ↦ inr (record {
            refused = rw (read, clean, known, security_middleware) (refused next);
            unread = λ next'. rw (read, clean, known, security_middleware) (unread next next');
          })
        ]
      ]

  -- Whatever the detector's expressions, the middleware does one of two things. It hands the request on,
  -- with the body that it read and nothing else changed, and answers with the handler's status and
  -- payload and five more headers: then the scan finds no secret in the body, the request bears a valid
  -- token of a named tenant or has `/auth/login` somewhere in its URI, which is all that the code takes
  -- for a login, the limiter allows it, and no abuse is reported. Or it answers 400, 401, 403 or 429,
  -- whatever the handler is.
  pub edge_gate :
      (next : Request → Outcome F) (r : Request) (e : Edge F)
      → Forwarded next r e ⊎ Stopped next r e
  unfolding security_middleware
  edge_gate next r e = elim (Option-cases (read_all r.body)) [
    | inl broken ↦ inr (record {
      refused = rw (broken, security_middleware) (inl refl);
      unread = λ next'. rw (broken, security_middleware) refl;
    })
    | inr (body, read) ↦ elim (Bool-cases (match_string secret_pattern (runes body))) [
      | inl secret ↦ inr (record {
        refused = rw (read, secret, security_middleware) (inl refl);
        unread = λ next'. rw (read, secret, security_middleware) refl;
      })
      | inr clean ↦ clean-gate next r e body read clean
    ]
  ]
