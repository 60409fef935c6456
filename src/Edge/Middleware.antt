-- ===== src/Edge/Middleware.antt =====
-- cmd/edge-service/main.go: `securityMiddleware`, the routing to the backends and the status of the
-- rate limiter. Go's library is a parameter: `login_key` gives the text at `api_key` of a body that
-- decodes to a JSON object, if there is one; `parses` tells whether `url.Parse` accepts a URL; `proxy`
-- is the reverse proxy, which sends the directed request to a host.
pub mod Blocked
pub mod Gate
pub mod Routing
pub mod Order
pub mod Rate
use axiler_fin.Base.{
  ℕ, zero, suc, String, Bool, true, false, Option, none, some, List, [], ◌∷◌, ◌++◌, Dict, insert,
  lookup, Result, ok, err, not, any, ◌||◌, ◌&&◌, ◌=ˢ◌, ◌==◌, ltb, leb, codes, contains, has_prefix,
  before, if◌then◌else◌,
}
use axiler_fin.Base.Int.{pos, sub_ℕ}
use axiler_fin.Base.Float.{Float64, seconds}
use axiler_fin.Base.Regexp.{Regexp, empty, class, seq, alt, star, one_of, literal, match_string}
use axiler_fin.Base.Utf8.{runes}
use axiler_fin.Models.{Time, LimitStatus}
use axiler_fin.Metrics.{
  Sample, inc, dec, observe, edge_suspicious, edge_rate_limit_hits, requests_in_flight,
  request_latency,
}
use axiler_fin.Http.{
  Body, no_body, reader, Request, Response, Payload, error, rate_limited, limit_status, get_header,
}
use axiler_fin.RateLimit.{TenantLimiter, allow, get_status}
use axiler_fin.Auth.{TokenManager, validate_token}
use axiler_fin.Auth.Interface.{Jwt, TokenClaims}
use axiler_fin.Service.{Outcome, reply, bearer_token, generate_request_id, generate_trace_id}
use axiler_fin.Edge.Abuse.{AbuseSignal, AbuseDetector}
use axiler_fin.Edge.Abuse.Checks.{Scan}
use axiler_fin.Edge.Abuse.Detect.{Readings, detect}

-- The package variables that a request may change.
pub record Edge (F : Type 0) : Type 0 where
  pub limiter : TenantLimiter F
  pub detector : AbuseDetector

-- What the clock reads at each call of it.
pub record Clock : Type 0 where
  pub trace_at : Time
  pub request_at : Time
  pub validate_at : Time
  pub allow_at : Time
  pub abuse : Readings
  pub start : Time
  pub done : Time

-- `\s`
abbrev white : Regexp
white = class (λ c. c == 32 || c == 9 || c == 10 || c == 12 || c == 13)

-- `[a-zA-Z0-9\-._~+/]`
abbrev token_char : Regexp
token_char = class (λ c.
    (leb b'a' c && leb c b'z')
    || (leb b'A' c && leb c b'Z')
    || (leb b'0' c && leb c b'9')
    || any (λ d. c == d) (codes "-._~+/"))

-- `["']?`
abbrev quote : Regexp
quote = alt (class (λ c. c == 34 || c == 39)) empty

-- `secretPattern`
unfoldable pub secret_pattern : Regexp
unfolding one_of literal
secret_pattern =
    seq (one_of literal ("password" ∷ "secret" ∷ "token" ∷ "api_key" ∷ "aws_secret" ∷ [])) (
      seq (star white) (
        seq (class (λ c. c == b':' || c == b'=')) (
          seq (star white) (
            seq quote (
              seq (seq token_char (star token_char))
                (seq (star (class (λ c. c == b'='))) quote))))))

-- `extractTenantFromKey`: the text before the first underscore
unfoldable pub extract_tenant_from_key : String → String
extract_tenant_from_key api_key = before b'_' api_key

-- `io.ReadAll(r.Body)`. A server's request always has a body, so that `no_body` is an empty one.
abbrev pub read_all : Body → Option (List ℕ)
read_all no_body = some []
read_all (reader bytes broken) = if broken then none else some bytes

abbrev pub or_unknown : String → String
or_unknown tenant = if tenant =ˢ "" then "unknown" else tenant

module _ (fl : Float64) (jwt : Jwt) (login_key : List ℕ → Option String) where
  open fl use {F}

  -- The tenant of a login request.
  abbrev pub login_tenant : Option String → String
  login_tenant none = ""
  login_tenant (some api_key) = extract_tenant_from_key api_key

  abbrev pub claims_tenant : Result TokenClaims → Result String
  claims_tenant (err e) = err "invalid token"
  claims_tenant (ok claims) =
      if claims.tenant_id =ˢ "" then err "invalid token" else ok claims.tenant_id

  -- The tenant of any other request, or the message of the answer 401.
  unfoldable pub token_tenant : TokenManager jwt → Time → Request → Result String
  token_tenant tm now r = elim (bearer_token (get_header "Authorization" r)) [
    | none ↦ err "invalid token format"
    | some token ↦ claims_tenant (validate_token jwt tm now token)
  ]

  unfoldable pub tenant_of : TokenManager jwt → Time → Request → List ℕ → Result String
  unfolding token_tenant
  tenant_of tm now r body =
      if contains (codes r.request_uri) (codes "/auth/login")
      then ok (login_tenant (login_key body))
      else token_tenant tm now r

  -- The part after the checks, which hands the request on with the body that was read.
  abbrev pub pass_on : Clock → String → List ℕ → Request → (Request → Outcome F) → Outcome F
  pass_on now tenant body r next =
      let out = next (record r { body = reader body false }) in
      record {
        response = record (out.response) {
          header =
              ("X-Trace-ID", generate_trace_id now.trace_at)
              ∷ ("X-Request-ID", generate_request_id now.request_at)
              ∷ ("X-Content-Type-Options", "nosniff")
              ∷ ("X-Frame-Options", "DENY")
              ∷ ("Strict-Transport-Security", "max-age=31536000; includeSubDomains")
              ∷ out.response.header;
        };
        samples =
            inc requests_in_flight ("edge" ∷ r.request_uri ∷ [])
            ∷ (out.samples
                ++ (observe request_latency ("edge" ∷ r.request_uri ∷ tenant ∷ [])
                      (seconds fl (sub_ℕ now.done now.start))
                    ∷ dec requests_in_flight ("edge" ∷ r.request_uri ∷ [])
                    ∷ []));
      }

  abbrev pub judged :
      Clock → String → List ℕ → (Request → Outcome F) → AbuseSignal → Request → Outcome F
  judged now tenant body next signal r =
      if signal.detected
      then reply 403 (error signal.reason) (inc edge_suspicious ("abuse_pattern" ∷ []) ∷ [])
      else pass_on now tenant body r next

  -- Abuse detection, and what follows it.
  abbrev pub guarded :
      Clock → String → List ℕ → Request → (Request → Outcome F) → Edge F → Outcome F × Edge F
  guarded now tenant body r next e =
      let (signal, s) = detect now.abuse tenant (record { request = r; detector = e.detector }) in
      (judged now tenant body next signal s.request, record e { detector = s.detector })

  -- Rate limiting, and what follows it.
  abbrev pub limited :
      Clock → String → List ℕ → Request → (Request → Outcome F) → Edge F → Outcome F × Edge F
  limited now tenant body r next e =
      let (allowed, tl) = allow fl tenant now.allow_at e.limiter in
      let e' = record e { limiter = tl } in
      if allowed then guarded now tenant body r next e' else (
        reply 429
            (rate_limited "rate limit exceeded" (generate_trace_id now.trace_at)
              (get_status fl tenant tl))
            (inc edge_rate_limit_hits (tenant ∷ []) ∷ []),
        e',
      )

  abbrev pub identified :
      Clock → Result String → List ℕ → Request → (Request → Outcome F) → Edge F → Outcome F × Edge F
  identified now (err message) body r next e = (reply 401 (error message) [], e)
  identified now (ok tenant) body r next e = limited now (or_unknown tenant) body r next e

  -- The middleware from the read body on.
  abbrev pub scanned :
      TokenManager jwt
      → Clock
      → List ℕ
      → Request
      → (Request → Outcome F)
      → Edge F
      → Outcome F × Edge F
  scanned tm now body r next e =
      if match_string secret_pattern (runes body)
      then (
        reply 400 (error "suspicious content detected")
            (inc edge_suspicious ("potential_secret_in_request" ∷ []) ∷ []),
        e,
      )
      else identified now (tenant_of tm now.validate_at r body) body
          (record r { body = reader body false }) next e

  -- `securityMiddleware(next)`
  unfoldable pub security_middleware :
      TokenManager jwt → Clock → (Request → Outcome F) → Request → Edge F → Outcome F × Edge F
  unfolding tenant_of
  security_middleware tm now next r e = elim (read_all r.body) [
    | none ↦ (reply 400 (error "invalid request") (inc edge_suspicious ("read_error" ∷ []) ∷ []), e)
    | some body ↦ scanned tm now body r next e
  ]

-- `backends`
abbrev pub backends : Dict String
backends =
    ("/auth", "http://auth:8081")
    ∷ ("/api/v1/search", "http://search:8082")
    ∷ ("/api/v1/transfer", "http://transfer:8083")
    ∷ []

-- The loop over the backends, in the order in which the range visits them: "" if none fits.
unfoldable pub backend_url : Dict String → String → String
backend_url [] uri = ""
backend_url ((path, url) ∷ rest) uri =
    if has_prefix (codes uri) (codes path) then url else backend_url rest uri

abbrev drop_prefix : ℕ → String → String
drop_prefix zero s = s
drop_prefix (suc n) String.[] = String.[]
drop_prefix (suc n) (String.◌∷◌ c s) = drop_prefix n s

-- `strings.TrimPrefix(url, "http://")`
abbrev pub trim_scheme : String → String
trim_scheme url = if has_prefix (codes url) (codes "http://") then drop_prefix 7 url else url

-- What the director makes of the request.
abbrev pub directed : Request → Request
directed r = record r {
  request_uri = "";
  header =
      insert "X-Forwarded-Proto" ("https" ∷ [])
        (insert "X-Forwarded-For" (r.remote_addr ∷ []) r.header);
}

-- `proxyRequest`, where `order` is the order in which the range visits `backends`
unfoldable pub proxy_request :
    {F : Type 0}
    → (String → Bool)
    → (String → Request → Outcome F)
    → Dict String
    → Request
    → Outcome F
unfolding backend_url
proxy_request parses proxy order r =
    let url = backend_url order r.request_uri in
    if url =ˢ ""
    then reply 404 (error "endpoint not found") []
    else (if parses url
        then proxy (trim_scheme url) (directed r)
        else reply 502 (error "invalid backend configuration") [])

-- `handleRateLimitStatus`
unfoldable pub handle_rate_limit_status : (fl : Float64) → String → Edge fl.F → Outcome fl.F
handle_rate_limit_status fl tenant e = record {
  response = record {
    status = 200;
    header = ("Content-Type", "application/json") ∷ [];
    payload = limit_status (get_status fl tenant e.limiter);
  };
  samples = [];
}
