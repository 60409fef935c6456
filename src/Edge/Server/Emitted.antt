-- ===== src/Edge/Server/Emitted.antt =====
-- The calls that the edge makes on the metrics while it serves a request: one rule for any property of
-- their sequence.
use axiler_fin.Base.{
  ℕ, Bool, false, String, Option, List, Dict, Option-cases, Bool-cases, Result-cases, inl, inr,
  ◌=ˢ◌, [], ◌∷◌, ◌++◌,
}
use axiler_fin.Base.Float.{Float64}
use axiler_fin.Base.Utf8.{runes}
use axiler_fin.Base.Regexp.{match_string}
use axiler_fin.Metrics.{
  Sample, inc, dec, set, observe, edge_suspicious, edge_rate_limit_hits, service_health,
  requests_in_flight, request_latency,
}
use axiler_fin.Http.{reader, Request}
use axiler_fin.Auth.{TokenManager}
use axiler_fin.Auth.Interface.{Jwt}
use axiler_fin.Service.{Outcome}
use axiler_fin.RateLimit.{allow}
use axiler_fin.Router.{Chi}
use axiler_fin.Edge.Server.{
  Endpoint, metrics, health, protected, ratelimit_status, routes, Call, Server, answer, serve,
  handle_edge_health,
}
use axiler_fin.Edge.Abuse.Detect.{detect}
use axiler_fin.Edge.Middleware.{
  Edge, Clock, secret_pattern, read_all, or_unknown, tenant_of, pass_on, guarded, limited, scanned,
  security_middleware, proxy_request, handle_rate_limit_status, backend_url,
}

-- What a property `P` of a request's samples rests on, where `Q` holds of the samples that the reverse
-- proxy makes.
pub record Emitted (F : Type 0) (Q P : List (Sample F) → Type 0) : Type 0 where
  pub quiet_next : Q []
  pub quiet : P []
  pub suspicious : (reason : String) → P (inc edge_suspicious (reason ∷ []) ∷ [])
  pub hit : (tenant : String) → P (inc edge_rate_limit_hits (tenant ∷ []) ∷ [])
  pub health : (x : F) → P (set service_health ("edge" ∷ []) x ∷ [])
  pub passed :
      (uri tenant : String) (x : F) (samples : List (Sample F))
      → Q samples
      → P (
          inc requests_in_flight ("edge" ∷ uri ∷ [])
          ∷ (samples
              ++ (observe request_latency ("edge" ∷ uri ∷ tenant ∷ []) x
                  ∷ dec requests_in_flight ("edge" ∷ uri ∷ [])
                  ∷ [])))

module _ (fl : Float64) (jwt : Jwt) (Q P : List (Sample fl.F) → Type 0)
    (rules : Emitted fl.F Q P) where
  open fl use {F}

  module _ (login_key : List ℕ → Option String) where
    -- Whatever the request, the handler's samples are as required.
    abbrev Safe : (Request → Outcome F) → Type 0
    Safe next = (r : Request) → Q (next r).samples

    pass_on-samples :
        (now : Clock) (tenant : String) (body : List ℕ) (r : Request) (next : Request → Outcome F)
        → Safe next
        → P (pass_on fl jwt login_key now tenant body r next).samples
    pass_on-samples now tenant body r next h =
        rules.passed r.request_uri tenant _ (next (record r { body = reader body false })).samples
          (h _)

    guarded-samples :
        (now : Clock) (tenant : String) (body : List ℕ) (r : Request) (next : Request → Outcome F)
        (e : Edge F)
        → Safe next
        → P (guarded fl jwt login_key now tenant body r next e).0.samples
    guarded-samples now tenant body r next e h =
        let (signal, after) =
          detect now.abuse tenant (record { request = r; detector = e.detector }) in
        elim (Bool-cases signal.detected) [
          | inl alarm ↦ rw alarm (rules.suspicious "abuse_pattern")
          | inr quiet ↦ rw quiet (pass_on-samples now tenant body after.request next h)
        ]

    limited-samples :
        (now : Clock) (tenant : String) (body : List ℕ) (r : Request) (next : Request → Outcome F)
        (e : Edge F)
        → Safe next
        → P (limited fl jwt login_key now tenant body r next e).0.samples
    limited-samples now tenant body r next e h =
        let (allowed, tl) = allow fl tenant now.allow_at e.limiter in
        elim (Bool-cases allowed) [
          | inl within ↦
              rw within (guarded-samples now tenant body r next (record e { limiter = tl }) h)
          | inr exhausted ↦ rw exhausted (rules.hit tenant)
        ]

    scanned-samples :
        (tm : TokenManager jwt) (now : Clock) (body : List ℕ) (r : Request)
        (next : Request → Outcome F) (e : Edge F)
        → Safe next
        → P (scanned fl jwt login_key tm now body r next e).0.samples
    scanned-samples tm now body r next e h =
        elim (Bool-cases (match_string secret_pattern (runes body))) [
          | inl secret ↦ rw secret (rules.suspicious "potential_secret_in_request")
          | inr clean ↦ elim (Result-cases (tenant_of fl jwt login_key tm now.validate_at r body)) [
            | inl (message, nobody) ↦ rw (clean, nobody) rules.quiet
            | inr (tenant, known) ↦
                rw (clean, known)
                  (limited-samples now (or_unknown tenant) body
                    (record r { body = reader body false }) next e h)
          ]
        ]

    security_middleware-samples :
        (tm : TokenManager jwt) (now : Clock) (next : Request → Outcome F) (r : Request)
        (e : Edge F)
        → Safe next
        → P (security_middleware fl jwt login_key tm now next r e).0.samples
    unfolding security_middleware
    security_middleware-samples tm now next r e h = elim (Option-cases (read_all r.body)) [
      | inl broken ↦ rw (broken, security_middleware) (rules.suspicious "read_error")
      | inr (body, read) ↦ rw (read, security_middleware) (scanned-samples tm now body r next e h)
    ]

    proxy_request-Safe :
        (parses : String → Bool) (proxied : String → Request → Outcome F) (order : Dict String)
        → ((host : String) (r : Request) → Q (proxied host r).samples)
        → Safe (proxy_request parses proxied order)
    unfolding proxy_request
    proxy_request-Safe parses proxied order h r =
        elim (Bool-cases (backend_url order r.request_uri =ˢ "")) [
          | inl nowhere ↦ rw nowhere rules.quiet_next
          | inr there ↦ elim (Bool-cases (parses (backend_url order r.request_uri))) [
            | inl good ↦ rw (there, good) (h _ _)
            | inr bad ↦ rw (there, bad) rules.quiet_next
          ]
        ]

    module _ (parses : String → Bool) where
      pub answer-samples :
          (e : Endpoint) (params : Dict String) (c : Call F) (s : Server jwt F)
          → ((host : String) (r : Request) → Q (c.proxied host r).samples)
          → P (answer fl jwt login_key parses e params c s).0.samples
      unfolding handle_edge_health handle_rate_limit_status
      answer-samples metrics params c s h = rules.quiet
      answer-samples health params c s h = rules.health _
      answer-samples protected params c s h =
          security_middleware-samples s.token_manager c.now (proxy_request parses c.proxied c.order)
            c.request s.edge (proxy_request-Safe parses c.proxied c.order h)
      answer-samples ratelimit_status params c s h = rules.quiet

      -- So it is with the samples of every request, if the reverse proxy's are as required.
      pub serve-samples :
          (chi : Chi) (c : Call F) (s : Server jwt F)
          → ((host : String) (r : Request) → Q (c.proxied host r).samples)
          → P (serve fl jwt login_key parses chi c s).0.samples
      unfolding serve
      serve-samples chi c s h = elim (Option-cases (chi.find routes c.request)) [
        | inl nowhere ↦ rw nowhere rules.quiet
        | inr ((at, params), found) ↦ rw found (answer-samples at params c s h)
      ]
