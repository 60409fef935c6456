-- ===== src/Edge/Middleware/Blocked.antt =====
-- No request reaches a backend through the edge: what the rate limiter lets pass, abuse detection
-- refuses.
use axiler_fin.Base.{
  ℕ, true, false, String, List, [], ◌∷◌, ◌≡◌, refl, ap, ◌∙◌, Option, Option-cases, Bool-cases, ◌⊎◌,
  inl, inr, Result, ok, err, All,
}
use axiler_fin.Base.Float.{Float64}
use axiler_fin.Base.Utf8.{runes}
use axiler_fin.Base.Regexp.{match_string}
use axiler_fin.Http.{Request, reader}
use axiler_fin.RateLimit.{allow}
use axiler_fin.Auth.{TokenManager}
use axiler_fin.Auth.Interface.{Jwt}
use axiler_fin.Service.{Outcome}
use axiler_fin.Edge.Abuse.Checks.{Scan}
use axiler_fin.Edge.Abuse.Detect.{detect}
use axiler_fin.Edge.Abuse.Detect.Alarm.{HasPattern, detect-Alarms}
use axiler_fin.Edge.Abuse.Detect.Histories.{detect-command_injection}
use axiler_fin.Edge.Middleware.{
  Edge, Clock, secret_pattern, read_all, or_unknown, tenant_of, guarded, limited, identified,
  scanned, security_middleware,
}

-- The answers of the edge that refuse a request.
abbrev pub IsRefusal : ℕ → Type 0
IsRefusal status = (status ≡ 400) ⊎ (status ≡ 401) ⊎ (status ≡ 403) ⊎ (status ≡ 429)

-- Two runs of a handler have the same result, and it is a refusal that keeps the detector's pattern.
pub record Blocked {F : Type 0} (result result' : Outcome F × Edge F) : Type 0 where
  pub same : result ≡ result'
  pub refused : IsRefusal result.0.response.status
  pub pattern : HasPattern result.1.detector

module _ (fl : Float64) (jwt : Jwt) (login_key : List ℕ → Option String) where
  open fl use {F}

  guarded-Blocked :
      (now : Clock) (tenant : String) (body : List ℕ) (r : Request)
      (next next' : Request → Outcome F) (e : Edge F)
      → r.body ≡ reader body false
      → HasPattern e.detector
      → Blocked
          (guarded fl jwt login_key now tenant body r next e)
          (guarded fl jwt login_key now tenant body r next' e)
  guarded-Blocked now tenant body r next next' e b p =
      let s : Scan = record { request = r; detector = e.detector } in
      let alarm : (detect now.abuse tenant s).0.detected ≡ true =
        (detect-Alarms now.abuse tenant s body false b p).0 in
      (record {
        same = rw alarm refl;
        refused = rw alarm (inr (inr (inl refl)));
        pattern = detect-command_injection now.abuse tenant s ∙ p;
      })

  limited-Blocked :
      (now : Clock) (tenant : String) (body : List ℕ) (r : Request)
      (next next' : Request → Outcome F) (e : Edge F)
      → r.body ≡ reader body false
      → HasPattern e.detector
      → Blocked
          (limited fl jwt login_key now tenant body r next e)
          (limited fl jwt login_key now tenant body r next' e)
  limited-Blocked now tenant body r next next' e b p =
      let (allowed, tl) = allow fl tenant now.allow_at e.limiter in
      elim (Bool-cases allowed) [
        | inl allows ↦
            rw allows (guarded-Blocked now tenant body r next next' (record e { limiter = tl }) b p)
        | inr exhausted ↦
            rw exhausted (record { same = refl; refused = inr (inr (inr refl)); pattern = p })
      ]

  identified-Blocked :
      (now : Clock) (tenant : Result String) (body : List ℕ) (r : Request)
      (next next' : Request → Outcome F) (e : Edge F)
      → r.body ≡ reader body false
      → HasPattern e.detector
      → Blocked
          (identified fl jwt login_key now tenant body r next e)
          (identified fl jwt login_key now tenant body r next' e)
  identified-Blocked now (err message) body r next next' e b p = record {
    same = refl;
    refused = inr (inl refl);
    pattern = p;
  }
  identified-Blocked now (ok tenant) body r next next' e b p =
      limited-Blocked now (or_unknown tenant) body r next next' e b p

  scanned-Blocked :
      (tm : TokenManager jwt) (now : Clock) (body : List ℕ) (r : Request)
      (next next' : Request → Outcome F) (e : Edge F)
      → HasPattern e.detector
      → Blocked
          (scanned fl jwt login_key tm now body r next e)
          (scanned fl jwt login_key tm now body r next' e)
  scanned-Blocked tm now body r next next' e p =
      elim (Bool-cases (match_string secret_pattern (runes body))) [
        | inl secret ↦ rw secret (record { same = refl; refused = inl refl; pattern = p })
        | inr clean ↦ rw clean (
            identified-Blocked now (tenant_of fl jwt login_key tm now.validate_at r body) body
              (record r { body = reader body false }) next next' e refl p)
      ]

  pub middleware-Blocked :
      (tm : TokenManager jwt) (now : Clock) (r : Request) (next next' : Request → Outcome F)
      (e : Edge F)
      → HasPattern e.detector
      → Blocked
          (security_middleware fl jwt login_key tm now next r e)
          (security_middleware fl jwt login_key tm now next' r e)
  unfolding security_middleware
  middleware-Blocked tm now r next next' e p = elim (Option-cases (read_all r.body)) [
    | inl broken ↦
        rw (broken, security_middleware) (record { same = refl; refused = inl refl; pattern = p })
    | inr (body, read) ↦
        rw (read, security_middleware) (scanned-Blocked tm now body r next next' e p)
  ]

  -- The outcomes of a series of requests at one edge.
  pub serve_all :
      TokenManager jwt → (Request → Outcome F) → List (Clock × Request) → Edge F → List (Outcome F)
  serve_all tm next [] e = []
  serve_all tm next ((now, r) ∷ calls) e =
      let (out, e') = security_middleware fl jwt login_key tm now next r e in
      out ∷ serve_all tm next calls e'

  -- With the command-injection expression that `NewAbuseDetector` compiles, no request is ever handed to a backend:
  -- for every series of requests, with valid tokens or not, each is answered with 400, 401, 403 or 429,
  -- and the outcomes are the same whatever handler stands behind the middleware.
  pub backends_unreachable :
      (tm : TokenManager jwt) (calls : List (Clock × Request)) (next next' : Request → Outcome F)
      (e : Edge F)
      → HasPattern e.detector
      → (serve_all tm next calls e ≡ serve_all tm next' calls e)
        × All (λ out. IsRefusal out.response.status) (serve_all tm next calls e)
  unfolding serve_all
  backends_unreachable tm [] next next' e p = (refl, tt)
  backends_unreachable tm ((now, r) ∷ calls) next next' e p =
      let blocked = middleware-Blocked tm now r next next' e p in
      let (same, refused) =
        backends_unreachable tm calls next next'
          (security_middleware fl jwt login_key tm now next r e).1 blocked.pattern in
      (
        ap (λ outs. (security_middleware fl jwt login_key tm now next r e).0 ∷ outs) same
            ∙ ap (λ result. result.0 ∷ serve_all tm next' calls result.1) blocked.same,
        (blocked.refused, refused),
      )
