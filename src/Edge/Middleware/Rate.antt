-- ===== src/Edge/Middleware/Rate.antt =====
-- The rate at which the edge serves a tenant.
use axiler_fin.Base.{
  ℕ, suc, ◌+◌, ◌-◌, ◌*◌, ◌≤◌, String, ◌≡◌, refl, ap, Bool, true, false, not, ◌&&◌, Option, none,
  some, Option-cases, Bool-cases, Result-cases, Result, ok, err, inl, inr, List, [], ◌∷◌, ◌++◌,
  length, if◌then◌else◌, ◌=ˢ◌, ◌==◌, lookup, arith,
}
use axiler_fin.Base.Int.{pos}
use axiler_fin.Base.Float.{Float64, Ieee}
use axiler_fin.Base.Utf8.{runes}
use axiler_fin.Base.Regexp.{match_string}
use axiler_fin.Models.{Time}
use axiler_fin.Http.{Request, reader}
use axiler_fin.Auth.{TokenManager}
use axiler_fin.Auth.Interface.{Jwt}
use axiler_fin.Service.{Outcome}
use axiler_fin.RateLimit.{TenantLimiter, allow}
use axiler_fin.RateLimit.Burst.{answers, answers_of, times_of}
use axiler_fin.RateLimit.Spans.{count, parts, Paced, until}
use axiler_fin.RateLimit.Rate.{Rounding, rate}
use axiler_fin.Edge.Middleware.{
  Edge, Clock, secret_pattern, read_all, or_unknown, tenant_of, limited, security_middleware,
}

-- A request to the middleware, with its clock and the handler behind.
pub record Visit (F : Type 0) : Type 0 where
  pub now : Clock
  pub next : Request → Outcome F
  pub request : Request

module _ (fl : Float64) (jwt : Jwt) (login_key : List ℕ → Option String)
    (tm : TokenManager jwt) where
  open fl use {F}

  abbrev call_of : Time → Result String → List (String × Time)
  call_of at (err message) = []
  call_of at (ok tenant) = (or_unknown tenant, at) ∷ []

  -- The calls of `Allow` that the middleware makes for a request with this body: one, or none.
  abbrev body_call : Visit F → List ℕ → List (String × Time)
  body_call v body =
      if match_string secret_pattern (runes body)
      then []
      else call_of v.now.allow_at (tenant_of fl jwt login_key tm v.now.validate_at v.request body)

  abbrev pub limiter_call : Visit F → List (String × Time)
  limiter_call v = elim (read_all v.request.body) [ none ↦ [] | some body ↦ body_call v body ]

  unfoldable pub limiter_calls : List (Visit F) → List (String × Time)
  limiter_calls [] = []
  limiter_calls (v ∷ visits) = limiter_call v ++ limiter_calls visits

  abbrev names : String → List (String × Time) → Bool
  names tenant [] = false
  names tenant ((t, at) ∷ calls) = t =ˢ tenant

  abbrev pub visit : Visit F → Edge F → Outcome F × Edge F
  visit v e = security_middleware fl jwt login_key tm v.now v.next v.request e

  -- How many requests, of those for which the edge asks the limiter for this tenant, are answered with
  -- another status than 429.
  unfoldable pub served : String → List (Visit F) → Edge F → ℕ
  served tenant [] e = 0
  served tenant (v ∷ visits) e =
      let (out, e') = visit v e in
      let rest = served tenant visits e' in
      if names tenant (limiter_call v) && not (out.response.status == 429) then suc rest else rest

  -- The limiter after a series of calls, and how many of a tenant's it lets through.
  after : List (String × Time) → TenantLimiter F → TenantLimiter F
  after [] tl = tl
  after ((t, at) ∷ calls) tl = after calls (allow fl t at tl).1

  allowed : String → List (String × Time) → TenantLimiter F → ℕ
  allowed tenant calls tl = count (answers_of fl tenant calls (answers fl calls tl))

  allowed-append :
      (tenant : String) (calls rest : List (String × Time)) (tl : TenantLimiter F)
      → allowed tenant (calls ++ rest) tl
        ≡ allowed tenant calls tl + allowed tenant rest (after calls tl)
  unfolding allowed after count answers
  allowed-append tenant [] rest tl = omega arith
  allowed-append tenant ((t, at) ∷ calls) rest tl =
      ground (arith, allowed-append tenant calls rest (allow fl t at tl).1)

  -- What a request does to the limiter, and that one not answered with 429 was let through.
  record Meets (e : Edge F) (calls : List (String × Time)) (result : Outcome F × Edge F)
      : Type 0 where
    limiter : result.1.limiter ≡ after calls e.limiter
    paid :
        (tenant : String)
        → (names tenant calls && not (result.0.response.status == 429)) ≡ true
        → 1 ≤ allowed tenant calls e.limiter

  limited-Meets :
      (now : Clock) (tenant : String) (body : List ℕ) (r : Request) (next : Request → Outcome F)
      (e : Edge F)
      → Meets e ((tenant, now.allow_at) ∷ []) (limited fl jwt login_key now tenant body r next e)
  unfolding after allowed count answers
  limited-Meets now tenant body r next e =
      elim (Bool-cases (allow fl tenant now.allow_at e.limiter).0) [
        | inl through ↦ rw through (record { limiter = refl; paid = λ t h. ground arith })
        | inr exhausted ↦
            rw exhausted (record { limiter = refl; paid = λ t h. absurd (ground arith) })
      ]

  quiet-Meets : (e : Edge F) (out : Outcome F) → Meets e [] (out, e)
  unfolding after
  quiet-Meets e out = record { limiter = refl; paid = λ t h. absurd (ground arith) }

  visit-Meets : (v : Visit F) (e : Edge F) → Meets e (limiter_call v) (visit v e)
  unfolding security_middleware
  visit-Meets v e = elim (Option-cases (read_all v.request.body)) [
    | inl broken ↦ rw (broken, limiter_call, security_middleware) (quiet-Meets e _)
    | inr (body, read) ↦ elim (Bool-cases (match_string secret_pattern (runes body))) [
      | inl secret ↦ rw (read, secret, limiter_call, security_middleware) (quiet-Meets e _)
      | inr clean ↦
          elim (Result-cases (tenant_of fl jwt login_key tm v.now.validate_at v.request body)) [
            | inl (message, nobody) ↦
                rw (read, clean, nobody, limiter_call, security_middleware) (quiet-Meets e _)
            | inr (tenant, known) ↦
                rw (read, clean, known, limiter_call, security_middleware)
                  (limited-Meets v.now (or_unknown tenant) body
                    (record (v.request) { body = reader body false }) v.next e)
          ]
    ]
  ]

  served-le :
      (tenant : String) (visits : List (Visit F)) (e : Edge F)
      → served tenant visits e ≤ allowed tenant (limiter_calls visits) e.limiter
  unfolding served limiter_calls
  served-le tenant [] e = omega arith
  served-le tenant (v ∷ visits) e =
      let m = visit-Meets v e in
      let rest = served-le tenant visits (visit v e).1 in
      let same = ap (allowed tenant (limiter_calls visits)) m.limiter in
      let sum = allowed-append tenant (limiter_call v) (limiter_calls visits) e.limiter in
      elim (Bool-cases
        (names tenant (limiter_call v) && not ((visit v e).0.response.status == 429))) [
          | inl counted ↦ rw counted (omega (arith, m.paid tenant counted, rest, same, sum))
          | inr other ↦ rw other (omega (arith, rest, same, sum))
        ]

  -- The rate limit as a client meets it. Take any series of requests to `securityMiddleware`, from any
  -- state of the edge, with any handler behind it, in which the edge asks the limiter for a tenant
  -- that has a limit at `first` and then at `times`, none of these earlier than the one ahead of it or
  -- more than `longest` after it. In an arithmetic that rounds by at most `slack` parts, of which a
  -- token has 60,000,000,000, the requests for which it asks so and which are answered with another
  -- status than 429 are at most the tenant's limit and the limit once more for each minute between the
  -- first of these times and the last, but for twice the slack for each call after the first.
  pub served_rate :
      (laws : Ieee fl) (scaled : F → ℕ) (tenant : String) (limit slack longest : ℕ)
      (visits : List (Visit F)) (first : Time) (times : List Time) (e : Edge F)
      → Rounding fl scaled limit slack longest
      → lookup tenant e.limiter.limits ≡ some (pos limit)
      → times_of fl tenant (limiter_calls visits) ≡ first ∷ times
      → Paced longest first times
      → served tenant visits e * parts
        ≤ limit * parts + limit * (until first times - first) + 2 * slack * length times
  unfolding allowed
  served_rate laws scaled tenant limit slack longest visits first times e rounding known calls
        paced =
      omega (
        arith,
        served-le tenant visits e,
        rate fl laws scaled tenant limit slack longest (limiter_calls visits) first times e.limiter
            rounding known calls paced,
      )
