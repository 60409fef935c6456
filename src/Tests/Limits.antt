-- ===== src/Tests/Limits.antt =====
-- The rate limiter at concrete inputs: a tenant with a limit of two.
use axiler_fin.Base.{
  subst, ℕ, Option, contains, cut, ◌+◌, ◌-◌, ◌*◌, ◌≤◌, String, true, false, some, none, List, [],
  ◌∷◌, ◌≡◌, ◌≢◌, refl, arith, lookup, insert, lookup_or,
}
use axiler_fin.Base.Int.{pos, negsuc, sub_ℕ, ◌+ℤ◌, ◌-ℤ◌}
use axiler_fin.Base.Float.{fixed_point, fixed_point-Ieee, seconds}
use axiler_fin.Models.{Time}
use axiler_fin.RateLimit.{TenantLimiter, tokens_to_add, new, allow, set_limit, min}
use axiler_fin.RateLimit.Slots.{fresh, slot, slot_allow, allow_refines}
use axiler_fin.RateLimit.Burst.{answers, answers_of, burst}
use axiler_fin.RateLimit.Spans.{count, parts}
use axiler_fin.RateLimit.Rate.{Rounding, rate}
use axiler_fin.RateLimit.Burst.{times_of}
use axiler_fin.Base.Regexp.{match_string}
use axiler_fin.Base.Utf8.{runes}
use axiler_fin.Http.{no_payload, get_header}
use axiler_fin.Auth.{validate_token}
use axiler_fin.Service.{reply, bearer_token}
use axiler_fin.Edge.Abuse.{new_abuse_detector}
use axiler_fin.Edge.Middleware.{Edge, secret_pattern, tenant_of, security_middleware}
use axiler_fin.Edge.Middleware.Rate.{Visit, limiter_calls, served, served_rate}
use axiler_fin.Tests.Fixtures.{one_token, manager, Amount, post, with_token}
use axiler_fin.Tests.Servers.{later}
use axiler_fin.RateLimit.Bounds.{Reach, started, allowed, limited}
use axiler_fin.Edge.Abuse.Checks.Traffic.{
  check_bot_patterns, check_http_methods, check_rate_limit, check_velocity,
}
use axiler_fin.Edge.Abuse.Checks.{
  check_path_traversal, check_payload_injection, check_request_size, check_suspicious_headers,
  check_user_agent,
}
use axiler_fin.Edge.Abuse.Client.{get_client_ip, is_suspicious_user_agent}
use axiler_fin.Edge.Abuse.Detect.{detect}
use axiler_fin.Edge.Abuse.History.{track_request}

abbrev small : TenantLimiter fixed_point.F
small = set_limit fixed_point "delta" (pos 2) (new fixed_point)

abbrev calls : List (String × Time)
calls = ("delta", 9) ∷ ("alpha", 9) ∷ ("delta", 9) ∷ ("delta", 9) ∷ []

allow_refines_example :
    ((allow fixed_point "alpha" 9 small).0
      ≡ (slot_allow fixed_point 9 (slot fixed_point "alpha" small)).0)
    × (slot fixed_point "alpha" (allow fixed_point "alpha" 9 small).1
        ≡ (slot_allow fixed_point 9 (slot fixed_point "alpha" small)).1)
    × ((other : String)
        → other ≢ "alpha"
        → slot fixed_point other (allow fixed_point "alpha" 9 small).1
          ≡ slot fixed_point other small)
allow_refines_example = allow_refines fixed_point "alpha" 9 small

small-slot : slot fixed_point "delta" small ≡ fresh (pos 2)
unfolding slot set_limit new lookup insert
small-slot = refl

burst_example :
    answers_of fixed_point "delta" calls (answers fixed_point calls small)
    ≡ true ∷ true ∷ false ∷ []
burst_example =
    burst fixed_point fixed_point-Ieee "delta" 2 1 9 calls small small-slot (omega arith) refl

reached : Reach fixed_point 9 (allow fixed_point "alpha" 9 small).1
reached = allowed "alpha" 9 (omega arith) (limited "delta" 2 (started 5))

small_limit : lookup "delta" small.limits ≡ some (pos 2)
unfolding set_limit new lookup insert
small_limit = refl

-- A limiter as `New` makes it.
abbrev start : TenantLimiter fixed_point.F
start = new fixed_point

alpha-limit :
    (lookup "alpha" start.limits ≡ some (pos 1000))
    × (lookup "alpha" start.last ≡ none)
    × (lookup "alpha" start.tokens ≡ none)
unfolding new lookup
alpha-limit = (refl, refl, refl)

-- The value of a fixed-point number, for the two tokens a minute of `small`.
unfoldable scaled : fixed_point.F → ℕ
unfolding fixed_point
scaled (pos n) = n
scaled (negsuc n) = 0

small_product :
    (at now : Time)
    → at ≤ now
    → scaled (tokens_to_add fixed_point (pos 2) now at) ≤ 2 * (now - at) + 0
unfolding scaled fixed_point ◌+ℤ◌
small_product at now h =
    let e : sub_ℕ now at ≡ pos (now - at) = ground arith in
    let s : seconds fixed_point (pos (now - at)) ≡ pos ((now - at) * 60) = ground arith in
    rw (e, s) (omega arith)

small-Rounding : Rounding fixed_point scaled 2 0 60_000_000_000
unfolding scaled fixed_point ◌+ℤ◌ ◌-ℤ◌
small-Rounding = record {
  over = λ a h. ground arith;
  capped = λ a h. ground arith;
  take_one = λ a h k. ground arith;
  product = λ at now h k. small_product at now h;
  sum = λ a b h k. ground arith;
}

abbrev paced_calls : List (String × Time)
paced_calls =
    ("delta", 9) ∷ ("alpha", 9) ∷ ("delta", 9) ∷ ("delta", 9) ∷ ("delta", 60_000_000_009) ∷ []

rate_example :
    count (answers_of fixed_point "delta" paced_calls (answers fixed_point paced_calls small))
      * parts
    ≤ 2 * parts + 2 * 60_000_000_000 + 0
rate_example =
    rate fixed_point fixed_point-Ieee scaled "delta" 2 0 60_000_000_000 paced_calls 9
      (9 ∷ 9 ∷ 60_000_000_009 ∷ []) small small-Rounding small_limit refl
      (omega arith, omega arith, (omega arith, omega arith, (omega arith, omega arith, tt)))

-- The edge with two tokens a minute for alpha, and two requests with its token.
abbrev edge : Edge Amount
edge = record {
  limiter = set_limit fixed_point "alpha" (pos 2) (new fixed_point);
  detector = new_abuse_detector;
}

abbrev visit_at : Time → Visit Amount
visit_at at = record {
  now = record {
    trace_at = at;
    request_at = at;
    validate_at = later;
    allow_at = at;
    abuse = record { rate_at = at; velocity_at = at; bot_at = at; track_at = at };
    start = at;
    done = at;
  };
  next = λ r. reply 200 no_payload [];
  request = post "/api/v1/search" with_token (b'{' ∷ b'}' ∷ []);
}

-- Three requests at once, and one half a minute later.
abbrev visits : List (Visit Amount)
visits = visit_at 9 ∷ visit_at 9 ∷ visit_at 9 ∷ visit_at 30_000_000_009 ∷ []

abbrev keyless : List ℕ → Option String
keyless body = none

edge_limit : lookup "alpha" edge.limiter.limits ≡ some (pos 2)
unfolding set_limit new lookup insert
edge_limit = refl

visits-times :
    times_of fixed_point "alpha" (limiter_calls fixed_point one_token keyless manager visits)
    ≡ 9 ∷ 9 ∷ 9 ∷ 30_000_000_009 ∷ []
unfolding limiter_calls match_string runes secret_pattern tenant_of contains bearer_token cut
    get_header validate_token
visits-times = refl

-- The third is refused with 429; the bound is met exactly.
three_served : served fixed_point one_token keyless manager "alpha" visits edge ≡ 3
unfolding served match_string runes secret_pattern bearer_token validate_token security_middleware
    allow set_limit insert new fixed_point min new_abuse_detector ◌+ℤ◌ ◌-ℤ◌ lookup_or
    check_bot_patterns check_http_methods check_rate_limit check_velocity check_path_traversal
    check_payload_injection check_request_size check_suspicious_headers check_user_agent
    get_client_ip is_suspicious_user_agent detect track_request
three_served = refl

served_rate_example : 3 * parts ≤ 2 * parts + 2 * 30_000_000_000 + 0
served_rate_example =
    subst (λ n. n * parts ≤ 2 * parts + 2 * 30_000_000_000 + 0) three_served
      (served_rate fixed_point one_token keyless manager fixed_point-Ieee scaled "alpha" 2 0
        60_000_000_000 visits 9 (9 ∷ 9 ∷ 30_000_000_009 ∷ []) edge small-Rounding edge_limit
        visits-times
        (omega arith, omega arith, (omega arith, omega arith, (omega arith, omega arith, tt))))
