-- ===== src/Tests/Samples.antt =====
-- The edge, and the metrics of the services, at concrete inputs.
use axiler_fin.Base.{
  ℕ, ◌+◌, ◌≤◌, String, Bool, true, Option, none, List, [], ◌∷◌, ◌≡◌, refl, ok, map, any, ◌=ˢ◌, ◌&&◌,
  not, if◌then◌else◌, some, arith, eq_iff, ◌↔◌, ◌⊎◌, insert, lookup_or,
}
use axiler_fin.Base.Float.{fixed_point, seconds}
use axiler_fin.Http.{Request, no_payload}
use axiler_fin.Service.{Outcome, bearer_token}
use axiler_fin.Login.Server as LoginServer
use axiler_fin.Search.Server as SearchServer
use axiler_fin.Transfer.Server as TransferServer
use axiler_fin.Edge.Server as EdgeServer
use axiler_fin.Edge.Server.Sealed.{behind, serve_series, edge_sealed}
use axiler_fin.Edge.Server.Gauge.{Runs, emit, stop, tally, enters, leaves, unfinished}
use axiler_fin.Edge.Server.InFlight.{Visit, samples_of, in_flight}
use axiler_fin.Metrics.Registry
use axiler_fin.Metrics.Registry.{Registerer, RegistererLaws, is_valid, new_registers}
use axiler_fin.Labels.Servers.{servers-Typed}
use axiler_fin.Metrics.{
  AllTyped, Metric, options, Sample, inc, dec, observe, requests_in_flight, request_latency,
}
use axiler_fin.Edge.Middleware.{backends, secret_pattern, security_middleware, proxy_request}
use axiler_fin.Edge.Abuse.{new_abuse_detector}
use axiler_fin.RateLimit
use axiler_fin.Service.{reply}
use axiler_fin.Tests.Fixtures.{one_token, manager, Amount, post, with_token}
use axiler_fin.Tests.Outside.{plain_chi, replies, keys}
use axiler_fin.Auth.{new, validate_token}
use axiler_fin.Tests.Journeys.{
  login_call, login_server, decode_login, for_first, search_call, search_server,
}
use axiler_fin.Tests.Servers.{later, transfer_server, decode_transfer, transfer_call}
use axiler_fin.Base.Int.{sub_ℕ, ◌+ℤ◌}
use axiler_fin.Base.Regexp.{match_string, one_of, literal_fold}
use axiler_fin.Base.Utf8.{runes}
use axiler_fin.RateLimit.{allow}
use axiler_fin.Edge.Abuse.Checks.Traffic.{
  check_bot_patterns, check_http_methods, check_rate_limit, check_velocity,
}
use axiler_fin.Edge.Abuse.Checks.{
  check_path_traversal, check_payload_injection, check_request_size, check_suspicious_headers,
  check_user_agent,
}
use axiler_fin.Edge.Abuse.Client.{get_client_ip, is_suspicious_user_agent}
use axiler_fin.Edge.Abuse.Detect.{detect}

abbrev backend : String → Request → Outcome Amount
backend host r = reply 200 no_payload []

abbrev edge_server : EdgeServer.Server one_token Amount
edge_server = record {
  token_manager = manager;
  edge = record { limiter = RateLimit.new fixed_point; detector = new_abuse_detector };
}

abbrev edge_call : EdgeServer.Call Amount
edge_call = record {
  health_at = later;
  now = record {
    trace_at = later;
    request_at = later;
    validate_at = later;
    allow_at = later;
    abuse = record { rate_at = later; velocity_at = later; bot_at = later; track_at = later };
    start = later;
    done = later;
  };
  order = backends;
  proxied = backend;
  replies = replies;
  request = post "/auth/login" [] [];
}

abbrev keyless : List ℕ → Option String
keyless body = none

abbrev any_url : String → Bool
any_url url = true

servers-Typed_example :
    AllTyped
      (LoginServer.serve fixed_point one_token decode_login plain_chi login_call
        login_server).samples
    × AllTyped
        (SearchServer.serve fixed_point one_token for_first plain_chi search_call
          search_server).0.samples
    × AllTyped
        (TransferServer.serve fixed_point one_token decode_transfer plain_chi
          (transfer_call "/api/v1/transfer")
          transfer_server).0.samples
    × AllTyped
        (EdgeServer.serve fixed_point one_token keyless any_url plain_chi edge_call
          edge_server).0.samples
servers-Typed_example =
    servers-Typed fixed_point one_token plain_chi decode_login for_first decode_transfer keyless
      any_url login_call login_server search_call search_server (transfer_call "/api/v1/transfer")
      transfer_server edge_call edge_server (λ host r. tt)

edge_started : EdgeServer.start fixed_point one_token keys ≡ ok edge_server
unfolding EdgeServer.start new
edge_started = refl

abbrev missing : String → Request → Outcome Amount
missing host r = reply 404 no_payload []

edge_sealed_example :
    serve_series fixed_point one_token keyless any_url plain_chi
      (map (behind backend) (edge_call ∷ (edge_call ∷ [])))
      edge_server
    ≡ serve_series fixed_point one_token keyless any_url plain_chi
        (map (behind missing) (edge_call ∷ (edge_call ∷ [])))
        edge_server
edge_sealed_example =
    edge_sealed fixed_point one_token keyless any_url plain_chi keys edge_server
      (edge_call ∷ (edge_call ∷ [])) backend missing edge_started

-- The edge with the empty alternative taken out of the command-injection expression, so that a request
-- is passed on.
abbrev open_server : EdgeServer.Server one_token Amount
open_server = record edge_server {
  edge = record {
    limiter = RateLimit.new fixed_point;
    detector = record new_abuse_detector {
      command_injection = one_of literal_fold (";" ∷ "&&" ∷ "||" ∷ "$(" ∷ "%0a" ∷ "%0d" ∷ []);
    };
  };
}

abbrev search_visit : Visit fixed_point one_token keyless any_url plain_chi
search_visit = record {
  call = record edge_call { request = post "/api/v1/search" with_token (b'{' ∷ b'}' ∷ []) };
  server = open_server;
}

abbrev raised : Sample Amount
raised = inc requests_in_flight ("edge" ∷ "/api/v1/search" ∷ [])

abbrev timed : Sample Amount
timed =
    observe request_latency ("edge" ∷ "/api/v1/search" ∷ "alpha" ∷ [])
      (seconds fixed_point (sub_ℕ later later))

abbrev lowered : Sample Amount
lowered = dec requests_in_flight ("edge" ∷ "/api/v1/search" ∷ [])

search_samples :
    samples_of fixed_point one_token keyless any_url plain_chi search_visit
    ≡ raised ∷ timed ∷ lowered ∷ []
unfolding EdgeServer.serve match_string runes secret_pattern bearer_token validate_token
    security_middleware allow insert fixed_point axiler_fin.RateLimit.min axiler_fin.RateLimit.new
    new_abuse_detector ◌+ℤ◌ lookup_or check_bot_patterns check_http_methods check_rate_limit
    check_velocity check_path_traversal check_payload_injection check_request_size
    check_suspicious_headers check_user_agent get_client_ip is_suspicious_user_agent detect
    proxy_request
search_samples = refl

-- Two of these requests: both are in flight, then the first is answered.
abbrev overlapping : List (Sample Amount)
overlapping = raised ∷ raised ∷ timed ∷ lowered ∷ []

abbrev left : List (List (Sample Amount))
left = [] ∷ (timed ∷ lowered ∷ []) ∷ []

first_answered :
    Runs
      (map
        (samples_of fixed_point one_token keyless any_url plain_chi)
        (search_visit ∷ search_visit ∷ []))
      overlapping
      left
first_answered = rw search_samples (emit 0 refl (emit 1 refl (emit 0 refl (emit 0 refl stop))))

-- Two raised, one lowered, and one request under way: the upper bound is met exactly.
overlapping_tallies :
    (tally (enters "/api/v1/search") overlapping ≡ 2)
    × (tally (leaves "/api/v1/search") overlapping ≡ 1)
    × (unfinished left ≡ 1)
unfolding tally unfinished
overlapping_tallies = (refl, refl, refl)

in_flight_example :
    (tally (leaves "/api/v1/search") overlapping ≤ tally (enters "/api/v1/search") overlapping)
    × (tally (enters "/api/v1/search") overlapping
        ≤ tally (leaves "/api/v1/search") overlapping + unfinished left)
in_flight_example =
    in_flight fixed_point one_token keyless any_url plain_chi "/api/v1/search"
      (search_visit ∷ search_visit ∷ []) (λ host r. tt, (λ host r. tt, tt)) first_answered

-- A registerer that keeps the names.
abbrev has_name : List String → String → Bool
has_name names n = any (λ m. m =ˢ n) names

unfoldable names_only : Registerer
names_only = record {
  State = List String;
  register =
      λ o names. if is_valid o && not (has_name names o.name) then some (o.name ∷ names) else none;
  Has = λ names n. has_name names n ≡ true;
}

names_only-laws : RegistererLaws names_only
unfolding names_only
names_only-laws = record {
  taken = λ o names h. ground arith;
  fresh = λ o names valid free. (
    o.name ∷ names,
    ground arith,
    λ n. (λ h. ground (arith, eq_iff o.name n), λ h. ground (arith, eq_iff o.name n)),
  );
}

no_names : names_only.State
unfolding names_only
no_names = []

no_names-free : (m : Metric) → ¬ names_only.Has no_names (options m).name
unfolding names_only no_names
no_names-free m = ground arith

new_registers_example :
    (s' : names_only.State) × (Registry.new names_only no_names ≡ some s')
    × ((n : String)
        → names_only.Has s' n
          ↔ (names_only.Has no_names n ⊎ ((m : Metric) × ((options m).name ≡ n))))
    × (Registry.new names_only s' ≡ none)
new_registers_example = new_registers names_only names_only-laws no_names no_names-free
