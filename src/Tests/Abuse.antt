-- ===== src/Tests/Abuse.antt =====
-- Abuse detection and the edge at concrete inputs.
use axiler_fin.Base.{
  Bool, insert, lookup, ltb, length, ℕ, String, true, false, Option, none, List, [], ◌∷◌, ◌≡◌, ◌⊎◌,
  codes, has_prefix, refl, arith, All, has_code, trim_space, ◌≢◌,
}
use axiler_fin.Base.Float.{fixed_point}
use axiler_fin.Http.{Request, no_payload}
use axiler_fin.RateLimit.{new}
use axiler_fin.Service.{Outcome, reply}
use axiler_fin.Edge.Abuse.{AbuseDetector, new_abuse_detector, no_signal}
use axiler_fin.Base.Distinct.{Distinct}
use axiler_fin.Edge.Abuse.History.Cleanup.{cleanup_invisible}
use axiler_fin.Edge.Abuse.Client.{get_client_ip}
use axiler_fin.Edge.Abuse.History.{
  is_idle, cleanup_old_data, recent, second, minute, source_key, track_request,
}
use axiler_fin.Edge.Abuse.History.Window.{history_of}
use axiler_fin.Edge.Abuse.Checks.{Scan}
use axiler_fin.Edge.Abuse.Checks.Traffic.{check_velocity, check_rate_limit, check_bot_patterns}
use axiler_fin.Edge.Abuse.Detect.Traffic.{times_of as times_of_calls, call_key, traffic_exact}
use axiler_fin.Edge.Abuse.Detect.Spoofed.{IsAddress, forwarded_for, forwarded_for_evades}
use axiler_fin.Edge.Abuse.Detect.{Readings}
use axiler_fin.Edge.Abuse.Detect.Histories.{Call, detect_all}
use axiler_fin.Edge.Abuse.Detect.Velocity.{IsPlain, velocity_silent}
use axiler_fin.Edge.Middleware.{backends, Edge, Clock}
use axiler_fin.Edge.Middleware.Gate.{Forwarded, Stopped, edge_gate}
use axiler_fin.Edge.Middleware.Routing.{OnlyRoute}
use axiler_fin.Edge.Middleware.Blocked.{IsRefusal, serve_all, backends_unreachable}
use axiler_fin.Tests.Fixtures.{apart, one_token, manager, Amount, post, with_token}

abbrev now : Readings
now = record { rate_at = 9; velocity_at = 9; bot_at = 9; track_at = 9 }

abbrev harmless : Request
harmless = post "/api/v1/search" with_token (b'{' ∷ b'}' ∷ [])

abbrev scan : Scan
scan = record { request = harmless; detector = new_abuse_detector }

abbrev call : Call
call = record { now = now; tenant = "alpha"; request = harmless }

alpha-IsPlain : IsPlain "alpha"
unfolding has_code
alpha-IsPlain = record { unbarred = refl; other = λ e. absurd (cc e) }

traffic_exact_example :
    let s : Scan = record {
      request = harmless;
      detector = detect_all (call ∷ call ∷ []) new_abuse_detector;
    } in
    let times = times_of_calls (source_key "alpha" (get_client_ip harmless)) (call ∷ call ∷ []) in
    ((check_rate_limit "alpha" 10 s).0.detected ≡ ltb 100 (length (recent second 10 times)))
    × ((check_bot_patterns "alpha" 10 s).0.detected ≡ ltb 50 (length (recent minute 10 times)))
traffic_exact_example =
    traffic_exact (call ∷ call ∷ []) 10 "alpha" harmless (omega arith, (omega arith, tt))

velocity_silent_example :
    (check_velocity 10 (record {
      request = harmless;
      detector = detect_all (call ∷ call ∷ []) new_abuse_detector;
    })).0
    ≡ no_signal
velocity_silent_example =
    velocity_silent (call ∷ call ∷ []) 10 harmless (alpha-IsPlain, (alpha-IsPlain, tt))

abbrev clock : Clock
clock = record {
  trace_at = 100_000_000_000;
  request_at = 100_000_000_000;
  validate_at = 100_000_000_000;
  allow_at = 100_000_000_000;
  abuse = now;
  start = 100_000_000_000;
  done = 100_000_000_001;
}

abbrev login_key : List ℕ → Option String
login_key body = none

abbrev edge : Edge Amount
edge = record { limiter = new fixed_point; detector = new_abuse_detector }

abbrev served : Request → Outcome Amount
served r = reply 200 no_payload []

abbrev missing : Request → Outcome Amount
missing r = reply 404 no_payload []

backends_unreachable_example :
    (serve_all fixed_point one_token login_key manager served ((clock, harmless) ∷ []) edge
      ≡ serve_all fixed_point one_token login_key manager missing ((clock, harmless) ∷ []) edge)
    × All
        (λ out. IsRefusal out.response.status)
        (serve_all fixed_point one_token login_key manager served ((clock, harmless) ∷ []) edge)
backends_unreachable_example =
    backends_unreachable fixed_point one_token login_key manager ((clock, harmless) ∷ []) served
      missing edge refl

abbrev seen : AbuseDetector
seen = track_request 5 harmless "alpha" false new_abuse_detector

one_entry : Distinct seen.request_history
unfolding track_request new_abuse_detector insert lookup get_client_ip
one_entry = (tt, tt)

cleanup_invisible_example :
    let seen' = cleanup_old_data 400_000_000_000 seen in
    (recent minute 400_000_000_001 (history_of "alpha|10.0.0.1" seen').requests
      ≡ recent minute 400_000_000_001 (history_of "alpha|10.0.0.1" seen).requests)
    × (recent minute 400_000_000_001 (history_of "alpha|10.0.0.1" seen').failed_attempts
        ≡ recent minute 400_000_000_001 (history_of "alpha|10.0.0.1" seen).failed_attempts)
    × All (λ e. is_idle e.1 ≡ false) seen'.request_history
    × Distinct seen'.request_history
cleanup_invisible_example =
    cleanup_invisible minute 400_000_000_000 400_000_000_001 "alpha|10.0.0.1" seen (omega arith)
      (omega arith) one_entry

edge_gate_example :
    Forwarded fixed_point one_token login_key manager clock served harmless edge
    ⊎ Stopped fixed_point one_token login_key manager clock served harmless edge
edge_gate_example = edge_gate fixed_point one_token login_key manager clock served harmless edge

abbrev any_url : String → Bool
any_url url = true

abbrev backend : String → Request → Outcome Amount
backend host r = reply 200 no_payload []

search_route : OnlyRoute "http://search:8082" "/api/v1/search" backends
unfolding has_prefix
search_route = (λ h. absurd (cc h), (λ h. refl, (λ h. absurd (cc h), tt)))

search_fits : has_prefix (codes "/api/v1/search") (codes "/api/v1/search") ≡ true
unfolding has_prefix
search_fits = refl

abbrev elsewhere : String
elsewhere = "203.0.113.9"

elsewhere-IsAddress : IsAddress elsewhere
unfolding has_code trim_space
elsewhere-IsAddress = record { single = refl; trimmed = refl; given = apart elsewhere "" refl }

call_apart : call_key call ≢ source_key "alpha" elsewhere
unfolding get_client_ip
call_apart = apart (call_key call) (source_key "alpha" elsewhere) refl

forwarded_for_evades_example :
    let s : Scan = record {
      request = forwarded_for elsewhere harmless;
      detector = detect_all (call ∷ call ∷ []) new_abuse_detector;
    } in
    ((check_rate_limit "alpha" 10 s).0.detected ≡ false)
    × ((check_bot_patterns "alpha" 10 s).0.detected ≡ false)
forwarded_for_evades_example =
    forwarded_for_evades (call ∷ call ∷ []) 10 "alpha" elsewhere harmless elsewhere-IsAddress
      (omega arith, (omega arith, tt)) (call_apart, (call_apart, tt))
