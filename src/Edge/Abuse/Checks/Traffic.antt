-- ===== src/Edge/Abuse/Checks/Traffic.antt =====
-- abuse.go: the checks that look at the history of the request's source, and make one where there is
-- none.
use axiler_fin.Base.{
  String, [], ◌∷◌, true, ◌&&◌, ◌||◌, length, if◌then◌else◌, ltb, ◌=ˢ◌, ◌+ˢ◌, decimal,
}
use axiler_fin.Base.Int.{pos, ltb_ℤ, decimal_int}
use axiler_fin.Models.{Time}
use axiler_fin.Edge.Abuse.{AbuseSignal, AbuseDetector, RequestHistory, no_signal}
use axiler_fin.Edge.Abuse.Client.{get_client_ip}
use axiler_fin.Edge.Abuse.History.{get_or_create_history, source_key, recent, second, minute}
use axiler_fin.Edge.Abuse.Checks.{Scan}

-- A check of the history under a key.
abbrev pub with_history : String → (RequestHistory → AbuseSignal) → Scan → AbuseSignal × Scan
with_history key judge s =
    let (history, ad) = get_or_create_history key s.detector in
    (judge history, record s { detector = ad })

abbrev pub rate_signal : Time → AbuseDetector → RequestHistory → AbuseSignal
rate_signal now ad history =
    let count = length (recent second now history.requests) in
    if ltb_ℤ ad.max_requests_per_second (pos count)
    then record {
      detected = true;
      severity = 7;
      reason =
          "Rate limit exceeded: "
          +ˢ decimal count
          +ˢ " req/sec > "
          +ˢ decimal_int ad.max_requests_per_second;
      recommendations =
          "Rate limit tenant" ∷ "Return 429 Too Many Requests"
          ∷ "Implement exponential backoff on client" ∷ [];
    }
    else no_signal

-- `checkRateLimit`
unfoldable pub check_rate_limit : String → Time → Scan → AbuseSignal × Scan
unfolding get_or_create_history
check_rate_limit tenant now s =
    with_history (source_key tenant (get_client_ip s.request)) (rate_signal now s.detector) s

abbrev pub velocity_signal : String → Time → AbuseDetector → RequestHistory → AbuseSignal
velocity_signal ip now ad history =
    let count = length (recent minute now history.requests) in
    if ltb_ℤ ad.velocity_threshold (pos count)
    then record {
      detected = true;
      severity = 6;
      reason = "Velocity too high: " +ˢ decimal count +ˢ " req/min from IP " +ˢ ip;
      recommendations =
          "Rate limit IP address" ∷ "Temporary IP block (15 minutes)" ∷ "Alert security team" ∷ [];
    }
    else no_signal

-- `checkVelocity`
unfoldable pub check_velocity : Time → Scan → AbuseSignal × Scan
unfolding get_or_create_history
check_velocity now s =
    let ip = get_client_ip s.request in
    with_history ("velocity|" +ˢ ip) (velocity_signal ip now s.detector) s

abbrev pub method_signal : String → RequestHistory → AbuseSignal
method_signal method history =
    if (method =ˢ "HEAD" || method =ˢ "OPTIONS" || method =ˢ "TRACE")
      && ltb 5 (length history.requests)
    then record {
      detected = true;
      severity = 4;
      reason = "Unusual HTTP method: " +ˢ method;
      recommendations = "Log request" ∷ "Monitor for more patterns" ∷ [];
    }
    else no_signal

-- `checkHTTPMethods`
unfoldable pub check_http_methods : String → Scan → AbuseSignal × Scan
unfolding get_or_create_history
check_http_methods tenant s =
    with_history (source_key tenant (get_client_ip s.request)) (method_signal s.request.method) s

abbrev pub bot_signal : Time → RequestHistory → AbuseSignal
bot_signal now history =
    let count = length (recent minute now history.requests) in
    if ltb 10 (length history.requests) && ltb 50 count
    then record {
      detected = true;
      severity = 7;
      reason = "Bot-like pattern: " +ˢ decimal count +ˢ " requests in 1 minute";
      recommendations = "Rate limit tenant" ∷ "Require CAPTCHA" ∷ "Temporary block" ∷ [];
    }
    else no_signal

-- `checkBotPatterns`
unfoldable pub check_bot_patterns : String → Time → Scan → AbuseSignal × Scan
unfolding get_or_create_history
check_bot_patterns tenant now s =
    with_history (source_key tenant (get_client_ip s.request)) (bot_signal now) s
