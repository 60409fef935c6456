-- ===== src/Edge/Abuse/Detect.antt =====
-- abuse.go: `Detect`, which runs the checks in order and records the request.
pub mod Alarm
pub mod Handed
pub mod Histories
pub mod Velocity
pub mod Traffic
pub mod Spoofed
use axiler_fin.Base.{
  ℕ, zero, suc, ◌+◌, String, List, [], ◌∷◌, ◌++◌, Bool, true, false, if◌then◌else◌, ◌+ˢ◌,
}
use axiler_fin.Models.{Time}
use axiler_fin.Http.{Request}
use axiler_fin.Edge.Abuse.{AbuseSignal, AbuseDetector, no_signal, max}
use axiler_fin.Edge.Abuse.History.{track_request}
use axiler_fin.Edge.Abuse.Checks.{
  Scan, check_request_size, check_suspicious_headers, check_payload_injection, check_user_agent,
  check_path_traversal,
}
use axiler_fin.Edge.Abuse.Checks.Traffic.{
  check_rate_limit, check_velocity, check_http_methods, check_bot_patterns,
}

-- What the clock reads at each call of it in `Detect`.
pub record Readings : Type 0 where
  pub rate_at : Time
  pub velocity_at : Time
  pub bot_at : Time
  pub track_at : Time

abbrev pub Check : Type 0
Check = Scan → AbuseSignal × Scan

-- The checks, in the order in which they run: from the fourth on, and all.
abbrev pub later_checks : Readings → String → List Check
later_checks now tenant =
    check_rate_limit tenant now.rate_at
    ∷ check_velocity now.velocity_at
    ∷ check_user_agent
    ∷ check_http_methods tenant
    ∷ check_path_traversal
    ∷ check_bot_patterns tenant now.bot_at
    ∷ []

abbrev pub checks : Readings → String → List Check
checks now tenant =
    check_request_size
    ∷ check_suspicious_headers
    ∷ check_payload_injection
    ∷ later_checks now tenant

-- The signal of the checks so far, with one more result.
unfoldable pub merge : AbuseSignal → AbuseSignal → AbuseSignal
unfolding max
merge signal result =
    if result.detected
    then record {
      detected = true;
      severity = max signal.severity result.severity;
      reason = signal.reason +ˢ result.reason +ˢ "; ";
      recommendations = signal.recommendations ++ result.recommendations;
    }
    else signal

unfoldable pub run_checks : List Check → AbuseSignal → Scan → AbuseSignal × Scan
unfolding merge
run_checks [] signal s = (signal, s)
run_checks (check ∷ rest) signal s =
    let (result, s') = check s in run_checks rest (merge signal result) s'

-- `Detect`
unfoldable pub detect : Readings → String → Scan → AbuseSignal × Scan
unfolding run_checks
detect now tenant s =
    let (signal, s') = run_checks (checks now tenant) no_signal s in
    (
      signal,
      record s' {
        detector = track_request now.track_at s'.request tenant signal.detected s'.detector;
      },
    )
