-- ===== src/Edge/Abuse/Detect/Alarm.antt =====
-- The command-injection expression has an empty alternative, so it is found in every text, and every
-- request that has a body is reported.
use axiler_fin.Base.{
  ℕ, ◌≤◌, String, List, [], ◌∷◌, Bool, true, ◌≡◌, refl, arith, take, ap, subst, sym, ◌∙◌,
}
use axiler_fin.Base.Regexp.{nullable, match_string-nullable, one_of, literal_fold}
use axiler_fin.Base.Utf8.{runes}
use axiler_fin.Http.{reader}
use axiler_fin.Edge.Abuse.{AbuseSignal, AbuseDetector, no_signal, max, new_abuse_detector}
use axiler_fin.Edge.Abuse.Checks.{
  Scan, check_request_size, check_suspicious_headers, check_payload_injection, scan_payload,
  detections, body_limit,
}
use axiler_fin.Edge.Abuse.Detect.{Readings, Check, later_checks, merge, run_checks, detect}

-- A signal that reports abuse of at least this severity.
abbrev pub Alarms : ℕ → AbuseSignal → Type 0
Alarms level signal = (signal.detected ≡ true) × (level ≤ signal.severity)

-- A later result does not take an alarm back.
merge-Alarms :
    (level : ℕ) (signal result : AbuseSignal)
    → Alarms level signal
    → Alarms level (merge signal result)
unfolding merge max
merge-Alarms level signal result h = ground arith

merge-Alarms_new :
    (level : ℕ) (signal result : AbuseSignal)
    → Alarms level result
    → Alarms level (merge signal result)
unfolding merge max
merge-Alarms_new level signal result h = ground arith

run_checks-Alarms :
    (level : ℕ) (rest : List Check) (signal : AbuseSignal) (s : Scan)
    → Alarms level signal
    → Alarms level (run_checks rest signal s).0
unfolding run_checks
run_checks-Alarms level [] signal s h = h
run_checks-Alarms level (check ∷ rest) signal s h =
    run_checks-Alarms level rest (merge signal (check s).0) (check s).1
      (merge-Alarms level signal (check s).0 h)

scan_payload-Alarms :
    (ad : AbuseDetector) (body : List ℕ)
    → nullable ad.command_injection ≡ true
    → Alarms 8 (scan_payload (detections ad) body)
unfolding scan_payload
scan_payload-Alarms ad body h = ground (arith, match_string-nullable ad.command_injection body h)

payload-Alarms :
    (s : Scan) (bytes : List ℕ) (broken : Bool)
    → s.request.body ≡ reader bytes broken
    → nullable s.detector.command_injection ≡ true
    → Alarms 8 (check_payload_injection s).0
unfolding check_payload_injection
payload-Alarms s bytes broken e h =
    rw (e, check_payload_injection)
      (scan_payload-Alarms s.detector (runes (take (body_limit s.request.content_length) bytes)) h)

-- The detector has the expression that `NewAbuseDetector` compiles.
abbrev pub HasPattern : AbuseDetector → Type 0
HasPattern ad = ad.command_injection ≡ new_abuse_detector.command_injection

new-nullable : nullable new_abuse_detector.command_injection ≡ true
unfolding new_abuse_detector nullable one_of literal_fold
new-nullable = refl

pub size-keeps : (s : Scan) → (check_request_size s).1 ≡ s
unfolding check_request_size
size-keeps s = ground arith

pub headers-keep : (s : Scan) → (check_suspicious_headers s).1 ≡ s
unfolding check_suspicious_headers
headers-keep s = ground arith

third-Alarms :
    (level : ℕ) (c1 c2 c3 : Check) (rest : List Check) (signal : AbuseSignal) (s : Scan)
    → Alarms level (c3 (c2 (c1 s).1).1).0
    → Alarms level (run_checks (c1 ∷ c2 ∷ c3 ∷ rest) signal s).0
unfolding run_checks
third-Alarms level c1 c2 c3 rest signal s h =
    run_checks-Alarms level rest
      (merge (merge (merge signal (c1 s).0) (c2 (c1 s).1).0) (c3 (c2 (c1 s).1).1).0)
      (c3 (c2 (c1 s).1).1).1
      (merge-Alarms_new level (merge (merge signal (c1 s).0) (c2 (c1 s).1).0) (c3 (c2 (c1 s).1).1).0
        h)

before_payload : (s : Scan) → (check_suspicious_headers (check_request_size s).1).1 ≡ s
before_payload s = headers-keep (check_request_size s).1 ∙ size-keeps s

-- With the command-injection expression that `NewAbuseDetector` compiles, `Detect` reports abuse, with
-- severity 8 or more, for every request that has a body, whatever is in
-- it, whoever sends it and whatever was recorded before.
pub detect-Alarms :
    (now : Readings) (tenant : String) (s : Scan) (bytes : List ℕ) (broken : Bool)
    → s.request.body ≡ reader bytes broken
    → HasPattern s.detector
    → Alarms 8 (detect now tenant s).0
unfolding detect
detect-Alarms now tenant s bytes broken e p =
    third-Alarms 8 check_request_size check_suspicious_headers check_payload_injection
      (later_checks now tenant) no_signal s
      (subst (λ u. Alarms 8 (check_payload_injection u).0) (sym (before_payload s))
        (payload-Alarms s bytes broken e (ap nullable p ∙ new-nullable)))
