-- ===== src/Edge/Abuse/Detect/Handed.antt =====
-- What `Detect` leaves of the request: the checks change its body at most.
use axiler_fin.Base.{String, List, [], ◌∷◌, ◌≡◌, refl, ap, ◌∙◌, All}
use axiler_fin.Http.{Request, Body, no_body, reader}
use axiler_fin.Edge.Abuse.{AbuseSignal, no_signal}
use axiler_fin.Edge.Abuse.Checks.{Scan, check_payload_injection, check_path_traversal, scan_body}
use axiler_fin.Edge.Abuse.Checks.Traffic.{
  check_rate_limit, check_velocity, check_http_methods, check_bot_patterns,
}
use axiler_fin.Edge.Abuse.Detect.Alarm.{size-keeps, headers-keep}
use axiler_fin.Edge.Abuse.Detect.Histories.{user_agent-keeps}
use axiler_fin.Edge.Abuse.Detect.{Readings, Check, checks, merge, run_checks, detect}

-- The request without its body.
abbrev bodiless : Request → Request
bodiless r = record r { body = no_body }

abbrev HandsOn : Check → Type 0
HandsOn check = (s : Scan) → bodiless (check s).1.request ≡ bodiless s.request

scan_body-HandsOn : (b : Body) (s : Scan) → bodiless (scan_body b s).1.request ≡ bodiless s.request
scan_body-HandsOn no_body s = refl
scan_body-HandsOn (reader bytes broken) s = refl

checks-HandOn : (now : Readings) (tenant : String) → All HandsOn (checks now tenant)
unfolding check_payload_injection check_path_traversal check_rate_limit check_velocity
    check_http_methods check_bot_patterns
checks-HandOn now tenant = (
  λ s. ap (λ (t : Scan). bodiless t.request) (size-keeps s),
  (
    λ s. ap (λ (t : Scan). bodiless t.request) (headers-keep s),
    (
      λ s. scan_body-HandsOn s.request.body s,
      (
        λ s. refl,
        (
          λ s. refl,
          (
            λ s. ap (λ (t : Scan). bodiless t.request) (user_agent-keeps s),
            (λ s. refl, (λ s. refl, (λ s. refl, tt))),
          ),
        ),
      ),
    ),
  ),
)

run_checks-HandOn :
    (cs : List Check) (signal : AbuseSignal) (s : Scan)
    → All HandsOn cs
    → bodiless (run_checks cs signal s).1.request ≡ bodiless s.request
unfolding run_checks
run_checks-HandOn [] signal s h = refl
run_checks-HandOn (check ∷ rest) signal s (k, h) =
    run_checks-HandOn rest (merge signal (check s).0) (check s).1 h ∙ k s

-- A body put back into what `Detect` leaves makes the request with that body.
pub detect-body :
    (now : Readings) (tenant : String) (s : Scan) (b : Body)
    → record ((detect now tenant s).1.request) { body = b } ≡ record (s.request) { body = b }
unfolding detect
detect-body now tenant s b =
    ap (λ (r : Request). record r { body = b })
      (run_checks-HandOn (checks now tenant) no_signal s (checks-HandOn now tenant))
