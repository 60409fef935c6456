-- ===== src/Edge/Abuse/Detect/Histories.antt =====
-- What `Detect` does to the histories: the checks change none, and the request is recorded at the end.
use axiler_fin.Base.{
  String, List, [], ◌∷◌, Bool, ◌≡◌, ◌≢◌, refl, arith, inl, inr, ap, ◌∙◌, subst, ◌+ˢ◌, All, lookup,
  Option-cases,
}
use axiler_fin.Base.Int.{ℤ}
use axiler_fin.Base.Regexp.{Regexp}
use axiler_fin.Models.{Time}
use axiler_fin.Http.{Request, Body, no_body, reader, get_header}
use axiler_fin.Edge.Abuse.{AbuseSignal, AbuseDetector, RequestHistory, no_signal}
use axiler_fin.Edge.Abuse.Client.{get_client_ip}
use axiler_fin.Edge.Abuse.History.{source_key, get_or_create_history, track_request, tracked}
use axiler_fin.Edge.Abuse.History.Window.{
  history_of, get_or_create-history_of, track_request-history_of,
}
use axiler_fin.Edge.Abuse.Checks.{
  Scan, check_payload_injection, check_user_agent, check_path_traversal, scan_body,
}
use axiler_fin.Edge.Abuse.Checks.Traffic.{
  with_history, check_rate_limit, check_velocity, check_http_methods, check_bot_patterns,
  velocity_signal, rate_signal, method_signal, bot_signal,
}
use axiler_fin.Edge.Abuse.Detect.Alarm.{size-keeps, headers-keep}
use axiler_fin.Edge.Abuse.Detect.{Readings, Check, checks, merge, run_checks, detect}

-- The thresholds of the two checks of traffic, and the command-injection expression: no access to the
-- histories changes them.
abbrev pub settings : AbuseDetector → ℤ × ℤ × Regexp
settings ad = (ad.velocity_threshold, ad.max_requests_per_second, ad.command_injection)

-- The client, the history under a key, and the settings.
abbrev pub viewed : String → Scan → String × RequestHistory × (ℤ × ℤ × Regexp)
viewed key s = (get_client_ip s.request, history_of key s.detector, settings s.detector)

-- A check that leaves these as they are.
abbrev Keeps : Check → Type 0
Keeps check = (s : Scan) (key : String) → viewed key (check s).1 ≡ viewed key s

get_or_create-settings :
    (key : String) (ad : AbuseDetector) → settings (get_or_create_history key ad).1 ≡ settings ad
unfolding get_or_create_history
get_or_create-settings key ad = elim (Option-cases (lookup key ad.request_history)) [
  | inl missing ↦ rw (missing, get_or_create_history) refl
  | inr (history, found) ↦ rw (found, get_or_create_history) refl
]

with_history-Keeps :
    (key : String) (judge : RequestHistory → AbuseSignal) (s : Scan) (other : String)
    → viewed other (with_history key judge s).1 ≡ viewed other s
with_history-Keeps key judge s other = λ i. (
  get_client_ip s.request,
  (get_or_create-history_of key s.detector).1 other i,
  get_or_create-settings key s.detector i,
)

payload-Keeps : (b : Body) (s : Scan) (key : String) → viewed key (scan_body b s).1 ≡ viewed key s
unfolding get_client_ip get_header
payload-Keeps no_body s key = refl
payload-Keeps (reader bytes broken) s key = refl

pub user_agent-keeps : (s : Scan) → (check_user_agent s).1 ≡ s
unfolding check_user_agent
user_agent-keeps s = ground arith

checks-Keep : (now : Readings) (tenant : String) → All Keeps (checks now tenant)
unfolding check_payload_injection check_path_traversal check_rate_limit check_velocity
    check_http_methods check_bot_patterns
checks-Keep now tenant = (
  λ s key. ap (viewed key) (size-keeps s),
  (
    λ s key. ap (viewed key) (headers-keep s),
    (
      λ s key. payload-Keeps s.request.body s key,
      (
        λ s key.
            with_history-Keeps (source_key tenant (get_client_ip s.request))
              (rate_signal now.rate_at s.detector) s key,
        (
          λ s key.
              with_history-Keeps ("velocity|" +ˢ get_client_ip s.request)
                (velocity_signal (get_client_ip s.request) now.velocity_at s.detector) s key,
          (
            λ s key. ap (viewed key) (user_agent-keeps s),
            (
              λ s key.
                  with_history-Keeps (source_key tenant (get_client_ip s.request))
                    (method_signal s.request.method) s key,
              (
                λ s key. refl,
                (
                  λ s key.
                      with_history-Keeps (source_key tenant (get_client_ip s.request))
                        (bot_signal now.bot_at) s key,
                  tt,
                ),
              ),
            ),
          ),
        ),
      ),
    ),
  ),
)

run_checks-Keeps :
    (cs : List Check) (signal : AbuseSignal) (s : Scan) (key : String)
    → All Keeps cs
    → viewed key (run_checks cs signal s).1 ≡ viewed key s
unfolding run_checks
run_checks-Keeps [] signal s key h = refl
run_checks-Keeps (check ∷ rest) signal s key (k, h) =
    run_checks-Keeps rest (merge signal (check s).0) (check s).1 key h ∙ k s key

track_request-settings :
    (now : Time) (r : Request) (tenant : String) (abusive : Bool) (ad : AbuseDetector)
    → settings (track_request now r tenant abusive ad) ≡ settings ad
unfolding track_request
track_request-settings now r tenant abusive ad =
    get_or_create-settings (source_key tenant (get_client_ip r)) ad

-- A call of `Detect` extends the history of the request's source, and changes no other and no setting.
pub detect-history_of :
    (now : Readings) (tenant : String) (s : Scan)
    → let key = source_key tenant (get_client_ip s.request) in
      let (signal, s') = detect now tenant s in
      (history_of key s'.detector
        ≡ tracked now.track_at signal.detected (history_of key s.detector))
      × ((other : String)
          → other ≢ key
          → history_of other s'.detector ≡ history_of other s.detector)
      × (settings s'.detector ≡ settings s.detector)
unfolding detect
detect-history_of now tenant s =
    let (signal, s') = run_checks (checks now tenant) no_signal s in
    let key = source_key tenant (get_client_ip s.request) in
    let view =
      λ (k : String). run_checks-Keeps (checks now tenant) no_signal s k (checks-Keep now tenant) in
    let same : source_key tenant (get_client_ip s'.request) ≡ key =
      ap (λ v. source_key tenant v.0) (view key) in
    let (own, others) =
      track_request-history_of now.track_at s'.request tenant signal.detected s'.detector in
    let after = track_request now.track_at s'.request tenant signal.detected s'.detector in
    (
      subst
            (λ k.
              history_of k after ≡ tracked now.track_at signal.detected (history_of k s'.detector))
            same own
          ∙ ap (λ v. tracked now.track_at signal.detected v.1) (view key),
      λ other ne. others other (λ e. ne (e ∙ same)) ∙ ap (λ v. v.1) (view other),
      track_request-settings now.track_at s'.request tenant signal.detected s'.detector
          ∙ ap (λ v. v.2) (view key),
    )

-- `Detect` leaves the expression as it is.
pub detect-command_injection :
    (now : Readings) (tenant : String) (s : Scan)
    → (detect now tenant s).1.detector.command_injection ≡ s.detector.command_injection
detect-command_injection now tenant s = ap (λ v. v.2) (detect-history_of now tenant s).2

-- A call of `Detect`.
pub record Call : Type 0 where
  pub now : Readings
  pub tenant : String
  pub request : Request

-- The detector after a series of calls.
unfoldable pub detect_all : List Call → AbuseDetector → AbuseDetector
detect_all [] ad = ad
detect_all (c ∷ calls) ad =
    detect_all calls
      (detect c.now c.tenant (record { request = c.request; detector = ad })).1.detector
