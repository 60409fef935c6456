-- ===== src/Edge/Abuse/Detect/Traffic.antt =====
-- The rate and the bot check against the calls of `Detect` that came before.
use mathlib.Core.List.{append-nil}
use axiler_fin.Base.{
  ℕ, ◌≤◌, String, List, [], ◌∷◌, ◌++◌, ◌≡◌, refl, ap, sym, subst, ◌∙◌, ltb, length, length-keep-le,
  All, arith, Bool-cases, ◌=ˢ◌, eq_iff, inl, inr, if◌then◌else◌, lookup, lookup_or,
}
use axiler_fin.Base.Int.{pos, ltb_ℤ}
use axiler_fin.Models.{Time}
use axiler_fin.Http.{Request}
use axiler_fin.Edge.Abuse.{AbuseDetector, RequestHistory, new_abuse_detector}
use axiler_fin.Edge.Abuse.Client.{get_client_ip}
use axiler_fin.Edge.Abuse.History.{
  second, minute, recent, source_key, tracked, is_within, get_or_create_history,
}
use axiler_fin.Edge.Abuse.History.Window.{history_of, get_or_create-history_of, tracked-recent}
use axiler_fin.Edge.Abuse.Checks.{Scan}
use axiler_fin.Edge.Abuse.Checks.Traffic.{
  check_rate_limit, rate_signal, check_bot_patterns, bot_signal,
}
use axiler_fin.Edge.Abuse.Detect.{detect}
use axiler_fin.Edge.Abuse.Detect.Histories.{settings, detect-history_of, Call, detect_all}

abbrev pub call_key : Call → String
call_key c = source_key c.tenant (get_client_ip c.request)

-- When the calls for one source were recorded.
abbrev pub times_of : String → List Call → List Time
times_of key [] = []
times_of key (c ∷ calls) =
    if call_key c =ˢ key then c.now.track_at ∷ times_of key calls else times_of key calls

abbrev scan_of : Call → AbuseDetector → Scan
scan_of c ad = record { request = c.request; detector = ad }

-- One call moves its time from the calls to come into the history.
detect-recent :
    (d : ℕ) (now : Time) (key : String) (c : Call) (calls : List Call) (ad : AbuseDetector)
    → d ≤ minute
    → c.now.track_at ≤ now
    → recent d now (
        (history_of key (detect c.now c.tenant (scan_of c ad)).1.detector).requests
        ++ times_of key calls)
      ≡ recent d now ((history_of key ad).requests ++ times_of key (c ∷ calls))
detect-recent d now key c calls ad h le =
    let (own, others, same_settings) = detect-history_of c.now c.tenant (scan_of c ad) in
    let (signal, s') = detect c.now c.tenant (scan_of c ad) in
    elim (Bool-cases (call_key c =ˢ key)) [
      | inl same ↦
          let eq : call_key c ≡ key = (eq_iff (call_key c) key).0 same in
          let held : history_of key s'.detector
              ≡ tracked c.now.track_at signal.detected (history_of key ad) =
            subst
              (λ k.
                history_of k s'.detector ≡ tracked c.now.track_at signal.detected (history_of k ad))
              eq own in
          ap (λ u. recent d now (u.requests ++ times_of key calls)) held
          ∙ tracked-recent d now c.now.track_at signal.detected (history_of key ad)
              (times_of key calls) h le
          ∙ rw same refl
      | inr other ↦
          ap (λ u. recent d now (u.requests ++ times_of key calls))
            (others key (λ e. cc (other, (eq_iff (call_key c) key).1 (sym e))))
          ∙ rw other refl
    ]

detect_all-recent :
    (d : ℕ) (now : Time) (key : String) (calls : List Call) (ad : AbuseDetector)
    → d ≤ minute
    → All (λ c. c.now.track_at ≤ now) calls
    → recent d now (history_of key (detect_all calls ad)).requests
      ≡ recent d now ((history_of key ad).requests ++ times_of key calls)
unfolding detect_all
detect_all-recent d now key [] ad h k = rw append-nil
detect_all-recent d now key (c ∷ calls) ad h (le, k) =
    detect_all-recent d now key calls (detect c.now c.tenant (scan_of c ad)).1.detector h k
    ∙ detect-recent d now key c calls ad h le

detect_all-settings :
    (calls : List Call) (ad : AbuseDetector) → settings (detect_all calls ad) ≡ settings ad
unfolding detect_all
detect_all-settings [] ad = refl
detect_all-settings (c ∷ calls) ad =
    detect_all-settings calls (detect c.now c.tenant (scan_of c ad)).1.detector
    ∙ (detect-history_of c.now c.tenant (scan_of c ad)).2

history_of-new : (key : String) → (history_of key new_abuse_detector).requests ≡ []
unfolding history_of lookup_or lookup new_abuse_detector
history_of-new key = refl

new-recent :
    (d : ℕ) (now : Time) (key : String) (calls : List Call)
    → d ≤ minute
    → All (λ c. c.now.track_at ≤ now) calls
    → recent d now (history_of key (detect_all calls new_abuse_detector)).requests
      ≡ recent d now (times_of key calls)
new-recent d now key calls h before =
    detect_all-recent d now key calls new_abuse_detector h before
    ∙ ap (λ ts. recent d now (ts ++ times_of key calls)) (history_of-new key)

limit-new : new_abuse_detector.max_requests_per_second ≡ pos 100
unfolding new_abuse_detector
limit-new = refl

rate_signal-detected :
    (now : Time) (ad : AbuseDetector) (h : RequestHistory)
    → (rate_signal now ad h).detected
      ≡ ltb_ℤ ad.max_requests_per_second (pos (length (recent second now h.requests)))
rate_signal-detected now ad h = ground arith

over_hundred : (n : ℕ) → ltb_ℤ (pos 100) (pos n) ≡ ltb 100 n
over_hundred n = ground arith

bot_signal-detected :
    (now : Time) (h : RequestHistory)
    → (bot_signal now h).detected ≡ ltb 50 (length (recent minute now h.requests))
bot_signal-detected now h =
    let fewer = length-keep-le (is_within minute now) h.requests in ground arith

-- The two checks of a source's traffic are exact: after any calls of `Detect` on a new detector, none
-- recorded later than `now`, a request at `now` is reported by the rate check if and only if more than a
-- hundred of them were for its tenant and its address and were recorded within the last second, and
-- as a bot if and only if more than fifty of those were within the last minute.
pub traffic_exact :
    (calls : List Call) (now : Time) (tenant : String) (request : Request)
    → All (λ c. c.now.track_at ≤ now) calls
    → let s : Scan = record { request = request; detector = detect_all calls new_abuse_detector } in
      let times = times_of (source_key tenant (get_client_ip request)) calls in
      ((check_rate_limit tenant now s).0.detected ≡ ltb 100 (length (recent second now times)))
      × ((check_bot_patterns tenant now s).0.detected ≡ ltb 50 (length (recent minute now times)))
unfolding check_rate_limit check_bot_patterns
traffic_exact calls now tenant request before =
    let key = source_key tenant (get_client_ip request) in
    let ad = detect_all calls new_abuse_detector in
    let (held, others) = get_or_create-history_of key ad in
    let limit = ap (λ v. v.1) (detect_all-settings calls new_abuse_detector) ∙ limit-new in
    let times = times_of key calls in
    (
      rate_signal-detected now ad (get_or_create_history key ad).0
          ∙ ap (λ u. ltb_ℤ ad.max_requests_per_second (pos (length (recent second now u.requests))))
              held
          ∙ ap (λ ts. ltb_ℤ ad.max_requests_per_second (pos (length ts)))
              (new-recent second now key calls (omega arith) before)
          ∙ ap (λ n. ltb_ℤ n (pos (length (recent second now times)))) limit
          ∙ over_hundred (length (recent second now times)),
      bot_signal-detected now (get_or_create_history key ad).0
          ∙ ap (λ u. ltb 50 (length (recent minute now u.requests))) held
          ∙ ap (λ ts. ltb 50 (length ts)) (new-recent minute now key calls (omega arith) before),
    )
