-- ===== src/Edge/Abuse/Detect/Velocity.antt =====
-- The velocity check reads histories under keys that begin with `velocity|`, under which no request is
-- ever recorded.
use text.Mathlib.TextLemmas.{nil-append, cons-append, append_assoc}
use axiler_fin.Base.{
  String, List, [], ◌∷◌, false, ◌≡◌, ◌≢◌, refl, ap, sym, ◌∙◌, ◌+ˢ◌, has_code, before, before-append,
  All, lookup_or, lookup,
}
use axiler_fin.Base.Int.{ℤ, pos}
use axiler_fin.Base.Regexp.{Regexp}
use axiler_fin.Models.{Time}
use axiler_fin.Http.{Request}
use axiler_fin.Edge.Abuse.{AbuseDetector, RequestHistory, no_signal, new_abuse_detector}
use axiler_fin.Edge.Abuse.Client.{get_client_ip}
use axiler_fin.Edge.Abuse.History.{source_key, get_or_create_history, empty_history}
use axiler_fin.Edge.Abuse.History.Window.{history_of, get_or_create-history_of}
use axiler_fin.Edge.Abuse.Checks.{Scan}
use axiler_fin.Edge.Abuse.Checks.Traffic.{check_velocity, velocity_signal}
use axiler_fin.Edge.Abuse.Detect.{Readings, detect}
use axiler_fin.Edge.Abuse.Detect.Histories.{settings, detect-history_of, Call, detect_all}

-- A tenant identifier as the edge admits it: no bar in it, and not the word of the velocity keys.
pub record IsPlain (tenant : String) : Type 0 where
  pub unbarred : has_code b'|' tenant ≡ false
  pub other : tenant ≢ "velocity"

bar : (ip : String) → "|" +ˢ ip ≡ String.◌∷◌ "|" ip
bar ip = cons-append _ "" ip ∙ ap (String.◌∷◌ _) (nil-append ip)

velocity_key : (ip : String) → "velocity|" +ˢ ip ≡ "velocity" +ˢ String.◌∷◌ "|" ip
velocity_key ip = append_assoc "velocity" "|" ip ∙ ap (λ s. "velocity" +ˢ s) (bar ip)

before-source_key :
    (tenant ip : String) → IsPlain tenant → before b'|' (source_key tenant ip) ≡ tenant
before-source_key tenant ip p =
    ap (λ s. before b'|' (tenant +ˢ s)) (bar ip) ∙ before-append b'|' tenant ip "|" p.unbarred refl

before-velocity_key : (ip : String) → before b'|' ("velocity|" +ˢ ip) ≡ "velocity"
unfolding has_code
before-velocity_key ip =
    ap (before b'|') (velocity_key ip) ∙ before-append b'|' "velocity" ip "|" refl refl

velocity_key-ne-source_key :
    (tenant ip ip' : String) → IsPlain tenant → "velocity|" +ˢ ip ≢ source_key tenant ip'
velocity_key-ne-source_key tenant ip ip' p e =
    p.other
      (sym (before-source_key tenant ip' p) ∙ sym (ap (before b'|') e) ∙ before-velocity_key ip)

-- The history under a key, with the settings.
abbrev held : String → AbuseDetector → RequestHistory × (ℤ × ℤ × Regexp)
held key ad = (history_of key ad, settings ad)

detect-velocity :
    (now : Readings) (tenant ip : String) (s : Scan)
    → IsPlain tenant
    → held ("velocity|" +ˢ ip) (detect now tenant s).1.detector
      ≡ held ("velocity|" +ˢ ip) s.detector
detect-velocity now tenant ip s p =
    let (own, others, same) = detect-history_of now tenant s in
    let history =
      others ("velocity|" +ˢ ip)
        (velocity_key-ne-source_key tenant ip (get_client_ip s.request) p) in
    λ i. (history i, same i)

detect_all-velocity :
    (calls : List Call) (ad : AbuseDetector) (ip : String)
    → All (λ c. IsPlain c.tenant) calls
    → held ("velocity|" +ˢ ip) (detect_all calls ad) ≡ held ("velocity|" +ˢ ip) ad
unfolding detect_all
detect_all-velocity [] ad ip h = refl
detect_all-velocity (c ∷ calls) ad ip (p, h) =
    detect_all-velocity calls
      (detect c.now c.tenant (record { request = c.request; detector = ad })).1.detector ip h
    ∙ detect-velocity c.now c.tenant ip (record { request = c.request; detector = ad }) p

silent :
    (ip : String) (now : Time) (ad : AbuseDetector) (h : RequestHistory)
    → h ≡ empty_history
    → ad.velocity_threshold ≡ pos 1000
    → velocity_signal ip now ad h ≡ no_signal
silent ip now ad h history threshold = rw (history, threshold) refl

history_of-new : (key : String) → history_of key new_abuse_detector ≡ empty_history
unfolding history_of lookup_or lookup new_abuse_detector
history_of-new key = refl

threshold-new : new_abuse_detector.velocity_threshold ≡ pos 1000
unfolding new_abuse_detector
threshold-new = refl

-- The velocity check never reports anything: starting from a new detector, after any calls of `Detect`
-- whose tenants contain no bar and are not the word `velocity`, it finds no history to judge for any
-- request.
pub velocity_silent :
    (calls : List Call) (now : Time) (request : Request)
    → All (λ c. IsPlain c.tenant) calls
    → (check_velocity now
        (record { request = request; detector = detect_all calls new_abuse_detector })).0
      ≡ no_signal
unfolding check_velocity
velocity_silent calls now request h =
    let ip = get_client_ip request in
    let ad = detect_all calls new_abuse_detector in
    let view = detect_all-velocity calls new_abuse_detector ip h in
    silent ip now ad (get_or_create_history ("velocity|" +ˢ ip) ad).0
      ((get_or_create-history_of ("velocity|" +ˢ ip) ad).0
        ∙ ap (λ v. v.0) view
        ∙ history_of-new ("velocity|" +ˢ ip))
      (ap (λ v. v.1.0) view ∙ threshold-new)
