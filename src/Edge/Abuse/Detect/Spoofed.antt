-- ===== src/Edge/Abuse/Detect/Spoofed.antt =====
-- The checks of a source's traffic against a client that names its own address.
use axiler_fin.Base.{
  ℕ, ◌≤◌, String, ◌≡◌, ◌≢◌, refl, ap, ◌∙◌, false, List, [], ◌∷◌, All, length, ltb, insert,
  lookup-insert_self, has_code, before, before-cons, cut, trim_space, ne→=ˢ, arith,
}
use axiler_fin.Models.{Time}
use axiler_fin.Http.{Request, get_header}
use axiler_fin.Edge.Abuse.{new_abuse_detector}
use axiler_fin.Edge.Abuse.Client.{get_client_ip}
use axiler_fin.Edge.Abuse.History.{source_key, recent, second, minute}
use axiler_fin.Edge.Abuse.Checks.{Scan}
use axiler_fin.Edge.Abuse.Checks.Traffic.{check_rate_limit, check_bot_patterns}
use axiler_fin.Edge.Abuse.Detect.Histories.{Call, detect_all}
use axiler_fin.Edge.Abuse.Detect.Traffic.{call_key, times_of, traffic_exact}

-- The request with this text for an address in its header.
abbrev pub forwarded_for : String → Request → Request
forwarded_for address r = record r { header = insert "X-Forwarded-For" (address ∷ []) r.header }

-- A text that the header gives back as it is.
pub record IsAddress (address : String) : Type 0 where
  pub single : has_code b',' address ≡ false
  pub trimmed : trim_space address ≡ address
  pub given : address ≢ ""

before-absent : (k : ℕ) (s : String) → has_code k s ≡ false → before k s ≡ s
unfolding has_code cut
before-absent k String.[] h = refl
before-absent k (String.◌∷◌ c s) h =
    let rest : has_code k s ≡ false = ground arith in
    before-cons k c s (ground arith) ∙ ap (String.◌∷◌ c) (before-absent k s rest)

header_is :
    (address : String) (r : Request)
    → get_header "X-Forwarded-For" (forwarded_for address r) ≡ address
unfolding get_header
header_is address r =
    rw (get_header, lookup-insert_self "X-Forwarded-For" (address ∷ []) r.header) refl

-- The client's address is what its header says, whatever the address of the connection.
get_client_ip-forwarded_for :
    (address : String) (r : Request)
    → IsAddress address
    → get_client_ip (forwarded_for address r) ≡ address
unfolding get_client_ip
get_client_ip-forwarded_for address r a =
    rw
      (
        get_client_ip,
        header_is address r,
        ne→=ˢ address "" a.given,
        before-absent b',' address a.single,
      )
      a.trimmed

times_of-other :
    (key : String) (calls : List Call) → All (λ c. call_key c ≢ key) calls → times_of key calls ≡ []
times_of-other key [] h = refl
times_of-other key (c ∷ calls) (ne, h) = rw (ne→=ˢ (call_key c) key ne) (times_of-other key calls h)

-- A client evades the checks by a new address in each request: after any number of calls of `Detect` on a
-- new detector, from whatever connections, a request whose `X-Forwarded-For` is a single address that
-- none of them had for its tenant is reported neither by the rate check nor as a bot.
pub forwarded_for_evades :
    (calls : List Call) (now : Time) (tenant address : String) (r : Request)
    → IsAddress address
    → All (λ c. c.now.track_at ≤ now) calls
    → All (λ c. call_key c ≢ source_key tenant address) calls
    → let s : Scan = record {
      request = forwarded_for address r;
      detector = detect_all calls new_abuse_detector;
    } in
      ((check_rate_limit tenant now s).0.detected ≡ false)
      × ((check_bot_patterns tenant now s).0.detected ≡ false)
forwarded_for_evades calls now tenant address r a before others =
    let (rate, bot) = traffic_exact calls now tenant (forwarded_for address r) before in
    let key_is = ap (source_key tenant) (get_client_ip-forwarded_for address r a) in
    let none_of : times_of (source_key tenant (get_client_ip (forwarded_for address r))) calls
        ≡ [] =
      ap (λ k. times_of k calls) key_is ∙ times_of-other (source_key tenant address) calls others in
    (
      rate ∙ ap (λ ts. ltb 100 (length (recent second now ts))) none_of,
      bot ∙ ap (λ ts. ltb 50 (length (recent minute now ts))) none_of,
    )
