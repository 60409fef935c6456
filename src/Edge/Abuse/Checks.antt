-- ===== src/Edge/Abuse/Checks.antt =====
-- abuse.go: the checks that look at the request alone. A check takes the request and the detector, and
-- returns its signal with both as it leaves them.
pub mod Traffic
use axiler_fin.Base.{
  ℕ, zero, suc, ◌+◌, String, List, [], ◌∷◌, ◌++◌, map, Bool, true, false, not, ◌&&◌, ◌||◌, Option,
  none, some, any, take, length, if◌then◌else◌, ltb, leb, ◌==◌, ◌=ˢ◌, ◌+ˢ◌, codes, contains, join,
  decimal,
}
use axiler_fin.Base.Int.{ℤ, pos, negsuc, ltb_ℤ, leb_ℤ, pos_part, decimal_int}
use axiler_fin.Base.Regexp.{Regexp, match_string}
use axiler_fin.Base.Utf8.{runes}
use axiler_fin.Http.{Request, Body, no_body, reader, get_header}
use axiler_fin.Edge.Abuse.{AbuseSignal, AbuseDetector, no_signal}
use axiler_fin.Edge.Abuse.Client.{is_suspicious_user_agent, is_trusted_proxy}

pub record Scan : Type 0 where
  pub request : Request
  pub detector : AbuseDetector

-- `checkRequestSize`
unfoldable pub check_request_size : Scan → AbuseSignal × Scan
check_request_size s =
    let r = s.request in
    let ad = s.detector in
    if ltb_ℤ ad.max_request_size r.content_length
    then (
      record {
        detected = true;
        severity = 8;
        reason =
            "Request size "
            +ˢ decimal_int r.content_length
            +ˢ " exceeds limit "
            +ˢ decimal_int ad.max_request_size;
        recommendations = "Reject request" ∷ "Log IP" ∷ "Alert security team" ∷ [];
      },
      s,
    )
    else (no_signal, s)

-- Whether one of the three patterns is found in a header's value.
abbrev pub is_injection : AbuseDetector → String → Bool
is_injection ad value =
    match_string ad.sql_injection_pattern (codes value)
    || match_string ad.xss_pattern (codes value)
    || match_string ad.command_injection (codes value)

-- The loop over the headers.
unfoldable pub injected_headers : AbuseDetector → List (String × List String) → List String
injected_headers ad [] = []
injected_headers ad ((name, values) ∷ rest) =
    if any (is_injection ad) values
    then ("injection in header " +ˢ name) ∷ injected_headers ad rest
    else injected_headers ad rest

-- `reasons` at the end of the loop and the tests; `suspiciousCount` is always its length.
unfoldable pub header_reasons : Request → AbuseDetector → List String
unfolding injected_headers
header_reasons r ad =
    let ua = get_header "User-Agent" r in
    (if ua =ˢ "" then "missing User-Agent" ∷ [] else [])
    ++ ((if is_suspicious_user_agent ua then ("suspicious User-Agent: " +ˢ ua) ∷ [] else [])
        ++ (injected_headers ad r.header
            ++ (if not (get_header "X-Forwarded-For" r =ˢ "")
                  && not (get_header "X-Real-Ip" r =ˢ "")
                  && not (is_trusted_proxy r)
                then "multiple proxy headers from untrusted source" ∷ []
                else [])))

-- `checkSuspiciousHeaders`
unfoldable pub check_suspicious_headers : Scan → AbuseSignal × Scan
unfolding header_reasons
check_suspicious_headers s =
    let reasons = header_reasons s.request s.detector in
    if leb_ℤ s.detector.suspicious_header_threshold (pos (length reasons))
    then (
      record {
        detected = true;
        severity = 6;
        reason = "Suspicious headers: " +ˢ join reasons;
        recommendations = "Log request" ∷ "Verify headers" ∷ "Consider rate limiting" ∷ [];
      },
      s,
    )
    else (no_signal, s)

-- How much of the body is read.
abbrev pub body_limit : ℤ → ℕ
body_limit content_length =
    if leb_ℤ (pos 0) content_length && ltb_ℤ content_length (pos 10_000)
    then pos_part content_length
    else 10_000

abbrev pub payload_signal : String → ℕ → AbuseSignal
payload_signal name severity = record {
  detected = true;
  severity = severity;
  reason = name +ˢ " pattern detected in body";
  recommendations =
      "Block request immediately" ∷ "Log with full request details" ∷ "Alert security team"
      ∷ "Block IP for 1 hour" ∷ [];
}

-- The loop over `detections`.
unfoldable pub scan_payload : List (Regexp × String × ℕ) → List ℕ → AbuseSignal
scan_payload [] body = no_signal
scan_payload ((pattern, name, severity) ∷ rest) body =
    if match_string pattern body then payload_signal name severity else scan_payload rest body

abbrev pub detections : AbuseDetector → List (Regexp × String × ℕ)
detections ad =
    (ad.sql_injection_pattern, "SQL injection", 9)
    ∷ (ad.xss_pattern, "XSS", 8)
    ∷ (ad.command_injection, "Command injection", 9)
    ∷ []

-- The rest of `checkPayloadInjection`, by the body: what was read takes the body's place.
abbrev pub scan_body : Body → Scan → AbuseSignal × Scan
scan_body no_body s = (no_signal, s)
scan_body (reader bytes broken) s =
    let body = take (body_limit s.request.content_length) bytes in
    (
      scan_payload (detections s.detector) (runes body),
      record s { request = record (s.request) { body = reader body false } },
    )

-- `checkPayloadInjection`
unfoldable pub check_payload_injection : Scan → AbuseSignal × Scan
unfolding scan_payload
check_payload_injection s = scan_body s.request.body s

-- `strings.ToLower`, on the letters that have an ASCII lower case
abbrev pub to_lower : ℕ → ℕ
to_lower c =
    if leb b'A' c && leb c b'Z'
    then c + 32
    else (if c == 0x130 then b'i' else (if c == 0x212a then b'k' else c))

abbrev pub bot_patterns : List String
bot_patterns =
    "sqlmap" ∷ "nikto" ∷ "nessus" ∷ "nmap" ∷ "masscan" ∷ "metasploit" ∷ "burp" ∷ "zaproxy" ∷ "w3af"
    ∷ "scrapy" ∷ "curl" ∷ "wget" ∷ "python" ∷ "java" ∷ "perl" ∷ "bot" ∷ "crawler" ∷ "spider"
    ∷ "scanner" ∷ []

-- `checkUserAgent`
unfoldable pub check_user_agent : Scan → AbuseSignal × Scan
unfolding contains
check_user_agent s =
    let ua = get_header "User-Agent" s.request in
    if any (λ pattern. contains (map to_lower (codes ua)) (codes pattern)) bot_patterns
    then (
      record {
        detected = true;
        severity = 5;
        reason = "Bot/scanner detected: " +ˢ ua;
        recommendations = "Log request details" ∷ "Block if known bad bot" ∷ "Require CAPTCHA" ∷ [];
      },
      s,
    )
    else (no_signal, s)

abbrev pub traversal_patterns : List String
traversal_patterns =
    "../" ∷ "..\\" ∷ "%2e%2e/" ∷ "%2e%2e%5c" ∷ "....//" ∷ "....\\\\" ∷ "/etc/" ∷ "/var/" ∷ "/proc/"
    ∷ "/sys/" ∷ "/root/" ∷ []

-- The loop over the patterns.
unfoldable pub scan_path : String → String → List String → AbuseSignal
scan_path path query [] = no_signal
scan_path path query (pattern ∷ rest) =
    if contains (codes path) (codes pattern) || contains (codes query) (codes pattern)
    then record {
      detected = true;
      severity = 9;
      reason = "Path traversal attempt detected: " +ˢ pattern;
      recommendations =
          "Block request immediately" ∷ "Log with full details" ∷ "Block IP for 24 hours"
          ∷ "Alert security team" ∷ [];
    }
    else scan_path path query rest

-- `checkPathTraversal`
unfoldable pub check_path_traversal : Scan → AbuseSignal × Scan
unfolding scan_path
check_path_traversal s = (scan_path s.request.path s.request.raw_query traversal_patterns, s)
