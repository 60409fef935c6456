-- ===== src/Edge/Abuse/Client.antt =====
-- abuse.go: what is read of the client of a request.
use Prim.Native.String.{len}
use Prim.Native.Char.{code}
use axiler_fin.Base.{
  String, List, [], ◌∷◌, Bool, true, false, ◌||◌, ◌&&◌, not, if◌then◌else◌, ltb, ◌==◌, ◌=ˢ◌, ◌+ˢ◌,
  any, before, trim_space, split_host,
}
use axiler_fin.Http.{Request, get_header}

-- `getClientIP`
unfoldable pub get_client_ip : Request → String
unfolding get_header trim_space split_host
get_client_ip r =
    let forwarded = get_header "X-Forwarded-For" r in
    let real = get_header "X-Real-Ip" r in
    if not (forwarded =ˢ "")
    then trim_space (before b',' forwarded)
    else (if not (real =ˢ "") then real else split_host r.remote_addr)

-- `GetFingerprint`, where `md5` gives the digest of a text in hexadecimal
unfoldable pub get_fingerprint : (String → String) → Request → String
unfolding get_header
get_fingerprint md5 r =
    md5 (get_header "User-Agent" r +ˢ get_header "Accept" r +ˢ get_header "Accept-Language" r)

-- Whether a control character other than the tab stands in the text.
has_control : String → Bool
has_control String.[] = false
has_control (String.◌∷◌ c s) = (ltb (code c) 32 && not (code c == 9)) || has_control s

-- `isSuspiciousUserAgent`
unfoldable pub is_suspicious_user_agent : String → Bool
unfolding has_control
is_suspicious_user_agent ua =
    if ua =ˢ "" then true else (if ltb 500 (len ua) then true else has_control ua)

abbrev trusted_proxies : List String
trusted_proxies = "127.0.0.1" ∷ "::1" ∷ []

-- `isTrustedProxy`
unfoldable pub is_trusted_proxy : Request → Bool
unfolding split_host
is_trusted_proxy r = any (λ trusted. split_host r.remote_addr =ˢ trusted) trusted_proxies
