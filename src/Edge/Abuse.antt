-- ===== src/Edge/Abuse.antt =====
-- cmd/edge-service/abuse.go: the abuse detector. Its state and its patterns are here; the parts of
-- the file are the child modules. The mutexes make each access to a history a single step.
pub mod Client
pub mod History
pub mod Checks
pub mod Detect
pub mod Shared
use axiler_fin.Base.{ℕ, String, List, [], ◌∷◌, Dict, Bool, false, Option, none, if◌then◌else◌, ltb}
use axiler_fin.Base.Int.{ℤ, pos}
use axiler_fin.Base.Regexp.{Regexp, one_of, literal_fold}
use axiler_fin.Models.{Time}

-- `LastRequest` is none where it is Go's zero time.
pub record RequestHistory : Type 0 where
  pub requests : List Time
  pub failed_attempts : List Time
  pub suspicious_count : ℕ
  pub last_request : Option Time

pub record AbuseSignal : Type 0 where
  pub detected : Bool
  pub reason : String
  pub severity : ℕ
  pub recommendations : List String

pub record AbuseDetector : Type 0 where
  -- The key is `tenant_id|ip`.
  pub request_history : Dict RequestHistory
  pub max_requests_per_second : ℤ
  pub max_failed_auth_per_minute : ℤ
  pub max_request_size : ℤ
  pub suspicious_header_threshold : ℤ
  pub velocity_threshold : ℤ
  pub sql_injection_pattern : Regexp
  pub xss_pattern : Regexp
  pub command_injection : Regexp

-- The three expressions that `NewAbuseDetector` compiles, all under `(?i)`.
abbrev pub sql_injection_words : List String
sql_injection_words =
    "union" ∷ "select" ∷ "insert" ∷ "update" ∷ "delete" ∷ "drop" ∷ "create" ∷ "alter" ∷ "exec"
    ∷ "execute" ∷ "script" ∷ "javascript" ∷ "onerror" ∷ "onload" ∷ "onclick" ∷ "base64_decode"
    ∷ "base64_encode" ∷ []

abbrev pub xss_words : List String
xss_words =
    "<script" ∷ "javascript:" ∷ "onerror=" ∷ "onload=" ∷ "onclick=" ∷ "<iframe" ∷ "<embed"
    ∷ "<object" ∷ []

-- `(;|&&|\|\|||\$\(|%0a|%0d)`: between `\|\|` and `\$\(` stand two bars, and so an empty alternative.
abbrev pub command_words : List String
command_words = ";" ∷ "&&" ∷ "||" ∷ "" ∷ "$(" ∷ "%0a" ∷ "%0d" ∷ []

unfoldable pub new_abuse_detector : AbuseDetector
unfolding one_of literal_fold
new_abuse_detector = record {
  request_history = [];
  max_requests_per_second = pos 100;
  max_failed_auth_per_minute = pos 5;
  max_request_size = pos 10_485_760;
  suspicious_header_threshold = pos 3;
  velocity_threshold = pos 1000;
  sql_injection_pattern = one_of literal_fold sql_injection_words;
  xss_pattern = one_of literal_fold xss_words;
  command_injection = one_of literal_fold command_words;
}

-- `AbuseSignal{Detected: false}`
abbrev pub no_signal : AbuseSignal
no_signal = record { detected = false; reason = ""; severity = 0; recommendations = [] }

-- The helper `max` of the file
unfoldable pub max : ℕ → ℕ → ℕ
max a b = if ltb b a then a else b

-- The helper `min` of the file
unfoldable pub min : ℕ → ℕ → ℕ
min a b = if ltb a b then a else b
