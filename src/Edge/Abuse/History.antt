-- ===== src/Edge/Abuse/History.antt =====
-- abuse.go: the histories of the sources of requests.
pub mod Window
pub mod Cleanup
use axiler_fin.Base.{
  ℕ, ◌+◌, ◌*◌, String, List, [], ◌∷◌, ◌++◌, Bool, true, false, ◌&&◌, Option, none, some, Dict,
  lookup, insert, lookup_or, keep, length, if◌then◌else◌, ltb, ◌==◌, ◌+ˢ◌,
}
use axiler_fin.Models.{Time}
use axiler_fin.Http.{Request}
use axiler_fin.Edge.Abuse.{RequestHistory, AbuseDetector}
use axiler_fin.Edge.Abuse.Client.{get_client_ip}

-- In nanoseconds.
abbrev pub second : ℕ
second = 1_000_000_000

abbrev pub minute : ℕ
minute = 60_000_000_000

-- `t.After(now.Add(-d))`, written without a difference that could fall below zero
abbrev pub is_within : ℕ → Time → Time → Bool
is_within d now t = ltb now (t + d)

-- The loop that keeps the times after `now.Add(-d)`.
abbrev pub recent : ℕ → Time → List Time → List Time
recent d now = keep (is_within d now)

abbrev pub empty_history : RequestHistory
empty_history = record {
  requests = [];
  failed_attempts = [];
  suspicious_count = 0;
  last_request = none;
}

-- The key of a tenant's requests from an address.
abbrev pub source_key : String → String → String
source_key tenant ip = tenant +ˢ "|" +ˢ ip

-- `getOrCreateHistory`: the history under the key, and the detector that has it.
unfoldable pub get_or_create_history : String → AbuseDetector → RequestHistory × AbuseDetector
get_or_create_history key ad = elim (lookup key ad.request_history) [
  | some history ↦ (history, ad)
  | none ↦
      (empty_history, record ad { request_history = insert key empty_history ad.request_history })
]

-- A write to the history that the map holds under the key.
abbrev pub put_history : String → RequestHistory → AbuseDetector → AbuseDetector
put_history key history ad = record ad { request_history = insert key history ad.request_history }

-- The history after a request at `now`.
abbrev pub tracked : Time → Bool → RequestHistory → RequestHistory
tracked now abusive history = record history {
  requests = recent minute now (history.requests ++ now ∷ []);
  last_request = some now;
  suspicious_count = if abusive then history.suspicious_count + 1 else history.suspicious_count;
}

-- `trackRequest`, where `time.Now()` is `now`
unfoldable pub track_request : Time → Request → String → Bool → AbuseDetector → AbuseDetector
unfolding get_or_create_history
track_request now r tenant abusive ad =
    let key = source_key tenant (get_client_ip r) in
    let (history, ad') = get_or_create_history key ad in
    put_history key (tracked now abusive history) ad'

-- `TrackFailedAuth`: the number of failures in the last minute, this one included
unfoldable pub track_failed_auth : Time → String → String → AbuseDetector → ℕ × AbuseDetector
unfolding get_or_create_history
track_failed_auth now tenant ip ad =
    let key = source_key tenant ip in
    let (history, ad') = get_or_create_history key ad in
    let failures = recent minute now (history.failed_attempts ++ now ∷ []) in
    (length failures, put_history key (record history { failed_attempts = failures }) ad')

abbrev pub cleaned : Time → RequestHistory → RequestHistory
cleaned now history = record history {
  requests = recent (5 * minute) now history.requests;
  failed_attempts = recent (5 * minute) now history.failed_attempts;
}

abbrev pub is_idle : RequestHistory → Bool
is_idle history = length history.requests == 0 && length history.failed_attempts == 0

cleanup_from : Time → Dict RequestHistory → Dict RequestHistory
cleanup_from now [] = []
cleanup_from now ((key, history) ∷ rest) =
    if is_idle (cleaned now history)
    then cleanup_from now rest
    else (key, cleaned now history) ∷ cleanup_from now rest

-- `CleanupOldData`
unfoldable pub cleanup_old_data : Time → AbuseDetector → AbuseDetector
unfolding cleanup_from
cleanup_old_data now ad = record ad { request_history = cleanup_from now ad.request_history }
