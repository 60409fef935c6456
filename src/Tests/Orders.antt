-- ===== src/Tests/Orders.antt =====
-- What does not depend on an order, at concrete inputs.
use mathlib.Core.List.{Memᴰ, Permᴰ}
use axiler_fin.Base.{
  ℕ, String, true, false, insert, lookup_or, some, [], ◌∷◌, Dict, ◌≡◌, refl, get_elem?, map, lookup,
}
use axiler_fin.Http.{Request, no_payload}
use axiler_fin.Service.{Outcome, reply}
use axiler_fin.Login.{credentials, handle_login, LoginTimes}
use axiler_fin.Login.Order.{handle_login-order}
use axiler_fin.Edge.Middleware.{backends, proxy_request}
use axiler_fin.Edge.Middleware.Order.{proxy_request-order}
use axiler_fin.Edge.Abuse.{new_abuse_detector}
use axiler_fin.Edge.Abuse.History.{empty_history, track_request, cleanup_old_data}
use axiler_fin.Edge.Abuse.Client.{get_client_ip}
use axiler_fin.Edge.Abuse.History.Window.{Event, event_key, history_of, track_all}
use axiler_fin.Edge.Abuse.Shared.{
  Shared, find_or_create, append_at, tidy, drop_idle, returned, begun, Runs, stop, find, append,
}
use axiler_fin.Edge.Abuse.Shared.Pointers.{Good, held}
use axiler_fin.Edge.Abuse.Shared.Linear.{Agrees, linear}
use axiler_fin.Edge.Abuse.Shared.Lost.{cleanup_loses}
use axiler_fin.Tests.Fixtures.{one_token, manager, Amount, post, with_token}
use axiler_fin.Tests.Journeys.{decode_login}

-- The last two entries of `credentials` and of `backends` in the other order.
abbrev other_credentials : Dict (Dict String)
other_credentials =
    ("alpha", ("api_key", "alpha_key_123") ∷ ("secret", "alpha_secret_456") ∷ [])
    ∷ ("gamma", ("api_key", "gamma_key_345") ∷ ("secret", "gamma_secret_678") ∷ [])
    ∷ ("beta", ("api_key", "beta_key_789") ∷ ("secret", "beta_secret_012") ∷ [])
    ∷ []

abbrev times : LoginTimes
times = record { issue_at = 5; expiry_from = 5 }

handle_login-order_example :
    handle_login one_token {F = Amount} decode_login manager other_credentials times
      (post "/auth/login" [] [])
    ≡ handle_login one_token decode_login manager credentials times (post "/auth/login" [] [])
handle_login-order_example =
    handle_login-order one_token decode_login manager other_credentials times
      (post "/auth/login" [] []) (Permᴰ.cons refl (Permᴰ.swap refl refl))

abbrev backend : String → Request → Outcome Amount
backend host r = reply 200 no_payload []

abbrev other_backends : Dict String
other_backends =
    ("/auth", "http://auth:8081")
    ∷ ("/api/v1/transfer", "http://transfer:8083")
    ∷ ("/api/v1/search", "http://search:8082")
    ∷ []

proxy_request-order_example :
    proxy_request (λ url. true) backend other_backends (post "/api/v1/search" with_token [])
    ≡ proxy_request (λ url. true) backend backends (post "/api/v1/search" with_token [])
proxy_request-order_example =
    proxy_request-order (λ url. true) backend other_backends (post "/api/v1/search" with_token [])
      (Permᴰ.cons refl (Permᴰ.swap refl refl))

-- Two requests of one new source at the same time: both look the history up before either appends.
abbrev nobody : Shared
nobody = record { table = []; heap = [] }

nobody-Good : Good nobody
unfolding lookup
nobody-Good = record { stored = λ k p e. absurd (cc e); apart = λ k k' p e e'. absurd (cc e) }

abbrev first : Event
first = record {
  at = 9;
  request = post "/api/v1/search" with_token [];
  tenant = "alpha";
  abusive = false;
}

abbrev second : Event
second = record {
  at = 10;
  request = post "/api/v1/search" with_token [];
  tenant = "alpha";
  abusive = false;
}

new-Agrees : Agrees nobody new_abuse_detector
unfolding held history_of new_abuse_detector lookup lookup_or
new-Agrees key = refl

abbrev both : Shared
both = append_at 0 first (
    append_at 0 second
      (find_or_create (event_key first) (find_or_create (event_key second) nobody).1).1)

both_run :
    Runs
      (map begun (first ∷ second ∷ []))
      nobody
      (second ∷ first ∷ [])
      (returned ∷ returned ∷ [])
      both
unfolding find_or_create lookup insert get_client_ip
both_run = find 1 refl (find 0 refl (append 1 refl (append 0 refl stop)))

linear_example :
    Agrees both (track_all (second ∷ first ∷ []) new_abuse_detector)
    × ((j : ℕ) (e : Event)
        → get_elem? (first ∷ second ∷ []) j ≡ some e
        → get_elem? (returned ∷ returned ∷ []) j ≡ some returned
        → Memᴰ e (second ∷ first ∷ []))
linear_example =
    linear (first ∷ second ∷ []) nobody both new_abuse_detector nobody-Good new-Agrees both_run

cleanup_loses_example :
    (held (event_key first) (
        append_at (find_or_create (event_key first) nobody).0 first (
          drop_idle
            (event_key first)
            (tidy (event_key first) 9 (find_or_create (event_key first) nobody).1)))
      ≡ empty_history)
    × Memᴰ 9
        (history_of (event_key first) (
          track_request 9 first.request "alpha" false
            (cleanup_old_data 9 new_abuse_detector))).requests
unfolding held lookup
cleanup_loses_example = cleanup_loses first 9 nobody new_abuse_detector nobody-Good refl
