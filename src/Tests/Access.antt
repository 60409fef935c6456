-- ===== src/Tests/Access.antt =====
-- Tokens, tenants and logins at concrete inputs.
use axiler_fin.Base.{
  String, Option, none, some, [], ◌∷◌, Dict, ◌≡◌, ◌⊎◌, refl, arith, lookup, cut, ok, err,
  Bool-cases, inl, inr, ◌=ˢ◌,
}
use axiler_fin.Base.Float.{fixed_point}
use axiler_fin.Models.{
  Time, SearchRequest, SearchResponse, SyntheticDatabase, AuthRequest, AuthResponse,
  TransferRequest,
}
use axiler_fin.Context.{RequestContext, new_context_with_request, from_context}
use axiler_fin.Http.{Request, Body, get_header, search}
use axiler_fin.Auth.{new_token, validate_token, claims_at}
use axiler_fin.Auth.Interface.{TokenClaims}
use axiler_fin.Auth.RoundTrip.{validate-new_token, validate-new_token_expired}
use axiler_fin.Auth.Soundness.{Genuine, validate_token-Genuine}
use axiler_fin.Service.{Readings, auth_middleware, bearer_token}
use axiler_fin.Service.Gate.{Bears, Passed, Refused, auth_gate}
use axiler_fin.Search.{handle_search, serve_search}
use axiler_fin.Search.Isolation.{SameView, Shows, handle_search-SameView, serve_search-isolated}
use axiler_fin.Transfer.{TransferTimes}
use axiler_fin.Login.{LoginTimes}
use axiler_fin.Tests.Fixtures.{
  one_token, alpha_claims, one_token-laws, manager, Amount, money, account, database, post,
  with_token,
}

abbrev later : Time
later = 100_000_000_000

abbrev now : Readings
now = record { validate_at = later; request_at = later; trace_at = later; stamp_at = later }

abbrev for_a1 : Body → Option SearchRequest
for_a1 body = some (record { account_id = "a1" })

abbrev search_request : Request
search_request = post "/api/v1/search" with_token (b'{' ∷ b'}' ∷ [])

auth_gate_example :
    Passed one_token manager now (handle_search fixed_point for_a1) [] search_request database
    ⊎ Refused one_token manager now (handle_search fixed_point for_a1) [] search_request database
auth_gate_example =
    auth_gate one_token manager now (handle_search fixed_point for_a1) [] search_request database

abbrev shown : SearchResponse Amount
shown = record {
  account_id = "a1";
  account_name = "Owner";
  balance = money 100;
  tenant_id = "alpha";
  status = "active";
  last_updated = 1;
}

shown_in_answer :
    (serve_search fixed_point for_a1 one_token manager now search_request
      database).0.response.payload
    ≡ search shown
unfolding serve_search handle_search auth_middleware bearer_token validate_token get_header lookup
    cut from_context new_context_with_request
shown_in_answer = refl

serve_search-isolated_example :
    (claims : TokenClaims) × Bears one_token manager now search_request claims
    × Shows fixed_point for_a1 database claims.tenant_id search_request shown
serve_search-isolated_example =
    serve_search-isolated fixed_point for_a1 one_token manager now search_request database shown
      shown_in_answer

-- The database with another balance of the other tenant.
abbrev changed : SyntheticDatabase Amount
changed = record database {
  accounts =
      ("a1", account "a1" "alpha" 100)
      ∷ ("a2", account "a2" "alpha" 20)
      ∷ ("b1", account "b1" "beta" 7)
      ∷ [];
}

abbrev alpha_context : RequestContext
alpha_context = record {
  tenant_id = "alpha";
  user_id = "alpha_user";
  request_id = "req_1";
  trace_id = "trace_1";
  client_cert = "";
  timestamp = 100;
  release_ver = "1.0.0";
}

changed-SameView : SameView "alpha" database changed
unfolding lookup
changed-SameView id = elim (Bool-cases ("a1" =ˢ id)) [
  | inl a1 ↦ rw (a1, lookup) refl
  | inr rest ↦ elim (Bool-cases ("a2" =ˢ id)) [
    | inl a2 ↦ rw (rest, a2, lookup) refl
    | inr others ↦ elim (Bool-cases ("b1" =ˢ id)) [
      | inl b1 ↦ rw (rest, others, b1, lookup) refl
      | inr unknown ↦ rw (rest, others, unknown, lookup) refl
    ]
  ]
]

context_tenant : (from_context (new_context_with_request alpha_context [])).tenant_id ≡ "alpha"
unfolding from_context new_context_with_request lookup
context_tenant = refl

handle_search-SameView_example :
    let ctx = new_context_with_request alpha_context [] in
    (handle_search fixed_point for_a1 ctx search_request database).0
    ≡ (handle_search fixed_point for_a1 ctx search_request changed).0
handle_search-SameView_example =
    handle_search-SameView fixed_point for_a1 database changed
      (new_context_with_request alpha_context []) search_request
      (rw context_tenant changed-SameView)

issued :
    new_token one_token manager 5_000_000_000 "alpha" "alpha_user" "alpha_key_123"
    ≡ ok "alpha_token"
unfolding new_token
issued = refl

validate-new_token_example :
    validate_token one_token manager later "alpha_token"
    ≡ ok (claims_at one_token manager 5_000_000_000 "alpha" "alpha_user" "alpha_key_123")
validate-new_token_example =
    validate-new_token one_token one_token-laws manager manager 5_000_000_000 later "alpha"
      "alpha_user" "alpha_key_123" "alpha_token" refl refl issued (omega arith) (omega arith)

validate-new_token_expired_example :
    validate_token one_token manager 90_000_000_000_000 "alpha_token" ≡ err "token parsing failed"
validate-new_token_expired_example =
    validate-new_token_expired one_token one_token-laws manager manager 5_000_000_000
      90_000_000_000_000 "alpha" "alpha_user" "alpha_key_123" "alpha_token" issued (omega arith)

alpha_validates : validate_token one_token manager later "alpha_token" ≡ ok alpha_claims
unfolding validate_token
alpha_validates = refl

validate_token-Genuine_example : Genuine one_token manager "alpha_token" alpha_claims
validate_token-Genuine_example =
    validate_token-Genuine one_token manager one_token-laws later "alpha_token" alpha_claims
      alpha_validates

abbrev alpha_login : AuthRequest
alpha_login = record { api_key = "alpha_key_123"; secret = "alpha_secret_456" }

abbrev decode_login : Body → Option AuthRequest
decode_login body = some alpha_login

abbrev login_times : LoginTimes
login_times = record { issue_at = 5_000_000_000; expiry_from = 5_000_000_100 }

abbrev alpha_credentials : Dict String
alpha_credentials = ("api_key", "alpha_key_123") ∷ ("secret", "alpha_secret_456") ∷ []

abbrev no_transfer : Body → Option (TransferRequest Amount)
no_transfer body = none

abbrev transfer_times : TransferTimes
transfer_times = record { id_at = later; created_at = later }

abbrev told : AuthResponse
told = record { token = "alpha_token"; expires_at = 86_405_000_000_100; tenant_id = "alpha" }
