-- ===== src/Tests/Journeys.antt =====
-- Several services at concrete inputs.
use mathlib.Core.List.{Memᴰ}
use axiler_fin.Base.{
  ℕ, Option, some, [], ◌∷◌, ◌≡◌, ◌⊎◌, refl, arith, lookup, lookup_or, ok, insert, decimal,
}
use axiler_fin.Base.Int.{◌+ℤ◌}
use axiler_fin.Base.Float.{fixed_point}
use axiler_fin.Base.Decimal.{padded}
use axiler_fin.Models.{Account, SearchRequest, AuthRequest}
use axiler_fin.Models.Synthetic.{new_synthetic_database, new_account, account_id}
use axiler_fin.Http.{Body, login, search, get_header}
use axiler_fin.Auth.{new, new_token}
use axiler_fin.Login.{credentials, matches, handle_login, find_tenant}
use axiler_fin.Login.Server as LoginServer
use axiler_fin.Search.Server as SearchServer
use axiler_fin.Journey.Token.{Login, log_in as sent, issued_to, answered_token, Unanswered}
use axiler_fin.Journey.Search.{Lookup, look_up, shown, login_then_search}
use axiler_fin.Transfer.Effects.{Approved}
use axiler_fin.Tests.Fixtures.{one_token, one_token-laws, manager, Amount, post, with_token}
use axiler_fin.Tests.Outside.{plain_chi, plain_chi-laws, zeros, keys, replies}
use axiler_fin.Tests.Servers.{clock, later, now, transfer_server, sixty}

abbrev pub login_server : LoginServer.Server one_token
login_server = record { token_manager = manager }

login_started : LoginServer.start one_token keys ≡ ok login_server
unfolding LoginServer.start new
login_started = refl

abbrev pub search_server : SearchServer.Server one_token Amount
search_server = record {
  token_manager = manager;
  db = new_synthetic_database fixed_point zeros clock tt;
}

search_started : SearchServer.start fixed_point one_token keys zeros clock tt ≡ ok search_server
unfolding SearchServer.start new
search_started = refl

abbrev alpha_login : AuthRequest
alpha_login = record { api_key = "alpha_key_123"; secret = "alpha_secret_456" }

abbrev pub decode_login : Body → Option AuthRequest
decode_login body = some alpha_login

abbrev pub login_call : LoginServer.Call Amount
login_call = record {
  health_at = later;
  login_at = record { issue_at = 5_000_000_000; expiry_from = 5_000_000_100 };
  order = credentials;
  replies = replies;
  request = post "/auth/login" [] [];
}

abbrev pub for_first : Body → Option SearchRequest
for_first body = some (record { account_id = "acc_alpha_001" })

abbrev pub search_call : SearchServer.Call Amount
search_call = record {
  health_at = later;
  now = now;
  replies = replies;
  request = post "/api/v1/search" with_token [];
}

alpha_logs_in : Login plain_chi decode_login login_server login_call "alpha"
unfolding matches lookup_or lookup
alpha_logs_in = record {
  method = refl;
  path = refl;
  req = alpha_login;
  decoded = refl;
  creds = ("api_key", "alpha_key_123") ∷ ("secret", "alpha_secret_456") ∷ [];
  stored = Memᴰ.head refl;
  matching = refl;
  only = (λ h. refl, (λ h. absurd (cc h), (λ h. absurd (cc h), tt)));
  named = λ e. absurd (cc e);
}

abbrev first_account : Account Amount
first_account = new_account fixed_point zeros "alpha" 1 "Alice Savings" 0 0 (clock 99) 0 0 0

first_stored : lookup "acc_alpha_001" search_server.db.accounts ≡ some first_account
unfolding lookup new_synthetic_database insert lookup_or account_id padded decimal
first_stored = refl

alpha_looks_up :
    Lookup plain_chi for_first search_server search_call "alpha" "alpha_token" first_account
unfolding lookup get_header
alpha_looks_up = record {
  method = refl;
  path = refl;
  bearer = refl;
  req = record { account_id = "acc_alpha_001" };
  decoded = refl;
  stored = first_stored;
  own = refl;
}

login_then_search_example :
    let told =
      (sent fixed_point one_token plain_chi decode_login login_call login_server).response in
    let answer =
      look_up fixed_point one_token plain_chi decode_login for_first search_call search_server in
    ((told.status ≡ 200)
      × (told.payload ≡ login (issued_to "alpha" "alpha_token" login_call))
      × (answer.response.status ≡ 200)
      × (answer.response.payload ≡ search (shown first_account "alpha")))
    ⊎ Unanswered fixed_point one_token plain_chi decode_login login_server login_call "alpha"
        alpha_logs_in
unfolding LoginServer.serve handle_login find_tenant matches lookup_or lookup new_token
    answered_token
login_then_search_example =
    login_then_search fixed_point one_token plain_chi decode_login for_first plain_chi-laws
      one_token-laws keys zeros clock tt login_server search_server login_call search_call "alpha"
      first_account alpha_logs_in login_started search_started refl alpha_looks_up (omega arith)
      (omega arith)

abbrev nth_account : ℕ → ℕ → Account Amount
nth_account n rounds =
    new_account fixed_point zeros "alpha" n "Alice Savings" 0 0 (clock rounds) 0 0 0

second_stored : lookup "acc_alpha_002" transfer_server.db.accounts ≡ some (nth_account 2 98)
unfolding lookup new_synthetic_database insert lookup_or account_id padded decimal
second_stored = refl

sixty-Approved : Approved fixed_point transfer_server.db.accounts "alpha" sixty
unfolding fixed_point ◌+ℤ◌
sixty-Approved = record {
  from = nth_account 1 99;
  to = nth_account 2 98;
  from_stored = first_stored;
  to_stored = second_stored;
  from_own = refl;
  to_own = refl;
  positive = refl;
  covered = refl;
}
