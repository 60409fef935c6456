-- ===== src/Transfer/Server.antt =====
-- cmd/transfer-service/main.go: `init` and `main`. A fatal log entry ends the program: an error.
pub mod Lifetime
pub mod Guard
use axiler_fin.Base.{
  ℕ, String, Bool, false, Option, none, some, List, [], ◌∷◌, Dict, Result, ok, ◌>>=◌,
}
use axiler_fin.Base.Float.{Float64}
use axiler_fin.Models.{Time, TransferRequest, SyntheticDatabase}
use axiler_fin.Models.Synthetic.{Rng, new_synthetic_database}
use axiler_fin.Http.{Body, Request}
use axiler_fin.Service.{Outcome, Readings}
use axiler_fin.Auth.{TokenManager, Keys, new}
use axiler_fin.Auth.Interface.{Jwt}
use axiler_fin.Router.{Chi, Route, get, post, handle, Replies, from_library}
use axiler_fin.Transfer.{TransferTimes, serve_transfer}
use axiler_fin.Transfer.Health.{handle_health, handle_simulate_failure}

pub data Endpoint : Type 0 where
  metrics health transfer simulate_failure : Endpoint

abbrev pub routes : List (Route × Endpoint)
routes =
    (handle "/metrics", metrics)
    ∷ (get "/health", health)
    ∷ (post "/api/v1/transfer", transfer)
    ∷ (post "/admin/simulate-failure", simulate_failure)
    ∷ []

-- What comes from outside while a request is served.
pub record Call (F : Type 0) : Type 0 where
  pub health_at : Time
  pub now : Readings
  pub at : TransferTimes
  pub replies : Replies F
  pub request : Request

-- The package variables.
pub record Server (jwt : Jwt) (F : Type 0) : Type 0 where
  pub token_manager : TokenManager jwt
  pub db : SyntheticDatabase F
  pub failure_mode : Bool

module _ (fl : Float64) (jwt : Jwt) where
  open fl use {F}

  -- `init`
  unfoldable pub start : Keys → (rng : Rng) → (ℕ → Time) → rng.Source → Result (Server jwt F)
  start keys rng clock source = do
    tm ← new jwt keys.private_pem keys.public_pem
    ok (record {
      token_manager = tm;
      db = new_synthetic_database fl rng clock source;
      failure_mode = false;
    })

  module _ (decode : Body → Option (TransferRequest F)) where
    abbrev pub answer : Endpoint → Call F → Server jwt F → Outcome F × Server jwt F
    answer metrics c s = (from_library c.replies.page, s)
    answer health c s = (handle_health fl s.failure_mode c.health_at, s)
    answer transfer c s =
        let (out, accounts) =
          serve_transfer fl decode jwt s.token_manager c.now c.at c.request s.db.accounts in
        (out, record s { db = record (s.db) { accounts = accounts } })
    answer simulate_failure c s =
        let (out, failing) = handle_simulate_failure fl c.request s.failure_mode in
        (out, record s { failure_mode = failing })

    abbrev pub answer_found :
        Option (Endpoint × Dict String) → Call F → Server jwt F → Outcome F × Server jwt F
    answer_found none c s = (from_library c.replies.unrouted, s)
    answer_found (some (e, params)) c s = answer e c s

    -- The router that `main` serves.
    unfoldable pub serve : Chi → Call F → Server jwt F → Outcome F × Server jwt F
    serve chi c s = answer_found (chi.find routes c.request) c s
