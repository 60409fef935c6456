-- ===== src/Search/Server.antt =====
-- cmd/search-service/main.go: `init` and `main`. A fatal log entry ends the program: an error.
use axiler_fin.Base.{ℕ, Option, none, some, List, [], ◌∷◌, Dict, String, Result, ok, ◌>>=◌}
use axiler_fin.Base.Float.{Float64}
use axiler_fin.Models.{Time, SearchRequest, SyntheticDatabase}
use axiler_fin.Models.Synthetic.{Rng, new_synthetic_database}
use axiler_fin.Http.{Body, Request}
use axiler_fin.Service.{Outcome, Readings}
use axiler_fin.Auth.{TokenManager, Keys, new}
use axiler_fin.Auth.Interface.{Jwt}
use axiler_fin.Router.{Chi, Route, get, post, handle, Replies, from_library}
use axiler_fin.Search.{serve_search, handle_health}

pub data Endpoint : Type 0 where
  metrics health search : Endpoint

abbrev pub routes : List (Route × Endpoint)
routes =
    (handle "/metrics", metrics) ∷ (get "/health", health) ∷ (post "/api/v1/search", search) ∷ []

-- What comes from outside while a request is served.
pub record Call (F : Type 0) : Type 0 where
  pub health_at : Time
  pub now : Readings
  pub replies : Replies F
  pub request : Request

-- The package variables.
pub record Server (jwt : Jwt) (F : Type 0) : Type 0 where
  pub token_manager : TokenManager jwt
  pub db : SyntheticDatabase F

module _ (fl : Float64) (jwt : Jwt) where
  open fl use {F}

  -- `init`
  unfoldable pub start : Keys → (rng : Rng) → (ℕ → Time) → rng.Source → Result (Server jwt F)
  start keys rng clock source = do
    tm ← new jwt keys.private_pem keys.public_pem
    ok (record { token_manager = tm; db = new_synthetic_database fl rng clock source })

  module _ (decode : Body → Option SearchRequest) where
    abbrev pub answer : Endpoint → Call F → Server jwt F → Outcome F × Server jwt F
    answer metrics c s = (from_library c.replies.page, s)
    answer health c s = (handle_health fl c.health_at, s)
    answer search c s =
        let (out, db) = serve_search fl decode jwt s.token_manager c.now c.request s.db in
        (out, record s { db = db })

    abbrev pub answer_found :
        Option (Endpoint × Dict String) → Call F → Server jwt F → Outcome F × Server jwt F
    answer_found none c s = (from_library c.replies.unrouted, s)
    answer_found (some (e, params)) c s = answer e c s

    -- The router that `main` serves.
    unfoldable pub serve : Chi → Call F → Server jwt F → Outcome F × Server jwt F
    serve chi c s = answer_found (chi.find routes c.request) c s
