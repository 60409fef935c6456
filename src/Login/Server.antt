-- ===== src/Login/Server.antt =====
-- cmd/auth-service/main.go: `init` and `main`. A fatal log entry ends the program: an error.
use axiler_fin.Base.{String, Option, none, some, List, [], ◌∷◌, Dict, Result, ok, ◌>>=◌}
use axiler_fin.Base.Float.{Float64}
use axiler_fin.Models.{Time, AuthRequest}
use axiler_fin.Http.{Body, Request}
use axiler_fin.Service.{Outcome}
use axiler_fin.Auth.{TokenManager, Keys, new}
use axiler_fin.Auth.Interface.{Jwt}
use axiler_fin.Router.{Chi, Route, get, post, handle, Replies, from_library}
use axiler_fin.Login.{LoginTimes, handle_login, handle_health}

pub data Endpoint : Type 0 where
  metrics health login : Endpoint

abbrev pub routes : List (Route × Endpoint)
routes = (handle "/metrics", metrics) ∷ (get "/health", health) ∷ (post "/auth/login", login) ∷ []

-- What comes from outside while a request is served: the clock, the order of the range over the
-- credentials, and the libraries' answers.
pub record Call (F : Type 0) : Type 0 where
  pub health_at : Time
  pub login_at : LoginTimes
  pub order : Dict (Dict String)
  pub replies : Replies F
  pub request : Request

-- The package variables.
pub record Server (jwt : Jwt) : Type 0 where
  pub token_manager : TokenManager jwt

-- `init`
unfoldable pub start : (jwt : Jwt) → Keys → Result (Server jwt)
start jwt keys = do
  tm ← new jwt keys.private_pem keys.public_pem
  ok (record { token_manager = tm })

module _ (fl : Float64) (jwt : Jwt) (decode : Body → Option AuthRequest) where
  open fl use {F}

  abbrev pub answer : Endpoint → Call F → Server jwt → Outcome F
  answer metrics c s = from_library c.replies.page
  answer health c s = handle_health fl c.health_at
  answer login c s = handle_login jwt decode s.token_manager c.order c.login_at c.request

  abbrev pub answer_found : Option (Endpoint × Dict String) → Call F → Server jwt → Outcome F
  answer_found none c s = from_library c.replies.unrouted
  answer_found (some (e, params)) c s = answer e c s

  -- The router that `main` serves.
  unfoldable pub serve : Chi → Call F → Server jwt → Outcome F
  serve chi c s = answer_found (chi.find routes c.request) c s
