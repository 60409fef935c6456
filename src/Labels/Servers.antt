-- ===== src/Labels/Servers.antt =====
-- The metrics of whole services, by whichever route a request comes.
use axiler_fin.Base.{
  ℕ, Bool, true, false, String, Option, List, [], refl, Option-cases, Bool-cases, inl, inr, ◌=ˢ◌,
}
use axiler_fin.Base.Float.{Float64}
use axiler_fin.Models.{Time, AuthRequest, SearchRequest, TransferRequest}
use axiler_fin.Metrics.{AllTyped, options}
use axiler_fin.Http.{Body, Request}
use axiler_fin.Auth.Interface.{Jwt}
use axiler_fin.Router.{Chi}
use axiler_fin.Login.Server as LoginServer
use axiler_fin.Search.Server as SearchServer
use axiler_fin.Transfer.Server as TransferServer
use axiler_fin.Edge.Server as EdgeServer
use axiler_fin.Search
use axiler_fin.Login
use axiler_fin.Transfer.{handle_transfer, serve_transfer}
use axiler_fin.Transfer.Health.{handle_health, handle_simulate_failure}
use axiler_fin.Labels.{
  handle_login-Typed, auth_middleware-Typed, handle_search-Typed, handle_transfer-Typed,
}
use axiler_fin.Edge.Server.Emitted.{serve-samples}
use axiler_fin.Labels.Edge.{edge-Typed}

module _ (fl : Float64) (jwt : Jwt) where
  open fl use {F}

  module _ (chi : Chi) where
    login-Typed :
        (decode : Body → Option AuthRequest) (c : LoginServer.Call F) (s : LoginServer.Server jwt)
        → AllTyped (LoginServer.serve fl jwt decode chi c s).samples
    unfolding LoginServer.serve Login.handle_health options
    login-Typed decode c s = elim (Option-cases (chi.find LoginServer.routes c.request)) [
      | inl nowhere ↦ rw nowhere tt
      | inr ((LoginServer.metrics, params), found) ↦ rw found tt
      | inr ((LoginServer.health, params), found) ↦ rw found (refl, tt)
      | inr ((LoginServer.login, params), found) ↦
          rw found (handle_login-Typed jwt s.token_manager F decode c.order c.login_at c.request)
    ]

    search-Typed :
        (decode : Body → Option SearchRequest) (c : SearchServer.Call F)
        (s : SearchServer.Server jwt F)
        → AllTyped (SearchServer.serve fl jwt decode chi c s).0.samples
    unfolding SearchServer.serve Search.serve_search Search.handle_health options
    search-Typed decode c s = elim (Option-cases (chi.find SearchServer.routes c.request)) [
      | inl nowhere ↦ rw nowhere tt
      | inr ((SearchServer.metrics, params), found) ↦ rw found tt
      | inr ((SearchServer.health, params), found) ↦ rw found (refl, tt)
      | inr ((SearchServer.search, params), found) ↦ rw found (
          auth_middleware-Typed jwt s.token_manager c.now (Search.handle_search fl decode)
            (handle_search-Typed fl decode) [] c.request s.db)
    ]

    switch-Typed :
        (r : Request) (failing : Bool) → AllTyped (handle_simulate_failure fl r failing).0.samples
    unfolding handle_simulate_failure
    switch-Typed r failing = elim (Bool-cases (r.method =ˢ "POST")) [
      | inl sent ↦ rw sent tt
      | inr other ↦ rw other tt
    ]

    health-Typed : (failing : Bool) (now : Time) → AllTyped (handle_health fl failing now).samples
    unfolding handle_health options
    health-Typed true now = (refl, (refl, tt))
    health-Typed false now = (refl, tt)

    transfer-Typed :
        (decode : Body → Option (TransferRequest F)) (c : TransferServer.Call F)
        (s : TransferServer.Server jwt F)
        → AllTyped (TransferServer.serve fl jwt decode chi c s).0.samples
    unfolding TransferServer.serve serve_transfer
    transfer-Typed decode c s = elim (Option-cases (chi.find TransferServer.routes c.request)) [
      | inl nowhere ↦ rw nowhere tt
      | inr ((TransferServer.metrics, params), found) ↦ rw found tt
      | inr ((TransferServer.health, params), found) ↦
          rw found (health-Typed s.failure_mode c.health_at)
      | inr ((TransferServer.transfer, params), found) ↦ rw found (
          auth_middleware-Typed jwt s.token_manager c.now (handle_transfer fl decode c.at)
            (handle_transfer-Typed fl decode c.at) [] c.request s.db.accounts)
      | inr ((TransferServer.simulate_failure, params), found) ↦
          rw found (switch-Typed c.request s.failure_mode)
    ]

    -- No request to any of the four services, by whichever route it comes and in whichever state the
    -- service is, makes a call of `WithLabelValues` with a number of values other than the number of the
    -- metric's labels, which would panic, or an update that the metric's kind of vector does not have;
    -- at the edge, if the reverse proxy makes none.
    pub servers-Typed :
        (login_decode : Body → Option AuthRequest) (search_decode : Body → Option SearchRequest)
        (transfer_decode : Body → Option (TransferRequest F)) (login_key : List ℕ → Option String)
        (parses : String → Bool) (cl : LoginServer.Call F) (l : LoginServer.Server jwt)
        (cs : SearchServer.Call F) (s : SearchServer.Server jwt F) (ct : TransferServer.Call F)
        (t : TransferServer.Server jwt F) (ce : EdgeServer.Call F) (e : EdgeServer.Server jwt F)
        → ((host : String) (r : Request) → AllTyped (ce.proxied host r).samples)
        → AllTyped (LoginServer.serve fl jwt login_decode chi cl l).samples
          × AllTyped (SearchServer.serve fl jwt search_decode chi cs s).0.samples
          × AllTyped (TransferServer.serve fl jwt transfer_decode chi ct t).0.samples
          × AllTyped (EdgeServer.serve fl jwt login_key parses chi ce e).0.samples
    servers-Typed login_decode search_decode transfer_decode login_key parses cl l cs s ct t ce e
          h =
        (
          login-Typed login_decode cl l,
          search-Typed search_decode cs s,
          transfer-Typed transfer_decode ct t,
          serve-samples fl jwt AllTyped AllTyped (edge-Typed F) login_key parses chi ce e h,
        )
