-- ===== src/Transfer/Server/Guard.antt =====
-- What a request can change in the transfer service, by whichever route it comes.
use mathlib.Core.List.{Memᴰ}
use axiler_fin.Base.{
  String, ◌≡◌, ◌⊎◌, inl, inr, refl, sym, ap, subst, ◌∙◌, true, not, Option, Option-cases, some,
  arith, [], eq_iff,
}
use axiler_fin.Base.Float.{Float64}
use axiler_fin.Models.{TransferRequest}
use axiler_fin.Http.{Body}
use axiler_fin.Context.{Context, new_context_with_request, from_context}
use axiler_fin.Auth.Interface.{Jwt, TokenClaims}
use axiler_fin.Service.{request_context}
use axiler_fin.Service.Gate.{Bears, auth_gate}
use axiler_fin.Router.{Chi, ChiLaws, Route, post, takes, is_static}
use axiler_fin.Transfer.{execute, handle_transfer, serve_transfer}
use axiler_fin.Transfer.Effects.{Approved, handle_transfer_atomic}
use axiler_fin.Transfer.Health.{handle_simulate_failure}
use axiler_fin.Transfer.Server.{
  Endpoint, metrics, health, transfer, simulate_failure, routes, Call, Server, serve,
}

transfer_route : (route : Route) → Memᴰ (route, transfer) routes → route ≡ post "/api/v1/transfer"
transfer_route route (Memᴰ.head e) = absurd (ground arith)
transfer_route route (Memᴰ.tail (Memᴰ.head e)) = absurd (ground arith)
transfer_route route (Memᴰ.tail (Memᴰ.tail (Memᴰ.head e))) = ap (λ p. p.0) e
transfer_route route (Memᴰ.tail (Memᴰ.tail (Memᴰ.tail (Memᴰ.head e)))) = absurd (ground arith)
transfer_route route (Memᴰ.tail (Memᴰ.tail (Memᴰ.tail (Memᴰ.tail h)))) = elim h [ ]

switch_route :
    (route : Route) → Memᴰ (route, simulate_failure) routes → route ≡ post "/admin/simulate-failure"
switch_route route (Memᴰ.head e) = absurd (ground arith)
switch_route route (Memᴰ.tail (Memᴰ.head e)) = absurd (ground arith)
switch_route route (Memᴰ.tail (Memᴰ.tail (Memᴰ.head e))) = absurd (ground arith)
switch_route route (Memᴰ.tail (Memᴰ.tail (Memᴰ.tail (Memᴰ.head e)))) = ap (λ p. p.0) e
switch_route route (Memᴰ.tail (Memᴰ.tail (Memᴰ.tail (Memᴰ.tail h)))) = elim h [ ]

module _ (fl : Float64) (jwt : Jwt) (decode : Body → Option (TransferRequest fl.F)) (chi : Chi)
    (c : Call fl.F) (s : Server jwt fl.F) where
  open fl use {F}

  -- The request is a POST to this path.
  pub record PostTo (path : String) : Type 0 where
    pub method : c.request.method ≡ "POST"
    pub routed : chi.route_path c.request ≡ path

  -- A valid token's tenant made a transfer between two of its own accounts.
  pub record Transferred : Type 0 where
    pub sent : PostTo "/api/v1/transfer"
    pub claims : TokenClaims
    pub bears : Bears jwt s.token_manager c.now c.request claims
    pub req : TransferRequest F
    pub decoded : decode c.request.body ≡ some req
    pub approved : Approved fl s.db.accounts claims.tenant_id req
    pub result :
        (serve fl jwt decode chi c s).1
        ≡ record s { db = record (s.db) { accounts = execute fl req s.db.accounts } }

  -- The simulated failure was switched, which needs no token.
  pub record Switched : Type 0 where
    pub sent : PostTo "/admin/simulate-failure"
    pub result : (serve fl jwt decode chi c s).1 ≡ record s { failure_mode = not s.failure_mode }

  module _ (laws : ChiLaws chi) where
    sent_by :
        (path : String) (e : Endpoint) (params : _)
        → ((route : Route) → Memᴰ (route, e) routes → route ≡ post path)
        → is_static path ≡ true
        → chi.find routes c.request ≡ some (e, params)
        → PostTo path
    sent_by path e params only plain found =
        let (route, registered, taken, exact) = laws.find-fits routes c.request e params found in
        let same = only route registered in
        record {
          method = sym (
              (eq_iff "POST" c.request.method).0
                (subst (λ x. takes x.method c.request.method ≡ true) same taken));
          routed =
              exact (subst (λ x. is_static x.pattern ≡ true) (sym same) plain)
              ∙ ap (λ x. x.pattern) same;
        }

    abbrev Guarded : Type 0
    Guarded = ((serve fl jwt decode chi c s).1 ≡ s) ⊎ (Transferred ⊎ Switched)

    transfer-Guarded : (params : _) → chi.find routes c.request ≡ some (transfer, params) → Guarded
    unfolding serve serve_transfer is_static from_context new_context_with_request
    transfer-Guarded params found =
        let ctx : TokenClaims → Context = λ claims.
          new_context_with_request (request_context jwt s.token_manager c.now claims) [] in
        elim (auth_gate jwt s.token_manager c.now (handle_transfer fl decode c.at) [] c.request
          s.db.accounts) [
            | inr q ↦ inl (rw (found, q.kept) refl)
            | inl p ↦
                elim (handle_transfer_atomic fl decode c.at (ctx p.claims) c.request
                  s.db.accounts) [
                    | inr q ↦ inl (rw (found, p.result, q.kept) refl)
                    | inl d ↦ inr (
                        inl (record {
                          sent =
                              sent_by "/api/v1/transfer" transfer params transfer_route refl found;
                          claims = p.claims;
                          bears = p.bears;
                          req = d.req;
                          decoded = d.decoded;
                          approved = d.approved;
                          result = rw (found, p.result, d.result) refl;
                        }))
                  ]
          ]

    switch-Guarded :
        (params : _) → chi.find routes c.request ≡ some (simulate_failure, params) → Guarded
    unfolding serve is_static handle_simulate_failure
    switch-Guarded params found =
        let sent =
          sent_by "/admin/simulate-failure" simulate_failure params switch_route refl found in
        inr (
          inr (record {
            sent = sent;
            result = rw (found, (eq_iff c.request.method "POST").1 sent.method) refl;
          }))

    found-Guarded :
        (e : Endpoint) (params : _) → chi.find routes c.request ≡ some (e, params) → Guarded
    unfolding serve
    found-Guarded metrics params found = inl (rw found refl)
    found-Guarded health params found = inl (rw found refl)
    found-Guarded transfer params found = transfer-Guarded params found
    found-Guarded simulate_failure params found = switch-Guarded params found

    -- A request leaves the service as it was, or is a POST to one of two paths: a transfer that is
    -- approved for the tenant of its valid token, which changes the accounts as the transfer does and
    -- nothing else, or a switch of the simulated failure, which changes that flag alone.
    pub serve_guarded : ((serve fl jwt decode chi c s).1 ≡ s) ⊎ (Transferred ⊎ Switched)
    unfolding serve
    serve_guarded = elim (Option-cases (chi.find routes c.request)) [
      | inl nowhere ↦ inl (rw nowhere refl)
      | inr ((e, params), found) ↦ found-Guarded e params found
    ]
