-- ===== src/Journey/Search.antt =====
-- A search at cmd/search-service with the token of a login.
use mathlib.Core.List.{Memᴰ}
use axiler_fin.Base.{
  ℕ, ◌+◌, ◌*◌, ◌≤◌, String, ◌≡◌, refl, sym, ap, ◌∙◌, Option, some, [], Dict, lookup, Result,
  Result-cases, ok, err, ◌+ˢ◌, eq_iff, inl, inr, ◌⊎◌, subst,
}
use axiler_fin.Base.Float.{Float64}
use axiler_fin.Models.{Time, Account, AuthRequest, SearchRequest, SearchResponse}
use axiler_fin.Models.Synthetic.{Rng}
use axiler_fin.Http.{Request, Body, get_header, login, search}
use axiler_fin.Context.{from_context, new_context_with_request}
use axiler_fin.Auth.{TokenManager, Keys, new, validate_token, hour}
use axiler_fin.Auth.Interface.{Jwt, TokenClaims, JwtLaws}
use axiler_fin.Service.{Outcome, bearer_token, request_context, with_ids}
use axiler_fin.Service.Gate.{auth_middleware-valid}
use axiler_fin.Router.{Chi, ChiLaws, post, is_static}
use axiler_fin.Search.{answer, handle_search, serve_search}
use axiler_fin.Search.Server.{
  Server, Call, routes, search as search_endpoint, start, serve, answer_found,
}
use axiler_fin.Login.Server as LoginServer
use axiler_fin.Journey.Token.{
  Login, log_in, issued_to, answered_token, login_manager, login_started, login_cases,
  issued_claims, Answered, Unanswered, bearer_token-Bearer,
}

search_found :
    {chi : Chi} (laws : ChiLaws chi) (r : Request)
    → r.method ≡ "POST"
    → chi.route_path r ≡ "/api/v1/search"
    → (params : Dict String) × (chi.find routes r ≡ some (search_endpoint, params))
unfolding is_static
search_found laws r method path =
    laws.find-static routes r (post "/api/v1/search") search_endpoint
      (Memᴰ.tail (Memᴰ.tail (Memᴰ.head refl)))
      (λ e. absurd (cc e), (λ e. absurd (cc e), (λ e. refl, tt)))
      ((eq_iff "POST" r.method).1 (sym method)) refl path

abbrev search_manager : {jwt : Jwt} {F : Type 0} → Result (Server jwt F) → Result (TokenManager jwt)
search_manager (ok s) = ok s.token_manager
search_manager (err message) = err message

search_started :
    (fl : Float64) (jwt : Jwt) (keys : Keys) (rng : Rng) (clock : ℕ → Time) (source : rng.Source)
    → search_manager (start fl jwt keys rng clock source) ≡ new jwt keys.private_pem keys.public_pem
unfolding start
search_started fl jwt keys rng clock source =
    elim (Result-cases (new jwt keys.private_pem keys.public_pem)) [
      | inl (message, failed) ↦ rw (failed, start) refl
      | inr (tm, made) ↦ rw (made, start) refl
    ]

-- What the search service shows of an account.
abbrev pub shown : {F : Type 0} → Account F → String → SearchResponse F
shown acc tenant = record {
  account_id = acc.id;
  account_name = acc.owner;
  balance = acc.balance;
  tenant_id = tenant;
  status = acc.status;
  last_updated = acc.created_at;
}

-- A search with this token for an account of this tenant.
pub record Lookup {F : Type 0} {jwt : Jwt} (chi : Chi) (decode : Body → Option SearchRequest)
    (b : Server jwt F) (c : Call F) (tenant token : String) (acc : Account F) : Type 0 where
  pub method : c.request.method ≡ "POST"
  pub path : chi.route_path c.request ≡ "/api/v1/search"
  pub bearer : get_header "Authorization" c.request ≡ "Bearer " +ˢ token
  pub req : SearchRequest
  pub decoded : decode c.request.body ≡ some req
  pub stored : lookup req.account_id b.db.accounts ≡ some acc
  pub own : acc.tenant_id ≡ tenant

module _ (fl : Float64) (jwt : Jwt) (chi : Chi) (login_decode : Body → Option AuthRequest)
    (search_decode : Body → Option SearchRequest) where
  open fl use {F}

  abbrev pub look_up : Call F → Server jwt F → Outcome F
  look_up c b = (serve fl jwt search_decode chi c b).0

  module _ (laws : ChiLaws chi) (a : LoginServer.Server jwt) (cl : LoginServer.Call F)
      (tenant : String) (l : Login chi login_decode a cl tenant) (token : String)
      (answered : Answered fl jwt chi login_decode a cl tenant l token) where
    module _ (b : Server jwt F) (cs : Call F) (acc : Account F)
        (v : Lookup chi search_decode b cs tenant token acc)
        (same : b.token_manager ≡ a.token_manager)
        (pair : jwt.Pair a.token_manager.signing_key a.token_manager.verifying_key)
        (after : cl.login_at.issue_at ≤ cs.now.validate_at)
        (before : cs.now.validate_at + 1_000_000_000
          ≤ cl.login_at.issue_at + a.token_manager.expiry_hours * hour) where
      abbrev claims : TokenClaims
      claims = issued_claims fl jwt chi login_decode a cl tenant l

      valid : validate_token jwt b.token_manager cs.now.validate_at token ≡ ok claims
      valid = answered.accepted b.token_manager cs.now.validate_at same pair after before

      search_routed :
          look_up cs b
          ≡ (serve_search fl search_decode jwt b.token_manager cs.now cs.request b.db).0
      unfolding serve
      search_routed =
          ap (λ o. (answer_found fl jwt search_decode o cs b).0)
            (search_found laws cs.request v.method v.path).1

      search_served :
          serve_search fl search_decode jwt b.token_manager cs.now cs.request b.db
          ≡ with_ids jwt b.token_manager
              (request_context jwt b.token_manager cs.now claims)
              (answer fl search_decode tenant (some acc), b.db)
      unfolding serve_search handle_search from_context new_context_with_request
      search_served =
          let bears : bearer_token (get_header "Authorization" cs.request) ≡ some token =
            ap bearer_token v.bearer ∙ bearer_token-Bearer token in
          let is_post = (eq_iff cs.request.method "POST").1 v.method in
          auth_middleware-valid jwt b.token_manager cs.now (handle_search fl search_decode) []
            cs.request b.db token _ bears valid
          ∙ rw (is_post, v.decoded, v.stored) refl

      search_answer :
          ((look_up cs b).response.status ≡ 200)
          × ((look_up cs b).response.payload ≡ search (shown acc tenant))
      search_answer =
          let is_own = (eq_iff acc.tenant_id tenant).1 v.own in
          rw (search_routed, search_served, is_own) (refl, ap (λ t. search (shown acc t)) v.own)

  -- From the keys of the two services on: if both start from one pair of key files, then a login with
  -- a tenant's own API key and secret is answered with a token, and a search that bears the token of
  -- this answer, in the hours of its validity, for an account of the tenant is answered with 200 and
  -- that account, whatever the accounts drawn, the router and the order of the credentials are; unless
  -- no token can be signed for the tenant, where the login is answered with 500 and an error.
  pub login_then_search :
      (laws : ChiLaws chi) (jwt_laws : JwtLaws jwt) (keys : Keys) (rng : Rng) (clock : ℕ → Time)
      (source : rng.Source) (a : LoginServer.Server jwt) (b : Server jwt F)
      (cl : LoginServer.Call F) (cs : Call F) (tenant : String) (acc : Account F)
      (l : Login chi login_decode a cl tenant)
      → LoginServer.start jwt keys ≡ ok a
      → start fl jwt keys rng clock source ≡ ok b
      → jwt.Pair a.token_manager.signing_key a.token_manager.verifying_key
      → Lookup chi search_decode b cs tenant
          (answered_token (log_in fl jwt chi login_decode cl a).response.payload)
          acc
      → cl.login_at.issue_at ≤ cs.now.validate_at
      → cs.now.validate_at + 1_000_000_000
        ≤ cl.login_at.issue_at + a.token_manager.expiry_hours * hour
      → (let answer = (log_in fl jwt chi login_decode cl a).response in
          (answer.status ≡ 200)
          × (answer.payload ≡ login (issued_to tenant (answered_token answer.payload) cl))
          × ((look_up cs b).response.status ≡ 200)
          × ((look_up cs b).response.payload ≡ search (shown acc tenant)))
        ⊎ Unanswered fl jwt chi login_decode a cl tenant l
  unfolding answered_token
  login_then_search laws jwt_laws keys rng clock source a b cl cs tenant acc l sa sb pair v after
        before =
      let managers =
        sym (ap search_manager sb)
        ∙ search_started fl jwt keys rng clock source
        ∙ sym (login_started jwt keys)
        ∙ ap login_manager sa in
      let same : b.token_manager ≡ a.token_manager = cc managers in
      elim (login_cases fl jwt chi login_decode a cl tenant l jwt_laws laws) [
        | inr unsigned ↦ inr unsigned
        | inl (token, answered) ↦
            let given = ap answered_token answered.payload in
            let v' = subst (λ t. Lookup chi search_decode b cs tenant t acc) given v in
            let told = ap (λ t. login (issued_to tenant t cl)) (sym given) in
            let (status, payload) =
              search_answer laws a cl tenant l token answered b cs acc v' same pair after before in
            inl (answered.status, answered.payload ∙ told, status, payload)
      ]
