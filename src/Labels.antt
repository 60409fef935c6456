-- ===== src/Labels.antt =====
-- The metrics of the handlers: every call of `WithLabelValues` gives a value for each label name that
-- pkg/metrics/metrics.go declares, so that none panics.
pub mod Edge
pub mod Servers
use axiler_fin.Base.{
  Result-cases, String, Option, none, some, [], Dict, refl, Option-cases, Bool-cases, inl, inr,
  ◌=ˢ◌, ◌+ˢ◌, lookup, Result, ok, err,
}
use axiler_fin.Base.Float.{Float64}
use axiler_fin.Models.{Account, SearchRequest, TransferRequest, AuthRequest, SyntheticDatabase}
use axiler_fin.Metrics.{AllTyped, options}
use axiler_fin.Http.{Body, Request, get_header}
use axiler_fin.Context.{Context, from_context, new_context_with_request}
use axiler_fin.Auth.{TokenManager, new_token, validate_token}
use axiler_fin.Auth.Interface.{Jwt}
use axiler_fin.Service.{Handler, Readings, bearer_token, request_context, auth_middleware}
use axiler_fin.Login.{LoginTimes, find_tenant, issued, log_in, handle_login}
use axiler_fin.Search.{answer, handle_search, serve_search}
use axiler_fin.Transfer.{
  Verdict, proceed, refuse, TransferTimes, conclude, decide, handle_transfer, serve_transfer,
}

-- A handler all of whose samples are labelled.
abbrev pub Typed : {F S : Type 0} → Handler F S → Type 0
Typed next = (ctx : Context) (r : Request) (s : _) → AllTyped (next ctx r s).0.samples

module _ (fl : Float64) where
  open fl use {F}

  answer-Typed :
      (decode : Body → Option SearchRequest) (tenant : String) (found : Option (Account F))
      → AllTyped (answer fl decode tenant found).samples
  unfolding options
  answer-Typed decode tenant none = (refl, tt)
  answer-Typed decode tenant (some account) = elim (Bool-cases (account.tenant_id =ˢ tenant)) [
    | inl own ↦ rw own (refl, (refl, tt))
    | inr other ↦ rw other (refl, tt)
  ]

  pub handle_search-Typed : (decode : Body → Option SearchRequest) → Typed (handle_search fl decode)
  unfolding handle_search
  handle_search-Typed decode ctx r db = elim (Bool-cases (r.method =ˢ "POST")) [
    | inl post ↦ elim (Option-cases (decode r.body)) [
      | inl bad ↦ rw (post, bad, handle_search) tt
      | inr (req, read) ↦
          rw (post, read, handle_search)
            (answer-Typed decode (from_context ctx).tenant_id (lookup req.account_id db.accounts))
    ]
    | inr other ↦ rw (other, handle_search) tt
  ]

  conclude-Typed :
      (tenant : String) (at : TransferTimes) (req : TransferRequest F) (accounts : Dict (Account F))
      (v : Verdict)
      → AllTyped (conclude fl tenant at req accounts v).0.samples
  unfolding options
  conclude-Typed tenant at req accounts proceed = (refl, (refl, tt))
  conclude-Typed tenant at req accounts (refuse code message counted) = (refl, tt)

  pub handle_transfer-Typed :
      (decode : Body → Option (TransferRequest F)) (at : TransferTimes)
      → Typed (handle_transfer fl decode at)
  unfolding handle_transfer
  handle_transfer-Typed decode at ctx r accounts = elim (Bool-cases (r.method =ˢ "POST")) [
    | inl post ↦ elim (Option-cases (decode r.body)) [
      | inl bad ↦ rw (post, bad, handle_transfer) tt
      | inr (req, read) ↦
          rw (post, read, handle_transfer)
            (conclude-Typed (from_context ctx).tenant_id at req accounts
              (decide fl accounts (from_context ctx).tenant_id req))
    ]
    | inr other ↦ rw (other, handle_transfer) tt
  ]

module _ (jwt : Jwt) (tm : TokenManager jwt) where
  -- The middleware adds samples of its own only where it refuses.
  pub auth_middleware-Typed :
      {F S : Type 0} (now : Readings) (next : Handler F S)
      → Typed next
      → Typed (auth_middleware jwt tm now next)
  unfolding auth_middleware options
  auth_middleware-Typed now next h ctx r s =
      elim (Bool-cases (get_header "Authorization" r =ˢ "")) [
        | inl blank ↦ rw (blank, auth_middleware) (refl, tt)
        | inr there ↦ elim (Option-cases (bearer_token (get_header "Authorization" r))) [
          | inl missing ↦ rw (there, missing, auth_middleware) (refl, tt)
          | inr (token, bears) ↦ elim (Result-cases (validate_token jwt tm now.validate_at token)) [
            | inl (message, bad) ↦ rw (there, bears, bad, auth_middleware) (refl, tt)
            | inr (claims, good) ↦
                rw (there, bears, good, auth_middleware)
                  (h (new_context_with_request (request_context jwt tm now claims) ctx) r s)
          ]
        ]
      ]

  issued-Typed :
      (F : Type 0) (decode : Body → Option AuthRequest) (tenant : String) (now : LoginTimes)
      (token : Result String)
      → AllTyped (issued jwt {F = F} decode tenant now token).samples
  unfolding options
  issued-Typed F decode tenant now (ok token) = tt
  issued-Typed F decode tenant now (err e) = (refl, tt)

  log_in-Typed :
      (F : Type 0) (decode : Body → Option AuthRequest) (order : Dict (Dict String))
      (now : LoginTimes) (req : AuthRequest)
      → AllTyped (log_in jwt {F = F} decode tm order now req).samples
  unfolding options
  log_in-Typed F decode order now req = elim (Bool-cases (find_tenant order req =ˢ "")) [
    | inl nobody ↦ rw nobody (refl, tt)
    | inr tenant ↦ rw tenant (
        issued-Typed F decode (find_tenant order req) now (
          new_token jwt tm now.issue_at (find_tenant order req) (find_tenant order req +ˢ "_user")
            req.api_key))
  ]

  pub handle_login-Typed :
      (F : Type 0) (decode : Body → Option AuthRequest) (order : Dict (Dict String))
      (now : LoginTimes) (r : Request)
      → AllTyped (handle_login jwt {F = F} decode tm order now r).samples
  unfolding handle_login options
  handle_login-Typed F decode order now r = elim (Bool-cases (r.method =ˢ "POST")) [
    | inl post ↦ elim (Option-cases (decode r.body)) [
      | inl bad ↦ rw (post, bad, handle_login) (refl, tt)
      | inr (req, read) ↦ rw (post, read, handle_login) (log_in-Typed F decode order now req)
    ]
    | inr other ↦ rw (other, handle_login) tt
  ]

  -- No request to the search, the transfer or the login endpoint makes a call of `WithLabelValues` with
  -- a number of values other than the number of the metric's labels: each would panic.
  pub services-Typed :
      (fl : Float64) (decode_search : Body → Option SearchRequest)
      (decode_transfer : Body → Option (TransferRequest fl.F))
      (decode_login : Body → Option AuthRequest) (now : Readings) (at : TransferTimes)
      (login_at : LoginTimes) (order : Dict (Dict String)) (r : Request)
      (db : SyntheticDatabase fl.F)
      → AllTyped (serve_search fl decode_search jwt tm now r db).0.samples
        × AllTyped (serve_transfer fl decode_transfer jwt tm now at r db.accounts).0.samples
        × AllTyped (handle_login jwt {F = fl.F} decode_login tm order login_at r).samples
  unfolding serve_search serve_transfer
  services-Typed fl decode_search decode_transfer decode_login now at login_at order r db = (
    auth_middleware-Typed now (handle_search fl decode_search)
        (handle_search-Typed fl decode_search) [] r db,
    auth_middleware-Typed now (handle_transfer fl decode_transfer at)
        (handle_transfer-Typed fl decode_transfer at) [] r db.accounts,
    handle_login-Typed fl.F decode_login order login_at r,
  )
