-- ===== src/Search/Isolation.antt =====
-- Tenant isolation of the search service.
use axiler_fin.Base.{
  String, ◌≡◌, inl, inr, refl, Option, none, some, [], lookup, arith, Option-cases, ◌=ˢ◌, eq_iff,
  if◌then◌else◌,
}
use axiler_fin.Base.Float.{Float64}
use axiler_fin.Models.{Account, SearchRequest, SearchResponse, SyntheticDatabase}
use axiler_fin.Http.{Body, Request, search}
use axiler_fin.Context.{Context, from_context, new_context_with_request}
use axiler_fin.Service.{Readings, request_context}
use axiler_fin.Service.Gate.{Bears, auth_gate}
use axiler_fin.Auth.{TokenManager}
use axiler_fin.Auth.Interface.{Jwt, TokenClaims}
use axiler_fin.Search.{handle_search, serve_search, answer}

-- What a tenant may know of an entry of the map: its own account whole, and of another's that it is
-- there.
pub data View (F : Type 0) : Type 0 where
  absent foreign : View F
  own : Account F → View F

abbrev pub view : {F : Type 0} → String → Option (Account F) → View F
view tenant none = absent
view tenant (some account) = if account.tenant_id =ˢ tenant then own account else foreign

-- Two databases look the same to a tenant.
abbrev pub SameView : {F : Type 0} → String → SyntheticDatabase F → SyntheticDatabase F → Type 0
SameView tenant db db' =
    (id : String) → view tenant (lookup id db.accounts) ≡ view tenant (lookup id db'.accounts)

module _ (fl : Float64) (decode : Body → Option SearchRequest) where
  open fl use {F}

  answer-view :
      (tenant : String) (o o' : Option (Account F))
      → view tenant o ≡ view tenant o'
      → answer fl decode tenant o ≡ answer fl decode tenant o'
  answer-view tenant none none h = refl
  answer-view tenant none (some b) h = ground arith
  answer-view tenant (some a) none h = ground arith
  answer-view tenant (some a) (some b) h = ground arith

  -- Non-interference: what the handler answers to a tenant depends on the tenant's own accounts and
  -- on which identifiers are in use, and on nothing that another tenant's accounts hold.
  pub handle_search-SameView :
      (db db' : SyntheticDatabase F) (ctx : Context) (r : Request)
      → SameView (from_context ctx).tenant_id db db'
      → (handle_search fl decode ctx r db).0 ≡ (handle_search fl decode ctx r db').0
  unfolding handle_search
  handle_search-SameView db db' ctx r same = elim (Option-cases (decode r.body)) [
    | inl bad ↦ ground arith
    | inr (req, e) ↦ ground (
      arith,
      answer-view (from_context ctx).tenant_id (lookup req.account_id db.accounts)
          (lookup req.account_id db'.accounts) (same req.account_id),
    )
  ]

  -- The account that a successful answer shows.
  pub record Shows (db : SyntheticDatabase F) (tenant : String) (r : Request)
      (answered : SearchResponse F) : Type 0 where
    pub req : SearchRequest
    pub decoded : decode r.body ≡ some req
    pub account : Account F
    pub stored : lookup req.account_id db.accounts ≡ some account
    pub own : account.tenant_id ≡ tenant
    pub shown : answered ≡ record {
      account_id = account.id;
      account_name = account.owner;
      balance = account.balance;
      tenant_id = account.tenant_id;
      status = account.status;
      last_updated = account.created_at;
    }

  handle_search-Shows :
      (ctx : Context) (r : Request) (db : SyntheticDatabase F) (answered : SearchResponse F)
      → (handle_search fl decode ctx r db).0.response.payload ≡ search answered
      → Shows db (from_context ctx).tenant_id r answered
  unfolding handle_search
  handle_search-Shows ctx r db answered h = elim (Option-cases (decode r.body)) [
    | inl bad ↦ absurd (ground arith)
    | inr (req, e) ↦ elim (Option-cases (lookup req.account_id db.accounts)) [
      | inl missing ↦ absurd (ground arith)
      | inr (account, stored) ↦ record {
        req = req;
        decoded = e;
        account = account;
        stored = stored;
        own = ground (arith, eq_iff account.tenant_id (from_context ctx).tenant_id);
        shown = ground arith;
      }
    ]
  ]

  -- Only the tenant of a valid token sees an account, and only its own: an answer with account data
  -- shows the account stored under the identifier asked for, which belongs to the tenant of the
  -- bearer token.
  pub serve_search-isolated :
      (jwt : Jwt) (tm : TokenManager jwt) (now : Readings) (r : Request) (db : SyntheticDatabase F)
      (answered : SearchResponse F)
      → (serve_search fl decode jwt tm now r db).0.response.payload ≡ search answered
      → (claims : TokenClaims) × Bears jwt tm now r claims × Shows db claims.tenant_id r answered
  unfolding serve_search from_context new_context_with_request
  serve_search-isolated jwt tm now r db answered h =
      elim (auth_gate jwt tm now (handle_search fl decode) [] r db) [
        | inl p ↦ (
          p.claims,
          p.bears,
          handle_search-Shows (new_context_with_request (request_context jwt tm now p.claims) []) r
              db answered (rw p.result at h),
        )
        | inr q ↦ absurd (cc (q.told, h))
      ]
