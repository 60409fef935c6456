-- ===== src/Search.antt =====
-- cmd/search-service/main.go: the search handler. JSON decoding is a parameter, `none` on an error.
pub mod Isolation
pub mod Server
use axiler_fin.Base.{
  ℕ, String, Bool, Option, none, some, List, [], ◌∷◌, lookup, ◌=ˢ◌, not, if◌then◌else◌, Dict,
}
use axiler_fin.Base.Int.{pos}
use axiler_fin.Base.Float.{Float64, one_f}
use axiler_fin.Models.{Time, HealthResponse, Account, SearchRequest, SyntheticDatabase}
use axiler_fin.Metrics.{
  Sample, inc, observe, set, search_requests_total, request_latency, service_health,
}
use axiler_fin.Http.{Body, Request, Response, Payload, no_payload, error, search, health}
use axiler_fin.Context.{Context, from_context}
use axiler_fin.Service.{Outcome, reply, Handler, Readings, auth_middleware}
use axiler_fin.Auth.{TokenManager}
use axiler_fin.Auth.Interface.{Jwt}

module _ (fl : Float64) (decode : Body → Option SearchRequest) where
  open fl use {F, of_int, div}

  -- The response to an account that the tenant may see.
  abbrev found : String → Account F → Outcome F
  found tenant account = record {
    response = record {
      status = 200;
      header = ("Content-Type", "application/json") ∷ [];
      payload = search (record {
        account_id = account.id;
        account_name = account.owner;
        balance = account.balance;
        tenant_id = account.tenant_id;
        status = account.status;
        last_updated = account.created_at;
      });
    };
    samples =
        inc search_requests_total (tenant ∷ "success" ∷ [])
        ∷ observe request_latency ("search" ∷ "/search" ∷ tenant ∷ [])
            (div (of_int (pos 2)) (of_int (pos 100)))
        ∷ [];
  }

  -- The handler from the lookup of the account on.
  abbrev pub answer : String → Option (Account F) → Outcome F
  answer tenant none =
      reply 404 (error "account not found")
        (inc search_requests_total (tenant ∷ "not_found" ∷ []) ∷ [])
  answer tenant (some account) =
      if account.tenant_id =ˢ tenant
      then found tenant account
      else reply 403 (error "access denied")
          (inc search_requests_total (tenant ∷ "unauthorized" ∷ []) ∷ [])

  -- `handleSearch`; the database is only read.
  unfoldable pub handle_search : Handler F (SyntheticDatabase F)
  handle_search ctx r db =
      if r.method =ˢ "POST"
      then elim (decode r.body) [
        | none ↦ (reply 400 (error "invalid request") [], db)
        | some req ↦ (answer (from_context ctx).tenant_id (lookup req.account_id db.accounts), db)
      ]
      else (reply 405 no_payload [], db)

  -- The handler of `POST /api/v1/search`: `authMiddleware(handleSearch)`.
  unfoldable pub serve_search :
      (jwt : Jwt)
      → TokenManager jwt
      → Readings
      → Request
      → SyntheticDatabase F
      → Outcome F × SyntheticDatabase F
  serve_search jwt tm now r db = auth_middleware jwt tm now handle_search [] r db

-- `handleHealth`
unfoldable pub handle_health : (fl : Float64) → Time → Outcome fl.F
handle_health fl now = record {
  response = record {
    status = 200;
    header = ("Content-Type", "application/json") ∷ [];
    payload = health (record {
      status = "healthy";
      timestamp = now;
      service = "search";
      version = "1.0.0";
      dependencies = ("database", "ok") ∷ [];
    });
  };
  samples = set service_health ("search" ∷ []) (one_f fl) ∷ [];
}
