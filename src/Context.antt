-- ===== src/Context.antt =====
-- pkg/context/context.go: the values that a request carries. A context is the list of its values,
-- the last one added first.
use axiler_fin.Base.{ℕ, ◌≡◌, refl, String, Option, none, some, [], ◌∷◌, Dict, lookup}

pub record RequestContext : Type 0 where
  pub tenant_id : String
  pub user_id : String
  pub request_id : String
  pub trace_id : String
  pub client_cert : String
  pub timestamp : ℕ
  pub release_ver : String

-- A value is of any type; the program stores these two.
pub data Value : Type 0 where
  request : RequestContext → Value
  text : String → Value

abbrev pub Context : Type 0
Context = Dict Value

abbrev pub request_context_key : String
request_context_key = "request_context"

abbrev pub tenant_key : String
tenant_key = "tenant_id"

abbrev pub trace_id_key : String
trace_id_key = "trace_id"

-- `context.WithValue`
abbrev with_value : String → Value → Context → Context
with_value key v ctx = (key, v) ∷ ctx

unfoldable pub new_context_with_request : RequestContext → Context → Context
new_context_with_request req_ctx ctx = with_value trace_id_key (text req_ctx.trace_id) (
    with_value tenant_key (text req_ctx.tenant_id)
      (with_value request_context_key (request req_ctx) ctx))

abbrev pub unknown_context : RequestContext
unknown_context = record {
  tenant_id = "unknown";
  user_id = "";
  request_id = "";
  trace_id = "unknown";
  client_cert = "";
  timestamp = 0;
  release_ver = "";
}

abbrev pub as_request : Option Value → RequestContext
as_request none = unknown_context
as_request (some (request rc)) = rc
as_request (some (text s)) = unknown_context

abbrev pub as_text : Option Value → String
as_text none = "unknown"
as_text (some (request rc)) = "unknown"
as_text (some (text s)) = s

unfoldable pub from_context : Context → RequestContext
unfolding lookup
from_context ctx = as_request (lookup request_context_key ctx)

unfoldable pub tenant_from_context : Context → String
unfolding lookup
tenant_from_context ctx = as_text (lookup tenant_key ctx)

unfoldable pub trace_id_from_context : Context → String
unfolding lookup
trace_id_from_context ctx = as_text (lookup trace_id_key ctx)

-- The fields that `ContextLogger` gives a log entry.
unfoldable pub context_logger : Context → Dict String
unfolding from_context
context_logger ctx =
    let rc = from_context ctx in
    ("tenant_id", rc.tenant_id)
    ∷ ("trace_id", rc.trace_id)
    ∷ ("request_id", rc.request_id)
    ∷ ("user_id", rc.user_id)
    ∷ ("release_ver", rc.release_ver)
    ∷ []

-- A context made for a request gives back the request's values, whatever the context below it
-- holds: the whole `RequestContext`, its tenant and its trace id.
pub context_round_trip :
    (rc : RequestContext) (ctx : Context)
    → let ctx' = new_context_with_request rc ctx in
      (from_context ctx' ≡ rc)
      × (tenant_from_context ctx' ≡ rc.tenant_id)
      × (trace_id_from_context ctx' ≡ rc.trace_id)
unfolding new_context_with_request from_context tenant_from_context trace_id_from_context
context_round_trip rc ctx = (refl, refl, refl)
