-- ===== src/Http.antt =====
-- What the services use of Go's `net/http`: the request as the handlers read it, and the response
-- that they write. A JSON payload is the value that is encoded.
use axiler_fin.Base.{ℕ, String, Bool, none, some, List, [], ◌∷◌, Dict, lookup}
use axiler_fin.Base.Int.{ℤ}
use axiler_fin.Models.{
  Time, SearchResponse, TransferResponse, AuthResponse, HealthResponse, LimitStatus,
}

-- `r.Body`: nil, or a reader that yields its bytes and then EOF (`broken` is false) or an error.
pub data Body : Type 0 where
  no_body : Body
  reader : List ℕ → Bool → Body

pub record Request : Type 0 where
  pub method : String
  pub request_uri : String
  pub path : String
  pub raw_query : String
  -- Under canonical names, in the order in which a range visits them.
  pub header : Dict (List String)
  pub remote_addr : String
  pub content_length : ℤ
  pub body : Body

abbrev pub first_or_empty : List String → String
first_or_empty [] = ""
first_or_empty (v ∷ vs) = v

-- `r.Header.Get(name)` at a canonical name
unfoldable pub get_header : String → Request → String
unfolding lookup
get_header name r = elim (lookup name r.header) [ none ↦ "" | some vs ↦ first_or_empty vs ]

pub data Payload (F : Type 0) : Type 0 where
  no_payload : Payload F
  -- `{"error": message}`
  error : String → Payload F
  rate_limited : String → String → LimitStatus F → Payload F
  search : SearchResponse F → Payload F
  transfer : TransferResponse F → Payload F
  login : AuthResponse → Payload F
  health : HealthResponse → Payload F
  limit_status : LimitStatus F → Payload F
  failure_mode : Bool → String → Payload F
  -- `handleEdgeHealth`: the status, the time, the service and the controls
  edge_health : String → Time → String → List String → Payload F

pub record Response (F : Type 0) : Type 0 where
  pub status : ℕ
  pub header : Dict String
  pub payload : Payload F
