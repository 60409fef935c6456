-- ===== src/Models.antt =====
-- pkg/models/models.go, and the status map of `GetStatus` in pkg/ratelimit/ratelimit.go. A `float64`
-- is of the parameter type `F`; a `time.Time` is a number of nanoseconds.
pub mod Isolation
pub mod Synthetic
use axiler_fin.Base.{ℕ, String, Bool, Option, List, [], ◌∷◌, Dict, ◌=ˢ◌, if◌then◌else◌}
use axiler_fin.Base.Int.{ℤ}

abbrev pub Time : Type 0
Time = ℕ

pub record SearchRequest : Type 0 where
  pub account_id : String

pub record SearchResponse (F : Type 0) : Type 0 where
  pub account_id : String
  pub account_name : String
  pub balance : F
  pub tenant_id : String
  pub status : String
  pub last_updated : Time

pub record TransferRequest (F : Type 0) : Type 0 where
  pub from_account : String
  pub to_account : String
  pub amount : F
  pub description : String

pub record TransferResponse (F : Type 0) : Type 0 where
  pub transfer_id : String
  pub status : String
  pub from_account : String
  pub to_account : String
  pub amount : F
  pub created_at : Time
  pub message : String

pub record AuthRequest : Type 0 where
  pub api_key : String
  pub secret : String

pub record AuthResponse : Type 0 where
  pub token : String
  pub expires_at : Time
  pub tenant_id : String

pub record HealthResponse : Type 0 where
  pub status : String
  pub timestamp : Time
  pub service : String
  pub version : String
  pub dependencies : Dict String

pub record ErrorResponse : Type 0 where
  pub error : String
  pub message : String
  pub trace_id : String
  pub timestamp : Time

-- The map that `TenantLimiter.GetStatus` returns.
pub record LimitStatus (F : Type 0) : Type 0 where
  pub tenant : String
  pub limit_per_minute : ℤ
  pub current_tokens : String
  pub requests_allowed : Bool

pub record Account (F : Type 0) : Type 0 where
  pub id : String
  pub tenant_id : String
  pub owner : String
  pub balance : F
  pub currency : String
  pub status : String
  pub created_at : Time

pub record Transfer (F : Type 0) : Type 0 where
  pub id : String
  pub tenant_id : String
  pub from_account : String
  pub to_account : String
  pub amount : F
  pub status : String
  pub description : String
  pub created_at : Time
  pub updated_at : Time

pub record LedgerEntry (F : Type 0) : Type 0 where
  pub id : String
  pub transfer_id : String
  pub tenant_id : String
  pub from_account : String
  pub to_account : String
  pub amount : F
  pub timestamp : Time

-- A key stands for the pointer that the map holds under it: each account is reached by its own key
-- alone.
pub record SyntheticDatabase (F : Type 0) : Type 0 where
  pub accounts : Dict (Account F)
  pub transfers : Dict (Transfer F)
  pub ledger : List (LedgerEntry F)

module _ {F : Type 0} where
  accounts_from : String → Dict (Account F) → List (Account F)
  accounts_from tenant [] = []
  accounts_from tenant ((k, acc) ∷ rest) =
      if acc.tenant_id =ˢ tenant then acc ∷ accounts_from tenant rest else accounts_from tenant rest

  -- `GetAccountsByTenant`; the result is in the order of the range over the map.
  pub get_accounts_by_tenant : String → SyntheticDatabase F → List (Account F)
  unfolding accounts_from
  get_accounts_by_tenant tenant db = accounts_from tenant db.accounts
