-- ===== src/RateLimit.antt =====
-- pkg/ratelimit/ratelimit.go: a token bucket for each tenant. A method takes the limiter and returns
-- its result with the limiter afterwards; the mutex makes each a single step.
pub mod Slots
pub mod Bounds
pub mod Burst
pub mod Spans
pub mod Rate
pub mod Status
use axiler_fin.Base.{
  ℕ, zero, suc, String, Bool, true, false, Option, none, some, List, [], ◌∷◌, Dict, lookup, insert,
  lookup_or, if◌then◌else◌,
}
use axiler_fin.Base.Int.{ℤ, pos, sub_ℕ}
use axiler_fin.Base.Float.{Float64, zero_f, one_f, seconds}
use axiler_fin.Models.{Time, LimitStatus}

pub record TenantLimiter (F : Type 0) : Type 0 where
  pub limits : Dict ℤ
  pub tokens : Dict F
  pub last : Dict Time

module _ (fl : Float64) where
  open fl use {F, of_int, add, sub, mul, div, lt, le}

  unfoldable pub new : TenantLimiter F
  new = record {
    limits = ("alpha", pos 1000) ∷ ("beta", pos 500) ∷ ("gamma", pos 250) ∷ [];
    tokens = [];
    last = [];
  }

  unfoldable pub min : F → F → F
  min a b = if lt a b then a else b

  -- The time of the last refresh, and the limiter with a full bucket if there was none.
  abbrev pub refreshed : String → ℤ → Time → TenantLimiter F → Time × TenantLimiter F
  refreshed tenant limit now tl = elim (lookup tenant tl.last) [
    | none ↦ (
      now,
      record tl {
        last = insert tenant now tl.last;
        tokens = insert tenant (of_int limit) tl.tokens;
      },
    )
    | some at ↦ (at, tl)
  ]

  -- What `limit/60` tokens per second add up to since the last refresh.
  abbrev pub tokens_to_add : ℤ → Time → Time → F
  tokens_to_add limit now last_refresh =
      mul (seconds fl (sub_ℕ now last_refresh)) (div (of_int limit) (of_int (pos 60)))

  -- The tokens after the refill, at most the limit.
  abbrev pub refilled : ℤ → Time → Time → F → F
  refilled limit now last_refresh tokens =
      min (of_int limit) (add tokens (tokens_to_add limit now last_refresh))

  -- The test for a token, when the bucket holds `tokens`.
  abbrev pub take_token : String → F → TenantLimiter F → Bool × TenantLimiter F
  take_token tenant tokens tl =
      if le (one_f fl) tokens
      then (true, record tl { tokens = insert tenant (sub tokens (one_f fl)) tl.tokens })
      else (false, tl)

  abbrev pub allow_known : String → ℤ → Time → Time × TenantLimiter F → Bool × TenantLimiter F
  allow_known tenant limit now (last_refresh, tl) =
      let tokens = refilled limit now last_refresh (lookup_or (zero_f fl) tenant tl.tokens) in
      take_token tenant tokens
        (record tl { last = insert tenant now tl.last; tokens = insert tenant tokens tl.tokens })

  -- `Allow`, where `time.Now()` is `now`
  unfoldable pub allow : String → Time → TenantLimiter F → Bool × TenantLimiter F
  allow tenant now tl = elim (lookup tenant tl.limits) [
    | none ↦ (false, tl)
    | some limit ↦ allow_known tenant limit now (refreshed tenant limit now tl)
  ]

  -- `GetStatus`
  unfoldable pub get_status : String → TenantLimiter F → LimitStatus F
  get_status tenant tl =
      let tokens = lookup_or (zero_f fl) tenant tl.tokens in
      record {
        tenant = tenant;
        limit_per_minute = lookup_or (pos 0) tenant tl.limits;
        current_tokens = fl.show2 tokens;
        requests_allowed = le (one_f fl) tokens;
      }

  -- `SetLimit`
  unfoldable pub set_limit : String → ℤ → TenantLimiter F → TenantLimiter F
  set_limit tenant limit tl = record tl {
    limits = insert tenant limit tl.limits;
    tokens = elim (lookup tenant tl.tokens) [
      | none ↦ insert tenant (of_int limit) tl.tokens
      | some t ↦ tl.tokens
    ];
  }
