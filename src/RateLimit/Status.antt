-- ===== src/RateLimit/Status.antt =====
-- `GetStatus` reads the stored tokens and does not fill or refill them.
use axiler_fin.Base.{
  ℕ, suc, ◌≤◌, String, ◌≡◌, ap, ◌∙◌, refl, true, false, none, some, lookup, lookup_or, arith,
}
use axiler_fin.Base.Int.{pos}
use axiler_fin.Base.Float.{Float64, Ieee, exact_bound}
use axiler_fin.Models.{Time}
use axiler_fin.RateLimit.{TenantLimiter, allow, get_status}
use axiler_fin.RateLimit.Slots.{slot, fresh, slot_allow, draw, allow_refines}
use axiler_fin.RateLimit.Burst.{refilled-now, draw-int}

module _ (fl : Float64) where
  open fl use {F}

  -- In IEEE arithmetic, for a tenant with a limit from 1 to 2 ^ 53 that has made no request yet and
  -- has no tokens stored, `GetStatus` reports that requests are not allowed, and `Allow` allows the
  -- next one.
  pub status_denies_fresh :
      (laws : Ieee fl) (tenant : String) (limit : ℕ) (now : Time) (tl : TenantLimiter F)
      → lookup tenant tl.limits ≡ some (pos (suc limit))
      → lookup tenant tl.last ≡ none
      → lookup tenant tl.tokens ≡ none
      → suc limit ≤ exact_bound
      → ((get_status fl tenant tl).requests_allowed ≡ false) × ((allow fl tenant now tl).0 ≡ true)
  unfolding get_status lookup_or slot slot_allow
  status_denies_fresh laws tenant limit now tl known first empty k =
      let is_fresh : slot fl tenant tl ≡ fresh (pos (suc limit)) = rw (known, first) refl in
      (
        rw (empty, lookup_or) (laws.le-int 1 0 (omega arith) (omega arith)),
        (allow_refines fl tenant now tl).0
            ∙ ap (λ s. (slot_allow fl now s).0) is_fresh
            ∙ ap (λ t. (draw fl (pos (suc limit)) now t).0)
                (refilled-now fl laws (suc limit) (suc limit) now (omega arith) k)
            ∙ ap (λ r. r.0) (draw-int fl laws (suc limit) limit now k),
      )
