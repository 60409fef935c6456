-- ===== src/RateLimit/Slots.antt =====
-- The limiter as a family of independent buckets, one for each tenant.
use axiler_fin.Base.{
  String, ◌≡◌, ◌≢◌, refl, Bool, true, false, Option, none, some, lookup, insert, lookup-insert_self,
  lookup-insert_ne, lookup_or, lookup_or-insert_self, lookup_or-insert_ne, Option-cases, Bool-cases,
  inl, inr, if◌then◌else◌, subst, ◌∙◌,
}
use axiler_fin.Base.Int.{ℤ}
use axiler_fin.Base.Float.{Float64, zero_f, one_f}
use axiler_fin.Models.{Time}
use axiler_fin.RateLimit.{TenantLimiter, allow, allow_known, refreshed, refilled}

module _ (fl : Float64) where
  open fl use {F, of_int, sub, le}

  -- What the limiter holds of one tenant: its limit, and its bucket once it has made a request. The
  -- tokens that `SetLimit` stores before that are never read.
  pub data Slot : Type 0 where
    unknown : Slot
    fresh : ℤ → Slot
    bucket : ℤ → F → Time → Slot

  abbrev pub slot_of : Option ℤ → Option Time → F → Slot
  slot_of none last tokens = unknown
  slot_of (some limit) none tokens = fresh limit
  slot_of (some limit) (some at) tokens = bucket limit tokens at

  unfoldable pub slot : String → TenantLimiter F → Slot
  slot tenant tl =
      slot_of (lookup tenant tl.limits) (lookup tenant tl.last)
        (lookup_or (zero_f fl) tenant tl.tokens)

  -- A bucket by itself: what it answers at `now`, and what becomes of it.
  unfoldable pub draw : ℤ → Time → F → Bool × Slot
  draw limit now tokens =
      if le (one_f fl) tokens
      then (true, bucket limit (sub tokens (one_f fl)) now)
      else (false, bucket limit tokens now)

  unfoldable pub slot_allow : Time → Slot → Bool × Slot
  unfolding draw
  slot_allow now unknown = (false, unknown)
  slot_allow now (fresh limit) = draw limit now (refilled fl limit now now (of_int limit))
  slot_allow now (bucket limit tokens at) = draw limit now (refilled fl limit now at tokens)

  module _ (tenant : String) (limit : ℤ) (now at : Time) (tl : TenantLimiter F)
      (known : lookup tenant tl.limits ≡ some limit) where
    -- What `Allow` does once the time of the last refresh is known.
    abbrev known_tokens : F
    known_tokens = refilled fl limit now at (lookup_or (zero_f fl) tenant tl.tokens)

    allow_known-slot :
        ((allow_known fl tenant limit now (at, tl)).0 ≡ (draw limit now known_tokens).0)
        × (slot tenant (allow_known fl tenant limit now (at, tl)).1
            ≡ (draw limit now known_tokens).1)
    unfolding slot draw
    allow_known-slot = elim (Bool-cases (le (one_f fl) known_tokens)) [
      | inl enough ↦ rw enough (refl, simp (known, lookup-insert_self, lookup_or-insert_self))
      | inr short ↦ rw short (refl, simp (known, lookup-insert_self, lookup_or-insert_self))
    ]

    allow_known-other :
        (other : String)
        → other ≢ tenant
        → slot other (allow_known fl tenant limit now (at, tl)).1 ≡ slot other tl
    unfolding slot
    allow_known-other other ne = elim (Bool-cases (le (one_f fl) known_tokens)) [
      | inl enough ↦ rw enough (simp (lookup-insert_ne, lookup_or-insert_ne, ne))
      | inr short ↦ rw short (simp (lookup-insert_ne, lookup_or-insert_ne, ne))
    ]

  -- The limiter after the first part of a tenant's first call.
  abbrev filled : String → ℤ → Time → TenantLimiter F → TenantLimiter F
  filled tenant limit now tl = record tl {
    last = insert tenant now tl.last;
    tokens = insert tenant (of_int limit) tl.tokens;
  }

  module _ (tenant : String) (now : Time) (tl : TenantLimiter F) where
    -- What `Allow` answers and leaves, as `allow_refines` states it.
    abbrev Refines : Bool × TenantLimiter F → Bool × Slot → Type 0
    Refines (answer, tl') (answer', s) =
        (answer ≡ answer')
        × (slot tenant tl' ≡ s)
        × ((other : String) → other ≢ tenant → slot other tl' ≡ slot other tl)

    known-Refines :
        (limit : ℤ) (at : Time) (tl' : TenantLimiter F)
        → lookup tenant tl'.limits ≡ some limit
        → ((other : String) → other ≢ tenant → slot other tl' ≡ slot other tl)
        → Refines
            (allow_known fl tenant limit now (at, tl'))
            (draw limit now (refilled fl limit now at (lookup_or (zero_f fl) tenant tl'.tokens)))
    known-Refines limit at tl' known rest =
        let (answers, leaves) = allow_known-slot tenant limit now at tl' known in
        (
          answers,
          leaves,
          λ other ne. allow_known-other tenant limit now at tl' known other ne ∙ rest other ne,
        )

    filled-other :
        (limit : ℤ) (other : String)
        → other ≢ tenant
        → slot other (filled tenant limit now tl) ≡ slot other tl
    unfolding slot
    filled-other limit other ne = simp (lookup-insert_ne, lookup_or-insert_ne, ne)

    -- `Allow` and the slot at each kind of entry.
    allow-unknown : lookup tenant tl.limits ≡ none → allow fl tenant now tl ≡ (false, tl)
    unfolding allow
    allow-unknown missing = rw (missing, allow) refl

    slot-unknown : lookup tenant tl.limits ≡ none → slot tenant tl ≡ unknown
    unfolding slot
    slot-unknown missing = rw (missing, slot) refl

    module _ (limit : ℤ) (known : lookup tenant tl.limits ≡ some limit) where
      allow-new :
          lookup tenant tl.last ≡ none
          → allow fl tenant now tl
            ≡ allow_known fl tenant limit now (now, filled tenant limit now tl)
      unfolding allow
      allow-new new = rw (known, new, allow, refreshed) refl

      slot-new : lookup tenant tl.last ≡ none → slot tenant tl ≡ fresh limit
      unfolding slot
      slot-new new = rw (known, new, slot) refl

      allow-seen :
          (at : Time)
          → lookup tenant tl.last ≡ some at
          → allow fl tenant now tl ≡ allow_known fl tenant limit now (at, tl)
      unfolding allow
      allow-seen at seen = rw (known, seen, allow, refreshed) refl

      slot-seen :
          (at : Time)
          → lookup tenant tl.last ≡ some at
          → slot tenant tl ≡ bucket limit (lookup_or (zero_f fl) tenant tl.tokens) at
      unfolding slot
      slot-seen at seen = rw (known, seen, slot) refl

      new-Refines :
          lookup tenant tl.last ≡ none
          → Refines (allow fl tenant now tl) (slot_allow now (slot tenant tl))
      unfolding slot_allow
      new-Refines new =
          rw (allow-new new, slot-new new)
            (subst
              (λ t.
                Refines (allow_known fl tenant limit now (now, filled tenant limit now tl))
                  (draw limit now (refilled fl limit now now t)))
              (lookup_or-insert_self (zero_f fl) tenant (of_int limit) tl.tokens)
              (known-Refines limit now (filled tenant limit now tl) known (filled-other limit)))

      seen-Refines :
          (at : Time)
          → lookup tenant tl.last ≡ some at
          → Refines (allow fl tenant now tl) (slot_allow now (slot tenant tl))
      unfolding slot_allow
      seen-Refines at seen =
          rw (allow-seen at seen, slot-seen at seen)
            (known-Refines limit at tl known (λ other ne. refl))

    unknown-Refines :
        lookup tenant tl.limits ≡ none
        → Refines (allow fl tenant now tl) (slot_allow now (slot tenant tl))
    unfolding slot_allow
    unknown-Refines missing =
        rw (allow-unknown missing, slot-unknown missing) (refl, refl, λ other ne. refl)

  -- `Allow` answers as the tenant's bucket by itself does, and leaves that bucket; every other
  -- tenant's bucket stays as it was.
  pub allow_refines :
      (tenant : String) (now : Time) (tl : TenantLimiter F)
      → ((allow fl tenant now tl).0 ≡ (slot_allow now (slot tenant tl)).0)
        × (slot tenant (allow fl tenant now tl).1 ≡ (slot_allow now (slot tenant tl)).1)
        × ((other : String)
            → other ≢ tenant
            → slot other (allow fl tenant now tl).1 ≡ slot other tl)
  allow_refines tenant now tl = elim (Option-cases (lookup tenant tl.limits)) [
    | inl missing ↦ unknown-Refines tenant now tl missing
    | inr (limit, known) ↦ elim (Option-cases (lookup tenant tl.last)) [
      | inl new ↦ new-Refines tenant now tl limit known new
      | inr (at, seen) ↦ seen-Refines tenant now tl limit known at seen
    ]
  ]
