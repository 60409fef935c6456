-- ===== src/RateLimit/Bounds.antt =====
-- What holds of the limiter at every time: its tokens and its clock readings.
use axiler_fin.Base.{
  ℕ, ◌-◌, ◌≤◌, String, ◌≡◌, sym, false, arith, some, Dict, lookup, insert, lookup_or, lookup-insert,
  lookup_or-insert_self, lookup_or-insert_ne, ◌=ˢ◌, Bool-cases, Option-cases, inl, inr, eq_iff,
  subst,
}
use axiler_fin.Base.Int.{ℤ, pos, sub_ℕ}
use axiler_fin.Base.Float.{Float64, Ieee, zero_f, one_f, seconds}
use axiler_fin.Models.{Time}
use axiler_fin.RateLimit.{
  TenantLimiter, new, allow, allow_known, set_limit, refreshed, refilled, tokens_to_add, min,
}

module _ (fl : Float64) where
  open fl use {F, of_int, add, sub, mul, div, lt, le}

  abbrev pub Nonneg : F → Type 0
  Nonneg x = lt x (zero_f fl) ≡ false

  -- No bucket holds less than nothing, none was refreshed after `now`, and no limit is negative.
  pub record Sound (now : Time) (tl : TenantLimiter F) : Type 0 where
    pub tokens : (tenant : String) → Nonneg (lookup_or (zero_f fl) tenant tl.tokens)
    pub last : (tenant : String) (at : Time) → lookup tenant tl.last ≡ some at → at ≤ now
    pub limits :
        (tenant : String) (limit : ℤ)
        → lookup tenant tl.limits ≡ some limit
        → (n : ℕ) × (limit ≡ pos n)

  module _ (laws : Ieee fl) where
    seconds-Nonneg : (d : ℕ) → Nonneg (seconds fl (pos d))
    seconds-Nonneg d =
        laws.add-nonneg _ _ (laws.of_int-nonneg _)
          (laws.div-nonneg _ 999_999_999 (laws.of_int-nonneg _))

    added-Nonneg :
        (limit : ℕ) (now at : Time) → at ≤ now → Nonneg (tokens_to_add fl (pos limit) now at)
    added-Nonneg limit now at h =
        let e : sub_ℕ now at ≡ pos (now - at) = ground arith in
        subst (λ d. Nonneg (mul (seconds fl d) (div (of_int (pos limit)) (of_int (pos 60)))))
          (sym e)
          (laws.mul-nonneg _ _ (seconds-Nonneg (now - at))
            (laws.div-nonneg _ 59 (laws.of_int-nonneg limit)))

    min-Nonneg : (a b : F) → Nonneg a → Nonneg b → Nonneg (min fl a b)
    unfolding min
    min-Nonneg a b p q = ground arith

    -- The refilled bucket holds at most the limit, and not less than nothing.
    pub refilled-at_most :
        (limit : ℤ) (now at : Time) (tokens : F)
        → lt (of_int limit) (refilled fl limit now at tokens) ≡ false
    unfolding min
    refilled-at_most limit now at tokens =
        ground (arith, laws.lt_asymm (of_int limit) (of_int limit))

    refilled-Nonneg :
        (limit : ℕ) (now at : Time) (tokens : F)
        → at ≤ now
        → Nonneg tokens
        → Nonneg (refilled fl (pos limit) now at tokens)
    refilled-Nonneg limit now at tokens h p =
        min-Nonneg _ _ (laws.of_int-nonneg limit)
          (laws.add-nonneg _ _ p (added-Nonneg limit now at h))

    insert-Nonneg :
        (tenant : String) (x : F) (m : Dict F)
        → Nonneg x
        → ((t : String) → Nonneg (lookup_or (zero_f fl) t m))
        → (t : String) → Nonneg (lookup_or (zero_f fl) t (insert tenant x m))
    insert-Nonneg tenant x m p h t = elim (Bool-cases (tenant =ˢ t)) [
      | inl same ↦
          subst (λ u. Nonneg (lookup_or (zero_f fl) u (insert tenant x m)))
            ((eq_iff tenant t).0 same)
            (subst Nonneg (sym (lookup_or-insert_self (zero_f fl) tenant x m)) p)
      | inr other ↦
          subst Nonneg
            (sym (
              lookup_or-insert_ne (zero_f fl) tenant t x m
                (λ e. cc (other, (eq_iff tenant t).1 (sym e)))))
            (h t)
    ]

    insert-last :
        (tenant : String) (now : Time) (m : Dict Time)
        → ((t : String) (at : Time) → lookup t m ≡ some at → at ≤ now)
        → (t : String) (at : Time) → lookup t (insert tenant now m) ≡ some at
        → at ≤ now
    insert-last tenant now m h t at e = ground (arith, lookup-insert tenant t now m, h t at)

    -- The two writes of `Allow` keep the bucket sound.
    allow_known-Sound :
        (tenant : String) (limit : ℕ) (now at : Time) (tl : TenantLimiter F)
        → at ≤ now
        → Sound now tl
        → Sound now (allow_known fl tenant (pos limit) now (at, tl)).1
    allow_known-Sound tenant limit now at tl h v =
        let tokens = refilled fl (pos limit) now at (lookup_or (zero_f fl) tenant tl.tokens) in
        let here : Nonneg tokens = refilled-Nonneg limit now at _ h (v.tokens tenant) in
        let once = insert-Nonneg tenant tokens tl.tokens here v.tokens in
        elim (Bool-cases (le (one_f fl) tokens)) [
          | inl enough ↦ rw enough (record {
            tokens =
                insert-Nonneg tenant (sub tokens (one_f fl)) (insert tenant tokens tl.tokens)
                  (laws.sub_one-nonneg tokens enough) once;
            last = insert-last tenant now tl.last v.last;
            limits = v.limits;
          })
          | inr short ↦ rw short (record {
            tokens = once;
            last = insert-last tenant now tl.last v.last;
            limits = v.limits;
          })
        ]

    refreshed-Sound :
        (tenant : String) (limit : ℕ) (now : Time) (tl : TenantLimiter F)
        → Sound now tl
        → Sound now
            (allow_known fl tenant (pos limit) now (refreshed fl tenant (pos limit) now tl)).1
    refreshed-Sound tenant limit now tl v = elim (Option-cases (lookup tenant tl.last)) [
      | inr (at, seen) ↦
          rw (seen, refreshed) (allow_known-Sound tenant limit now at tl (v.last tenant at seen) v)
      | inl first ↦
          rw (first, refreshed)
            (allow_known-Sound tenant limit now now
              (record tl {
                last = insert tenant now tl.last;
                tokens = insert tenant (of_int (pos limit)) tl.tokens;
              })
              (omega arith)
              (record {
                tokens =
                    insert-Nonneg tenant (of_int (pos limit)) tl.tokens (laws.of_int-nonneg limit)
                      v.tokens;
                last = insert-last tenant now tl.last v.last;
                limits = v.limits;
              }))
    ]

    allow_known-cap :
        (tenant : String) (limit : ℤ) (now : Time) (p : Time × TenantLimiter F)
        → lt
            (of_int limit)
            (lookup_or (zero_f fl) tenant (allow_known fl tenant limit now p).1.tokens)
          ≡ false
    allow_known-cap tenant limit now (at, tl) =
        let tokens = refilled fl limit now at (lookup_or (zero_f fl) tenant tl.tokens) in
        let cap = refilled-at_most limit now at (lookup_or (zero_f fl) tenant tl.tokens) in
        elim (Bool-cases (le (one_f fl) tokens)) [
          | inl enough ↦
              rw (enough, lookup_or-insert_self) (laws.sub_one-at_most (of_int limit) tokens cap)
          | inr short ↦ rw (short, lookup_or-insert_self) cap
        ]

    allow-cap :
        (tenant : String) (limit : ℤ) (now : Time) (tl : TenantLimiter F)
        → lookup tenant tl.limits ≡ some limit
        → lt (of_int limit) (lookup_or (zero_f fl) tenant (allow fl tenant now tl).1.tokens) ≡ false
    unfolding allow
    allow-cap tenant limit now tl known =
        rw (known, allow) (allow_known-cap tenant limit now (refreshed fl tenant limit now tl))

    allow-Sound :
        (tenant : String) (now : Time) (tl : TenantLimiter F)
        → Sound now tl
        → Sound now (allow fl tenant now tl).1
    unfolding allow
    allow-Sound tenant now tl v = elim (Option-cases (lookup tenant tl.limits)) [
      | inl missing ↦ rw (missing, allow) v
      | inr (limit, known) ↦
          let (n, e) = v.limits tenant limit known in
          rw (known, allow) (rw e (refreshed-Sound tenant n now tl v))
    ]

    later-Sound : (t now : Time) (tl : TenantLimiter F) → t ≤ now → Sound t tl → Sound now tl
    later-Sound t now tl h v = record {
      tokens = v.tokens;
      last = λ tenant at e. omega (arith, v.last tenant at e);
      limits = v.limits;
    }

    set_limit-Sound :
        (tenant : String) (limit : ℕ) (now : Time) (tl : TenantLimiter F)
        → Sound now tl
        → Sound now (set_limit fl tenant (pos limit) tl)
    unfolding set_limit
    set_limit-Sound tenant limit now tl v = record {
      tokens = λ t. elim (Option-cases (lookup tenant tl.tokens)) [
        | inl first ↦
            rw (first, set_limit)
              (insert-Nonneg tenant (of_int (pos limit)) tl.tokens (laws.of_int-nonneg limit)
                v.tokens t)
        | inr (x, there) ↦ rw (there, set_limit) (v.tokens t)
      ];
      last = v.last;
      limits = λ t l e. elim (Bool-cases (tenant =ˢ t)) [
        | inl same ↦ (limit, ground (arith, lookup-insert tenant t (pos limit) tl.limits))
        | inr other ↦ v.limits t l (ground (arith, lookup-insert tenant t (pos limit) tl.limits))
      ];
    }

  -- The limiters that the program can have at a time, from `New` on.
  pub data Reach : Time → TenantLimiter F → Type 0 where
    started : (now : Time) → Reach now (new fl)
    allowed :
        (tenant : String) (now : Time) {t : Time} {tl : TenantLimiter F}
        → t ≤ now
        → Reach t tl
        → Reach now (allow fl tenant now tl).1
    limited :
        (tenant : String) (limit : ℕ) {t : Time} {tl : TenantLimiter F}
        → Reach t tl
        → Reach t (set_limit fl tenant (pos limit) tl)

  new-Sound : (laws : Ieee fl) (now : Time) → Sound now (new fl)
  unfolding new lookup_or lookup
  new-Sound laws now = record {
    tokens = λ t. laws.of_int-nonneg 0;
    last = λ t at e. absurd (cc e);
    limits = λ t l e. elim (Bool-cases ("alpha" =ˢ t)) [
      | inl alpha ↦ (1000, ground arith)
      | inr rest ↦ elim (Bool-cases ("beta" =ˢ t)) [
        | inl beta ↦ (500, ground arith)
        | inr others ↦ (250, ground arith)
      ]
    ];
  }

  -- In IEEE arithmetic, whatever calls were made, as long as no limit was set below zero and the
  -- clock does not run back: no bucket holds less than no tokens, and none was refreshed in the
  -- future.
  pub Reach-Sound :
      (laws : Ieee fl) {now : Time} {tl : TenantLimiter F} → Reach now tl → Sound now tl
  Reach-Sound laws (started now) = new-Sound laws now
  Reach-Sound laws (allowed tenant now {t} {tl} h r) =
      allow-Sound laws tenant now tl (later-Sound laws t now tl h (Reach-Sound laws r))
  Reach-Sound laws (limited tenant limit {t} {tl} r) =
      set_limit-Sound laws tenant limit t tl (Reach-Sound laws r)

  -- In IEEE arithmetic, from a limiter that the program can have at an earlier time, after a call
  -- of `Allow` by a tenant with a limit, its bucket holds no more than the limit and no less than
  -- nothing.
  pub allow_bounds :
      (laws : Ieee fl) (tenant : String) (limit : ℤ) (now : Time) {t : Time} (tl : TenantLimiter F)
      → Reach t tl
      → t ≤ now
      → lookup tenant tl.limits ≡ some limit
      → let tokens = lookup_or (zero_f fl) tenant (allow fl tenant now tl).1.tokens in
        (lt (of_int limit) tokens ≡ false) × Nonneg tokens
  allow_bounds laws tenant limit now tl r h known = (
    allow-cap laws tenant limit now tl known,
    (Reach-Sound laws (allowed tenant now h r)).tokens tenant,
  )
