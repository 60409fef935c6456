-- ===== src/RateLimit/Burst.antt =====
-- A burst of calls at one instant, and calls of several tenants mixed.
use mathlib.Core.Path.{ap₂}
use axiler_fin.Base.{
  ℕ, zero, suc, ◌≤◌, String, ◌≡◌, refl, ap, sym, ◌∙◌, Bool, true, false, List, [], ◌∷◌, ◌++◌,
  replicate, arith, if◌then◌else◌, ◌=ˢ◌, Bool-cases, inl, inr, eq_iff, subst,
}
use axiler_fin.Base.Int.{pos, sub_ℕ}
use axiler_fin.Base.Float.{Float64, Ieee, exact_bound, zero_f, seconds}
use axiler_fin.Models.{Time}
use axiler_fin.RateLimit.{TenantLimiter, allow, refilled, tokens_to_add, min}
use axiler_fin.RateLimit.Slots.{Slot, fresh, bucket, slot, draw, slot_allow, allow_refines}

module _ (fl : Float64) where
  open fl use {F, of_int, add, sub, mul, div, lt, le}

  -- The answers to calls made one after the other, each by a tenant at a time.
  unfoldable pub answers : List (String × Time) → TenantLimiter F → List Bool
  answers [] tl = []
  answers ((tenant, now) ∷ calls) tl =
      let (answer, tl') = allow fl tenant now tl in answer ∷ answers calls tl'

  -- The answers that one bucket gives to calls at these times.
  unfoldable pub slot_answers : List Time → Slot fl → List Bool
  slot_answers [] s = []
  slot_answers (now ∷ times) s =
      let (answer, s') = slot_allow fl now s in answer ∷ slot_answers times s'

  -- The times of a tenant's calls, and the answers to them.
  abbrev pub times_of : String → List (String × Time) → List Time
  times_of tenant [] = []
  times_of tenant ((t, now) ∷ calls) =
      if t =ˢ tenant then now ∷ times_of tenant calls else times_of tenant calls

  abbrev pub answers_of : String → List (String × Time) → List Bool → List Bool
  answers_of tenant [] bs = []
  answers_of tenant (c ∷ calls) [] = []
  answers_of tenant ((t, now) ∷ calls) (b ∷ bs) =
      if t =ˢ tenant then b ∷ answers_of tenant calls bs else answers_of tenant calls bs

  -- In any mix of calls, a tenant is answered as if it were alone: other tenants' calls neither use up
  -- nor refill its tokens.
  pub answers_independent :
      (tenant : String) (calls : List (String × Time)) (tl : TenantLimiter F)
      → answers_of tenant calls (answers calls tl)
        ≡ slot_answers (times_of tenant calls) (slot fl tenant tl)
  unfolding answers slot_answers
  answers_independent tenant [] tl = refl
  answers_independent tenant ((t, now) ∷ calls) tl = elim (Bool-cases (t =ˢ tenant)) [
    | inl own ↦
        let same : t ≡ tenant = (eq_iff t tenant).0 own in
        let answers_same : (allow fl t now tl).0 ≡ (slot_allow fl now (slot fl tenant tl)).0 =
          subst (λ u. (allow fl t now tl).0 ≡ (slot_allow fl now (slot fl u tl)).0) same
            (allow_refines fl t now tl).0 in
        let leaves_same : slot fl tenant (allow fl t now tl).1
            ≡ (slot_allow fl now (slot fl tenant tl)).1 =
          subst (λ u. slot fl u (allow fl t now tl).1 ≡ (slot_allow fl now (slot fl u tl)).1) same
            (allow_refines fl t now tl).1 in
        rw own (
          ap₂ ◌∷◌ answers_same (
            answers_independent tenant calls (allow fl t now tl).1
            ∙ ap (slot_answers (times_of tenant calls)) leaves_same))
    | inr other ↦ rw other (
        answers_independent tenant calls (allow fl t now tl).1
        ∙ ap (slot_answers (times_of tenant calls))
            ((allow_refines fl t now tl).2 tenant (λ e. cc (other, (eq_iff t tenant).1 (sym e)))))
  ]

  module _ (laws : Ieee fl) where
    no_seconds : seconds fl (pos 0) ≡ zero_f fl
    no_seconds = ap (add (zero_f fl)) (laws.zero_div 999_999_999) ∙ laws.add-zero_int 0

    no_time : (now : Time) → seconds fl (sub_ℕ now now) ≡ zero_f fl
    no_time now = let e : sub_ℕ now now ≡ pos 0 = ground arith in ap (seconds fl) e ∙ no_seconds

    -- With no time gone by, the refill adds nothing.
    added-now :
        (limit tokens : ℕ) (now : Time)
        → limit ≤ exact_bound
        → add (of_int (pos tokens)) (tokens_to_add fl (pos limit) now now) ≡ of_int (pos tokens)
    added-now limit tokens now k =
        ap (λ s. add (of_int (pos tokens)) (mul s (div (of_int (pos limit)) (of_int (pos 60)))))
          (no_time now)
        ∙ ap (add (of_int (pos tokens))) (laws.zero_mul limit 59 k)
        ∙ laws.add-zero_int tokens

    min-int :
        (limit tokens : ℕ)
        → tokens ≤ limit
        → limit ≤ exact_bound
        → min fl (of_int (pos limit)) (of_int (pos tokens)) ≡ of_int (pos tokens)
    unfolding min
    min-int limit tokens h k = ground (arith, laws.lt-int limit tokens k (omega arith))

    pub refilled-now :
        (limit tokens : ℕ) (now : Time)
        → tokens ≤ limit
        → limit ≤ exact_bound
        → refilled fl (pos limit) now now (of_int (pos tokens)) ≡ of_int (pos tokens)
    refilled-now limit tokens now h k =
        ap (min fl (of_int (pos limit))) (added-now limit tokens now k) ∙ min-int limit tokens h k

    pub draw-int :
        (limit tokens : ℕ) (now : Time)
        → suc tokens ≤ exact_bound
        → draw fl (pos limit) now (of_int (pos (suc tokens)))
          ≡ (true, bucket (pos limit) (of_int (pos tokens)) now)
    unfolding draw
    draw-int limit tokens now h =
        ground (arith, laws.le-int 1 (suc tokens) (omega arith) h, laws.sub_one-int tokens h)

    draw-empty :
        (limit : ℕ) (now : Time)
        → draw fl (pos limit) now (zero_f fl) ≡ (false, bucket (pos limit) (zero_f fl) now)
    unfolding draw
    draw-empty limit now = ground (arith, laws.le-int 1 0 (omega arith) (omega arith))

    allow-int :
        (limit tokens : ℕ) (now : Time)
        → suc tokens ≤ limit
        → limit ≤ exact_bound
        → slot_allow fl now (bucket (pos limit) (of_int (pos (suc tokens))) now)
          ≡ (true, bucket (pos limit) (of_int (pos tokens)) now)
    unfolding slot_allow
    allow-int limit tokens now h k =
        ap (draw fl (pos limit) now) (refilled-now limit (suc tokens) now h k)
        ∙ draw-int limit tokens now (omega arith)

    allow-empty :
        (limit : ℕ) (now : Time)
        → limit ≤ exact_bound
        → slot_allow fl now (bucket (pos limit) (zero_f fl) now)
          ≡ (false, bucket (pos limit) (zero_f fl) now)
    unfolding slot_allow
    allow-empty limit now k =
        ap (draw fl (pos limit) now) (refilled-now limit 0 now (omega arith) k)
        ∙ draw-empty limit now

    pub slot_answers-step :
        (now : Time) (times : List Time) (s : Slot fl) {s' : Slot fl} {b : Bool}
        → slot_allow fl now s ≡ (b, s')
        → slot_answers (now ∷ times) s ≡ b ∷ slot_answers times s'
    unfolding slot_answers
    slot_answers-step now times s e = ap (λ r. r.0 ∷ slot_answers times r.1) e

    empty_burst :
        (limit extra : ℕ) (now : Time)
        → limit ≤ exact_bound
        → slot_answers (replicate extra now) (bucket (pos limit) (zero_f fl) now)
          ≡ replicate extra false
    unfolding slot_answers
    empty_burst limit zero now k = refl
    empty_burst limit (suc extra) now k =
        slot_answers-step now (replicate extra now) _ (allow-empty limit now k)
        ∙ ap (λ bs. false ∷ bs) (empty_burst limit extra now k)

    -- Calls at one instant on a bucket that was refreshed then.
    bucket_burst :
        (limit tokens extra : ℕ) (now : Time)
        → tokens ≤ limit
        → limit ≤ exact_bound
        → slot_answers
            (replicate tokens now ++ replicate extra now)
            (bucket (pos limit) (of_int (pos tokens)) now)
          ≡ replicate tokens true ++ replicate extra false
    bucket_burst limit zero extra now h k = empty_burst limit extra now k
    bucket_burst limit (suc tokens) extra now h k =
        slot_answers-step now (replicate tokens now ++ replicate extra now) _
          (allow-int limit tokens now h k)
        ∙ ap (λ bs. true ∷ bs) (bucket_burst limit tokens extra now (omega arith) k)

    -- The first call finds the bucket full, as one refreshed now.
    slot_answers-fresh :
        (limit : ℕ) (now : Time) (times : List Time)
        → slot_answers (now ∷ times) (fresh (pos limit))
          ≡ slot_answers (now ∷ times) (bucket (pos limit) (of_int (pos limit)) now)
    unfolding slot_answers slot_allow
    slot_answers-fresh limit now times = refl

    fresh_burst :
        (limit extra : ℕ) (now : Time)
        → limit ≤ exact_bound
        → slot_answers (replicate limit now ++ replicate extra now) (fresh (pos limit))
          ≡ replicate limit true ++ replicate extra false
    unfolding slot_answers
    fresh_burst zero zero now k = refl
    fresh_burst zero (suc extra) now k =
        slot_answers-fresh 0 now (replicate extra now)
        ∙ bucket_burst 0 0 (suc extra) now (omega arith) k
    fresh_burst (suc limit) extra now k =
        slot_answers-fresh (suc limit) now (replicate limit now ++ replicate extra now)
        ∙ bucket_burst (suc limit) (suc limit) extra now (omega arith) k

  -- In IEEE arithmetic, for a limit of at most 2 ^ 53 and a tenant with no call before: of at least so
  -- many calls that it makes at one instant, mixed with any calls of other tenants, exactly as many are
  -- allowed as its limit says, the first ones, and all that follow are denied.
  pub burst :
      (laws : Ieee fl) (tenant : String) (limit extra : ℕ) (now : Time)
      (calls : List (String × Time)) (tl : TenantLimiter F)
      → slot fl tenant tl ≡ fresh (pos limit)
      → limit ≤ exact_bound
      → times_of tenant calls ≡ replicate limit now ++ replicate extra now
      → answers_of tenant calls (answers calls tl) ≡ replicate limit true ++ replicate extra false
  burst laws tenant limit extra now calls tl new k e =
      answers_independent tenant calls tl
      ∙ ap₂ slot_answers e new
      ∙ fresh_burst laws limit extra now k
