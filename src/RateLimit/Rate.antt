-- ===== src/RateLimit/Rate.antt =====
-- The rate that a tenant is allowed: how many of its calls pass within a span of time.
use native.Mathlib.Nat.{mul-le-mul_left}
use axiler_fin.Base.{
  ℕ, ◌+◌, ◌-◌, ◌*◌, ◌≤◌, String, ◌≡◌, refl, sym, Bool, true, false, some, List, [], ◌∷◌, length,
  arith, if◌then◌else◌, Bool-cases, Option-cases, inl, inr, subst, lookup, lookup_or,
}
use axiler_fin.Base.Int.{pos}
use axiler_fin.Base.Float.{Float64, Ieee, zero_f, one_f}
use axiler_fin.Models.{Time}
use axiler_fin.RateLimit.{TenantLimiter, refilled, tokens_to_add, min}
use axiler_fin.RateLimit.Slots.{Slot, fresh, bucket, slot, draw, slot_allow}
use axiler_fin.RateLimit.Bounds.{refilled-at_most}
use axiler_fin.RateLimit.Burst.{
  answers, answers_of, times_of, slot_answers, answers_independent, slot_answers-step,
}
use axiler_fin.RateLimit.Spans.{parts, count, Paced, until, until-le, grown-add}

module _ (fl : Float64) where
  open fl use {F, of_int, add, sub, lt, le}

  -- The rounding of the arithmetic that `Allow` does for a limit. `scaled x` is `x` in parts, rounded
  -- down, and 0 below zero and for a NaN. The limit is exact, and so is taking a token from a bucket that
  -- holds one; the time that has gone by and the sum are off by at most `slack` parts each, for as long
  -- as the bucket holds no more than the limit and was refreshed no more than `longest` ago.
  pub record Rounding (scaled : F → ℕ) (limit slack longest : ℕ) : Type 0 where
    pub over : (a : F) → lt (of_int (pos limit)) a ≡ true → scaled (of_int (pos limit)) ≤ scaled a
    pub capped : (a : F) → lt (of_int (pos limit)) a ≡ false → scaled a ≤ limit * parts
    pub take_one :
        (a : F)
        → le (one_f fl) a ≡ true
        → lt (of_int (pos limit)) a ≡ false
        → scaled (sub a (one_f fl)) + parts ≤ scaled a
    pub product :
        (at now : Time)
        → at ≤ now
        → now - at ≤ longest
        → scaled (tokens_to_add fl (pos limit) now at) ≤ limit * (now - at) + slack
    pub sum :
        (a b : F)
        → lt (of_int (pos limit)) a ≡ false
        → scaled b ≤ limit * longest + slack
        → scaled (add a b) ≤ scaled a + scaled b + slack

  module _ (laws : Ieee fl) (scaled : F → ℕ) (limit slack longest : ℕ)
      (rounding : Rounding scaled limit slack longest) where
    -- At most the limit.
    abbrev Capped : F → Type 0
    Capped tokens = lt (of_int (pos limit)) tokens ≡ false

    min-le : (x : F) → scaled (min fl (of_int (pos limit)) x) ≤ scaled x
    unfolding min
    min-le x = elim (Bool-cases (lt (of_int (pos limit)) x)) [
      | inl more ↦ rw (more, min) (rounding.over x more)
      | inr not_more ↦ rw (not_more, min) (omega arith)
    ]

    -- The refill adds no more than the time that has gone by is worth.
    refilled-le :
        (at now : Time) (tokens : F)
        → at ≤ now
        → now - at ≤ longest
        → Capped tokens
        → scaled (refilled fl (pos limit) now at tokens)
          ≤ scaled tokens + limit * (now - at) + 2 * slack
    refilled-le at now tokens h k capped =
        let more = rounding.product at now h k in
        let within : limit * (now - at) ≤ limit * longest = mul-le-mul_left limit k in
        omega (
          arith,
          min-le (add tokens (tokens_to_add fl (pos limit) now at)),
          more,
          rounding.sum tokens (tokens_to_add fl (pos limit) now at) capped
              (omega (arith, more, within)),
        )

    -- What a call at `now` comes to for a bucket that holds `tokens` then.
    pub record Drawn (now : Time) (tokens : F) (result : Bool × Slot fl) : Type 0 where
      pub answer : Bool
      pub kept : F
      pub result_is : result ≡ (answer, bucket (pos limit) kept now)
      pub capped : Capped kept
      pub paid : scaled kept + (if answer then parts else 0) ≤ scaled tokens

    draw-Drawn :
        (now : Time) (tokens : F)
        → Capped tokens
        → Drawn now tokens (draw fl (pos limit) now tokens)
    unfolding draw
    draw-Drawn now tokens capped = elim (Bool-cases (le (one_f fl) tokens)) [
      | inl enough ↦ record {
        answer = true;
        kept = sub tokens (one_f fl);
        result_is = rw (enough, draw) refl;
        capped = laws.sub_one-at_most (of_int (pos limit)) tokens capped;
        paid = rounding.take_one tokens enough capped;
      }
      | inr short ↦ record {
        answer = false;
        kept = tokens;
        result_is = rw (short, draw) refl;
        capped = capped;
        paid = omega arith;
      }
    ]

    slot_answers-count :
        (now : Time) (times : List Time) (s : Slot fl) {tokens : F}
        → (d : Drawn now tokens (slot_allow fl now s))
        → count (slot_answers fl (now ∷ times) s) * parts
          ≡ (if d.answer then parts else 0)
            + count (slot_answers fl times (bucket (pos limit) d.kept now)) * parts
    unfolding count
    slot_answers-count now times s d =
        rw (slot_answers-step fl laws now times s d.result_is) (ground arith)

    -- The calls that a bucket lets through are paid by what it holds and by what is refilled.
    bucket_count :
        (at : Time) (tokens : F) (times : List Time)
        → Capped tokens
        → Paced longest at times
        → count (slot_answers fl times (bucket (pos limit) tokens at)) * parts
          ≤ scaled tokens + limit * (until at times - at) + 2 * slack * length times
    unfolding slot_answers count slot_allow draw
    bucket_count at tokens [] capped p = omega arith
    bucket_count at tokens (now ∷ times) capped (h, k, p) =
        let here = refilled fl (pos limit) now at tokens in
        let d : Drawn now here (slot_allow fl now (bucket (pos limit) tokens at)) =
          draw-Drawn now here (refilled-at_most fl laws (pos limit) now at tokens) in
        omega (
          arith,
          slot_answers-count now times (bucket (pos limit) tokens at) d,
          bucket_count now d.kept times d.capped p,
          d.paid,
          refilled-le at now tokens h k capped,
          grown-add limit at now (until now times) h (until-le longest now times p),
        )

    -- Whatever a bucket holds, the refill leaves it no more than the limit.
    first_draw :
        (at now : Time) (tokens : F)
        → scaled (refilled fl (pos limit) now at tokens) ≤ limit * parts
    first_draw at now tokens =
        rounding.capped _ (refilled-at_most fl laws (pos limit) now at tokens)

    -- A first call and those after it.
    span_count :
        (now : Time) (times : List Time) (s : Slot fl) (at : Time) (tokens : F)
        → slot_allow fl now s ≡ draw fl (pos limit) now (refilled fl (pos limit) now at tokens)
        → Paced longest now times
        → count (slot_answers fl (now ∷ times) s) * parts
          ≤ limit * parts + limit * (until now times - now) + 2 * slack * length times
    span_count now times s at tokens e p =
        let here = refilled fl (pos limit) now at tokens in
        let drawn = draw-Drawn now here (refilled-at_most fl laws (pos limit) now at tokens) in
        let d : Drawn now here (slot_allow fl now s) = subst (Drawn now here) (sym e) drawn in
        omega (
          arith,
          slot_answers-count now times s d,
          d.paid,
          first_draw at now tokens,
          bucket_count now d.kept times d.capped p,
        )

    slot_rate :
        (now : Time) (times : List Time) (tenant : String) (tl : TenantLimiter F)
        → lookup tenant tl.limits ≡ some (pos limit)
        → Paced longest now times
        → count (slot_answers fl (now ∷ times) (slot fl tenant tl)) * parts
          ≤ limit * parts + limit * (until now times - now) + 2 * slack * length times
    unfolding slot slot_allow draw
    slot_rate now times tenant tl known p = elim (Option-cases (lookup tenant tl.last)) [
      | inl first ↦
          rw (known, first)
            (span_count now times (fresh (pos limit)) now (of_int (pos limit)) refl p)
      | inr (at, seen) ↦
          rw (known, seen)
            (span_count now times (bucket (pos limit) (lookup_or (zero_f fl) tenant tl.tokens) at)
              at (lookup_or (zero_f fl) tenant tl.tokens) refl p)
    ]

  -- The rate, from any state of the limiter. Take any series of calls by tenants, in which a tenant that
  -- has a limit calls at `first` and then at `times`, none of these earlier than the one ahead of it or
  -- more than `longest` after it. In an arithmetic that rounds by at most `slack` parts, of which a token
  -- has 60,000,000,000, the calls of the tenant that `Allow` lets through are at most its limit and the
  -- limit once more for each minute between its first call and its last, but for twice the slack for
  -- each call after the first.
  pub rate :
      (laws : Ieee fl) (scaled : F → ℕ) (tenant : String) (limit slack longest : ℕ)
      (calls : List (String × Time)) (first : Time) (times : List Time) (tl : TenantLimiter F)
      → Rounding scaled limit slack longest
      → lookup tenant tl.limits ≡ some (pos limit)
      → times_of fl tenant calls ≡ first ∷ times
      → Paced longest first times
      → count (answers_of fl tenant calls (answers fl calls tl)) * parts
        ≤ limit * parts + limit * (until first times - first) + 2 * slack * length times
  rate laws scaled tenant limit slack longest calls first times tl rounding known e p =
      rw (answers_independent fl tenant calls tl, e)
        (slot_rate laws scaled limit slack longest rounding first times tenant tl known p)
