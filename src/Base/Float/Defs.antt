-- ===== src/Base/Float/Defs.antt =====
-- The operations on `float64`, and the facts of IEEE 754 that are used of them.
use Prim.Native.Nat.{ℕ, suc, ◌/◌, ◌%◌, ◌^◌, ◌≤◌}
use Prim.Native.String.{String}
use mathlib.Core.Path.{◌≡◌}
use mathlib.Core.Bool.{Bool, true, false}
use axiler_fin.Base.Tests.{ltb, leb}
use axiler_fin.Base.Int.{ℤ, pos, negsuc, neg}

pub record Float64 : Type 1 where
  pub F : Type 0
  pub of_int : ℤ → F
  pub add : F → F → F
  pub sub : F → F → F
  pub mul : F → F → F
  pub div : F → F → F
  -- `a < b` and `a <= b`
  pub lt : F → F → Bool
  pub le : F → F → Bool
  -- `fmt.Sprintf("%.2f", x)`
  pub show2 : F → String

-- Below this bound every integer is represented exactly.
abbrev pub exact_bound : ℕ
exact_bound = 2 ^ 53

module _ (fl : Float64) where
  open fl use {F, of_int, add, sub, mul, div, lt, le}

  abbrev pub zero_f : F
  zero_f = of_int (pos 0)

  abbrev pub one_f : F
  one_f = of_int (pos 1)

  -- `d.Seconds()` for a duration of `d` nanoseconds.
  abbrev pub seconds : ℤ → F
  seconds (pos d) =
      add (of_int (pos (d / 1_000_000_000)))
        (div (of_int (pos (d % 1_000_000_000))) (of_int (pos 1_000_000_000)))
  seconds (negsuc d) =
      add (of_int (neg (suc d / 1_000_000_000)))
        (div (of_int (neg (suc d % 1_000_000_000))) (of_int (pos 1_000_000_000)))

  -- Rounding keeps order and sign, and small integers are exact.
  pub record Ieee : Type 0 where
    pub lt_asymm : (a b : F) → lt a b ≡ true → lt b a ≡ false
    pub sub_one-at_most : (c a : F) → lt c a ≡ false → lt c (sub a one_f) ≡ false
    pub sub_one-nonneg : (a : F) → le one_f a ≡ true → lt (sub a one_f) zero_f ≡ false
    pub sub-nonneg : (a b : F) → lt a b ≡ false → lt (sub a b) zero_f ≡ false
    pub sub-neg : (a b : F) → lt a b ≡ true → lt (sub a b) zero_f ≡ true
    pub add-nonneg :
        (a b : F) → lt a zero_f ≡ false → lt b zero_f ≡ false → lt (add a b) zero_f ≡ false
    pub mul-nonneg :
        (a b : F) → lt a zero_f ≡ false → lt b zero_f ≡ false → lt (mul a b) zero_f ≡ false
    pub div-nonneg :
        (a : F) (k : ℕ) → lt a zero_f ≡ false → lt (div a (of_int (pos (suc k)))) zero_f ≡ false
    pub nonneg_of_pos : (a : F) → le a zero_f ≡ false → lt a zero_f ≡ false
    pub of_int-nonneg : (n : ℕ) → lt (of_int (pos n)) zero_f ≡ false
    pub add-zero_int : (n : ℕ) → add (of_int (pos n)) zero_f ≡ of_int (pos n)
    pub zero_div : (k : ℕ) → div zero_f (of_int (pos (suc k))) ≡ zero_f
    pub zero_mul :
        (n k : ℕ)
        → n ≤ exact_bound
        → mul zero_f (div (of_int (pos n)) (of_int (pos (suc k)))) ≡ zero_f
    pub sub_one-int :
        (n : ℕ) → suc n ≤ exact_bound → sub (of_int (pos (suc n))) one_f ≡ of_int (pos n)
    pub lt-int :
        (m n : ℕ)
        → m ≤ exact_bound
        → n ≤ exact_bound
        → lt (of_int (pos m)) (of_int (pos n)) ≡ ltb m n
    pub le-int :
        (m n : ℕ)
        → m ≤ exact_bound
        → n ≤ exact_bound
        → le (of_int (pos m)) (of_int (pos n)) ≡ leb m n
