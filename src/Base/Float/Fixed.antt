-- ===== src/Base/Float/Fixed.antt =====
-- Fixed-point numbers, in units of 1 / 60,000,000,000: an arithmetic in which the facts of `Ieee`
-- hold, on which the models run in tests.
use Prim.Native.Nat.{ℕ, suc, ◌*◌, ◌/◌}
use mathlib.Core.Path.{◌≡◌, ap}
use mathlib.Core.Bool.{false}
use native.Mathlib.Omega.{arith}
use axiler_fin.Base.Text.{decimal}
use axiler_fin.Base.Int.{ℤ, pos, negsuc, neg, ◌+ℤ◌, ◌-ℤ◌, ltb_ℤ, leb_ℤ}
use axiler_fin.Base.Float.Defs.{Float64, Ieee}

abbrev unit : ℕ
unit = 60_000_000_000

abbrev fixed_of_int : ℤ → ℤ
fixed_of_int (pos n) = pos (n * unit)
fixed_of_int (negsuc n) = neg (suc n * unit)

abbrev fixed_mul : ℤ → ℤ → ℤ
fixed_mul (pos a) (pos b) = pos (a * b / unit)
fixed_mul (pos a) (negsuc b) = neg (a * suc b / unit)
fixed_mul (negsuc a) (pos b) = neg (suc a * b / unit)
fixed_mul (negsuc a) (negsuc b) = pos (suc a * suc b / unit)

abbrev fixed_div : ℤ → ℤ → ℤ
fixed_div (pos a) (pos b) = pos (a * unit / b)
fixed_div (pos a) (negsuc b) = neg (a * unit / suc b)
fixed_div (negsuc a) (pos b) = neg (suc a * unit / b)
fixed_div (negsuc a) (negsuc b) = pos (suc a * unit / suc b)

unfoldable pub fixed_point : Float64
fixed_point = record {
  F = ℤ;
  of_int = fixed_of_int;
  add = ◌+ℤ◌;
  sub = ◌-ℤ◌;
  mul = fixed_mul;
  div = fixed_div;
  lt = ltb_ℤ;
  le = leb_ℤ;
  show2 = λ a. elim a [ pos n ↦ decimal (n / unit) | negsuc n ↦ decimal (suc n / unit) ];
}

fixed_mul-nonneg :
    (a b : ℤ)
    → ltb_ℤ a (pos 0) ≡ false
    → ltb_ℤ b (pos 0) ≡ false
    → ltb_ℤ (fixed_mul a b) (pos 0) ≡ false
fixed_mul-nonneg (pos a) (pos b) h k = ground arith
fixed_mul-nonneg (pos a) (negsuc b) h k = ground arith
fixed_mul-nonneg (negsuc a) b h k = ground arith

fixed_div-nonneg :
    (a : ℤ) (k : ℕ) → ltb_ℤ a (pos 0) ≡ false → ltb_ℤ (fixed_div a (pos k)) (pos 0) ≡ false
fixed_div-nonneg (pos a) k h = ground arith
fixed_div-nonneg (negsuc a) k h = ground arith

zero_times : (n : ℕ) → pos (0 * n / unit) ≡ pos 0
zero_times n = ap pos (omega arith)

zero_over : (k : ℕ) → pos (0 / k) ≡ pos 0
zero_over k = ap pos (omega arith)

pub fixed_point-Ieee : Ieee fixed_point
unfolding fixed_point ◌+ℤ◌ ◌-ℤ◌
fixed_point-Ieee = record {
  lt_asymm = λ a b h. ground arith;
  sub_one-at_most = λ c a h. ground arith;
  sub_one-nonneg = λ a h. ground arith;
  sub-nonneg = λ a b h. ground arith;
  sub-neg = λ a b h. ground arith;
  add-nonneg = λ a b h k. ground arith;
  mul-nonneg = fixed_mul-nonneg;
  div-nonneg = λ a k h. fixed_div-nonneg a (suc k * unit) h;
  nonneg_of_pos = λ a h. ground arith;
  of_int-nonneg = λ n. ground arith;
  add-zero_int = λ n. ground arith;
  zero_div = λ k. zero_over (suc k * unit);
  zero_mul = λ n k h. zero_times (n * unit * unit / (suc k * unit));
  sub_one-int = λ n h. ground arith;
  lt-int = λ m n h k. ground arith;
  le-int = λ m n h k. ground arith;
}
