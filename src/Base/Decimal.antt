-- ===== src/Base/Decimal.antt =====
-- Reading back what `strconv.Itoa` and the `%03d` of `fmt.Sprintf` print.
use Prim.Native.Char.{code}
use Prim.Native.String.{slice}
use text.Mathlib.TextLemmas.{nil-append, cons-append}
use axiler_fin.Base.{
  ℕ, zero, suc, ◌+◌, ◌-◌, ◌*◌, ◌/◌, ◌%◌, ◌<◌, String, ◌≡◌, refl, ◌∙◌, arith, Bool-cases, inl, inr,
  ltb, ◌+ˢ◌, decimal_from, decimal, if◌then◌else◌,
}

-- The number that a text of digits stands for, after the digits of `acc`.
pub value_from : ℕ → String → ℕ
value_from acc String.[] = acc
value_from acc (String.◌∷◌ c s) = value_from (acc * 10 + (code c - 48)) s

value_from-append :
    (acc : ℕ) (s t : String) → value_from acc (s +ˢ t) ≡ value_from (value_from acc s) t
unfolding value_from
value_from-append acc String.[] t = rw nil-append
value_from-append acc (String.◌∷◌ c s) t =
    rw cons-append (value_from-append (acc * 10 + (code c - 48)) s t)

value_from-digit :
    (acc d : ℕ) → d < 10 → value_from acc (slice "0123456789" d (d + 1)) ≡ acc * 10 + d
unfolding value_from
value_from-digit acc zero h = refl
value_from-digit acc (suc zero) h = refl
value_from-digit acc (suc (suc zero)) h = refl
value_from-digit acc (suc (suc (suc zero))) h = refl
value_from-digit acc (suc (suc (suc (suc zero)))) h = refl
value_from-digit acc (suc (suc (suc (suc (suc zero))))) h = refl
value_from-digit acc (suc (suc (suc (suc (suc (suc zero)))))) h = refl
value_from-digit acc (suc (suc (suc (suc (suc (suc (suc zero))))))) h = refl
value_from-digit acc (suc (suc (suc (suc (suc (suc (suc (suc zero)))))))) h = refl
value_from-digit acc (suc (suc (suc (suc (suc (suc (suc (suc (suc zero))))))))) h = refl
value_from-digit acc (suc (suc (suc (suc (suc (suc (suc (suc (suc (suc d)))))))))) h =
    absurd (omega arith)

value_from-decimal_from : (fuel n : ℕ) → n < fuel → value_from 0 (decimal_from fuel n) ≡ n
unfolding decimal_from
value_from-decimal_from zero n h = absurd (omega arith)
value_from-decimal_from (suc fuel) n h = elim (Bool-cases (ltb n 10)) [
  | inl small ↦ rw small (value_from-digit 0 (n % 10) (omega arith) ∙ ground arith)
  | inr large ↦
      rw (large, value_from-append, value_from-decimal_from fuel (n / 10) (ground arith))
        (value_from-digit (n / 10) (n % 10) (omega arith) ∙ omega arith)
]

-- `%03d`, on a natural number
unfoldable pub padded : ℕ → String
padded n =
    if ltb n 10 then "00" +ˢ decimal n else (if ltb n 100 then "0" +ˢ decimal n else decimal n)

pub value_from-decimal : (n : ℕ) → value_from 0 (decimal n) ≡ n
unfolding decimal
value_from-decimal n = value_from-decimal_from (suc n) n (omega arith)

value_from-zeros :
    (zeros s : String) → value_from 0 zeros ≡ 0 → value_from 0 (zeros +ˢ s) ≡ value_from 0 s
value_from-zeros zeros s h = rw (value_from-append, h) refl

-- The padding changes nothing of the number that is read.
pub value_from-padded : (n : ℕ) → value_from 0 (padded n) ≡ n
unfolding padded value_from
value_from-padded n = elim (Bool-cases (ltb n 10)) [
  | inl units ↦ rw (units, padded) (value_from-zeros "00" (decimal n) refl ∙ value_from-decimal n)
  | inr more ↦ elim (Bool-cases (ltb n 100)) [
    | inl tens ↦
        rw (more, tens, padded) (value_from-zeros "0" (decimal n) refl ∙ value_from-decimal n)
    | inr rest ↦ rw (more, rest, padded) (value_from-decimal n)
  ]
]

padded_tests : (padded 7 ≡ "007") × (padded 42 ≡ "042") × (padded 1234 ≡ "1234")
unfolding padded decimal decimal_from
padded_tests = (refl, refl, refl)
