-- ===== src/Number/Decimal.antt =====
-- What `Itoa` writes is decimal digits that `Atoi` reads back.
use fingered.Base.{
  ℕ, zero, suc, ◌+◌, ◌*◌, ◌/◌, ◌%◌, ◌^◌, ◌<◌, ◌≤◌, ◌≡◌, ◌∙◌, inl, inr, [], ◌∷◌, ltb, Bytes,
  Bool-cases, All, All-map, arith,
}
use native.Mathlib.Nat.{pow-suc}
use fingered.Base.Int.{ℤ, pos, negsuc}
use fingered.Number.{digits_value, decimal_from, itoa}

abbrev pub IsDigit : ℕ → Type 0
IsDigit c = (b'0' ≤ c) × (c ≤ b'9')

pub decimal_from-IsDigit :
    (fuel n : ℕ) (digits : Bytes) → All IsDigit digits → All IsDigit (decimal_from fuel n digits)
unfolding decimal_from
decimal_from-IsDigit zero n digits h = h
decimal_from-IsDigit (suc fuel) n digits h = elim (Bool-cases (ltb n 10)) [
  | inl e ↦ rw (e, decimal_from) ((omega arith, ground arith), h)
  | inr e ↦
      rw (e, decimal_from) (decimal_from-IsDigit fuel (n / 10) _ ((omega arith, omega arith), h))
]

power_step : (fuel n : ℕ) → n < 10 ^ suc (suc fuel) → n / 10 < 10 ^ suc fuel
power_step fuel n h =
    let bound : n < 10 ^ suc fuel * 10 = rw (pow-suc 10 (suc fuel)) at h in omega arith

-- With enough rounds the digits are those of the number.
pub digits_value-decimal_from :
    (fuel n : ℕ) (digits : Bytes)
    → n < 10 ^ suc fuel
    → digits_value 10 0 (decimal_from (suc fuel) n digits) ≡ digits_value 10 n digits
unfolding digits_value decimal_from
digits_value-decimal_from zero n digits h = let small : n < 10 = h in ground arith
digits_value-decimal_from (suc fuel) n digits h = elim (Bool-cases (ltb n 10)) [
  | inl e ↦ rw e (first n digits (ground arith))
  | inr e ↦ rw e (
      digits_value-decimal_from fuel (n / 10) ((b'0' + n % 10) ∷ digits) (power_step fuel n h)
      ∙ later n digits)
]
  where
    first :
        (n : ℕ) (digits : Bytes)
        → n < 10
        → digits_value 10 0 ((b'0' + n) ∷ digits) ≡ digits_value 10 n digits
    first n digits h = ground arith

    later :
        (n : ℕ) (digits : Bytes)
        → digits_value 10 (n / 10) ((b'0' + n % 10) ∷ digits) ≡ digits_value 10 n digits
    later n digits = ground arith

-- A digit or the sign
abbrev pub IsNumeral : ℕ → Type 0
IsNumeral c = (b'-' ≤ c) × (c ≤ b'9')

pub itoa-IsNumeral : (n : ℤ) → All IsNumeral (itoa n)
unfolding itoa
itoa-IsNumeral (pos n) =
    All-map IsDigit IsNumeral (λ c h. (omega arith, h.1)) _ (decimal_from-IsDigit 20 n [] tt)
itoa-IsNumeral (negsuc n) = (
  (omega arith, omega arith),
  All-map IsDigit IsNumeral (λ c h. (omega arith, h.1)) _ (decimal_from-IsDigit 20 (suc n) [] tt),
)
