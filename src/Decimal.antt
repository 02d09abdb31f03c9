-- ===== src/Decimal.antt =====
-- Python's `Decimal` as the services use it. A quantity or a price is a whole number of units of
-- 10^-10, the scale of the columns `Numeric(28, 10)`. The default context keeps 28 significant
-- digits and rounds half to even, so every sum, difference and product is rounded here too.
pub mod Laws
use crypto_copy_trading_plat.Prelude.{
  ℕ, zero, suc, ◌+◌, ◌*◌, ◌/◌, ◌%◌, ◌^◌, Bool, ◌&&◌, ltb, ◌==◌, if◌then◌else◌,
}
use crypto_copy_trading_plat.Prelude.Int.{ℤ, pos, negsuc, ◌+ℤ◌, ◌-ℤ◌, ◌*ℤ◌, ltb_ℤ, sub_ℕ, magnitude}

abbrev pub Decimal : Type 0
Decimal = ℤ

-- 10^28: coefficients below it have at most 28 digits.
abbrev pub precision_bound : ℕ
precision_bound = 10000000000000000000000000000

-- Units of 10^-10 in one.
abbrev pub one : Decimal
one = pos 10000000000

-- The least power of ten, up to the fuel, that brings `n` down to 28 digits.
rounding_unit : ℕ → ℕ → ℕ → ℕ
rounding_unit zero unit n = unit
rounding_unit (suc fuel) unit n =
    let wider = rounding_unit fuel (unit * 10) n in
    if ltb n (precision_bound * unit) then unit else wider

-- `n` rounded to a multiple of `unit`, a half going to the even multiple.
round_to : ℕ → ℕ → ℕ
round_to unit n =
    let q = n / unit in
    let twice = n % unit * 2 in
    if ltb unit twice
    then (q + 1) * unit
    else if twice == unit && (q % 2 == 1)
    then (q + 1) * unit
    else q * unit

-- Rounding of a coefficient to 28 significant digits. Products of two columns have at most 56
-- digits, so the unit is at most 10^28.
unfoldable pub round_digits : ℕ → ℕ
unfolding rounding_unit round_to
round_digits n = if ltb n precision_bound then n else round_to (rounding_unit 60 10 n) n

unfoldable pub round : ℤ → ℤ
round (pos n) = pos (round_digits n)
round (negsuc n) = sub_ℕ 0 (round_digits (suc n))

-- `a + b`
unfoldable pub add : Decimal → Decimal → Decimal
unfolding round
add a b = round (a +ℤ b)

-- `a - b`
unfoldable pub sub : Decimal → Decimal → Decimal
unfolding round
sub a b = round (a -ℤ b)

-- `a * b`, in units of 10^-20.
unfoldable pub product : Decimal → Decimal → ℤ
unfolding round
product a b = round (a *ℤ b)

-- `q * p > limit`
unfoldable pub product_exceeds : Decimal → Decimal → Decimal → Bool
unfolding product
product_exceeds q p limit = ltb_ℤ (limit *ℤ one) (product q p)

-- `abs(a)`
unfoldable pub abs : Decimal → Decimal
unfolding round
abs a = round (pos (magnitude a))
