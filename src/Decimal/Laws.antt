-- ===== src/Decimal/Laws.antt =====
-- Arithmetic whose result has at most 28 digits is exact.
use crypto_copy_trading_plat.Prelude.{ℕ, ◌<◌, ◌≡◌, refl, arith, lt→ltb}
use crypto_copy_trading_plat.Prelude.Int.{ℤ, pos, negsuc, ◌+ℤ◌, ◌-ℤ◌, ◌*ℤ◌, magnitude}
use crypto_copy_trading_plat.Decimal.{
  Decimal, precision_bound, round_digits, round, add, sub, product, abs,
}

-- At most 28 digits.
abbrev pub Fits : ℤ → Type 0
Fits a = magnitude a < precision_bound

pub round_digits-exact : (n : ℕ) → n < precision_bound → round_digits n ≡ n
unfolding round_digits
round_digits-exact n h = rw (lt→ltb n precision_bound h) refl

pub round-exact : (a : ℤ) → Fits a → round a ≡ a
unfolding round
round-exact (pos n) h = rw (round_digits-exact n (omega arith)) refl
round-exact (negsuc n) h = ground (arith, round_digits-exact _ h)

pub add-exact : (a b : Decimal) → Fits (a +ℤ b) → add a b ≡ a +ℤ b
unfolding add
add-exact a b h = round-exact (a +ℤ b) h

pub sub-exact : (a b : Decimal) → Fits (a -ℤ b) → sub a b ≡ a -ℤ b
unfolding sub
sub-exact a b h = round-exact (a -ℤ b) h

pub product-exact : (a b : Decimal) → Fits (a *ℤ b) → product a b ≡ a *ℤ b
unfolding product
product-exact a b h = round-exact (a *ℤ b) h

pub abs-exact : (a : Decimal) → Fits a → abs a ≡ pos (magnitude a)
unfolding abs
abs-exact a h = round-exact (pos (magnitude a)) (omega arith)
