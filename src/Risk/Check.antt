-- ===== src/Risk/Check.antt =====
-- When an order passes the risk check.
use crypto_copy_trading_plat.Prelude.{
  ◌≡◌, ◌⊎◌, ◌↔◌, Bool, true, false, Option, none, some, arith, refl,
}
use crypto_copy_trading_plat.Prelude.Int.{ℤ, ◌≤ℤ◌, ◌*ℤ◌}
use crypto_copy_trading_plat.Prelude.Text.{text_in}
use crypto_copy_trading_plat.Decimal.{Decimal, one, product, product_exceeds}
use crypto_copy_trading_plat.Domain.{passed, simulation, RiskSetting, ExchangeAccount}
use crypto_copy_trading_plat.Risk.{
  RiskOrderInput, price_or_one, is_below, is_above, notional_above, check_order_risk,
}

-- `a` is at most the limit, where there is one.
abbrev pub Within : ℤ → Option ℤ → Type 0
Within a none = Unit
Within a (some b) = a ≤ℤ b

abbrev pub AtLeast : Option ℤ → ℤ → Type 0
AtLeast none a = Unit
AtLeast (some b) a = b ≤ℤ a

-- The notional value, rounded to 28 digits, is at most the limit.
abbrev pub NotionalWithin : Decimal → Option Decimal → Option Decimal → Type 0
NotionalWithin q price none = Unit
NotionalWithin q price (some limit) = product q (price_or_one price) ≤ℤ limit *ℤ one

-- What the settings of an account permit, said without the code's tests.
pub record Permits (account : ExchangeAccount) (settings : RiskSetting) (order : RiskOrderInput)
    (allow_non_simulation : Bool) : Type 0 where
  pub mode : (account.account_mode ≡ simulation) ⊎ (allow_non_simulation ≡ true)
  pub account_on : account.trading_enabled ≡ true
  pub settings_on : settings.trading_enabled ≡ true
  pub not_blocked : text_in order.symbol settings.blocked_symbols ≡ false
  pub least : AtLeast settings.min_order_quantity order.quantity
  pub most : Within order.quantity settings.max_order_quantity
  pub notional : NotionalWithin order.quantity order.price settings.max_single_order_notional

is_below_iff : (q : Decimal) (o : Option Decimal) → (is_below q o ≡ false) ↔ AtLeast o q
unfolding is_below
is_below_iff q none = (λ h. tt, λ h. refl)
is_below_iff q (some b) = (λ h. ground arith, λ h. ground arith)

is_above_iff : (q : Decimal) (o : Option Decimal) → (is_above q o ≡ false) ↔ Within q o
unfolding is_above
is_above_iff q none = (λ h. tt, λ h. refl)
is_above_iff q (some b) = (λ h. ground arith, λ h. ground arith)

notional_above_iff :
    (q : Decimal) (price limit : Option Decimal)
    → (notional_above q price limit ≡ false) ↔ NotionalWithin q price limit
unfolding notional_above product_exceeds
notional_above_iff q price none = (λ h. tt, λ h. refl)
notional_above_iff q price (some b) = (λ h. ground arith, λ h. ground arith)

-- The conditions on the quantity and the notional value, in terms of the code's tests.
limits_iff :
    (settings : RiskSetting) (order : RiskOrderInput)
    → ((is_below order.quantity settings.min_order_quantity ≡ false)
        × (is_above order.quantity settings.max_order_quantity ≡ false)
        × (notional_above order.quantity order.price settings.max_single_order_notional ≡ false))
      ↔ (AtLeast settings.min_order_quantity order.quantity
          × Within order.quantity settings.max_order_quantity
          × NotionalWithin order.quantity order.price settings.max_single_order_notional)
limits_iff settings order = (
  λ h. (
    (is_below_iff order.quantity settings.min_order_quantity).0 h.0,
    (is_above_iff order.quantity settings.max_order_quantity).0 h.1,
    (notional_above_iff order.quantity order.price settings.max_single_order_notional).0 h.2,
  ),
  λ h. (
    (is_below_iff order.quantity settings.min_order_quantity).1 h.0,
    (is_above_iff order.quantity settings.max_order_quantity).1 h.1,
    (notional_above_iff order.quantity order.price settings.max_single_order_notional).1 h.2,
  ),
)

module _ (account : ExchangeAccount) (settings : RiskSetting) (order : RiskOrderInput)
    (allow_non_simulation : Bool) where
  passed-Permits :
      (check_order_risk account settings order allow_non_simulation).decision ≡ passed
      → Permits account settings order allow_non_simulation
  unfolding check_order_risk
  passed-Permits h =
      let limits = (limits_iff settings order).0 (ground arith, ground arith, ground arith) in
      record {
        mode = ground arith;
        account_on = ground arith;
        settings_on = ground arith;
        not_blocked = ground arith;
        least = limits.0;
        most = limits.1;
        notional = limits.2;
      }

  Permits-passed :
      Permits account settings order allow_non_simulation
      → (check_order_risk account settings order allow_non_simulation).decision ≡ passed
  unfolding check_order_risk
  Permits-passed p =
      let tests = (limits_iff settings order).1 (p.least, p.most, p.notional) in
      rw (p.account_on, p.settings_on, p.not_blocked, tests.0, tests.1, tests.2)
        (ground (arith, p.mode))

  pub check_order_risk_iff :
      ((check_order_risk account settings order allow_non_simulation).decision ≡ passed)
      ↔ Permits account settings order allow_non_simulation
  check_order_risk_iff = (passed-Permits, Permits-passed)
