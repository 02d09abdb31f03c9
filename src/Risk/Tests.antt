-- ===== src/Risk/Tests.antt =====
-- The risk check and the risk settings on concrete rows.
use crypto_copy_trading_plat.Prelude.{◌≡◌, refl, true, false, some, none, [], ◌∷◌, List, arith}
use crypto_copy_trading_plat.Prelude.Int.{◌*ℤ◌}
use crypto_copy_trading_plat.Prelude.Text.{Text, codes, text_in, upper, text_eq}
use crypto_copy_trading_plat.Decimal.{round_digits, product_exceeds}
use crypto_copy_trading_plat.Decimal.Laws.{Fits}
use crypto_copy_trading_plat.Domain.{RiskDecision, passed}
use crypto_copy_trading_plat.Database.{find_risk_settings}
use crypto_copy_trading_plat.Samples.{
  units, uuid, btc, mock_account, settings_on, database, order_of,
}
use crypto_copy_trading_plat.Risk.{
  check_order_risk, is_below, is_above, notional_above, price_or_one, text_lt, normalize_symbols,
  RiskUpdate, set_blocked_symbols, set_trading_enabled,
}

fifty_passes : (check_order_risk mock_account settings_on (order_of 50) false).decision ≡ passed
unfolding check_order_risk text_in text_eq ◌*ℤ◌ round_digits is_below is_above notional_above
    product_exceeds
fifty_passes = refl

fifty_one_fails :
    (check_order_risk mock_account settings_on (order_of 51) false).decision ≡ RiskDecision.rejected
unfolding check_order_risk text_in text_eq ◌*ℤ◌ round_digits is_below is_above notional_above
    product_exceeds
fifty_one_fails = refl

fifty-Fits : Fits (units 50 *ℤ price_or_one (some (units 20)))
unfolding ◌*ℤ◌ price_or_one
fifty-Fits = omega arith

abbrev symbols : List Text
symbols = codes "dogeusdt" ∷ codes "BTCusdt" ∷ codes "DOGEUSDT" ∷ []

symbols_normalized : normalize_symbols symbols ≡ codes "BTCUSDT" ∷ codes "DOGEUSDT" ∷ []
unfolding normalize_symbols text_eq upper text_lt
symbols_normalized = refl

listed : text_in (codes "BTCusdt") symbols ≡ true
unfolding text_in text_eq
listed = refl

upper-btc : btc ≡ upper (codes "BTCusdt")
unfolding upper
upper-btc = refl

abbrev changes : List RiskUpdate
changes = set_blocked_symbols symbols ∷ set_trading_enabled false ∷ []

no_settings : find_risk_settings (uuid 1) (uuid 12) database ≡ none
unfolding find_risk_settings
no_settings = refl
