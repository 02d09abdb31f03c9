-- ===== src/Position/Tests.antt =====
-- Positions and fills on concrete rows.
use crypto_copy_trading_plat.Prelude.{◌≡◌, refl, some, none, [], ◌∷◌, List, arith}
use crypto_copy_trading_plat.Prelude.Int.{◌-ℤ◌}
use crypto_copy_trading_plat.Prelude.Text.{text_eq}
use crypto_copy_trading_plat.Decimal.{round_digits, sub}
use crypto_copy_trading_plat.Decimal.Laws.{Fits}
use crypto_copy_trading_plat.Domain.{OrderSide, sell, Position}
use crypto_copy_trading_plat.Samples.{units, uuid, btc}
use crypto_copy_trading_plat.Position.{
  new_position, get_or_create_position, calculate_delta, filled_quantity, apply_fill,
}
use crypto_copy_trading_plat.Position.Fills.{held, delta_fill_reaches}

abbrev rows : List Position
rows = record (new_position (uuid 1) (uuid 7) btc) { quantity = units 8 } ∷ []

abbrev sold : List Position
sold = apply_fill (uuid 1) (uuid 7) btc sell (units 3) rows

sold_quantity : held (uuid 1) (uuid 7) btc sold ≡ units 5
unfolding apply_fill text_eq ◌-ℤ◌ round_digits get_or_create_position filled_quantity sub
sold_quantity = refl

target-Fits : Fits (units 5)
target-Fits = omega arith

delta-Fits : Fits (units 5 -ℤ held (uuid 1) (uuid 7) btc rows)
unfolding ◌-ℤ◌ text_eq
delta-Fits = omega arith

delta_fill_reaches_example :
    ((side : OrderSide)
      → (calculate_delta btc (held (uuid 1) (uuid 7) btc rows) (units 5)).side ≡ some side
      → held (uuid 1) (uuid 7) btc (
          apply_fill
            (uuid 1)
            (uuid 7)
            btc
            side
            (calculate_delta btc (held (uuid 1) (uuid 7) btc rows) (units 5)).delta_quantity
            rows)
        ≡ units 5)
    × ((calculate_delta btc (held (uuid 1) (uuid 7) btc rows) (units 5)).side ≡ none
        → held (uuid 1) (uuid 7) btc rows ≡ units 5)
delta_fill_reaches_example =
    delta_fill_reaches (uuid 1) (uuid 7) btc (units 5) rows target-Fits delta-Fits
