-- ===== src/Position.antt =====
-- backend/app/services/position_engine.py: the position of an account in a symbol.
pub mod Fills
mod Tests
use crypto_copy_trading_plat.Prelude.{
  ℕ, Bool, ◌&&◌, Option, none, some, List, [], ◌∷◌, ◌++◌, find?, ◌==◌, if◌then◌else◌,
}
use crypto_copy_trading_plat.Prelude.Int.{pos, ltb_ℤ}
use crypto_copy_trading_plat.Prelude.Text.{Text, text_eq}
use crypto_copy_trading_plat.Decimal.{Decimal, add, sub, abs}
use crypto_copy_trading_plat.Domain.{OrderSide, buy, sell, Position}

pub record PositionDelta : Type 0 where
  pub symbol : Text
  pub current_quantity : Decimal
  pub target_quantity : Decimal
  pub delta_quantity : Decimal
  pub side : Option OrderSide

-- The query of `get_or_create_position`.
abbrev pub is_position : ℕ → ℕ → Text → Position → Bool
is_position user account symbol p =
    p.user_id == user && (p.exchange_account_id == account && text_eq p.symbol symbol)

abbrev pub new_position : ℕ → ℕ → Text → Position
new_position user account symbol = record {
  user_id = user;
  exchange_account_id = account;
  symbol = symbol;
  quantity = pos 0;
}

add_position : Option Position → Position → List Position → Position × List Position
add_position (some p) fresh rows = (p, rows)
add_position none fresh rows = (fresh, rows ++ fresh ∷ [])

unfoldable pub get_or_create_position : ℕ → ℕ → Text → List Position → Position × List Position
unfolding add_position
get_or_create_position user account symbol rows =
    add_position (find? (is_position user account symbol) rows) (new_position user account symbol)
      rows

unfoldable pub delta_side : Decimal → Option OrderSide
delta_side delta =
    if ltb_ℤ (pos 0) delta then some buy else if ltb_ℤ delta (pos 0) then some sell else none

unfoldable pub calculate_delta : Text → Decimal → Decimal → PositionDelta
unfolding delta_side
calculate_delta symbol current target =
    let delta = sub target current in
    record {
      symbol = symbol;
      current_quantity = current;
      target_quantity = target;
      delta_quantity = abs delta;
      side = delta_side delta;
    }

-- `position.quantity += quantity`, or `-=` for a sale.
unfoldable pub filled_quantity : OrderSide → Decimal → Decimal → Decimal
filled_quantity buy quantity old = add old quantity
filled_quantity sell quantity old = sub old quantity

-- An update of the row that a query returns.
unfoldable pub update_first :
    (Position → Bool) → (Position → Position) → List Position → List Position
update_first p f [] = []
update_first p f (x ∷ xs) = if p x then f x ∷ xs else x ∷ update_first p f xs

abbrev pub fill_row : OrderSide → Decimal → Position → Position
fill_row side quantity p = record p { quantity = filled_quantity side quantity p.quantity }

unfoldable pub apply_fill : ℕ → ℕ → Text → OrderSide → Decimal → List Position → List Position
unfolding update_first
apply_fill user account symbol side quantity rows =
    update_first (is_position user account symbol) (fill_row side quantity)
      (get_or_create_position user account symbol rows).1
