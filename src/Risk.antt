-- ===== src/Risk.antt =====
-- backend/app/services/risk_engine.py: the settings of an account and the check of one order.
pub mod Check
pub mod Settings
mod Tests
use crypto_copy_trading_plat.Prelude.{
  ℕ, Bool, true, false, not, ◌&&◌, ◌||◌, Option, none, some, List, [], ◌∷◌, ◌++◌, map, find?, when,
  is_empty, ltb, ◌==◌, if◌then◌else◌,
}
use crypto_copy_trading_plat.Prelude.Int.{ℤ, pos, ltb_ℤ}
use crypto_copy_trading_plat.Prelude.Text.{Text, text_eq, text_in, upper}
use crypto_copy_trading_plat.Decimal.{Decimal, one, product_exceeds}
use crypto_copy_trading_plat.Domain.{
  OrderSide, RiskDecision, passed, RiskReason, only_simulation, account_disabled, settings_disabled,
  symbol_blocked, below_minimum, above_maximum, notional_exceeded, RiskCheckResult, RiskSetting,
  ExchangeAccount, simulation, mode_eq,
}
use crypto_copy_trading_plat.Database.{Database, find_risk_settings}

pub record RiskOrderInput : Type 0 where
  pub symbol : Text
  pub side : OrderSide
  pub quantity : Decimal
  pub price : Option Decimal

-- `order.price or Decimal("1")`: a price of zero counts as no price.
unfoldable pub price_or_one : Option Decimal → Decimal
price_or_one none = one
price_or_one (some (pos ℕ.zero)) = one
price_or_one (some p) = p

-- The tests on an optional limit: no limit, no reason.
unfoldable pub is_below : Decimal → Option Decimal → Bool
is_below q none = false
is_below q (some least) = ltb_ℤ q least

unfoldable pub is_above : Decimal → Option Decimal → Bool
is_above q none = false
is_above q (some most) = ltb_ℤ most q

unfoldable pub notional_above : Decimal → Option Decimal → Option Decimal → Bool
unfolding price_or_one
notional_above q price none = false
notional_above q price (some limit) = product_exceeds q (price_or_one price) limit

unfoldable pub order_risk_reasons :
    ExchangeAccount → RiskSetting → RiskOrderInput → Bool → List RiskReason
order_risk_reasons account settings order allow_non_simulation =
    when (not (mode_eq account.account_mode simulation) && not allow_non_simulation) only_simulation
    ++ (when (not account.trading_enabled) account_disabled
        ++ (when (not settings.trading_enabled) settings_disabled
            ++ (when (text_in order.symbol settings.blocked_symbols) symbol_blocked
                ++ (when (is_below order.quantity settings.min_order_quantity) below_minimum
                    ++ (when (is_above order.quantity settings.max_order_quantity) above_maximum
                        ++ when
                            (notional_above order.quantity order.price
                              settings.max_single_order_notional)
                            notional_exceeded)))))

unfoldable pub check_order_risk :
    ExchangeAccount → RiskSetting → RiskOrderInput → Bool → RiskCheckResult
unfolding order_risk_reasons
check_order_risk account settings order allow_non_simulation =
    let reasons = order_risk_reasons account settings order allow_non_simulation in
    record {
      decision = if is_empty reasons then passed else RiskDecision.rejected;
      reasons = reasons;
    }

-- The row that `get_or_create_risk_settings` adds.
abbrev pub default_risk_setting : ℕ → ℕ → ℕ → RiskSetting
default_risk_setting id user account = record {
  id = id;
  user_id = user;
  exchange_account_id = account;
  trading_enabled = false;
  max_single_order_notional = none;
  min_order_quantity = none;
  max_order_quantity = none;
  blocked_symbols = [];
}

-- The new row takes the id that `new_uuid` returns.
add_default_settings : Option RiskSetting → ℕ → ℕ → ℕ → Database → RiskSetting × Database
add_default_settings (some s) id user account db = (s, db)
add_default_settings none id user account db =
    let s = default_risk_setting id user account in
    (s, record db { settings = db.settings ++ s ∷ [] })

unfoldable pub get_or_create_risk_settings : ℕ → ℕ → ℕ → Database → RiskSetting × Database
unfolding add_default_settings find_risk_settings
get_or_create_risk_settings id user account db =
    add_default_settings (find_risk_settings user account db) id user account db

-- The lexicographic order of Python's `str`.
unfoldable pub text_lt : Text → Text → Bool
text_lt s [] = false
text_lt [] (b ∷ t) = true
text_lt (a ∷ s) (b ∷ t) = ltb a b || (a == b && text_lt s t)

-- Insertion into a sorted list that holds no text twice.
unfoldable pub insert_symbol : Text → List Text → List Text
insert_symbol s [] = s ∷ []
insert_symbol s (t ∷ ts) =
    let later = t ∷ insert_symbol s ts in
    if text_eq s t then t ∷ ts else if text_lt s t then s ∷ t ∷ ts else later

-- `sorted({str(symbol).upper() for symbol in value})`
unfoldable pub normalize_symbols : List Text → List Text
unfolding insert_symbol
normalize_symbols [] = []
normalize_symbols (s ∷ ss) = insert_symbol (upper s) (normalize_symbols ss)

-- One entry of the dictionary of changed fields.
pub data RiskUpdate : Type 0 where
  set_trading_enabled : Bool → RiskUpdate
  set_max_single_order_notional : Option Decimal → RiskUpdate
  set_min_order_quantity : Option Decimal → RiskUpdate
  set_max_order_quantity : Option Decimal → RiskUpdate
  set_blocked_symbols : List Text → RiskUpdate

unfoldable pub set_field : RiskUpdate → RiskSetting → RiskSetting
unfolding normalize_symbols
set_field (set_trading_enabled b) s = record s { trading_enabled = b }
set_field (set_max_single_order_notional d) s = record s { max_single_order_notional = d }
set_field (set_min_order_quantity d) s = record s { min_order_quantity = d }
set_field (set_max_order_quantity d) s = record s { max_order_quantity = d }
set_field (set_blocked_symbols l) s = record s { blocked_symbols = normalize_symbols l }

-- The loop over `data.items()`.
unfoldable pub set_fields : List RiskUpdate → RiskSetting → RiskSetting
unfolding set_field
set_fields [] s = s
set_fields (u ∷ us) s = set_fields us (set_field u s)

-- `data.get("trading_enabled") is False`
unfoldable pub turns_off : List RiskUpdate → Bool
turns_off [] = false
turns_off (set_trading_enabled b ∷ us) = not b
turns_off (u ∷ us) = turns_off us

-- The new settings, and whether the emergency-stop alert is sent.
unfoldable pub update_risk_settings : RiskSetting → List RiskUpdate → RiskSetting × Bool
unfolding set_fields turns_off
update_risk_settings s changes = (set_fields changes s, s.trading_enabled && turns_off changes)
