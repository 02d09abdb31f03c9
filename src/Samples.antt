-- ===== src/Samples.antt =====
-- The rows that the tests of the components run on: one user with a mock account in simulation, a
-- test account of an exchange, risk settings with limits, and signals for one symbol.
use crypto_copy_trading_plat.Prelude.{ℕ, ◌*◌, ◌+◌, ◌^◌, true, false, none, some, [], ◌∷◌}
use crypto_copy_trading_plat.Prelude.Int.{pos}
use crypto_copy_trading_plat.Prelude.Text.{Text, codes}
use crypto_copy_trading_plat.Decimal.{Decimal}
use crypto_copy_trading_plat.Domain.{
  buy, limit, created, mock, binance, simulation, testnet, derived, TradingSignal, RiskSetting,
  OrderExecution, ExchangeAccount,
}
use crypto_copy_trading_plat.Database.{Database, ApiKeySecret}
use crypto_copy_trading_plat.OrderState.{Tracked, TransitionLog}
use crypto_copy_trading_plat.Risk.{RiskOrderInput}

-- A whole number of units of a currency.
abbrev pub units : ℕ → Decimal
units n = pos (n * 10000000000)

abbrev pub btc : Text
btc = codes "BTCUSDT"

-- The id whose first 8 digits are `n`.
abbrev pub uuid : ℕ → ℕ
uuid n = n * 2 ^ 96

abbrev pub mock_account : ExchangeAccount
mock_account = record {
  id = uuid 7;
  user_id = uuid 1;
  exchange_name = mock;
  account_mode = simulation;
  trading_enabled = true;
  is_active = true;
}

abbrev pub test_account : ExchangeAccount
test_account = record {
  id = uuid 8;
  user_id = uuid 1;
  exchange_name = binance;
  account_mode = testnet;
  trading_enabled = false;
  is_active = true;
}

abbrev pub settings_of : ℕ → RiskSetting
settings_of account = record {
  id = uuid 9;
  user_id = uuid 1;
  exchange_account_id = account;
  trading_enabled = true;
  max_single_order_notional = some (units 1000);
  min_order_quantity = some (units 1);
  max_order_quantity = some (units 50);
  blocked_symbols = codes "DOGEUSDT" ∷ [];
}

abbrev pub settings_on : RiskSetting
settings_on = settings_of mock_account.id

abbrev pub settings_off : RiskSetting
settings_off = record (settings_of test_account.id) { trading_enabled = false }

-- A signal to hold 5 units.
abbrev pub target_signal : TradingSignal
target_signal = record {
  id = uuid 3;
  user_id = uuid 1;
  symbol = btc;
  side = buy;
  order_type = limit;
  price = some (units 20);
  quantity = none;
  target_position_quantity = some (units 5);
}

-- A signal to buy 5 units.
abbrev pub quantity_signal : TradingSignal
quantity_signal = record target_signal {
  quantity = some (units 5);
  target_position_quantity = none;
}

-- Another signal whose id begins with the same digits.
abbrev pub twin_signal : TradingSignal
twin_signal = record quantity_signal { id = uuid 3 + 1 }

abbrev pub secret : ApiKeySecret
secret = record { user_id = uuid 1; exchange_account_id = test_account.id; has_passphrase = false }

abbrev pub empty_log : TransitionLog
empty_log = record { flushed = []; added = [] }

abbrev pub database : Database
database = record {
  accounts = mock_account ∷ test_account ∷ [];
  secrets = secret ∷ [];
  signals = quantity_signal ∷ [];
  settings = settings_on ∷ settings_off ∷ [];
  positions = [];
  balances = [];
  executions = [];
  log = empty_log;
  control = none;
  audit_logs = [];
  system_events = [];
}

-- An execution as the engine flushes it.
abbrev pub execution : OrderExecution
execution = record {
  id = some (uuid 4);
  user_id = uuid 1;
  signal_id = uuid 3;
  exchange_account_id = uuid 7;
  exchange_name = mock;
  client_order_id = derived 3 7;
  exchange_order_id = none;
  symbol = btc;
  side = buy;
  order_type = limit;
  price = some (units 20);
  quantity = units 5;
  status = created;
  risk_result = none;
  exchange_response = none;
  error_message = none;
}

abbrev pub tracked : Tracked
tracked = record { execution = execution; log = empty_log }

abbrev pub order_of : ℕ → RiskOrderInput
order_of n = record { symbol = btc; side = buy; quantity = units n; price = some (units 20) }
