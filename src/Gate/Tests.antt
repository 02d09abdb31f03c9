-- ===== src/Gate/Tests.antt =====
-- The gates on a test account.
use crypto_copy_trading_plat.Prelude.{◌≡◌, refl, true, false, some}
use crypto_copy_trading_plat.Domain.{binance, testnet}
use crypto_copy_trading_plat.Samples.{test_account, settings_off, secret}
use crypto_copy_trading_plat.Gate.{GateInput, admission_report}

abbrev open_gate : GateInput
open_gate = record {
  exchange_name = binance;
  account_mode = testnet;
  testnet_adapters_enabled = true;
  exchange_account_trading_enabled = true;
  risk_trading_enabled = true;
  api_key_configured = true;
  manual_testnet_order_enable_confirmed = true;
}

admitted :
    (admission_report test_account (some settings_off) (some secret) false true).passes ≡ true
unfolding admission_report
admitted = refl
