-- ===== src/Gate/Checks.antt =====
-- When the gates open, and what they say of one another.
use crypto_copy_trading_plat.Prelude.{◌≡◌, ◌≢◌, ◌↔◌, Bool, true, false, Option, arith}
use crypto_copy_trading_plat.Domain.{mock, testnet, ExchangeAccount, RiskSetting}
use crypto_copy_trading_plat.Database.{ApiKeySecret}
use crypto_copy_trading_plat.Gate.{
  GateInput, check_testnet_order_gate, is_some, risk_trading, unconfirmed_gate, window_plan,
  admission_report,
}

-- What an approved order needs.
pub record IsOpen (g : GateInput) : Type 0 where
  pub routed : g.exchange_name ≢ mock
  pub mode : g.account_mode ≡ testnet
  pub adapters : g.testnet_adapters_enabled ≡ true
  pub account_on : g.exchange_account_trading_enabled ≡ true
  pub risk_on : g.risk_trading_enabled ≡ true
  pub keyed : g.api_key_configured ≡ true
  pub confirmed : g.manual_testnet_order_enable_confirmed ≡ true

-- The gate approves an order exactly when the exchange is not the mock, the account is in test
-- mode, adapters and both trading flags are on, an API key is configured, and the order is
-- confirmed by hand.
check_gate_iff : (g : GateInput) → ((check_testnet_order_gate g).approved ≡ true) ↔ IsOpen g
unfolding check_testnet_order_gate
check_gate_iff g = (λ h. ground arith, λ o. ground arith)

module _ (account : ExchangeAccount) (risk : Option RiskSetting) (secret : Option ApiKeySecret)
    (adapters : Bool) where
  -- Without a confirmation the gate approves nothing.
  pub unconfirmed_blocks : (unconfirmed_gate account risk secret adapters).approved ≡ false
  unfolding unconfirmed_gate
  unconfirmed_blocks = ground arith

  -- The admission report passes exactly when the account can be routed, is in test mode, has risk
  -- settings and an API key, the audit table can be read, and adapters and both trading flags are
  -- off. Its last check, that the gate blocks, holds in every case.
  admission_iff :
      (readable : Bool)
      → ((admission_report account risk secret adapters readable).passes ≡ true) ↔ (
          (account.exchange_name ≢ mock)
          × (account.account_mode ≡ testnet)
          × (adapters ≡ false)
          × (account.trading_enabled ≡ false)
          × (is_some risk ≡ true)
          × (risk_trading risk ≡ false)
          × (is_some secret ≡ true)
          × (readable ≡ true))
  unfolding admission_report
  admission_iff readable = (λ h. ground arith, λ h. ground arith)

  -- An account that passes admission has a plan that is ready, and neither the report nor the plan
  -- authorizes an order.
  admission_plan_ready :
      (readable : Bool)
      → (admission_report account risk secret adapters readable).passes ≡ true
      → ((window_plan account risk secret adapters).ready ≡ true)
        × ((window_plan account risk secret adapters).order_submission_authorized ≡ false)
        × ((admission_report account risk secret adapters readable).order_submission_authorized
            ≡ false)
  unfolding admission_report window_plan
  admission_plan_ready readable h = ground arith
