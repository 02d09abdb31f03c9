-- ===== src/Gate.antt =====
-- The gates before an order on a test network: backend/app/services/testnet_order_gate.py,
-- testnet_order_window.py, testnet_order_admission.py and backend/app/exchanges/testnet_config.py.
pub mod Checks
mod Tests
use crypto_copy_trading_plat.Prelude.{
  ℕ, Bool, true, false, not, ◌&&◌, Option, none, some, List, [], ◌∷◌, ◌++◌, when, is_empty,
  if◌then◌else◌,
}
use crypto_copy_trading_plat.Domain.{
  ExchangeName, binance, okx, bybit, mock, AccountMode, testnet, mode_eq, ExchangeAccount,
  RiskSetting,
}
use crypto_copy_trading_plat.Database.{
  Database, ApiKeySecret, get_owned_account, get_api_key_secret_metadata, find_risk_settings,
}

-- `exchange_name in TESTNET_ENDPOINTS`
unfoldable pub has_testnet_endpoint : ExchangeName → Bool
has_testnet_endpoint binance = true
has_testnet_endpoint bybit = true
has_testnet_endpoint okx = true
has_testnet_endpoint mock = false

-- The messages of the gate, in the order of its tests.
pub data GateReason : Type 0 where
  no_routing not_testnet adapters_off account_off risk_off no_api_key not_confirmed : GateReason

-- `TestnetOrderGateResult`, with `TestnetOrderGateStatus.APPROVED` as `approved ≡ true`.
pub record GateResult : Type 0 where
  pub approved : Bool
  pub reasons : List GateReason

-- The arguments of `check_testnet_order_gate`.
pub record GateInput : Type 0 where
  pub exchange_name : ExchangeName
  pub account_mode : AccountMode
  pub testnet_adapters_enabled : Bool
  pub exchange_account_trading_enabled : Bool
  pub risk_trading_enabled : Bool
  pub api_key_configured : Bool
  pub manual_testnet_order_enable_confirmed : Bool

unfoldable pub gate_reasons : GateInput → List GateReason
unfolding has_testnet_endpoint
gate_reasons g =
    when (not (has_testnet_endpoint g.exchange_name)) no_routing
    ++ (when (not (mode_eq g.account_mode testnet)) not_testnet
        ++ (when (not g.testnet_adapters_enabled) adapters_off
            ++ (when (not g.exchange_account_trading_enabled) account_off
                ++ (when (not g.risk_trading_enabled) risk_off
                    ++ (when (not g.api_key_configured) no_api_key
                        ++ when (not g.manual_testnet_order_enable_confirmed) not_confirmed)))))

unfoldable pub check_testnet_order_gate : GateInput → GateResult
unfolding gate_reasons
check_testnet_order_gate g =
    let reasons = gate_reasons g in record { approved = is_empty reasons; reasons = reasons }

-- The messages of `check_testnet_readiness`.
pub data ReadinessReason : Type 0 where
  no_endpoint mode_not_testnet trading_on key_missing : ReadinessReason

unfoldable pub check_testnet_readiness :
    ExchangeName → AccountMode → Bool → Bool → List ReadinessReason
unfolding has_testnet_endpoint
check_testnet_readiness exchange mode trading_enabled api_key_configured =
    when (not (has_testnet_endpoint exchange)) no_endpoint
    ++ (when (not (mode_eq mode testnet)) mode_not_testnet
        ++ (when trading_enabled trading_on ++ when (not api_key_configured) key_missing))

abbrev pub is_some {ℓ} : {A : Type ℓ} → Option A → Bool
is_some none = false
is_some (some a) = true

-- `risk_settings.trading_enabled if risk_settings else False`
abbrev pub risk_trading : Option RiskSetting → Bool
risk_trading none = false
risk_trading (some s) = s.trading_enabled

-- The gate as the plan and the admission report ask it, with no confirmation.
unfoldable pub unconfirmed_gate :
    ExchangeAccount → Option RiskSetting → Option ApiKeySecret → Bool → GateResult
unfolding check_testnet_order_gate
unconfirmed_gate account risk secret adapters = check_testnet_order_gate (record {
  exchange_name = account.exchange_name;
  account_mode = account.account_mode;
  testnet_adapters_enabled = adapters;
  exchange_account_trading_enabled = account.trading_enabled;
  risk_trading_enabled = risk_trading risk;
  api_key_configured = is_some secret;
  manual_testnet_order_enable_confirmed = false;
})

-- The messages of `_pre_window_blocked_reasons`.
pub data PlanReason : Type 0 where
  plan_mode plan_risk_settings plan_api_key : PlanReason

unfoldable pub pre_window_blocked_reasons : AccountMode → Bool → Bool → List PlanReason
pre_window_blocked_reasons mode risk_settings_exist api_key_configured =
    when (not (mode_eq mode testnet)) plan_mode
    ++ (when (not risk_settings_exist) plan_risk_settings
        ++ when (not api_key_configured) plan_api_key)

-- `OrderWindowPlan`, with `READY_FOR_SEPARATE_APPROVAL` as `ready ≡ true`. Of the operator's steps
-- the variable one is kept, the gate's reasons.
pub record OrderWindowPlan : Type 0 where
  pub exchange_account_id : ℕ
  pub ready : Bool
  pub blocked_reasons : List PlanReason
  pub gate_reasons_now : List GateReason
  pub mutations_allowed : Bool
  pub order_submission_authorized : Bool

unfoldable pub window_plan :
    ExchangeAccount → Option RiskSetting → Option ApiKeySecret → Bool → OrderWindowPlan
unfolding unconfirmed_gate pre_window_blocked_reasons
window_plan account risk secret adapters =
    let blocked = pre_window_blocked_reasons account.account_mode (is_some risk) (is_some secret) in
    record {
      exchange_account_id = account.id;
      ready = is_empty blocked;
      blocked_reasons = blocked;
      gate_reasons_now = (unconfirmed_gate account risk secret adapters).reasons;
      mutations_allowed = false;
      order_submission_authorized = false;
    }

-- `none` is the error that the account was not found.
unfoldable pub build_testnet_order_window_plan : ℕ → ℕ → Bool → Database → Option OrderWindowPlan
unfolding window_plan get_owned_account get_api_key_secret_metadata find_risk_settings
build_testnet_order_window_plan user account_id adapters db =
    elim (get_owned_account user account_id db) [
      | none ↦ none
      | some account ↦ some (
          window_plan account (find_risk_settings user account.id db)
            (get_api_key_secret_metadata user account.id db) adapters)
    ]

-- The checks of the admission report, in their order.
pub data AdmissionCheck : Type 0 where
  supports_routing mode_is_testnet adapters_disabled account_disabled settings_exist :
      AdmissionCheck
  risk_disabled api_key_exists audit_readable gate_blocks : AdmissionCheck

-- `TestnetOrderAdmissionReport`, with `PASS` as `passes ≡ true`.
pub record AdmissionReport : Type 0 where
  pub exchange_account_id : ℕ
  pub passes : Bool
  pub checks : List (AdmissionCheck × Bool)
  pub gate_reasons_now : List GateReason
  pub read_only : Bool
  pub order_submission_authorized : Bool

-- All checks are required.
unfoldable pub all_pass : List (AdmissionCheck × Bool) → Bool
all_pass [] = true
all_pass ((c, b) ∷ cs) = b && all_pass cs

-- Whether the audit table can be read is what its probe answers.
unfoldable pub admission_checks :
    ExchangeAccount
    → Option RiskSetting
    → Option ApiKeySecret
    → Bool
    → Bool
    → List (AdmissionCheck × Bool)
unfolding unconfirmed_gate has_testnet_endpoint
admission_checks account risk secret adapters readable =
    (supports_routing, has_testnet_endpoint account.exchange_name)
    ∷ (mode_is_testnet, mode_eq account.account_mode testnet)
    ∷ (adapters_disabled, not adapters)
    ∷ (account_disabled, not account.trading_enabled)
    ∷ (settings_exist, is_some risk)
    ∷ (risk_disabled, is_some risk && not (risk_trading risk))
    ∷ (api_key_exists, is_some secret)
    ∷ (audit_readable, readable)
    ∷ (gate_blocks, not (unconfirmed_gate account risk secret adapters).approved)
    ∷ []

unfoldable pub admission_report :
    ExchangeAccount → Option RiskSetting → Option ApiKeySecret → Bool → Bool → AdmissionReport
unfolding admission_checks all_pass
admission_report account risk secret adapters readable =
    let checks = admission_checks account risk secret adapters readable in
    record {
      exchange_account_id = account.id;
      passes = all_pass checks;
      checks = checks;
      gate_reasons_now = (unconfirmed_gate account risk secret adapters).reasons;
      read_only = true;
      order_submission_authorized = false;
    }

unfoldable pub build_testnet_order_admission_report :
    ℕ → ℕ → Bool → Bool → Database → Option AdmissionReport
unfolding admission_report get_owned_account get_api_key_secret_metadata find_risk_settings
build_testnet_order_admission_report user account_id adapters readable db =
    elim (get_owned_account user account_id db) [
      | none ↦ none
      | some account ↦ some (
          admission_report account (find_risk_settings user account.id db)
            (get_api_key_secret_metadata user account.id db) adapters readable)
    ]
