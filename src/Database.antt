-- ===== src/Database.antt =====
-- The tables that the trading services share, as one session sees them, and the rows of
-- backend/app/db/models/observability.py and system_control.py. A query takes the first row that
-- fits, an insertion puts its row last. Times are in seconds.
pub mod Rows
use Prim.Native.String.{String}
use crypto_copy_trading_plat.Prelude.{
  ℕ, Bool, true, false, ◌&&◌, Option, none, some, List, [], ◌∷◌, ◌++◌, ◌==◌, find?, map,
  if◌then◌else◌,
}
use crypto_copy_trading_plat.Prelude.Text.{Text}
use crypto_copy_trading_plat.Decimal.{Decimal}
use crypto_copy_trading_plat.Domain.{
  OrderSide, ExchangeName, AccountMode, ExchangeAccount, TradingSignal, RiskSetting, Position,
  Balance, OrderExecution,
}
use crypto_copy_trading_plat.OrderState.{TransitionLog}

-- A value of a JSON payload that the services write. `number` is the text of a `Decimal`, as `str`
-- prints it; `word` is a text that is no number.
pub data PayloadValue : Type 0 where
  number : Decimal → PayloadValue
  count : ℕ → PayloadValue
  word : Text → PayloadValue
  flag : Bool → PayloadValue
  side : OrderSide → PayloadValue
  exchange : ExchangeName → PayloadValue
  mode : AccountMode → PayloadValue

abbrev pub Payload : Type 0
Payload = List (String × PayloadValue)

-- The severities that audit rows and events are given.
pub data Severity : Type 0 where
  info warning critical : Severity

-- The actions that the modelled services record.
pub data Action : Type 0 where
  emergency_activated emergency_deactivated window_approval_recorded : Action
  order_reconciliation_requested : Action

abbrev pub action_number : Action → ℕ
action_number emergency_activated = 0
action_number emergency_deactivated = 1
action_number window_approval_recorded = 2
action_number order_reconciliation_requested = 3

abbrev pub action_eq : Action → Action → Bool
action_eq a b = action_number a == action_number b

-- `AuditLog`, and `SystemEvent` with its event type as the action.
pub record AuditLog : Type 0 where
  pub id : ℕ
  pub user_id : ℕ
  pub exchange_account_id : Option ℕ
  pub action : Action
  pub severity : Severity
  pub payload : Payload
  pub created_at : ℕ

-- The one row of `system_controls` that the services read, `GLOBAL_SYSTEM_CONTROL_ID`.
pub record SystemControl : Type 0 where
  pub emergency_stop_enabled : Bool
  pub reason : Option Text
  pub changed_by_user_id : Option ℕ

-- `ApiKeySecret`, without the encrypted texts.
pub record ApiKeySecret : Type 0 where
  pub user_id : ℕ
  pub exchange_account_id : ℕ
  pub has_passphrase : Bool

pub record Database : Type 0 where
  pub accounts : List ExchangeAccount
  pub secrets : List ApiKeySecret
  pub signals : List TradingSignal
  pub settings : List RiskSetting
  pub positions : List Position
  pub balances : List Balance
  pub executions : List OrderExecution
  pub log : TransitionLog
  pub control : Option SystemControl
  pub audit_logs : List AuditLog
  pub system_events : List AuditLog

abbrev pub owned_account : ℕ → ℕ → ExchangeAccount → Bool
owned_account user account a = a.id == account && a.user_id == user

-- `get_owned_account` of backend/app/services/exchange_accounts.py
unfoldable pub get_owned_account : ℕ → ℕ → Database → Option ExchangeAccount
get_owned_account user account db = find? (owned_account user account) db.accounts

-- `get_api_key_secret_metadata` of the same file
unfoldable pub get_api_key_secret_metadata : ℕ → ℕ → Database → Option ApiKeySecret
get_api_key_secret_metadata user account db =
    find? (λ s. s.user_id == user && s.exchange_account_id == account) db.secrets

-- The query for the risk settings of an account.
unfoldable pub find_risk_settings : ℕ → ℕ → Database → Option RiskSetting
find_risk_settings user account db =
    find? (λ s. s.user_id == user && s.exchange_account_id == account) db.settings
