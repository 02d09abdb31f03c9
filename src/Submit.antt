-- ===== src/Submit.antt =====
-- The submission of an order to a test network: what a client sends
-- (backend/app/schemas/trading.py), the context that backend/app/services/testnet_order_api.py
-- makes of it, and the errors that the handler of backend/app/api/v1/orders.py turns into answers.
pub mod Request
pub mod Row
pub mod Handler
pub mod Covered
pub mod Placed
pub mod Once
pub mod Stranded
pub mod Kept
pub mod Sending
mod Tests
use crypto_copy_trading_plat.Prelude.{ℕ, Bool, Option, List}
use crypto_copy_trading_plat.Prelude.Text.{Text}
use crypto_copy_trading_plat.Decimal.{Decimal}
use crypto_copy_trading_plat.Domain.{
  ExchangeName, OrderSide, OrderType, OrderExecution, ExchangeAccount,
}
use crypto_copy_trading_plat.Gate.{GateReason, GateResult}
use crypto_copy_trading_plat.Approval.{WindowReason}
use crypto_copy_trading_plat.HttpClient.{Credentials, ClientError}
use crypto_copy_trading_plat.OrderState.{OrderStateError}

-- `TestnetOrderSubmitRequest`
pub record SubmitRequest : Type 0 where
  pub exchange_account_id : ℕ
  pub symbol : Text
  pub side : OrderSide
  pub order_type : OrderType
  pub quantity : Decimal
  pub price : Option Decimal
  pub client_order_id : Text
  pub manual_testnet_order_enable_confirmed : Bool

-- `TestnetOrderRequestInput`
pub record OrderInput : Type 0 where
  pub exchange_name : ExchangeName
  pub symbol : Text
  pub side : OrderSide
  pub order_type : OrderType
  pub quantity : Decimal
  pub client_order_id : Text
  pub price : Option Decimal

-- `TestnetOrderApiContext`; of the authorization the id of its approval is kept.
pub record Context : Type 0 where
  pub account : ExchangeAccount
  pub order : OrderInput
  pub gate_result : GateResult
  pub credentials : Credentials
  pub approval_id : ℕ

-- The reasons of `TestnetOrderApiBlockedError`.
pub data BlockedReasons : Type 0 where
  gate_blocks : List GateReason → BlockedReasons
  window_blocks : List WindowReason → BlockedReasons
  key_missing : BlockedReasons

-- What is raised before the exchange is called.
pub data SubmitError : Type 0 where
  stop_enabled account_not_found idempotency_conflict risk_rejected : SubmitError
  blocked : BlockedReasons → SubmitError
  order_state : OrderStateError → SubmitError

-- `TestnetSubmissionRecord`
pub record Submission : Type 0 where
  pub execution : OrderExecution
  pub idempotent_replay : Bool
