-- ===== src/Domain.antt =====
-- The enumerations and rows of backend/app/db/models/trading.py and exchange_account.py. A row's
-- id is the 128-bit number of its UUID; the columns of timestamps are left out.
use Prim.Native.String.{String}
use crypto_copy_trading_plat.Prelude.{
  ℕ, zero, suc, ◌+◌, ◌/◌, ◌%◌, ◌^◌, Bool, true, false, Option, List, [], ◌∷◌, ◌++◌, ◌==◌, ltb,
  if◌then◌else◌,
}
use crypto_copy_trading_plat.Prelude.Text.{Text, codes, text_eq}
use crypto_copy_trading_plat.Decimal.{Decimal}
use crypto_copy_trading_plat.Json.{Json}

pub data OrderSide : Type 0 where
  buy sell : OrderSide

pub data OrderType : Type 0 where
  market limit : OrderType

pub data RiskDecision : Type 0 where
  passed rejected : RiskDecision

pub data OrderExecutionStatus : Type 0 where
  created risk_passed submitted accepted partially_filled : OrderExecutionStatus
  filled cancelled rejected failed timeout : OrderExecutionStatus

pub data ExchangeName : Type 0 where
  binance okx bybit mock : ExchangeName

pub data AccountMode : Type 0 where
  simulation testnet real : AccountMode

-- The members of an enumeration, numbered: equality of members is equality of the numbers.
abbrev pub ordinal : OrderExecutionStatus → ℕ
ordinal created = 0
ordinal risk_passed = 1
ordinal submitted = 2
ordinal accepted = 3
ordinal partially_filled = 4
ordinal filled = 5
ordinal cancelled = 6
ordinal rejected = 7
ordinal failed = 8
ordinal timeout = 9

abbrev pub status_eq : OrderExecutionStatus → OrderExecutionStatus → Bool
status_eq a b = ordinal a == ordinal b

abbrev pub side_eq : OrderSide → OrderSide → Bool
side_eq buy buy = true
side_eq sell sell = true
side_eq _ _ = false

abbrev pub exchange_eq : ExchangeName → ExchangeName → Bool
exchange_eq binance binance = true
exchange_eq okx okx = true
exchange_eq bybit bybit = true
exchange_eq mock mock = true
exchange_eq _ _ = false

abbrev pub mode_eq : AccountMode → AccountMode → Bool
mode_eq simulation simulation = true
mode_eq testnet testnet = true
mode_eq real real = true
mode_eq _ _ = false

-- The messages of `check_order_risk`, in the order of its tests.
pub data RiskReason : Type 0 where
  only_simulation account_disabled settings_disabled symbol_blocked : RiskReason
  below_minimum above_maximum notional_exceeded : RiskReason

pub record RiskCheckResult : Type 0 where
  pub decision : RiskDecision
  pub reasons : List RiskReason

-- Either the text that a client sent, or `sig-<8 digits>-acct-<8 digits>` by the two groups of
-- hexadecimal digits that it holds.
pub data ClientOrderId : Type 0 where
  given : Text → ClientOrderId
  derived : ℕ → ℕ → ClientOrderId

-- A hexadecimal digit, as `str` of a UUID writes it.
abbrev hex_digit : ℕ → ℕ
hex_digit d = if ltb d 10 then b'0' + d else d + 87

-- The last digits of a number, the foremost first.
unfoldable pub hex_digits : ℕ → ℕ → Text
hex_digits zero n = []
hex_digits (suc k) n = hex_digit (n / 16 ^ k % 16) ∷ hex_digits k n

-- The text of the column `client_order_id`.
unfoldable pub client_id_text : ClientOrderId → Text
unfolding hex_digits
client_id_text (given s) = s
client_id_text (derived a b) =
    codes "sig-" ++ (hex_digits 8 a ++ (codes "-acct-" ++ hex_digits 8 b))

unfoldable pub client_id_eq : ClientOrderId → ClientOrderId → Bool
unfolding client_id_text text_eq
client_id_eq a b = text_eq (client_id_text a) (client_id_text b)

-- `id[:8]`: the first 8 of the 32 hexadecimal digits.
abbrev pub id_prefix : ℕ → ℕ
id_prefix n = n / 2 ^ 96

-- The id that an exchange gives: its text, or `mock-<client order id>` of the mock exchange.
pub data ExchangeOrderId : Type 0 where
  exchange_id : Text → ExchangeOrderId
  mock_id : ClientOrderId → ExchangeOrderId

-- The text of the column `exchange_order_id`.
unfoldable pub exchange_id_text : ExchangeOrderId → Text
unfolding client_id_text
exchange_id_text (exchange_id t) = t
exchange_id_text (mock_id c) = codes "mock-" ++ client_id_text c

-- What an exchange answers to an order: a JSON document, or the order of the mock exchange
-- (backend/app/exchanges/mock.py).
pub record MockOrder : Type 0 where
  pub exchange_order_id : ExchangeOrderId
  pub client_order_id : ClientOrderId
  pub symbol : Text
  pub side : OrderSide
  pub order_type : OrderType
  pub quantity : Decimal
  pub price : Option Decimal
  pub status : OrderExecutionStatus

pub data ExchangeResponse : Type 0 where
  document : Json → ExchangeResponse
  mock_order : MockOrder → ExchangeResponse

-- What `error_message` is set to: the joined risk reasons, or a fixed text.
pub data ErrorMessage : Type 0 where
  risk_reasons : List RiskReason → ErrorMessage
  zero_quantity_order exchange_request_failed : ErrorMessage

pub record TradingSignal : Type 0 where
  pub id : ℕ
  pub user_id : ℕ
  pub symbol : Text
  pub side : OrderSide
  pub order_type : OrderType
  pub price : Option Decimal
  pub quantity : Option Decimal
  pub target_position_quantity : Option Decimal

pub record RiskSetting : Type 0 where
  pub id : ℕ
  pub user_id : ℕ
  pub exchange_account_id : ℕ
  pub trading_enabled : Bool
  pub max_single_order_notional : Option Decimal
  pub min_order_quantity : Option Decimal
  pub max_order_quantity : Option Decimal
  pub blocked_symbols : List Text

pub record Position : Type 0 where
  pub user_id : ℕ
  pub exchange_account_id : ℕ
  pub symbol : Text
  pub quantity : Decimal

pub record Balance : Type 0 where
  pub user_id : ℕ
  pub exchange_account_id : ℕ
  pub asset : Text
  pub available_quantity : Decimal
  pub locked_quantity : Decimal
  pub total_quantity : Decimal

-- The id is missing until the row is flushed.
pub record OrderExecution : Type 0 where
  pub id : Option ℕ
  pub user_id : ℕ
  pub signal_id : ℕ
  pub exchange_account_id : ℕ
  pub exchange_name : ExchangeName
  pub client_order_id : ClientOrderId
  pub exchange_order_id : Option ExchangeOrderId
  pub symbol : Text
  pub side : OrderSide
  pub order_type : OrderType
  pub price : Option Decimal
  pub quantity : Decimal
  pub status : OrderExecutionStatus
  pub risk_result : Option RiskCheckResult
  pub exchange_response : Option ExchangeResponse
  pub error_message : Option ErrorMessage

pub record OrderExecutionTransition : Type 0 where
  pub user_id : ℕ
  pub order_execution_id : ℕ
  pub sequence_number : ℕ
  pub from_status : Option OrderExecutionStatus
  pub to_status : OrderExecutionStatus
  pub reason : String
  pub details : List (String × Text)

pub record ExchangeAccount : Type 0 where
  pub id : ℕ
  pub user_id : ℕ
  pub exchange_name : ExchangeName
  pub account_mode : AccountMode
  pub trading_enabled : Bool
  pub is_active : Bool
