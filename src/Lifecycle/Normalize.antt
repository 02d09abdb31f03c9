-- ===== src/Lifecycle/Normalize.antt =====
-- backend/app/services/testnet_order_lifecycle.py, the reading of an event: the messages of three
-- user streams and the answers of three private requests.
use crypto_copy_trading_plat.Prelude.{
  ℕ, Bool, true, false, not, ◌||◌, Option, none, some, List, [], ◌∷◌, ◌==◌, if◌then◌else◌,
}
use crypto_copy_trading_plat.Prelude.Int.{magnitude}
use crypto_copy_trading_plat.Prelude.Text.{Text, codes, text_eq}
use crypto_copy_trading_plat.Prelude.Exec.{Exec, Result, ok, err, and_then}
use crypto_copy_trading_plat.Json.{
  Json, null, boolean, int, float, text, array, object, nil, cons, Fields, end, field,
}
use crypto_copy_trading_plat.Domain.{
  ExchangeName, binance, bybit, okx, mock, OrderExecutionStatus, submitted, accepted,
  partially_filled, filled, cancelled, timeout,
}
use crypto_copy_trading_plat.Database.{Database}
use crypto_copy_trading_plat.Response.{get_field, mapping, optional_text, is_success_code}
use crypto_copy_trading_plat.Lifecycle.{
  OrderEvent, EventError, unsupported_exchange, invalid_binance_event, lookup_rejected,
  unsupported_status, data_missing, invalid_quantity, LifecycleResult, ignored_result,
  non_order_event, apply,
}

-- Python's own operations on values: `str` of a value that is no text, `bool` of a `Decimal` or of
-- an object that no JSON text holds, and `str(Decimal(s))`, which is none where `Decimal` raises.
pub record Python : Type 0 where
  pub show : Json → Text
  pub is_true : Json → Bool
  pub decimal_text : Text → Option Text

pub data EventType : Type 0 where
  order_event balance_event position_event unknown_event : EventType

-- `TestnetUserStreamEvent`
pub record UserStreamEvent : Type 0 where
  pub exchange_name : ExchangeName
  pub event_type : EventType
  pub raw_payload : Fields

abbrev pub Normalized : Type 0 → Type 0
Normalized = Result EventError

abbrev pub StatusTable : Type 0
StatusTable = List (Text × OrderExecutionStatus)

abbrev pub binance_statuses : StatusTable
binance_statuses =
    (codes "NEW", accepted)
    ∷ (codes "PENDING_NEW", submitted)
    ∷ (codes "PARTIALLY_FILLED", partially_filled)
    ∷ (codes "FILLED", filled)
    ∷ (codes "CANCELED", cancelled)
    ∷ (codes "REJECTED", OrderExecutionStatus.rejected)
    ∷ (codes "EXPIRED", timeout)
    ∷ (codes "EXPIRED_IN_MATCH", timeout)
    ∷ []

abbrev pub bybit_statuses : StatusTable
bybit_statuses =
    (codes "New", accepted)
    ∷ (codes "PartiallyFilled", partially_filled)
    ∷ (codes "Filled", filled)
    ∷ (codes "Cancelled", cancelled)
    ∷ (codes "Rejected", OrderExecutionStatus.rejected)
    ∷ (codes "Deactivated", cancelled)
    ∷ []

abbrev pub okx_statuses : StatusTable
okx_statuses =
    (codes "live", accepted)
    ∷ (codes "partially_filled", partially_filled)
    ∷ (codes "filled", filled)
    ∷ (codes "canceled", cancelled)
    ∷ (codes "mmp_canceled", cancelled)
    ∷ []

-- `mapping.get(text)`, and the error of `_status` where there is no entry.
unfoldable pub look_up : StatusTable → Text → Normalized OrderExecutionStatus
look_up [] t = err unsupported_status
look_up (row ∷ rows) t = if text_eq row.0 t then ok row.1 else look_up rows t

-- `_first_mapping`
unfoldable pub first_mapping : Option Json → Normalized Fields
first_mapping (some (array (cons (object fs) xs))) = ok fs
first_mapping _ = err data_missing

-- `{"data": value}`
abbrev pub data_only : Option Json → Fields
data_only none = field (codes "data") null end
data_only (some v) = field (codes "data") v end

abbrev pub is_text : Text → Option Json → Bool
is_text t (some (text s)) = text_eq s t
is_text t _ = false

-- `apply` on what the reading of a message returns.
unfoldable pub apply_normalized :
    ℕ → ℕ → Normalized OrderEvent → Exec Database EventError LifecycleResult
unfolding apply
apply_normalized user account (err e) db = (err e, db)
apply_normalized user account (ok ev) db = apply user account ev "testnet_user_stream_event" db

module _ (py : Python) where
  -- `str(value)`
  abbrev pub text_of : Option Json → Text
  text_of none = codes "None"
  text_of (some (text t)) = t
  text_of (some v) = py.show v

  -- `_status`
  unfoldable pub status_of : StatusTable → Option Json → Normalized OrderExecutionStatus
  unfolding look_up
  status_of table raw = look_up table (text_of raw)

  -- `bool(value)`
  unfoldable pub is_truthy : Option Json → Bool
  is_truthy none = false
  is_truthy (some null) = false
  is_truthy (some (boolean b)) = b
  is_truthy (some (int n)) = not (magnitude n == 0)
  is_truthy (some (float t)) = not (text_eq t (codes "0.0") || text_eq t (codes "-0.0"))
  is_truthy (some (text [])) = false
  is_truthy (some (text (c ∷ t))) = true
  is_truthy (some (array nil)) = false
  is_truthy (some (array (cons x xs))) = true
  is_truthy (some (object end)) = false
  is_truthy (some (object (field k v fs))) = true
  is_truthy (some v) = py.is_true v

  -- `a or b`
  unfoldable pub first_truthy : Option Json → Option Json → Option Json
  unfolding is_truthy
  first_truthy a b = if is_truthy a then a else b

  read_quantity : Text → Normalized (Option Text)
  read_quantity s = elim (py.decimal_text s) [ none ↦ err invalid_quantity | some q ↦ ok (some q) ]

  -- `_optional_decimal`
  unfoldable pub optional_decimal : Option Json → Normalized (Option Text)
  unfolding read_quantity
  optional_decimal none = ok none
  optional_decimal (some null) = ok none
  optional_decimal (some (text [])) = ok none
  optional_decimal (some v) = read_quantity (text_of (some v))

  -- The event of the values that an exchange gives: its two order ids, its status, its event id and
  -- the quantity filled. The status is read before the quantity.
  unfoldable pub event_of :
      ExchangeName
      → StatusTable
      → Option Json
      → Option Json
      → Option Json
      → Option Json
      → Option Json
      → Normalized OrderEvent
  unfolding status_of optional_decimal optional_text
  event_of name table client exchange status event quantity = and_then (status_of table status) λ s.
      and_then (optional_decimal quantity) λ q. ok record {
        exchange_name = name;
        client_order_id = optional_text py.show client;
        exchange_order_id = optional_text py.show exchange;
        status = s;
        event_id = optional_text py.show event;
        filled_quantity = q;
      }

  unfoldable pub normalize_binance : Fields → Normalized OrderEvent
  unfolding event_of get_field
  normalize_binance r =
      if is_text (codes "executionReport") (get_field (codes "e") r)
      then event_of binance binance_statuses (get_field (codes "c") r) (get_field (codes "i") r)
          (get_field (codes "X") r) (get_field (codes "E") r) (get_field (codes "z") r)
      else err invalid_binance_event

  unfoldable pub normalize_bybit : Fields → Normalized OrderEvent
  unfolding event_of get_field first_mapping first_truthy
  normalize_bybit r = and_then (first_mapping (get_field (codes "data") r)) λ row.
      event_of bybit bybit_statuses (get_field (codes "orderLinkId") row)
        (get_field (codes "orderId") row) (get_field (codes "orderStatus") row)
        (first_truthy (get_field (codes "id") r) (get_field (codes "creationTime") r))
        (get_field (codes "cumExecQty") row)

  unfoldable pub normalize_okx : Fields → Normalized OrderEvent
  unfolding event_of get_field first_mapping first_truthy
  normalize_okx r = and_then (first_mapping (get_field (codes "data") r)) λ row.
      event_of okx okx_statuses (get_field (codes "clOrdId") row) (get_field (codes "ordId") row)
        (get_field (codes "state") row)
        (first_truthy (get_field (codes "uTime") row) (get_field (codes "cTime") row))
        (get_field (codes "accFillSz") row)

  unfoldable pub normalize_binance_rest : Fields → Normalized OrderEvent
  unfolding event_of get_field
  normalize_binance_rest r =
      event_of binance binance_statuses (get_field (codes "clientOrderId") r)
        (get_field (codes "orderId") r) (get_field (codes "status") r)
        (get_field (codes "updateTime") r) (get_field (codes "executedQty") r)

  unfoldable pub normalize_bybit_rest : Fields → Normalized OrderEvent
  unfolding normalize_bybit is_success_code get_field mapping
  normalize_bybit_rest r =
      if is_success_code (get_field (codes "retCode") r)
      then normalize_bybit
          (data_only (get_field (codes "list") (mapping (get_field (codes "result") r))))
      else err lookup_rejected

  unfoldable pub normalize_okx_rest : Fields → Normalized OrderEvent
  unfolding normalize_okx is_success_code get_field
  normalize_okx_rest r =
      if is_success_code (get_field (codes "code") r)
      then normalize_okx (data_only (get_field (codes "data") r))
      else err lookup_rejected

  -- `normalize_testnet_user_stream_order_event`
  unfoldable pub normalize_stream_event : ExchangeName → Fields → Normalized OrderEvent
  unfolding normalize_binance normalize_bybit normalize_okx
  normalize_stream_event binance r = normalize_binance r
  normalize_stream_event bybit r = normalize_bybit r
  normalize_stream_event okx r = normalize_okx r
  normalize_stream_event mock r = err unsupported_exchange

  -- `normalize_testnet_rest_order_status`
  unfoldable pub normalize_rest_status : ExchangeName → Fields → Normalized OrderEvent
  unfolding normalize_binance_rest normalize_bybit_rest normalize_okx_rest
  normalize_rest_status binance r = normalize_binance_rest r
  normalize_rest_status bybit r = normalize_bybit_rest r
  normalize_rest_status okx r = normalize_okx_rest r
  normalize_rest_status mock r = err unsupported_exchange

  -- `handle_user_stream_event`, by the event's type
  unfoldable pub handle_typed :
      EventType → ℕ → ℕ → UserStreamEvent → Exec Database EventError LifecycleResult
  unfolding normalize_stream_event apply_normalized
  handle_typed order_event user account event db =
      apply_normalized user account (normalize_stream_event event.exchange_name event.raw_payload)
        db
  handle_typed _ user account event db = (ok (ignored_result non_order_event), db)

  unfoldable pub handle_user_stream_event :
      ℕ → ℕ → UserStreamEvent → Exec Database EventError LifecycleResult
  unfolding handle_typed
  handle_user_stream_event user account event db =
      handle_typed event.event_type user account event db
