-- ===== src/Engine.antt =====
-- backend/app/services/order_engine.py: one signal executed once on one account, against the mock
-- exchange (`place_order` of backend/app/exchanges/mock.py).
pub mod Placement
pub mod Outcome
pub mod Filled
pub mod Replay
pub mod Collides
pub mod Target
mod Tests
use Prim.Native.String.{String}
use crypto_copy_trading_plat.Prelude.{
  ℕ, Bool, true, false, not, ◌&&◌, Option, none, some, List, [], ◌∷◌, ◌++◌, find?, is_empty, ◌==◌,
  if◌then◌else◌,
}
use crypto_copy_trading_plat.Prelude.Int.{pos, ltb_ℤ}
use crypto_copy_trading_plat.Prelude.Exec.{Exec, Result, ok, err, modify, ◌>>=◌, ◌>>◌}
use crypto_copy_trading_plat.Decimal.{Decimal}
use crypto_copy_trading_plat.Domain.{
  OrderSide, RiskDecision, passed, RiskCheckResult, OrderExecutionStatus, created, risk_passed,
  submitted, filled, failed, ClientOrderId, derived, client_id_eq, id_prefix, mock_id, MockOrder,
  mock_order, ErrorMessage, risk_reasons, zero_quantity_order, TradingSignal, OrderExecution,
  ExchangeAccount, Position,
}
use crypto_copy_trading_plat.Database.{Database, get_owned_account}
use crypto_copy_trading_plat.OrderState.{
  Tracked, OrderStateError, Step, record_initial_order_state, transition_order_execution, flush,
}
use crypto_copy_trading_plat.Risk.{RiskOrderInput, get_or_create_risk_settings, check_order_risk}
use crypto_copy_trading_plat.Position.{
  get_or_create_position, calculate_delta, apply_fill, PositionDelta,
}
use crypto_copy_trading_plat.Emergency.{new_orders_allowed}

pub data EngineError : Type 0 where
  stop_enabled signal_not_found account_not_found quantity_required integrity : EngineError
  order_state : OrderStateError → EngineError

-- The failure types of the order-failure alert.
pub data FailureType : Type 0 where
  risk_rejected unknown : FailureType

pub record FailureAlert : Type 0 where
  pub status : OrderExecutionStatus
  pub failure_type : FailureType

-- `place_order` of the mock exchange fills every order.
unfoldable pub place_order : OrderExecution → MockOrder
place_order e = record {
  exchange_order_id = mock_id e.client_order_id;
  client_order_id = e.client_order_id;
  symbol = e.symbol;
  side = e.side;
  order_type = e.order_type;
  quantity = e.quantity;
  price = e.price;
  status = filled;
}

-- The query of `_get_owned_signal`.
unfoldable pub get_owned_signal : ℕ → ℕ → Database → Option TradingSignal
get_owned_signal user signal db = find? (λ s. s.id == signal && s.user_id == user) db.signals

abbrev pub is_execution_of : ℕ → ℕ → OrderExecution → Bool
is_execution_of signal account e = e.signal_id == signal && e.exchange_account_id == account

unfoldable pub side_or : Option OrderSide → OrderSide → OrderSide
side_or none s = s
side_or (some s) _ = s

-- `_resolve_side_and_quantity`: the signal's own, or the way from the position to its target. The
-- position is made where it is missing.
resolve_for :
    Option Decimal
    → Option Decimal
    → TradingSignal
    → ExchangeAccount
    → List Position
    → Option (OrderSide × Decimal × List Position)
resolve_for none none signal account rows = none
resolve_for none (some quantity) signal account rows = some (signal.side, quantity, rows)
resolve_for (some target) quantity signal account rows =
    let (p, rows') = get_or_create_position signal.user_id account.id signal.symbol rows in
    let delta = calculate_delta signal.symbol p.quantity target in
    some (side_or delta.side signal.side, delta.delta_quantity, rows')

unfoldable pub resolve_side_and_quantity :
    TradingSignal → ExchangeAccount → List Position → Option (OrderSide × Decimal × List Position)
unfolding resolve_for side_or
resolve_side_and_quantity signal account rows =
    resolve_for signal.target_position_quantity signal.quantity signal account rows

-- The execution row as it is flushed, with the id that `new_uuid` returns.
unfoldable pub new_execution :
    ℕ → ℕ → TradingSignal → ExchangeAccount → OrderSide → Decimal → OrderExecution
new_execution id user signal account side quantity = record {
  id = some id;
  user_id = user;
  signal_id = signal.id;
  exchange_account_id = account.id;
  exchange_name = account.exchange_name;
  client_order_id = derived (id_prefix signal.id) (id_prefix account.id);
  exchange_order_id = none;
  symbol = signal.symbol;
  side = side;
  order_type = signal.order_type;
  price = signal.price;
  quantity = quantity;
  status = created;
  risk_result = none;
  exchange_response = none;
  error_message = none;
}

-- `risk_result.decision != RiskDecision.PASSED`
abbrev pub is_rejected : RiskCheckResult → Bool
is_rejected r = elim r.decision [ passed ↦ false | RiskDecision.rejected ↦ true ]

-- `"; ".join(reasons) or "zero quantity order"`
abbrev pub failure_message : RiskCheckResult → ErrorMessage
failure_message r = if is_empty r.reasons then zero_quantity_order else risk_reasons r.reasons

abbrev pub set_risk_result : RiskCheckResult → Tracked → Tracked
set_risk_result r m = record m { execution = record m.execution { risk_result = some r } }

abbrev pub set_error : ErrorMessage → Tracked → Tracked
set_error e m = record m { execution = record m.execution { error_message = some e } }

abbrev pub set_response : MockOrder → Tracked → Tracked
set_response o m = record m {
  execution = record m.execution {
    exchange_order_id = some o.exchange_order_id;
    exchange_response = some (mock_order o);
  };
}

-- A move and the commit behind it.
unfoldable pub commit_move : OrderExecutionStatus → String → Step (Unit {0})
commit_move to reason = transition_order_execution to reason [] >>= λ _. modify flush

-- The risk check did not pass, or there is nothing to trade.
unfoldable pub fail_order : RiskCheckResult → Step (Unit {0})
unfolding commit_move
fail_order risk =
    modify (set_error (failure_message risk))
    >> commit_move failed (if is_rejected risk then "risk_rejected" else "zero_quantity")

-- The order is sent to the mock exchange, which fills it.
unfoldable pub fill_order : Step (Unit {0})
unfolding place_order commit_move
fill_order =
    commit_move risk_passed "risk_passed"
    >> (commit_move submitted "mock_order_submitted"
        >> (modify (λ m. set_response (place_order m.execution) m)
            >> commit_move filled "mock_order_filled"))

-- `risk_result.decision != PASSED or quantity <= 0`
unfoldable pub must_fail : RiskCheckResult → Decimal → Bool
must_fail risk quantity = if is_rejected risk then true else not (ltb_ℤ (pos 0) quantity)

-- The life of a flushed execution, from its first row to the last commit.
unfoldable pub place : RiskCheckResult → Decimal → Step (Unit {0})
unfolding fail_order fill_order must_fail
place risk quantity =
    (record_initial_order_state "execution_created" >>= λ _. modify flush)
    >> (modify (set_risk_result risk)
        >> (if must_fail risk quantity then fail_order risk else fill_order))

unfoldable pub failure_alert : Bool → RiskCheckResult → OrderExecution → Option FailureAlert
failure_alert has_runtime risk e =
    if has_runtime
    then some (record {
      status = e.status;
      failure_type = if is_rejected risk then risk_rejected else unknown;
    })
    else none

abbrev pub Outcome : Type 0
Outcome = OrderExecution × Option FailureAlert

-- The end of the call: the execution's row in its last form, and the position after a fill.
unfoldable pub finish :
    Result OrderStateError (Unit {0}) × Tracked
    → Bool
    → RiskCheckResult
    → Database
    → Result EngineError Outcome × Database
unfolding must_fail failure_alert
finish (err e, m) has_runtime risk db =
    (err (order_state e), record db { executions = db.executions ++ m.execution ∷ []; log = m.log })
finish (ok _, m) has_runtime risk db =
    let e = m.execution in
    let db' = record db { executions = db.executions ++ e ∷ []; log = m.log } in
    if must_fail risk e.quantity then (ok (e, failure_alert has_runtime risk e), db') else (
      ok (e, none),
      record db' {
        positions =
            apply_fill e.user_id e.exchange_account_id e.symbol e.side e.quantity db'.positions;
      },
    )

-- The ids that `new_uuid` returns for the rows that the call may add, and whether the caller
-- passed an alert runtime.
pub record Supply : Type 0 where
  pub execution_id : ℕ
  pub settings_id : ℕ
  pub has_runtime : Bool

-- The order of the risk check.
abbrev pub risk_input : OrderExecution → RiskOrderInput
risk_input e = record { symbol = e.symbol; side = e.side; quantity = e.quantity; price = e.price }

-- The part behind the flush of the new row; the client order id is a unique column.
unfoldable pub execute_new :
    Supply → ExchangeAccount → OrderExecution → Database → Result EngineError Outcome × Database
unfolding finish
execute_new supply account e db =
    elim (find? (λ x. client_id_eq x.client_order_id e.client_order_id) db.executions) [
      | some _ ↦ (err integrity, db)
      | none ↦
          let (settings, db') =
            get_or_create_risk_settings supply.settings_id e.user_id account.id db in
          let risk = check_order_risk account settings (risk_input e) false in
          finish (place risk e.quantity (record { execution = e; log = db'.log }))
            supply.has_runtime risk db'
    ]

-- The part behind the look-up of the signal and the account.
unfoldable pub execute_owned :
    Supply → ℕ → TradingSignal → ExchangeAccount → Database → Result EngineError Outcome × Database
unfolding execute_new new_execution
execute_owned supply user signal account db =
    elim (find? (is_execution_of signal.id account.id) db.executions) [
      | some e ↦ (ok (e, none), db)
      | none ↦ elim (resolve_side_and_quantity signal account db.positions) [
        | none ↦ (err quantity_required, db)
        | some (side, quantity, rows) ↦
            execute_new supply account
              (new_execution supply.execution_id user signal account side quantity)
              (record db { positions = rows })
      ]
    ]

unfoldable pub execute_signal_for_account : Supply → ℕ → ℕ → ℕ → Exec Database EngineError Outcome
execute_signal_for_account supply user signal_id account_id db =
    if new_orders_allowed db
    then elim (get_owned_signal user signal_id db) [
      | none ↦ (err signal_not_found, db)
      | some signal ↦ elim (get_owned_account user account_id db) [
        | none ↦ (err account_not_found, db)
        | some account ↦ execute_owned supply user signal account db
      ]
    ]
    else (err stop_enabled, db)
