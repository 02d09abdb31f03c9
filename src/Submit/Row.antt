-- ===== src/Submit/Row.antt =====
-- backend/app/services/testnet_order_persistence.py, `create_or_get_testnet_submission_execution`:
-- the execution of a submission, found by its client order id or made and checked against risk.
use crypto_copy_trading_plat.Prelude.{
  ℕ, Bool, true, false, ◌&&◌, Option, none, some, [], ◌∷◌, ◌++◌, ◌==◌, find?, if◌then◌else◌,
}
use crypto_copy_trading_plat.Prelude.Text.{Text, upper}
use crypto_copy_trading_plat.Prelude.Exec.{Exec, Result, ok, err, modify, ◌>>◌}
use crypto_copy_trading_plat.Domain.{
  exchange_eq, RiskCheckResult, created, risk_passed, submitted, given, client_id_eq,
  OrderExecutionStatus, risk_reasons, TradingSignal, OrderExecution,
}
use crypto_copy_trading_plat.Database.{Database}
use crypto_copy_trading_plat.OrderState.{
  Tracked, OrderStateError, Step, record_initial_order_state, transition_order_execution, flush,
}
use crypto_copy_trading_plat.Risk.{RiskOrderInput, get_or_create_risk_settings, check_order_risk}
use crypto_copy_trading_plat.Engine.{is_rejected, set_risk_result, set_error}
use crypto_copy_trading_plat.Orders.{add_execution}
use crypto_copy_trading_plat.Submit.{
  OrderInput, Context, SubmitError, idempotency_conflict, risk_rejected, order_state, Submission,
}

-- The ids that `new_uuid` returns for the rows that the call may add.
pub record Supply : Type 0 where
  pub signal_id : ℕ
  pub execution_id : ℕ
  pub settings_id : ℕ

-- The query for the client order id.
abbrev pub has_client_id : Text → OrderExecution → Bool
has_client_id t e = client_id_eq e.client_order_id (given t)

-- The row belongs to the caller's account.
abbrev pub is_own : ℕ → Context → OrderExecution → Bool
is_own user c e =
    e.user_id == user
    && (e.exchange_account_id == c.account.id
        && exchange_eq e.exchange_name c.account.exchange_name)

abbrev pub new_signal : ℕ → ℕ → OrderInput → TradingSignal
new_signal id user o = record {
  id = id;
  user_id = user;
  symbol = upper o.symbol;
  side = o.side;
  order_type = o.order_type;
  price = o.price;
  quantity = some o.quantity;
  target_position_quantity = none;
}

unfoldable pub new_submission : Supply → ℕ → Context → OrderExecution
new_submission supply user c = record {
  id = some supply.execution_id;
  user_id = user;
  signal_id = supply.signal_id;
  exchange_account_id = c.account.id;
  exchange_name = c.account.exchange_name;
  client_order_id = given c.order.client_order_id;
  exchange_order_id = none;
  symbol = upper c.order.symbol;
  side = c.order.side;
  order_type = c.order.order_type;
  price = c.order.price;
  quantity = c.order.quantity;
  status = created;
  risk_result = none;
  exchange_response = none;
  error_message = none;
}

-- The moves of a row that the risk check rejects, and of one that it passes.
unfoldable pub reject_submission : RiskCheckResult → Step (Unit {0})
reject_submission risk =
    modify (set_error (risk_reasons risk.reasons))
    >> transition_order_execution OrderExecutionStatus.rejected "testnet_risk_rejected" []
    >> modify flush

unfoldable pub start_submission : Step (Unit {0})
start_submission =
    transition_order_execution risk_passed "testnet_risk_passed" []
    >> transition_order_execution submitted "testnet_order_submission_started" []
    >> modify flush

-- The life of the new row up to the commit.
unfoldable pub submit_row : RiskCheckResult → Step (Unit {0})
unfolding reject_submission start_submission
submit_row risk =
    record_initial_order_state "testnet_execution_created"
    >> modify (set_risk_result risk)
    >> (if is_rejected risk then reject_submission risk else start_submission)

-- The end of the call, with the new row in the table.
unfoldable pub settle_submission :
    RiskCheckResult
    → Database
    → Result OrderStateError (Unit {0}) × Tracked
    → Result SubmitError Submission × Database
settle_submission risk db (err e, m) = (err (order_state e), add_execution m db)
settle_submission risk db (ok _, m) =
    if is_rejected risk
    then (err risk_rejected, add_execution m db)
    else (ok (record { execution = m.execution; idempotent_replay = false }), add_execution m db)

-- The order of the risk check.
abbrev pub submission_risk : Context → RiskOrderInput
submission_risk c = record {
  symbol = upper c.order.symbol;
  side = c.order.side;
  quantity = c.order.quantity;
  price = c.order.price;
}

-- The tables with the new signal.
abbrev pub with_signal : Supply → ℕ → Context → Database → Database
with_signal supply user c db = record db {
  signals = db.signals ++ new_signal supply.signal_id user c.order ∷ [];
}

unfoldable pub create_submission : Supply → ℕ → Context → Exec Database SubmitError Submission
unfolding settle_submission submit_row new_submission
create_submission supply user c db =
    let (settings, db') =
      get_or_create_risk_settings supply.settings_id user c.account.id
        (with_signal supply user c db) in
    let risk = check_order_risk c.account settings (submission_risk c) true in
    settle_submission risk db'
      (submit_row risk (record { execution = new_submission supply user c; log = db'.log }))

-- The call by what the query finds.
unfoldable pub create_or_replay :
    Option OrderExecution → Supply → ℕ → Context → Exec Database SubmitError Submission
unfolding create_submission
create_or_replay (some e) supply user c db =
    if is_own user c e
    then (ok (record { execution = e; idempotent_replay = true }), db)
    else (err idempotency_conflict, db)
create_or_replay none supply user c db = create_submission supply user c db

unfoldable pub create_or_get_testnet_submission_execution :
    Supply → ℕ → Context → Exec Database SubmitError Submission
unfolding create_or_replay client_id_eq
create_or_get_testnet_submission_execution supply user c db =
    create_or_replay (find? (has_client_id c.order.client_order_id) db.executions) supply user c db
