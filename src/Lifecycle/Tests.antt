-- ===== src/Lifecycle/Tests.antt =====
-- A submitted order that is filled, and later and repeated events about it.
use crypto_copy_trading_plat.Prelude.{◌≡◌, refl, some, [], ◌∷◌}
use crypto_copy_trading_plat.Prelude.Text.{codes, strip, text_in, upper}
use crypto_copy_trading_plat.Prelude.Int.{◌*ℤ◌}
use crypto_copy_trading_plat.Decimal.{product_exceeds, round_digits}
use crypto_copy_trading_plat.OrderState.{
  record_initial_order_state, transition_order_execution, flush, status_in, terminal_order_statuses,
}
use crypto_copy_trading_plat.OrderState.Graph.{IsTerminal}
use crypto_copy_trading_plat.Risk.{
  check_order_risk, get_or_create_risk_settings, is_below, is_above, notional_above,
}
use crypto_copy_trading_plat.Orders.{replace_first}
use crypto_copy_trading_plat.Submit.Row.{create_or_get_testnet_submission_execution}
use crypto_copy_trading_plat.Domain.{filled, accepted}
use crypto_copy_trading_plat.Database.{Database}
use crypto_copy_trading_plat.Samples.{uuid}
use crypto_copy_trading_plat.Sandbox.{python, live, live-IsKept, stream_event, event_of_order}
use crypto_copy_trading_plat.Orders.Kept.{IsKept}
use crypto_copy_trading_plat.Lifecycle.{apply}
use crypto_copy_trading_plat.Lifecycle.Kept.{}
use crypto_copy_trading_plat.Lifecycle.Again.{apply_again}
use crypto_copy_trading_plat.Lifecycle.Moves.{
  view, entry, Runs, handle_all, handle_all-Runs, handle_all_terminal,
}

apply_again_example :
    let db' = (apply (uuid 1) (uuid 8) (event_of_order accepted) "stream" live).1 in
    (apply (uuid 1) (uuid 8) (event_of_order accepted) "rest" db').1 ≡ db'
apply_again_example =
    apply_again (uuid 1) (uuid 8) (event_of_order accepted) "stream" "rest" live live-IsKept

-- The tables after the report that the order is filled.
abbrev done : Database
done = handle_all python (uuid 1) (uuid 8) (stream_event (codes "FILLED") ∷ []) live

handle_all-Runs_example : IsKept done × Runs (view live.executions) (view done.executions)
handle_all-Runs_example =
    handle_all-Runs python (uuid 1) (uuid 8) (stream_event (codes "FILLED") ∷ []) live live-IsKept

done_filled : entry 0 (view done.executions) ≡ some (some (uuid 41), filled)
unfolding handle_all strip create_or_get_testnet_submission_execution record_initial_order_state
    check_order_risk get_or_create_risk_settings text_in upper is_below is_above notional_above
    product_exceeds ◌*ℤ◌ round_digits transition_order_execution flush replace_first
done_filled = refl

filled_last : IsTerminal filled
unfolding terminal_order_statuses status_in
filled_last = refl

handle_all_terminal_example :
    let db = handle_all python (uuid 1) (uuid 8) (stream_event (codes "CANCELED") ∷ []) done in
    entry 0 (view db.executions) ≡ some (some (uuid 41), filled)
handle_all_terminal_example =
    handle_all_terminal python (uuid 1) (uuid 8) 0 (some (uuid 41)) filled
      (stream_event (codes "CANCELED") ∷ []) done
      (handle_all-Runs python (uuid 1) (uuid 8) (stream_event (codes "FILLED") ∷ []) live
        live-IsKept).0
      filled_last done_filled
