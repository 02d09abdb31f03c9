-- ===== src/Engine/Tests.antt =====
-- The engine on concrete tables: an order that is filled, a second call, a failure, a collision.
use crypto_copy_trading_plat.Prelude.{
  ◌≡◌, ◌≢◌, refl, ap, true, false, Option, none, [], ◌∷◌, ◌++◌, arith,
}
use crypto_copy_trading_plat.Prelude.Int.{◌*ℤ◌, ◌-ℤ◌}
use crypto_copy_trading_plat.Prelude.Exec.{ok, err}
use crypto_copy_trading_plat.Prelude.Text.{text_eq, text_in}
use crypto_copy_trading_plat.Decimal.{round_digits, product_exceeds, abs, sub}
use crypto_copy_trading_plat.Decimal.Laws.{Fits}
use crypto_copy_trading_plat.Domain.{passed, RiskCheckResult, OrderExecution}
use crypto_copy_trading_plat.Database.{Database, get_owned_account, find_risk_settings}
use crypto_copy_trading_plat.OrderState.History.{IsHistory}
use crypto_copy_trading_plat.Samples.{
  units, uuid, btc, database, execution, mock_account, target_signal, quantity_signal, twin_signal,
  empty_log,
}
use crypto_copy_trading_plat.Position.{calculate_delta, apply_fill}
use crypto_copy_trading_plat.Position.Fills.{held}
use crypto_copy_trading_plat.Emergency.{new_orders_allowed}
use crypto_copy_trading_plat.Engine.{
  FailureAlert, Supply, new_execution, integrity, get_owned_signal, resolve_side_and_quantity,
  must_fail, place, execute_new, execute_owned, execute_signal_for_account,
}
use crypto_copy_trading_plat.Risk.{
  is_below, is_above, notional_above, check_order_risk, get_or_create_risk_settings,
}
use crypto_copy_trading_plat.Engine.Placement.{place-IsHistory, filled_execution, failed_execution}
use crypto_copy_trading_plat.Engine.Outcome.{risk_of, execute_new-Saved}
use crypto_copy_trading_plat.Engine.Filled.{MayFill, IsAlerted, execute_new_outcome}
use crypto_copy_trading_plat.Engine.Collides.{execute_owned_collides}
use crypto_copy_trading_plat.Engine.Replay.{execute_signal_found, execute_signal_again}
use crypto_copy_trading_plat.Engine.Target.{target_execution, with_position, execute_owned-target}

abbrev supply : Supply
supply = record { execution_id = uuid 4; settings_id = uuid 5; has_runtime = true }

abbrev passes : RiskCheckResult
passes = record { decision = passed; reasons = [] }

place-IsHistory_example :
    IsHistory
      (uuid 4)
      (place passes (units 5) (record { execution = execution; log = empty_log })).1
place-IsHistory_example =
    place-IsHistory passes (units 5) execution empty_log (uuid 4) refl refl refl

execute_new_outcome_example :
    let r = execute_new supply mock_account execution database in
    let risk = risk_of supply mock_account execution database in
    (MayFill supply mock_account execution database
      → (r.0 ≡ ok (filled_execution risk execution, none))
        × (r.1.executions ≡ database.executions ++ filled_execution risk execution ∷ [])
        × (r.1.positions
            ≡ apply_fill (uuid 1) (uuid 7) btc execution.side (units 5) database.positions))
    × ((MayFill supply mock_account execution database → ⊥)
        → ((alert : Option FailureAlert) × (r.0 ≡ ok (failed_execution risk execution, alert))
            × IsAlerted supply risk alert)
          × (r.1.executions ≡ database.executions ++ failed_execution risk execution ∷ [])
          × (r.1.positions ≡ database.positions))
execute_new_outcome_example =
    execute_new_outcome supply mock_account execution database refl refl refl

not_failing : must_fail (risk_of supply mock_account execution database) (units 5) ≡ false
unfolding must_fail check_order_risk get_or_create_risk_settings find_risk_settings text_in text_eq
    is_below is_above notional_above product_exceeds ◌*ℤ◌ round_digits
not_failing = refl

-- The call of the signal for 5 units, its answer and the tables after it.
abbrev traded : Database
traded = (execute_signal_for_account supply (uuid 1) (uuid 3) (uuid 7) database).1

abbrev bought : OrderExecution
bought = filled_execution (risk_of supply mock_account execution database) execution

owned :
    execute_owned supply (uuid 1) quantity_signal mock_account database
    ≡ execute_new supply mock_account execution database
unfolding execute_owned resolve_side_and_quantity
owned = refl

answered :
    (execute_signal_for_account supply (uuid 1) (uuid 3) (uuid 7) database).0 ≡ ok (bought, none)
unfolding new_orders_allowed get_owned_signal get_owned_account
answered =
    rw (execute_signal_found supply (uuid 1) (uuid 3) (uuid 7) database refl refl refl, owned)
      (((execute_new-Saved supply mock_account execution database refl refl refl).fills
        not_failing).0)

execute_signal_again_example :
    execute_signal_for_account
      (record supply { execution_id = uuid 6 })
      (uuid 1)
      (uuid 3)
      (uuid 7)
      traded
    ≡ (ok (bought, none), traded)
execute_signal_again_example =
    execute_signal_again supply (record supply { execution_id = uuid 6 }) (uuid 1) (uuid 3) (uuid 7)
      database traded bought none (ap (λ r. (r, traded)) answered)

-- The other signal has the first digits of the signal that was executed.
twin_differs : quantity_signal.id ≢ twin_signal.id
twin_differs h = omega (arith, h)

abbrev after_first : Database
after_first = (execute_owned supply (uuid 1) quantity_signal mock_account database).1

first_answer :
    (execute_owned supply (uuid 1) quantity_signal mock_account database).0 ≡ ok (bought, none)
first_answer = rw owned (
    ((execute_new-Saved supply mock_account execution database refl refl refl).fills not_failing).0)

execute_owned_collides_example :
    execute_owned
      (record supply { execution_id = uuid 6 })
      (uuid 1)
      twin_signal
      mock_account
      after_first
    ≡ (err integrity, after_first)
unfolding resolve_side_and_quantity
execute_owned_collides_example =
    execute_owned_collides supply (record supply { execution_id = uuid 6 }) (uuid 1) quantity_signal
      twin_signal mock_account database after_first bought none twin_differs refl refl refl
      (ap (λ r. (r, after_first)) first_answer) refl

target-Fits : Fits (units 5)
target-Fits = omega arith

delta-Fits : Fits (units 5 -ℤ held (uuid 1) (uuid 7) btc database.positions)
unfolding ◌-ℤ◌
delta-Fits = omega arith

target_trades :
    must_fail
      (risk_of supply mock_account
        (target_execution supply target_signal mock_account (units 5) database)
        (with_position target_signal mock_account database))
      (target_execution supply target_signal mock_account (units 5) database).quantity
    ≡ false
unfolding must_fail check_order_risk get_or_create_risk_settings find_risk_settings text_in text_eq
    is_below is_above notional_above product_exceeds ◌*ℤ◌ round_digits new_execution calculate_delta
    abs sub ◌-ℤ◌
target_trades = refl

execute_owned-target_example :
    held
      (uuid 1)
      (uuid 7)
      btc
      (execute_owned supply (uuid 1) target_signal mock_account database).1.positions
    ≡ units 5
execute_owned-target_example =
    execute_owned-target supply target_signal mock_account (units 5) database refl refl target-Fits
      delta-Fits refl target_trades
