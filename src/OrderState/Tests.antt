-- ===== src/OrderState/Tests.antt =====
-- The order states on concrete executions.
use crypto_copy_trading_plat.Prelude.{◌≤◌, ◌≡◌, refl, true, List, [], ◌∷◌, length}
use crypto_copy_trading_plat.Domain.{risk_passed, submitted, accepted, filled, failed}
use crypto_copy_trading_plat.Samples.{tracked, uuid}
use crypto_copy_trading_plat.OrderState.{
  Tracked, record_initial_order_state, transition_order_execution, next_sequence_number, set_status,
  flush, status_in, terminal_order_statuses,
}
use crypto_copy_trading_plat.OrderState.History.{history, IsHistory}
use crypto_copy_trading_plat.OrderState.Runs.{
  Action, move, flush_session, run, run-IsHistory, run_terminal,
}
use crypto_copy_trading_plat.OrderState.Bounded.{milestones, run_bounded}
use crypto_copy_trading_plat.OrderState.Gates.{from_exchange, Visits, from_exchange-Visits}

-- A way to `FILLED` with a move in between that is refused.
abbrev filling : List Action
filling =
    move risk_passed "risk_passed" []
    ∷ flush_session
    ∷ move accepted "too_early" []
    ∷ move submitted "submitted" []
    ∷ move filled "filled" []
    ∷ move failed "too_late" []
    ∷ flush_session
    ∷ []

abbrev started : Tracked
started = (record_initial_order_state "execution_created" tracked).1

filling_status : (run filling started).execution.status ≡ filled
unfolding run record_initial_order_state transition_order_execution flush
filling_status = refl

filling_numbers : next_sequence_number (run filling started).log (uuid 4) ≡ 5
unfolding run record_initial_order_state transition_order_execution next_sequence_number flush
filling_numbers = refl

run-IsHistory_example : IsHistory (uuid 4) (run filling started)
run-IsHistory_example = run-IsHistory (uuid 4) tracked "execution_created" filling refl refl refl

abbrev done : Tracked
done = set_status filled tracked

run_terminal_example :
    ((run filling done).execution ≡ done.execution)
    × (history (uuid 4) (run filling done).log ≡ history (uuid 4) done.log)
unfolding status_in terminal_order_statuses
run_terminal_example = run_terminal filling (uuid 4) done refl

filling_told : IsHistory (uuid 4) (run filling started)
filling_told = run-IsHistory (uuid 4) tracked "execution_created" filling refl refl refl

filling_live : from_exchange (run filling started).execution.status ≡ true
filling_live = rw filling_status refl

from_exchange-Visits_example :
    Visits risk_passed (history (uuid 4) (run filling started).log)
    × Visits submitted (history (uuid 4) (run filling started).log)
from_exchange-Visits_example =
    from_exchange-Visits (uuid 4) (run filling started) filling_told filling_live

run_bounded_example : length (milestones (history (uuid 4) (run filling started).log)) ≤ 5
run_bounded_example = run_bounded (uuid 4) tracked "execution_created" filling refl refl refl
