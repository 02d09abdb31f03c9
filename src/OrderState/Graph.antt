-- ===== src/OrderState/Graph.antt =====
-- The diagram of the order statuses as a relation, and what the table of allowed moves says of it.
use crypto_copy_trading_plat.Prelude.{◌≡◌, ◌↔◌, true, false, arith}
use crypto_copy_trading_plat.Domain.{OrderExecutionStatus, failed}
use crypto_copy_trading_plat.OrderState.{terminal_order_statuses, status_in, may_move}

abbrev pub IsTerminal : OrderExecutionStatus → Type 0
IsTerminal s = status_in s terminal_order_statuses ≡ true

-- A status is terminal exactly when no move leads out of it.
pub IsTerminal-iff_no_move :
    (s : OrderExecutionStatus) → IsTerminal s ↔ ((t : OrderExecutionStatus) → may_move s t ≡ false)
unfolding may_move terminal_order_statuses
IsTerminal-iff_no_move s = (λ h t. ground arith, λ h. ground (arith, h failed))
