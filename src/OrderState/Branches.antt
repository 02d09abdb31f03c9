-- ===== src/OrderState/Branches.antt =====
-- What `transition_order_execution` and `record_initial_order_state` do on each branch.
use Prim.Native.String.{String}
use crypto_copy_trading_plat.Prelude.{ℕ, ◌≡◌, ◌≢◌, true, false, some, none, List, [], arith, refl}
use crypto_copy_trading_plat.Prelude.Text.{Text}
use crypto_copy_trading_plat.Prelude.Exec.{ok, err}
use crypto_copy_trading_plat.Domain.{OrderExecutionStatus, created}
use crypto_copy_trading_plat.OrderState.{
  Tracked, not_initial, not_allowed, not_persisted, may_move, transition_row, add_row, set_status,
  record_initial_order_state, transition_order_execution,
}
use crypto_copy_trading_plat.OrderState.Graph.{IsTerminal, IsTerminal-iff_no_move}

module _ (m : Tracked) (to : OrderExecutionStatus) (reason : String)
    (details : List (String × Text)) where
  -- An allowed move of a persisted execution sets the status and adds one row, which names the
  -- status before it.
  pub transition_allowed :
      {i : ℕ}
      → m.execution.id ≡ some i
      → may_move m.execution.status to ≡ true
      → let t = transition_row i (some m.execution.status) to reason details (set_status to m) in
        transition_order_execution to reason details m ≡ (ok t, add_row t (set_status to m))
  unfolding transition_order_execution
  transition_allowed known allowed = rw (allowed, known) refl

  -- A move that the table does not allow raises and changes nothing.
  pub transition_refused :
      may_move m.execution.status to ≡ false
      → transition_order_execution to reason details m
        ≡ (err (not_allowed m.execution.status to), m)
  unfolding transition_order_execution
  transition_refused refused = rw refused refl

  -- From a terminal status every move raises and changes nothing.
  pub transition_terminal :
      IsTerminal m.execution.status
      → transition_order_execution to reason details m
        ≡ (err (not_allowed m.execution.status to), m)
  transition_terminal last =
      transition_refused ((IsTerminal-iff_no_move m.execution.status).0 last to)

  -- An allowed move of an execution that has no id raises, and leaves the new status behind.
  pub transition_unpersisted :
      m.execution.id ≡ none
      → may_move m.execution.status to ≡ true
      → transition_order_execution to reason details m ≡ (err not_persisted, set_status to m)
  unfolding transition_order_execution
  transition_unpersisted unknown allowed = rw (allowed, unknown) refl

module _ (m : Tracked) (reason : String) where
  -- The first row of a persisted execution in `CREATED` has no status before it.
  pub record_initial_allowed :
      {i : ℕ}
      → m.execution.id ≡ some i
      → m.execution.status ≡ created
      → let t = transition_row i none created reason [] m in
        record_initial_order_state reason m ≡ (ok t, add_row t m)
  unfolding record_initial_order_state
  record_initial_allowed known start = rw (start, known) refl

  -- An execution in another status gets no first row.
  pub record_initial_refused :
      m.execution.status ≢ created → record_initial_order_state reason m ≡ (err not_initial, m)
  unfolding record_initial_order_state
  record_initial_refused other = ground arith
