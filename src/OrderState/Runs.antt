-- ===== src/OrderState/Runs.antt =====
-- Any sequence of requested moves and flushes, the refused ones included.
use Prim.Native.String.{String}
use crypto_copy_trading_plat.Prelude.{
  ℕ, ◌≡◌, ◌≢◌, refl, ◌∙◌, some, List, [], ◌∷◌, arith, Bool-cases, inl, inr,
}
use crypto_copy_trading_plat.Prelude.Text.{Text}
use crypto_copy_trading_plat.Domain.{OrderExecutionStatus, created}
use crypto_copy_trading_plat.OrderState.{
  Tracked, transition_row, set_status, may_move, record_initial_order_state,
  transition_order_execution, flush,
}
use crypto_copy_trading_plat.OrderState.Graph.{IsTerminal}
use crypto_copy_trading_plat.OrderState.Branches.{
  transition_allowed, transition_refused, transition_terminal,
}
use crypto_copy_trading_plat.OrderState.History.{
  history, IsHistory, history-add_row, history-flush, IsHistory-flush, transition-IsHistory,
  record_initial-IsHistory,
}
use mathlib.Core.List.{append-nil}

-- A caller asks for a move, and goes on whether or not it raises, or flushes the session.
pub data Action : Type 0 where
  move : OrderExecutionStatus → String → List (String × Text) → Action
  flush_session : Action

unfoldable pub act : Action → Tracked → Tracked
act (move to reason details) m = (transition_order_execution to reason details m).1
act flush_session m = flush m

unfoldable pub run : List Action → Tracked → Tracked
unfolding act
run [] m = m
run (a ∷ rest) m = run rest (act a m)

act-IsHistory : (i : ℕ) (a : Action) (m : Tracked) → IsHistory i m → IsHistory i (act a m)
unfolding act
act-IsHistory i (move to reason details) m h = transition-IsHistory i m to reason details h
act-IsHistory i flush_session m h = IsHistory-flush i m h

pub run_steps-IsHistory :
    (i : ℕ) (actions : List Action) (m : Tracked) → IsHistory i m → IsHistory i (run actions m)
unfolding run
run_steps-IsHistory i [] m h = h
run_steps-IsHistory i (a ∷ rest) m h = run_steps-IsHistory i rest (act a m) (act-IsHistory i a m h)

-- For an execution in `CREATED` with an id and no rows, its first row and then any moves and
-- flushes leave a log that tells the whole story of its status: rows numbered 1, 2, … with no gap,
-- each by an allowed move from the one before, and the last one to the status that it has.
pub run-IsHistory :
    (i : ℕ) (m : Tracked) (reason : String) (actions : List Action)
    → m.execution.id ≡ some i
    → m.execution.status ≡ created
    → history i m.log ≡ []
    → IsHistory i (run actions (record_initial_order_state reason m).1)
run-IsHistory i m reason actions known start fresh =
    run_steps-IsHistory i actions (record_initial_order_state reason m).1
      (record_initial-IsHistory i m reason known start fresh)

act_terminal :
    (a : Action) (i : ℕ) (m : Tracked)
    → IsTerminal m.execution.status
    → ((act a m).execution ≡ m.execution) × (history i (act a m).log ≡ history i m.log)
unfolding act
act_terminal (move to reason details) i m last =
    rw (act, transition_terminal m to reason details last) (refl, refl)
act_terminal flush_session i m last = (unfold flush in refl, history-flush i m)

-- From a terminal status no moves and flushes change the execution or the story of any execution.
pub run_terminal :
    (actions : List Action) (i : ℕ) (m : Tracked)
    → IsTerminal m.execution.status
    → ((run actions m).execution ≡ m.execution) × (history i (run actions m).log ≡ history i m.log)
unfolding run
run_terminal [] i m last = (refl, refl)
run_terminal (a ∷ rest) i m last =
    let (same, rows) = act_terminal a i m last in
    let (same', rows') = run_terminal rest i (act a m) (rw same last) in
    (same' ∙ same, rows' ∙ rows)

-- A move of one execution, allowed or not, leaves the rows of every other execution alone.
pub transition_others :
    (i j : ℕ) (m : Tracked) (to : OrderExecutionStatus) (reason : String)
    (details : List (String × Text))
    → m.execution.id ≡ some i
    → i ≢ j
    → history j (transition_order_execution to reason details m).1.log ≡ history j m.log
transition_others i j m to reason details known other =
    elim (Bool-cases (may_move m.execution.status to)) [
      | inl allowed ↦
          let t = transition_row i (some m.execution.status) to reason details (set_status to m) in
          rw (transition_allowed m to reason details known allowed) (
            history-add_row j t (set_status to m)
            ∙ unfold transition_row in ground (arith, append-nil (history j m.log)))
      | inr refused ↦ rw (transition_refused m to reason details refused) refl
    ]
