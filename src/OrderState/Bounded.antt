-- ===== src/OrderState/Bounded.antt =====
-- How many rows the story of an execution can have.
use Prim.Native.String.{String}
use crypto_copy_trading_plat.Prelude.{
  ℕ, suc, ◌≤◌, ◌≡◌, true, false, not, Option, none, some, List, [], ◌∷◌, arith, length, select,
  Bool-cases, inl, inr,
}
use crypto_copy_trading_plat.Domain.{
  OrderExecutionStatus, created, risk_passed, submitted, accepted, partially_filled, status_eq,
  OrderExecutionTransition,
}
use crypto_copy_trading_plat.OrderState.{Tracked, may_move, record_initial_order_state}
use crypto_copy_trading_plat.OrderState.History.{history, Follows, MayFollow}
use crypto_copy_trading_plat.OrderState.Runs.{Action, run, run-IsHistory}

-- The rows that report no partial fill.
abbrev pub milestones : List OrderExecutionTransition → List OrderExecutionTransition
milestones = select (λ t. not (status_eq t.to_status partially_filled))

-- How many such rows can still come behind a status.
abbrev ahead : Option OrderExecutionStatus → ℕ
ahead none = 5
ahead (some created) = 4
ahead (some risk_passed) = 3
ahead (some submitted) = 2
ahead (some accepted) = 1
ahead (some partially_filled) = 1
ahead (some _) = 0

ahead_partial :
    (prev : Option OrderExecutionStatus) (s : OrderExecutionStatus)
    → MayFollow prev s
    → status_eq s partially_filled ≡ true
    → ahead (some s) ≤ ahead prev
unfolding may_move
ahead_partial prev s may same = ground arith

ahead_milestone :
    (prev : Option OrderExecutionStatus) (s : OrderExecutionStatus)
    → MayFollow prev s
    → status_eq s partially_filled ≡ false
    → suc (ahead (some s)) ≤ ahead prev
unfolding may_move
ahead_milestone prev s may other = ground arith

milestones-Follows :
    (prev : Option OrderExecutionStatus) (n : ℕ) (l : List OrderExecutionTransition)
    → Follows prev n l
    → length (milestones l) ≤ ahead prev
milestones-Follows prev n [] h = omega arith
milestones-Follows prev n (t ∷ l) h =
    let rest = milestones-Follows (some t.to_status) (suc n) l h.3 in
    elim (Bool-cases (status_eq t.to_status partially_filled)) [
      | inl same ↦ rw same (omega (arith, rest, ahead_partial prev t.to_status h.2 same))
      | inr other ↦ rw other (omega (arith, rest, ahead_milestone prev t.to_status h.2 other))
    ]

-- Whatever moves are asked for and whenever the session is flushed, the story of an execution that
-- begins in `CREATED` with an id and no rows has at most 5 rows other than reports of a partial
-- fill.
pub run_bounded :
    (i : ℕ) (m : Tracked) (reason : String) (actions : List Action)
    → m.execution.id ≡ some i
    → m.execution.status ≡ created
    → history i m.log ≡ []
    → length (milestones (history i (run actions (record_initial_order_state reason m).1).log)) ≤ 5
run_bounded i m reason actions known start fresh =
    milestones-Follows none 0 _ (run-IsHistory i m reason actions known start fresh).chained
