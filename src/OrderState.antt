-- ===== src/OrderState.antt =====
-- backend/app/services/order_state_machine.py: the statuses that an order execution may pass
-- through, and the numbered log of its transitions. The session's `db.new` is the list `added`,
-- which a flush moves behind the rows of the table, `flushed`.
pub mod Graph
pub mod Branches
pub mod History
pub mod Runs
pub mod Bounded
pub mod Gates
mod Tests
use Prim.Native.String.{String}
use crypto_copy_trading_plat.Prelude.{
  ℕ, suc, max, Bool, not, ◌||◌, false, Option, none, some, List, [], ◌∷◌, ◌++◌, ◌==◌, if◌then◌else◌,
}
use crypto_copy_trading_plat.Prelude.Text.{Text}
use crypto_copy_trading_plat.Prelude.Exec.{Exec, Result, ok, err, raise_if, modify, ◌>>=◌, ◌>>◌}
use crypto_copy_trading_plat.Domain.{
  OrderExecutionStatus, created, risk_passed, submitted, accepted, partially_filled, filled,
  cancelled, failed, timeout, status_eq, OrderExecution, OrderExecutionTransition,
}

-- `TERMINAL_ORDER_STATUSES`
unfoldable pub terminal_order_statuses : List OrderExecutionStatus
terminal_order_statuses = filled ∷ cancelled ∷ OrderExecutionStatus.rejected ∷ failed ∷ timeout ∷ []

-- `ALLOWED_ORDER_TRANSITIONS.get(from_status, frozenset())`
unfoldable pub allowed_order_transitions : OrderExecutionStatus → List OrderExecutionStatus
allowed_order_transitions created = risk_passed ∷ OrderExecutionStatus.rejected ∷ failed ∷ []
allowed_order_transitions risk_passed = submitted ∷ failed ∷ []
allowed_order_transitions submitted =
    accepted ∷ partially_filled ∷ filled ∷ cancelled ∷ OrderExecutionStatus.rejected ∷ failed
    ∷ timeout ∷ []
allowed_order_transitions accepted =
    partially_filled ∷ filled ∷ cancelled ∷ OrderExecutionStatus.rejected ∷ failed ∷ timeout ∷ []
allowed_order_transitions partially_filled =
    partially_filled ∷ filled ∷ cancelled ∷ failed ∷ timeout ∷ []
allowed_order_transitions _ = []

unfoldable pub status_in : OrderExecutionStatus → List OrderExecutionStatus → Bool
status_in s [] = false
status_in s (t ∷ ts) = status_eq s t || status_in s ts

-- `to_status in allowed`
unfoldable pub may_move : OrderExecutionStatus → OrderExecutionStatus → Bool
unfolding status_in allowed_order_transitions
may_move from to = status_in to (allowed_order_transitions from)

pub data OrderStateError : Type 0 where
  not_initial not_persisted : OrderStateError
  not_allowed : OrderExecutionStatus → OrderExecutionStatus → OrderStateError

pub record TransitionLog : Type 0 where
  pub flushed : List OrderExecutionTransition
  pub added : List OrderExecutionTransition

-- An execution object and the session that records its transitions.
pub record Tracked : Type 0 where
  pub execution : OrderExecution
  pub log : TransitionLog

-- The maximum of the sequence numbers of one execution, 0 where it has none.
unfoldable pub max_sequence : ℕ → List OrderExecutionTransition → ℕ
max_sequence i [] = 0
max_sequence i (t ∷ ts) =
    let rest = max_sequence i ts in
    if t.order_execution_id == i then max t.sequence_number rest else rest

-- `_next_sequence_number`
unfoldable pub next_sequence_number : TransitionLog → ℕ → ℕ
unfolding max_sequence
next_sequence_number log i = suc (max (max_sequence i log.flushed) (max_sequence i log.added))

abbrev pub Step : Type 0 → Type 0
Step = Exec Tracked OrderStateError

-- The row that `_add_transition` builds.
unfoldable pub transition_row :
    ℕ
    → Option OrderExecutionStatus
    → OrderExecutionStatus
    → String
    → List (String × Text)
    → Tracked
    → OrderExecutionTransition
unfolding next_sequence_number
transition_row i from to reason details m = record {
  user_id = m.execution.user_id;
  order_execution_id = i;
  sequence_number = next_sequence_number m.log i;
  from_status = from;
  to_status = to;
  reason = reason;
  details = details;
}

-- `db.add`
unfoldable pub add_row : OrderExecutionTransition → Tracked → Tracked
add_row t m = record m { log = record { flushed = m.log.flushed; added = m.log.added ++ t ∷ [] } }

-- The part of `_add_transition` behind its test of the id.
unfoldable pub add_transition_for :
    Option ℕ
    → Option OrderExecutionStatus
    → OrderExecutionStatus
    → String
    → List (String × Text)
    → Step OrderExecutionTransition
unfolding transition_row add_row
add_transition_for none from to reason details m = (err not_persisted, m)
add_transition_for (some i) from to reason details m =
    let t = transition_row i from to reason details m in (ok t, add_row t m)

-- `_add_transition`
unfoldable pub add_transition :
    Option OrderExecutionStatus
    → OrderExecutionStatus
    → String
    → List (String × Text)
    → Step OrderExecutionTransition
unfolding add_transition_for
add_transition from to reason details m = add_transition_for m.execution.id from to reason details m

-- `execution.status = to_status`
abbrev pub set_status : OrderExecutionStatus → Tracked → Tracked
set_status s m = record m { execution = record m.execution { status = s } }

unfoldable pub record_initial_order_state : String → Step OrderExecutionTransition
unfolding add_transition
record_initial_order_state reason m =
    (raise_if (not (status_eq m.execution.status created)) not_initial
        >> add_transition none created reason [])
      m

unfoldable pub transition_order_execution :
    OrderExecutionStatus → String → List (String × Text) → Step OrderExecutionTransition
unfolding may_move add_transition
transition_order_execution to reason details m =
    let from = m.execution.status in
    (raise_if (not (may_move from to)) (not_allowed from to)
        >> modify (set_status to)
        >> add_transition (some from) to reason details)
      m

-- `db.flush()` and the flush of `db.commit()`, for the log.
unfoldable pub flush : Tracked → Tracked
flush m = record m { log = record { flushed = m.log.flushed ++ m.log.added; added = [] } }
