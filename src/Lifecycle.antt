-- ===== src/Lifecycle.antt =====
-- backend/app/services/testnet_order_lifecycle.py: what an event about an order, from a user stream
-- or from a private request, does to the execution that it names. The text `execution_id` of a
-- result is left out.
pub mod Normalize
pub mod Branches
pub mod Kept
pub mod Moves
pub mod Again
mod Tests
use Prim.Native.String.{String}
use crypto_copy_trading_plat.Prelude.{
  ℕ, Bool, true, false, not, ◌&&◌, ◌||◌, Option, none, some, List, [], ◌∷◌, ◌++◌, ◌==◌, find?,
  if◌then◌else◌,
}
use crypto_copy_trading_plat.Prelude.Text.{Text, codes, text_eq}
use crypto_copy_trading_plat.Prelude.Exec.{Exec, Result, ok, err}
use crypto_copy_trading_plat.Domain.{
  ExchangeName, exchange_eq, OrderExecutionStatus, status_eq, exchange_id, exchange_id_text,
  client_id_text, OrderExecution,
}
use crypto_copy_trading_plat.Database.{Database}
use crypto_copy_trading_plat.OrderState.{
  Tracked, OrderStateError, transition_order_execution, flush,
}
use crypto_copy_trading_plat.Response.{exchange_value}
use crypto_copy_trading_plat.Orders.{put_row, loaded}

-- `NormalizedTestnetOrderEvent`; the quantity as the text that `str` prints.
pub record OrderEvent : Type 0 where
  pub exchange_name : ExchangeName
  pub client_order_id : Option Text
  pub exchange_order_id : Option Text
  pub status : OrderExecutionStatus
  pub event_id : Option Text
  pub filled_quantity : Option Text

pub data LifecycleReason : Type 0 where
  non_order_event execution_not_found duplicate_event stale_event transitioned : LifecycleReason

-- `TestnetOrderLifecycleResult`
pub record LifecycleResult : Type 0 where
  pub matched : Bool
  pub transitioned : Bool
  pub duplicate : Bool
  pub ignored : Bool
  pub status : Option OrderExecutionStatus
  pub reason : LifecycleReason

-- The messages of `TestnetOrderEventValidationError`.
pub data EventError : Type 0 where
  no_identifier unsupported_exchange invalid_binance_event lookup_rejected : EventError
  unsupported_status data_missing invalid_quantity : EventError

abbrev pub ignored_result : LifecycleReason → LifecycleResult
ignored_result reason = record {
  matched = false;
  transitioned = false;
  duplicate = false;
  ignored = true;
  status = none;
  reason = reason;
}

-- `_execution_result` with the flags `transitioned`, `duplicate` and `ignored`.
abbrev pub execution_result :
    Bool → Bool → Bool → LifecycleReason → OrderExecution → LifecycleResult
execution_result moved_on again passed_over reason e = record {
  matched = true;
  transitioned = moved_on;
  duplicate = again;
  ignored = passed_over;
  status = some e.status;
  reason = reason;
}

-- `if text:` for an optional text
abbrev pub is_given : Option Text → Bool
is_given none = false
is_given (some []) = false
is_given (some (c ∷ t)) = true

-- An identifier of the query: a given text that the column equals.
unfoldable pub is_named : Option Text → Option Text → Bool
unfolding text_eq
is_named (some (c ∷ t)) (some column) = text_eq column (c ∷ t)
is_named _ _ = false

abbrev pub exchange_column : OrderExecution → Option Text
exchange_column e = elim e.exchange_order_id [ none ↦ none | some x ↦ some (exchange_id_text x) ]

-- The rows that the query of `_find_execution` selects.
unfoldable pub is_event_row : ℕ → ℕ → OrderEvent → OrderExecution → Bool
unfolding is_named
is_event_row user account ev e =
    e.user_id == user
    && (e.exchange_account_id == account
        && (exchange_eq e.exchange_name ev.exchange_name
            && (is_named ev.client_order_id (some (client_id_text e.client_order_id))
                || is_named ev.exchange_order_id (exchange_column e))))

unfoldable pub has_identifier : OrderEvent → Bool
has_identifier ev = is_given ev.client_order_id || is_given ev.exchange_order_id

-- An entry of the details for a given text.
abbrev pub detail : String → Option Text → List (String × Text)
detail key none = []
detail key (some t) = (key, t) ∷ []

-- `_safe_transition_details`; a text of no code point is no event id.
unfoldable pub safe_transition_details : OrderEvent → List (String × Text)
safe_transition_details ev =
    ("exchange", exchange_value ev.exchange_name)
      ∷ (if is_given ev.event_id then detail "event_id" ev.event_id else [])
    ++ detail "filled_quantity" ev.filled_quantity

-- `if event.exchange_order_id and not execution.exchange_order_id`
abbrev pub fill_exchange_id : OrderEvent → OrderExecution → OrderExecution
fill_exchange_id ev e =
    if is_given ev.exchange_order_id && not (is_given (exchange_column e))
    then elim ev.exchange_order_id [
      | none ↦ e
      | some t ↦ record e { exchange_order_id = some (exchange_id t) }
    ]
    else e

-- What `apply` makes of the move that it asked for.
unfoldable pub settle :
    {A : Type 0}
    → OrderEvent
    → Result OrderStateError A × Tracked
    → Result EventError LifecycleResult × Tracked
settle ev (err e, m) = (ok (execution_result false false true stale_event m.execution), m)
settle ev (ok a, m) =
    let m' = flush (record m { execution = fill_exchange_id ev m.execution }) in
    (ok (execution_result true false false LifecycleReason.transitioned m'.execution), m')

-- `apply` on the execution that was found
unfoldable pub apply_row : OrderEvent → String → Exec Tracked EventError LifecycleResult
unfolding settle safe_transition_details
apply_row ev reason m =
    if status_eq m.execution.status ev.status
    then (ok (execution_result false true true duplicate_event m.execution), m)
    else settle ev (transition_order_execution ev.status reason (safe_transition_details ev) m)

abbrev pub store_row :
    {A : Type 0} → (OrderExecution → Bool) → Database → A × Tracked → A × Database
store_row p db (r, m) = (r, put_row p m db)

-- `apply` on what the query answers
unfoldable pub apply_found :
    (OrderExecution → Bool)
    → OrderEvent
    → String
    → Option OrderExecution
    → Exec Database EventError LifecycleResult
unfolding apply_row
apply_found p ev reason none db = (ok (ignored_result execution_not_found), db)
apply_found p ev reason (some e) db = store_row p db (apply_row ev reason (loaded e db))

unfoldable pub apply : ℕ → ℕ → OrderEvent → String → Exec Database EventError LifecycleResult
unfolding apply_found has_identifier is_event_row
apply user account ev reason db =
    let p = is_event_row user account ev in
    if has_identifier ev
    then apply_found p ev reason (find? p db.executions) db
    else (err no_identifier, db)
