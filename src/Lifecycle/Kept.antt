-- ===== src/Lifecycle/Kept.antt =====
-- Events keep the table of executions with its log.
use Prim.Native.String.{String}
use crypto_copy_trading_plat.Prelude.{ℕ, Bool, find?, Bool-cases, Option-cases, inl, inr}
use crypto_copy_trading_plat.Prelude.Exec.{Result, ok, err}
use crypto_copy_trading_plat.Domain.{OrderExecution, status_eq}
use crypto_copy_trading_plat.Database.{Database}
use crypto_copy_trading_plat.OrderState.{
  Tracked, OrderStateError, transition_order_execution, flush,
}
use crypto_copy_trading_plat.OrderState.History.{IsHistory}
use crypto_copy_trading_plat.Orders.{loaded}
use crypto_copy_trading_plat.Orders.Kept.{IsKept, put_row-IsKept, found-IsHistory}
use crypto_copy_trading_plat.Orders.Careful.{
  GoesOn, GoesOn-self, GoesOn-trans, GoesOn-transition, GoesOn-flush, GoesOn-fields,
}
use crypto_copy_trading_plat.Lifecycle.{
  OrderEvent, has_identifier, is_event_row, safe_transition_details, fill_exchange_id, settle,
  apply_row, apply_found, apply,
}
use crypto_copy_trading_plat.Lifecycle.Branches.{fill_same}

settle-GoesOn :
    {A : Type 0} (i : ℕ) (ev : OrderEvent) (m : Tracked) (r : Result OrderStateError A)
    (m' : Tracked)
    → GoesOn i m m'
    → GoesOn i m (settle ev (r, m')).1
unfolding settle
settle-GoesOn i ev m (err e) m' g = g
settle-GoesOn i ev m (ok a) m' g =
    let filled = record m' { execution = fill_exchange_id ev m'.execution } in
    let (same_id, same_status) = fill_same ev m'.execution in
    let fields = GoesOn-fields i m' filled.execution g.story same_id same_status in
    GoesOn-trans i m filled (flush filled) (GoesOn-trans i m m' filled g fields)
      (GoesOn-flush i filled fields.story)

pub apply_row-GoesOn :
    (i : ℕ) (ev : OrderEvent) (reason : String) (m : Tracked)
    → IsHistory i m
    → GoesOn i m (apply_row ev reason m).1
unfolding apply_row
apply_row-GoesOn i ev reason m h = elim (Bool-cases (status_eq m.execution.status ev.status)) [
  | inl same ↦ rw same (GoesOn-self i m h)
  | inr other ↦ rw other (
      let details = safe_transition_details ev in
      let moved = transition_order_execution ev.status reason details m in
      settle-GoesOn i ev m moved.0 moved.1 (GoesOn-transition i m ev.status reason details h))
]

apply_found-IsKept :
    (p : OrderExecution → Bool) (ev : OrderEvent) (reason : String) (db : Database)
    → IsKept db
    → IsKept (apply_found p ev reason (find? p db.executions) db).1
unfolding apply_found
apply_found-IsKept p ev reason db k = elim (Option-cases (find? p db.executions)) [
  | inl missing ↦ rw missing k
  | inr (e, found) ↦
      let (i, h) = found-IsHistory p e db k found in
      let g = apply_row-GoesOn i ev reason (loaded e db) h in
      rw found (
        put_row-IsKept p e (apply_row ev reason (loaded e db)).1 i h.known g.story.known db g.story
          g.others found k)
]

-- Whatever an event says, `apply` keeps the table of executions: the log tells the whole story of
-- every row, and no two rows have one id.
pub apply-IsKept :
    (user account : ℕ) (ev : OrderEvent) (reason : String) (db : Database)
    → IsKept db
    → IsKept (apply user account ev reason db).1
unfolding apply
apply-IsKept user account ev reason db k = elim (Bool-cases (has_identifier ev)) [
  | inl given ↦ rw given (apply_found-IsKept (is_event_row user account ev) ev reason db k)
  | inr missing ↦ rw missing k
]
