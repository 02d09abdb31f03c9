-- ===== src/Lifecycle/Branches.antt =====
-- What `apply` does to the execution that it found, on each branch.
use Prim.Native.String.{String}
use crypto_copy_trading_plat.Prelude.{
  ℕ, ◌≡◌, refl, true, false, not, ◌&&◌, some, Bool-cases, Option-cases, inl, inr,
}
use crypto_copy_trading_plat.Prelude.Exec.{ok}
use crypto_copy_trading_plat.Domain.{OrderExecution, status_eq}
use crypto_copy_trading_plat.OrderState.{
  Tracked, may_move, set_status, transition_row, add_row, flush,
}
use crypto_copy_trading_plat.OrderState.Branches.{transition_allowed, transition_refused}
use crypto_copy_trading_plat.Lifecycle.{
  OrderEvent, execution_result, duplicate_event, stale_event, transitioned, is_given,
  exchange_column, safe_transition_details, fill_exchange_id, apply_row, settle,
}

module _ (ev : OrderEvent) (reason : String) (m : Tracked) where
  pub apply_row_duplicate :
      status_eq m.execution.status ev.status ≡ true
      → apply_row ev reason m
        ≡ (ok (execution_result false true true duplicate_event m.execution), m)
  unfolding apply_row
  apply_row_duplicate same = rw same refl

  pub apply_row_stale :
      status_eq m.execution.status ev.status ≡ false
      → may_move m.execution.status ev.status ≡ false
      → apply_row ev reason m ≡ (ok (execution_result false false true stale_event m.execution), m)
  unfolding apply_row settle
  apply_row_stale other refused =
      rw (other, transition_refused m ev.status reason (safe_transition_details ev) refused) refl

  pub apply_row_moves :
      {i : ℕ}
      → m.execution.id ≡ some i
      → status_eq m.execution.status ev.status ≡ false
      → may_move m.execution.status ev.status ≡ true
      → let details = safe_transition_details ev in
        let t =
          transition_row i
            (some m.execution.status)
            ev.status
            reason
            details
            (set_status ev.status m) in
        let m' = add_row t (set_status ev.status m) in
        let m'' = flush (record m' { execution = fill_exchange_id ev m'.execution }) in
        apply_row ev reason m
        ≡ (ok (execution_result true false false transitioned m''.execution), m'')
  unfolding apply_row settle
  apply_row_moves known other allowed =
      rw (other, transition_allowed m ev.status reason (safe_transition_details ev) known allowed)
        refl

-- The exchange's id is all that `fill_exchange_id` may change.
pub fill_same :
    (ev : OrderEvent) (e : OrderExecution)
    → let e' = fill_exchange_id ev e in (e'.id ≡ e.id) × (e'.status ≡ e.status)
fill_same ev e =
    elim (Bool-cases (is_given ev.exchange_order_id && not (is_given (exchange_column e)))) [
      | inl fills ↦ elim (Option-cases ev.exchange_order_id) [
        | inl missing ↦ rw (fills, missing) (refl, refl)
        | inr (t, given) ↦ rw (fills, given) (refl, refl)
      ]
      | inr keeps ↦ rw keeps (refl, refl)
    ]
