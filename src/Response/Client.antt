-- ===== src/Response/Client.antt =====
-- No answer of an exchange changes the client order id of an execution.
use Prim.Native.String.{String}
use crypto_copy_trading_plat.Prelude.{
  ◌≡◌, refl, ◌∙◌, Option, none, some, List, Bool-cases, Option-cases, inl, inr,
}
use crypto_copy_trading_plat.Prelude.Text.{Text}
use crypto_copy_trading_plat.Prelude.Exec.{Result, ok, err}
use crypto_copy_trading_plat.Json.{Json, Fields}
use crypto_copy_trading_plat.Domain.{OrderExecutionStatus, submitted, accepted, failed, status_eq}
use crypto_copy_trading_plat.OrderState.{
  Tracked, OrderStateError, may_move, transition_order_execution, flush,
}
use crypto_copy_trading_plat.Response.{
  moved, safe_fields, is_exchange_rejection, exchange_order_id, set_exchange_response,
  set_exchange_order_id, set_failure, store_acceptance, record_testnet_submission_failure,
  record_testnet_submission_accepted,
}

-- A move leaves the client order id.
transition_client :
    (m : Tracked) (to : OrderExecutionStatus) (reason : String) (details : List (String × Text))
    → (transition_order_execution to reason details m).1.execution.client_order_id
      ≡ m.execution.client_order_id
unfolding transition_order_execution
transition_client m to reason details = elim (Bool-cases (may_move m.execution.status to)) [
  | inl allowed ↦ elim (Option-cases m.execution.id) [
    | inl missing ↦ rw (allowed, missing) refl
    | inr (i, known) ↦ rw (allowed, known) refl
  ]
  | inr refused ↦ rw refused refl
]

moved_client :
    {A : Type 0} (p : Result OrderStateError A × Tracked)
    → (moved p).1.execution.client_order_id ≡ p.1.execution.client_order_id
unfolding moved flush
moved_client (ok a, m) = refl
moved_client (err e, m) = refl

set_exchange_order_id_client :
    (o : Option Text) (m : Tracked)
    → (set_exchange_order_id o m).execution.client_order_id ≡ m.execution.client_order_id
set_exchange_order_id_client none m = refl
set_exchange_order_id_client (some t) m = refl

pub failure_client :
    (type : Text) (m : Tracked)
    → (record_testnet_submission_failure type m).1.execution.client_order_id
      ≡ m.execution.client_order_id
unfolding record_testnet_submission_failure
failure_client type m = elim (Bool-cases (status_eq m.execution.status submitted)) [
  | inl waits ↦ rw waits (moved_client _ ∙ transition_client (set_failure m) failed _ _)
  | inr other ↦ rw other refl
]

pub accepted_client :
    (show : Json → Text) (answer : Fields) (m : Tracked)
    → (record_testnet_submission_accepted show answer m).1.execution.client_order_id
      ≡ m.execution.client_order_id
unfolding record_testnet_submission_accepted store_acceptance
accepted_client show answer m =
    let r = safe_fields answer in
    elim (Bool-cases (is_exchange_rejection m.execution.exchange_name r)) [
      | inl rejects ↦ rw rejects refl
      | inr takes ↦ elim (Bool-cases (status_eq m.execution.status submitted)) [
        | inl waits ↦
            let id = exchange_order_id show m.execution.exchange_name r in
            let m' = set_exchange_response r m in
            rw (takes, waits)
              (moved_client _
                ∙ transition_client (set_exchange_order_id id m') accepted _ _
                ∙ set_exchange_order_id_client id m')
        | inr other ↦ rw (takes, other) refl
      ]
    ]
