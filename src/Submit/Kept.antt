-- ===== src/Submit/Kept.antt =====
-- A submission's new row keeps the table of executions with its log.
use Prim.Native.String.{String}
use crypto_copy_trading_plat.Prelude.{
  ℕ, ◌≡◌, refl, ◌∙◌, none, some, [], find?, Bool-cases, Option-cases, inl, inr, arith,
}
use mathlib.Core.List.{append-nil}
use mathlib.Core.Path.{subst}
use crypto_copy_trading_plat.Prelude.{sym}
use crypto_copy_trading_plat.Domain.{
  RiskCheckResult, created, risk_passed, submitted, OrderExecutionStatus, risk_reasons,
}
use crypto_copy_trading_plat.Database.{Database}
use crypto_copy_trading_plat.OrderState.{
  Tracked, Step, record_initial_order_state, transition_order_execution, flush, add_row,
  transition_row,
}
use crypto_copy_trading_plat.OrderState.Branches.{record_initial_allowed}
use crypto_copy_trading_plat.OrderState.History.{history, history-add_row, record_initial-IsHistory}
use crypto_copy_trading_plat.Engine.{is_rejected, set_risk_result, set_error}
use crypto_copy_trading_plat.Orders.{add_execution}
use crypto_copy_trading_plat.Orders.Kept.{
  IsKept, IsFresh, add_execution-IsKept, same-IsKept, same-IsFresh,
}
use crypto_copy_trading_plat.Prelude.Exec.{modify, ◌>>=◌}
use crypto_copy_trading_plat.Prelude.{if◌then◌else◌}
use crypto_copy_trading_plat.Orders.Careful.{
  Careful, Careful-bind, flush-Careful, transition-Careful, GoesOn, GoesOn-trans, GoesOn-fields,
}
use crypto_copy_trading_plat.Submit.{Context}
use crypto_copy_trading_plat.Submit.Row.{
  Supply, new_submission, submit_row, reject_submission, start_submission, has_client_id,
  create_or_replay, is_own, with_signal, create_or_get_testnet_submission_execution,
}
use crypto_copy_trading_plat.Submit.Placed.{create_or_get_new, tables, risk_of, row_of, fresh_row}
use crypto_copy_trading_plat.Submit.Covered.{get_or_create_keeps}

-- The first row of a new execution is no row of another one.
pub first_row :
    (i : ℕ) (m : Tracked) (reason : String)
    → m.execution.id ≡ some i
    → m.execution.status ≡ created
    → history i m.log ≡ []
    → GoesOn i m (record_initial_order_state reason m).1
first_row i m reason known new fresh = record {
  story = record_initial-IsHistory i m reason known new fresh;
  others = λ j other. rw (record_initial_allowed m reason known new) (
      history-add_row j (transition_row i none created reason [] m) m
      ∙ unfold transition_row in ground (arith, append-nil (history j m.log)));
}

module _ (i : ℕ) (risk : RiskCheckResult) where
  reject-Careful : Careful i (reject_submission risk)
  unfolding reject_submission
  reject-Careful =
      let write : Step (Unit {0}) = modify (set_error (risk_reasons risk.reasons)) in
      let move =
        transition_order_execution OrderExecutionStatus.rejected "testnet_risk_rejected" [] in
      Careful-bind i (write >>= λ _. move) (λ _. modify flush)
        (Careful-bind i write (λ _. move)
          (λ m h. GoesOn-fields i m (set_error (risk_reasons risk.reasons) m).execution h refl refl)
          (λ _. transition-Careful i OrderExecutionStatus.rejected "testnet_risk_rejected" []))
        (λ _. flush-Careful i)

  start-Careful : Careful i start_submission
  unfolding start_submission
  start-Careful =
      let move = transition_order_execution risk_passed "testnet_risk_passed" [] in
      let next = transition_order_execution submitted "testnet_order_submission_started" [] in
      Careful-bind i (move >>= λ _. next) (λ _. modify flush)
        (Careful-bind i move (λ _. next) (transition-Careful i risk_passed "testnet_risk_passed" [])
          (λ _. transition-Careful i submitted "testnet_order_submission_started" []))
        (λ _. flush-Careful i)

  after_risk-Careful :
      Careful i (if is_rejected risk then reject_submission risk else start_submission)
  after_risk-Careful = elim (Bool-cases (is_rejected risk)) [
    | inl rejects ↦ rw rejects reject-Careful
    | inr passes ↦ rw passes start-Careful
  ]

  submit_row-GoesOn :
      (m : Tracked)
      → m.execution.id ≡ some i
      → m.execution.status ≡ created
      → history i m.log ≡ []
      → GoesOn i m (submit_row risk m).1
  unfolding submit_row
  submit_row-GoesOn m known new fresh =
      let t = transition_row i none created "testnet_execution_created" [] m in
      let starts = record_initial_allowed m "testnet_execution_created" known new in
      let opened = first_row i m "testnet_execution_created" known new fresh in
      let first : GoesOn i m (add_row t m) = rw starts at opened in
      let write : Step (Unit {0}) = modify (set_risk_result risk) in
      let rest : Step (Unit {0}) =
        if is_rejected risk then reject_submission risk else start_submission in
      let after : Careful i (write >>= λ _. rest) =
        Careful-bind i write (λ _. rest)
          (λ m' h. GoesOn-fields i m' (set_risk_result risk m').execution h refl refl)
          (λ _. after_risk-Careful) in
      rw starts (
        GoesOn-trans i m (add_row t m) ((write >>= λ _. rest) (add_row t m)).1 first
          (after (add_row t m) first.story))

row_of-IsKept :
    (supply : Supply) (user : ℕ) (c : Context) (db : Database)
    → IsFresh supply.execution_id db
    → IsKept db
    → IsKept (add_execution (row_of supply user c db) (tables supply user c db))
row_of-IsKept supply user c db fresh k =
    let i = supply.execution_id in
    let signalled = with_signal supply user c db in
    let db' = tables supply user c db in
    let (rows, log) = get_or_create_keeps supply.settings_id user c.account.id signalled in
    let start = fresh_row supply user c db'.log in
    let g =
      submit_row-GoesOn i (risk_of supply user c db) start (unfold new_submission in refl)
        (unfold new_submission in refl) (same-IsFresh i db db' rows log fresh).no_log in
    add_execution-IsKept i (row_of supply user c db) db' g.story g.others
      (same-IsFresh i db db' rows log fresh) (same-IsKept db db' rows log k)

-- A submission under an id that no row and no log entry has keeps the table of executions, whether
-- the call makes a row, rejects it, replays one or raises.
pub create_or_get-IsKept :
    (supply : Supply) (user : ℕ) (c : Context) (db : Database)
    → IsFresh supply.execution_id db
    → IsKept db
    → IsKept (create_or_get_testnet_submission_execution supply user c db).1
unfolding create_or_get_testnet_submission_execution create_or_replay
create_or_get-IsKept supply user c db fresh k =
    elim (Option-cases (find? (has_client_id c.order.client_order_id) db.executions)) [
      | inr (e, found) ↦ elim (Bool-cases (is_own user c e)) [
        | inl own ↦ rw (found, own) k
        | inr other ↦ rw (found, other) k
      ]
      | inl new ↦
          let (tabled, ends) = create_or_get_new supply user c db new in
          subst IsKept (sym tabled) (row_of-IsKept supply user c db fresh k)
    ]
