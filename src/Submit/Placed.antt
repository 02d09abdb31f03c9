-- ===== src/Submit/Placed.antt =====
-- The row of a new submission, as the risk check and the commit leave it.
use crypto_copy_trading_plat.Prelude.{
  ℕ, ◌≡◌, refl, true, false, none, some, find?, Bool-cases, inl, inr, ◌⊎◌,
}
use crypto_copy_trading_plat.Prelude.Exec.{Result, ok, err}
use crypto_copy_trading_plat.Domain.{
  RiskCheckResult, submitted, OrderExecution, OrderExecutionStatus, risk_reasons,
}
use crypto_copy_trading_plat.Database.{Database}
use crypto_copy_trading_plat.OrderState.{
  TransitionLog, Tracked, OrderStateError, record_initial_order_state, transition_order_execution,
  flush,
}
use crypto_copy_trading_plat.Risk.{check_order_risk, get_or_create_risk_settings}
use crypto_copy_trading_plat.Engine.{is_rejected}
use crypto_copy_trading_plat.Orders.{add_execution}
use crypto_copy_trading_plat.Submit.{Context, risk_rejected}
use crypto_copy_trading_plat.Submit.Row.{
  Supply, new_submission, submit_row, has_client_id, with_signal, submission_risk, create_or_replay,
  create_submission, settle_submission, create_or_get_testnet_submission_execution,
}

abbrev pub started_row : RiskCheckResult → OrderExecution → OrderExecution
started_row risk e = record e { risk_result = some risk; status = submitted }

abbrev pub rejected_row : RiskCheckResult → OrderExecution → OrderExecution
rejected_row risk e = record e {
  risk_result = some risk;
  error_message = some (risk_reasons risk.reasons);
  status = OrderExecutionStatus.rejected;
}

module _ (risk : RiskCheckResult) (db : Database) (r : Result OrderStateError (Unit {0}) × Tracked)
    (done : r.0 ≡ ok tt) where
  settle_rejects :
      is_rejected risk ≡ true
      → settle_submission risk db r ≡ (err risk_rejected, add_execution r.1 db)
  unfolding settle_submission
  settle_rejects rejects = rw (done, rejects) refl

  settle_starts :
      is_rejected risk ≡ false
      → settle_submission risk db r ≡ (
        ok (record { execution = r.1.execution; idempotent_replay = false }),
        add_execution r.1 db,
      )
  unfolding settle_submission
  settle_starts passes = rw (done, passes) refl

module _ (supply : Supply) (user : ℕ) (c : Context) where
  abbrev pub fresh_row : TransitionLog → Tracked
  fresh_row log = record { execution = new_submission supply user c; log = log }

  pub submit_row_starts :
      (risk : RiskCheckResult) (log : TransitionLog)
      → is_rejected risk ≡ false
      → let r = submit_row risk (fresh_row log) in
        (r.0 ≡ ok tt) × (r.1.execution ≡ started_row risk (new_submission supply user c))
  unfolding submit_row record_initial_order_state transition_order_execution flush new_submission
  submit_row_starts risk log passes = rw passes (refl, refl)

  pub submit_row_rejects :
      (risk : RiskCheckResult) (log : TransitionLog)
      → is_rejected risk ≡ true
      → let r = submit_row risk (fresh_row log) in
        (r.0 ≡ ok tt) × (r.1.execution ≡ rejected_row risk (new_submission supply user c))
  unfolding submit_row record_initial_order_state transition_order_execution flush new_submission
  submit_row_rejects risk log rejects = rw rejects (refl, refl)

  -- The tables, the risk check and the row of a submission with a new client order id.
  abbrev pub tables : Database → Database
  tables db =
      (get_or_create_risk_settings supply.settings_id user c.account.id
        (with_signal supply user c db)).1

  abbrev pub risk_of : Database → RiskCheckResult
  risk_of db =
      check_order_risk c.account
        (get_or_create_risk_settings supply.settings_id user c.account.id
          (with_signal supply user c db)).0
        (submission_risk c) true

  abbrev pub submitted_row : Database → Result OrderStateError (Unit {0}) × Tracked
  submitted_row db = submit_row (risk_of db) (fresh_row (tables db).log)

  abbrev pub row_of : Database → Tracked
  row_of db = (submitted_row db).1

  -- A client order id that no row has gives a new row, which is kept in either case: submitted, and
  -- handed back, if the risk check passes the order, and rejected, with an error, if it does not.
  pub create_or_get_new :
      (db : Database)
      → find? (has_client_id c.order.client_order_id) db.executions ≡ none
      → let risk = risk_of db in
        let e = new_submission supply user c in
        let r = create_or_get_testnet_submission_execution supply user c db in
        (r.1 ≡ add_execution (row_of db) (tables db))
        × (((is_rejected risk ≡ true)
              × (r.0 ≡ err risk_rejected)
              × ((row_of db).execution ≡ rejected_row risk e))
            ⊎ ((is_rejected risk ≡ false)
                × (r.0 ≡ ok (record { execution = started_row risk e; idempotent_replay = false }))
                × ((row_of db).execution ≡ started_row risk e)))
  unfolding create_or_get_testnet_submission_execution create_or_replay create_submission
  create_or_get_new db new = elim (Bool-cases (is_rejected (risk_of db))) [
    | inl rejects ↦
        let (done, row) = submit_row_rejects (risk_of db) (tables db).log rejects in
        rw (new, settle_rejects (risk_of db) (tables db) (submitted_row db) done rejects)
          (refl, inl (rejects, refl, row))
    | inr passes ↦
        let (done, row) = submit_row_starts (risk_of db) (tables db).log passes in
        rw (new, settle_starts (risk_of db) (tables db) (submitted_row db) done passes)
          (refl, inr (passes, rw row refl, row))
  ]
