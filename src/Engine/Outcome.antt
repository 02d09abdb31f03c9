-- ===== src/Engine/Outcome.antt =====
-- What a call of the engine leaves behind, on every branch.
use crypto_copy_trading_plat.Prelude.{
  ℕ, ◌≡◌, refl, Bool, true, false, some, none, [], ◌∷◌, ◌++◌, find?, arith,
}
use crypto_copy_trading_plat.Prelude.Exec.{Result, ok, err}
use crypto_copy_trading_plat.Domain.{
  RiskCheckResult, created, OrderExecution, ExchangeAccount, client_id_eq,
}
use crypto_copy_trading_plat.Database.{Database}
use crypto_copy_trading_plat.OrderState.{TransitionLog, Tracked, OrderStateError}
use crypto_copy_trading_plat.Risk.{check_order_risk, get_or_create_risk_settings}
use crypto_copy_trading_plat.Position.{apply_fill}
use crypto_copy_trading_plat.Emergency.{new_orders_allowed}
use crypto_copy_trading_plat.Engine.{
  Supply, EngineError, stop_enabled, Outcome, risk_input, must_fail, place, finish, failure_alert,
  execute_new, execute_signal_for_account,
}
use crypto_copy_trading_plat.Engine.Placement.{
  failed_execution, filled_execution, place_fails, place_fills,
}

-- The end of a call whose new row is saved: the row in its last form, its alert, and the tables.
pub record Saved (supply : Supply) (risk : RiskCheckResult) (e : OrderExecution) (db : Database)
    (r : Result EngineError Outcome × Database) : Type 0 where
  pub signals : r.1.signals ≡ db.signals
  pub accounts : r.1.accounts ≡ db.accounts
  pub control : r.1.control ≡ db.control
  pub settings : r.1.settings ≡ db.settings
  pub fails :
      must_fail risk e.quantity ≡ true
      → (r.0
          ≡ ok (
            failed_execution risk e,
            failure_alert supply.has_runtime risk (failed_execution risk e),
          ))
        × (r.1.executions ≡ db.executions ++ failed_execution risk e ∷ [])
        × (r.1.positions ≡ db.positions)
  pub fills :
      must_fail risk e.quantity ≡ false
      → (r.0 ≡ ok (filled_execution risk e, none))
        × (r.1.executions ≡ db.executions ++ filled_execution risk e ∷ [])
        × (r.1.positions
            ≡ apply_fill e.user_id e.exchange_account_id e.symbol e.side e.quantity db.positions)

-- The tables after a call that has saved the execution `x`.
abbrev pub saved : OrderExecution → TransitionLog → Database → Database
saved x log db = record db { executions = db.executions ++ x ∷ []; log = log }

module _ (has_runtime : Bool) (risk : RiskCheckResult) (db : Database) (x : OrderExecution) where
  finish_failed :
      (p : Result OrderStateError (Unit {0}) × Tracked)
      → p.0 ≡ ok tt
      → p.1.execution ≡ x
      → must_fail risk x.quantity ≡ true
      → finish p has_runtime risk db
        ≡ (ok (x, failure_alert has_runtime risk x), saved x p.1.log db)
  unfolding finish
  finish_failed (ok u, m) done row fails = rw (row, fails) refl
  finish_failed (err e, m) done row fails = cc

  finish_filled :
      (p : Result OrderStateError (Unit {0}) × Tracked)
      → p.0 ≡ ok tt
      → p.1.execution ≡ x
      → must_fail risk x.quantity ≡ false
      → finish p has_runtime risk db ≡ (
        ok (x, none),
        record (saved x p.1.log db) {
          positions =
              apply_fill x.user_id x.exchange_account_id x.symbol x.side x.quantity db.positions;
        },
      )
  unfolding finish
  finish_filled (ok u, m) done row fills = rw (row, fills) refl
  finish_filled (err e, m) done row fills = cc

-- The end of a call leaves the tables that it does not write.
finish_keeps :
    (has_runtime : Bool) (risk : RiskCheckResult) (db : Database)
    (p : Result OrderStateError (Unit {0}) × Tracked)
    → let db' = (finish p has_runtime risk db).1 in
      (db'.signals ≡ db.signals)
      × (db'.accounts ≡ db.accounts)
      × (db'.control ≡ db.control)
      × (db'.settings ≡ db.settings)
unfolding finish
finish_keeps has_runtime risk db (ok u, m) = ground arith
finish_keeps has_runtime risk db (err e, m) = (refl, refl, refl, refl)

finish-Saved :
    (supply : Supply) (risk : RiskCheckResult) (e : OrderExecution) (db : Database) {i : ℕ}
    → e.id ≡ some i
    → e.status ≡ created
    → Saved supply risk e db (
        finish
          (place risk e.quantity (record { execution = e; log = db.log }))
          supply.has_runtime
          risk
          db)
finish-Saved supply risk e db known new =
    let kept =
      finish_keeps supply.has_runtime risk db
        (place risk e.quantity (record { execution = e; log = db.log })) in
    record {
      signals = kept.0;
      accounts = kept.1;
      control = kept.2;
      settings = kept.3;
      fails = λ h.
          let (done, row) = place_fails risk e.quantity e db.log known new h in
          rw
            (finish_failed supply.has_runtime risk db (failed_execution risk e)
              (place risk e.quantity (record { execution = e; log = db.log })) done row h)
            (refl, refl, refl);
      fills = λ h.
          let (done, row) = place_fills risk e.quantity e db.log known new h in
          rw
            (finish_filled supply.has_runtime risk db (filled_execution risk e)
              (place risk e.quantity (record { execution = e; log = db.log })) done row h)
            (refl, refl, refl);
    }

-- What the risk check of a new execution says, with the settings that it finds or makes.
abbrev pub risk_of : Supply → ExchangeAccount → OrderExecution → Database → RiskCheckResult
risk_of supply account e db =
    check_order_risk account
      (get_or_create_risk_settings supply.settings_id e.user_id account.id db).0 (risk_input e)
      false

-- The call with a free client order id in terms of the code's own test.
pub execute_new-Saved :
    (supply : Supply) (account : ExchangeAccount) (e : OrderExecution) (db : Database) {i : ℕ}
    → e.id ≡ some i
    → e.status ≡ created
    → find? (λ x. client_id_eq x.client_order_id e.client_order_id) db.executions ≡ none
    → Saved supply
        (risk_of supply account e db)
        e
        (get_or_create_risk_settings supply.settings_id e.user_id account.id db).1
        (execute_new supply account e db)
unfolding execute_new
execute_new-Saved supply account e db known new free =
    rw (execute_new, free)
      (finish-Saved supply (risk_of supply account e db) e
        (get_or_create_risk_settings supply.settings_id e.user_id account.id db).1 known new)

-- While the emergency stop is on, the call raises and changes nothing.
pub execute_signal_stopped :
    (supply : Supply) (user signal account : ℕ) (db : Database)
    → new_orders_allowed db ≡ false
    → execute_signal_for_account supply user signal account db ≡ (err stop_enabled, db)
unfolding execute_signal_for_account
execute_signal_stopped supply user signal account db stopped = rw stopped refl
