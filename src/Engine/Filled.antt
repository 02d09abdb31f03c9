-- ===== src/Engine/Filled.antt =====
-- What a new execution ends as, without the code's own tests.
use crypto_copy_trading_plat.Prelude.{
  ℕ, ◌≡◌, refl, ap, ◌∙◌, true, false, Option, some, none, [], ◌∷◌, ◌++◌, find?, arith, Bool-cases,
  inl, inr,
}
use crypto_copy_trading_plat.Prelude.Exec.{ok}
use crypto_copy_trading_plat.Domain.{
  RiskDecision, RiskCheckResult, passed, created, failed, OrderExecution, ExchangeAccount,
  client_id_eq,
}
use crypto_copy_trading_plat.Database.{Database}
use crypto_copy_trading_plat.Risk.{get_or_create_risk_settings}
use crypto_copy_trading_plat.Position.{apply_fill}
use crypto_copy_trading_plat.Prelude.Int.{ℤ, pos, ◌≤ℤ◌, ltb_ℤ}
use crypto_copy_trading_plat.Risk.Check.{Permits, check_order_risk_iff}
use crypto_copy_trading_plat.Engine.{
  FailureAlert, risk_rejected, unknown, is_rejected, Supply, risk_input, must_fail, failure_alert,
  execute_new,
}
use crypto_copy_trading_plat.Engine.Placement.{failed_execution, filled_execution}
use crypto_copy_trading_plat.Engine.Outcome.{execute_new-Saved, risk_of}

-- Making the risk settings writes neither executions nor positions.
made_rows :
    (supply : Supply) (e : OrderExecution) (account : ExchangeAccount) (db : Database)
    → let made = (get_or_create_risk_settings supply.settings_id e.user_id account.id db).1 in
      (made.executions ≡ db.executions) × (made.positions ≡ db.positions)
unfolding get_or_create_risk_settings
made_rows supply e account db = ground arith

-- What may be filled, said without the code's tests: every condition of the risk check holds under
-- the account's settings, and the quantity is positive.
abbrev pub MayFill : Supply → ExchangeAccount → OrderExecution → Database → Type 0
MayFill supply account e db =
    Permits account (get_or_create_risk_settings supply.settings_id e.user_id account.id db).0
      (risk_input e) false
    × (e.quantity ≤ℤ pos 0 → ⊥)

-- The alert of a failure, where there is a runtime for it.
pub record IsAlerted (supply : Supply) (risk : RiskCheckResult) (alert : Option FailureAlert)
    : Type 0 where
  pub silent : supply.has_runtime ≡ false → alert ≡ none
  pub by_risk :
      supply.has_runtime ≡ true
      → risk.decision ≡ RiskDecision.rejected
      → alert ≡ some (record { status = failed; failure_type = risk_rejected })
  pub by_quantity :
      supply.has_runtime ≡ true
      → risk.decision ≡ passed
      → alert ≡ some (record { status = failed; failure_type = unknown })

failure_alert-IsAlerted :
    (supply : Supply) (risk : RiskCheckResult) (e : OrderExecution)
    → e.status ≡ failed
    → IsAlerted supply risk (failure_alert supply.has_runtime risk e)
unfolding failure_alert
failure_alert-IsAlerted supply risk e fails = record {
  silent = λ off. rw off refl;
  by_risk = λ on rejects. rw (on, rejects, fails) refl;
  by_quantity = λ on passes. rw (on, passes, fails) refl;
}

not_rejected : (risk : RiskCheckResult) → is_rejected risk ≡ false → risk.decision ≡ passed
not_rejected risk h = ground arith

positive : (a : ℤ) → (a ≤ℤ pos 0 → ⊥) → ltb_ℤ (pos 0) a ≡ true
positive a h = elim (Bool-cases (ltb_ℤ (pos 0) a)) [
  | inl above ↦ above
  | inr low ↦ absurd (h (ground arith))
]

must_fail-MayFill :
    (supply : Supply) (account : ExchangeAccount) (e : OrderExecution) (db : Database)
    → MayFill supply account e db
    → must_fail (risk_of supply account e db) e.quantity ≡ false
unfolding must_fail
must_fail-MayFill supply account e db may =
    let iff =
      check_order_risk_iff account
        (get_or_create_risk_settings supply.settings_id e.user_id account.id db).0 (risk_input e)
        false in
    let above : ltb_ℤ (pos 0) e.quantity ≡ true = positive e.quantity may.1 in
    rw (iff.1 may.0, above) refl

must_fail_otherwise :
    (supply : Supply) (account : ExchangeAccount) (e : OrderExecution) (db : Database)
    → (MayFill supply account e db → ⊥)
    → must_fail (risk_of supply account e db) e.quantity ≡ true
unfolding must_fail
must_fail_otherwise supply account e db stays =
    let iff =
      check_order_risk_iff account
        (get_or_create_risk_settings supply.settings_id e.user_id account.id db).0 (risk_input e)
        false in
    elim (Bool-cases (is_rejected (risk_of supply account e db))) [
      | inl rejects ↦ rw rejects refl
      | inr passes ↦ elim (Bool-cases (ltb_ℤ (pos 0) e.quantity)) [
        | inl above ↦
            absurd (
              stays
                (iff.0 (not_rejected (risk_of supply account e db) passes), λ low. ground arith))
        | inr low ↦ rw (passes, low) refl
      ]
    ]

-- A new execution whose client order id is not taken ends `FILLED`, with the fill applied to its
-- position and no alert, when every condition of the risk check holds and its quantity is positive,
-- and else ends `FAILED`, with no change of a position. The call returns the execution as it is
-- saved. A failure comes with an alert exactly with an alert runtime, which names the risk check
-- where that rejects the order, and else an unknown cause.
pub execute_new_outcome :
    (supply : Supply) (account : ExchangeAccount) (e : OrderExecution) (db : Database) {i : ℕ}
    → e.id ≡ some i
    → e.status ≡ created
    → find? (λ x. client_id_eq x.client_order_id e.client_order_id) db.executions ≡ none
    → let r = execute_new supply account e db in
      let risk = risk_of supply account e db in
      (MayFill supply account e db
        → (r.0 ≡ ok (filled_execution risk e, none))
          × (r.1.executions ≡ db.executions ++ filled_execution risk e ∷ [])
          × (r.1.positions
              ≡ apply_fill e.user_id e.exchange_account_id e.symbol e.side e.quantity db.positions))
      × ((MayFill supply account e db → ⊥)
          → ((alert : Option FailureAlert) × (r.0 ≡ ok (failed_execution risk e, alert))
              × IsAlerted supply risk alert)
            × (r.1.executions ≡ db.executions ++ failed_execution risk e ∷ [])
            × (r.1.positions ≡ db.positions))
execute_new_outcome supply account e db known new free =
    let s = execute_new-Saved supply account e db known new free in
    let risk = risk_of supply account e db in
    let made = made_rows supply e account db in
    (
      λ may.
          let (answer, rows, held) = s.fills (must_fail-MayFill supply account e db may) in
          (
            answer,
            rows ∙ ap (λ es. es ++ filled_execution risk e ∷ []) made.0,
            held
                ∙ ap (apply_fill e.user_id e.exchange_account_id e.symbol e.side e.quantity) made.1,
          ),
      λ stays.
          let (answer, rows, held) = s.fails (must_fail_otherwise supply account e db stays) in
          (
            (
              failure_alert supply.has_runtime risk (failed_execution risk e),
              answer,
              failure_alert-IsAlerted supply risk (failed_execution risk e) refl,
            ),
            rows ∙ ap (λ es. es ++ failed_execution risk e ∷ []) made.0,
            held ∙ made.1,
          ),
    )
