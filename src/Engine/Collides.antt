-- ===== src/Engine/Collides.antt =====
-- Two signals whose ids begin alike have one client order id on an account.
use crypto_copy_trading_plat.Prelude.{
  ℕ, ◌≡◌, ◌≢◌, refl, sym, ap, ◌∙◌, true, false, Option, some, none, List, [], ◌∷◌, ◌++◌, find?,
  arith, Bool-cases, Option-cases, inl, inr,
}
use crypto_copy_trading_plat.Prelude.Exec.{ok, err}
use crypto_copy_trading_plat.Domain.{
  OrderSide, created, OrderExecution, RiskCheckResult, ClientOrderId, client_id_text,
  ExchangeAccount, client_id_eq, derived, id_prefix, TradingSignal, Position,
}
use crypto_copy_trading_plat.Decimal.{Decimal}
use crypto_copy_trading_plat.Prelude.Text.{text_eq_refl}
use crypto_copy_trading_plat.Database.{Database}
use crypto_copy_trading_plat.Database.Rows.{find?-append_some, find?-append_other}
use crypto_copy_trading_plat.Risk.{get_or_create_risk_settings}
use crypto_copy_trading_plat.Engine.{
  Supply, integrity, FailureAlert, is_execution_of, resolve_side_and_quantity, new_execution,
  must_fail, execute_new, execute_owned,
}
use crypto_copy_trading_plat.Engine.Placement.{failed_execution, filled_execution}
use crypto_copy_trading_plat.Engine.Outcome.{Saved, execute_new-Saved, risk_of}
use crypto_copy_trading_plat.Engine.Replay.{
  get_or_create-SameTables, ok_execution, execute_new_taken,
}

-- The rows after a call that made the execution `e` from `e0`.
record AddedAs (e0 e : OrderExecution) (db db' : Database) : Type 0 where
  added : db'.executions ≡ db.executions ++ e ∷ []
  client : e.client_order_id ≡ e0.client_order_id
  signal : e.signal_id ≡ e0.signal_id

Saved-AddedAs :
    (supply : Supply) (risk : RiskCheckResult) (e0 e : OrderExecution) (made db db' : Database)
    (alert : Option FailureAlert)
    → Saved supply risk e0 made (ok (e, alert), db')
    → made.executions ≡ db.executions
    → AddedAs e0 e db db'
Saved-AddedAs supply risk e0 e made db db' alert s same =
    elim (Bool-cases (must_fail risk e0.quantity)) [
      | inl fails ↦
          let (answer, rows, held) = s.fails fails in
          let this = ok_execution answer in
          record {
            added =
                rows
                ∙ ap (λ es. es ++ failed_execution risk e0 ∷ []) same
                ∙ ap (λ x. db.executions ++ x ∷ []) (sym this);
            client = ap (λ x. x.client_order_id) this;
            signal = ap (λ x. x.signal_id) this;
          }
      | inr fills ↦
          let (answer, rows, held) = s.fills fills in
          let this = ok_execution answer in
          record {
            added =
                rows
                ∙ ap (λ es. es ++ filled_execution risk e0 ∷ []) same
                ∙ ap (λ x. db.executions ++ x ∷ []) (sym this);
            client = ap (λ x. x.client_order_id) this;
            signal = ap (λ x. x.signal_id) this;
          }
    ]

execute_new-AddedAs :
    (supply : Supply) (account : ExchangeAccount) (e0 e : OrderExecution) (db db' : Database)
    (alert : Option FailureAlert) {i : ℕ}
    → e0.id ≡ some i
    → e0.status ≡ created
    → execute_new supply account e0 db ≡ (ok (e, alert), db')
    → AddedAs e0 e db db'
execute_new-AddedAs supply account e0 e db db' alert known new h =
    elim (Option-cases
      (find? (λ x. client_id_eq x.client_order_id e0.client_order_id) db.executions)) [
        | inl free ↦
            let made = get_or_create_risk_settings supply.settings_id e0.user_id account.id db in
            Saved-AddedAs supply (risk_of supply account e0 db) e0 e made.1 db db' alert
              (rw h at (execute_new-Saved supply account e0 db known new free))
              (get_or_create-SameTables supply.settings_id e0.user_id account.id db).executions
        | inr (x, taken) ↦ cc (execute_new_taken supply account e0 db x taken)
      ]

-- The execution that a first call of a signal makes has the client order id of the signal.
execute_owned-Added :
    (supply : Supply) (user : ℕ) (signal : TradingSignal) (account : ExchangeAccount)
    (db db' : Database) (e : OrderExecution) (alert : Option FailureAlert)
    → find? (is_execution_of signal.id account.id) db.executions ≡ none
    → execute_owned supply user signal account db ≡ (ok (e, alert), db')
    → (db'.executions ≡ db.executions ++ e ∷ [])
      × (e.client_order_id ≡ derived (id_prefix signal.id) (id_prefix account.id))
      × (e.signal_id ≡ signal.id)
unfolding execute_owned new_execution
execute_owned-Added supply user signal account db db' e alert missing h =
    elim (Option-cases (resolve_side_and_quantity signal account db.positions)) [
      | inl unresolved ↦ cc (rw (execute_owned, missing, unresolved) at h)
      | inr ((side, quantity, rows), resolved) ↦
          let e0 = new_execution supply.execution_id user signal account side quantity in
          let r =
            execute_new-AddedAs supply account e0 e (record db { positions = rows }) db' alert refl
              refl (rw (execute_owned, missing, resolved) at h) in
          (r.added, r.client, r.signal)
    ]

other_signal :
    (a b account : ℕ) (e : OrderExecution)
    → e.signal_id ≡ a
    → a ≢ b
    → is_execution_of b account e ≡ false
other_signal a b account e h differ = ground (arith, differ)

taken_by_prefix :
    (a b c : ℕ) (id : ClientOrderId)
    → id ≡ derived a c
    → a ≡ b
    → client_id_eq id (derived b c) ≡ true
unfolding client_id_eq
taken_by_prefix a b c id h same = rw (h, same) (text_eq_refl (client_id_text (derived b c)))

-- Two signals whose ids begin with the same 8 hexadecimal digits cannot both be executed on one
-- account. Once the first has been executed by a call that made its execution, the call for the
-- second, which has no execution and a side and quantity, fails with an integrity error and makes
-- no execution.
pub execute_owned_collides :
    (supply supply' : Supply) (user : ℕ) (first second : TradingSignal) (account : ExchangeAccount)
    (db db' : Database) (e : OrderExecution) (alert : Option FailureAlert) {side : OrderSide}
    {quantity : Decimal} {rows : List Position}
    → first.id ≢ second.id
    → id_prefix first.id ≡ id_prefix second.id
    → find? (is_execution_of first.id account.id) db.executions ≡ none
    → find? (is_execution_of second.id account.id) db.executions ≡ none
    → execute_owned supply user first account db ≡ (ok (e, alert), db')
    → resolve_side_and_quantity second account db'.positions ≡ some (side, quantity, rows)
    → execute_owned supply' user second account db'
      ≡ (err integrity, record db' { positions = rows })
unfolding execute_owned
execute_owned_collides supply supply' user first second account db db' e alert differ same missing
      missing' h resolved =
    let (rows', client, signal) =
      execute_owned-Added supply user first account db db' e alert missing h in
    let id = derived (id_prefix second.id) (id_prefix account.id) in
    let absent : find? (is_execution_of second.id account.id) db'.executions ≡ none =
      ap (find? (is_execution_of second.id account.id)) rows'
      ∙ find?-append_other (is_execution_of second.id account.id) db.executions e missing'
          (other_signal first.id second.id account.id e signal differ) in
    let (x, found) =
      find?-append_some (λ y. client_id_eq y.client_order_id id) db.executions e
        (taken_by_prefix (id_prefix first.id) (id_prefix second.id) (id_prefix account.id)
          e.client_order_id client same) in
    let taken : find? (λ y. client_id_eq y.client_order_id id) db'.executions ≡ some x =
      ap (find? (λ y. client_id_eq y.client_order_id id)) rows' ∙ found in
    rw (execute_owned, absent, resolved, execute_new, taken) refl
