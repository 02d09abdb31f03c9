-- ===== src/Engine/Replay.antt =====
-- A signal is executed at most once on an account: a second call answers with the first execution.
use crypto_copy_trading_plat.Prelude.{
  ℕ, ◌≡◌, refl, sym, ◌∙◌, true, Option, some, none, List, [], ◌∷◌, ◌++◌, find?, arith, Bool-cases,
  Option-cases, inl, inr,
}
use crypto_copy_trading_plat.Prelude.Exec.{Result, ok, err}
use crypto_copy_trading_plat.Domain.{
  created, OrderExecution, ExchangeAccount, client_id_eq, TradingSignal,
}
use crypto_copy_trading_plat.Database.{Database, get_owned_account}
use crypto_copy_trading_plat.Database.Rows.{find?-append_none}
use crypto_copy_trading_plat.Risk.{get_or_create_risk_settings}
use crypto_copy_trading_plat.Emergency.{new_orders_allowed}
use crypto_copy_trading_plat.Engine.{
  Supply, EngineError, integrity, Outcome, FailureAlert, is_execution_of, get_owned_signal,
  resolve_side_and_quantity, new_execution, must_fail, execute_new, execute_owned,
  execute_signal_for_account,
}
use crypto_copy_trading_plat.Engine.Placement.{failed_execution, filled_execution}
use crypto_copy_trading_plat.Engine.Outcome.{Saved, execute_new-Saved, risk_of}

-- The later tables have the same signals, accounts and emergency stop, and hold `e` as the
-- execution of the signal on the account.
record IsRecorded (signal account : ℕ) (e : OrderExecution) (db db' : Database) : Type 0 where
  signals : db'.signals ≡ db.signals
  accounts : db'.accounts ≡ db.accounts
  control : db'.control ≡ db.control
  found : find? (is_execution_of signal account) db'.executions ≡ some e

-- Making the risk settings changes no other table.
pub record SameTables (db db' : Database) : Type 0 where
  pub signals : db'.signals ≡ db.signals
  pub accounts : db'.accounts ≡ db.accounts
  pub control : db'.control ≡ db.control
  pub executions : db'.executions ≡ db.executions

pub get_or_create-SameTables :
    (id user account : ℕ) (db : Database)
    → SameTables db (get_or_create_risk_settings id user account db).1
unfolding get_or_create_risk_settings
get_or_create-SameTables id user account db = ground arith

saved-found :
    (signal account : ℕ) (x : OrderExecution) (rows : List OrderExecution)
    → x.signal_id ≡ signal
    → x.exchange_account_id ≡ account
    → find? (is_execution_of signal account) rows ≡ none
    → find? (is_execution_of signal account) (rows ++ x ∷ []) ≡ some x
saved-found signal account x rows s a missing =
    find?-append_none (is_execution_of signal account) rows x missing (ground arith)

pub ok_execution :
    {x e : OrderExecution} {a b : Option FailureAlert}
    → ◌≡◌ {A = Result EngineError Outcome} (ok (e, a)) (ok (x, b))
    → e ≡ x
ok_execution h = ground arith

-- A client order id that is taken is an integrity error, and nothing is saved.
pub execute_new_taken :
    (supply : Supply) (account : ExchangeAccount) (e0 : OrderExecution) (db : Database)
    (x : OrderExecution)
    → find? (λ y. client_id_eq y.client_order_id e0.client_order_id) db.executions ≡ some x
    → execute_new supply account e0 db ≡ (err integrity, db)
unfolding execute_new
execute_new_taken supply account e0 db x taken = rw (execute_new, taken) refl

module _ (supply : Supply) (account : ExchangeAccount) (e0 : OrderExecution) (db : Database) {i : ℕ}
    (known : e0.id ≡ some i) (new : e0.status ≡ created)
    (missing : find? (is_execution_of e0.signal_id e0.exchange_account_id) db.executions
      ≡ none) where
  -- The answer of a call that saved is in the table.
  Saved-IsRecorded :
      (e : OrderExecution) (alert : Option FailureAlert) (db' made : Database)
      → Saved supply (risk_of supply account e0 db) e0 made (ok (e, alert), db')
      → SameTables db made
      → IsRecorded e0.signal_id e0.exchange_account_id e db db'
  Saved-IsRecorded e alert db' made s same =
      let risk = risk_of supply account e0 db in
      let key = is_execution_of e0.signal_id e0.exchange_account_id in
      let absent : find? key made.executions ≡ none = rw same.executions missing in
      record {
        signals = s.signals ∙ same.signals;
        accounts = s.accounts ∙ same.accounts;
        control = s.control ∙ same.control;
        found = elim (Bool-cases (must_fail risk e0.quantity)) [
          | inl fails ↦
              let (answer, rows, held) = s.fails fails in
              rw (rows, ok_execution answer)
                (saved-found e0.signal_id e0.exchange_account_id (failed_execution risk e0)
                  made.executions refl refl absent)
          | inr fills ↦
              let (answer, rows, held) = s.fills fills in
              rw (rows, ok_execution answer)
                (saved-found e0.signal_id e0.exchange_account_id (filled_execution risk e0)
                  made.executions refl refl absent)
        ];
      }

  execute_new-IsRecorded :
      (e : OrderExecution) (alert : Option FailureAlert) (db' : Database)
      → execute_new supply account e0 db ≡ (ok (e, alert), db')
      → IsRecorded e0.signal_id e0.exchange_account_id e db db'
  execute_new-IsRecorded e alert db' h =
      elim (Option-cases
        (find? (λ x. client_id_eq x.client_order_id e0.client_order_id) db.executions)) [
          | inl free ↦
              Saved-IsRecorded e alert db'
                (get_or_create_risk_settings supply.settings_id e0.user_id account.id db).1
                (rw h at (execute_new-Saved supply account e0 db known new free))
                (get_or_create-SameTables supply.settings_id e0.user_id account.id db)
          | inr (x, taken) ↦ cc (execute_new_taken supply account e0 db x taken)
        ]

execute_owned-IsRecorded :
    (supply : Supply) (user : ℕ) (signal : TradingSignal) (account : ExchangeAccount)
    (db db' : Database) (e : OrderExecution) (alert : Option FailureAlert)
    → execute_owned supply user signal account db ≡ (ok (e, alert), db')
    → IsRecorded signal.id account.id e db db'
unfolding execute_owned
execute_owned-IsRecorded supply user signal account db db' e alert h =
    elim (Option-cases (find? (is_execution_of signal.id account.id) db.executions)) [
      | inl missing ↦ elim (Option-cases (resolve_side_and_quantity signal account db.positions)) [
        | inl unresolved ↦ cc (rw (execute_owned, missing, unresolved) at h)
        | inr ((side, quantity, rows), resolved) ↦
            let e0 = new_execution supply.execution_id user signal account side quantity in
            let rec =
              execute_new-IsRecorded supply account e0 (record db { positions = rows }) refl refl
                missing e alert db' (rw (execute_owned, missing, resolved) at h) in
            record {
              signals = rec.signals;
              accounts = rec.accounts;
              control = rec.control;
              found = rec.found;
            }
      ]
      | inr (x, done) ↦ ground arith
    ]

-- The first part of a call, by the three rows that it reads.
pub execute_signal_found :
    (supply : Supply) (user signal_id account_id : ℕ) (db : Database) {signal : TradingSignal}
    {account : ExchangeAccount}
    → new_orders_allowed db ≡ true
    → get_owned_signal user signal_id db ≡ some signal
    → get_owned_account user account_id db ≡ some account
    → execute_signal_for_account supply user signal_id account_id db
      ≡ execute_owned supply user signal account db
unfolding execute_signal_for_account
execute_signal_found supply user signal_id account_id db allowed s a = rw (allowed, s, a) refl

module _ {signal account : ℕ} {e : OrderExecution} {db db' : Database}
    (rec : IsRecorded signal account e db db') where
  later_allowed : new_orders_allowed db' ≡ new_orders_allowed db
  unfolding new_orders_allowed
  later_allowed = rw rec.control refl

  later_signal : (user id : ℕ) → get_owned_signal user id db' ≡ get_owned_signal user id db
  unfolding get_owned_signal
  later_signal user id = rw rec.signals refl

  later_account : (user id : ℕ) → get_owned_account user id db' ≡ get_owned_account user id db
  unfolding get_owned_account
  later_account user id = rw rec.accounts refl

-- The rows that a call which answered with an execution has read.
record HasRead (supply : Supply) (user signal_id account_id : ℕ) (db : Database) : Type 0 where
  signal : TradingSignal
  account : ExchangeAccount
  allowed : new_orders_allowed db ≡ true
  signal_row : get_owned_signal user signal_id db ≡ some signal
  account_row : get_owned_account user account_id db ≡ some account

answered-HasRead :
    (supply : Supply) (user signal_id account_id : ℕ) (db db' : Database) (o : Outcome)
    → execute_signal_for_account supply user signal_id account_id db ≡ (ok o, db')
    → HasRead supply user signal_id account_id db
unfolding execute_signal_for_account
answered-HasRead supply user signal_id account_id db db' o h =
    elim (Bool-cases (new_orders_allowed db)) [
      | inl allowed ↦ elim (Option-cases (get_owned_signal user signal_id db)) [
        | inl no_signal ↦ cc (rw (execute_signal_for_account, allowed, no_signal) at h)
        | inr (signal, s) ↦ elim (Option-cases (get_owned_account user account_id db)) [
          | inl no_account ↦ cc (rw (execute_signal_for_account, allowed, s, no_account) at h)
          | inr (account, a) ↦ record {
            signal = signal;
            account = account;
            allowed = allowed;
            signal_row = s;
            account_row = a;
          }
        ]
      ]
      | inr stopped ↦ cc (rw (execute_signal_for_account, stopped) at h)
    ]

execute_owned_existing :
    (supply : Supply) (user : ℕ) (signal : TradingSignal) (account : ExchangeAccount)
    (db : Database) (e : OrderExecution)
    → find? (is_execution_of signal.id account.id) db.executions ≡ some e
    → execute_owned supply user signal account db ≡ (ok (e, none), db)
unfolding execute_owned
execute_owned_existing supply user signal account db e found = rw (execute_owned, found) refl

-- A call that answered with an execution, whether new or found, is answered with that execution
-- again, with no alert and no change of any table, whatever ids are at hand the second time.
pub execute_signal_again :
    (supply supply' : Supply) (user signal_id account_id : ℕ) (db db' : Database)
    (e : OrderExecution) (alert : Option FailureAlert)
    → execute_signal_for_account supply user signal_id account_id db ≡ (ok (e, alert), db')
    → execute_signal_for_account supply' user signal_id account_id db' ≡ (ok (e, none), db')
execute_signal_again supply supply' user signal_id account_id db db' e alert h =
    let r = answered-HasRead supply user signal_id account_id db db' (e, alert) h in
    let owned =
      sym (
        execute_signal_found supply user signal_id account_id db r.allowed r.signal_row
          r.account_row)
      ∙ h in
    let rec = execute_owned-IsRecorded supply user r.signal r.account db db' e alert owned in
    execute_signal_found supply' user signal_id account_id db' (later_allowed rec ∙ r.allowed)
      (later_signal rec user signal_id ∙ r.signal_row)
      (later_account rec user account_id ∙ r.account_row)
    ∙ execute_owned_existing supply' user r.signal r.account db' e rec.found
