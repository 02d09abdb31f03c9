-- ===== src/Pending/Kept.antt =====
-- The look-ups keep the table of executions and refine its specification.
use crypto_copy_trading_plat.Prelude.{
  ℕ, suc, not, Option, none, some, List, [], ◌∷◌, select, Bool-cases, Option-cases, inl, inr,
}
use crypto_copy_trading_plat.Prelude.Text.{Text}
use crypto_copy_trading_plat.Prelude.Exec.{Result, ok, err}
use crypto_copy_trading_plat.Json.{Fields}
use crypto_copy_trading_plat.Domain.{
  ExchangeName, exchange_eq, mock, mode_eq, testnet, OrderExecution, ExchangeAccount,
}
use crypto_copy_trading_plat.Database.{Database, ApiKeySecret, get_owned_account}
use crypto_copy_trading_plat.HttpClient.{
  Credentials, PreparedRequest, ClientError, prepare_private_request,
}
use crypto_copy_trading_plat.Lifecycle.{OrderEvent, EventError, LifecycleResult, apply}
use crypto_copy_trading_plat.Lifecycle.Normalize.{Normalized, normalize_rest_status}
use crypto_copy_trading_plat.Lifecycle.Kept.{apply-IsKept}
use crypto_copy_trading_plat.Lifecycle.Moves.{view, Runs, stay, Runs-trans, apply-Runs}
use crypto_copy_trading_plat.Orders.Kept.{IsKept}
use crypto_copy_trading_plat.Pending.{
  LookupEnv, applied_item, normalized_item, answered_item, prepared_item, reconcile_execution,
  reconcile_executions, order_lookup_path, order_lookup_params, lookup_security, lookup_client,
  lookup_credentials, write_audit, is_pending_row, reconcile_with, reconcile_client,
  reconcile_account, reconcile_pending_testnet_orders,
}

-- From `db` to `db'` the table stays kept, by allowed moves of its executions only.
abbrev pub Refines : Database → Database → Type 0
Refines db db' = IsKept db' × Runs (view db.executions) (view db'.executions)

applied-Refines :
    (db : Database) (e : OrderExecution) (x : Result EventError LifecycleResult × Database)
    → Refines db x.1
    → Refines db (applied_item e x).1
unfolding applied_item
applied-Refines db e (err x, db') h = h
applied-Refines db e (ok r, db') h = h

normalized-Refines :
    (user account : ℕ) (e : OrderExecution) (r : Normalized OrderEvent) (db : Database)
    → IsKept db
    → Refines db (normalized_item user account e r db).1
unfolding normalized_item
normalized-Refines user account e (err x) db k = (k, stay)
normalized-Refines user account e (ok event) db k =
    applied-Refines db e (apply user account event "testnet_rest_order_reconciliation" db) (
      apply-IsKept user account event "testnet_rest_order_reconciliation" db k,
      apply-Runs user account event "testnet_rest_order_reconciliation" db k,
    )

module _ (env : LookupEnv) (user account : ℕ) (name : ExchangeName) where
  answered-Refines :
      (e : OrderExecution) (r : Result Text Fields) (db : Database)
      → IsKept db
      → Refines db (answered_item env user account name e r db).1
  unfolding answered_item
  answered-Refines e (err x) db k = (k, stay)
  answered-Refines e (ok payload) db k =
      normalized-Refines user account e (normalize_rest_status env.py name payload) db k

  prepared-Refines :
      (n : ℕ) (e : OrderExecution) (r : Result ClientError PreparedRequest) (db : Database)
      → IsKept db
      → Refines db (prepared_item env n user account name e r db).1
  unfolding prepared_item
  prepared-Refines n e (err x) db k = (k, stay)
  prepared-Refines n e (ok p) db k = answered-Refines e (env.transport n p) db k

  executions-Refines :
      (n : ℕ) (url : Text) (credentials : Credentials) (es : List OrderExecution) (db : Database)
      → IsKept db
      → Refines db (reconcile_executions env n user account name url credentials es db).1
  unfolding reconcile_executions reconcile_execution
  executions-Refines n url credentials [] db k = (k, stay)
  executions-Refines n url credentials (e ∷ es) db k =
      let db' = (reconcile_execution env n user account name url credentials e db).1 in
      let (k', first) =
        prepared-Refines n e
          (prepare_private_request env.lib (lookup_client env name url n) (order_lookup_path name)
            credentials (order_lookup_params e name) (lookup_security name))
          db k in
      let (k'', rest) = executions-Refines (suc n) url credentials es db' k' in
      (k'', Runs-trans first rest)

module _ (env : LookupEnv) (user : ℕ) (account : ExchangeAccount) where
  client-Refines :
      (secret : Option ApiKeySecret) (url : Option Text) (db : Database)
      → IsKept db
      → Refines db (reconcile_client env user account secret url db).1
  unfolding reconcile_client reconcile_with write_audit
  client-Refines none url db k = (k, stay)
  client-Refines (some s) none db k = (k, stay)
  client-Refines (some s) (some url) db k =
      let pending = select (is_pending_row user account.id) db.executions in
      let credentials = lookup_credentials env s in
      let db' =
        (reconcile_executions env 0 user account.id account.exchange_name url credentials pending
          db).1 in
      let (kept, runs) =
        executions-Refines env user account.id account.exchange_name 0 url credentials pending db
          k in
      (record { told = kept.told; distinct = kept.distinct }, runs)

  account-Refines :
      (db : Database) → IsKept db → Refines db (reconcile_account env user account db).1
  unfolding reconcile_account
  account-Refines db k = elim (Bool-cases (not account.is_active)) [
    | inl off ↦ rw off (k, stay)
    | inr on ↦ elim (Bool-cases (not (mode_eq account.account_mode testnet))) [
      | inl other ↦ rw (on, other) (k, stay)
      | inr test ↦ elim (Bool-cases (exchange_eq account.exchange_name mock)) [
        | inl mocked ↦ rw (on, test, mocked) (k, stay)
        | inr live ↦ elim (Bool-cases account.trading_enabled) [
          | inl trading ↦ rw (on, test, live, trading) (k, stay)
          | inr quiet ↦ rw (on, test, live, quiet) (client-Refines _ _ db k)
        ]
      ]
    ]
  ]

-- Looking up the pending orders of an account, whatever the exchange answers, refines the
-- specification: executions make allowed moves only, none is added, removed or renamed, and the
-- table is kept, if it was kept before.
pub reconcile_pending-Refines :
    (env : LookupEnv) (user account_id : ℕ) (db : Database)
    → IsKept db
    → Refines db (reconcile_pending_testnet_orders env user account_id db).1
unfolding reconcile_pending_testnet_orders
reconcile_pending-Refines env user account_id db k =
    elim (Option-cases (get_owned_account user account_id db)) [
      | inl missing ↦ rw (reconcile_pending_testnet_orders, missing) (k, stay)
      | inr (account, owned) ↦
          rw (reconcile_pending_testnet_orders, owned) (account-Refines env user account db k)
    ]
