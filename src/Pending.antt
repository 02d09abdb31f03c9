-- ===== src/Pending.antt =====
-- backend/app/services/testnet_order_reconciliation.py: the pending orders of an account are looked
-- up at its test network one by one, and each answer goes through the lifecycle of its order. The
-- ids `execution_id` of the items are left out.
pub mod Counts
pub mod Kept
pub mod Simulated
pub mod Asked
mod Tests
use crypto_copy_trading_plat.Prelude.{
  ℕ, suc, ◌+◌, Bool, true, false, not, ◌&&◌, ◌||◌, Option, none, some, List, [], ◌∷◌, ◌++◌, ◌==◌,
  find?, select, length, if◌then◌else◌,
}
use crypto_copy_trading_plat.Prelude.Text.{Text, codes}
use crypto_copy_trading_plat.Prelude.Exec.{Exec, Result, ok, err}
use crypto_copy_trading_plat.Json.{Fields}
use crypto_copy_trading_plat.Domain.{
  ExchangeName, binance, bybit, okx, mock, exchange_eq, testnet, mode_eq, submitted, accepted,
  partially_filled, status_eq, OrderExecutionStatus, client_id_text, OrderExecution,
  ExchangeAccount,
}
use crypto_copy_trading_plat.Database.{
  Database, ApiKeySecret, AuditLog, Payload, count, exchange, mode, info, warning,
  order_reconciliation_requested, get_owned_account, get_api_key_secret_metadata,
}
use crypto_copy_trading_plat.HttpClient.{
  Params, Library, Credentials, SignedClient, PreparedRequest, SecurityType, signed,
  okx_demo_signed, ClientError, prepare_private_request,
}
use crypto_copy_trading_plat.Lifecycle.{OrderEvent, EventError, LifecycleResult, apply}
use crypto_copy_trading_plat.Lifecycle.Normalize.{Python, Normalized, normalize_rest_status}
use crypto_copy_trading_plat.Submit.Request.{okx_symbol}
use crypto_copy_trading_plat.Submit.Handler.{passphrase_if, same_row, testnet_base_url}

-- What surrounds one call: the library, the decryption of a key, what the clocks read at the n-th
-- request, and what the transport answers to it, or the failure type that it raises.
pub record LookupEnv : Type 0 where
  pub lib : Library
  pub py : Python
  pub api_key : ApiKeySecret → Text
  pub api_secret : ApiKeySecret → Text
  pub passphrase : ApiKeySecret → Text
  pub timestamp_ms : ℕ → Text
  pub iso_timestamp : ℕ → Text
  pub transport : ℕ → PreparedRequest → Result Text Fields
  pub audit_id : ℕ
  pub now : ℕ

-- The messages of `TestnetOrderReconciliationBlockedError`.
pub data LookupBlocked : Type 0 where
  account_not_found mode_not_testnet mock_exchange trading_on no_credentials : LookupBlocked

-- `TestnetOrderReconciliationItem`
pub record LookupItem : Type 0 where
  pub status : OrderExecutionStatus
  pub lifecycle_result : Option LifecycleResult
  pub failure_type : Option Text

-- `TestnetOrderReconciliationResult`
pub record LookupResult : Type 0 where
  pub exchange_account_id : ℕ
  pub attempted : ℕ
  pub transitioned : ℕ
  pub failed : ℕ
  pub items : List LookupItem

-- `_PENDING_STATUSES`
unfoldable pub is_pending : OrderExecutionStatus → Bool
is_pending s = status_eq s submitted || (status_eq s accepted || status_eq s partially_filled)

-- The query for the pending executions of an account.
abbrev pub is_pending_row : ℕ → ℕ → OrderExecution → Bool
is_pending_row user account e =
    e.user_id == user && (e.exchange_account_id == account && is_pending e.status)

-- `_order_lookup_path`
abbrev pub order_lookup_path : ExchangeName → Text
order_lookup_path binance = codes "/api/v3/order"
order_lookup_path bybit = codes "/v5/order/realtime"
order_lookup_path _ = codes "/api/v5/trade/order"

-- `_order_lookup_params`
unfoldable pub order_lookup_params : OrderExecution → ExchangeName → Params
unfolding okx_symbol client_id_text
order_lookup_params e binance =
    (codes "symbol", e.symbol) ∷ (codes "origClientOrderId", client_id_text e.client_order_id) ∷ []
order_lookup_params e bybit =
    (codes "category", codes "spot") ∷ (codes "orderLinkId", client_id_text e.client_order_id) ∷ []
order_lookup_params e _ =
    (codes "instId", okx_symbol e.symbol) ∷ (codes "clOrdId", client_id_text e.client_order_id) ∷ []

-- `_security_type`
abbrev pub lookup_security : ExchangeName → SecurityType
lookup_security okx = okx_demo_signed
lookup_security _ = signed

-- `execution.status`, as the session's object has it.
abbrev pub live_status : OrderExecution → Database → OrderExecutionStatus
live_status e db = elim (find? (same_row e) db.executions) [ none ↦ e.status | some x ↦ x.status ]

abbrev pub failed_item : Text → OrderExecution → Database → LookupItem
failed_item failure_type e db = record {
  status = live_status e db;
  lifecycle_result = none;
  failure_type = some failure_type;
}

abbrev pub status_or : Option OrderExecutionStatus → OrderExecutionStatus → OrderExecutionStatus
status_or none s = s
status_or (some t) s = t

-- The item of what the lifecycle's `apply` did.
unfoldable pub applied_item :
    OrderExecution → Result EventError LifecycleResult × Database → LookupItem × Database
applied_item e (err x, db) = (failed_item (codes "response_invalid") e db, db)
applied_item e (ok r, db) = (
  record {
    status = status_or r.status (live_status e db);
    lifecycle_result = some r;
    failure_type = none;
  },
  db,
)

-- The item of a normalized answer.
unfoldable pub normalized_item :
    ℕ → ℕ → OrderExecution → Normalized OrderEvent → Database → LookupItem × Database
unfolding applied_item apply
normalized_item user account e (err x) db = (failed_item (codes "response_invalid") e db, db)
normalized_item user account e (ok event) db =
    applied_item e (apply user account event "testnet_rest_order_reconciliation" db)

abbrev pub transitioned_count : Option LifecycleResult → ℕ
transitioned_count none = 0
transitioned_count (some r) = if r.transitioned then 1 else 0

abbrev pub failed_count : Option Text → ℕ
failed_count none = 0
failed_count (some t) = 1

unfoldable pub sum_transitioned : List LookupItem → ℕ
sum_transitioned [] = 0
sum_transitioned (x ∷ xs) = transitioned_count x.lifecycle_result + sum_transitioned xs

unfoldable pub sum_failed : List LookupItem → ℕ
sum_failed [] = 0
sum_failed (x ∷ xs) = failed_count x.failure_type + sum_failed xs

unfoldable pub lookup_result : ℕ → List LookupItem → LookupResult
unfolding sum_transitioned sum_failed
lookup_result account items = record {
  exchange_account_id = account;
  attempted = length items;
  transitioned = sum_transitioned items;
  failed = sum_failed items;
  items = items;
}

module _ (env : LookupEnv) where
  abbrev pub lookup_credentials : ApiKeySecret → Credentials
  lookup_credentials s = record {
    api_key = env.api_key s;
    api_secret = env.api_secret s;
    passphrase = passphrase_if s.has_passphrase (env.passphrase s);
  }

  abbrev pub lookup_client : ExchangeName → Text → ℕ → SignedClient
  lookup_client name url n = record {
    exchange_name = name;
    rest_base_url = url;
    timestamp_ms = env.timestamp_ms n;
    iso_timestamp = env.iso_timestamp n;
    recv_window = codes "5000";
  }

  -- The item of what the transport answered.
  unfoldable pub answered_item :
      ℕ → ℕ → ExchangeName → OrderExecution → Result Text Fields → Database → LookupItem × Database
  unfolding normalized_item normalize_rest_status
  answered_item user account name e (err failure_type) db = (failed_item failure_type e db, db)
  answered_item user account name e (ok payload) db =
      normalized_item user account e (normalize_rest_status env.py name payload) db

  -- The item of a prepared request; what the preparation raises is a `ValueError`.
  unfoldable pub prepared_item :
      ℕ
      → ℕ
      → ℕ
      → ExchangeName
      → OrderExecution
      → Result ClientError PreparedRequest
      → Database
      → LookupItem × Database
  unfolding answered_item
  prepared_item n user account name e (err x) db = (failed_item (codes "response_invalid") e db, db)
  prepared_item n user account name e (ok p) db =
      answered_item user account name e (env.transport n p) db

  -- `_reconcile_execution`
  unfoldable pub reconcile_execution :
      ℕ
      → ℕ
      → ℕ
      → ExchangeName
      → Text
      → Credentials
      → OrderExecution
      → Database
      → LookupItem × Database
  unfolding prepared_item order_lookup_params prepare_private_request
  reconcile_execution n user account name url credentials e db =
      prepared_item n user account name e
        (prepare_private_request env.lib (lookup_client name url n) (order_lookup_path name)
          credentials (order_lookup_params e name) (lookup_security name))
        db

  -- The items of the executions, in their order.
  unfoldable pub reconcile_executions :
      ℕ
      → ℕ
      → ℕ
      → ExchangeName
      → Text
      → Credentials
      → List OrderExecution
      → Database
      → List LookupItem × Database
  unfolding reconcile_execution
  reconcile_executions n user account name url credentials [] db = ([], db)
  reconcile_executions n user account name url credentials (e ∷ es) db =
      let (item, db') = reconcile_execution n user account name url credentials e db in
      let (items, db'') = reconcile_executions (suc n) user account name url credentials es db' in
      (item ∷ items, db'')

  -- `_write_audit`
  unfoldable pub write_audit : ℕ → ExchangeName → LookupResult → Database → Database
  write_audit user name r db = record db {
    audit_logs =
        db.audit_logs
        ++ (record {
          id = env.audit_id;
          user_id = user;
          exchange_account_id = some r.exchange_account_id;
          action = order_reconciliation_requested;
          severity = if r.failed == 0 then info else warning;
          payload =
              ("exchange_name", exchange name)
              ∷ ("account_mode", mode testnet)
              ∷ ("attempted", count r.attempted)
              ∷ ("transitioned", count r.transitioned)
              ∷ ("failed", count r.failed)
              ∷ [];
          created_at = env.now;
        })
          ∷ [];
  }

  -- The call behind its guards.
  unfoldable pub reconcile_with :
      ℕ → ExchangeAccount → Text → Credentials → Exec Database LookupBlocked LookupResult
  unfolding reconcile_executions lookup_result write_audit
  reconcile_with user account url credentials db =
      let pending = select (is_pending_row user account.id) db.executions in
      let (items, db') =
        reconcile_executions 0 user account.id account.exchange_name url credentials pending db in
      let r = lookup_result account.id items in (ok r, write_audit user account.exchange_name r db')

  -- The key and the client for the account's exchange; the guards have excluded the mock.
  unfoldable pub reconcile_client :
      ℕ
      → ExchangeAccount
      → Option ApiKeySecret
      → Option Text
      → Exec Database LookupBlocked LookupResult
  unfolding reconcile_with
  reconcile_client user account none url db = (err no_credentials, db)
  reconcile_client user account (some s) none db = (err mock_exchange, db)
  reconcile_client user account (some s) (some url) db =
      reconcile_with user account url (lookup_credentials s) db

  unfoldable pub reconcile_account : ℕ → ExchangeAccount → Exec Database LookupBlocked LookupResult
  unfolding reconcile_client
  reconcile_account user account db =
      if not account.is_active
      then (err account_not_found, db)
      else if not (mode_eq account.account_mode testnet)
      then (err mode_not_testnet, db)
      else if exchange_eq account.exchange_name mock
      then (err mock_exchange, db)
      else if account.trading_enabled
      then (err trading_on, db)
      else reconcile_client user account (get_api_key_secret_metadata user account.id db)
          (testnet_base_url account.exchange_name) db

  unfoldable pub reconcile_pending_testnet_orders : ℕ → ℕ → Exec Database LookupBlocked LookupResult
  unfolding reconcile_account
  reconcile_pending_testnet_orders user account_id db =
      elim (get_owned_account user account_id db) [
        | none ↦ (err account_not_found, db)
        | some account ↦ reconcile_account user account db
      ]
