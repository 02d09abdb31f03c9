-- ===== src/Pending/Counts.antt =====
-- The counts of a run of look-ups.
use crypto_copy_trading_plat.Prelude.{ℕ, suc, ◌+◌, ◌≤◌, ◌≡◌, none, some, List, [], ◌∷◌}
use crypto_copy_trading_plat.Prelude.Text.{Text, codes}
use crypto_copy_trading_plat.Prelude.Exec.{Result, ok, err}
use crypto_copy_trading_plat.Json.{Fields}
use crypto_copy_trading_plat.Domain.{ExchangeName, OrderExecution}
use crypto_copy_trading_plat.Database.{Database}
use crypto_copy_trading_plat.HttpClient.{
  Credentials, PreparedRequest, ClientError, prepare_private_request,
}
use crypto_copy_trading_plat.Lifecycle.{OrderEvent, EventError, LifecycleResult, apply}
use crypto_copy_trading_plat.Lifecycle.Normalize.{normalize_rest_status}
use crypto_copy_trading_plat.Pending.{
  LookupEnv, LookupItem, order_lookup_path, order_lookup_params, lookup_security, lookup_client,
  transitioned_count, failed_count,
}

-- An item counts as a failure or as a result of the lifecycle, not as both.
abbrev CountsOnce : LookupItem → Type 0
CountsOnce x = transitioned_count x.lifecycle_result + failed_count x.failure_type ≤ 1

module _ (env : LookupEnv) (user account : ℕ) (name : ExchangeName) where
  module _ (url : Text) (credentials : Credentials) where
    -- The request of the n-th look-up, if it is for the order `e`.
    abbrev pub lookup_request : ℕ → OrderExecution → Result ClientError PreparedRequest
    lookup_request n e =
        prepare_private_request env.lib (lookup_client env name url n) (order_lookup_path name)
          credentials (order_lookup_params e name) (lookup_security name)

    -- The item reports what the transport says to the request for the order `e`: a failure with its
    -- type, or an answer that cannot be read; and a result only if the transport answered that
    -- request with an event, which the lifecycle has applied with that result.
    pub record Reports (n : ℕ) (e : OrderExecution) (item : LookupItem) : Type 0 where
      pub unanswered :
          (p : PreparedRequest) (failure_type : Text)
          → lookup_request n e ≡ ok p
          → env.transport n p ≡ err failure_type
          → (item.failure_type ≡ some failure_type) × (item.lifecycle_result ≡ none)
      pub unreadable :
          (p : PreparedRequest) (payload : Fields) (x : EventError)
          → lookup_request n e ≡ ok p
          → env.transport n p ≡ ok payload
          → normalize_rest_status env.py name payload ≡ err x
          → (item.failure_type ≡ some (codes "response_invalid")) × (item.lifecycle_result ≡ none)
      pub unprepared :
          (x : ClientError)
          → lookup_request n e ≡ err x
          → (item.failure_type ≡ some (codes "response_invalid")) × (item.lifecycle_result ≡ none)
      pub applied :
          (r : LifecycleResult)
          → item.lifecycle_result ≡ some r
          → (p : PreparedRequest) × (payload : Fields) × (event : OrderEvent) × (db : Database)
            × (lookup_request n e ≡ ok p)
            × (env.transport n p ≡ ok payload)
            × (normalize_rest_status env.py name payload ≡ ok event)
            × ((apply user account event "testnet_rest_order_reconciliation" db).0 ≡ ok r)

    -- One item for each order, in their order, from the n-th look-up on.
    abbrev pub ReportsAll : ℕ → List OrderExecution → List LookupItem → Type 0
    ReportsAll n [] [] = Unit
    ReportsAll n (e ∷ es) (x ∷ xs) = Reports n e x × ReportsAll (suc n) es xs
    ReportsAll n _ _ = ⊥
