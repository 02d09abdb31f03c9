-- ===== src/Response.antt =====
-- backend/app/services/testnet_order_persistence.py: what is kept of an exchange's answer, and what
-- is read from it. Keys of a document are texts; case folding is that of ASCII letters.
pub mod Clean
pub mod Submission
pub mod Client
mod Tests
use crypto_copy_trading_plat.Prelude.{
  ℕ, ◌+◌, Bool, true, false, not, ◌&&◌, ◌||◌, Option, none, some, List, [], ◌∷◌, map, leb, ◌==◌,
  if◌then◌else◌,
}
use crypto_copy_trading_plat.Prelude.Int.{magnitude}
use crypto_copy_trading_plat.Prelude.Text.{Text, codes, text_eq, text_in, strip}
use crypto_copy_trading_plat.Json.{
  Json, null, boolean, int, float, text, decimal, foreign, array, object, Items, nil, cons, Fields,
  end, field,
}
use crypto_copy_trading_plat.Domain.{
  ExchangeName, binance, okx, bybit, mock, OrderExecutionStatus, submitted, accepted, failed,
  status_eq, document, exchange_id, exchange_request_failed,
}
use crypto_copy_trading_plat.Prelude.Exec.{Exec, Result, ok, err}
use crypto_copy_trading_plat.OrderState.{
  Tracked, OrderStateError, transition_order_execution, flush,
}

-- `_SENSITIVE_RESPONSE_KEYS`
unfoldable pub sensitive_response_keys : List Text
sensitive_response_keys =
    codes "api_key"
    ∷ codes "apikey"
    ∷ codes "api_secret"
    ∷ codes "apisecret"
    ∷ codes "passphrase"
    ∷ codes "authorization"
    ∷ codes "signature"
    ∷ codes "sign"
    ∷ []

-- One letter of `str(key).replace("-", "_").lower()`.
unfoldable pub fold_code : ℕ → ℕ
fold_code c = if c == 45 then 95 else if leb 65 c && leb c 90 then c + 32 else c

unfoldable pub is_sensitive : Text → Bool
unfolding fold_code sensitive_response_keys
is_sensitive k = text_in (map fold_code k) sensitive_response_keys

-- An entry of the new dictionary, unless its key is sensitive.
abbrev pub keep_field : Bool → Text → Json → Fields → Fields
keep_field true k v fs = fs
keep_field false k v fs = field k v fs

-- `_safe_value`
unfoldable mutual
  unfolding is_sensitive

  pub safe_value : Json → Json
  safe_value (object fs) = object (safe_fields fs)
  safe_value (array xs) = array (safe_items xs)
  safe_value (decimal t) = text t
  safe_value (foreign t) = text t
  safe_value null = null
  safe_value (boolean b) = boolean b
  safe_value (int n) = int n
  safe_value (float t) = float t
  safe_value (text t) = text t

  pub safe_items : Items → Items
  safe_items nil = nil
  safe_items (cons x xs) = cons (safe_value x) (safe_items xs)

  pub safe_fields : Fields → Fields
  safe_fields end = end
  safe_fields (field k v fs) = keep_field (is_sensitive k) k (safe_value v) (safe_fields fs)

-- `value.get(key)`
unfoldable pub get_field : Text → Fields → Option Json
get_field k end = none
get_field k (field j v fs) = if text_eq j k then some v else get_field k fs

-- `_mapping`
unfoldable pub mapping : Option Json → Fields
mapping (some (object fs)) = fs
mapping _ = end

-- `x in (None, 0, "0")`, in Python's equality.
unfoldable pub is_success_code : Option Json → Bool
is_success_code none = true
is_success_code (some null) = true
is_success_code (some (int n)) = magnitude n == 0
is_success_code (some (boolean b)) = not b
is_success_code (some (float t)) = text_eq t (codes "0.0") || text_eq t (codes "-0.0")
is_success_code (some (text t)) = text_eq t (codes "0")
is_success_code (some v) = false

-- `_raise_for_exchange_rejection` raises where this is true.
unfoldable pub is_exchange_rejection : ExchangeName → Fields → Bool
unfolding is_success_code get_field
is_exchange_rejection bybit r = not (is_success_code (get_field (codes "retCode") r))
is_exchange_rejection okx r = not (is_success_code (get_field (codes "code") r))
is_exchange_rejection binance r = not (is_success_code (get_field (codes "code") r))
is_exchange_rejection mock r = false

-- `show` is Python's `str` of a value that is no text.
module _ (show : Json → Text) where
  text_or_none : Text → Option Text
  text_or_none [] = none
  text_or_none (c ∷ t) = some (c ∷ t)

  -- `_optional_text`
  unfoldable pub optional_text : Option Json → Option Text
  unfolding text_or_none
  optional_text none = none
  optional_text (some null) = none
  optional_text (some (text t)) = text_or_none (strip t)
  optional_text (some v) = text_or_none (strip (show v))

  -- `_exchange_order_id`
  unfoldable pub exchange_order_id : ExchangeName → Fields → Option Text
  unfolding optional_text mapping get_field
  exchange_order_id binance r = optional_text (get_field (codes "orderId") r)
  exchange_order_id bybit r =
      optional_text (get_field (codes "orderId") (mapping (get_field (codes "result") r)))
  exchange_order_id okx r = elim (get_field (codes "data") r) [
    | some (array (cons row rows)) ↦ optional_text (get_field (codes "ordId") (mapping (some row)))
    | _ ↦ none
  ]
  exchange_order_id mock r = none

-- The errors of the two calls below.
pub data SubmissionError : Type 0 where
  exchange_rejected not_awaiting : SubmissionError
  order_state : OrderStateError → SubmissionError

-- `exchange_name.value`
abbrev pub exchange_value : ExchangeName → Text
exchange_value binance = codes "binance"
exchange_value okx = codes "okx"
exchange_value bybit = codes "bybit"
exchange_value mock = codes "mock"

abbrev pub set_exchange_response : Fields → Tracked → Tracked
set_exchange_response r m = record m {
  execution = record m.execution { exchange_response = some (document (object r)) };
}

abbrev pub set_exchange_order_id : Option Text → Tracked → Tracked
set_exchange_order_id none m = m
set_exchange_order_id (some t) m = record m {
  execution = record m.execution { exchange_order_id = some (exchange_id t) };
}

-- A move, its commit, and its error among those of the call.
moved :
    {A : Type 0} → Result OrderStateError A × Tracked → Result SubmissionError (Unit {0}) × Tracked
moved (ok a, m) = (ok tt, flush m)
moved (err e, m) = (err (order_state e), m)

-- The part of `record_testnet_submission_accepted` behind its two guards.
unfoldable pub store_acceptance : (Json → Text) → Fields → Exec Tracked SubmissionError (Unit {0})
unfolding moved exchange_order_id
store_acceptance show r m =
    let m' =
      set_exchange_order_id (exchange_order_id show m.execution.exchange_name r)
        (set_exchange_response r m) in
    moved (
      transition_order_execution accepted "testnet_exchange_accepted"
        (("exchange", exchange_value m.execution.exchange_name) ∷ []) m')

unfoldable pub record_testnet_submission_accepted :
    (Json → Text) → Fields → Exec Tracked SubmissionError (Unit {0})
unfolding store_acceptance is_exchange_rejection safe_value
record_testnet_submission_accepted show answer m =
    let r = safe_fields answer in
    if is_exchange_rejection m.execution.exchange_name r
    then (err exchange_rejected, m)
    else if status_eq m.execution.status submitted
    then store_acceptance show r m
    else (err not_awaiting, m)

abbrev pub set_failure : Tracked → Tracked
set_failure m = record m {
  execution = record m.execution { error_message = some exchange_request_failed };
}

unfoldable pub record_testnet_submission_failure : Text → Exec Tracked SubmissionError (Unit {0})
unfolding moved
record_testnet_submission_failure failure_type m =
    if status_eq m.execution.status submitted
    then moved (
        transition_order_execution failed "testnet_exchange_request_failed"
          (("failure_type", failure_type) ∷ []) (set_failure m))
    else (ok tt, m)
