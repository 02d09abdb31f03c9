-- ===== src/Submit/Handler.antt =====
-- backend/app/api/v1/orders.py, `submit_testnet_order`, with
-- backend/app/services/testnet_order_api.py and testnet_order_execution.py: every check before an
-- order is sent to a test network, and what its answer does to the execution.
use crypto_copy_trading_plat.Prelude.{
  ℕ, Bool, true, false, Option, none, some, List, [], ◌∷◌, ◌++◌, ◌==◌, if◌then◌else◌,
}
use crypto_copy_trading_plat.Prelude.Text.{Text, codes}
use crypto_copy_trading_plat.Prelude.Exec.{Exec, Result, ok, err}
use crypto_copy_trading_plat.Json.{Json, Fields}
use crypto_copy_trading_plat.Domain.{
  ExchangeName, binance, bybit, okx, mock, OrderExecution, ExchangeAccount, RiskSetting,
}
use crypto_copy_trading_plat.Database.{
  Database, ApiKeySecret, get_owned_account, get_api_key_secret_metadata,
}
use crypto_copy_trading_plat.OrderState.{Tracked}
use crypto_copy_trading_plat.Risk.{get_or_create_risk_settings}
use crypto_copy_trading_plat.Gate.{GateResult, check_testnet_order_gate, is_some}
use crypto_copy_trading_plat.Approval.{
  OrderRequest, WindowReason, require_valid_testnet_order_window_authorization,
}
use crypto_copy_trading_plat.Emergency.{new_orders_allowed}
use crypto_copy_trading_plat.RateLimit.{
  Key, RateLimitWindow, RateLimitError, exceeded, store_unavailable, not_configured,
  acquire_testnet_order,
}
use crypto_copy_trading_plat.Response.{
  SubmissionError, record_testnet_submission_accepted, record_testnet_submission_failure,
}
use crypto_copy_trading_plat.HttpClient.{Library, Credentials, SignedClient, PreparedRequest}
use crypto_copy_trading_plat.Orders.{put_row, loaded}
use crypto_copy_trading_plat.Submit.{
  SubmitRequest, OrderInput, Context, gate_blocks, window_blocks, key_missing, SubmitError,
  stop_enabled, account_not_found, idempotency_conflict, risk_rejected, blocked, order_state,
  Submission,
}
use crypto_copy_trading_plat.Submit.Request.{
  PrepareError, gate_not_approved, prepare_testnet_order_request,
}
use crypto_copy_trading_plat.Submit.Row.{Supply, create_or_get_testnet_submission_execution}

-- What the transport makes of the exchange's reply: a document, an `ExchangeHttpRequestError`, a text
-- that `json.loads` refuses, or JSON that is no object.
pub data ExchangeReply : Type 0 where
  document_reply : Fields → ExchangeReply
  request_failed not_json not_an_object : ExchangeReply

-- What surrounds one call: the library, the store of rate limits, the decryption of a key, what the
-- clocks read, and what the exchange replies to a request.
pub record Env (S : Type 0) : Type 0 where
  pub lib : Library
  pub show : Json → Text
  pub acquire : Key → ℕ → ℕ → ℕ → S → Option RateLimitWindow × S
  pub exchange : PreparedRequest → ExchangeReply
  pub api_key : ApiKeySecret → Text
  pub api_secret : ApiKeySecret → Text
  pub passphrase : ApiKeySecret → Text
  pub id_text : ℕ → Text
  pub now : ℕ
  pub ticks_now : ℕ
  pub timestamp_ms : Text
  pub iso_timestamp : Text
  pub adapters_enabled : Bool

-- The tables, the rate limits, and the requests that were put on the wire, the last one last.
pub record World (S : Type 0) : Type 0 where
  pub db : Database
  pub limits : S
  pub sent : List PreparedRequest

-- The answers of the handler: an order's row, whether it is a replay, and its approval; or an error.
pub data Answer : Type 0 where
  order_row : OrderExecution → Bool → ℕ → Answer
  refused : SubmitError → Answer
  invalid_request : PrepareError → Answer
  unreadable_reply limits_unavailable exchange_failed server_error : Answer
  limit_exceeded : ℕ → Answer

-- The status code of an error that was raised before the exchange is called.
abbrev pub refusal_code : SubmitError → ℕ
refusal_code stop_enabled = 423
refusal_code account_not_found = 404
refusal_code idempotency_conflict = 409
refusal_code risk_rejected = 400
refusal_code (blocked reasons) = 400
refusal_code (order_state e) = 502

abbrev pub status_code : Answer → ℕ
status_code (order_row e replay approval) = 200
status_code (refused e) = refusal_code e
status_code (invalid_request e) = 404
status_code unreadable_reply = 404
status_code limits_unavailable = 503
status_code exchange_failed = 502
status_code server_error = 500
status_code (limit_exceeded seconds) = 429

-- The base URL of `TESTNET_ENDPOINTS`, where there is one.
abbrev pub testnet_base_url : ExchangeName → Option Text
testnet_base_url binance = some (codes "https://testnet.binance.vision")
testnet_base_url bybit = some (codes "https://api-testnet.bybit.com")
testnet_base_url okx = some (codes "https://www.okx.com")
testnet_base_url mock = none

abbrev pub passphrase_if : Bool → Text → Option Text
passphrase_if true t = some t
passphrase_if false t = none

-- The row of an execution object.
abbrev pub same_id : Option ℕ → Option ℕ → Bool
same_id (some i) (some j) = i == j
same_id _ _ = false

abbrev pub same_row : OrderExecution → OrderExecution → Bool
same_row e x = same_id x.id e.id

abbrev pub order_input : SubmitRequest → ExchangeAccount → OrderInput
order_input r account = record {
  exchange_name = account.exchange_name;
  symbol = r.symbol;
  side = r.side;
  order_type = r.order_type;
  quantity = r.quantity;
  client_order_id = r.client_order_id;
  price = r.price;
}

abbrev pub order_request : SubmitRequest → OrderRequest
order_request r = record {
  symbol = r.symbol;
  side = r.side;
  quantity = r.quantity;
  price = r.price;
}

-- The gate of the submission, with the client's confirmation.
unfoldable pub submission_gate :
    ExchangeAccount → RiskSetting → Option ApiKeySecret → Bool → SubmitRequest → GateResult
unfolding check_testnet_order_gate
submission_gate account risk secret adapters r = check_testnet_order_gate (record {
  exchange_name = account.exchange_name;
  account_mode = account.account_mode;
  testnet_adapters_enabled = adapters;
  exchange_account_trading_enabled = account.trading_enabled;
  risk_trading_enabled = risk.trading_enabled;
  api_key_configured = is_some secret;
  manual_testnet_order_enable_confirmed = r.manual_testnet_order_enable_confirmed;
})

module _ {S : Type 0} (env : Env S) where
  -- `get_exchange_credentials`
  abbrev pub credentials_of : ApiKeySecret → Credentials
  credentials_of s = record {
    api_key = env.api_key s;
    api_secret = env.api_secret s;
    passphrase = passphrase_if s.has_passphrase (env.passphrase s);
  }

  -- `create_testnet_signed_http_client`
  abbrev pub signed_client : ExchangeName → Text → SignedClient
  signed_client name url = record {
    exchange_name = name;
    rest_base_url = url;
    timestamp_ms = env.timestamp_ms;
    iso_timestamp = env.iso_timestamp;
    recv_window = codes "5000";
  }

  -- The context behind the gate and the authorization, with the key.
  unfoldable pub context_for :
      ExchangeAccount
      → GateResult
      → Option ApiKeySecret
      → SubmitRequest
      → Result (List WindowReason) ℕ
      → Result SubmitError Context
  context_for account gate secret r (err reasons) = err (blocked (window_blocks reasons))
  context_for account gate none r (ok approval) = err (blocked key_missing)
  context_for account gate (some s) r (ok approval) = ok (record {
    account = account;
    order = order_input r account;
    gate_result = gate;
    credentials = credentials_of s;
    approval_id = approval;
  })

  unfoldable pub owned_context :
      ℕ → ℕ → SubmitRequest → ExchangeAccount → Exec Database SubmitError Context
  unfolding context_for submission_gate
  owned_context settings_id user r account db =
      let (risk, db') = get_or_create_risk_settings settings_id user account.id db in
      let secret = get_api_key_secret_metadata user account.id db' in
      let gate = submission_gate account risk secret env.adapters_enabled r in
      let authorization =
        require_valid_testnet_order_window_authorization user account.id (order_request r) env.now
          db' in
      if gate.approved
      then (context_for account gate secret r authorization, db')
      else (err (blocked (gate_blocks gate.reasons)), db')

  unfoldable pub context_of :
      Option ExchangeAccount → ℕ → ℕ → SubmitRequest → Exec Database SubmitError Context
  unfolding owned_context
  context_of none settings_id user r db = (err account_not_found, db)
  context_of (some account) settings_id user r db = owned_context settings_id user r account db

  unfoldable pub build_testnet_order_api_context :
      ℕ → ℕ → SubmitRequest → Exec Database SubmitError Context
  unfolding context_of
  build_testnet_order_api_context settings_id user r db =
      context_of (get_owned_account user r.exchange_account_id db) settings_id user r db

  abbrev pub set_db : Database → World S → World S
  set_db db w = record w { db = db }

  failure_answer : {A : Type 0} → Answer → Result SubmissionError A → Answer
  failure_answer answer (ok a) = answer
  failure_answer answer (err e) = server_error

  -- `_record_testnet_submission_failure` on the row of a new submission, and the answer then.
  unfoldable pub fail_submission :
      Text → Answer → OrderExecution → Tracked → World S → Answer × World S
  unfolding failure_answer
  fail_submission failure_type answer e m w =
      let (r, m') = record_testnet_submission_failure failure_type m in
      (failure_answer answer r, set_db (put_row (same_row e) m' w.db) w)

  -- The acceptance of the exchange's answer, and the failure where that raises.
  unfoldable pub settle_acceptance :
      {A : Type 0}
      → Context
      → OrderExecution
      → Result SubmissionError A × Tracked
      → World S
      → Answer × World S
  unfolding fail_submission
  settle_acceptance c e (ok a, m) w =
      (order_row m.execution false c.approval_id, set_db (put_row (same_row e) m w.db) w)
  settle_acceptance c e (err x, m) w =
      fail_submission (codes "exchange_request_failed") exchange_failed e m w

  -- What follows the reply. `json.loads` raises a `ValueError`, and what is no object an
  -- `AttributeError`, which both leave the row as it is.
  unfoldable pub after_exchange :
      Context → OrderExecution → ExchangeReply → World S → Answer × World S
  unfolding settle_acceptance fail_submission
  after_exchange c e request_failed w =
      fail_submission (codes "exchange_request_failed") exchange_failed e (loaded e w.db) w
  after_exchange c e not_json w = (unreadable_reply, w)
  after_exchange c e not_an_object w = (server_error, w)
  after_exchange c e (document_reply answer) w =
      settle_acceptance c e (record_testnet_submission_accepted env.show answer (loaded e w.db)) w

  -- `http_client.execute_prepared_request`
  abbrev pub put_on_wire : PreparedRequest → World S → World S
  put_on_wire p w = record w { sent = w.sent ++ p ∷ [] }

  unfoldable pub after_limits :
      Context
      → OrderExecution
      → PreparedRequest
      → Result RateLimitError (Unit {0})
      → World S
      → Answer × World S
  unfolding after_exchange fail_submission
  after_limits c e p (ok _) w = after_exchange c e (env.exchange p) (put_on_wire p w)
  after_limits c e p (err store_unavailable) w =
      fail_submission (codes "rate_limit_store_unavailable") limits_unavailable e (loaded e w.db) w
  after_limits c e p (err (exceeded rule seconds)) w =
      fail_submission (codes "rate_limited") (limit_exceeded seconds) e (loaded e w.db) w
  after_limits c e p (err not_configured) w = (server_error, w)

  -- The `ValueError`s of the preparation leave the row as it is.
  unfoldable pub after_prepare :
      Context → OrderExecution → Result PrepareError PreparedRequest → World S → Answer × World S
  unfolding after_limits fail_submission
  after_prepare c e (err gate_not_approved) w =
      fail_submission (codes "exchange_request_failed") exchange_failed e (loaded e w.db) w
  after_prepare c e (err x) w = (invalid_request x, w)
  after_prepare c e (ok p) w =
      let (r, limits') =
        acquire_testnet_order env.acquire c.order.exchange_name (env.id_text c.account.id) p.path
          env.ticks_now w.limits in
      after_limits c e p r (record w { limits = limits' })

  -- `execute_testnet_order` and what follows it, with the client for the account's exchange.
  unfoldable pub send_order : Option Text → Context → OrderExecution → World S → Answer × World S
  unfolding after_prepare
  send_order none c e w = (server_error, w)
  send_order (some url) c e w =
      after_prepare c e
        (prepare_testnet_order_request env.lib c.order c.gate_result
          (signed_client c.account.exchange_name url) c.credentials)
        w

  unfoldable pub after_submission :
      Context → Result SubmitError Submission × Database → World S → Answer × World S
  unfolding send_order
  after_submission c (err e, db) w = (refused e, set_db db w)
  after_submission c (ok s, db) w =
      if s.idempotent_replay
      then (order_row s.execution true c.approval_id, set_db db w)
      else send_order (testnet_base_url c.account.exchange_name) c s.execution (set_db db w)

  unfoldable pub after_context :
      Supply → ℕ → Result SubmitError Context × Database → World S → Answer × World S
  unfolding after_submission
  after_context supply user (err e, db) w = (refused e, set_db db w)
  after_context supply user (ok c, db) w =
      after_submission c (create_or_get_testnet_submission_execution supply user c db) (set_db db w)

  unfoldable pub submit_testnet_order : Supply → ℕ → SubmitRequest → World S → Answer × World S
  unfolding after_context
  submit_testnet_order supply user r w =
      if new_orders_allowed w.db
      then after_context supply user
          (build_testnet_order_api_context supply.settings_id user r w.db) w
      else (refused stop_enabled, w)
