-- ===== src/Sandbox.antt =====
-- Rows for the tests of orders on test networks: an account behind every check with an approval, an
-- order under it, and a library of Python that is simple enough to compute with.
use crypto_copy_trading_plat.Prelude.{true, none, some, [], ◌∷◌, ◌++◌, refl}
use crypto_copy_trading_plat.Prelude.Text.{Text, codes}
use crypto_copy_trading_plat.Json.{text, Fields, field, end}
use crypto_copy_trading_plat.Domain.{buy, market, binance, OrderExecutionStatus, ExchangeAccount}
use crypto_copy_trading_plat.Database.{Database}
use crypto_copy_trading_plat.Samples.{uuid, units, btc, database, test_account, settings_of}
use crypto_copy_trading_plat.Approval.{admin, approval_ack, ApprovalRequest, approval_row}
use crypto_copy_trading_plat.HttpClient.{Params, Library, Credentials, SignedClient}
use crypto_copy_trading_plat.Lifecycle.{OrderEvent}
use crypto_copy_trading_plat.Lifecycle.Normalize.{Python, UserStreamEvent, order_event}
use crypto_copy_trading_plat.Orders.Kept.{IsKept, IsFresh}
use crypto_copy_trading_plat.Submit.{Context, OrderInput, SubmitRequest}
use crypto_copy_trading_plat.Submit.Row.{Supply, create_or_get_testnet_submission_execution}
use crypto_copy_trading_plat.Submit.Kept.{create_or_get-IsKept}

abbrev pub query_text : Params → Text
query_text [] = []
query_text ((k, v) ∷ ps) = k ++ (codes "=" ++ (v ++ (codes "&" ++ query_text ps)))

abbrev pub library : Library
library = record {
  urlencode = query_text;
  json_dumps = query_text;
  hmac_hex = λ key payload. codes "hex:" ++ payload;
  hmac_base64 = λ key payload. codes "b64:" ++ payload;
  format_decimal = λ d. codes "2";
}

abbrev pub python : Python
python = record { show = λ v. codes "42"; is_true = λ v. true; decimal_text = λ t. some t }

abbrev pub credentials : Credentials
credentials = record { api_key = codes "key"; api_secret = codes "secret"; passphrase = none }

abbrev pub client : SignedClient
client = record {
  exchange_name = binance;
  rest_base_url = codes "https://testnet.binance.vision";
  timestamp_ms = codes "1700000000000";
  iso_timestamp = codes "2023-11-14T22:13:20.000Z";
  recv_window = codes "5000";
}

abbrev pub open_account : ExchangeAccount
open_account = record test_account { trading_enabled = true }

abbrev pub approval_request : ApprovalRequest
approval_request = record {
  user_role = admin;
  symbol = btc;
  side = buy;
  max_quantity = units 2;
  max_notional = units 40;
  duration_minutes = 10;
  acknowledgement = approval_ack;
}

abbrev pub sandbox : Database
sandbox = record database {
  accounts = open_account ∷ [];
  settings = settings_of test_account.id ∷ [];
  audit_logs = approval_row (uuid 30) 1000 (uuid 1) approval_request test_account ∷ [];
}

abbrev pub submit_request : SubmitRequest
submit_request = record {
  exchange_account_id = test_account.id;
  symbol = btc;
  side = buy;
  order_type = market;
  quantity = units 2;
  price = some (units 20);
  client_order_id = codes "c-1";
  manual_testnet_order_enable_confirmed = true;
}

abbrev pub small_order : OrderInput
small_order = record {
  exchange_name = binance;
  symbol = btc;
  side = buy;
  order_type = market;
  quantity = units 2;
  client_order_id = codes "c-1";
  price = some (units 20);
}

abbrev pub context : Context
context = record {
  account = open_account;
  order = small_order;
  gate_result = record { approved = true; reasons = [] };
  credentials = credentials;
  approval_id = uuid 30;
}

abbrev pub supply : Supply
supply = record { signal_id = uuid 40; execution_id = uuid 41; settings_id = uuid 42 }

pub sandbox-IsKept : IsKept sandbox
sandbox-IsKept = record { told = tt; distinct = tt }

pub sandbox-IsFresh : IsFresh (uuid 41) sandbox
sandbox-IsFresh = record { no_row = tt; no_log = refl }

-- The tables after the submission of the order.
abbrev pub live : Database
live = (create_or_get_testnet_submission_execution supply (uuid 1) context sandbox).1

pub live-IsKept : IsKept live
live-IsKept = create_or_get-IsKept supply (uuid 1) context sandbox sandbox-IsFresh sandbox-IsKept

-- A report of the exchange about the order.
abbrev pub order_report : Text → Fields
order_report status = field (codes "e") (text (codes "executionReport")) (
    field (codes "c") (text (codes "c-1"))
      (field (codes "X") (text status) (field (codes "i") (text (codes "77")) end)))

abbrev pub stream_event : Text → UserStreamEvent
stream_event status = record {
  exchange_name = binance;
  event_type = order_event;
  raw_payload = order_report status;
}

abbrev pub event_of_order : OrderExecutionStatus → OrderEvent
event_of_order status = record {
  exchange_name = binance;
  client_order_id = some (codes "c-1");
  exchange_order_id = some (codes "77");
  status = status;
  event_id = none;
  filled_quantity = none;
}
