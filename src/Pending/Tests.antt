-- ===== src/Pending/Tests.antt =====
-- One pending order, which its exchange reports as filled.
use crypto_copy_trading_plat.Prelude.{refl, some, [], ◌∷◌}
use crypto_copy_trading_plat.Prelude.Text.{codes}
use crypto_copy_trading_plat.Prelude.Exec.{Result, ok, err}
use crypto_copy_trading_plat.Json.{text, Fields, field, end}
use crypto_copy_trading_plat.Database.{Database}
use crypto_copy_trading_plat.Samples.{uuid, test_account, execution}
use crypto_copy_trading_plat.Sandbox.{
  small_order, context, library, python, credentials, client, live, live-IsKept,
}
use crypto_copy_trading_plat.Orders.Kept.{same-IsKept}
use crypto_copy_trading_plat.Pending.{
  LookupEnv, order_lookup_path, order_lookup_params, lookup_security,
  reconcile_pending_testnet_orders,
}
use crypto_copy_trading_plat.Pending.Kept.{Refines, reconcile_pending-Refines}
use crypto_copy_trading_plat.Domain.{binance, okx, given, OrderExecution}
use crypto_copy_trading_plat.HttpClient.{
  SignedClient, Credentials, PreparedRequest, prepare_private_request, prepare_public_request,
}
use crypto_copy_trading_plat.Submit.Request.{prepare_testnet_order_request}

abbrev answer : Fields
answer =
    field (codes "clientOrderId") (text (codes "c-1"))
      (field (codes "status") (text (codes "FILLED")) end)

abbrev env : LookupEnv
env = record {
  lib = library;
  py = python;
  api_key = λ s. codes "key";
  api_secret = λ s. codes "secret";
  passphrase = λ s. codes "words";
  timestamp_ms = λ n. codes "1700000000000";
  iso_timestamp = λ n. codes "2023-11-14T22:13:20.000Z";
  transport = λ n p. ok answer;
  audit_id = uuid 50;
  now = 2000;
}

-- The tables after the submission, with trading switched off again.
abbrev closed : Database
closed = record live { accounts = test_account ∷ [] }

reconcile_pending-Refines_example :
    Refines closed (reconcile_pending_testnet_orders env (uuid 1) (uuid 8) closed).1
reconcile_pending-Refines_example =
    reconcile_pending-Refines env (uuid 1) (uuid 8) closed
      (same-IsKept live closed refl refl live-IsKept)

abbrev okx_client : SignedClient
okx_client = record client { exchange_name = okx; rest_base_url = codes "https://www.okx.com" }

abbrev okx_credentials : Credentials
okx_credentials = record credentials { passphrase = some (codes "words") }

abbrev prepared_or_empty : {E : Type 0} → Result E PreparedRequest → PreparedRequest
prepared_or_empty (ok r) = r
prepared_or_empty (err e) = prepare_public_request library client [] []

abbrev sent_order : PreparedRequest
sent_order =
    prepared_or_empty
      (prepare_testnet_order_request library small_order context.gate_result client credentials)

abbrev looked_up : OrderExecution
looked_up = record execution { client_order_id = given small_order.client_order_id }

abbrev lookup : PreparedRequest
lookup = prepared_or_empty (
    prepare_private_request library client (order_lookup_path binance) credentials
      (order_lookup_params looked_up binance) (lookup_security binance))
