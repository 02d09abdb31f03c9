-- ===== src/Stream/Tests.antt =====
-- A consumer of one message, which fills an order, and messages that make it raise.
use crypto_copy_trading_plat.Prelude.{◌≡◌, refl, true, false, none, some, [], arith}
use crypto_copy_trading_plat.Prelude.Int.{pos}
use crypto_copy_trading_plat.Prelude.Text.{codes, text_eq}
use crypto_copy_trading_plat.Prelude.Exec.{ok, err}
use crypto_copy_trading_plat.Json.{text, Fields, field, end}
use crypto_copy_trading_plat.Domain.{binance}
use crypto_copy_trading_plat.Database.{get_owned_account}
use crypto_copy_trading_plat.Response.{get_field}
use crypto_copy_trading_plat.Samples.{uuid, database}
use crypto_copy_trading_plat.Sandbox.{python, live, live-IsKept, order_report}
use crypto_copy_trading_plat.Lifecycle.{invalid_binance_event}
use crypto_copy_trading_plat.Pending.Kept.{Refines}
use crypto_copy_trading_plat.AccountSync.{Reader, finite, not_a_list}
use crypto_copy_trading_plat.AccountSync.Upsert.{require_account}
use crypto_copy_trading_plat.Stream.{
  order_error, sync_error, handle_event, parse_event, Surroundings, ConsumerSettings, ConsumerState,
  ConsumerEnd, connecting, consume,
}
use crypto_copy_trading_plat.Stream.Ends.{InBounds, end_state, consume_ends}
use crypto_copy_trading_plat.Stream.Kept.{consume-Refines}
use crypto_copy_trading_plat.Stream.Raises.{binance_reports_raise}

abbrev reader : Reader
reader = record {
  py = python;
  parse_decimal = λ t. some (finite (pos 15) (pos 0));
  is_alnum = λ c. true;
}

abbrev settings : ConsumerSettings
settings = record {
  reader = reader;
  user_id = uuid 1;
  exchange_account_id = uuid 8;
  exchange_name = binance;
  max_reconnect_attempts = 1;
  initial_backoff = 1;
  max_backoff = 30;
  max_messages = some 1;
}

-- Every session opens, and gives a report that the order is filled.
abbrev around : Surroundings
around = record {
  should_stop = λ k. false;
  opens = λ k. true;
  receive = λ k. some (order_report (codes "FILLED"));
}

abbrev start : ConsumerState
start = record {
  asked = 0;
  opened = 0;
  received = 0;
  messages_processed = 0;
  reconnect_attempts = 0;
  sleeps = [];
  db = live;
}

ends_so :
    (e : ConsumerEnd) × (consume settings around 6 connecting start ≡ some e)
    × InBounds settings 1 e
ends_so = consume_ends settings around 1 start refl (omega arith) refl refl

consume_ends_example :
    (e : ConsumerEnd) × (consume settings around 6 connecting start ≡ some e)
    × InBounds settings 1 e
consume_ends_example = consume_ends settings around 1 start refl (omega arith) refl refl

consume-Refines_example : Refines live (end_state ends_so.0).db
consume-Refines_example =
    consume-Refines settings around 6 connecting start ends_so.0 live-IsKept ends_so.1

abbrev list_status : Fields
list_status = field (codes "e") (text (codes "listStatus")) end

account_accepted : require_account binance (get_owned_account (uuid 1) (uuid 8) database) ≡ ok tt
unfolding require_account get_owned_account
account_accepted = refl

no_balances : get_field (codes "B") list_status ≡ none
unfolding get_field text_eq
no_balances = refl

binance_reports_raise_example :
    (get_field (codes "e") list_status ≡ some (text (codes "listStatus"))
      → handle_event reader (uuid 1) (uuid 8) (parse_event reader binance list_status) database
        ≡ (err (order_error invalid_binance_event), database))
    × (get_field (codes "e") list_status ≡ some (text (codes "balanceUpdate"))
        → handle_event reader (uuid 1) (uuid 8) (parse_event reader binance list_status) database
          ≡ (err (sync_error not_a_list), database))
binance_reports_raise_example =
    binance_reports_raise reader (uuid 1) (uuid 8) list_status database account_accepted no_balances
