-- ===== src/Stream/Raises.antt =====
-- Messages that the parser gives a type for which no reader of that type accepts them.
use crypto_copy_trading_plat.Prelude.{ℕ, ◌≡◌, refl, none, some}
use crypto_copy_trading_plat.Prelude.Text.{codes, text_eq}
use crypto_copy_trading_plat.Prelude.Exec.{ok, err}
use crypto_copy_trading_plat.Json.{text, Fields}
use crypto_copy_trading_plat.Domain.{binance}
use crypto_copy_trading_plat.Database.{Database, get_owned_account}
use crypto_copy_trading_plat.Response.{get_field}
use crypto_copy_trading_plat.Lifecycle.{invalid_binance_event}
use crypto_copy_trading_plat.Lifecycle.Normalize.{
  handle_user_stream_event, handle_typed, normalize_stream_event, normalize_binance,
  apply_normalized,
}
use crypto_copy_trading_plat.AccountSync.{
  Reader, not_a_list, balance_updates, exchange_balances, nested, dict_list,
}
use crypto_copy_trading_plat.AccountSync.Upsert.{
  require_account, sync_testnet_account_state_event, sync_accepted, sync_typed, store_balances,
}
use crypto_copy_trading_plat.Stream.{
  order_error, sync_error, handle_event, handle_by_type, parse_event, event_type_of,
  binance_event_type,
}

-- Two messages without the list "B" make the event handler raise, with the tables unchanged, for any
-- Binance account that the state synchronisation accepts: "listStatus", whose type is that of an
-- order, is an invalid order event, and "balanceUpdate", whose type is that of balances, has no list
-- of them.
pub binance_reports_raise :
    (reader : Reader) (user account : ℕ) (r : Fields) (db : Database)
    → require_account binance (get_owned_account user account db) ≡ ok tt
    → get_field (codes "B") r ≡ none
    → (get_field (codes "e") r ≡ some (text (codes "listStatus"))
        → handle_event reader user account (parse_event reader binance r) db
          ≡ (err (order_error invalid_binance_event), db))
      × (get_field (codes "e") r ≡ some (text (codes "balanceUpdate"))
          → handle_event reader user account (parse_event reader binance r) db
            ≡ (err (sync_error not_a_list), db))
unfolding handle_event handle_by_type parse_event event_type_of binance_event_type
    handle_user_stream_event handle_typed normalize_stream_event normalize_binance apply_normalized
    sync_testnet_account_state_event sync_accepted sync_typed store_balances balance_updates
    exchange_balances nested dict_list text_eq
binance_reports_raise reader user account r db accepts no_list =
    (λ named. rw (named, normalize_binance, named) refl, λ named. rw (named, accepts, no_list) refl)
