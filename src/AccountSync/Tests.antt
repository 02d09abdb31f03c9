-- ===== src/AccountSync/Tests.antt =====
-- A balance event of a test account, and one that raises.
use crypto_copy_trading_plat.Prelude.{◌≡◌, refl, true, some, [], ◌∷◌, All}
use crypto_copy_trading_plat.Prelude.Int.{pos, ◌*ℤ◌, ◌+ℤ◌}
use crypto_copy_trading_plat.Prelude.Text.{codes, text_eq}
use crypto_copy_trading_plat.Decimal.{add, round_digits}
use crypto_copy_trading_plat.Prelude.Exec.{ok, err}
use crypto_copy_trading_plat.Json.{Json, text, array, object, nil, cons, field, end}
use crypto_copy_trading_plat.Domain.{binance, bybit}
use crypto_copy_trading_plat.Database.{get_owned_account}
use crypto_copy_trading_plat.Samples.{uuid, units, database}
use crypto_copy_trading_plat.Sandbox.{python}
use crypto_copy_trading_plat.Lifecycle.Normalize.{UserStreamEvent, balance_event}
use crypto_copy_trading_plat.AccountSync.{
  Reader, finite, exchange_differs, BalanceUpdate, balance_updates,
}
use crypto_copy_trading_plat.AccountSync.Upsert.{
  RowKey, require_account, sync_testnet_account_state_event,
}
use crypto_copy_trading_plat.AccountSync.Synced.{
  IsReported, HasOtherKey, balance_of, sync_balances, sync_error_keeps,
}

-- Every quantity reads as 15 tenths.
abbrev reader : Reader
reader = record {
  py = python;
  parse_decimal = λ t. some (finite (pos 15) (pos 0));
  is_alnum = λ c. true;
}

abbrev coin : Json
coin = object (
    field (codes "a") (text (codes " usdt"))
      (field (codes "f") (text (codes "15")) (field (codes "l") (text (codes "15")) end)))

abbrev event : UserStreamEvent
event = record {
  exchange_name = binance;
  event_type = balance_event;
  raw_payload = field (codes "B") (array (cons coin nil)) end;
}

abbrev update : BalanceUpdate
update = record {
  asset = codes "USDT";
  available_quantity = units 15;
  locked_quantity = units 15;
  total_quantity = units 30;
}

accepted_account :
    require_account event.exchange_name (get_owned_account (uuid 1) (uuid 8) database) ≡ ok tt
unfolding require_account get_owned_account
accepted_account = refl

event_read : balance_updates reader event.exchange_name event.raw_payload ≡ ok (update ∷ [])
unfolding balance_updates text_eq ◌*ℤ◌ add ◌+ℤ◌ round_digits
event_read = refl

sync_balances_example :
    let r = sync_testnet_account_state_event reader (uuid 1) (uuid 8) event database in
    (r.0 ≡ ok (record { synced = true; balances_synced = 1; positions_synced = 0 }))
    × All (IsReported (uuid 1) (uuid 8) r.1.balances) (update ∷ [])
    × ((j : RowKey)
        → All (HasOtherKey (uuid 1) (uuid 8) j) (update ∷ [])
        → balance_of j r.1.balances ≡ balance_of j database.balances)
sync_balances_example =
    sync_balances reader (uuid 1) (uuid 8) event database (update ∷ []) refl accepted_account
      event_read

abbrev foreign_event : UserStreamEvent
foreign_event = record event { exchange_name = bybit }

foreign_refused :
    (sync_testnet_account_state_event reader (uuid 1) (uuid 8) foreign_event database).0
    ≡ err exchange_differs
unfolding sync_testnet_account_state_event get_owned_account
foreign_refused = refl

sync_error_keeps_example :
    (sync_testnet_account_state_event reader (uuid 1) (uuid 8) foreign_event database).1 ≡ database
sync_error_keeps_example =
    sync_error_keeps reader (uuid 1) (uuid 8) foreign_event database exchange_differs
      foreign_refused
