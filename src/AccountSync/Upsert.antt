-- ===== src/AccountSync/Upsert.antt =====
-- backend/app/services/testnet_account_state_sync.py, the writing of the updates: one row for each
-- account and asset or symbol.
use crypto_copy_trading_plat.Prelude.{
  ℕ, Bool, true, false, not, ◌&&◌, Option, none, some, List, [], ◌∷◌, ◌==◌, length, if◌then◌else◌,
}
use crypto_copy_trading_plat.Prelude.Text.{Text, text_eq}
use crypto_copy_trading_plat.Prelude.Exec.{Exec, ok, err}
use crypto_copy_trading_plat.Domain.{
  ExchangeName, exchange_eq, testnet, mode_eq, Balance, Position, ExchangeAccount,
}
use crypto_copy_trading_plat.Database.{Database, get_owned_account}
use crypto_copy_trading_plat.Lifecycle.Normalize.{
  EventType, balance_event, position_event, UserStreamEvent,
}
use crypto_copy_trading_plat.AccountSync.{
  Reader, SyncError, account_not_found, account_inactive, mode_not_testnet, exchange_differs,
  BalanceUpdate, PositionUpdate, SyncResult, Read, balance_updates, position_updates,
}

-- The columns that a row is looked up by, with an asset or a symbol as its name.
pub record RowKey : Type 0 where
  pub user_id : ℕ
  pub exchange_account_id : ℕ
  pub name : Text

abbrev pub is_balance : RowKey → Balance → Bool
is_balance k b =
    b.user_id == k.user_id
    && (b.exchange_account_id == k.exchange_account_id && text_eq b.asset k.name)

abbrev pub set_balance : BalanceUpdate → Balance → Balance
set_balance u b = record b {
  available_quantity = u.available_quantity;
  locked_quantity = u.locked_quantity;
  total_quantity = u.total_quantity;
}

abbrev pub new_balance : RowKey → BalanceUpdate → Balance
new_balance k u = record {
  user_id = k.user_id;
  exchange_account_id = k.exchange_account_id;
  asset = k.name;
  available_quantity = u.available_quantity;
  locked_quantity = u.locked_quantity;
  total_quantity = u.total_quantity;
}

-- `_upsert_balance`
unfoldable pub upsert_balance : RowKey → BalanceUpdate → List Balance → List Balance
unfolding text_eq
upsert_balance k u [] = new_balance k u ∷ []
upsert_balance k u (b ∷ bs) =
    let rest = upsert_balance k u bs in if is_balance k b then set_balance u b ∷ bs else b ∷ rest

abbrev pub is_position : RowKey → Position → Bool
is_position k p =
    p.user_id == k.user_id
    && (p.exchange_account_id == k.exchange_account_id && text_eq p.symbol k.name)

abbrev pub new_position : RowKey → PositionUpdate → Position
new_position k u = record {
  user_id = k.user_id;
  exchange_account_id = k.exchange_account_id;
  symbol = k.name;
  quantity = u.quantity;
}

-- `_upsert_position`
unfoldable pub upsert_position : RowKey → PositionUpdate → List Position → List Position
unfolding text_eq
upsert_position k u [] = new_position k u ∷ []
upsert_position k u (p ∷ ps) =
    let rest = upsert_position k u ps in
    if is_position k p then record p { quantity = u.quantity } ∷ ps else p ∷ rest

abbrev pub balance_key : ℕ → ℕ → BalanceUpdate → RowKey
balance_key user account u = record {
  user_id = user;
  exchange_account_id = account;
  name = u.asset;
}

abbrev pub position_key : ℕ → ℕ → PositionUpdate → RowKey
position_key user account u = record {
  user_id = user;
  exchange_account_id = account;
  name = u.symbol;
}

-- The updates of one event, in their order.
unfoldable pub upsert_balances : ℕ → ℕ → List BalanceUpdate → List Balance → List Balance
unfolding upsert_balance
upsert_balances user account [] rows = rows
upsert_balances user account (u ∷ us) rows =
    upsert_balances user account us (upsert_balance (balance_key user account u) u rows)

unfoldable pub upsert_positions : ℕ → ℕ → List PositionUpdate → List Position → List Position
unfolding upsert_position
upsert_positions user account [] rows = rows
upsert_positions user account (u ∷ us) rows =
    upsert_positions user account us (upsert_position (position_key user account u) u rows)

-- `_require_testnet_account`, for the account that the query finds
unfoldable pub require_account : ExchangeName → Option ExchangeAccount → Read (Unit {0})
require_account name none = err account_not_found
require_account name (some a) =
    if not a.is_active
    then err account_inactive
    else if not (mode_eq a.account_mode testnet)
    then err mode_not_testnet
    else if exchange_eq a.exchange_name name
    then ok tt
    else err exchange_differs

unfoldable pub store_balances :
    ℕ → ℕ → Read (List BalanceUpdate) → Exec Database SyncError SyncResult
unfolding upsert_balances
store_balances user account (err e) db = (err e, db)
store_balances user account (ok us) db = (
  ok (record { synced = true; balances_synced = length us; positions_synced = 0 }),
  record db { balances = upsert_balances user account us db.balances },
)

unfoldable pub store_positions :
    ℕ → ℕ → Read (List PositionUpdate) → Exec Database SyncError SyncResult
unfolding upsert_positions
store_positions user account (err e) db = (err e, db)
store_positions user account (ok us) db = (
  ok (record { synced = true; balances_synced = 0; positions_synced = length us }),
  record db { positions = upsert_positions user account us db.positions },
)

module _ (reader : Reader) where
  -- The event of an account that was accepted, by its type.
  unfoldable pub sync_typed :
      EventType → ℕ → ℕ → UserStreamEvent → Exec Database SyncError SyncResult
  unfolding store_balances store_positions balance_updates position_updates
  sync_typed balance_event user account ev db =
      store_balances user account (balance_updates reader ev.exchange_name ev.raw_payload) db
  sync_typed position_event user account ev db =
      store_positions user account (position_updates reader ev.exchange_name ev.raw_payload) db
  sync_typed _ user account ev db =
      (ok (record { synced = false; balances_synced = 0; positions_synced = 0 }), db)

  unfoldable pub sync_accepted :
      Read (Unit {0}) → ℕ → ℕ → UserStreamEvent → Exec Database SyncError SyncResult
  unfolding sync_typed
  sync_accepted (err e) user account ev db = (err e, db)
  sync_accepted (ok _) user account ev db = sync_typed ev.event_type user account ev db

  unfoldable pub sync_testnet_account_state_event :
      ℕ → ℕ → UserStreamEvent → Exec Database SyncError SyncResult
  unfolding sync_accepted require_account
  sync_testnet_account_state_event user account ev db =
      sync_accepted (require_account ev.exchange_name (get_owned_account user account db)) user
        account ev db
