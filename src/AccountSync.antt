-- ===== src/AccountSync.antt =====
-- backend/app/services/testnet_account_state_sync.py: balances and positions of a test account after
-- an event of its user stream.
pub mod Upsert
pub mod Synced
mod Tests
use crypto_copy_trading_plat.Prelude.{
  ℕ, suc, ◌+◌, ◌-◌, ◌^◌, Bool, true, false, not, ◌&&◌, ◌||◌, Option, none, some, List, [], ◌∷◌,
  ◌++◌, ◌==◌, ltb, leb, find?, is_empty, length, map, if◌then◌else◌,
}
use crypto_copy_trading_plat.Prelude.Int.{ℤ, pos, negsuc, ◌*ℤ◌, ltb_ℤ, magnitude}
use crypto_copy_trading_plat.Prelude.Text.{Text, codes, text_eq, text_in, upper, strip}
use crypto_copy_trading_plat.Prelude.Exec.{Exec, Result, ok, err, and_then}
use crypto_copy_trading_plat.Decimal.{Decimal, add, sub}
use crypto_copy_trading_plat.Json.{Json, null, text, array, object, Items, nil, cons, Fields}
use crypto_copy_trading_plat.Domain.{
  ExchangeName, binance, bybit, okx, mock, exchange_eq, testnet, mode_eq, Balance, Position,
  ExchangeAccount,
}
use crypto_copy_trading_plat.Database.{Database, get_owned_account}
use crypto_copy_trading_plat.Response.{get_field}
use crypto_copy_trading_plat.Lifecycle.Normalize.{
  Python, EventType, order_event, balance_event, position_event, unknown_event, UserStreamEvent,
  text_of,
}

-- A number that Python's `Decimal` reads: a coefficient and a power of ten, or no finite number.
pub data ParsedDecimal : Type 0 where
  finite : ℤ → ℤ → ParsedDecimal
  not_finite : ParsedDecimal

-- Python's own operations: those on values, `Decimal(s)`, which is none where it raises, and
-- `isalnum` of one letter.
pub record Reader : Type 0 where
  pub py : Python
  pub parse_decimal : Text → Option ParsedDecimal
  pub is_alnum : ℕ → Bool

-- The messages of `TestnetAccountStateSyncError`.
pub data SyncError : Type 0 where
  account_not_found account_inactive mode_not_testnet exchange_differs : SyncError
  exchange_not_supported no_updates duplicate_key not_a_list : SyncError
  locked_exceeds parts_exceed side_invalid side_unhashable : SyncError
  not_a_string identifier_invalid : SyncError
  not_numeric number_not_finite exceeds_precision negative_quantity : SyncError

-- `BalanceStateUpdate`
pub record BalanceUpdate : Type 0 where
  pub asset : Text
  pub available_quantity : Decimal
  pub locked_quantity : Decimal
  pub total_quantity : Decimal

-- `PositionStateUpdate`
pub record PositionUpdate : Type 0 where
  pub symbol : Text
  pub quantity : Decimal

-- `TestnetAccountStateSyncResult`, with `SYNCED` as `synced ≡ true`.
pub record SyncResult : Type 0 where
  pub synced : Bool
  pub balances_synced : ℕ
  pub positions_synced : ℕ

abbrev pub Read : Type 0 → Type 0
Read = Result SyncError

-- The objects of a list, if all its items are objects.
unfoldable pub item_fields : Items → Option (List Fields)
item_fields nil = some []
item_fields (cons (object fs) xs) = elim (item_fields xs) [ none ↦ none | some l ↦ some (fs ∷ l) ]
item_fields (cons x xs) = none

list_or_error : Option (List Fields) → Read (List Fields)
list_or_error none = err not_a_list
list_or_error (some l) = ok l

-- `_dict_list`
unfoldable pub dict_list : Option Json → Read (List Fields)
unfolding item_fields list_or_error
dict_list (some (array xs)) = list_or_error (item_fields xs)
dict_list _ = err not_a_list

-- A loop that appends what it reads of each object, up to the first error.
unfoldable pub each : {A : Type 0} → (Fields → Read A) → List Fields → Read (List A)
each f [] = ok []
each f (x ∷ xs) = and_then (f x) λ a. and_then (each f xs) λ rest. ok (a ∷ rest)

-- A loop in a loop: the inner one reads a list of each object.
unfoldable pub each_all : {A : Type 0} → (Fields → Read (List A)) → List Fields → Read (List A)
each_all f [] = ok []
each_all f (x ∷ xs) = and_then (f x) λ l. and_then (each_all f xs) λ rest. ok (l ++ rest)

-- The power of ten that makes units of 10^-10, for an exponent of at least -10.
abbrev pub unit_shift : ℤ → Option ℕ
unit_shift (pos n) = some (n + 10)
unit_shift (negsuc n) = if ltb n 10 then some (9 - n) else none

-- The tests of `_quantity` on a number in units of 10^-10; 10^18 is 10^28 units.
unfoldable pub bounded : Bool → Decimal → Read Decimal
bounded nonnegative q =
    if leb (10 ^ 28) (magnitude q)
    then err exceeds_precision
    else if nonnegative && ltb_ℤ q (pos 0)
    then err negative_quantity
    else ok q

unfoldable pub scaled : Bool → ℤ → Option ℕ → Read Decimal
unfolding bounded
scaled nonnegative c none = err exceeds_precision
scaled nonnegative c (some k) = bounded nonnegative (c *ℤ pos (10 ^ k))

unfoldable pub parsed_quantity : Bool → Option ParsedDecimal → Read Decimal
unfolding scaled
parsed_quantity nonnegative none = err not_numeric
parsed_quantity nonnegative (some not_finite) = err number_not_finite
parsed_quantity nonnegative (some (finite c e)) = scaled nonnegative c (unit_shift e)

-- `value.get(key, "0")`
abbrev pub or_zero : Option Json → Option Json
or_zero none = some (text (codes "0"))
or_zero (some v) = some v

-- `len(values) == len(set(values))`
unfoldable pub all_different : List Text → Bool
unfolding text_in
all_different [] = true
all_different (t ∷ ts) = not (text_in t ts) && all_different ts

-- The two tests behind the reading of the updates.
unfoldable pub checked : {A : Type 0} → (A → Text) → List A → Read (List A)
unfolding all_different
checked key updates =
    if all_different (map key updates)
    then if is_empty updates then err no_updates else ok updates
    else err duplicate_key

module _ (reader : Reader) where
  -- `_quantity`
  unfoldable pub read_quantity : Bool → Option Json → Read Decimal
  unfolding parsed_quantity
  read_quantity nonnegative v =
      parsed_quantity nonnegative (reader.parse_decimal (text_of reader.py v))

  unfoldable pub all_letters : Text → Bool
  all_letters [] = true
  all_letters (c ∷ s) = (reader.is_alnum c || (c == b'-' || c == b'_')) && all_letters s

  -- `_identifier`, for the stripped text in upper case
  unfoldable pub valid_identifier : Text → Read Text
  unfolding all_letters
  valid_identifier t =
      if is_empty t || ltb 40 (length t)
      then err identifier_invalid
      else if all_letters t
      then ok t
      else err identifier_invalid

  unfoldable pub identifier : Option Json → Read Text
  unfolding valid_identifier upper strip
  identifier (some (text t)) = valid_identifier (upper (strip t))
  identifier _ = err not_a_string

  -- One row of `_binance_balance_updates`
  unfoldable pub binance_balance : Fields → Read BalanceUpdate
  unfolding read_quantity identifier get_field
  binance_balance r = and_then (read_quantity true (get_field (codes "f") r)) λ available.
      and_then (read_quantity true (get_field (codes "l") r)) λ locked.
        and_then (identifier (get_field (codes "a") r)) λ asset. ok record {
          asset = asset;
          available_quantity = available;
          locked_quantity = locked;
          total_quantity = add available locked;
        }

  -- One coin of `_bybit_balance_updates`
  unfoldable pub bybit_balance : Fields → Read BalanceUpdate
  unfolding read_quantity identifier get_field
  bybit_balance r = and_then (read_quantity true (get_field (codes "walletBalance") r)) λ total.
      and_then (read_quantity true (or_zero (get_field (codes "locked") r))) λ locked.
        if ltb_ℤ total locked
        then err locked_exceeds
        else and_then (identifier (get_field (codes "coin") r)) λ asset. ok record {
          asset = asset;
          available_quantity = sub total locked;
          locked_quantity = locked;
          total_quantity = total;
        }

  -- One row of `_okx_balance_updates`
  unfoldable pub okx_balance : Fields → Read BalanceUpdate
  unfolding read_quantity identifier get_field
  okx_balance r = and_then (read_quantity true (get_field (codes "availBal") r)) λ available.
      and_then (read_quantity true (or_zero (get_field (codes "frozenBal") r))) λ locked.
        and_then (read_quantity true (get_field (codes "cashBal") r)) λ total.
          if ltb_ℤ total (add available locked)
          then err parts_exceed
          else and_then (identifier (get_field (codes "ccy") r)) λ asset. ok record {
            asset = asset;
            available_quantity = available;
            locked_quantity = locked;
            total_quantity = total;
          }

  -- The lists of the accounts of an event, under a key, each read by rows.
  unfoldable pub nested : {A : Type 0} → Text → (Fields → Read A) → Fields → Read (List A)
  unfolding each dict_list get_field
  nested key f r = and_then (dict_list (get_field key r)) λ rows. each f rows

  unfoldable pub exchange_balances : ExchangeName → Fields → Read (List BalanceUpdate)
  unfolding each_all nested binance_balance bybit_balance okx_balance dict_list get_field
  exchange_balances binance r = nested (codes "B") binance_balance r
  exchange_balances bybit r =
      and_then (dict_list (get_field (codes "data") r))
        λ accounts. each_all (nested (codes "coin") bybit_balance) accounts
  exchange_balances okx r =
      and_then (dict_list (get_field (codes "data") r))
        λ accounts. each_all (nested (codes "details") okx_balance) accounts
  exchange_balances mock r = err exchange_not_supported

  -- `_balance_updates`
  unfoldable pub balance_updates : ExchangeName → Fields → Read (List BalanceUpdate)
  unfolding exchange_balances checked
  balance_updates name r =
      and_then (exchange_balances name r) λ updates. checked (λ u. u.asset) updates

  -- The signed quantity of a Bybit position. Testing a list or an object against a set raises a
  -- `TypeError`.
  unfoldable pub signed_quantity : Option Json → Decimal → Read Decimal
  unfolding text_eq
  signed_quantity (some (text t)) size =
      if text_eq t (codes "Buy")
      then ok size
      else if text_eq t (codes "Sell")
      then ok (sub (pos 0) size)
      else if is_empty t && magnitude size == 0
      then ok (pos 0)
      else err side_invalid
  signed_quantity none size = if magnitude size == 0 then ok (pos 0) else err side_invalid
  signed_quantity (some null) size = if magnitude size == 0 then ok (pos 0) else err side_invalid
  signed_quantity (some (array xs)) size = err side_unhashable
  signed_quantity (some (object fs)) size = err side_unhashable
  signed_quantity _ size = err side_invalid

  -- One row of `_bybit_position_updates`
  unfoldable pub bybit_position : Fields → Read PositionUpdate
  unfolding read_quantity identifier get_field signed_quantity
  bybit_position r = and_then (read_quantity true (get_field (codes "size") r)) λ size.
      and_then (signed_quantity (get_field (codes "side") r) size) λ quantity.
        and_then (identifier (get_field (codes "symbol") r))
          λ symbol. ok record { symbol = symbol; quantity = quantity }

  -- One row of `_okx_position_updates`; its symbol is read first.
  unfoldable pub okx_position : Fields → Read PositionUpdate
  unfolding read_quantity identifier get_field
  okx_position r = and_then (identifier (get_field (codes "instId") r)) λ symbol.
      and_then (read_quantity false (get_field (codes "pos") r))
        λ quantity. ok record { symbol = symbol; quantity = quantity }

  unfoldable pub exchange_positions : ExchangeName → Fields → Read (List PositionUpdate)
  unfolding nested bybit_position okx_position
  exchange_positions bybit r = nested (codes "data") bybit_position r
  exchange_positions okx r = nested (codes "data") okx_position r
  exchange_positions _ r = err exchange_not_supported

  -- `_position_updates`
  unfoldable pub position_updates : ExchangeName → Fields → Read (List PositionUpdate)
  unfolding exchange_positions checked
  position_updates name r =
      and_then (exchange_positions name r) λ updates. checked (λ u. u.symbol) updates
