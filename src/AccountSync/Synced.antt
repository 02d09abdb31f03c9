-- ===== src/AccountSync/Synced.antt =====
-- What an event leaves: the reported rows, and every other row as it was.
use crypto_copy_trading_plat.Prelude.{
  ℕ, ◌≡◌, ◌≢◌, refl, sym, ap, ◌∙◌, true, false, Option, none, some, List, [], ◌∷◌, All, find?, map,
  arith, length, is_empty, Bool-cases, inl, inr,
}
use crypto_copy_trading_plat.Prelude.Text.{Text, text_eq, text_eq_refl, text_eq_sound, text_in}
use crypto_copy_trading_plat.Prelude.Exec.{Result, ok, err, and_then, Returns, Returns-ok}
use crypto_copy_trading_plat.Decimal.{Decimal}
use crypto_copy_trading_plat.Domain.{Balance}
use crypto_copy_trading_plat.Database.{Database, get_owned_account}
use crypto_copy_trading_plat.Lifecycle.Normalize.{
  EventType, order_event, balance_event, position_event, unknown_event, UserStreamEvent,
}
use crypto_copy_trading_plat.AccountSync.{
  Reader, SyncError, BalanceUpdate, PositionUpdate, Read, checked, all_different, exchange_balances,
  balance_updates, position_updates,
}
use crypto_copy_trading_plat.AccountSync.Upsert.{
  RowKey, is_balance, new_balance, upsert_balance, balance_key, upsert_balances, require_account,
  store_balances, store_positions, sync_typed, sync_accepted, sync_testnet_account_state_event,
}

-- The three quantities of a row.
abbrev pub Quantities : Type 0
Quantities = Decimal × Decimal × Decimal

abbrev pub row_quantities : Option Balance → Option Quantities
row_quantities none = none
row_quantities (some b) = some (b.available_quantity, b.locked_quantity, b.total_quantity)

-- The quantities that the table has under a key.
abbrev pub balance_of : RowKey → List Balance → Option Quantities
balance_of k rows = row_quantities (find? (is_balance k) rows)

abbrev pub reported : BalanceUpdate → Quantities
reported u = (u.available_quantity, u.locked_quantity, u.total_quantity)

abbrev key_of : Balance → RowKey
key_of b = record {
  user_id = b.user_id;
  exchange_account_id = b.exchange_account_id;
  name = b.asset;
}

key_eq_refl : (k : RowKey) (u : BalanceUpdate) → is_balance k (new_balance k u) ≡ true
key_eq_refl k u = rw (text_eq_refl k.name) (ground arith)

key_of_row : (k : RowKey) (b : Balance) → is_balance k b ≡ true → key_of b ≡ k
key_of_row k b h =
    let name : text_eq b.asset k.name ≡ true = ground arith in
    let names : b.asset ≡ k.name = text_eq_sound b.asset k.name name in
    let users : b.user_id ≡ k.user_id = ground arith in
    let accounts : b.exchange_account_id ≡ k.exchange_account_id = ground arith in cc

-- A row has one key.
other_row : (k j : RowKey) (b : Balance) → k ≢ j → is_balance k b ≡ true → is_balance j b ≡ false
other_row k j b other h = elim (Bool-cases (is_balance j b)) [
  | inl both ↦ absurd (other (sym (key_of_row k b h) ∙ key_of_row j b both))
  | inr miss ↦ miss
]

upsert_same :
    (k : RowKey) (u : BalanceUpdate) (rows : List Balance)
    → balance_of k (upsert_balance k u rows) ≡ some (reported u)
unfolding upsert_balance
upsert_same k u [] = rw (key_eq_refl k u) refl
upsert_same k u (b ∷ rows) = elim (Bool-cases (is_balance k b)) [
  | inl hit ↦ rw (hit, hit) refl
  | inr miss ↦ rw (miss, miss) (upsert_same k u rows)
]

upsert_other :
    (k j : RowKey) (u : BalanceUpdate) (rows : List Balance)
    → k ≢ j
    → balance_of j (upsert_balance k u rows) ≡ balance_of j rows
unfolding upsert_balance
upsert_other k j u [] other = rw (other_row k j (new_balance k u) other (key_eq_refl k u)) refl
upsert_other k j u (b ∷ rows) other = elim (Bool-cases (is_balance k b)) [
  | inl hit ↦ rw (hit, other_row k j b other hit) refl
  | inr miss ↦ elim (Bool-cases (is_balance j b)) [
    | inl found ↦ rw (miss, found) refl
    | inr next ↦ rw (miss, next) (upsert_other k j u rows other)
  ]
]

module _ (user account : ℕ) where
  abbrev pub HasOtherKey : RowKey → BalanceUpdate → Type 0
  HasOtherKey j u = balance_key user account u ≢ j

  not_named :
      (u : BalanceUpdate) (us : List BalanceUpdate)
      → text_in u.asset (map (λ v. v.asset) us) ≡ false
      → All (HasOtherKey (balance_key user account u)) us
  unfolding text_in
  not_named u [] h = tt
  not_named u (v ∷ us) h =
      let differs : text_eq u.asset v.asset ≡ false = ground arith in
      (
        λ same.
            let names : v.asset ≡ u.asset = ap (λ k. k.name) same in
            let hit : text_eq u.asset v.asset ≡ true = rw names (text_eq_refl u.asset) in cc,
        not_named u us (ground arith),
      )

  upserts_other :
      (j : RowKey) (us : List BalanceUpdate) (rows : List Balance)
      → All (HasOtherKey j) us
      → balance_of j (upsert_balances user account us rows) ≡ balance_of j rows
  unfolding upsert_balances
  upserts_other j [] rows other = refl
  upserts_other j (u ∷ us) rows other =
      let k = balance_key user account u in
      upserts_other j us (upsert_balance k u rows) other.1 ∙ upsert_other k j u rows other.0

  -- The table has what the update reports.
  abbrev pub IsReported : List Balance → BalanceUpdate → Type 0
  IsReported rows u = balance_of (balance_key user account u) rows ≡ some (reported u)

  upserts-IsReported :
      (us : List BalanceUpdate) (rows : List Balance)
      → all_different (map (λ v. v.asset) us) ≡ true
      → All (IsReported (upsert_balances user account us rows)) us
  unfolding upsert_balances all_different
  upserts-IsReported [] rows different = tt
  upserts-IsReported (u ∷ us) rows different =
      let k = balance_key user account u in
      let new : text_in u.asset (map (λ v. v.asset) us) ≡ false = ground arith in
      (
        upserts_other k us (upsert_balance k u rows) (not_named u us new) ∙ upsert_same k u rows,
        upserts-IsReported us (upsert_balance k u rows) (ground arith),
      )

checked_different :
    {A : Type 0} (key : A → Text) (updates : List A)
    → Returns (λ us. all_different (map key us) ≡ true) (checked key updates)
unfolding checked
checked_different key updates = elim (Bool-cases (all_different (map key updates))) [
  | inl different ↦ elim (Bool-cases (is_empty updates)) [
    | inl none_left ↦ rw (different, none_left) tt
    | inr some_left ↦ rw (different, some_left) different
  ]
  | inr same ↦ rw same tt
]

updates_different :
    (reader : Reader) (r : Read (List BalanceUpdate))
    → Returns
        (λ us. all_different (map (λ u. u.asset) us) ≡ true)
        (and_then r λ updates. checked (λ u. u.asset) updates)
updates_different reader (err e) = tt
updates_different reader (ok us) = checked_different (λ u. u.asset) us

module _ (reader : Reader) (user account : ℕ) (ev : UserStreamEvent) (db : Database) where
  -- A balance event of an accepted account, whose balances can be read, leaves every reported
  -- balance as it was reported, and the balance under every other account or asset as it was.
  pub sync_balances :
      (us : List BalanceUpdate)
      → ev.event_type ≡ balance_event
      → require_account ev.exchange_name (get_owned_account user account db) ≡ ok tt
      → balance_updates reader ev.exchange_name ev.raw_payload ≡ ok us
      → let r = sync_testnet_account_state_event reader user account ev db in
        (r.0 ≡ ok (record { synced = true; balances_synced = length us; positions_synced = 0 }))
        × All (IsReported user account r.1.balances) us
        × ((j : RowKey)
            → All (HasOtherKey user account j) us
            → balance_of j r.1.balances ≡ balance_of j db.balances)
  unfolding sync_testnet_account_state_event sync_accepted sync_typed store_balances
  sync_balances us at_balance accepts reads =
      let different : all_different (map (λ u. u.asset) us) ≡ true =
        Returns-ok (λ vs. all_different (map (λ u. u.asset) vs) ≡ true)
          (balance_updates reader ev.exchange_name ev.raw_payload) us
          (unfold balance_updates in
            updates_different reader (exchange_balances reader ev.exchange_name ev.raw_payload))
          reads in
      rw (accepts, at_balance, reads)
        (
          refl,
          upserts-IsReported user account us db.balances different,
          λ j other. upserts_other user account j us db.balances other,
        )

abbrev KeepsOnError : {A : Type 0} → Database → Result SyncError A × Database → Type 0
KeepsOnError db r = (e : SyncError) → r.0 ≡ err e → r.1 ≡ db

balances-KeepsOnError :
    (user account : ℕ) (r : Read (List BalanceUpdate)) (db : Database)
    → KeepsOnError db (store_balances user account r db)
unfolding store_balances
balances-KeepsOnError user account (err x) db e h = refl
balances-KeepsOnError user account (ok us) db e h = cc

positions-KeepsOnError :
    (user account : ℕ) (r : Read (List PositionUpdate)) (db : Database)
    → KeepsOnError db (store_positions user account r db)
unfolding store_positions
positions-KeepsOnError user account (err x) db e h = refl
positions-KeepsOnError user account (ok us) db e h = cc

typed-KeepsOnError :
    (reader : Reader) (type : EventType) (user account : ℕ) (ev : UserStreamEvent) (db : Database)
    → KeepsOnError db (sync_typed reader type user account ev db)
unfolding sync_typed
typed-KeepsOnError reader balance_event user account ev db e h =
    balances-KeepsOnError user account (balance_updates reader ev.exchange_name ev.raw_payload) db e
      h
typed-KeepsOnError reader position_event user account ev db e h =
    positions-KeepsOnError user account (position_updates reader ev.exchange_name ev.raw_payload) db
      e h
typed-KeepsOnError reader order_event user account ev db e h = refl
typed-KeepsOnError reader unknown_event user account ev db e h = refl

accepted-KeepsOnError :
    (reader : Reader) (r : Read (Unit {0})) (user account : ℕ) (ev : UserStreamEvent)
    (db : Database)
    → KeepsOnError db (sync_accepted reader r user account ev db)
unfolding sync_accepted
accepted-KeepsOnError reader (err x) user account ev db e h = refl
accepted-KeepsOnError reader (ok _) user account ev db e h =
    typed-KeepsOnError reader ev.event_type user account ev db e h

-- An event that raises changes no row, however many of its updates could be read before.
pub sync_error_keeps :
    (reader : Reader) (user account : ℕ) (ev : UserStreamEvent) (db : Database) (e : SyncError)
    → (sync_testnet_account_state_event reader user account ev db).0 ≡ err e
    → (sync_testnet_account_state_event reader user account ev db).1 ≡ db
unfolding sync_testnet_account_state_event
sync_error_keeps reader user account ev db e h =
    accepted-KeepsOnError reader
      (require_account ev.exchange_name (get_owned_account user account db)) user account ev db e h
