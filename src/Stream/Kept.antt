-- ===== src/Stream/Kept.antt =====
-- What a consumer does to the table of executions.
use crypto_copy_trading_plat.Prelude.{
  ℕ, zero, suc, ◌≡◌, Option, none, some, List, leb, arith, Bool-cases, inl, inr,
}
use mathlib.Core.Path.{subst}
use crypto_copy_trading_plat.Prelude.Exec.{Result, ok, err}
use crypto_copy_trading_plat.Json.{Fields}
use crypto_copy_trading_plat.Database.{Database, get_owned_account}
use crypto_copy_trading_plat.Lifecycle.{EventError, LifecycleResult}
use crypto_copy_trading_plat.Lifecycle.Normalize.{
  EventType, order_event, balance_event, position_event, unknown_event, UserStreamEvent,
  handle_user_stream_event,
}
use crypto_copy_trading_plat.Lifecycle.Moves.{stay, Runs-trans, handle-Runs}
use crypto_copy_trading_plat.Orders.Kept.{IsKept}
use crypto_copy_trading_plat.Pending.Kept.{Refines}
use crypto_copy_trading_plat.AccountSync.{
  Reader, SyncError, SyncResult, Read, BalanceUpdate, PositionUpdate, balance_updates,
  position_updates,
}
use crypto_copy_trading_plat.AccountSync.Upsert.{
  require_account, store_balances, store_positions, sync_typed, sync_accepted,
  sync_testnet_account_state_event,
}
use crypto_copy_trading_plat.Stream.{
  HandlerError, HandlingResult, order_handled, state_handled, handle_by_type, handle_event,
  parse_event, Surroundings, ConsumerSettings, ConsumerState, ConsumerEnd, ConsumerPhase,
  connecting, reading, ConsumerStep, next, finish, reconnect, at_limit, after_message,
  after_failure, after_receive, consumer_step, consume,
}
use crypto_copy_trading_plat.Stream.Ends.{end_state, step-cases}

balances-Refines :
    (user account : ℕ) (r : Read (List BalanceUpdate)) (db : Database)
    → IsKept db
    → Refines db (store_balances user account r db).1
unfolding store_balances
balances-Refines user account (err e) db k = (k, stay)
balances-Refines user account (ok us) db k = (record { told = k.told; distinct = k.distinct }, stay)

positions-Refines :
    (user account : ℕ) (r : Read (List PositionUpdate)) (db : Database)
    → IsKept db
    → Refines db (store_positions user account r db).1
unfolding store_positions
positions-Refines user account (err e) db k = (k, stay)
positions-Refines user account (ok us) db k =
    (record { told = k.told; distinct = k.distinct }, stay)

module _ (reader : Reader) (user account : ℕ) where
  typed-Refines :
      (type : EventType) (ev : UserStreamEvent) (db : Database)
      → IsKept db
      → Refines db (sync_typed reader type user account ev db).1
  unfolding sync_typed
  typed-Refines balance_event ev db k =
      balances-Refines user account (balance_updates reader ev.exchange_name ev.raw_payload) db k
  typed-Refines position_event ev db k =
      positions-Refines user account (position_updates reader ev.exchange_name ev.raw_payload) db k
  typed-Refines order_event ev db k = (k, stay)
  typed-Refines unknown_event ev db k = (k, stay)

  accepted-Refines :
      (r : Read (Unit {0})) (ev : UserStreamEvent) (db : Database)
      → IsKept db
      → Refines db (sync_accepted reader r user account ev db).1
  unfolding sync_accepted
  accepted-Refines (err e) ev db k = (k, stay)
  accepted-Refines (ok _) ev db k = typed-Refines ev.event_type ev db k

  state-Refines :
      (ev : UserStreamEvent) (db : Database)
      → IsKept db
      → Refines db (state_handled (sync_testnet_account_state_event reader user account ev db)).1
  unfolding sync_testnet_account_state_event
  state-Refines ev db k = state_same db _ (
      accepted-Refines (require_account ev.exchange_name (get_owned_account user account db)) ev db
        k)
    where
      state_same :
          (db : Database) (x : Result SyncError SyncResult × Database)
          → Refines db x.1
          → Refines db (state_handled x).1
      state_same db (ok r, db') h = h
      state_same db (err e, db') h = h

  order-Refines :
      (ev : UserStreamEvent) (db : Database)
      → IsKept db
      → Refines db (order_handled (handle_user_stream_event reader.py user account ev db)).1
  order-Refines ev db k = order_same db _ (handle-Runs reader.py user account ev db k)
    where
      order_same :
          (db : Database) (x : Result EventError LifecycleResult × Database)
          → Refines db x.1
          → Refines db (order_handled x).1
      order_same db (ok r, db') h = h
      order_same db (err e, db') h = h

  handle_by_type-Refines :
      (type : EventType) (ev : UserStreamEvent) (db : Database)
      → IsKept db
      → Refines db (handle_by_type reader type user account ev db).1
  unfolding handle_by_type
  handle_by_type-Refines order_event ev db k = order-Refines ev db k
  handle_by_type-Refines balance_event ev db k = state-Refines ev db k
  handle_by_type-Refines position_event ev db k = state-Refines ev db k
  handle_by_type-Refines unknown_event ev db k = state-Refines ev db k

-- What a turn leaves refines the tables before it.
abbrev StepRefines : Database → ConsumerStep → Type 0
StepRefines db (finish e) = Refines db (end_state e).db
StepRefines db (next phase s) = Refines db s.db

message-Refines :
    (c : ConsumerSettings) (s : ConsumerState) (db : Database)
    (r : Result HandlerError HandlingResult × Database)
    → Refines db r.1
    → StepRefines db (after_message c s r)
unfolding after_message
message-Refines c s db (err e, db') h = h
message-Refines c s db (ok r, db') h =
    elim (Bool-cases (at_limit c.max_messages (suc s.messages_processed))) [
      | inl full ↦ rw full h
      | inr left ↦ rw left h
    ]

reconnect-Refines :
    (c : ConsumerSettings) (s : ConsumerState) → IsKept s.db → StepRefines s.db (reconnect c s)
unfolding reconnect
reconnect-Refines c s k = elim (Bool-cases (leb c.max_reconnect_attempts s.reconnect_attempts)) [
  | inl spent ↦ rw spent (k, stay)
  | inr left ↦ rw left (k, stay)
]

module _ (c : ConsumerSettings) (around : Surroundings) where
  receive-Refines :
      (o : Option Fields) (s : ConsumerState)
      → IsKept s.db
      → StepRefines s.db (after_receive c around o s)
  unfolding after_receive after_failure handle_event
  receive-Refines none s k = elim (Bool-cases (around.should_stop s.asked)) [
    | inl stops ↦ rw stops (k, stay)
    | inr goes ↦ rw goes (reconnect-Refines c (record s { asked = suc s.asked }) k)
  ]
  receive-Refines (some payload) s k =
      let ev = parse_event c.reader c.exchange_name payload in
      message-Refines c s s.db (handle_event c.reader c.user_id c.exchange_account_id ev s.db)
        (handle_by_type-Refines c.reader c.user_id c.exchange_account_id ev.event_type ev s.db k)

  step-Refines :
      (phase : ConsumerPhase) (s : ConsumerState)
      → IsKept s.db
      → StepRefines s.db (consumer_step c around phase s)
  unfolding consumer_step
  step-Refines connecting s k = elim (Bool-cases (around.should_stop s.asked)) [
    | inl stops ↦ rw stops (k, stay)
    | inr goes ↦ elim (Bool-cases (around.opens s.opened)) [
      | inl opens ↦ rw (goes, opens) (k, stay)
      | inr fails ↦
          rw (goes, fails)
            (reconnect-Refines c (record s { asked = suc s.asked; opened = suc s.opened }) k)
    ]
  ]
  step-Refines reading s k = elim (Bool-cases (around.should_stop s.asked)) [
    | inl stops ↦ rw stops (k, stay)
    | inr goes ↦ rw goes (
        receive-Refines (around.receive s.received)
          (record s { asked = suc s.asked; received = suc s.received }) k)
  ]

  -- However a consumer ends, what its messages did to the table of executions refines the
  -- specification: allowed moves only, none of which adds, removes or renames an execution, and the
  -- table is kept, if it was kept before.
  pub consume-Refines :
      (fuel : ℕ) (phase : ConsumerPhase) (s : ConsumerState) (e : ConsumerEnd)
      → IsKept s.db
      → consume c around fuel phase s ≡ some e
      → Refines s.db (end_state e).db
  unfolding consume
  consume-Refines zero phase s e k ends = cc
  consume-Refines (suc fuel) phase s e k ends =
      let step = step-Refines phase s k in
      elim (step-cases (consumer_step c around phase s)) [
        | inl (e', last) ↦
            let same : some e' ≡ some e = rw (consume, last) at ends in
            let here : Refines s.db (end_state e').db = subst (StepRefines s.db) last step in
            ground (arith, here)
        | inr (phase', s', goes) ↦
            let (k', first) = subst (StepRefines s.db) goes step in
            let (k'', rest) = consume-Refines fuel phase' s' e k' (rw (consume, goes) at ends) in
            (k'', Runs-trans first rest)
      ]
