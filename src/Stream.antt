-- ===== src/Stream.antt =====
-- The consumer of a user stream: backend/app/services/testnet_user_stream_consumer.py, with the event
-- types of testnet_user_stream_runtime.py and the dispatch of testnet_user_stream_event_handler.py.
pub mod Ends
pub mod Kept
pub mod Raises
mod Tests
use crypto_copy_trading_plat.Prelude.{
  ℕ, zero, suc, ◌+◌, ◌-◌, ◌*◌, ◌^◌, Bool, true, false, ◌||◌, Option, none, some, List, [], ◌∷◌,
  ◌++◌, ◌==◌, leb, if◌then◌else◌,
}
use crypto_copy_trading_plat.Prelude.Text.{Text, codes, text_eq, text_in}
use crypto_copy_trading_plat.Prelude.Exec.{Exec, Result, ok, err}
use crypto_copy_trading_plat.Json.{Json, text, object, Fields}
use crypto_copy_trading_plat.Domain.{ExchangeName, binance, bybit, okx, mock}
use crypto_copy_trading_plat.Database.{Database}
use crypto_copy_trading_plat.Response.{get_field}
use crypto_copy_trading_plat.Lifecycle.{EventError, LifecycleResult}
use crypto_copy_trading_plat.Lifecycle.Normalize.{
  Python, EventType, order_event, balance_event, position_event, unknown_event, UserStreamEvent,
  is_text, text_of, handle_user_stream_event,
}
use crypto_copy_trading_plat.AccountSync.{Reader, SyncError, SyncResult}
use crypto_copy_trading_plat.AccountSync.Upsert.{sync_testnet_account_state_event}

-- `s.startswith(prefix)`
unfoldable pub starts_with : Text → Text → Bool
starts_with [] s = true
starts_with (a ∷ p) [] = false
starts_with (a ∷ p) (b ∷ s) = let rest = starts_with p s in if a == b then rest else false

-- `_binance_event_type`. A list or an object under `e`, for which the set test raises a `TypeError`,
-- is of unknown type here.
unfoldable pub binance_event_type : Fields → EventType
unfolding get_field text_eq
binance_event_type r =
    let name = get_field (codes "e") r in
    if is_text (codes "executionReport") name || is_text (codes "listStatus") name
    then order_event
    else if is_text (codes "outboundAccountPosition") name || is_text (codes "balanceUpdate") name
    then balance_event
    else unknown_event

-- The type of a Bybit topic.
unfoldable pub bybit_topic_type : Text → EventType
unfolding starts_with
bybit_topic_type t =
    if starts_with (codes "order") t || starts_with (codes "execution") t
    then order_event
    else if starts_with (codes "wallet") t
    then balance_event
    else if starts_with (codes "position") t
    then position_event
    else unknown_event

-- `payload.get("topic", "")`
abbrev pub topic_or_empty : Option Json → Option Json
topic_or_empty none = some (text [])
topic_or_empty (some v) = some v

-- The type of an OKX channel.
unfoldable pub okx_channel_type : Option Json → EventType
unfolding text_eq
okx_channel_type channel =
    if is_text (codes "orders") channel
    then order_event
    else if is_text (codes "account") channel
    then balance_event
    else if is_text (codes "positions") channel
    then position_event
    else unknown_event

unfoldable pub okx_event_type : Option Json → EventType
unfolding okx_channel_type get_field
okx_event_type (some (object arg)) = okx_channel_type (get_field (codes "channel") arg)
okx_event_type _ = unknown_event

-- The errors of the handler.
pub data HandlerError : Type 0 where
  order_error : EventError → HandlerError
  sync_error : SyncError → HandlerError

-- `TestnetUserStreamEventHandlingResult`
pub record HandlingResult : Type 0 where
  pub order_result : Option LifecycleResult
  pub state_event_processed : Bool

abbrev pub order_handled :
    Result EventError LifecycleResult × Database → Result HandlerError HandlingResult × Database
order_handled (ok r, db) =
    (ok (record { order_result = some r; state_event_processed = false }), db)
order_handled (err e, db) = (err (order_error e), db)

abbrev pub state_handled :
    Result SyncError SyncResult × Database → Result HandlerError HandlingResult × Database
state_handled (ok r, db) =
    (ok (record { order_result = none; state_event_processed = r.synced }), db)
state_handled (err e, db) = (err (sync_error e), db)

module _ (reader : Reader) where
  -- `_event_type`
  unfoldable pub event_type_of : ExchangeName → Fields → EventType
  unfolding binance_event_type bybit_topic_type okx_event_type get_field
  event_type_of binance r = binance_event_type r
  event_type_of bybit r =
      bybit_topic_type (text_of reader.py (topic_or_empty (get_field (codes "topic") r)))
  event_type_of okx r = okx_event_type (get_field (codes "arg") r)
  event_type_of mock r = unknown_event

  -- `parse_testnet_user_stream_event`
  unfoldable pub parse_event : ExchangeName → Fields → UserStreamEvent
  unfolding event_type_of
  parse_event name r = record {
    exchange_name = name;
    event_type = event_type_of name r;
    raw_payload = r;
  }

  -- The call of `PersistingTestnetUserStreamEventHandler`, by the event's type.
  unfoldable pub handle_by_type :
      EventType → ℕ → ℕ → UserStreamEvent → Exec Database HandlerError HandlingResult
  unfolding handle_user_stream_event sync_testnet_account_state_event
  handle_by_type order_event user account ev db =
      order_handled (handle_user_stream_event reader.py user account ev db)
  handle_by_type _ user account ev db =
      state_handled (sync_testnet_account_state_event reader user account ev db)

  unfoldable pub handle_event : ℕ → ℕ → UserStreamEvent → Exec Database HandlerError HandlingResult
  unfolding handle_by_type
  handle_event user account ev db = handle_by_type ev.event_type user account ev db

pub data ConsumerStatus : Type 0 where
  stopped message_limit_reached reconnect_exhausted : ConsumerStatus

-- What the consumer meets: the answers of `should_stop`, whether the n-th session opens, and the
-- n-th message, which is none where the transport fails.
pub record Surroundings : Type 0 where
  pub should_stop : ℕ → Bool
  pub opens : ℕ → Bool
  pub receive : ℕ → Option Fields

-- The settings of a consumer; times are in one unit of the caller.
pub record ConsumerSettings : Type 0 where
  pub reader : Reader
  pub user_id : ℕ
  pub exchange_account_id : ℕ
  pub exchange_name : ExchangeName
  pub max_reconnect_attempts : ℕ
  pub initial_backoff : ℕ
  pub max_backoff : ℕ
  pub max_messages : Option ℕ

-- The counters of the consumer, how often each answer was asked for, the times it slept, and the
-- tables.
pub record ConsumerState : Type 0 where
  pub asked : ℕ
  pub opened : ℕ
  pub received : ℕ
  pub messages_processed : ℕ
  pub reconnect_attempts : ℕ
  pub sleeps : List ℕ
  pub db : Database

-- Either a result or what the event handler raised, with the state at the end.
pub data ConsumerEnd : Type 0 where
  returned : ConsumerStatus → ConsumerState → ConsumerEnd
  raised : HandlerError → ConsumerState → ConsumerEnd

-- The two loops: before a session, or in one.
pub data ConsumerPhase : Type 0 where
  connecting reading : ConsumerPhase

pub data ConsumerStep : Type 0 where
  next : ConsumerPhase → ConsumerState → ConsumerStep
  finish : ConsumerEnd → ConsumerStep

-- The delay of `_sleep_before_reconnect`
unfoldable pub backoff : ConsumerSettings → ℕ → ℕ
backoff c attempt =
    let delay = c.initial_backoff * 2 ^ (attempt - 1) in
    if leb delay c.max_backoff then delay else c.max_backoff

-- A failed connection: no attempt is left, or the consumer sleeps and connects again.
unfoldable pub reconnect : ConsumerSettings → ConsumerState → ConsumerStep
unfolding backoff
reconnect c s =
    if leb c.max_reconnect_attempts s.reconnect_attempts
    then finish (returned reconnect_exhausted s)
    else next connecting (record s {
      reconnect_attempts = suc s.reconnect_attempts;
      sleeps = s.sleeps ++ backoff c (suc s.reconnect_attempts) ∷ [];
    })

-- `max_messages is not None and messages_processed >= max_messages`
abbrev pub at_limit : Option ℕ → ℕ → Bool
at_limit none n = false
at_limit (some limit) n = leb limit n

unfoldable pub after_message :
    ConsumerSettings → ConsumerState → Result HandlerError HandlingResult × Database → ConsumerStep
after_message c s (err e, db) = finish (raised e (record s { db = db }))
after_message c s (ok r, db) =
    let s' = record s { db = db; messages_processed = suc s.messages_processed } in
    if at_limit c.max_messages s'.messages_processed
    then finish (returned message_limit_reached s')
    else next reading s'

module _ (c : ConsumerSettings) (around : Surroundings) where
  -- `should_stop()`, with its answer counted
  abbrev pub ask : ConsumerState → ConsumerState
  ask s = record s { asked = suc s.asked }

  -- The end of a session whose transport failed.
  unfoldable pub after_failure : ConsumerState → ConsumerStep
  unfolding reconnect
  after_failure s =
      if around.should_stop s.asked then finish (returned stopped (ask s)) else reconnect c (ask s)

  unfoldable pub after_receive : Option Fields → ConsumerState → ConsumerStep
  unfolding after_failure after_message handle_event parse_event
  after_receive none s = after_failure s
  after_receive (some payload) s = after_message c s (
      handle_event c.reader c.user_id c.exchange_account_id
        (parse_event c.reader c.exchange_name payload) s.db)

  -- One turn of either loop. A session that is stopped asks once more, and stops in either case.
  unfoldable pub consumer_step : ConsumerPhase → ConsumerState → ConsumerStep
  unfolding after_receive reconnect
  consumer_step connecting s =
      let s' = record (ask s) { opened = suc s.opened } in
      if around.should_stop s.asked
      then finish (returned stopped (ask s))
      else if around.opens s.opened
      then next reading s'
      else reconnect c s'
  consumer_step reading s =
      let s' = record (ask s) { received = suc s.received } in
      if around.should_stop s.asked
      then finish (returned stopped (ask (ask s)))
      else after_receive (around.receive s.received) s'

  -- The loops of `consume`, on fuel.
  unfoldable pub consume : ℕ → ConsumerPhase → ConsumerState → Option ConsumerEnd
  unfolding consumer_step
  consume zero phase s = none
  consume (suc fuel) phase s = elim (consumer_step phase s) [
    | finish e ↦ some e
    | next phase' s' ↦ consume fuel phase' s'
  ]
