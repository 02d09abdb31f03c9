-- ===== src/RateLimit.antt =====
-- backend/app/services/rate_limit_service.py and the published limits of
-- backend/app/exchanges/rate_limit.py. Time is counted in microseconds of the monotonic clock.
pub mod Rules
pub mod Windows
pub mod Safety
mod Tests
use crypto_copy_trading_plat.Prelude.{
  ℕ, suc, ◌+◌, ◌-◌, ◌*◌, ◌/◌, max, Bool, ◌&&◌, true, false, Option, none, some, List, [], ◌∷◌, ◌++◌,
  ltb, leb, if◌then◌else◌,
}
use crypto_copy_trading_plat.Prelude.Text.{Text, text_eq, text_in, codes}
use crypto_copy_trading_plat.Prelude.Exec.{Exec, Result, ok, err}
use crypto_copy_trading_plat.Domain.{ExchangeName, binance, okx, bybit, mock, exchange_eq}

pub data RateLimitScope : Type 0 where
  ip account user_id connection dynamic : RateLimitScope

-- `RateLimitRule`, without its notes.
pub record RateLimitRule : Type 0 where
  pub name : Text
  pub scope : RateLimitScope
  pub limit : Option ℕ
  pub interval_seconds : Option ℕ
  pub applies_to : List Text

abbrev pub configured : Text → RateLimitScope → Option ℕ → Option ℕ → List Text → RateLimitRule
configured name scope limit interval applies = record {
  name = name;
  scope = scope;
  limit = limit;
  interval_seconds = interval;
  applies_to = applies;
}

-- The `rules` of `EXCHANGE_RATE_LIMITS[exchange_name]`; `none` is the `KeyError` of the mock.
unfoldable pub exchange_rate_limits : ExchangeName → Option (List RateLimitRule)
exchange_rate_limits binance = some (
    configured (codes "REQUEST_WEIGHT") ip none none (codes "REST" ∷ codes "WebSocket API" ∷ [])
    ∷ configured (codes "RAW_REQUESTS") ip (some 300000) (some 300) (codes "REST" ∷ [])
    ∷ configured (codes "ORDERS") account none none (codes "REST" ∷ codes "WebSocket API" ∷ [])
    ∷ [])
exchange_rate_limits bybit = some (
    configured (codes "HTTP_IP") ip (some 600) (some 5) (codes "REST" ∷ [])
    ∷ configured (codes "WEBSOCKET_CONNECTIONS") ip (some 500) (some 300) (codes "WebSocket" ∷ [])
    ∷ configured (codes "MARKET_DATA_CONNECTIONS") ip (some 1000) none
        (codes "WebSocket market data" ∷ [])
    ∷ [])
exchange_rate_limits okx = some (
    configured (codes "PUBLIC_REST") ip none none (codes "REST public" ∷ [])
    ∷ configured (codes "PRIVATE_REST") user_id none none (codes "REST private" ∷ [])
    ∷ configured (codes "ORDER_MANAGEMENT") user_id none none
        (codes "REST order" ∷ codes "WebSocket order" ∷ [])
    ∷ [])
exchange_rate_limits mock = none

-- `RuntimeRateLimitRule`
pub record RuntimeRule : Type 0 where
  pub name : Text
  pub scope : RateLimitScope
  pub limit : ℕ
  pub interval_seconds : ℕ

abbrev pub safety_name : Text
safety_name = codes "TESTNET_ORDER_ACCOUNT_SAFETY"

abbrev pub safety_rule : RuntimeRule
safety_rule = record { name = safety_name; scope = account; limit = 1; interval_seconds = 1 }

-- The rule at run time, unless it is skipped.
runtime_rule : Text → RateLimitScope → Option ℕ → Option ℕ → List Text → List RuntimeRule
runtime_rule name scope (some limit) (some interval) applies =
    if text_in (codes "REST") applies
    then record { name = name; scope = scope; limit = limit; interval_seconds = interval } ∷ []
    else []
runtime_rule name scope _ _ applies = []

unfoldable pub runtime_rules : List RateLimitRule → List RuntimeRule
unfolding runtime_rule
runtime_rules [] = []
runtime_rules (r ∷ rs) =
    runtime_rule r.name r.scope r.limit r.interval_seconds r.applies_to ++ runtime_rules rs

-- `_testnet_order_rules`
unfoldable pub testnet_order_rules : ExchangeName → Option (List RuntimeRule)
unfolding runtime_rules exchange_rate_limits
testnet_order_rules exchange = elim (exchange_rate_limits exchange) [
  | none ↦ none
  | some rules ↦ some (safety_rule ∷ runtime_rules rules)
]

-- The tuple of names that a window is kept under.
pub record Key : Type 0 where
  pub exchange : ExchangeName
  pub rule : Text
  pub subject : Text

unfoldable pub key_eq : Key → Key → Bool
key_eq a b =
    exchange_eq a.exchange b.exchange && (text_eq a.rule b.rule && text_eq a.subject b.subject)

scope_key : RateLimitScope → Text → Text
scope_key ip account_id = codes "global"
scope_key _ account_id = account_id

-- `_rate_limit_key`
unfoldable pub rate_limit_key : RuntimeRule → ExchangeName → Text → Text → Key
unfolding scope_key
rate_limit_key rule exchange account_id path = record {
  exchange = exchange;
  rule = rule.name;
  subject = scope_key rule.scope account_id ++ codes ":" ++ path;
}

-- Microseconds of a number of seconds.
abbrev pub ticks : ℕ → ℕ
ticks seconds = seconds * 1000000

-- `RateLimitWindow`, the answer of a store.
pub record RateLimitWindow : Type 0 where
  pub count : ℕ
  pub retry_after_seconds : ℕ

-- The service over any store: `acquire` is the store's method, `none` its error.
pub data RateLimitError : Type 0 where
  exceeded : Text → ℕ → RateLimitError
  store_unavailable not_configured : RateLimitError

module _ {S : Type 0} (acquire : Key → ℕ → ℕ → ℕ → S → Option RateLimitWindow × S) where
  -- The test of one window, before the rest of the loop.
  checked :
      Option RateLimitWindow
      → RuntimeRule
      → Result RateLimitError (Unit {0}) × S
      → S
      → Result RateLimitError (Unit {0}) × S
  checked none rule rest s = (err store_unavailable, s)
  checked (some window) rule rest s =
      if ltb rule.limit window.count
      then (err (exceeded rule.name window.retry_after_seconds), s)
      else rest

  -- The loop over the rules, up to the first window that is over its limit.
  unfoldable pub acquire_rules :
      List RuntimeRule → ExchangeName → Text → Text → ℕ → Exec S RateLimitError (Unit {0})
  unfolding rate_limit_key checked
  acquire_rules [] exchange account_id path now s = (ok tt, s)
  acquire_rules (rule ∷ rules) exchange account_id path now s =
      let (answer, s') =
        acquire (rate_limit_key rule exchange account_id path) rule.limit rule.interval_seconds now
          s in
      let rest = acquire_rules rules exchange account_id path now s' in checked answer rule rest s'

  abbrev pub acquire_under :
      Option (List RuntimeRule) → ExchangeName → Text → Text → ℕ → Exec S RateLimitError (Unit {0})
  acquire_under none exchange account_id path now s = (err not_configured, s)
  acquire_under (some rules) exchange account_id path now s =
      acquire_rules rules exchange account_id path now s

  -- `now` is what the clock reads.
  unfoldable pub acquire_testnet_order :
      ExchangeName → Text → Text → ℕ → Exec S RateLimitError (Unit {0})
  unfolding acquire_rules testnet_order_rules
  acquire_testnet_order exchange account_id path now s =
      acquire_under (testnet_order_rules exchange) exchange account_id path now s

-- `_WindowState`
pub record WindowState : Type 0 where
  pub started_at : ℕ
  pub count : ℕ

-- The dictionary of `InMemoryRateLimitWindowStore`.
abbrev pub Windows : Type 0
Windows = List (Key × WindowState)

unfoldable pub get_window : Key → Windows → Option WindowState
get_window k [] = none
get_window k ((j, w) ∷ ws) = if key_eq j k then some w else get_window k ws

unfoldable pub put_window : Key → WindowState → Windows → Windows
put_window k w [] = (k, w) ∷ []
put_window k w ((j, v) ∷ ws) =
    let rest = put_window k w ws in if key_eq j k then (j, w) ∷ ws else (j, v) ∷ rest

-- `_active_window`: the kept window, or a new one that starts now.
unfoldable pub active_window : Option WindowState → ℕ → ℕ → WindowState
active_window none interval now = record { started_at = now; count = 0 }
active_window (some w) interval now =
    if leb (w.started_at + ticks interval) now then record { started_at = now; count = 0 } else w

-- `_retry_after_seconds`, of a monotonic clock, which reads no earlier than the start of the window.
unfoldable pub retry_after_seconds : ℕ → ℕ → ℕ → ℕ
retry_after_seconds now started_at interval = max 1 (interval - (now - started_at) / 1000000)

-- `InMemoryRateLimitWindowStore.acquire`
unfoldable pub acquire_in_memory : Key → ℕ → ℕ → ℕ → Windows → Option RateLimitWindow × Windows
unfolding get_window put_window active_window retry_after_seconds
acquire_in_memory k limit interval now ws =
    let w = active_window (get_window k ws) interval now in
    (
      some (record {
        count = suc w.count;
        retry_after_seconds = retry_after_seconds now w.started_at interval;
      }),
      put_window k (record w { count = suc w.count }) ws,
    )
