-- ===== src/RateLimit/Rules.antt =====
-- What the safety rule of the test orders enforces.
use crypto_copy_trading_plat.Prelude.{
  ℕ, suc, ◌+◌, ◌<◌, ◌≡◌, ◌⊎◌, inl, inr, refl, false, Option, none, some, List, [], ◌∷◌, All,
  Bool-cases, arith, ltb,
}
use crypto_copy_trading_plat.Prelude.Text.{Text, text_eq, text_in}
use crypto_copy_trading_plat.Prelude.Exec.{Result}
use crypto_copy_trading_plat.Domain.{ExchangeName, binance, okx, bybit, mock}
use crypto_copy_trading_plat.RateLimit.{
  RuntimeRule, safety_name, safety_rule, testnet_order_rules, Key, key_eq, rate_limit_key, ticks,
  RateLimitError, acquire_rules, acquire_under, acquire_testnet_order, Windows, get_window,
  active_window, acquire_in_memory,
}
use crypto_copy_trading_plat.RateLimit.Windows.{Held, acquire-Held, after}

-- A rule that has another name than the safety rule, or its interval.
abbrev pub Fine : RuntimeRule → Type 0
Fine rule = (text_eq rule.name safety_name ≡ false) ⊎ (rule.interval_seconds ≡ 1)

-- One order that is let through the limits, or is not.
pub record Call : Type 0 where
  pub exchange : ExchangeName
  pub account_id : Text
  pub path : Text
  pub now : ℕ

unfoldable pub order : Call → Windows → Result RateLimitError (Unit {0}) × Windows
unfolding acquire_testnet_order
order c ws = acquire_testnet_order acquire_in_memory c.exchange c.account_id c.path c.now ws

-- The state after several calls.
unfoldable pub orders : List Call → Windows → Windows
unfolding order
orders [] ws = ws
orders (c ∷ cs) ws = orders cs (order c ws).1

abbrev pub safety_key : Call → Key
safety_key c = rate_limit_key safety_rule c.exchange c.account_id c.path

-- What holds of the rules of an exchange that has limits.
abbrev pub AllOf : (RuntimeRule → Type 0) → Option (List RuntimeRule) → Type 0
AllOf Q none = Unit
AllOf Q (some rules) = All Q rules

pub rules-Fine : (e : ExchangeName) → AllOf Fine (testnet_order_rules e)
unfolding testnet_order_rules text_eq text_in
rules-Fine binance = (inr refl, (inl refl, tt))
rules-Fine okx = (inr refl, tt)
rules-Fine bybit = (inr refl, (inl refl, tt))
rules-Fine mock = tt

-- What each acquisition of an order keeps, the order keeps, whether it is let through or not.
module _ (P : Windows → Type 0) (Q : RuntimeRule → Type 0) (e : ExchangeName)
    (account_id path : Text) (now : ℕ)
    (step : (rule : RuntimeRule) (ws : Windows)
      → Q rule
      → P ws
      → P (
          after
            (rate_limit_key rule e account_id path)
            rule.limit
            rule.interval_seconds
            now
            ws)) where
  pub rules_keep :
      (rules : List RuntimeRule) (ws : Windows)
      → All Q rules
      → P ws
      → P (acquire_rules acquire_in_memory rules e account_id path now ws).1
  unfolding acquire_rules acquire_in_memory
  rules_keep [] ws fine held = held
  rules_keep (rule ∷ rules) ws fine held =
      let first = step rule ws fine.0 held in
      let rest =
        rules_keep rules
          (after (rate_limit_key rule e account_id path) rule.limit rule.interval_seconds now ws)
          fine.1 first in
      elim (Bool-cases (
        ltb rule.limit (
          suc
            (active_window (get_window (rate_limit_key rule e account_id path) ws)
              rule.interval_seconds now).count))) [
                | inl over ↦ rw over first
                | inr under ↦ rw under rest
              ]

  under_keeps :
      (rules : Option (List RuntimeRule)) (ws : Windows)
      → AllOf Q rules
      → P ws
      → P (acquire_under acquire_in_memory rules e account_id path now ws).1
  under_keeps none ws fine held = held
  under_keeps (some rules) ws fine held = rules_keep rules ws fine held

  pub order_keeps :
      (ws : Windows)
      → AllOf Q (testnet_order_rules e)
      → P ws
      → P (acquire_testnet_order acquire_in_memory e account_id path now ws).1
  unfolding acquire_testnet_order
  order_keeps ws fine held = under_keeps (testnet_order_rules e) ws fine held

-- The window of the safety rule is kept by every order until its second is over.
module _ (k : Key) (t : ℕ) (of_safety : k.rule ≡ safety_name) where
  pub Fine-key :
      (rule : RuntimeRule) (e : ExchangeName) (account_id path : Text)
      → Fine rule
      → (key_eq (rate_limit_key rule e account_id path) k ≡ false) ⊎ (rule.interval_seconds ≡ 1)
  unfolding key_eq rate_limit_key
  Fine-key rule e account_id path (inl other) = inl (ground (arith, of_safety, other))
  Fine-key rule e account_id path (inr second) = inr second

  pub rules-Held :
      (rules : List RuntimeRule) (c : Call) (ws : Windows)
      → All Fine rules
      → c.now < t + ticks 1
      → Held k t ws
      → Held k t (acquire_rules acquire_in_memory rules c.exchange c.account_id c.path c.now ws).1
  rules-Held rules c ws fine early held =
      rules_keep (Held k t) Fine c.exchange c.account_id c.path c.now
        (λ rule ws fine h.
          acquire-Held k (rate_limit_key rule c.exchange c.account_id c.path) t rule.limit
            rule.interval_seconds c.now ws (Fine-key rule c.exchange c.account_id c.path fine) early
            h)
        rules ws fine held

  under-Held :
      (rules : Option (List RuntimeRule)) (c : Call) (ws : Windows)
      → AllOf Fine rules
      → c.now < t + ticks 1
      → Held k t ws
      → Held k t (acquire_under acquire_in_memory rules c.exchange c.account_id c.path c.now ws).1
  under-Held none c ws fine early held = held
  under-Held (some rules) c ws fine early held = rules-Held rules c ws fine early held

  order-Held :
      (c : Call) (ws : Windows) → c.now < t + ticks 1 → Held k t ws → Held k t (order c ws).1
  unfolding order
  order-Held c ws early held =
      under-Held (testnet_order_rules c.exchange) c ws (rules-Fine c.exchange) early held

  pub orders-Held :
      (cs : List Call) (ws : Windows)
      → All (λ c. c.now < t + ticks 1) cs
      → Held k t ws
      → Held k t (orders cs ws)
  unfolding orders
  orders-Held [] ws early held = held
  orders-Held (c ∷ cs) ws early held =
      orders-Held cs (order c ws).1 early.1 (order-Held c ws early.0 held)
