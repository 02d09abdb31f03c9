-- ===== src/RateLimit/Safety.antt =====
-- One order per account, path and second: what the safety rule guarantees.
use crypto_copy_trading_plat.Prelude.{
  ℕ, suc, ◌+◌, ◌≤◌, ◌<◌, ◌≡◌, ◌⊎◌, inl, inr, refl, true, Option, none, some, List, [], ◌∷◌, All,
  Bool-cases, Option-cases, arith, ltb,
}
use crypto_copy_trading_plat.Prelude.Exec.{ok, err}
use crypto_copy_trading_plat.Prelude.Text.{text_in, text_eq}
use crypto_copy_trading_plat.Domain.{ExchangeName, binance, okx, bybit, mock}
use crypto_copy_trading_plat.RateLimit.{
  RuntimeRule, safety_name, safety_rule, testnet_order_rules, Key, key_eq, ticks, exceeded,
  acquire_rules, acquire_testnet_order, WindowState, Windows, get_window, put_window, active_window,
  acquire_in_memory,
}
use crypto_copy_trading_plat.RateLimit.Windows.{Held, after, active_window_kept, get_put_window}
use crypto_copy_trading_plat.RateLimit.Rules.{
  Fine, AllOf, order_keeps, Call, order, orders, safety_key, rules-Held, orders-Held,
}

-- Every window of the store has counted an acquisition.
abbrev pub IsCounted : Windows → Type 0
IsCounted ws = All (λ entry. 1 ≤ entry.1.count) ws

get-IsCounted :
    (k : Key) (ws : Windows) (w : WindowState)
    → IsCounted ws
    → get_window k ws ≡ some w
    → 1 ≤ w.count
unfolding get_window
get-IsCounted k [] w all h = cc h
get-IsCounted k ((j, v) ∷ ws) w all h = elim (Bool-cases (key_eq j k)) [
  | inl same ↦ let is_it : some v ≡ some w = rw same at h in ground (arith, all.0)
  | inr other ↦ get-IsCounted k ws w all.1 (rw other at h)
]

put-IsCounted :
    (k : Key) (w : WindowState) (ws : Windows)
    → 1 ≤ w.count
    → IsCounted ws
    → IsCounted (put_window k w ws)
unfolding put_window
put-IsCounted k w [] h all = (h, tt)
put-IsCounted k w ((j, v) ∷ ws) h all = elim (Bool-cases (key_eq j k)) [
  | inl same ↦ rw same (h, all.1)
  | inr other ↦ rw other (all.0, put-IsCounted k w ws h all.1)
]

no_condition : (rules : List RuntimeRule) → All (λ r. Unit {0}) rules
no_condition [] = tt
no_condition (r ∷ rs) = (tt, no_condition rs)

no_conditions : (rules : Option (List RuntimeRule)) → AllOf (λ r. Unit {0}) rules
no_conditions none = tt
no_conditions (some rules) = no_condition rules

order-IsCounted : (c : Call) (ws : Windows) → IsCounted ws → IsCounted (order c ws).1
unfolding order acquire_in_memory
order-IsCounted c ws all =
    order_keeps IsCounted (λ r. Unit) c.exchange c.account_id c.path c.now
      (λ rule ws f h. put-IsCounted _ _ ws (omega arith) h) ws
      (no_conditions (testnet_order_rules c.exchange)) all

orders-IsCounted : (cs : List Call) (ws : Windows) → IsCounted ws → IsCounted (orders cs ws)
unfolding orders
orders-IsCounted [] ws all = all
orders-IsCounted (c ∷ cs) ws all = orders-IsCounted cs (order c ws).1 (order-IsCounted c ws all)

-- A window that has counted nothing yet starts now.
starts_now :
    (k : Key) (ws : Windows) (interval now : ℕ)
    → IsCounted ws
    → (active_window (get_window k ws) interval now).count < 1
    → (active_window (get_window k ws) interval now).started_at ≡ now
unfolding active_window
starts_now k ws interval now all h = elim (Option-cases (get_window k ws)) [
  | inl new ↦ rw new refl
  | inr (w, kept) ↦
      let counted : 1 ≤ w.count = get-IsCounted k ws w all kept in
      rw kept (ground (arith, rw kept at h, counted))
]

module _ (c : Call) (rest : List RuntimeRule) (ws : Windows) where
  -- An order that is let through has opened the window of its safety rule.
  passed-Held :
      All Fine rest
      → IsCounted ws
      → (acquire_rules acquire_in_memory
          (safety_rule ∷ rest)
          c.exchange
          c.account_id
          c.path
          c.now
          ws).0
        ≡ ok tt
      → Held
          (safety_key c)
          c.now
          (acquire_rules acquire_in_memory
            (safety_rule ∷ rest)
            c.exchange
            c.account_id
            c.path
            c.now
            ws).1
  unfolding acquire_rules acquire_in_memory
  passed-Held fine all passed =
      let w = active_window (get_window (safety_key c) ws) 1 c.now in
      elim (Bool-cases (ltb 1 (suc w.count))) [
        | inl over ↦ cc (rw over at passed)
        | inr under ↦ rw under (
            rules-Held (safety_key c) c.now refl rest c (after (safety_key c) 1 1 c.now ws) fine
              (omega arith)
              (record {
                window = record w { count = suc w.count };
                found = get_put_window (safety_key c) (record w { count = suc w.count }) ws;
                since = starts_now (safety_key c) ws 1 c.now all (ground (arith, under));
                counted = omega arith;
              }))
      ]

  -- While that window is held, the account's next order on the path is refused.
  Held-refused :
      (t : ℕ)
      → c.now < t + ticks 1
      → Held (safety_key c) t ws
      → (acquire_rules acquire_in_memory
          (safety_rule ∷ rest)
          c.exchange
          c.account_id
          c.path
          c.now
          ws).0
        ≡ err (exceeded safety_name 1)
  unfolding acquire_rules acquire_in_memory
  Held-refused t early held =
      let stays : active_window (get_window (safety_key c) ws) 1 c.now ≡ held.window =
        rw held.found (active_window_kept held.window 1 c.now (omega (arith, held.since, early))) in
      let full : ltb 1 (suc held.window.count) ≡ true = ground (arith, held.counted) in
      rw (stays, full) (ground arith)

has_safety :
    (e : ExchangeName)
    → (testnet_order_rules e ≡ none)
      ⊎ ((rest : List RuntimeRule) × (testnet_order_rules e ≡ some (safety_rule ∷ rest))
          × All Fine rest)
unfolding testnet_order_rules text_in text_eq
has_safety binance = inr (_, refl, (inl refl, tt))
has_safety okx = inr (_, refl, tt)
has_safety bybit = inr (_, refl, (inl refl, tt))
has_safety mock = inl refl

-- From an empty store, and whatever orders came before: after an order was let through, a later
-- order of the same account on the same path is refused while the clock reads less than a second
-- more, whatever orders came between in that second. The refusal is by the safety rule, with the
-- advice to wait one second.
pub safety_limit :
    (before between : List Call) (c : Call) (at : ℕ)
    → All (λ b. b.now < c.now + ticks 1) between
    → at < c.now + ticks 1
    → (order c (orders before [])).0 ≡ ok tt
    → (order (record c { now = at }) (orders between (order c (orders before [])).1)).0
      ≡ err (exceeded safety_name 1)
unfolding order acquire_testnet_order
safety_limit before between c at in_second early passed = elim (has_safety c.exchange) [
  | inl missing ↦ cc (rw missing at passed)
  | inr (rest, known, fine) ↦
      let held =
        passed-Held c rest (orders before []) fine (orders-IsCounted before [] tt)
          (rw known at passed) in
      rw known (
        Held-refused (record c { now = at }) rest
          (orders between
            (acquire_rules acquire_in_memory (safety_rule ∷ rest) c.exchange c.account_id c.path
              c.now (orders before [])).1)
          c.now early (orders-Held (safety_key c) c.now refl between _ in_second held))
]
