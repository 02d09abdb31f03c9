-- ===== src/RateLimit/Windows.antt =====
-- The windows of the store in memory: look-up after an update, and what one acquisition keeps.
use crypto_copy_trading_plat.Prelude.{
  ℕ, suc, ◌+◌, ◌≤◌, ◌<◌, ◌≡◌, ◌⊎◌, inl, inr, refl, ap, ◌∙◌, true, false, some, [], ◌∷◌, Bool-cases,
  arith, if◌then◌else◌,
}
use crypto_copy_trading_plat.Prelude.Text.{text_eq, text_eq_iff, text_eq_refl}
use crypto_copy_trading_plat.Domain.{ExchangeName, exchange_eq}
use crypto_copy_trading_plat.RateLimit.{
  Key, key_eq, ticks, WindowState, Windows, get_window, put_window, active_window,
  acquire_in_memory,
}

exchange_eq_sound : (a b : ExchangeName) → exchange_eq a b ≡ true → a ≡ b
exchange_eq_sound a b h = ground arith

exchange_eq_refl : (a : ExchangeName) → exchange_eq a a ≡ true
exchange_eq_refl a = ground arith

pub key_eq_refl : (k : Key) → key_eq k k ≡ true
unfolding key_eq
key_eq_refl k = rw (exchange_eq_refl k.exchange, text_eq_refl k.rule, text_eq_refl k.subject) refl

pub key_eq_sound : (j k : Key) → key_eq j k ≡ true → j ≡ k
unfolding key_eq
key_eq_sound j k h =
    let exchanges : exchange_eq j.exchange k.exchange ≡ true = ground arith in
    let rules : text_eq j.rule k.rule ≡ true = ground arith in
    let subjects : text_eq j.subject k.subject ≡ true = ground arith in
    cc (
      exchange_eq_sound j.exchange k.exchange exchanges,
      (text_eq_iff j.rule k.rule).0 rules,
      (text_eq_iff j.subject k.subject).0 subjects,
    )

pub get_put_window :
    (k : Key) (w : WindowState) (ws : Windows) → get_window k (put_window k w ws) ≡ some w
unfolding get_window put_window
get_put_window k w [] = rw (key_eq_refl k) refl
get_put_window k w ((j, v) ∷ ws) = elim (Bool-cases (key_eq j k)) [
  | inl same ↦ rw same (rw same refl)
  | inr other ↦ rw (other, other) (get_put_window k w ws)
]

pub get_put_other :
    (j k : Key) (w : WindowState) (ws : Windows)
    → key_eq j k ≡ false
    → get_window k (put_window j w ws) ≡ get_window k ws
unfolding get_window put_window
get_put_other j k w [] h = rw h refl
get_put_other j k w ((i, v) ∷ ws) h = elim (Bool-cases (key_eq i j)) [
  | inl same ↦
      let missed : key_eq i k ≡ false = rw (key_eq_sound i j same) h in rw same (rw missed refl)
  | inr other ↦ rw other (ap (λ x. if key_eq i k then some v else x) (get_put_other j k w ws h))
]

-- The window under the key `k` began at `t` and has counted an acquisition.
pub record Held (k : Key) (t : ℕ) (ws : Windows) : Type 0 where
  pub window : WindowState
  pub found : get_window k ws ≡ some window
  pub since : window.started_at ≡ t
  pub counted : 1 ≤ window.count

-- The state of the store after one acquisition, without its answer.
abbrev pub after : Key → ℕ → ℕ → ℕ → Windows → Windows
after k limit interval now ws = (acquire_in_memory k limit interval now ws).1

pub active_window_kept :
    (w : WindowState) (interval now : ℕ)
    → now < w.started_at + ticks interval
    → active_window (some w) interval now ≡ w
unfolding active_window
active_window_kept w interval now h = ground arith

-- Until its second is over, a window of one second is kept by every acquisition, be it under its
-- own key or under another.
pub acquire-Held :
    (k j : Key) (t limit interval now : ℕ) (ws : Windows)
    → (key_eq j k ≡ false) ⊎ (interval ≡ 1)
    → now < t + ticks 1
    → Held k t ws
    → Held k t (after j limit interval now ws)
unfolding acquire_in_memory
acquire-Held k j t limit interval now ws fine early held =
    let update = record (active_window (get_window j ws) interval now) {
      count = suc (active_window (get_window j ws) interval now).count;
    } in
    elim (Bool-cases (key_eq j k)) [
      | inl same ↦
          let one_second : (key_eq j k ≡ false) ⊎ (interval ≡ 1)
              → now < held.window.started_at + ticks interval =
            λ f. ground (arith, same, held.since, early, f) in
          let stays : active_window (get_window k ws) interval now ≡ held.window =
            rw held.found (active_window_kept held.window interval now (one_second fine)) in
          record {
            window = record held.window { count = suc held.window.count };
            found = rw (key_eq_sound j k same, get_put_window, stays) refl;
            since = held.since;
            counted = omega arith;
          }
      | inr other ↦ record {
        window = held.window;
        found = get_put_other j k update ws other ∙ held.found;
        since = held.since;
        counted = held.counted;
      }
    ]
