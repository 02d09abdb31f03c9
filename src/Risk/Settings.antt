-- ===== src/Risk/Settings.antt =====
-- What updates of the risk settings keep, and what the settings that are made by default allow.
use crypto_copy_trading_plat.Prelude.{
  ℕ, ◌≡◌, ◌↔◌, refl, Bool, true, false, ◌||◌, not, none, List, [], ◌∷◌, map, arith, Option-cases,
  inl, inr,
}
use crypto_copy_trading_plat.Prelude.Text.{Text, text_eq, text_in, upper, text_eq_iff, text_eq_refl}
use crypto_copy_trading_plat.Domain.{RiskDecision, RiskSetting, ExchangeAccount}
use crypto_copy_trading_plat.Database.{Database, find_risk_settings}
use crypto_copy_trading_plat.Database.Rows.{find?-append_none}
use crypto_copy_trading_plat.Risk.{
  RiskOrderInput, check_order_risk, text_lt, insert_symbol, normalize_symbols, RiskUpdate,
  set_trading_enabled, set_max_single_order_notional, set_min_order_quantity,
  set_max_order_quantity, set_blocked_symbols, set_field, set_fields, turns_off,
  update_risk_settings, default_risk_setting, get_or_create_risk_settings,
}

pub text_in-insert_symbol :
    (x s : Text) (l : List Text) → text_in x (insert_symbol s l) ≡ (text_eq x s || text_in x l)
unfolding insert_symbol text_in
text_in-insert_symbol x s [] = refl
text_in-insert_symbol x s (t ∷ l) = ground (arith, text_in-insert_symbol x s l, text_eq_iff s t)

-- A symbol is in the stored list exactly when it is the upper-case form of a given one.
text_in-normalize_symbols :
    (x : Text) (l : List Text) → text_in x (normalize_symbols l) ≡ text_in x (map upper l)
unfolding normalize_symbols text_in
text_in-normalize_symbols x [] = refl
text_in-normalize_symbols x (s ∷ l) =
    ground (
      arith,
      text_in-insert_symbol x (upper s) (normalize_symbols l),
      text_in-normalize_symbols x l,
    )

-- `s` stands before all of a sorted list.
abbrev pub Below : Text → List Text → Type 0
Below s [] = Unit
Below s (t ∷ l) = text_lt s t ≡ true

abbrev pub IsSorted : List Text → Type 0
IsSorted [] = Unit
IsSorted (s ∷ l) = Below s l × IsSorted l

text_lt_total : (s t : Text) → text_eq s t ≡ false → text_lt s t ≡ false → text_lt t s ≡ true
unfolding text_eq text_lt
text_lt_total [] [] e h = ground arith
text_lt_total [] (b ∷ t) e h = ground arith
text_lt_total (a ∷ s) [] e h = refl
text_lt_total (a ∷ s) (b ∷ t) e h = ground (arith, text_lt_total s t)

Below-insert_symbol :
    (t s : Text) (l : List Text) → text_lt t s ≡ true → Below t l → Below t (insert_symbol s l)
unfolding insert_symbol
Below-insert_symbol t s [] before below = before
Below-insert_symbol t s (u ∷ l) before below = ground arith

insert_symbol-IsSorted : (s : Text) (l : List Text) → IsSorted l → IsSorted (insert_symbol s l)
unfolding insert_symbol
insert_symbol-IsSorted s [] h = (tt, tt)
insert_symbol-IsSorted s (t ∷ l) h =
    ground (arith, text_lt_total s t, Below-insert_symbol t s l, insert_symbol-IsSorted s l h.1)

-- The stored list of blocked symbols is strictly ascending, so it holds no symbol twice.
normalize_symbols-IsSorted : (l : List Text) → IsSorted (normalize_symbols l)
unfolding normalize_symbols
normalize_symbols-IsSorted [] = tt
normalize_symbols-IsSorted (s ∷ l) =
    insert_symbol-IsSorted (upper s) (normalize_symbols l) (normalize_symbols-IsSorted l)

text_in-map-upper :
    (x : Text) (l : List Text) → text_in x l ≡ true → text_in (upper x) (map upper l) ≡ true
unfolding text_in
text_in-map-upper x [] h = h
text_in-map-upper x (s ∷ l) h = ground (
  arith,
  text_in-map-upper x l,
  text_eq_iff x s,
  text_eq_iff (upper x) (upper s),
  text_eq_refl (upper x),
)

blocked_rejected :
    (account : ExchangeAccount) (s : RiskSetting) (order : RiskOrderInput) (allow : Bool)
    → text_in order.symbol s.blocked_symbols ≡ true
    → (check_order_risk account s order allow).decision ≡ RiskDecision.rejected
unfolding check_order_risk
blocked_rejected account s order allow h = ground arith

-- Once a list of blocked symbols that holds `x`, in any case of its letters, is stored, every order
-- for the upper-case form of `x` is rejected, whatever else the account and its settings permit.
update-blocked_rejected :
    (account : ExchangeAccount) (s : RiskSetting) (order : RiskOrderInput) (allow : Bool) (x : Text)
    (l : List Text)
    → text_in x l ≡ true
    → order.symbol ≡ upper x
    → (check_order_risk account
        (update_risk_settings s (set_blocked_symbols l ∷ [])).0
        order
        allow).decision
      ≡ RiskDecision.rejected
unfolding update_risk_settings
update-blocked_rejected account s order allow x l listed same =
    blocked_rejected account (set_field (set_blocked_symbols l) s) order allow
      (rw (same, text_in-normalize_symbols (upper x) l) (text_in-map-upper x l listed))

-- No entry changes the trading flag.
abbrev pub KeepsTrading : List RiskUpdate → Type 0
KeepsTrading [] = Unit
KeepsTrading (set_trading_enabled b ∷ us) = ⊥
KeepsTrading (u ∷ us) = KeepsTrading us

-- At most one entry changes the trading flag, as the keys of a dictionary are distinct.
abbrev pub HasDistinctKeys : List RiskUpdate → Type 0
HasDistinctKeys [] = Unit
HasDistinctKeys (set_trading_enabled b ∷ us) = KeepsTrading us
HasDistinctKeys (u ∷ us) = HasDistinctKeys us

set_fields-trading :
    (us : List RiskUpdate) (s : RiskSetting)
    → KeepsTrading us
    → (set_fields us s).trading_enabled ≡ s.trading_enabled
unfolding set_fields
set_fields-trading [] s k = refl
set_fields-trading (set_trading_enabled b ∷ us) s k = absurd k
set_fields-trading (set_max_single_order_notional d ∷ us) s k = set_fields-trading us _ k
set_fields-trading (set_min_order_quantity d ∷ us) s k = set_fields-trading us _ k
set_fields-trading (set_max_order_quantity d ∷ us) s k = set_fields-trading us _ k
set_fields-trading (set_blocked_symbols d ∷ us) s k = set_fields-trading us _ k

turns_off_iff :
    (us : List RiskUpdate) (s : RiskSetting)
    → HasDistinctKeys us
    → s.trading_enabled ≡ true
    → turns_off us ≡ not (set_fields us s).trading_enabled
unfolding set_fields turns_off
turns_off_iff [] s k on = rw on refl
turns_off_iff (set_trading_enabled b ∷ us) s k on =
    rw (set_fields-trading us (set_field (set_trading_enabled b) s) k) refl
turns_off_iff (set_max_single_order_notional d ∷ us) s k on = turns_off_iff us _ k on
turns_off_iff (set_min_order_quantity d ∷ us) s k on = turns_off_iff us _ k on
turns_off_iff (set_max_order_quantity d ∷ us) s k on = turns_off_iff us _ k on
turns_off_iff (set_blocked_symbols d ∷ us) s k on = turns_off_iff us _ k on

-- The emergency-stop alert of an update is sent exactly when trading was enabled before the update
-- and is disabled after it, for changes with distinct keys.
update_risk_settings-alert :
    (us : List RiskUpdate) (s : RiskSetting)
    → HasDistinctKeys us
    → let (s', alert) = update_risk_settings s us in
      (alert ≡ true) ↔ ((s.trading_enabled ≡ true) × (s'.trading_enabled ≡ false))
unfolding update_risk_settings
update_risk_settings-alert us s k =
    (λ h. ground (arith, turns_off_iff us s k), λ h. ground (arith, turns_off_iff us s k h.0))

-- The settings of an account are made at most once: a second call finds what the first returned,
-- and changes nothing.
get_or_create_risk_settings_again :
    (id id' user account : ℕ) (db : Database)
    → let (s, db') = get_or_create_risk_settings id user account db in
      get_or_create_risk_settings id' user account db' ≡ (s, db')
unfolding get_or_create_risk_settings
get_or_create_risk_settings_again id id' user account db =
    elim (Option-cases (find_risk_settings user account db)) [
      | inl missing ↦
          rw
            (
              missing,
              find?-append_none _ db.settings (default_risk_setting id user account) missing
                  (ground arith),
            )
            refl
      | inr (s, found) ↦ rw (found, found) refl
    ]

-- An account without settings gets settings under which every order is rejected.
get_or_create_risk_settings-rejected :
    (id user account : ℕ) (db : Database) (a : ExchangeAccount) (order : RiskOrderInput)
    (allow : Bool)
    → find_risk_settings user account db ≡ none
    → (check_order_risk a (get_or_create_risk_settings id user account db).0 order allow).decision
      ≡ RiskDecision.rejected
unfolding get_or_create_risk_settings check_order_risk
get_or_create_risk_settings-rejected id user account db a order allow missing =
    rw missing (ground arith)
