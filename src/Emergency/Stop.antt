-- ===== src/Emergency/Stop.antt =====
-- What the emergency stop guarantees.
use crypto_copy_trading_plat.Prelude.{
  ℕ, zero, suc, ◌≤◌, ◌≡◌, ◌⊎◌, inl, inr, refl, Bool, true, false, not, some, [], ◌∷◌, length, All,
  arith,
}
use crypto_copy_trading_plat.Prelude.Text.{Text}
use crypto_copy_trading_plat.Domain.{RiskDecision, ExchangeAccount, RiskSetting}
use crypto_copy_trading_plat.Database.{Database, get_owned_account, find_risk_settings}
use crypto_copy_trading_plat.Database.Rows.{All-map, find?-All}
use crypto_copy_trading_plat.Risk.{RiskOrderInput, check_order_risk}
use crypto_copy_trading_plat.Emergency.{
  take, clean_reason, new_orders_allowed, disable_account, disable_setting, set_emergency_stop,
}

length-take_le : (n : ℕ) (s : Text) → length (take n s) ≤ n
unfolding take
length-take_le zero s = omega arith
length-take_le (suc n) [] = omega arith
length-take_le (suc n) (c ∷ s) = omega (arith, length-take_le n s)

-- The stored reason fits its column of 500 characters.
length-clean_reason : (s : Text) → length (clean_reason s) ≤ 500
unfolding clean_reason
length-clean_reason s = length-take_le 500 _

module _ (actor : ℕ) (reason : Text) (audit_id event_id now : ℕ) (db : Database) where
  -- After a call of the stop, new orders are allowed exactly when it was a call to lift it.
  pub new_orders-set_emergency_stop :
      (enabled : Bool)
      → new_orders_allowed (set_emergency_stop enabled actor reason audit_id event_id now db)
        ≡ not enabled
  unfolding set_emergency_stop new_orders_allowed
  new_orders-set_emergency_stop enabled = refl

  accounts_off :
      All
        (λ a. a.trading_enabled ≡ false)
        (set_emergency_stop true actor reason audit_id event_id now db).accounts
  unfolding set_emergency_stop
  accounts_off = All-map (λ a. a.trading_enabled ≡ false) disable_account db.accounts (λ a. refl)

  settings_off :
      All
        (λ s. s.trading_enabled ≡ false)
        (set_emergency_stop true actor reason audit_id event_id now db).settings
  unfolding set_emergency_stop
  settings_off = All-map (λ s. s.trading_enabled ≡ false) disable_setting db.settings (λ s. refl)

  -- Once the stop is set, the risk check rejects every order of an account that is found, under
  -- whatever settings, and every order under settings that are found, of whatever account; the
  -- permission to trade outside of simulation changes nothing about it.
  pub stop_rejects :
      (user account : ℕ) (a : ExchangeAccount) (s : RiskSetting) (order : RiskOrderInput)
      (allow : Bool)
      → let db' = set_emergency_stop true actor reason audit_id event_id now db in
        (get_owned_account user account db' ≡ some a)
          ⊎ (find_risk_settings user account db' ≡ some s)
        → (check_order_risk a s order allow).decision ≡ RiskDecision.rejected
  unfolding get_owned_account find_risk_settings check_order_risk
  stop_rejects user account a s order allow (inl found) =
      let off = find?-All (λ x. x.trading_enabled ≡ false) _ _ a accounts_off found in ground arith
  stop_rejects user account a s order allow (inr found) =
      let off = find?-All (λ x. x.trading_enabled ≡ false) _ _ s settings_off found in ground arith

  -- Lifting the stop turns no trading flag back on: accounts and settings are as they were.
  pub lift_keeps_flags :
      let db' = set_emergency_stop false actor reason audit_id event_id now db in
      (db'.accounts ≡ db.accounts) × (db'.settings ≡ db.settings)
  unfolding set_emergency_stop
  lift_keeps_flags = (refl, refl)
