-- ===== src/Approval/Window.antt =====
-- When an approval is recorded, and which orders a recorded approval authorizes.
use crypto_copy_trading_plat.Prelude.{
  ℕ, ◌+◌, ◌*◌, ◌≤◌, ◌≡◌, ◌≢◌, ◌↔◌, Bool, true, false, Option, some, arith, Option-cases, inl, inr,
  is_empty,
}
use crypto_copy_trading_plat.Prelude.Int.{◌≤ℤ◌, ◌*ℤ◌}
use crypto_copy_trading_plat.Prelude.Text.{text_eq, text_eq_iff, upper, strip}
use crypto_copy_trading_plat.Decimal.{Decimal, product, product_exceeds, one}
use crypto_copy_trading_plat.Domain.{ExchangeAccount, RiskSetting, mock, testnet}
use crypto_copy_trading_plat.Gate.{is_some, risk_trading, has_testnet_endpoint}
use crypto_copy_trading_plat.Approval.{
  is_admin, approval_ack, ApprovalRequest, approval_blocked_reasons, approval_row, OrderRequest,
  window_reasons,
}

-- What an approval needs.
pub record IsApprovable (r : ApprovalRequest) (account : ExchangeAccount)
    (risk : Option RiskSetting) (keyed adapters : Bool) : Type 0 where
  pub by_admin : is_admin r.user_role ≡ true
  pub routed : account.exchange_name ≢ mock
  pub active : account.is_active ≡ true
  pub mode : account.account_mode ≡ testnet
  pub adapters_off : adapters ≡ false
  pub account_off : account.trading_enabled ≡ false
  pub has_settings : is_some risk ≡ true
  pub settings_off : risk_trading risk ≡ false
  pub has_key : keyed ≡ true
  pub least : 1 ≤ r.duration_minutes
  pub most : r.duration_minutes ≤ 10
  pub acknowledged : r.acknowledgement ≡ approval_ack

acknowledged_iff :
    (r : ApprovalRequest)
    → (text_eq r.acknowledgement approval_ack ≡ true) ↔ (r.acknowledgement ≡ approval_ack)
acknowledged_iff r = text_eq_iff r.acknowledgement approval_ack

module _ (r : ApprovalRequest) (account : ExchangeAccount) (risk : Option RiskSetting)
    (keyed adapters : Bool) where
  pub unblocked-IsApprovable :
      is_empty (approval_blocked_reasons r account risk keyed adapters) ≡ true
      → IsApprovable r account risk keyed adapters
  unfolding approval_blocked_reasons has_testnet_endpoint
  unblocked-IsApprovable h =
      let ack : text_eq r.acknowledgement approval_ack ≡ true = ground arith in
      record {
        by_admin = ground arith;
        routed = ground arith;
        active = ground arith;
        mode = ground arith;
        adapters_off = ground arith;
        account_off = ground arith;
        has_settings = ground arith;
        settings_off = ground arith;
        has_key = ground arith;
        least = ground arith;
        most = ground arith;
        acknowledged = (acknowledged_iff r).0 ack;
      }

  pub IsApprovable-unblocked :
      IsApprovable r account risk keyed adapters
      → is_empty (approval_blocked_reasons r account risk keyed adapters) ≡ true
  unfolding approval_blocked_reasons has_testnet_endpoint
  IsApprovable-unblocked p =
      let ack : text_eq r.acknowledgement approval_ack ≡ true =
        (acknowledged_iff r).1 p.acknowledged in
      rw (p.by_admin, p.active, p.adapters_off, p.account_off, p.has_key, ack)
        (ground (arith, p.routed, p.mode, p.has_settings, p.settings_off, p.least, p.most))

-- An order that an approval covers.
pub record IsCovered (q : ApprovalRequest) (approved_at : ℕ) (r : OrderRequest) (now : ℕ)
    : Type 0 where
  pub price : Decimal
  pub priced : r.price ≡ some price
  pub symbol : upper (strip q.symbol) ≡ upper (strip r.symbol)
  pub side : q.side ≡ r.side
  pub quantity : r.quantity ≤ℤ q.max_quantity
  pub notional : product r.quantity price ≤ℤ q.max_notional *ℤ one
  pub least : 1 ≤ q.duration_minutes
  pub most : q.duration_minutes ≤ 10
  pub in_time : now ≤ approved_at + q.duration_minutes * 60

module _ (id at user : ℕ) (q : ApprovalRequest) (account : ExchangeAccount) (r : OrderRequest)
    (now : ℕ) where
  pub authorized-IsCovered :
      is_empty (window_reasons (approval_row id at user q account) r now) ≡ true
      → IsCovered q at r now
  unfolding window_reasons approval_row product_exceeds
  authorized-IsCovered h =
      let symbols : text_eq (upper (strip q.symbol)) (upper (strip r.symbol)) ≡ true =
        ground arith in
      elim (Option-cases r.price) [
        | inl e ↦ ground arith
        | inr (price, e) ↦ record {
          price = price;
          priced = e;
          symbol = (text_eq_iff (upper (strip q.symbol)) (upper (strip r.symbol))).0 symbols;
          side = ground arith;
          quantity = ground arith;
          notional = ground arith;
          least = ground arith;
          most = ground arith;
          in_time = ground arith;
        }
      ]

  pub IsCovered-authorized :
      IsCovered q at r now
      → is_empty (window_reasons (approval_row id at user q account) r now) ≡ true
  unfolding window_reasons approval_row product_exceeds
  IsCovered-authorized c =
      let symbols : text_eq (upper (strip q.symbol)) (upper (strip r.symbol)) ≡ true =
        (text_eq_iff (upper (strip q.symbol)) (upper (strip r.symbol))).1 c.symbol in
      rw (c.priced, symbols)
        (ground (arith, c.side, c.quantity, c.notional, c.least, c.most, c.in_time))
