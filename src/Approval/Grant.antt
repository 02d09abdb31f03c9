-- ===== src/Approval/Grant.antt =====
-- What the recording of an approval leaves, and which orders it then authorizes.
use crypto_copy_trading_plat.Prelude.{
  ℕ, ◌≤◌, ◌≡◌, ◌↔◌, inl, inr, refl, Bool, true, false, Option, some, List, ◌∷◌, ◌++◌, [], All,
  arith, is_empty, Bool-cases, if◌then◌else◌,
}
use crypto_copy_trading_plat.Prelude.Exec.{ok, err}
use crypto_copy_trading_plat.Domain.{ExchangeAccount, RiskSetting}
use crypto_copy_trading_plat.Database.{
  Database, AuditLog, get_api_key_secret_metadata, find_risk_settings,
}
use crypto_copy_trading_plat.Gate.{is_some}
use crypto_copy_trading_plat.Approval.{
  ApprovalRequest, ApprovalReason, approval_blocked_reasons, approval_row, approve_account,
  is_approval, latest, OrderRequest, window_reasons,
  require_valid_testnet_order_window_authorization,
}
use crypto_copy_trading_plat.Approval.Latest.{latest-append}
use crypto_copy_trading_plat.Approval.Window.{
  IsApprovable, unblocked-IsApprovable, IsApprovable-unblocked, IsCovered, authorized-IsCovered,
  IsCovered-authorized,
}

if_ok :
    {E A : Type 0} (b : Bool) (a a' : A) (e : E) → (if b then ok a else err e) ≡ ok a' → b ≡ true
if_ok true a a' e h = refl
if_ok false a a' e h = cc h

-- The latest approval alone decides.
latest_decides :
    (user account : ℕ) (r : OrderRequest) (at : ℕ) (db : Database) (a : AuditLog)
    → latest (is_approval user account) db.audit_logs ≡ some a
    → require_valid_testnet_order_window_authorization user account r at db
      ≡ (if is_empty (window_reasons a r at) then ok a.id else err (window_reasons a r at))
unfolding require_valid_testnet_order_window_authorization
latest_decides user account r at db a found =
    rw (require_valid_testnet_order_window_authorization, found) refl

module _ (id now user : ℕ) (q : ApprovalRequest) (adapters : Bool) (account : ExchangeAccount)
    (db : Database) where
  -- What the account has to fulfil, with its rows in the database.
  abbrev pub Approvable : Type 0
  Approvable =
      IsApprovable q account (find_risk_settings user account.id db)
        (is_some (get_api_key_secret_metadata user account.id db)) adapters

  abbrev risk : Option RiskSetting
  risk = find_risk_settings user account.id db

  abbrev keyed : Bool
  keyed = is_some (get_api_key_secret_metadata user account.id db)

  abbrev reasons : List ApprovalReason
  reasons = approval_blocked_reasons q account risk keyed adapters

  approve-records :
      Approvable
      → approve_account id now user q adapters account db ≡ (
        ok (approval_row id now user q account),
        record db { audit_logs = db.audit_logs ++ approval_row id now user q account ∷ [] },
      )
  unfolding approve_account
  approve-records can = rw (IsApprovable-unblocked q account risk keyed adapters can) refl

  approve-inverts :
      {row : AuditLog} → (approve_account id now user q adapters account db).0 ≡ ok row → Approvable
  unfolding approve_account
  approve-inverts h = elim (Bool-cases (is_empty reasons)) [
    | inl none_found ↦ unblocked-IsApprovable q account risk keyed adapters none_found
    | inr some_found ↦ cc (rw some_found at h)
  ]

  approve-refuses : (Approvable → ⊥) → (approve_account id now user q adapters account db).1 ≡ db
  unfolding approve_account
  approve-refuses not_approvable = elim (Bool-cases (is_empty reasons)) [
    | inl none_found ↦
        absurd (not_approvable (unblocked-IsApprovable q account risk keyed adapters none_found))
    | inr some_found ↦ rw some_found refl
  ]

  -- An approval is recorded exactly where the account fulfils the conditions: then the call adds
  -- the one audit row and changes nothing else, and otherwise it changes nothing.
  approve_decides :
      (Approvable
        → approve_account id now user q adapters account db ≡ (
          ok (approval_row id now user q account),
          record db { audit_logs = db.audit_logs ++ approval_row id now user q account ∷ [] },
        ))
      × ((Approvable → ⊥) → (approve_account id now user q adapters account db).1 ≡ db)
  approve_decides = (approve-records, approve-refuses)

  -- The row just recorded is the latest approval of the account.
  latest_approval :
      All (λ a. a.created_at ≤ now) db.audit_logs
      → latest
          (is_approval user account.id)
          (db.audit_logs ++ approval_row id now user q account ∷ [])
        ≡ some (approval_row id now user q account)
  unfolding approval_row
  latest_approval earlier =
      latest-append (is_approval user account.id) db.audit_logs (approval_row id now user q account)
        earlier (ground arith)

  -- After an approval is recorded, and no row of the account is later, the account's orders are
  -- authorized under it exactly as far as it covers them: the symbol and the side are the
  -- approved ones, quantity and notional value are within the approved ones, the order has a
  -- price, and the approved minutes are not over.
  pub approve_authorizes :
      {row : AuditLog} (r : OrderRequest) (at : ℕ)
      → All (λ a. a.created_at ≤ now) db.audit_logs
      → (approve_account id now user q adapters account db).0 ≡ ok row
      → (require_valid_testnet_order_window_authorization user account.id r at
            (approve_account id now user q adapters account db).1
          ≡ ok id)
        ↔ IsCovered q now r at
  unfolding approval_row
  approve_authorizes r at earlier approved =
      rw
        (
          approve-records (approve-inverts approved),
          latest_decides user account.id r at
              (record db { audit_logs = db.audit_logs ++ approval_row id now user q account ∷ [] })
              (approval_row id now user q account) (latest_approval earlier),
        )
        (
          λ h. authorized-IsCovered id now user q account r at (if_ok _ _ _ _ h),
          λ c. rw (IsCovered-authorized id now user q account r at c) refl,
        )
