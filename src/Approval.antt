-- ===== src/Approval.antt =====
-- backend/app/services/testnet_order_window_approval.py: an administrator's approval of a bounded
-- order window, kept as an audit row, and the test of an order against the latest such row.
pub mod Latest
pub mod Window
pub mod Grant
mod Tests
use Prim.Native.String.{String}
use text.Mathlib.Text.{◌==◌ as str_eq}
use crypto_copy_trading_plat.Prelude.{
  ℕ, ◌+◌, ◌*◌, Bool, true, false, not, ◌&&◌, ◌||◌, Option, none, some, List, [], ◌∷◌, ◌++◌, when,
  is_empty, ltb, leb, ◌==◌, if◌then◌else◌,
}
use crypto_copy_trading_plat.Prelude.Int.{pos, ltb_ℤ}
use crypto_copy_trading_plat.Prelude.Text.{Text, text_eq, upper, strip, codes}
use crypto_copy_trading_plat.Prelude.Exec.{Exec, Result, ok, err}
use crypto_copy_trading_plat.Decimal.{Decimal, product_exceeds}
use crypto_copy_trading_plat.Domain.{
  OrderSide, side_eq, AccountMode, testnet, mode_eq, ExchangeAccount, RiskSetting,
}
use crypto_copy_trading_plat.Database.{
  Database, AuditLog, Payload, PayloadValue, number, count, word, flag, side, exchange, mode,
  warning, window_approval_recorded, action_eq, get_owned_account, get_api_key_secret_metadata,
  find_risk_settings,
}
use crypto_copy_trading_plat.Gate.{has_testnet_endpoint, is_some, risk_trading}

pub data UserRole : Type 0 where
  super_admin admin normal_user team_admin : UserRole

-- `user_role in {UserRole.SUPER_ADMIN, UserRole.ADMIN}`
abbrev pub is_admin : UserRole → Bool
is_admin super_admin = true
is_admin admin = true
is_admin _ = false

-- `TESTNET_ORDER_WINDOW_APPROVAL_ACK`
abbrev pub approval_ack : Text
approval_ack = codes "APPROVE_TESTNET_ORDER_WINDOW_ONLY"

-- The messages of `_approval_blocked_reasons`.
pub data ApprovalReason : Type 0 where
  not_admin no_routing inactive not_testnet adapters_on account_on : ApprovalReason
  no_settings settings_on no_api_key bad_duration no_acknowledgement : ApprovalReason

-- What the caller of the approval asks for.
pub record ApprovalRequest : Type 0 where
  pub user_role : UserRole
  pub symbol : Text
  pub side : OrderSide
  pub max_quantity : Decimal
  pub max_notional : Decimal
  pub duration_minutes : ℕ
  pub acknowledgement : Text

-- `duration_minutes < 1 or duration_minutes > 10`
abbrev pub bad_minutes : ℕ → Bool
bad_minutes n = ltb n 1 || ltb 10 n

risk_reasons_before : Option RiskSetting → List ApprovalReason
risk_reasons_before none = no_settings ∷ []
risk_reasons_before (some s) = when s.trading_enabled settings_on

unfoldable pub approval_blocked_reasons :
    ApprovalRequest → ExchangeAccount → Option RiskSetting → Bool → Bool → List ApprovalReason
unfolding risk_reasons_before
approval_blocked_reasons r account risk keyed adapters =
    when (not (is_admin r.user_role)) not_admin
    ++ (when (not (has_testnet_endpoint account.exchange_name)) no_routing
        ++ (when (not account.is_active) inactive
            ++ (when (not (mode_eq account.account_mode testnet)) not_testnet
                ++ (when adapters adapters_on
                    ++ (when account.trading_enabled account_on
                        ++ (risk_reasons_before risk
                            ++ (when (not keyed) no_api_key
                                ++ (when (bad_minutes r.duration_minutes) bad_duration
                                    ++ when (not (text_eq r.acknowledgement approval_ack))
                                        no_acknowledgement))))))))

pub data ApprovalError : Type 0 where
  account_not_found : ApprovalError
  blocked : List ApprovalReason → ApprovalError

-- The audit row of an approval.
unfoldable pub approval_row : ℕ → ℕ → ℕ → ApprovalRequest → ExchangeAccount → AuditLog
approval_row id now user r account = record {
  id = id;
  user_id = user;
  exchange_account_id = some account.id;
  action = window_approval_recorded;
  severity = warning;
  payload =
      ("exchange_name", exchange account.exchange_name)
      ∷ ("account_mode", mode account.account_mode)
      ∷ ("symbol", word r.symbol)
      ∷ ("side", side r.side)
      ∷ ("max_quantity", number r.max_quantity)
      ∷ ("max_notional", number r.max_notional)
      ∷ ("duration_minutes", count r.duration_minutes)
      ∷ ("acknowledgement", word r.acknowledgement)
      ∷ ("order_submission_authorized", flag false)
      ∷ ("trading_flags_changed", flag false)
      ∷ [];
  created_at = now;
}

-- The part behind the look-up of the account. The answer repeats the request; the row is kept.
unfoldable pub approve_account :
    ℕ → ℕ → ℕ → ApprovalRequest → Bool → ExchangeAccount → Exec Database ApprovalError AuditLog
unfolding approval_blocked_reasons approval_row
approve_account id now user r adapters account db =
    let reasons =
      approval_blocked_reasons r account (find_risk_settings user account.id db)
        (is_some (get_api_key_secret_metadata user account.id db)) adapters in
    let row = approval_row id now user r account in
    if is_empty reasons
    then (ok row, record db { audit_logs = db.audit_logs ++ row ∷ [] })
    else (err (blocked reasons), db)

-- `id` is what `new_uuid` returns, `now` the time of the database.
unfoldable pub record_testnet_order_window_approval :
    ℕ → ℕ → ℕ → ℕ → ApprovalRequest → Bool → Exec Database ApprovalError AuditLog
unfolding approve_account
record_testnet_order_window_approval id now user account_id r adapters db =
    elim (get_owned_account user account_id db) [
      | none ↦ (err account_not_found, db)
      | some account ↦ approve_account id now user r adapters account db
    ]

-- The query for the approvals of an account.
abbrev pub is_approval : ℕ → ℕ → AuditLog → Bool
is_approval user account a =
    a.user_id == user
    && (elim a.exchange_account_id [ none ↦ false | some i ↦ i == account ]
        && action_eq a.action window_approval_recorded)

-- Of two rows the later one. The query does not say which of two rows with one time comes first;
-- here it is the one that was inserted later.
unfoldable pub later : AuditLog → Option AuditLog → Option AuditLog
later a none = some a
later a (some b) = if leb a.created_at b.created_at then some b else some a

-- `order_by(AuditLog.created_at.desc())`, first row.
unfoldable pub latest : (AuditLog → Bool) → List AuditLog → Option AuditLog
unfolding later
latest p [] = none
latest p (a ∷ rows) = let rest = latest p rows in if p a then later a rest else rest

-- `payload.get(key)`
unfoldable pub payload_get : String → Payload → Option PayloadValue
payload_get k [] = none
payload_get k ((j, v) ∷ p) = if str_eq j k then some v else payload_get k p

-- `str(payload.get("symbol", "")).strip().upper() == symbol`; a value that is no word is no symbol.
unfoldable pub symbol_matches : Option PayloadValue → Text → Bool
symbol_matches none s = text_eq [] s
symbol_matches (some (word t)) s = text_eq (upper (strip t)) s
symbol_matches (some v) s = false

unfoldable pub side_matches : Option PayloadValue → OrderSide → Bool
side_matches (some (side a)) b = side_eq a b
side_matches v b = false

-- `_decimal_from_payload`: `none` where no number can be read.
unfoldable pub decimal_from_payload : Option PayloadValue → Option Decimal
decimal_from_payload (some (number d)) = some d
decimal_from_payload (some (count n)) = some (pos (n * 10000000000))
decimal_from_payload v = none

-- `_int_from_payload`; durations are written as integers.
unfoldable pub int_from_payload : Option PayloadValue → Option ℕ
int_from_payload (some (count n)) = some n
int_from_payload v = none

-- The messages of the authorization.
pub data WindowReason : Type 0 where
  price_required no_approval invalid_quantity invalid_notional invalid_minutes : WindowReason
  symbol_differs side_differs quantity_exceeds notional_exceeds duration_invalid expired :
      WindowReason

pub record OrderRequest : Type 0 where
  pub symbol : Text
  pub side : OrderSide
  pub quantity : Decimal
  pub price : Option Decimal

abbrev pub exceeds : Decimal → Option Decimal → Bool
exceeds q none = false
exceeds q (some most) = ltb_ℤ most q

abbrev pub notional_over : Decimal → Option Decimal → Option Decimal → Bool
notional_over q (some price) (some limit) = product_exceeds q price limit
notional_over q _ _ = false

-- `expires_at`, for a duration that could be read.
abbrev pub expires_at : AuditLog → ℕ → ℕ
expires_at a minutes = a.created_at + minutes * 60

unfoldable pub duration_reasons : AuditLog → Option ℕ → ℕ → List WindowReason
duration_reasons a none now = duration_invalid ∷ []
duration_reasons a (some minutes) now =
    if bad_minutes minutes
    then duration_invalid ∷ []
    else when (ltb (expires_at a minutes) now) expired

unfoldable pub window_reasons : AuditLog → OrderRequest → ℕ → List WindowReason
unfolding payload_get symbol_matches side_matches decimal_from_payload int_from_payload
    duration_reasons
window_reasons a r now =
    let quantity_limit = decimal_from_payload (payload_get "max_quantity" a.payload) in
    let notional_limit = decimal_from_payload (payload_get "max_notional" a.payload) in
    let minutes = int_from_payload (payload_get "duration_minutes" a.payload) in
    when (not (is_some r.price)) price_required
    ++ (when (not (is_some quantity_limit)) invalid_quantity
        ++ (when (not (is_some notional_limit)) invalid_notional
            ++ (when (not (is_some minutes)) invalid_minutes
                ++ (when
                      (not
                        (symbol_matches (payload_get "symbol" a.payload) (upper (strip r.symbol))))
                      symbol_differs
                    ++ (when (not (side_matches (payload_get "side" a.payload) r.side)) side_differs
                        ++ (when (exceeds r.quantity quantity_limit) quantity_exceeds
                            ++ (when (notional_over r.quantity r.price notional_limit)
                                  notional_exceeds
                                ++ duration_reasons a minutes now)))))))

-- The id of the approval that authorizes the order, or why none does.
unfoldable pub require_valid_testnet_order_window_authorization :
    ℕ → ℕ → OrderRequest → ℕ → Database → Result (List WindowReason) ℕ
unfolding latest window_reasons
require_valid_testnet_order_window_authorization user account r now db =
    elim (latest (is_approval user account) db.audit_logs) [
      | none ↦ err (when (not (is_some r.price)) price_required ++ no_approval ∷ [])
      | some a ↦
          let reasons = window_reasons a r now in if is_empty reasons then ok a.id else err reasons
    ]
