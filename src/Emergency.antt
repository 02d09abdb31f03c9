-- ===== src/Emergency.antt =====
-- backend/app/services/emergency_stop.py: the global switch that stops new orders.
pub mod Stop
mod Tests
use crypto_copy_trading_plat.Prelude.{
  ℕ, zero, suc, Bool, true, false, not, ◌&&◌, ◌||◌, Option, none, some, List, [], ◌∷◌, ◌++◌, map,
  ◌==◌, leb, is_empty, if◌then◌else◌,
}
use crypto_copy_trading_plat.Prelude.Text.{Text, is_space, codes}
use crypto_copy_trading_plat.Domain.{ExchangeAccount, RiskSetting}
use crypto_copy_trading_plat.Database.{
  Database, SystemControl, AuditLog, emergency_activated, emergency_deactivated, warning, critical,
  Severity, Payload, PayloadValue, word, flag,
}

-- A finished word is kept unless it is empty; its letters were gathered in reverse.
unfoldable pub push_word : Text → List Text → List Text
push_word [] ws = ws
push_word (c ∷ w) ws = mathlib.Core.List.reverse (c ∷ w) ∷ ws

-- `reason.split()`, with the letters of the current word.
unfoldable pub split_words : Text → Text → List Text
unfolding is_space push_word
split_words [] w = push_word w []
split_words (c ∷ s) w =
    let next = split_words s [] in
    let same = split_words s (c ∷ w) in if is_space c then push_word w next else same

-- `" ".join(words)`
unfoldable pub join_words : List Text → Text
join_words [] = []
join_words (w ∷ []) = w
join_words (w ∷ v ∷ ws) = w ++ 32 ∷ join_words (v ∷ ws)

-- `text[:n]`
unfoldable pub take : ℕ → Text → Text
take zero s = []
take (suc n) [] = []
take (suc n) (c ∷ s) = c ∷ take n s

unfoldable pub clean_reason : Text → Text
unfolding split_words join_words take
clean_reason reason = take 500 (join_words (split_words reason []))

-- `assert_new_orders_allowed` raises where this is false.
unfoldable pub new_orders_allowed : Database → Bool
new_orders_allowed db = elim db.control [ none ↦ true | some c ↦ not c.emergency_stop_enabled ]

-- The state of the stop before the call, for a missing row the column's default.
unfoldable pub stop_enabled : Option SystemControl → Bool
stop_enabled none = false
stop_enabled (some c) = c.emergency_stop_enabled

abbrev pub disable_account : ExchangeAccount → ExchangeAccount
disable_account a = record a { trading_enabled = false }

abbrev pub disable_setting : RiskSetting → RiskSetting
disable_setting s = record s { trading_enabled = false }

abbrev pub bool_differs : Bool → Bool → Bool
bool_differs true b = not b
bool_differs false b = b

-- The row of the audit log, and of the system events with the same content.
unfoldable pub stop_audit : Bool → ℕ → Text → Bool → ℕ → ℕ → AuditLog
stop_audit enabled actor reason changed id now = record {
  id = id;
  user_id = actor;
  exchange_account_id = none;
  action = if enabled then emergency_activated else emergency_deactivated;
  severity = if enabled then critical else warning;
  payload =
      ("scope", word (codes "global"))
      ∷ ("enabled", flag enabled)
      ∷ ("reason", word reason)
      ∷ ("state_changed", flag changed)
      ∷ ("trading_flags_forced_off", flag enabled)
      ∷ [];
  created_at = now;
}

-- The two rows take the ids that `new_uuid` returns and the time of the database.
unfoldable pub set_emergency_stop : Bool → ℕ → Text → ℕ → ℕ → ℕ → Database → Database
unfolding clean_reason stop_enabled stop_audit
set_emergency_stop enabled actor reason audit_id event_id now db =
    let clean = clean_reason reason in
    let changed = bool_differs (stop_enabled db.control) enabled in
    record db {
      accounts = if enabled then map disable_account db.accounts else db.accounts;
      settings = if enabled then map disable_setting db.settings else db.settings;
      control = some (record {
        emergency_stop_enabled = enabled;
        reason = some clean;
        changed_by_user_id = some actor;
      });
      audit_logs = db.audit_logs ++ stop_audit enabled actor clean changed audit_id now ∷ [];
      system_events = db.system_events ++ stop_audit enabled actor clean changed event_id now ∷ [];
    }
