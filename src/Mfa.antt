-- ===== src/Mfa.antt =====
-- The second factor of a user: backend/app/services/mfa.py. The rows are those of one session; what
-- the service takes from pyotp, hmac, secrets and core/encryption.py is in the parameter `MfaLib`.
-- Times are whole seconds, from the first half minute of the epoch on.
pub mod Once
mod Tests
use crypto_copy_trading_plat.Prelude.{
  ℕ, zero, suc, ◌+◌, ◌-◌, ◌*◌, ◌/◌, Bool, ◌&&◌, ◌||◌, true, false, not, Option, none, some, List,
  [], ◌∷◌, ◌++◌, map, length, ◌==◌, leb, if◌then◌else◌,
}
use crypto_copy_trading_plat.Prelude.Text.{Text, upper, text_eq}
use crypto_copy_trading_plat.Prelude.Exec.{Exec, Result, ok, err}

-- Decryption gives none where it raises; `totp_at secret seconds` is the code of that time, and
-- `hmac_hex` the hash under the settings' key.
pub record MfaLib : Type 0 where
  pub decrypt_secret : Text → Option Text
  pub totp_at : Text → ℕ → Text
  pub hmac_hex : Text → Text
  pub is_digit : Text → Bool

-- The columns of `User` that the service reads and writes.
pub record MfaUser : Type 0 where
  pub id : ℕ
  pub mfa_enabled : Bool
  pub mfa_pending_secret_encrypted : Option Text
  pub mfa_secret_encrypted : Option Text
  pub mfa_last_used_step : Option ℕ
  pub mfa_recovery_code_hashes : List Text
  pub auth_version : ℕ

-- The audit rows of the service, with the numbers of their payloads.
pub data MfaAudit : Type 0 where
  enrollment_started : ℕ → MfaAudit
  enabled : ℕ → ℕ → ℕ → MfaAudit
  disabled recovery_code_used : ℕ → ℕ → MfaAudit

pub record MfaState : Type 0 where
  pub user : MfaUser
  pub audit_logs : List MfaAudit

pub data MfaError : Type 0 where
  already_enabled not_pending not_enabled invalid_code not_decrypted : MfaError

-- `code.replace("-", "").replace(" ", "")`
unfoldable pub without_marks : Text → Text
without_marks [] = []
without_marks (c ∷ s) =
    let rest = without_marks s in if c == b'-' || c == b' ' then rest else c ∷ rest

-- `_normalize_recovery_code`
unfoldable pub normalize_recovery_code : Text → Text
unfolding without_marks
normalize_recovery_code code = upper (without_marks code)

-- The stored hashes that differ from the candidate.
unfoldable pub remaining_hashes : Text → List Text → List Text
remaining_hashes candidate [] = []
remaining_hashes candidate (h ∷ hs) =
    let rest = remaining_hashes candidate hs in if text_eq h candidate then rest else h ∷ rest

abbrev pub is_used : Option ℕ → ℕ → Bool
is_used none step = false
is_used (some last) step = leb step last

module _ (lib : MfaLib) where
  -- `_hash_recovery_code`
  unfoldable pub hash_recovery_code : Text → Text
  unfolding normalize_recovery_code
  hash_recovery_code code = lib.hmac_hex (normalize_recovery_code code)

  -- The first of the steps that is later than the last one used and has this code. For digits
  -- outside ASCII, where `compare_digest` raises a `TypeError`, no step has the code here.
  unfoldable pub first_step : Text → Text → Option ℕ → List ℕ → Option ℕ
  first_step secret code last [] = none
  first_step secret code last (step ∷ steps) =
      let later = first_step secret code last steps in
      if is_used last step
      then later
      else if text_eq (lib.totp_at secret (step * 30)) code
      then some step
      else later

  -- `_match_totp`
  unfoldable pub match_totp : Text → Text → Option ℕ → ℕ → Option ℕ
  unfolding first_step
  match_totp secret code last now =
      let current = now / 30 in
      if length code == 6 && lib.is_digit code
      then first_step secret code last ((current - 1) ∷ current ∷ suc current ∷ [])
      else none

  -- The use of a recovery code.
  unfoldable pub use_recovery_code : Text → Exec MfaState MfaError Bool
  unfolding hash_recovery_code remaining_hashes
  use_recovery_code code m =
      let remaining =
        remaining_hashes (hash_recovery_code (normalize_recovery_code code))
          m.user.mfa_recovery_code_hashes in
      if length remaining == length m.user.mfa_recovery_code_hashes then (ok false, m) else (
        ok true,
        record {
          user = record (m.user) { mfa_recovery_code_hashes = remaining };
          audit_logs = m.audit_logs ++ recovery_code_used m.user.id (length remaining) ∷ [];
        },
      )

  abbrev pub use_step : Option ℕ → Exec MfaState MfaError Bool
  use_step none m = (ok false, m)
  use_step (some step) m =
      (ok true, record m { user = record (m.user) { mfa_last_used_step = some step } })

  unfoldable pub use_totp : Text → ℕ → Option Text → Exec MfaState MfaError Bool
  unfolding match_totp
  use_totp code now none m = (err not_decrypted, m)
  use_totp code now (some secret) m =
      use_step (match_totp secret code m.user.mfa_last_used_step now) m

  unfoldable pub challenge : Text → ℕ → Option Text → Exec MfaState MfaError Bool
  unfolding use_recovery_code use_totp
  challenge code now none m = (ok false, m)
  challenge code now (some sealed) m =
      if lib.is_digit code
      then use_totp code now (lib.decrypt_secret sealed) m
      else use_recovery_code code m

  -- `verify_mfa_challenge`
  unfoldable pub verify_mfa_challenge : Text → ℕ → Exec MfaState MfaError Bool
  unfolding challenge
  verify_mfa_challenge code now m =
      if m.user.mfa_enabled then challenge code now m.user.mfa_secret_encrypted m else (ok false, m)

  -- `start_mfa_enrollment`, with the encrypted form of the new secret
  unfoldable pub start_mfa_enrollment : Text → Exec MfaState MfaError Unit
  start_mfa_enrollment sealed m = if m.user.mfa_enabled then (err already_enabled, m) else (
    ok tt,
    record {
      user = record (m.user) { mfa_pending_secret_encrypted = some sealed };
      audit_logs = m.audit_logs ++ enrollment_started m.user.id ∷ [];
    },
  )

  abbrev pub enable : List Text → Text → Option ℕ → Exec MfaState MfaError (List Text)
  enable recovery sealed none m = (err invalid_code, m)
  enable recovery sealed (some step) m = (
    ok recovery,
    record {
      user = record (m.user) {
        mfa_secret_encrypted = some sealed;
        mfa_pending_secret_encrypted = none;
        mfa_enabled = true;
        mfa_last_used_step = some step;
        mfa_recovery_code_hashes = map hash_recovery_code recovery;
        auth_version = suc m.user.auth_version;
      };
      audit_logs =
          m.audit_logs ++ enabled m.user.id (length recovery) (suc m.user.auth_version) ∷ [];
    },
  )

  unfoldable pub confirm_decrypted :
      List Text → Text → ℕ → Text → Option Text → Exec MfaState MfaError (List Text)
  unfolding match_totp hash_recovery_code
  confirm_decrypted recovery code now sealed none m = (err not_decrypted, m)
  confirm_decrypted recovery code now sealed (some secret) m =
      enable recovery sealed (match_totp secret code none now) m

  unfoldable pub confirm_pending :
      List Text → Text → ℕ → Option Text → Exec MfaState MfaError (List Text)
  unfolding confirm_decrypted
  confirm_pending recovery code now none m = (err not_pending, m)
  confirm_pending recovery code now (some sealed) m =
      if m.user.mfa_enabled
      then (err not_pending, m)
      else confirm_decrypted recovery code now sealed (lib.decrypt_secret sealed) m

  -- `confirm_mfa_enrollment`, with the recovery codes that it generates
  unfoldable pub confirm_mfa_enrollment : List Text → Text → ℕ → Exec MfaState MfaError (List Text)
  unfolding confirm_pending
  confirm_mfa_enrollment recovery code now m =
      confirm_pending recovery code now m.user.mfa_pending_secret_encrypted m

  abbrev pub disable_after : Result MfaError Bool × MfaState → Result MfaError Unit × MfaState
  disable_after (err e, m) = (err e, m)
  disable_after (ok false, m) = (err invalid_code, m)
  disable_after (ok true, m) = (
    ok tt,
    record {
      user = record (m.user) {
        mfa_enabled = false;
        mfa_secret_encrypted = none;
        mfa_pending_secret_encrypted = none;
        mfa_last_used_step = none;
        mfa_recovery_code_hashes = [];
        auth_version = suc m.user.auth_version;
      };
      audit_logs = m.audit_logs ++ disabled m.user.id (suc m.user.auth_version) ∷ [];
    },
  )

  -- `disable_mfa`
  unfoldable pub disable_mfa : Text → ℕ → Exec MfaState MfaError Unit
  unfolding verify_mfa_challenge
  disable_mfa code now m =
      if m.user.mfa_enabled
      then disable_after (verify_mfa_challenge code now m)
      else (err not_enabled, m)
