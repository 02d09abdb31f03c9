-- ===== src/Mfa/Tests.antt =====
-- A user with a second factor and two recovery codes. The hash of a code is the code itself, and
-- the time code is the same at every time.
use crypto_copy_trading_plat.Prelude.{ℕ, ◌<◌, ◌≡◌, refl, true, false, none, some, [], ◌∷◌}
use crypto_copy_trading_plat.Prelude.Text.{codes, text_eq, upper}
use crypto_copy_trading_plat.Prelude.Exec.{ok}
use crypto_copy_trading_plat.Samples.{uuid}
use crypto_copy_trading_plat.Mfa.{MfaLib, MfaState, verify_mfa_challenge}
use crypto_copy_trading_plat.Mfa.Once.{recovery_code_once, totp_step_later}

abbrev lib : MfaLib
lib = record {
  decrypt_secret = λ t. some t;
  totp_at = λ secret seconds. codes "123456";
  hmac_hex = λ t. t;
  is_digit = λ t. text_eq t (codes "123456");
}

abbrev enrolled : MfaState
enrolled = record {
  user = record {
    id = uuid 1;
    mfa_enabled = true;
    mfa_pending_secret_encrypted = none;
    mfa_secret_encrypted = some (codes "secret");
    mfa_last_used_step = some 3;
    mfa_recovery_code_hashes = codes "ABCD1234" ∷ codes "EFAB5678" ∷ [];
    auth_version = 2;
  };
  audit_logs = [];
}

recovery_code_once_example :
    verify_mfa_challenge lib
      (codes "abcd1234")
      130
      (verify_mfa_challenge lib (codes "ABCD-1234") 120 enrolled).1
    ≡ (ok false, (verify_mfa_challenge lib (codes "ABCD-1234") 120 enrolled).1)
unfolding verify_mfa_challenge text_eq upper
recovery_code_once_example =
    recovery_code_once lib (codes "ABCD-1234") (codes "abcd1234") 120 130 enrolled refl refl refl
      refl

totp_step_later_example :
    (step : ℕ) × ((verify_mfa_challenge lib (codes "123456") 120 enrolled).1.user.mfa_last_used_step
      ≡ some step)
    × ((used : ℕ) → enrolled.user.mfa_last_used_step ≡ some used → used < step)
unfolding verify_mfa_challenge text_eq
totp_step_later_example = totp_step_later lib (codes "123456") 120 enrolled refl refl
