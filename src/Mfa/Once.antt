-- ===== src/Mfa/Once.antt =====
-- A recovery code and a time step are accepted once.
use crypto_copy_trading_plat.Prelude.{
  ℕ, suc, ◌-◌, ◌*◌, ◌/◌, ◌<◌, ◌≡◌, refl, sym, Bool, ◌&&◌, true, false, Option, none, some, List, [],
  ◌∷◌, ◌==◌, length, inl, inr, arith, Bool-cases, Option-cases,
}
use crypto_copy_trading_plat.Prelude.Text.{Text, text_eq, text_eq_sound}
use crypto_copy_trading_plat.Prelude.Exec.{Result, ok, err}
use crypto_copy_trading_plat.Mfa.{
  MfaLib, MfaState, MfaError, normalize_recovery_code, remaining_hashes, is_used,
  hash_recovery_code, first_step, match_totp, use_recovery_code, use_totp, challenge,
  verify_mfa_challenge,
}

remaining_hashes_idem :
    (candidate : Text) (hs : List Text)
    → remaining_hashes candidate (remaining_hashes candidate hs) ≡ remaining_hashes candidate hs
unfolding remaining_hashes
remaining_hashes_idem candidate [] = refl
remaining_hashes_idem candidate (h ∷ hs) = elim (Bool-cases (text_eq h candidate)) [
  | inl same ↦ rw same (remaining_hashes_idem candidate hs)
  | inr other ↦ rw (other, other, remaining_hashes_idem candidate hs) refl
]

abbrev pub is_accepted : Result MfaError Bool → Bool
is_accepted (ok b) = b
is_accepted (err e) = false

self_eq : (n : ℕ) → (n == n) ≡ true
self_eq n = ground arith

challenge-recovery :
    (lib : MfaLib) (code : Text) (now : ℕ) (m : MfaState) (sealed : Text)
    → m.user.mfa_enabled ≡ true
    → m.user.mfa_secret_encrypted ≡ some sealed
    → lib.is_digit code ≡ false
    → verify_mfa_challenge lib code now m ≡ use_recovery_code lib code m
unfolding verify_mfa_challenge challenge
challenge-recovery lib code now m sealed on has letters = rw (on, has, letters) refl

recovery_again :
    (lib : MfaLib) (code code' : Text) (now' : ℕ) (m : MfaState) (sealed : Text)
    → m.user.mfa_enabled ≡ true
    → m.user.mfa_secret_encrypted ≡ some sealed
    → is_accepted (use_recovery_code lib code m).0 ≡ true
    → lib.is_digit code' ≡ false
    → normalize_recovery_code code' ≡ normalize_recovery_code code
    → verify_mfa_challenge lib code' now' (use_recovery_code lib code m).1
      ≡ (ok false, (use_recovery_code lib code m).1)
unfolding verify_mfa_challenge challenge use_recovery_code
recovery_again lib code code' now' m sealed on has accepted letters' same =
    let remaining =
      remaining_hashes (hash_recovery_code lib (normalize_recovery_code code))
        m.user.mfa_recovery_code_hashes in
    elim (Bool-cases (length remaining == length m.user.mfa_recovery_code_hashes)) [
      | inl nothing ↦ cc (rw nothing at accepted)
      | inr found ↦
          rw
            (
              found,
              on,
              has,
              letters',
              same,
              remaining_hashes_idem (hash_recovery_code lib (normalize_recovery_code code))
                  m.user.mfa_recovery_code_hashes,
              self_eq (length remaining),
            )
            refl
    ]

-- After a recovery code was accepted, no code of the same letters is accepted again, and the
-- attempt changes nothing, where neither code consists of digits alone.
pub recovery_code_once :
    (lib : MfaLib) (code code' : Text) (now now' : ℕ) (m : MfaState)
    → is_accepted (verify_mfa_challenge lib code now m).0 ≡ true
    → lib.is_digit code ≡ false
    → lib.is_digit code' ≡ false
    → normalize_recovery_code code' ≡ normalize_recovery_code code
    → verify_mfa_challenge lib code' now' (verify_mfa_challenge lib code now m).1
      ≡ (ok false, (verify_mfa_challenge lib code now m).1)
unfolding verify_mfa_challenge challenge
recovery_code_once lib code code' now now' m accepted letters letters' same =
    elim (Bool-cases m.user.mfa_enabled) [
      | inr off ↦ cc (rw off at accepted)
      | inl on ↦ elim (Option-cases m.user.mfa_secret_encrypted) [
        | inl missing ↦ cc (rw (on, missing) at accepted)
        | inr (sealed, has) ↦
            let goes = challenge-recovery lib code now m sealed on has letters in
            rw goes (
              recovery_again lib code code' now' m sealed on has (rw goes at accepted) letters'
                same)
      ]
    ]

abbrev IsFresh : MfaLib → Text → Text → Option ℕ → ℕ → Type 0
IsFresh lib secret code last step =
    (is_used last step ≡ false) × (lib.totp_at secret (step * 30) ≡ code)

first_step-IsFresh :
    (lib : MfaLib) (secret code : Text) (last : Option ℕ) (steps : List ℕ) (step : ℕ)
    → first_step lib secret code last steps ≡ some step
    → IsFresh lib secret code last step
unfolding first_step
first_step-IsFresh lib secret code last [] step h = cc h
first_step-IsFresh lib secret code last (s ∷ steps) step h = elim (Bool-cases (is_used last s)) [
  | inl used ↦ first_step-IsFresh lib secret code last steps step (rw used at h)
  | inr fresh ↦ elim (Bool-cases (text_eq (lib.totp_at secret (s * 30)) code)) [
    | inl same ↦
        let is_it : some s ≡ some step = rw (fresh, same) at h in
        let this : s ≡ step = cc is_it in rw (sym this) (fresh, text_eq_sound _ _ same)
    | inr other ↦ first_step-IsFresh lib secret code last steps step (rw (fresh, other) at h)
  ]
]

later_than :
    (last : Option ℕ) (step : ℕ)
    → is_used last step ≡ false
    → (used : ℕ) → last ≡ some used
    → used < step
later_than none step fresh used h = cc h
later_than (some last) step fresh used h =
    let this : last ≡ used = cc h in rw (sym this) (ground arith)

use_totp_later :
    (lib : MfaLib) (code : Text) (now : ℕ) (opened : Option Text) (m : MfaState)
    → is_accepted (use_totp lib code now opened m).0 ≡ true
    → (step : ℕ) × ((use_totp lib code now opened m).1.user.mfa_last_used_step ≡ some step)
      × ((used : ℕ) → m.user.mfa_last_used_step ≡ some used → used < step)
unfolding use_totp match_totp
use_totp_later lib code now none m accepted = cc accepted
use_totp_later lib code now (some secret) m accepted =
    elim (Bool-cases (length code == 6 && lib.is_digit code)) [
      | inr bad ↦ cc (rw bad at accepted)
      | inl good ↦
          elim (Option-cases (
            first_step lib secret code m.user.mfa_last_used_step
              ((now / 30 - 1) ∷ (now / 30) ∷ suc (now / 30) ∷ []))) [
                | inl missing ↦ cc (rw (good, missing) at accepted)
                | inr (step, found) ↦
                    rw (good, found)
                      (
                        step,
                        refl,
                        later_than m.user.mfa_last_used_step step
                            (first_step-IsFresh lib secret code m.user.mfa_last_used_step
                              ((now / 30 - 1) ∷ now / 30 ∷ suc (now / 30) ∷ []) step found).0,
                      )
              ]
    ]

-- After a time code was accepted, the step that was used last is later than the one before, so that
-- no step is used twice.
pub totp_step_later :
    (lib : MfaLib) (code : Text) (now : ℕ) (m : MfaState)
    → is_accepted (verify_mfa_challenge lib code now m).0 ≡ true
    → lib.is_digit code ≡ true
    → (step : ℕ) × ((verify_mfa_challenge lib code now m).1.user.mfa_last_used_step ≡ some step)
      × ((used : ℕ) → m.user.mfa_last_used_step ≡ some used → used < step)
unfolding verify_mfa_challenge challenge
totp_step_later lib code now m accepted digits = elim (Bool-cases m.user.mfa_enabled) [
  | inr off ↦ cc (rw off at accepted)
  | inl on ↦ elim (Option-cases m.user.mfa_secret_encrypted) [
    | inl missing ↦ cc (rw (on, missing) at accepted)
    | inr (sealed, has) ↦
        let goes : verify_mfa_challenge lib code now m
            ≡ use_totp lib code now (lib.decrypt_secret sealed) m =
          rw (on, has, digits) refl in
        rw goes (use_totp_later lib code now (lib.decrypt_secret sealed) m (rw goes at accepted))
  ]
]
