-- ===== src/Response/Submission.antt =====
-- What an answer of an exchange, or a failure to get one, does to the execution.
use crypto_copy_trading_plat.Prelude.{
  [], ◌∷◌, ◌≡◌, ◌≢◌, ◌↔◌, ◌⊎◌, refl, Bool, true, false, not, ◌||◌, ◌==◌, Bool-cases, inl, inr,
  Option, none, some, arith, ℕ,
}
use crypto_copy_trading_plat.Prelude.Int.{ℤ, pos, negsuc, magnitude}
use crypto_copy_trading_plat.Prelude.Text.{
  Text, codes, text_eq, text_eq_refl, text_eq_sound, text_eq_iff,
}
use crypto_copy_trading_plat.Prelude.Exec.{ok, err, Result}
use crypto_copy_trading_plat.Json.{
  Json, Fields, null, boolean, int, float, text, decimal, foreign, array, object,
}
use crypto_copy_trading_plat.Domain.{
  ExchangeName, binance, bybit, okx, mock, submitted, accepted, failed, document, status_eq,
}
use crypto_copy_trading_plat.OrderState.{
  Tracked, transition_order_execution, OrderStateError, flush,
}
use crypto_copy_trading_plat.OrderState.History.{IsHistory, IsHistory-flush, transition-IsHistory}
use crypto_copy_trading_plat.Response.{
  exchange_value, exchange_rejected, not_awaiting, is_exchange_rejection, is_success_code,
  get_field, exchange_order_id, safe_fields, record_testnet_submission_accepted,
  record_testnet_submission_failure, moved, set_exchange_order_id, set_exchange_response,
  set_failure,
}

moved-IsHistory :
    {A : Type 0} (i : ℕ) (p : Result OrderStateError A × Tracked)
    → IsHistory i p.1
    → IsHistory i (moved p).1
unfolding moved
moved-IsHistory i (ok a, m) h = IsHistory-flush i m h
moved-IsHistory i (err e, m) h = h

-- A write of the order id, response or error keeps the story.
set_id-IsHistory :
    (i : ℕ) (o : Option Text) (m : Tracked)
    → IsHistory i m
    → IsHistory i (set_exchange_order_id o m)
set_id-IsHistory i none m h = h
set_id-IsHistory i (some t) m h = record {
  known = h.known;
  chained = h.chained;
  current = h.current;
}

accepted-IsHistory :
    (show : Json → Text) (answer : Fields) (i : ℕ) (m : Tracked)
    → IsHistory i m
    → IsHistory i (record_testnet_submission_accepted show answer m).1
unfolding record_testnet_submission_accepted
accepted-IsHistory show answer i m h =
    elim (Bool-cases (is_exchange_rejection m.execution.exchange_name (safe_fields answer))) [
      | inl refused ↦ rw refused h
      | inr fine ↦ elim (Bool-cases (status_eq m.execution.status submitted)) [
        | inl awaiting ↦
            rw (fine, awaiting)
              (moved-IsHistory i _ (
                transition-IsHistory i _ accepted "testnet_exchange_accepted" _ (
                  set_id-IsHistory i _ (set_exchange_response (safe_fields answer) m)
                    (record { known = h.known; chained = h.chained; current = h.current }))))
        | inr other ↦ rw (fine, other) h
      ]
    ]

failure-IsHistory :
    (failure_type : Text) (i : ℕ) (m : Tracked)
    → IsHistory i m
    → IsHistory i (record_testnet_submission_failure failure_type m).1
unfolding record_testnet_submission_failure
failure-IsHistory failure_type i m h = elim (Bool-cases (status_eq m.execution.status submitted)) [
  | inl awaiting ↦ rw awaiting (
      moved-IsHistory i _ (
        transition-IsHistory i (set_failure m) failed "testnet_exchange_request_failed" _
          (record { known = h.known; chained = h.chained; current = h.current })))
  | inr other ↦ rw other h
]

-- An answer of the exchange and a failure to get one, whether they are accepted or raise, leave an
-- execution whose log tells its whole story with a log that tells its whole story.
pub submission-IsHistory :
    (show : Json → Text) (answer : Fields) (failure_type : Text) (i : ℕ) (m : Tracked)
    → IsHistory i m
    → IsHistory i (record_testnet_submission_accepted show answer m).1
      × IsHistory i (record_testnet_submission_failure failure_type m).1
submission-IsHistory show answer failure_type i m h =
    (accepted-IsHistory show answer i m h, failure-IsHistory failure_type i m h)

-- A code that means success: none, or 0 in one of its forms.
abbrev pub ZeroCode : Option Json → Type 0
ZeroCode none = Unit
ZeroCode (some null) = Unit
ZeroCode (some (int n)) = n ≡ pos 0
ZeroCode (some (boolean b)) = b ≡ false
ZeroCode (some (float t)) = (t ≡ codes "0.0") ⊎ (t ≡ codes "-0.0")
ZeroCode (some (text t)) = t ≡ codes "0"
ZeroCode (some v) = ⊥

-- Where each exchange writes its code.
abbrev pub IsSuccess : ExchangeName → Fields → Type 0
IsSuccess bybit r = ZeroCode (get_field (codes "retCode") r)
IsSuccess okx r = ZeroCode (get_field (codes "code") r)
IsSuccess binance r = ZeroCode (get_field (codes "code") r)
IsSuccess mock r = Unit

zero_iff : (n : ℤ) → (magnitude n == 0 ≡ true) ↔ (n ≡ pos 0)
zero_iff (pos n) = (λ h. ground arith, λ h. ground arith)
zero_iff (negsuc n) = (λ h. ground arith, λ h. ground arith)

float_iff :
    (t : Text)
    → (text_eq t (codes "0.0") || text_eq t (codes "-0.0") ≡ true)
      ↔ ((t ≡ codes "0.0") ⊎ (t ≡ codes "-0.0"))
float_iff t = (
  λ h. elim (Bool-cases (text_eq t (codes "0.0"))) [
    | inl same ↦ inl (text_eq_sound t _ same)
    | inr other ↦ inr (text_eq_sound t _ (rw other at h))
  ],
  λ h. elim h [
    | inl same ↦ rw (same, text_eq_refl (codes "0.0")) refl
    | inr same ↦ rw (same, text_eq_refl (codes "-0.0")) (ground arith)
  ],
)

is_success_code_iff : (o : Option Json) → (is_success_code o ≡ true) ↔ ZeroCode o
unfolding is_success_code
is_success_code_iff none = (λ h. tt, λ h. refl)
is_success_code_iff (some null) = (λ h. tt, λ h. refl)
is_success_code_iff (some (int n)) = zero_iff n
is_success_code_iff (some (boolean b)) = (λ h. ground arith, λ h. ground arith)
is_success_code_iff (some (float t)) = float_iff t
is_success_code_iff (some (text t)) = text_eq_iff t (codes "0")
is_success_code_iff (some (decimal t)) = (λ h. cc h, λ h. absurd h)
is_success_code_iff (some (foreign t)) = (λ h. cc h, λ h. absurd h)
is_success_code_iff (some (array xs)) = (λ h. cc h, λ h. absurd h)
is_success_code_iff (some (object fs)) = (λ h. cc h, λ h. absurd h)

not_iff : {P : Type 0} (b : Bool) → ((b ≡ true) ↔ P) → (not b ≡ false) ↔ P
not_iff true e = (λ h. e.0 refl, λ h. refl)
not_iff false e = (λ h. cc h, λ h. cc (e.1 h))

is_exchange_rejection_iff :
    (name : ExchangeName) (r : Fields) → (is_exchange_rejection name r ≡ false) ↔ IsSuccess name r
unfolding is_exchange_rejection
is_exchange_rejection_iff bybit r = not_iff _ (is_success_code_iff (get_field (codes "retCode") r))
is_exchange_rejection_iff okx r = not_iff _ (is_success_code_iff (get_field (codes "code") r))
is_exchange_rejection_iff binance r = not_iff _ (is_success_code_iff (get_field (codes "code") r))
is_exchange_rejection_iff mock r = (λ h. tt, λ h. refl)

module _ (show : Json → Text) (answer : Fields) (i : ℕ) (m : Tracked) where
  abbrev id_found : Option Text
  id_found = exchange_order_id show m.execution.exchange_name (safe_fields answer)

  store_accepts :
      (o : Option Text)
      → m.execution.id ≡ some i
      → m.execution.status ≡ submitted
      → let p = moved (
          transition_order_execution accepted "testnet_exchange_accepted"
            (("exchange", exchange_value m.execution.exchange_name) ∷ [])
            (set_exchange_order_id o (set_exchange_response (safe_fields answer) m))) in
        (p.0 ≡ ok tt)
        × (p.1.execution.status ≡ accepted)
        × (p.1.execution.exchange_response ≡ some (document (object (safe_fields answer))))
  unfolding moved transition_order_execution flush
  store_accepts none known awaiting = rw (awaiting, known) (refl, refl, refl)
  store_accepts (some t) known awaiting = rw (awaiting, known) (refl, refl, refl)

  -- The rejection is decided by the code of the answer alone, which is at `retCode` for Bybit and at
  -- `code` for OKX and Binance; an answer is good if it has no code there or 0 in one of its forms,
  -- or if the exchange is the mock. For an execution with an id that awaits acceptance, a good
  -- answer is accepted: the status is `ACCEPTED` and the answer is stored without its sensitive
  -- keys. Any other answer raises a rejection, and a good answer in another status raises too; both
  -- change nothing.
  pub accepted_outcome :
      m.execution.id ≡ some i
      → let p = record_testnet_submission_accepted show answer m in
        let Good = IsSuccess m.execution.exchange_name (safe_fields answer) in
        (Good
          → m.execution.status ≡ submitted
          → (p.0 ≡ ok tt)
            × (p.1.execution.status ≡ accepted)
            × (p.1.execution.exchange_response ≡ some (document (object (safe_fields answer)))))
        × ((Good → ⊥) → p ≡ (err exchange_rejected, m))
        × (Good → m.execution.status ≢ submitted → p ≡ (err not_awaiting, m))
  unfolding record_testnet_submission_accepted
  accepted_outcome known =
      let name = m.execution.exchange_name in
      let fine = (is_exchange_rejection_iff name (safe_fields answer)).1 in
      (
        λ good awaiting.
            let is_it : status_eq m.execution.status submitted ≡ true = rw awaiting refl in
            rw (fine good, is_it) (store_accepts id_found known awaiting),
        λ bad. elim (Bool-cases (is_exchange_rejection name (safe_fields answer))) [
          | inl refused ↦ rw refused refl
          | inr passes ↦
              absurd (bad ((is_exchange_rejection_iff name (safe_fields answer)).0 passes))
        ],
        λ good other. rw (fine good) (ground (arith, other)),
      )
