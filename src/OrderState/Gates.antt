-- ===== src/OrderState/Gates.antt =====
-- No order gets past the risk check: what a story must have visited.
use crypto_copy_trading_plat.Prelude.{
  ℕ, suc, ◌≡◌, refl, ◌⊎◌, inl, inr, Bool, true, false, Option, some, none, List, [], ◌∷◌, arith,
}
use crypto_copy_trading_plat.Domain.{
  OrderExecutionStatus, created, risk_passed, submitted, accepted, partially_filled, filled,
  cancelled, failed, timeout, OrderExecutionTransition,
}
use crypto_copy_trading_plat.OrderState.{Tracked, may_move}
use crypto_copy_trading_plat.OrderState.History.{
  history, IsHistory, Follows, MayFollow, last_status,
}

-- Some row leads to status `s`.
abbrev pub Visits : OrderExecutionStatus → List OrderExecutionTransition → Type 0
Visits s [] = ⊥
Visits s (t ∷ l) = (t.to_status ≡ s) ⊎ Visits s l

-- The statuses that only an exchange's answer gives.
abbrev pub from_exchange : OrderExecutionStatus → Bool
from_exchange accepted = true
from_exchange partially_filled = true
from_exchange filled = true
from_exchange cancelled = true
from_exchange timeout = true
from_exchange _ = false

-- The statuses that an order can have before its risk check has passed, and before it is submitted.
abbrev before_risk : Option OrderExecutionStatus → Bool
before_risk none = true
before_risk (some created) = true
before_risk (some OrderExecutionStatus.rejected) = true
before_risk (some failed) = true
before_risk (some _) = false

abbrev before_submission : Option OrderExecutionStatus → Bool
before_submission (some risk_passed) = true
before_submission s = before_risk s

risk_or_before :
    (prev : Option OrderExecutionStatus) (s : OrderExecutionStatus)
    → before_risk prev ≡ true
    → MayFollow prev s
    → (s ≡ risk_passed) ⊎ (before_risk (some s) ≡ true)
unfolding may_move
risk_or_before prev s h may = ground arith

submission_or_before :
    (prev : Option OrderExecutionStatus) (s : OrderExecutionStatus)
    → before_submission prev ≡ true
    → MayFollow prev s
    → (s ≡ submitted) ⊎ (before_submission (some s) ≡ true)
unfolding may_move
submission_or_before prev s h may = ground arith

before_exclude :
    (prev : Option OrderExecutionStatus) (s : OrderExecutionStatus)
    → before_submission prev ≡ true
    → prev ≡ some s
    → from_exchange s ≡ true
    → ⊥
before_exclude prev s h e live = ground arith

before_weaken :
    (prev : Option OrderExecutionStatus) → before_risk prev ≡ true → before_submission prev ≡ true
before_weaken prev h = ground arith

Visits-risk :
    (prev : Option OrderExecutionStatus) (n : ℕ) (l : List OrderExecutionTransition)
    (s : OrderExecutionStatus)
    → before_risk prev ≡ true
    → Follows prev n l
    → last_status prev l ≡ some s
    → from_exchange s ≡ true
    → Visits risk_passed l
Visits-risk prev n [] s h chain e live =
    absurd (before_exclude prev s (before_weaken prev h) e live)
Visits-risk prev n (t ∷ l) s h chain e live = elim (risk_or_before prev t.to_status h chain.2) [
  | inl now ↦ inl now
  | inr still ↦ inr (Visits-risk (some t.to_status) (suc n) l s still chain.3 e live)
]

Visits-submission :
    (prev : Option OrderExecutionStatus) (n : ℕ) (l : List OrderExecutionTransition)
    (s : OrderExecutionStatus)
    → before_submission prev ≡ true
    → Follows prev n l
    → last_status prev l ≡ some s
    → from_exchange s ≡ true
    → Visits submitted l
Visits-submission prev n [] s h chain e live = absurd (before_exclude prev s h e live)
Visits-submission prev n (t ∷ l) s h chain e live =
    elim (submission_or_before prev t.to_status h chain.2) [
      | inl now ↦ inl now
      | inr still ↦ inr (Visits-submission (some t.to_status) (suc n) l s still chain.3 e live)
    ]

-- An execution whose log tells its whole story, and whose status comes from an exchange's answer
-- (`ACCEPTED`, `PARTIALLY_FILLED`, `FILLED`, `CANCELLED`, `TIMEOUT`), has rows of passing the risk
-- check and of being submitted.
pub from_exchange-Visits :
    (i : ℕ) (m : Tracked)
    → IsHistory i m
    → from_exchange m.execution.status ≡ true
    → Visits risk_passed (history i m.log) × Visits submitted (history i m.log)
from_exchange-Visits i m h live = (
  Visits-risk none 0 (history i m.log) m.execution.status refl h.chained h.current live,
  Visits-submission none 0 (history i m.log) m.execution.status refl h.chained h.current live,
)
