-- ===== src/Engine/Placement.antt =====
-- The life of one execution: it ends filled or failed, and its log tells the whole story.
use Prim.Native.String.{String}
use crypto_copy_trading_plat.Prelude.{
  ℕ, ◌≡◌, refl, true, false, some, none, [], if◌then◌else◌, Bool-cases, inl, inr,
}
use crypto_copy_trading_plat.Prelude.Exec.{ok, modify, Keeps, Keeps-bind, ◌>>=◌, ◌>>◌}
use crypto_copy_trading_plat.Decimal.{Decimal}
use crypto_copy_trading_plat.Domain.{
  RiskCheckResult, OrderExecutionStatus, created, risk_passed, submitted, filled, failed,
  OrderExecution, mock_order,
}
use crypto_copy_trading_plat.OrderState.{
  TransitionLog, Tracked, Step, record_initial_order_state, transition_order_execution, flush,
  transition_row, add_row,
}
use crypto_copy_trading_plat.OrderState.History.{
  history, IsHistory, IsHistory-flush, transition-IsHistory, record_initial-IsHistory,
}
use crypto_copy_trading_plat.OrderState.Branches.{record_initial_allowed}
use crypto_copy_trading_plat.Engine.{
  place_order, set_risk_result, set_error, set_response, failure_message, fail_order, fill_order,
  must_fail, place, commit_move, is_rejected,
}

-- The execution as a failed placement leaves it.
abbrev pub failed_execution : RiskCheckResult → OrderExecution → OrderExecution
failed_execution risk e = record e {
  risk_result = some risk;
  error_message = some (failure_message risk);
  status = failed;
}

-- The execution as the mock exchange's fill leaves it.
abbrev pub filled_execution : RiskCheckResult → OrderExecution → OrderExecution
filled_execution risk e =
    let order = place_order e in
    record e {
      risk_result = some risk;
      exchange_order_id = some order.exchange_order_id;
      exchange_response = some (mock_order order);
      status = filled;
    }

module _ (risk : RiskCheckResult) (quantity : Decimal) (e : OrderExecution)
    (log : TransitionLog) where
  abbrev start : Tracked
  start = record { execution = e; log = log }

  pub place_fails :
      {i : ℕ}
      → e.id ≡ some i
      → e.status ≡ created
      → must_fail risk quantity ≡ true
      → ((place risk quantity start).0 ≡ ok tt)
        × ((place risk quantity start).1.execution ≡ failed_execution risk e)
  unfolding place record_initial_order_state transition_order_execution flush
  place_fails known new fails = rw (new, known, fails) (refl, refl)

  pub place_fills :
      {i : ℕ}
      → e.id ≡ some i
      → e.status ≡ created
      → must_fail risk quantity ≡ false
      → ((place risk quantity start).0 ≡ ok tt)
        × ((place risk quantity start).1.execution ≡ filled_execution risk e)
  unfolding place record_initial_order_state transition_order_execution flush
  place_fills known new fills = rw (new, known, fills) (refl, refl)

module _ (i : ℕ) where
  -- The call keeps the story of execution `i` whole.
  abbrev Told : {A : Type 0} → Step A → Type 0
  Told m = Keeps (IsHistory i) m

  Told-bind :
      {A B : Type 0} (m : Step A) (f : A → Step B)
      → Told m
      → ((a : A) → Told (f a))
      → Told (m >>= f)
  Told-bind m f km kf = Keeps-bind (IsHistory i) m f km kf

  Told-flush : Told (modify flush)
  Told-flush m h = IsHistory-flush i m h

  Told-transition :
      (to : OrderExecutionStatus) (reason : String) → Told (transition_order_execution to reason [])
  Told-transition to reason m h = transition-IsHistory i m to reason [] h

  commit_move-Told : (to : OrderExecutionStatus) (reason : String) → Told (commit_move to reason)
  unfolding commit_move
  commit_move-Told to reason =
      Told-bind (transition_order_execution to reason []) (λ _. modify flush)
        (Told-transition to reason) (λ _. Told-flush)

  -- A write of fields other than id and status keeps the story.
  Told-write :
      (f : Tracked → Tracked)
      → ((m : Tracked) → (f m).execution.id ≡ m.execution.id)
      → ((m : Tracked) → (f m).execution.status ≡ m.execution.status)
      → ((m : Tracked) → (f m).log ≡ m.log)
      → Told (modify f)
  Told-write f same_id same_status same_log m h = record {
    known = rw same_id h.known;
    chained = rw same_log h.chained;
    current = rw (same_log, same_status) h.current;
  }

  fail_order-Told : (risk : RiskCheckResult) → Told (fail_order risk)
  unfolding fail_order
  fail_order-Told risk =
      let reason = if is_rejected risk then "risk_rejected" else "zero_quantity" in
      Told-bind (modify (set_error (failure_message risk))) (λ _. commit_move failed reason)
        (Told-write (set_error (failure_message risk)) (λ m. refl) (λ m. refl) (λ m. refl))
        (λ _. commit_move-Told failed reason)

  fill_order-Told : Told fill_order
  unfolding fill_order
  fill_order-Told =
      let respond = λ (m : Tracked). set_response (place_order m.execution) m in
      let last : Step (Unit {0}) = commit_move filled "mock_order_filled" in
      let rest : Step (Unit {0}) = modify respond >> last in
      let sent : Step (Unit {0}) = commit_move submitted "mock_order_submitted" >> rest in
      Told-bind (commit_move risk_passed "risk_passed") (λ _. sent)
        (commit_move-Told risk_passed "risk_passed")
        (λ _.
          Told-bind (commit_move submitted "mock_order_submitted") (λ _. rest)
            (commit_move-Told submitted "mock_order_submitted")
            (λ _.
              Told-bind (modify respond) (λ _. last)
                (Told-write respond (λ m. refl) (λ m. refl) (λ m. refl))
                (λ _. commit_move-Told filled "mock_order_filled")))

  after_first-Told :
      (risk : RiskCheckResult) (quantity : Decimal)
      → Told (
          modify (set_risk_result risk)
          >> (if must_fail risk quantity then fail_order risk else fill_order))
  after_first-Told risk quantity =
      let rest : Step (Unit {0}) =
        if must_fail risk quantity then fail_order risk else fill_order in
      Told-bind (modify (set_risk_result risk)) (λ _. rest)
        (Told-write (set_risk_result risk) (λ m. refl) (λ m. refl) (λ m. refl))
        (λ _. elim (Bool-cases (must_fail risk quantity)) [
          | inl fails ↦ rw fails (fail_order-Told risk)
          | inr fills ↦ rw fills fill_order-Told
        ])

-- The log of a placed execution tells its whole story, if no row had its id before.
pub place-IsHistory :
    (risk : RiskCheckResult) (quantity : Decimal) (e : OrderExecution) (log : TransitionLog) (i : ℕ)
    → e.id ≡ some i
    → e.status ≡ created
    → history i log ≡ []
    → IsHistory i (place risk quantity (record { execution = e; log = log })).1
unfolding place
place-IsHistory risk quantity e log i known new fresh =
    let m : Tracked = record { execution = e; log = log } in
    let t = transition_row i none created "execution_created" [] m in
    let first = record_initial_allowed m "execution_created" known new in
    let told = record_initial-IsHistory i m "execution_created" known new fresh in
    rw first (
      after_first-Told i risk quantity (flush (add_row t m))
        (IsHistory-flush i (add_row t m) (rw first at told)))
