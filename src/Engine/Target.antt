-- ===== src/Engine/Target.antt =====
-- A signal for a target position, from the risk check to the position that the fill leaves.
use crypto_copy_trading_plat.Prelude.{
  ℕ, ◌≡◌, refl, true, false, some, none, find?, arith, Option-cases, inl, inr,
}
use crypto_copy_trading_plat.Prelude.Int.{◌-ℤ◌, magnitude, pos}
use crypto_copy_trading_plat.Decimal.{Decimal}
use crypto_copy_trading_plat.Decimal.Laws.{Fits, sub-exact, abs-exact}
use crypto_copy_trading_plat.Prelude.Text.{Text}
use crypto_copy_trading_plat.Domain.{
  RiskCheckResult, OrderSide, client_id_eq, ExchangeAccount, TradingSignal, OrderExecution,
}
use crypto_copy_trading_plat.Database.{Database}
use crypto_copy_trading_plat.Risk.{get_or_create_risk_settings}
use crypto_copy_trading_plat.Position.{calculate_delta, delta_side, get_or_create_position}
use crypto_copy_trading_plat.Position.Fills.{
  held, delta_fill_reaches, get_or_create-held, apply_fill-get_or_create,
}
use crypto_copy_trading_plat.Engine.{
  Supply, side_or, is_execution_of, new_execution, must_fail, execute_new, execute_owned,
  resolve_side_and_quantity,
}
use crypto_copy_trading_plat.Engine.Outcome.{execute_new-Saved, risk_of}

sideless_zero : (d : Decimal) → delta_side d ≡ none → magnitude d ≡ 0
unfolding delta_side
sideless_zero d h = ground arith

zero_fails : (risk : RiskCheckResult) → must_fail risk (pos 0) ≡ true
unfolding must_fail
zero_fails risk = ground arith

-- Something is traded only where the delta has a side.
traded_side :
    (symbol : Text) (current target : Decimal) (risk : RiskCheckResult)
    → Fits (target -ℤ current)
    → must_fail risk (calculate_delta symbol current target).delta_quantity ≡ false
    → (s : OrderSide) × ((calculate_delta symbol current target).side ≡ some s)
unfolding calculate_delta
traded_side symbol current target risk fits h =
    let exact = sub-exact target current fits in
    let size = abs-exact (target -ℤ current) fits in
    elim (Option-cases (delta_side (target -ℤ current))) [
      | inl sideless ↦
          cc (rw (exact, size, sideless_zero (target -ℤ current) sideless) at h, zero_fails risk)
      | inr (s, e) ↦ (s, rw exact e)
    ]

get_or_create-positions :
    (id user account : ℕ) (db : Database)
    → (get_or_create_risk_settings id user account db).1.positions ≡ db.positions
unfolding get_or_create_risk_settings
get_or_create-positions id user account db = ground arith

-- The execution that a signal for target position `target` makes, where it has no execution yet.
abbrev pub target_execution :
    Supply → TradingSignal → ExchangeAccount → Decimal → Database → OrderExecution
target_execution supply signal account target db =
    let delta =
      calculate_delta signal.symbol (held signal.user_id account.id signal.symbol db.positions)
        target in
    new_execution supply.execution_id signal.user_id signal account (side_or delta.side signal.side)
      delta.delta_quantity

-- The tables when the execution is made: the position is there.
abbrev pub with_position : TradingSignal → ExchangeAccount → Database → Database
with_position signal account db = record db {
  positions = (get_or_create_position signal.user_id account.id signal.symbol db.positions).1;
}

resolve_target :
    (supply : Supply) (signal : TradingSignal) (account : ExchangeAccount) (target : Decimal)
    (db : Database)
    → signal.target_position_quantity ≡ some target
    → let e = target_execution supply signal account target db in
      resolve_side_and_quantity signal account db.positions
      ≡ some (e.side, e.quantity, (with_position signal account db).positions)
unfolding resolve_side_and_quantity new_execution calculate_delta
resolve_target supply signal account target db wants =
    rw (wants, get_or_create-held signal.user_id account.id signal.symbol db.positions) refl

execute_owned_target_new :
    (supply : Supply) (signal : TradingSignal) (account : ExchangeAccount) (target : Decimal)
    (db : Database)
    → signal.target_position_quantity ≡ some target
    → find? (is_execution_of signal.id account.id) db.executions ≡ none
    → execute_owned supply signal.user_id signal account db
      ≡ execute_new supply account
          (target_execution supply signal account target db)
          (with_position signal account db)
unfolding execute_owned
execute_owned_target_new supply signal account target db wants missing =
    rw (execute_owned, missing, resolve_target supply signal account target db wants) refl

module _ (supply : Supply) (signal : TradingSignal) (account : ExchangeAccount) (target : Decimal)
    (db : Database) where
  -- A signal for a target position, executed for its owner with no execution of it on the account
  -- before, leaves the account holding exactly the target, unless the order fails: if target and
  -- difference have at most 28 digits and the client order id is not taken.
  pub execute_owned-target :
      signal.target_position_quantity ≡ some target
      → find? (is_execution_of signal.id account.id) db.executions ≡ none
      → Fits target
      → Fits (target -ℤ held signal.user_id account.id signal.symbol db.positions)
      → let e = target_execution supply signal account target db in
        find? (λ x. client_id_eq x.client_order_id e.client_order_id) db.executions ≡ none
        → must_fail (risk_of supply account e (with_position signal account db)) e.quantity ≡ false
        → held signal.user_id account.id signal.symbol
            (execute_owned supply signal.user_id signal account db).1.positions
          ≡ target
  unfolding new_execution side_or traded_side
  execute_owned-target wants missing fits' fits free trades =
      let user = signal.user_id in
      let e = target_execution supply signal account target db in
      let made = with_position signal account db in
      let current = held user account.id signal.symbol db.positions in
      let s = execute_new-Saved supply account e made refl refl free in
      let (side, sided) =
        traded_side signal.symbol current target (risk_of supply account e made) fits trades in
      let rows = (s.fills trades).2 in
      let reached =
        (delta_fill_reaches user account.id signal.symbol target db.positions fits' fits).0 side
          sided in
      rw
        (
          execute_owned_target_new supply signal account target db wants missing,
          rows,
          get_or_create-positions,
          apply_fill-get_or_create,
          sided,
        )
        reached
