-- ===== src/Response/Tests.antt =====
-- An answer with sensitive keys at two depths, and what it does to an execution.
use crypto_copy_trading_plat.Prelude.{◌≡◌, ◌≢◌, refl, some, List, [], ◌∷◌}
use crypto_copy_trading_plat.Prelude.Int.{pos}
use crypto_copy_trading_plat.Prelude.Exec.{ok, err}
use crypto_copy_trading_plat.Prelude.Text.{Text, codes, text_eq, text_in}
use crypto_copy_trading_plat.Json.{
  Json, text, int, decimal, array, object, cons, nil, Fields, field, end,
}
use crypto_copy_trading_plat.Domain.{submitted, accepted, risk_passed, document}
use crypto_copy_trading_plat.OrderState.{Tracked}
use crypto_copy_trading_plat.OrderState.History.{IsHistory}
use crypto_copy_trading_plat.OrderState.Runs.{Action, move, run, run-IsHistory}
use crypto_copy_trading_plat.OrderState.{record_initial_order_state, set_status}
use crypto_copy_trading_plat.Samples.{uuid, tracked}
use crypto_copy_trading_plat.Response.{
  safe_value, safe_fields, exchange_rejected, not_awaiting, record_testnet_submission_accepted,
  record_testnet_submission_failure,
}
use crypto_copy_trading_plat.Response.Clean.{IsSafe, safe_value-IsSafe}
use crypto_copy_trading_plat.Response.Submission.{submission-IsHistory, IsSuccess, accepted_outcome}

abbrev inner : Json
inner =
    object (
      field (codes "API-Key") (text (codes "k"))
        (field (codes "price") (decimal (codes "1.5")) end))

abbrev answer : Fields
answer = field (codes "orderId") (int (pos 42)) (
    field (codes "Signature") (text (codes "s"))
      (field (codes "rows") (array (cons inner nil)) end))

answer_kept :
    safe_fields answer
    ≡ field (codes "orderId") (int (pos 42)) (
        field
          (codes "rows")
          (array (cons (object (field (codes "price") (text (codes "1.5")) end)) nil))
          end)
unfolding safe_value text_in text_eq
answer_kept = refl

safe_value-IsSafe_example :
    IsSafe (safe_value (object answer))
    × (IsSafe (object answer) → safe_value (object answer) ≡ object answer)
safe_value-IsSafe_example = safe_value-IsSafe (object answer)

-- Some text for a value that is no text.
abbrev show : Json → Text
show v = codes "42"

abbrev way : List Action
way =
    move risk_passed "testnet_risk_passed" []
    ∷ move submitted "testnet_order_submission_started" []
    ∷ []

abbrev awaiting : Tracked
awaiting = run way (record_initial_order_state "testnet_execution_created" tracked).1

told : IsHistory (uuid 4) awaiting
told = run-IsHistory (uuid 4) tracked "testnet_execution_created" way refl refl refl

submission-IsHistory_example :
    IsHistory (uuid 4) (record_testnet_submission_accepted show answer awaiting).1
    × IsHistory (uuid 4) (record_testnet_submission_failure (codes "timeout") awaiting).1
submission-IsHistory_example =
    submission-IsHistory show answer (codes "timeout") (uuid 4) awaiting told

abbrev sent : Tracked
sent = set_status submitted tracked

accepted_outcome_example :
    let p = record_testnet_submission_accepted show answer sent in
    let Good = IsSuccess sent.execution.exchange_name (safe_fields answer) in
    (Good
      → sent.execution.status ≡ submitted
      → (p.0 ≡ ok tt)
        × (p.1.execution.status ≡ accepted)
        × (p.1.execution.exchange_response ≡ some (document (object (safe_fields answer)))))
    × ((Good → ⊥) → p ≡ (err exchange_rejected, sent))
    × (Good → sent.execution.status ≢ submitted → p ≡ (err not_awaiting, sent))
accepted_outcome_example = accepted_outcome show answer (uuid 4) sent refl
