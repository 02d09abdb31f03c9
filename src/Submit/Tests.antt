-- ===== src/Submit/Tests.antt =====
-- Submissions under one client order id, one of them on an account whose key has no passphrase.
use crypto_copy_trading_plat.Prelude.{◌≤◌, ◌≡◌, ◌⊎◌, refl, true, false, [], ◌∷◌, length}
use crypto_copy_trading_plat.Prelude.Text.{codes, strip, text_eq, text_in, upper}
use crypto_copy_trading_plat.Prelude.Int.{◌*ℤ◌}
use crypto_copy_trading_plat.Decimal.{product_exceeds, round_digits}
use crypto_copy_trading_plat.Risk.{
  check_order_risk, get_or_create_risk_settings, is_below, is_above, notional_above,
}
use crypto_copy_trading_plat.Prelude.Exec.{ok, err}
use crypto_copy_trading_plat.Json.{text, field, end}
use crypto_copy_trading_plat.Domain.{okx, submitted}
use crypto_copy_trading_plat.Samples.{uuid}
use crypto_copy_trading_plat.Sandbox.{
  library, sandbox, submit_request, small_order, context, supply, sandbox-IsKept, sandbox-IsFresh,
  open_account,
}
use crypto_copy_trading_plat.RateLimit.{Windows, key_eq, acquire_in_memory, acquire_testnet_order}
use crypto_copy_trading_plat.Emergency.{new_orders_allowed}
use crypto_copy_trading_plat.Database.{get_owned_account, get_api_key_secret_metadata}
use crypto_copy_trading_plat.Approval.{
  approval_row, require_valid_testnet_order_window_authorization,
}
use crypto_copy_trading_plat.Gate.{has_testnet_endpoint}
use crypto_copy_trading_plat.OrderState.{
  record_initial_order_state, transition_order_execution, flush,
}
use crypto_copy_trading_plat.HttpClient.{put_param, sort_params}
use crypto_copy_trading_plat.Response.{record_testnet_submission_accepted}
use crypto_copy_trading_plat.Orders.{replace_first}
use crypto_copy_trading_plat.Submit.Request.{prepare_testnet_order_request}
use crypto_copy_trading_plat.Engine.{is_rejected}
use crypto_copy_trading_plat.Orders.{add_execution}
use crypto_copy_trading_plat.Orders.Kept.{IsKept}
use crypto_copy_trading_plat.Submit.{Context, risk_rejected}
use crypto_copy_trading_plat.Submit.Row.{
  Supply, new_submission, create_or_get_testnet_submission_execution,
}
use crypto_copy_trading_plat.Submit.Placed.{
  tables, risk_of, row_of, started_row, rejected_row, create_or_get_new,
}
use crypto_copy_trading_plat.Submit.Handler.{
  Env, World, document_reply, build_testnet_order_api_context, submit_testnet_order,
  after_submission, order_row, status_code,
}
use crypto_copy_trading_plat.Submit.Sending.{is_used}
use crypto_copy_trading_plat.Submit.Once.{
  Outcome, IsAuthorized, Call, submit_all, submit_all_once, submit-cases,
}
use crypto_copy_trading_plat.Submit.Kept.{create_or_get-IsKept}
use crypto_copy_trading_plat.Submit.Stranded.{submission_strands}

-- The exchange accepts every order under the number 77.
abbrev env : Env Windows
env = record {
  lib = library;
  show = λ v. codes "77";
  acquire = acquire_in_memory;
  exchange = λ p. document_reply (field (codes "orderId") (text (codes "77")) end);
  api_key = λ s. codes "key";
  api_secret = λ s. codes "secret";
  passphrase = λ s. codes "words";
  id_text = λ i. codes "account";
  now = 1500;
  ticks_now = 5000000;
  timestamp_ms = codes "1700000000000";
  iso_timestamp = codes "2023-11-14T22:13:20.000Z";
  adapters_enabled = true;
}

abbrev world : World Windows
world = record { db = sandbox; limits = []; sent = [] }

submit-cases_example :
    Outcome env supply
      (uuid 1)
      (codes "c-1")
      world
      (submit_testnet_order env supply (uuid 1) submit_request world).1
      (IsAuthorized env supply (uuid 1) submit_request world)
submit-cases_example = submit-cases env supply (uuid 1) submit_request world

abbrev call : Call Windows
call = record { env = env; supply = supply; user_id = uuid 1; request = submit_request }

-- The order is sent.
order_sent : length (submit_testnet_order env supply (uuid 1) submit_request world).1.sent ≡ 1
unfolding submit_testnet_order new_orders_allowed build_testnet_order_api_context get_owned_account
    get_or_create_risk_settings get_api_key_secret_metadata
    require_valid_testnet_order_window_authorization approval_row text_eq upper strip
    product_exceeds ◌*ℤ◌ round_digits create_or_get_testnet_submission_execution
    record_initial_order_state check_order_risk text_in is_below is_above notional_above
    transition_order_execution flush has_testnet_endpoint prepare_testnet_order_request put_param
    sort_params acquire_testnet_order acquire_in_memory record_testnet_submission_accepted
    replace_first key_eq
order_sent = refl

submit_all_once_example :
    let w = submit_all (call ∷ call ∷ []) world in
    (length w.sent ≤ 1) × (is_used (codes "c-1") world.db ≡ true → w.sent ≡ [])
submit_all_once_example = submit_all_once (codes "c-1") (call ∷ call ∷ []) world (refl, (refl, tt))

create_or_get_new_example :
    let risk = risk_of supply (uuid 1) context sandbox in
    let e = new_submission supply (uuid 1) context in
    let row = row_of supply (uuid 1) context sandbox in
    let r = create_or_get_testnet_submission_execution supply (uuid 1) context sandbox in
    (r.1 ≡ add_execution row (tables supply (uuid 1) context sandbox))
    × (((is_rejected risk ≡ true)
          × (r.0 ≡ err risk_rejected)
          × (row.execution ≡ rejected_row risk e))
        ⊎ ((is_rejected risk ≡ false)
            × (r.0 ≡ ok (record { execution = started_row risk e; idempotent_replay = false }))
            × (row.execution ≡ started_row risk e)))
create_or_get_new_example = create_or_get_new supply (uuid 1) context sandbox refl

create_or_get-IsKept_example :
    IsKept (create_or_get_testnet_submission_execution supply (uuid 1) context sandbox).1
create_or_get-IsKept_example =
    create_or_get-IsKept supply (uuid 1) context sandbox sandbox-IsFresh sandbox-IsKept

abbrev okx_context : Context
okx_context = record context {
  account = record open_account { exchange_name = okx };
  order = record small_order { exchange_name = okx };
}

okx_passes : is_rejected (risk_of supply (uuid 1) okx_context world.db) ≡ false
unfolding check_order_risk get_or_create_risk_settings text_in text_eq upper is_below is_above
    notional_above product_exceeds ◌*ℤ◌ round_digits
okx_passes = refl

abbrev later_supply : Supply
later_supply = record { signal_id = uuid 60; execution_id = uuid 61; settings_id = uuid 62 }

submission_strands_example :
    let r =
      after_submission env okx_context
        (create_or_get_testnet_submission_execution supply (uuid 1) okx_context world.db)
        world in
    let row = row_of supply (uuid 1) okx_context world.db in
    (status_code r.0 ≡ 404)
    × (r.1.sent ≡ [])
    × (r.1.db ≡ add_execution row (tables supply (uuid 1) okx_context world.db))
    × (row.execution.status ≡ submitted)
    × (after_submission env okx_context
          (create_or_get_testnet_submission_execution later_supply (uuid 1) okx_context r.1.db)
          r.1
        ≡ (order_row row.execution true okx_context.approval_id, r.1))
submission_strands_example =
    submission_strands env supply (uuid 1) okx_context later_supply world refl refl refl refl refl
      okx_passes refl
