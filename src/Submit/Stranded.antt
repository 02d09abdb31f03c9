-- ===== src/Submit/Stranded.antt =====
-- Errors of the preparation of a request come when the row of the submission is committed already.
use crypto_copy_trading_plat.Prelude.{
  ℕ, ◌≡◌, refl, sym, ap, ◌∙◌, true, false, none, some, [], ◌∷◌, ◌++◌, arith, find?, inl, inr,
}
use crypto_copy_trading_plat.Domain.{
  okx, submitted, market, OrderExecution, RiskCheckResult, client_id_eq,
}
use crypto_copy_trading_plat.HttpClient.{
  passphrase_required, prepare_private_post_request, prepare_for, okx_request,
}
use crypto_copy_trading_plat.Engine.{is_rejected}
use crypto_copy_trading_plat.Database.{Database}
use crypto_copy_trading_plat.Database.Rows.{find?-append_none}
use crypto_copy_trading_plat.Risk.{get_or_create_risk_settings}
use crypto_copy_trading_plat.Prelude.Text.{text_eq_refl}
use crypto_copy_trading_plat.Orders.{add_execution}
use crypto_copy_trading_plat.Submit.{Context}
use crypto_copy_trading_plat.Submit.Request.{
  client_error, prepare_testnet_order_request, prepare_order, okx_order_body, price_params,
}
use crypto_copy_trading_plat.Submit.Row.{
  create_or_replay, is_own, Supply, has_client_id, new_submission,
  create_or_get_testnet_submission_execution,
}
use crypto_copy_trading_plat.Submit.Placed.{create_or_get_new, tables, risk_of, row_of, started_row}
use crypto_copy_trading_plat.Submit.Handler.{
  order_row, Env, World, invalid_request, status_code, testnet_base_url, send_order, after_prepare,
  after_submission,
}
use crypto_copy_trading_plat.Submit.Once.{after_new}

module _ (supply : Supply) (user : ℕ) (c : Context) (risk : RiskCheckResult) where
  abbrev started : OrderExecution
  started = started_row risk (new_submission supply user c)

  tables-executions : (db : Database) → (tables supply user c db).executions ≡ db.executions
  unfolding get_or_create_risk_settings
  tables-executions db = ground arith

  started-found :
      (db : Database)
      → find? (has_client_id c.order.client_order_id) db.executions ≡ none
      → find?
          (has_client_id c.order.client_order_id)
          ((tables supply user c db).executions ++ started ∷ [])
        ≡ some started
  unfolding new_submission client_id_eq
  started-found db new =
      find?-append_none (has_client_id c.order.client_order_id) (tables supply user c db).executions
        started (ap (find? (has_client_id c.order.client_order_id)) (tables-executions db) ∙ new)
        (text_eq_refl c.order.client_order_id)

  started-is_own : is_own user c started ≡ true
  unfolding new_submission
  started-is_own = ground arith

module _ {S : Type 0} (env : Env S) (supply : Supply) (user : ℕ) (c : Context) where
  send_strands :
      (w : World S) (e : OrderExecution)
      → c.account.exchange_name ≡ okx
      → c.order.exchange_name ≡ okx
      → c.order.order_type ≡ market
      → c.gate_result.approved ≡ true
      → c.credentials.passphrase ≡ none
      → send_order env (testnet_base_url c.account.exchange_name) c e w
        ≡ (invalid_request (client_error passphrase_required), w)
  unfolding send_order after_prepare prepare_testnet_order_request prepare_order okx_order_body
      price_params prepare_private_post_request prepare_for okx_request
  send_strands w e on_okx for_okx at_market approved missing =
      rw (on_okx, approved, for_okx, at_market, missing) refl

  -- A submission whose execution is in the table is answered with it.
  replay_again :
      (supply' : Supply) (w : World S) (e : OrderExecution)
      → find? (has_client_id c.order.client_order_id) w.db.executions ≡ some e
      → is_own user c e ≡ true
      → after_submission env c (create_or_get_testnet_submission_execution supply' user c w.db) w
        ≡ (order_row e true c.approval_id, w)
  unfolding after_submission create_or_get_testnet_submission_execution create_or_replay
  replay_again supply' w e found own = rw (found, own) refl

  -- A new market order on an OKX account whose stored key has no passphrase, which the risk check
  -- passes, is answered with 404 and sends nothing, but its execution stays in the table in
  -- `SUBMITTED`. The same submission after it is answered with that execution as a replay: it sends
  -- nothing either and changes no table.
  pub submission_strands :
      (supply' : Supply) (w : World S)
      → c.account.exchange_name ≡ okx
      → c.order.exchange_name ≡ okx
      → c.order.order_type ≡ market
      → c.gate_result.approved ≡ true
      → c.credentials.passphrase ≡ none
      → is_rejected (risk_of supply user c w.db) ≡ false
      → find? (has_client_id c.order.client_order_id) w.db.executions ≡ none
      → let r =
          after_submission env c
            (create_or_get_testnet_submission_execution supply user c w.db)
            w in
        let row = row_of supply user c w.db in
        (status_code r.0 ≡ 404)
        × (r.1.sent ≡ w.sent)
        × (r.1.db ≡ add_execution row (tables supply user c w.db))
        × (row.execution.status ≡ submitted)
        × (after_submission env c
              (create_or_get_testnet_submission_execution supply' user c r.1.db)
              r.1
            ≡ (order_row row.execution true c.approval_id, r.1))
  submission_strands supply' w on_okx for_okx at_market approved missing passes new =
      let x = create_or_get_testnet_submission_execution supply user c w.db in
      let e = started_row (risk_of supply user c w.db) (new_submission supply user c) in
      let w1 : World S = record w { db = x.1 } in
      let (tabled, ends) = create_or_get_new supply user c w.db new in
      elim ends [
        | inl (rejects, refuses, row) ↦ cc
        | inr (passes', starts, row) ↦
            let ends_so =
              after_new env c w x e starts
              ∙ send_strands w1 e on_okx for_okx at_market approved missing in
            let found : find? (has_client_id c.order.client_order_id) x.1.executions ≡ some e =
              ap (λ d. find? (has_client_id c.order.client_order_id) d.executions) tabled
              ∙ ap
                  (λ y.
                    find? (has_client_id c.order.client_order_id)
                      ((tables supply user c w.db).executions ++ y ∷ []))
                  row
              ∙ started-found supply user c (risk_of supply user c w.db) w.db new in
            rw ends_so (
              refl,
              refl,
              tabled,
              ap (λ y. y.status) row,
              replay_again supply' w1 e found
                    (started-is_own supply user c (risk_of supply user c w.db))
                  ∙ ap (λ y. (order_row y true c.approval_id, w1)) (sym row),
            )
      ]
