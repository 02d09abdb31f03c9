-- ===== src/Submit/Sending.antt =====
-- The stages of a submission behind its row: each sends nothing, or the one request of its context.
use crypto_copy_trading_plat.Prelude.{
  ◌≡◌, refl, Bool, true, Option, none, some, [], ◌∷◌, ◌++◌, ◌⊎◌, inl, inr,
}
use crypto_copy_trading_plat.Prelude.Text.{Text, codes}
use crypto_copy_trading_plat.Prelude.Exec.{Result, ok, err}
use crypto_copy_trading_plat.Domain.{OrderExecution}
use crypto_copy_trading_plat.Database.{Database}
use crypto_copy_trading_plat.OrderState.{Tracked}
use crypto_copy_trading_plat.Response.{
  SubmissionError, record_testnet_submission_failure, record_testnet_submission_accepted,
}
use crypto_copy_trading_plat.Response.Client.{failure_client, accepted_client}
use crypto_copy_trading_plat.HttpClient.{PreparedRequest}
use crypto_copy_trading_plat.RateLimit.{
  RateLimitError, exceeded, store_unavailable, not_configured, acquire_testnet_order,
}
use crypto_copy_trading_plat.Orders.{loaded}
use crypto_copy_trading_plat.Orders.Known.{is_known, is_known-replace_first}
use crypto_copy_trading_plat.Submit.{Context}
use crypto_copy_trading_plat.Submit.Request.{
  PrepareError, gate_not_approved, price_required, exchange_not_supported, client_error,
  prepare_testnet_order_request,
}
use crypto_copy_trading_plat.Submit.Row.{has_client_id}
use crypto_copy_trading_plat.Submit.Handler.{
  Env, World, Answer, exchange_failed, limits_unavailable, limit_exceeded, fail_submission,
  ExchangeReply, document_reply, request_failed, not_json, not_an_object, settle_acceptance,
  after_exchange, after_limits, after_prepare, send_order, testnet_base_url, same_row,
  signed_client,
}

-- Some row of the table has the client order id.
abbrev pub is_used : Text → Database → Bool
is_used t db = is_known (has_client_id t) db.executions

module _ {S : Type 0} (env : Env S) where
  -- The rate limits let the request of the context through.
  abbrev pub IsWithin : Context → World S → PreparedRequest → Type 0
  IsWithin c w p =
      (acquire_testnet_order env.acquire c.order.exchange_name (env.id_text c.account.id) p.path
        env.ticks_now w.limits).0
      ≡ ok tt

  -- The request of a context, by the client for its exchange.
  abbrev pub IsPrepared : Context → PreparedRequest → Type 0
  IsPrepared c p =
      (url : Text) × (testnet_base_url c.account.exchange_name ≡ some url)
      × (prepare_testnet_order_request env.lib c.order c.gate_result
            (signed_client env c.account.exchange_name url) c.credentials
          ≡ ok p)

module _ {S : Type 0} (env : Env S) (t : Text) where
  -- From `w` to `w'` nothing is sent, and the client order id is in use.
  abbrev pub Quiet : World S → World S → Type 0
  Quiet w w' = (w'.sent ≡ w.sent) × (is_used t w'.db ≡ true)

  abbrev pub Sends : PreparedRequest → World S → World S → Type 0
  Sends p w w' = (w'.sent ≡ w.sent ++ p ∷ []) × (is_used t w'.db ≡ true)

  fail-Quiet :
      (type : Text) (answer : Answer) (e : OrderExecution) (m : Tracked) (w : World S)
      → has_client_id t m.execution ≡ true
      → is_used t w.db ≡ true
      → Quiet w (fail_submission env type answer e m w).1
  unfolding fail_submission
  fail-Quiet type answer e m w fits used =
      let m' = (record_testnet_submission_failure type m).1 in
      (
        refl,
        is_known-replace_first (has_client_id t) (same_row e) m'.execution w.db.executions
            (rw (failure_client type m) fits) used,
      )

  settle-Quiet :
      {A : Type 0} (c : Context) (e : OrderExecution) (x : Result SubmissionError A × Tracked)
      (w : World S)
      → has_client_id t x.1.execution ≡ true
      → is_used t w.db ≡ true
      → Quiet w (settle_acceptance env c e x w).1
  unfolding settle_acceptance
  settle-Quiet c e (ok a, m) w fits used = (
    refl,
    is_known-replace_first (has_client_id t) (same_row e) m.execution w.db.executions fits used,
  )
  settle-Quiet c e (err x, m) w fits used =
      fail-Quiet (codes "exchange_request_failed") exchange_failed e m w fits used

  exchange-Quiet :
      (c : Context) (e : OrderExecution) (o : ExchangeReply) (w : World S)
      → has_client_id t e ≡ true
      → is_used t w.db ≡ true
      → Quiet w (after_exchange env c e o w).1
  unfolding after_exchange
  exchange-Quiet c e not_json w fits used = (refl, used)
  exchange-Quiet c e not_an_object w fits used = (refl, used)
  exchange-Quiet c e request_failed w fits used =
      fail-Quiet (codes "exchange_request_failed") exchange_failed e (loaded e w.db) w fits used
  exchange-Quiet c e (document_reply answer) w fits used =
      settle-Quiet c e (record_testnet_submission_accepted env.show answer (loaded e w.db)) w
        (rw (accepted_client env.show answer (loaded e w.db)) fits) used

  limits-cases :
      (c : Context) (e : OrderExecution) (p : PreparedRequest)
      (r : Result RateLimitError (Unit {0})) (w : World S)
      → has_client_id t e ≡ true
      → is_used t w.db ≡ true
      → let w' = (after_limits env c e p r w).1 in Quiet w w' ⊎ ((r ≡ ok tt) × Sends p w w')
  unfolding after_limits
  limits-cases c e p (ok tt) w fits used =
      inr
        (refl, exchange-Quiet c e (env.exchange p) (record w { sent = w.sent ++ p ∷ [] }) fits used)
  limits-cases c e p (err store_unavailable) w fits used = inl (
      fail-Quiet (codes "rate_limit_store_unavailable") limits_unavailable e (loaded e w.db) w fits
        used)
  limits-cases c e p (err (exceeded rule seconds)) w fits used =
      inl (fail-Quiet (codes "rate_limited") (limit_exceeded seconds) e (loaded e w.db) w fits used)
  limits-cases c e p (err not_configured) w fits used = inl (refl, used)

  prepare-cases :
      (c : Context) (e : OrderExecution) (x : Result PrepareError PreparedRequest) (w : World S)
      → has_client_id t e ≡ true
      → is_used t w.db ≡ true
      → let w' = (after_prepare env c e x w).1 in
        Quiet w w' ⊎ ((p : PreparedRequest) × (x ≡ ok p) × IsWithin env c w p × Sends p w w')
  unfolding after_prepare
  prepare-cases c e (err gate_not_approved) w fits used =
      inl
        (fail-Quiet (codes "exchange_request_failed") exchange_failed e (loaded e w.db) w fits used)
  prepare-cases c e (err price_required) w fits used = inl (refl, used)
  prepare-cases c e (err exchange_not_supported) w fits used = inl (refl, used)
  prepare-cases c e (err (client_error x)) w fits used = inl (refl, used)
  prepare-cases c e (ok p) w fits used =
      let a =
        acquire_testnet_order env.acquire c.order.exchange_name (env.id_text c.account.id) p.path
          env.ticks_now w.limits in
      elim (limits-cases c e p a.0 (record w { limits = a.1 }) fits used) [
        | inl quiet ↦ inl quiet
        | inr (within, sends) ↦ inr (p, refl, within, sends)
      ]

  pub send-cases :
      (url : Option Text) (c : Context) (e : OrderExecution) (w : World S)
      → testnet_base_url c.account.exchange_name ≡ url
      → has_client_id t e ≡ true
      → is_used t w.db ≡ true
      → let w' = (send_order env url c e w).1 in
        Quiet w w'
        ⊎ ((p : PreparedRequest) × IsPrepared env c p × IsWithin env c w p × Sends p w w')
  unfolding send_order
  send-cases none c e w at_url fits used = inl (refl, used)
  send-cases (some url) c e w at_url fits used =
      elim (prepare-cases c e
        (prepare_testnet_order_request env.lib c.order c.gate_result
          (signed_client env c.account.exchange_name url) c.credentials)
        w fits used) [
          | inl quiet ↦ inl quiet
          | inr (p, prepared, within, sends) ↦ inr (p, (url, at_url, prepared), within, sends)
        ]
