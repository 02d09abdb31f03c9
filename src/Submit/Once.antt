-- ===== src/Submit/Once.antt =====
-- An order is put on the wire only behind every check, and at most once under its client order id.
use crypto_copy_trading_plat.Prelude.{
  ℕ, suc, ◌≤◌, ◌≡◌, refl, sym, ap, ◌∙◌, Bool, true, false, none, some, List, [], ◌∷◌, ◌⊎◌, inl, inr,
  find?, arith, Bool-cases, Option-cases, All, length, length-append,
}
use mathlib.Core.Path.{subst}
use crypto_copy_trading_plat.Prelude.Text.{Text, text_eq_refl}
use crypto_copy_trading_plat.Prelude.Exec.{Result, ok, err, Result-cases, Returns-ok}
use crypto_copy_trading_plat.Domain.{OrderExecution, client_id_eq, client_id_text}
use crypto_copy_trading_plat.Database.{Database}
use crypto_copy_trading_plat.HttpClient.{PreparedRequest}
use crypto_copy_trading_plat.Engine.{is_rejected}
use crypto_copy_trading_plat.Gate.{is_some}
use crypto_copy_trading_plat.Emergency.{new_orders_allowed}
use crypto_copy_trading_plat.Orders.Known.{is_known, is_known-append}
use crypto_copy_trading_plat.Submit.{SubmitRequest, Context, SubmitError, Submission}
use crypto_copy_trading_plat.Submit.Row.{
  Supply, has_client_id, new_submission, create_or_get_testnet_submission_execution,
  create_or_replay, is_own,
}
use crypto_copy_trading_plat.Submit.Placed.{create_or_get_new, tables, risk_of, started_row}
use crypto_copy_trading_plat.Submit.Handler.{
  Env, World, send_order, after_submission, after_context, testnet_base_url,
  build_testnet_order_api_context, submit_testnet_order,
}
use crypto_copy_trading_plat.Submit.Covered.{IsContext, build-IsContext}
use crypto_copy_trading_plat.Submit.Sending.{is_used, Sends, IsWithin, IsPrepared, send-cases}

module _ {S : Type 0} (env : Env S) (c : Context) (w : World S)
    (x : Result SubmitError Submission × Database) where
  after_refusal :
      (e : SubmitError) → x.0 ≡ err e → (after_submission env c x w).1 ≡ record w { db = x.1 }
  unfolding after_submission
  after_refusal e h = rw h refl

  after_replay :
      (e : OrderExecution)
      → x.0 ≡ ok (record { execution = e; idempotent_replay = true })
      → (after_submission env c x w).1 ≡ record w { db = x.1 }
  unfolding after_submission
  after_replay e h = rw h refl

  pub after_new :
      (e : OrderExecution)
      → x.0 ≡ ok (record { execution = e; idempotent_replay = false })
      → after_submission env c x w
        ≡ send_order env (testnet_base_url c.account.exchange_name) c e (record w { db = x.1 })
  unfolding after_submission
  after_new e h = rw h refl

module _ {S : Type 0} (env : Env S) (supply : Supply) (user : ℕ) where
  -- A call that sends nothing keeps what is in use; a call that sends has a new row for it.
  abbrev pub Outcome : Text → World S → World S → (PreparedRequest → Type 0) → Type 0
  Outcome t w w' P =
      ((w'.sent ≡ w.sent) × (is_used t w.db ≡ true → is_used t w'.db ≡ true))
      ⊎ ((p : PreparedRequest) × (is_used t w.db ≡ false) × P p × Sends env t p w w')

  found-Quiet :
      (c : Context) (w : World S) (e : OrderExecution)
      → let t = c.order.client_order_id in
        let w' =
          (after_submission env c
            (create_or_get_testnet_submission_execution supply user c w.db)
            w).1 in
        find? (has_client_id t) w.db.executions ≡ some e
        → (w'.sent ≡ w.sent) × (is_used t w.db ≡ true → is_used t w'.db ≡ true)
  unfolding create_or_get_testnet_submission_execution create_or_replay after_submission
  found-Quiet c w e found = elim (Bool-cases (is_own user c e)) [
    | inl own ↦ rw (found, own) (refl, λ h. ap is_some found)
    | inr other ↦ rw (found, other) (refl, λ h. ap is_some found)
  ]

  -- A row under the client order id of the context has that id.
  started_fits :
      (c : Context) (db : Database)
      → let e = started_row (risk_of supply user c db) (new_submission supply user c) in
        has_client_id c.order.client_order_id e ≡ true
  unfolding new_submission client_id_eq client_id_text
  started_fits c db = text_eq_refl c.order.client_order_id

  abbrev SubmissionOutcome : Context → World S → Type 0
  SubmissionOutcome c w =
      let w' =
        (after_submission env c (create_or_get_testnet_submission_execution supply user c w.db)
          w).1 in
      Outcome c.order.client_order_id w w' λ p.
        (is_rejected (risk_of supply user c w.db) ≡ false) × IsPrepared env c p × IsWithin env c w p

  new-cases :
      (c : Context) (w : World S)
      → find? (has_client_id c.order.client_order_id) w.db.executions ≡ none
      → SubmissionOutcome c w
  new-cases c w new =
      let t = c.order.client_order_id in
      let x = create_or_get_testnet_submission_execution supply user c w.db in
      let (tabled, ends) = create_or_get_new supply user c w.db new in
      elim ends [
        | inl (rejects, refuses, row) ↦
            inl (rw (after_refusal env c w x _ refuses) (refl, λ used. cc (rw new at used)))
        | inr (passes, starts, row) ↦
            let e = started_row (risk_of supply user c w.db) (new_submission supply user c) in
            let fits : has_client_id t e ≡ true = started_fits c w.db in
            let used : is_used t x.1 ≡ true =
              rw (tabled, row)
                (is_known-append (has_client_id t) (tables supply user c w.db).executions e fits) in
            let unused : is_used t w.db ≡ false = rw new refl in
            rw (after_new env c w x e starts)
              (elim (send-cases env t (testnet_base_url c.account.exchange_name) c e
                (record w { db = x.1 }) refl fits used) [
                  | inl (quiet, known) ↦ inl (quiet, λ h. known)
                  | inr (p, prepared, within, sends) ↦
                      inr (p, unused, (passes, prepared, within), sends)
                ])
      ]

  submission-cases : (c : Context) (w : World S) → SubmissionOutcome c w
  submission-cases c w =
      let t = c.order.client_order_id in
      elim (Option-cases (find? (has_client_id t) w.db.executions)) [
        | inl new ↦ new-cases c w new
        | inr (e, found) ↦ inl (found-Quiet c w e found)
      ]

-- What allows a request to be sent: trading is not stopped, the caller owns an account behind every
-- check of the gate with a recorded approval that covers the order, the order is new and passes the
-- risk check, the rate limits have room, and the request is the one prepared for the order.
pub record IsAuthorized {S : Type 0} (env : Env S) (supply : Supply) (user : ℕ) (r : SubmitRequest)
    (w : World S) (p : PreparedRequest) : Type 0 where
  pub running : new_orders_allowed w.db ≡ true
  pub context : Context
  pub covered : IsContext env supply.settings_id user r w.db context
  pub passes :
      is_rejected (
        risk_of supply user context
          (build_testnet_order_api_context env supply.settings_id user r w.db).1)
      ≡ false
  pub prepared : IsPrepared env context p
  pub within : IsWithin env context w p
  pub new : is_used r.client_order_id w.db ≡ false

is_used_at :
    (t u : Text) (es es' : List OrderExecution) (b : Bool)
    → t ≡ u
    → es ≡ es'
    → is_known (has_client_id t) es ≡ b
    → is_known (has_client_id u) es' ≡ b
is_used_at t u es es' b same rows h =
    subst (λ v. is_known (has_client_id v) es' ≡ b) same
      (subst (λ l. is_known (has_client_id t) l ≡ b) rows h)

module _ {S : Type 0} (env : Env S) (supply : Supply) (user : ℕ) (r : SubmitRequest) where
  abbrev Authorized : World S → PreparedRequest → Type 0
  Authorized w p = IsAuthorized env supply user r w p

  after_covered :
      (w : World S) (c : Context) (x : Result SubmitError Context × Database)
      → x.0 ≡ ok c
      → after_context env supply user x w
        ≡ after_submission env c
            (create_or_get_testnet_submission_execution supply user c x.1)
            (record w { db = x.1 })
  unfolding after_context
  after_covered w c x h = rw h refl

  after_uncovered :
      (w : World S) (e : SubmitError) (x : Result SubmitError Context × Database)
      → x.0 ≡ err e
      → (after_context env supply user x w).1 ≡ record w { db = x.1 }
  unfolding after_context
  after_uncovered w e x h = rw h refl

  abbrev ContextResult : World S → Type 0
  ContextResult w =
      let x = build_testnet_order_api_context env supply.settings_id user r w.db in
      Outcome env supply user r.client_order_id w (after_context env supply user x w).1
        (Authorized w)

  covered-cases :
      (w : World S) (c : Context)
      → new_orders_allowed w.db ≡ true
      → (build_testnet_order_api_context env supply.settings_id user r w.db).0 ≡ ok c
      → ContextResult w
  covered-cases w c running built =
      let x = build_testnet_order_api_context env supply.settings_id user r w.db in
      let (returns, rows, log) = build-IsContext env supply.settings_id user r w.db in
      let covered = Returns-ok (IsContext env supply.settings_id user r w.db) x.0 c returns built in
      let w1 : World S = record w { db = x.1 } in
      let id : c.order.client_order_id ≡ r.client_order_id =
        ap (λ o. o.client_order_id) covered.order in
      let t = c.order.client_order_id in
      let u = r.client_order_id in
      rw (after_covered w c x built) (elim (submission-cases env supply user c w1) [
        | inl (quiet, keeps) ↦ inl (
          quiet,
          λ used.
              is_used_at t u _ _ true id refl (
                keeps
                  (is_used_at u t w.db.executions x.1.executions true (sym id) (sym rows) used)),
        )
        | inr (p, unused, (passes, prepared, within), (sends, used)) ↦
            let new : is_used r.client_order_id w.db ≡ false =
              is_used_at t u x.1.executions w.db.executions false id rows unused in
            inr (
              p,
              new,
              record {
                running = running;
                context = c;
                covered = covered;
                passes = passes;
                prepared = prepared;
                within = within;
                new = new;
              },
              (sends, is_used_at t u _ _ true id refl used),
            )
      ])

  context-cases : (w : World S) → new_orders_allowed w.db ≡ true → ContextResult w
  context-cases w running =
      let x = build_testnet_order_api_context env supply.settings_id user r w.db in
      let (returns, rows, log) = build-IsContext env supply.settings_id user r w.db in
      elim (Result-cases x.0) [
        | inr (c, built) ↦ covered-cases w c running built
        | inl (e, refuses) ↦ inl (rw (after_uncovered w e x refuses) (refl, λ used. rw rows used))
      ]

  -- Every submission either sends nothing, and keeps its client order id in use if it was, or sends
  -- one request, which every check allows; its client order id was not in use then, and is now.
  pub submit-cases :
      (w : World S)
      → let w' = (submit_testnet_order env supply user r w).1 in
        Outcome env supply user r.client_order_id w w' (Authorized w)
  unfolding submit_testnet_order
  submit-cases w = elim (Bool-cases (new_orders_allowed w.db)) [
    | inr stopped ↦ rw stopped (inl (refl, λ h. h))
    | inl running ↦ rw running (context-cases w running)
  ]

-- One request to the handler, with what surrounds it.
pub record Call (S : Type 0) : Type 0 where
  pub env : Env S
  pub supply : Supply
  pub user_id : ℕ
  pub request : SubmitRequest

-- The handler on one request after the other, of any users.
unfoldable pub submit_all : {S : Type 0} → List (Call S) → World S → World S
unfolding submit_testnet_order
submit_all [] w = w
submit_all (call ∷ calls) w =
    submit_all calls (submit_testnet_order call.env call.supply call.user_id call.request w).1

abbrev pub HasClientId : {S : Type 0} → Text → Call S → Type 0
HasClientId t call = call.request.client_order_id ≡ t

module _ {S : Type 0} (t : Text) where
  call-cases :
      (call : Call S) (w : World S)
      → HasClientId t call
      → let w' = (submit_testnet_order call.env call.supply call.user_id call.request w).1 in
        Outcome call.env call.supply call.user_id t w w'
          (IsAuthorized call.env call.supply call.user_id call.request w)
  call-cases call w same =
      let w' = (submit_testnet_order call.env call.supply call.user_id call.request w).1 in
      subst
        (λ u.
          Outcome call.env call.supply call.user_id u w w'
            (IsAuthorized call.env call.supply call.user_id call.request w))
        same (submit-cases call.env call.supply call.user_id call.request w)

  submit_all_used :
      (calls : List (Call S)) (w : World S)
      → All (HasClientId t) calls
      → is_used t w.db ≡ true
      → (submit_all calls w).sent ≡ w.sent
  unfolding submit_all
  submit_all_used [] w same used = refl
  submit_all_used (call ∷ calls) w same used = elim (call-cases call w same.0) [
    | inl (quiet, keeps) ↦
        let w' = (submit_testnet_order call.env call.supply call.user_id call.request w).1 in
        submit_all_used calls w' same.1 (keeps used) ∙ quiet
    | inr (p, unused, authorized, sends) ↦ cc
  ]

  -- Any submissions under one client order id, of any users and whatever the exchange answers, put
  -- at most one request on the wire, and none where an execution has that id before.
  pub submit_all_once :
      (calls : List (Call S)) (w : World S)
      → All (HasClientId t) calls
      → (length (submit_all calls w).sent ≤ suc (length w.sent))
        × (is_used t w.db ≡ true → (submit_all calls w).sent ≡ w.sent)
  unfolding submit_all
  submit_all_once [] w same = (omega arith, λ used. refl)
  submit_all_once (call ∷ calls) w same =
      let w' = (submit_testnet_order call.env call.supply call.user_id call.request w).1 in
      (
        elim (call-cases call w same.0) [
          | inl (quiet, keeps) ↦ rw (← ap (λ l. length l) quiet) (submit_all_once calls w' same.1).0
          | inr (p, unused, authorized, (sends, used)) ↦
              rw (submit_all_used calls w' same.1 used, sends)
                (omega (arith, length-append w.sent (p ∷ [])))
        ],
        λ used. submit_all_used (call ∷ calls) w same used,
      )
