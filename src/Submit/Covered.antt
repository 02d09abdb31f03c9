-- ===== src/Submit/Covered.antt =====
-- What a context stands for: an account behind every check of the gate and an approval.
use crypto_copy_trading_plat.Prelude.{
  ℕ, ◌≡◌, refl, true, Option, none, some, List, Bool-cases, Option-cases, inl, inr,
}
use crypto_copy_trading_plat.Prelude.Exec.{Result, ok, err, Returns}
use crypto_copy_trading_plat.Domain.{ExchangeAccount, RiskSetting}
use crypto_copy_trading_plat.Database.{
  Database, ApiKeySecret, get_owned_account, get_api_key_secret_metadata, find_risk_settings,
}
use crypto_copy_trading_plat.Risk.{get_or_create_risk_settings}
use crypto_copy_trading_plat.Gate.{GateResult}
use crypto_copy_trading_plat.Approval.{
  WindowReason, require_valid_testnet_order_window_authorization,
}
use crypto_copy_trading_plat.Submit.{SubmitRequest, Context}
use crypto_copy_trading_plat.Submit.Handler.{
  Env, submission_gate, order_input, order_request, context_for, owned_context, context_of,
  build_testnet_order_api_context,
}

-- Making missing risk settings changes neither the executions nor their log.
pub get_or_create_keeps :
    (id user account : ℕ) (db : Database)
    → let db' = (get_or_create_risk_settings id user account db).1 in
      (db'.executions ≡ db.executions) × (db'.log ≡ db.log)
unfolding get_or_create_risk_settings
get_or_create_keeps id user account db = elim (Option-cases (find_risk_settings user account db)) [
  | inl missing ↦ rw missing (refl, refl)
  | inr (s, found) ↦ rw found (refl, refl)
]

module _ {S : Type 0} (env : Env S) (settings_id user : ℕ) (r : SubmitRequest) where
  abbrev pub risk_row : ℕ → Database → RiskSetting
  risk_row account db = (get_or_create_risk_settings settings_id user account db).0

  abbrev pub risk_tables : ℕ → Database → Database
  risk_tables account db = (get_or_create_risk_settings settings_id user account db).1

  -- The gate of an account on the tables of the call.
  abbrev pub gate_of : ExchangeAccount → Database → GateResult
  gate_of account db =
      submission_gate account (risk_row account.id db)
        (get_api_key_secret_metadata user account.id (risk_tables account.id db))
        env.adapters_enabled r

  -- The caller owns the account, its gate approves the order, and a recorded approval covers it.
  pub record IsContext (db : Database) (c : Context) : Type 0 where
    pub owned : get_owned_account user r.exchange_account_id db ≡ some c.account
    pub order : c.order ≡ order_input r c.account
    pub gate : (gate_of c.account db).approved ≡ true
    pub authorized :
        require_valid_testnet_order_window_authorization user c.account.id
          (order_request r)
          env.now
          (risk_tables c.account.id db)
        ≡ ok c.approval_id

  context_for-IsContext :
      (db : Database) (account : ExchangeAccount) (secret : Option ApiKeySecret)
      (a : Result (List WindowReason) ℕ) (checked : GateResult)
      → get_owned_account user r.exchange_account_id db ≡ some account
      → (gate_of account db).approved ≡ true
      → require_valid_testnet_order_window_authorization user account.id
          (order_request r)
          env.now
          (risk_tables account.id db)
        ≡ a
      → Returns (IsContext db) (context_for env account checked secret r a)
  unfolding context_for
  context_for-IsContext db account secret (err reasons) checked owned gate authorized = tt
  context_for-IsContext db account none (ok approval) checked owned gate authorized = tt
  context_for-IsContext db account (some s) (ok approval) checked owned gate authorized = record {
    owned = owned;
    order = refl;
    gate = gate;
    authorized = authorized;
  }

  -- A context is returned only for what the checks cover, and no execution changes.
  pub build-IsContext :
      (db : Database)
      → let x = build_testnet_order_api_context env settings_id user r db in
        Returns (IsContext db) x.0 × (x.1.executions ≡ db.executions) × (x.1.log ≡ db.log)
  unfolding build_testnet_order_api_context context_of owned_context
  build-IsContext db = elim (Option-cases (get_owned_account user r.exchange_account_id db)) [
    | inl missing ↦ rw missing (tt, refl, refl)
    | inr (account, owned) ↦
        let (rows, log) = get_or_create_keeps settings_id user account.id db in
        elim (Bool-cases (gate_of account db).approved) [
          | inl approved ↦
              rw (owned, approved)
                (
                  context_for-IsContext db account
                      (get_api_key_secret_metadata user account.id (risk_tables account.id db)) _ _
                      owned approved refl,
                  rows,
                  log,
                )
          | inr refused ↦ rw (owned, refused) (tt, rows, log)
        ]
  ]
