-- ===== src/Emergency/Tests.antt =====
-- The emergency stop on concrete tables.
use crypto_copy_trading_plat.Prelude.{◌≡◌, inl, refl, true, some}
use crypto_copy_trading_plat.Prelude.Text.{Text, codes}
use crypto_copy_trading_plat.Domain.{RiskDecision, ExchangeAccount}
use crypto_copy_trading_plat.Database.{Database, get_owned_account}
use crypto_copy_trading_plat.Samples.{uuid, database, mock_account, settings_on, order_of}
use crypto_copy_trading_plat.Risk.{check_order_risk}
use crypto_copy_trading_plat.Emergency.{clean_reason, disable_account, set_emergency_stop}
use crypto_copy_trading_plat.Emergency.Stop.{stop_rejects}

abbrev reason : Text
reason = codes "  market \n  halt "

reason_cleaned : clean_reason reason ≡ codes "market halt"
unfolding clean_reason
reason_cleaned = refl

abbrev stopped : Database
stopped = set_emergency_stop true (uuid 1) reason (uuid 20) (uuid 21) 100 database

abbrev account_off : ExchangeAccount
account_off = disable_account mock_account

account_found : get_owned_account (uuid 1) (uuid 7) stopped ≡ some account_off
unfolding get_owned_account set_emergency_stop
account_found = refl

stop_rejects_example :
    (check_order_risk account_off settings_on (order_of 5) true).decision ≡ RiskDecision.rejected
stop_rejects_example =
    stop_rejects (uuid 1) reason (uuid 20) (uuid 21) 100 database (uuid 1) (uuid 7) account_off
      settings_on (order_of 5) true (inl account_found)
