-- ===== src/Approval/Tests.antt =====
-- An approval of a test account, and an order under it.
use crypto_copy_trading_plat.Prelude.{◌≡◌, ◌↔◌, refl, false, some}
use crypto_copy_trading_plat.Prelude.Exec.{ok}
use crypto_copy_trading_plat.Prelude.Text.{codes, text_eq}
use crypto_copy_trading_plat.Domain.{buy}
use crypto_copy_trading_plat.Samples.{uuid, units, btc, database, test_account}
use crypto_copy_trading_plat.Database.{get_api_key_secret_metadata, find_risk_settings}
use crypto_copy_trading_plat.Gate.{has_testnet_endpoint}
use crypto_copy_trading_plat.Approval.{
  admin, approval_ack, ApprovalRequest, approval_row, approve_account, OrderRequest,
  require_valid_testnet_order_window_authorization,
}
use crypto_copy_trading_plat.Approval.Window.{IsCovered}
use crypto_copy_trading_plat.Approval.Grant.{approve_authorizes}

abbrev request : ApprovalRequest
request = record {
  user_role = admin;
  symbol = btc;
  side = buy;
  max_quantity = units 2;
  max_notional = units 40;
  duration_minutes = 10;
  acknowledgement = approval_ack;
}

abbrev order : OrderRequest
order = record {
  symbol = codes " btcusdt";
  side = buy;
  quantity = units 2;
  price = some (units 20);
}

approved :
    (approve_account (uuid 30) 1000 (uuid 1) request false test_account database).0
    ≡ ok (approval_row (uuid 30) 1000 (uuid 1) request test_account)
unfolding approve_account text_eq has_testnet_endpoint find_risk_settings
    get_api_key_secret_metadata
approved = refl

approve_authorizes_example :
    (require_valid_testnet_order_window_authorization
        (uuid 1)
        (uuid 8)
        order
        1600
        (approve_account (uuid 30) 1000 (uuid 1) request false test_account database).1
      ≡ ok (uuid 30))
    ↔ IsCovered request 1000 order 1600
approve_authorizes_example =
    approve_authorizes (uuid 30) 1000 (uuid 1) request false test_account database order 1600 tt
      approved
