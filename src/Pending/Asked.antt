-- ===== src/Pending/Asked.antt =====
-- An order is looked up under the id under which it was sent.
use crypto_copy_trading_plat.Prelude.{◌≡◌, Option, none, some}
use crypto_copy_trading_plat.Prelude.Text.{Text, codes}
use crypto_copy_trading_plat.Prelude.Exec.{Result, ok}
use crypto_copy_trading_plat.Domain.{ExchangeName, binance, bybit, okx, mock}
use crypto_copy_trading_plat.HttpClient.{Params, Library, PreparedRequest, get_param}
use crypto_copy_trading_plat.Submit.{OrderInput}
use crypto_copy_trading_plat.Submit.Request.{PrepareError}

abbrev in_body : Text → Option Params → Option Text
in_body k none = none
in_body k (some ps) = get_param k ps

-- Where each exchange reads the client's id of a new order, and of a look-up.
abbrev pub order_id_sent : ExchangeName → PreparedRequest → Option Text
order_id_sent binance r = get_param (codes "newClientOrderId") r.params
order_id_sent bybit r = in_body (codes "orderLinkId") r.body
order_id_sent okx r = in_body (codes "clOrdId") r.body
order_id_sent mock r = none

abbrev pub order_id_asked : ExchangeName → PreparedRequest → Option Text
order_id_asked binance r = get_param (codes "origClientOrderId") r.params
order_id_asked bybit r = get_param (codes "orderLinkId") r.params
order_id_asked okx r = get_param (codes "clOrdId") r.params
order_id_asked mock r = none

module _ (lib : Library) (o : OrderInput) where
  -- The bodies and parameters that carry the id of the order under a key.
  abbrev Carries : Text → Result PrepareError Params → Type 0
  Carries k x = (ps : Params) → x ≡ ok ps → get_param k ps ≡ some o.client_order_id
