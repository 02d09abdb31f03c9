-- ===== src/Submit/Request.antt =====
-- backend/app/services/testnet_order_request.py: an order as each exchange wants it.
use crypto_copy_trading_plat.Prelude.{
  ℕ, Bool, false, ◌||◌, Option, none, some, List, [], ◌∷◌, ◌++◌, ◌==◌, if◌then◌else◌,
}
use mathlib.Core.List.{reverse}
use crypto_copy_trading_plat.Prelude.Text.{Text, codes, upper}
use crypto_copy_trading_plat.Prelude.Exec.{Result, ok, err, and_then}
use crypto_copy_trading_plat.Decimal.{Decimal}
use crypto_copy_trading_plat.Domain.{
  ExchangeName, binance, bybit, okx, mock, OrderSide, buy, sell, OrderType, market, limit,
}
use crypto_copy_trading_plat.HttpClient.{
  Params, Library, Credentials, SignedClient, PreparedRequest, ClientError, signed, okx_demo_signed,
  prepare_private_post_request,
}
use crypto_copy_trading_plat.Gate.{GateResult}
use crypto_copy_trading_plat.Submit.{OrderInput}

-- The errors of the preparation: `TestnetOrderRequestBlockedError`, and the `ValueError`s.
pub data PrepareError : Type 0 where
  gate_not_approved price_required exchange_not_supported : PrepareError
  client_error : ClientError → PrepareError

abbrev pub side_text : OrderSide → Text
side_text buy = codes "BUY"
side_text sell = codes "SELL"

abbrev pub type_text : OrderType → Text
type_text market = codes "MARKET"
type_text limit = codes "LIMIT"

-- `_title_side`
abbrev pub title_side : OrderSide → Text
title_side buy = codes "Buy"
title_side sell = codes "Sell"

-- `_title_order_type`
abbrev pub title_order_type : OrderType → Text
title_order_type market = codes "Market"
title_order_type limit = codes "Limit"

-- `side.value.lower()` and `order_type.value.lower()`
abbrev pub lower_side : OrderSide → Text
lower_side buy = codes "buy"
lower_side sell = codes "sell"

abbrev pub lower_type : OrderType → Text
lower_type market = codes "market"
lower_type limit = codes "limit"

unfoldable pub has_code : ℕ → Text → Bool
has_code c [] = false
has_code c (d ∷ s) = d == c || has_code c s

-- The text behind a prefix.
drop_prefix : Text → Text → Option Text
drop_prefix [] s = some s
drop_prefix (a ∷ p) [] = none
drop_prefix (a ∷ p) (b ∷ s) = let rest = drop_prefix p s in if a == b then rest else none

-- The pair of a symbol with no dash, by what stands before its suffix `USDT`; both texts are
-- reversed.
pair_text : Text → Option Text → Text
pair_text s none = s
pair_text s (some base) = reverse base ++ codes "-USDT"

-- `_okx_symbol`
unfoldable pub okx_symbol : Text → Text
unfolding has_code drop_prefix pair_text upper
okx_symbol symbol =
    let s = upper symbol in
    if has_code b'-' s then s else pair_text s (drop_prefix (codes "TDSU") (reverse s))

module _ (lib : Library) where
  -- The price of a limit order under its key, none of a market order.
  unfoldable pub price_params :
      List (Text × Text) → Text → OrderType → Option Decimal → Result PrepareError Params
  price_params extra key market price = ok []
  price_params extra key limit none = err price_required
  price_params extra key limit (some p) = ok (extra ++ (key, lib.format_decimal p) ∷ [])

  -- `_binance_order_params`
  unfoldable pub binance_order_params : OrderInput → Result PrepareError Params
  unfolding price_params upper
  binance_order_params o =
      and_then
        (price_params ((codes "timeInForce", codes "GTC") ∷ []) (codes "price") o.order_type
          o.price)
        λ last. ok (
          (codes "symbol", upper o.symbol)
          ∷ (codes "side", side_text o.side)
          ∷ (codes "type", type_text o.order_type)
          ∷ (codes "quantity", lib.format_decimal o.quantity)
          ∷ (codes "newClientOrderId", o.client_order_id)
          ∷ last)

  -- `_bybit_order_body`
  unfoldable pub bybit_order_body : OrderInput → Result PrepareError Params
  unfolding price_params upper
  bybit_order_body o = and_then (price_params [] (codes "price") o.order_type o.price) λ last. ok (
      (codes "category", codes "spot")
      ∷ (codes "symbol", upper o.symbol)
      ∷ (codes "side", title_side o.side)
      ∷ (codes "orderType", title_order_type o.order_type)
      ∷ (codes "qty", lib.format_decimal o.quantity)
      ∷ (codes "orderLinkId", o.client_order_id)
      ∷ last)

  -- `_okx_order_body`
  unfoldable pub okx_order_body : OrderInput → Result PrepareError Params
  unfolding price_params okx_symbol
  okx_order_body o = and_then (price_params [] (codes "px") o.order_type o.price) λ last. ok (
      (codes "instId", okx_symbol o.symbol)
      ∷ (codes "tdMode", codes "cash")
      ∷ (codes "side", lower_side o.side)
      ∷ (codes "ordType", lower_type o.order_type)
      ∷ (codes "sz", lib.format_decimal o.quantity)
      ∷ (codes "clOrdId", o.client_order_id)
      ∷ last)

  -- An error of the client among those of the preparation.
  abbrev pub of_client : Result ClientError PreparedRequest → Result PrepareError PreparedRequest
  of_client (ok r) = ok r
  of_client (err e) = err (client_error e)

  -- The request for the order's exchange, with the client's own exchange and settings.
  unfoldable pub prepare_order :
      ExchangeName → OrderInput → SignedClient → Credentials → Result PrepareError PreparedRequest
  unfolding binance_order_params bybit_order_body okx_order_body prepare_private_post_request
  prepare_order binance o client credentials = and_then (binance_order_params o) λ params.
      of_client (
        prepare_private_post_request lib client (codes "/api/v3/order") credentials params none
          signed)
  prepare_order bybit o client credentials = and_then (bybit_order_body o) λ body. of_client (
      prepare_private_post_request lib client (codes "/v5/order/create") credentials [] (some body)
        signed)
  prepare_order okx o client credentials = and_then (okx_order_body o) λ body. of_client (
      prepare_private_post_request lib client (codes "/api/v5/trade/order") credentials []
        (some body) okx_demo_signed)
  prepare_order mock o client credentials = err exchange_not_supported

  unfoldable pub prepare_testnet_order_request :
      OrderInput → GateResult → SignedClient → Credentials → Result PrepareError PreparedRequest
  unfolding prepare_order
  prepare_testnet_order_request o gate client credentials =
      if gate.approved
      then prepare_order o.exchange_name o client credentials
      else err gate_not_approved
