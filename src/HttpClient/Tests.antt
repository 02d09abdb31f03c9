-- ===== src/HttpClient/Tests.antt =====
-- Requests for two exchanges.
use crypto_copy_trading_plat.Prelude.{◌≡◌, refl, some, none, [], ◌∷◌}
use mathlib.Core.List.{Perm}
use crypto_copy_trading_plat.Prelude.Text.{codes, text_eq}
use crypto_copy_trading_plat.Sandbox.{library, credentials, client}
use crypto_copy_trading_plat.HttpClient.{Params, post, get_param, prepare_binance_request}
use crypto_copy_trading_plat.HttpClient.Signed.{without, IsSorted, IsStamped, binance_verifies}

abbrev order_params : Params
order_params = (codes "symbol", codes "BTCUSDT") ∷ (codes "side", codes "BUY") ∷ []

no_signature : get_param (codes "signature") order_params ≡ none
unfolding get_param text_eq
no_signature = refl

binance_verifies_example :
    let r =
      prepare_binance_request library client post
        (codes "/api/v3/order")
        credentials
        order_params in
    (sorted : Params) × Perm sorted (without (codes "signature") r.params)
    × IsSorted sorted
    × (get_param (codes "signature") r.params
        ≡ some (library.hmac_hex credentials.api_secret (library.urlencode sorted)))
    × IsStamped client order_params r.params
binance_verifies_example =
    binance_verifies library client post (codes "/api/v3/order") credentials order_params
      no_signature
