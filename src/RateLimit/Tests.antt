-- ===== src/RateLimit/Tests.antt =====
-- The limits of the test orders on concrete calls.
use crypto_copy_trading_plat.Prelude.{◌≡◌, refl, [], ◌∷◌, arith}
use crypto_copy_trading_plat.Prelude.Exec.{ok, err}
use crypto_copy_trading_plat.Prelude.Text.{codes, text_eq, text_in}
use crypto_copy_trading_plat.Domain.{binance}
use crypto_copy_trading_plat.RateLimit.{safety_name, exceeded, key_eq, acquire_in_memory}
use crypto_copy_trading_plat.RateLimit.Rules.{Call, order, orders}
use crypto_copy_trading_plat.RateLimit.Safety.{safety_limit}

abbrev first : Call
first = record { exchange = binance; account_id = codes "a1"; path = codes "/order"; now = 5000000 }

abbrev earlier : Call
earlier = record first { now = 3999999 }

abbrev other : Call
other = record first { account_id = codes "a2"; now = 5500000 }

passes : (order first (orders (earlier ∷ []) [])).0 ≡ ok tt
unfolding order orders text_eq text_in acquire_in_memory key_eq
passes = refl

safety_limit_example :
    (order
      (record first { now = 5900000 })
      (orders (other ∷ []) (order first (orders (earlier ∷ []) [])).1)).0
    ≡ err (exceeded safety_name 1)
safety_limit_example =
    safety_limit (earlier ∷ []) (other ∷ []) first 5900000 (omega arith, tt) (omega arith) passes
