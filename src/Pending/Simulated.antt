-- ===== src/Pending/Simulated.antt =====
-- What keeps the orders and look-ups for OKX off the real market.
use crypto_copy_trading_plat.Prelude.{◌≡◌, some}
use crypto_copy_trading_plat.Prelude.Text.{codes}
use crypto_copy_trading_plat.Prelude.Exec.{Result, ok, err}
use crypto_copy_trading_plat.HttpClient.{Library, PreparedRequest, ClientError, get_param}
use crypto_copy_trading_plat.Submit.Request.{of_client}

-- The request carries the header of a simulated trade.
abbrev pub IsSimulated : PreparedRequest → Type 0
IsSimulated r = get_param (codes "x-simulated-trading") r.headers ≡ some (codes "1")

pub of_client_ok :
    (lib : Library) (x : Result ClientError PreparedRequest) (r : PreparedRequest)
    → of_client lib x ≡ ok r
    → x ≡ ok r
of_client_ok lib (ok a) r h = cc h
of_client_ok lib (err e) r h = cc h
