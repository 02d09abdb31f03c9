-- ===== src/HttpClient.antt =====
-- backend/app/exchanges/http_client.py: the requests that the signed client prepares, with their
-- signatures. Clock readings are arguments, as the texts that the client writes.
pub mod Signed
mod Tests
use crypto_copy_trading_plat.Prelude.{
  Bool, Option, none, some, List, [], ◌∷◌, ◌++◌, is_empty, if◌then◌else◌,
}
use crypto_copy_trading_plat.Prelude.Text.{Text, codes, text_eq}
use crypto_copy_trading_plat.Prelude.Exec.{Result, ok, err}
use crypto_copy_trading_plat.Decimal.{Decimal}
use crypto_copy_trading_plat.Domain.{ExchangeName, binance, bybit, okx, mock}
use crypto_copy_trading_plat.Risk.{text_lt}

-- A dictionary of texts, in the order in which its keys were added.
abbrev pub Params : Type 0
Params = List (Text × Text)

-- What the client calls of Python's library: `urlencode`, `json.dumps` with sorted keys, the
-- HMAC-SHA256 of a secret and a payload in two encodings, and `format(value.normalize(), "f")`.
pub record Library : Type 0 where
  pub urlencode : Params → Text
  pub json_dumps : Params → Text
  pub hmac_hex : Text → Text → Text
  pub hmac_base64 : Text → Text → Text
  pub format_decimal : Decimal → Text

-- `ExchangeCredentials`
pub record Credentials : Type 0 where
  pub api_key : Text
  pub api_secret : Text
  pub passphrase : Option Text

pub data SecurityType : Type 0 where
  signed okx_demo_signed : SecurityType

pub data Method : Type 0 where
  get post : Method

-- `PreparedExchangeRequest`
pub record PreparedRequest : Type 0 where
  pub method : Method
  pub url : Text
  pub path : Text
  pub params : Params
  pub headers : Params
  pub body : Option Params

-- `SignedExchangeHttpClient`, with what its two clocks read.
pub record SignedClient : Type 0 where
  pub exchange_name : ExchangeName
  pub rest_base_url : Text
  pub timestamp_ms : Text
  pub iso_timestamp : Text
  pub recv_window : Text

-- The `ValueError`s of the client.
pub data ClientError : Type 0 where
  passphrase_required client_not_supported : ClientError

abbrev pub method_text : Method → Text
method_text get = codes "GET"
method_text post = codes "POST"

-- `params[key] = value`
unfoldable pub put_param : Text → Text → Params → Params
put_param k v [] = (k, v) ∷ []
put_param k v ((j, x) ∷ ps) =
    let rest = put_param k v ps in if text_eq j k then (j, v) ∷ ps else (j, x) ∷ rest

-- `params.get(key)`
unfoldable pub get_param : Text → Params → Option Text
get_param k [] = none
get_param k ((j, x) ∷ ps) = if text_eq j k then some x else get_param k ps

-- `sorted(params.items())`: no two items have one key.
unfoldable pub insert_param : Text × Text → Params → Params
insert_param p [] = p ∷ []
insert_param p (q ∷ qs) =
    let rest = insert_param p qs in if text_lt p.0 q.0 then p ∷ q ∷ qs else q ∷ rest

unfoldable pub sort_params : Params → Params
unfolding insert_param text_lt
sort_params [] = []
sort_params (p ∷ ps) = insert_param p (sort_params ps)

module _ (lib : Library) (client : SignedClient) where
  -- `_canonical_query`
  unfoldable pub canonical_query : Params → Text
  unfolding sort_params
  canonical_query ps = lib.urlencode (sort_params ps)

  abbrev pub request_url : Text → Text
  request_url path = client.rest_base_url ++ path

  -- `dict(body or {}) if method == "POST" else None`
  abbrev pub request_body : Method → Option Params → Option Params
  request_body get body = none
  request_body post none = some []
  request_body post (some ps) = some ps

  -- `headers["Content-Type"] = "application/json"` where there is a body
  abbrev pub with_content_type : Option Params → Params → Params
  with_content_type none headers = headers
  with_content_type (some ps) headers =
      put_param (codes "Content-Type") (codes "application/json") headers

  unfoldable pub prepare_public_request : Text → Params → PreparedRequest
  prepare_public_request path params = record {
    method = get;
    url = request_url path;
    path = path;
    params = params;
    headers = [];
    body = none;
  }

  -- The parameters that the signature of a Binance request covers.
  unfoldable pub binance_params : Params → Params
  unfolding put_param
  binance_params params =
      put_param (codes "recvWindow") client.recv_window
        (put_param (codes "timestamp") client.timestamp_ms params)

  unfoldable pub prepare_binance_request : Method → Text → Credentials → Params → PreparedRequest
  unfolding binance_params canonical_query put_param
  prepare_binance_request method path credentials params =
      let unsigned = binance_params params in
      record {
        method = method;
        url = request_url path;
        path = path;
        params =
            put_param (codes "signature")
              (lib.hmac_hex credentials.api_secret (canonical_query unsigned)) unsigned;
        headers = (codes "X-MBX-APIKEY", credentials.api_key) ∷ [];
        body = none;
      }

  -- What is signed of a Bybit request: its body, or its query where it has none.
  abbrev pub bybit_payload : Option Params → Params → Text
  bybit_payload none params = canonical_query params
  bybit_payload (some body) params = lib.json_dumps body

  unfoldable pub prepare_bybit_request :
      Method → Text → Credentials → Params → Option Params → PreparedRequest
  unfolding canonical_query put_param
  prepare_bybit_request method path credentials params body =
      let body' = request_body method body in
      let payload =
        client.timestamp_ms
        ++ (credentials.api_key ++ (client.recv_window ++ bybit_payload body' params)) in
      record {
        method = method;
        url = request_url path;
        path = path;
        params = params;
        headers = with_content_type body' (
            (codes "X-BAPI-API-KEY", credentials.api_key)
            ∷ (codes "X-BAPI-TIMESTAMP", client.timestamp_ms)
            ∷ (codes "X-BAPI-RECV-WINDOW", client.recv_window)
            ∷ (codes "X-BAPI-SIGN", lib.hmac_hex credentials.api_secret payload)
            ∷ []);
        body = body';
      }

  -- `f"{path}?{query}"` where there is a query
  abbrev pub path_with_query : Text → Text → Text
  path_with_query path query = if is_empty query then path else path ++ (codes "?" ++ query)

  abbrev pub okx_body_payload : Option Params → Text
  okx_body_payload none = []
  okx_body_payload (some body) = lib.json_dumps body

  -- `headers["x-simulated-trading"] = "1"` of a demo request
  abbrev pub with_demo : SecurityType → Params → Params
  with_demo okx_demo_signed headers = put_param (codes "x-simulated-trading") (codes "1") headers
  with_demo signed headers = headers

  unfoldable pub okx_signature_payload : Method → Text → Params → Option Params → Text
  unfolding canonical_query
  okx_signature_payload method path params body =
      client.iso_timestamp
      ++ (method_text method
          ++ (path_with_query path (canonical_query params) ++ okx_body_payload body))

  -- `_prepare_okx_request`, with the passphrase that it requires
  unfoldable pub okx_request :
      Option Text
      → Method
      → Text
      → Credentials
      → Params
      → Option Params
      → SecurityType
      → Result ClientError PreparedRequest
  unfolding okx_signature_payload put_param
  okx_request none method path credentials params body security = err passphrase_required
  okx_request (some passphrase) method path credentials params body security =
      let body' = request_body method body in
      let payload = okx_signature_payload method path params body' in
      ok record {
        method = method;
        url = request_url path;
        path = path;
        params = params;
        headers = with_demo security (
            with_content_type body' (
              (codes "OK-ACCESS-KEY", credentials.api_key)
              ∷ (codes "OK-ACCESS-SIGN", lib.hmac_base64 credentials.api_secret payload)
              ∷ (codes "OK-ACCESS-TIMESTAMP", client.iso_timestamp)
              ∷ (codes "OK-ACCESS-PASSPHRASE", passphrase)
              ∷ []));
        body = body';
      }

  -- `_prepare_private_request`, for the exchange of the client
  unfoldable pub prepare_for :
      ExchangeName
      → Method
      → Text
      → Credentials
      → Params
      → Option Params
      → SecurityType
      → Result ClientError PreparedRequest
  unfolding prepare_binance_request prepare_bybit_request okx_request
  prepare_for binance method path credentials params body security =
      ok (prepare_binance_request method path credentials params)
  prepare_for bybit method path credentials params body security =
      ok (prepare_bybit_request method path credentials params body)
  prepare_for okx method path credentials params body security =
      okx_request credentials.passphrase method path credentials params body security
  prepare_for mock method path credentials params body security = err client_not_supported

  unfoldable pub prepare_private_request :
      Text → Credentials → Params → SecurityType → Result ClientError PreparedRequest
  unfolding prepare_for
  prepare_private_request path credentials params security =
      prepare_for client.exchange_name get path credentials params none security

  unfoldable pub prepare_private_post_request :
      Text
      → Credentials
      → Params
      → Option Params
      → SecurityType
      → Result ClientError PreparedRequest
  unfolding prepare_for
  prepare_private_post_request path credentials params body security =
      prepare_for client.exchange_name post path credentials params body security
