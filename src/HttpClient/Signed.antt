-- ===== src/HttpClient/Signed.antt =====
-- What the prepared requests carry.
use crypto_copy_trading_plat.Prelude.{
  ◌≡◌, refl, true, false, Option, none, some, [], ◌∷◌, Bool-cases, inl, inr, ap, ◌∙◌, arith,
  if◌then◌else◌,
}
use mathlib.Core.List.{Perm}
use mathlib.Core.List.Perm
use crypto_copy_trading_plat.Risk.{text_lt}
use crypto_copy_trading_plat.Prelude.Text.{Text, codes, text_eq, text_eq_refl, text_eq_sound}
use crypto_copy_trading_plat.Prelude.Exec.{Result, ok, err}
use crypto_copy_trading_plat.Domain.{okx}
use crypto_copy_trading_plat.HttpClient.{
  Params, Library, Credentials, okx_demo_signed, Method, PreparedRequest, SignedClient, ClientError,
  put_param, get_param, insert_param, sort_params, canonical_query, binance_params,
  prepare_binance_request, prepare_for, okx_request,
}

-- A written key is read back.
get_param-put_param : (k v : Text) (ps : Params) → get_param k (put_param k v ps) ≡ some v
unfolding get_param put_param
get_param-put_param k v [] = rw (text_eq_refl k) refl
get_param-put_param k v ((j, x) ∷ ps) = elim (Bool-cases (text_eq j k)) [
  | inl same ↦ rw (same, same) refl
  | inr other ↦ rw (other, other) (get_param-put_param k v ps)
]

-- The parameters without those of one key.
unfoldable pub without : Text → Params → Params
without k [] = []
without k ((j, x) ∷ ps) = let rest = without k ps in if text_eq j k then rest else (j, x) ∷ rest

without-put_param : (k v : Text) (ps : Params) → without k (put_param k v ps) ≡ without k ps
unfolding without put_param
without-put_param k v [] = rw (text_eq_refl k) refl
without-put_param k v ((j, x) ∷ ps) = elim (Bool-cases (text_eq j k)) [
  | inl same ↦ rw (same, same) refl
  | inr other ↦ rw (other, other) (ap (λ l. (j, x) ∷ l) (without-put_param k v ps))
]

get_param-put_param_other :
    (k j v : Text) (ps : Params)
    → text_eq j k ≡ false
    → get_param k (put_param j v ps) ≡ get_param k ps
unfolding get_param put_param
get_param-put_param_other k j v [] other = rw other refl
get_param-put_param_other k j v ((i, x) ∷ ps) other = elim (Bool-cases (text_eq i j)) [
  | inl same ↦
      let miss : text_eq i k ≡ false = rw (text_eq_sound i j same) other in rw (same, miss) refl
  | inr differs ↦ elim (Bool-cases (text_eq i k)) [
    | inl hit ↦ rw (differs, hit) refl
    | inr miss ↦ rw (differs, miss) (get_param-put_param_other k j v ps other)
  ]
]

without_missing : (k : Text) (ps : Params) → get_param k ps ≡ none → without k ps ≡ ps
unfolding without get_param
without_missing k [] missing = refl
without_missing k ((j, x) ∷ ps) missing = elim (Bool-cases (text_eq j k)) [
  | inl hit ↦ cc (rw hit at missing)
  | inr miss ↦ rw miss (ap (λ l. (j, x) ∷ l) (without_missing k ps (rw miss at missing)))
]

abbrev signature_key : Text
signature_key = codes "signature"

-- No parameter has a key before that of the parameter in front of it.
abbrev NotAfter : Text × Text → Params → Type 0
NotAfter p [] = Unit
NotAfter p (q ∷ qs) = text_lt q.0 p.0 ≡ false

abbrev pub IsSorted : Params → Type 0
IsSorted [] = Unit
IsSorted (p ∷ ps) = NotAfter p ps × IsSorted ps

text_lt_asym : (s t : Text) → text_lt s t ≡ true → text_lt t s ≡ false
unfolding text_lt
text_lt_asym s [] h = cc h
text_lt_asym [] (b ∷ t) h = refl
text_lt_asym (a ∷ s) (b ∷ t) h = ground (arith, text_lt_asym s t)

NotAfter-insert_param :
    (q p : Text × Text) (ps : Params)
    → NotAfter q ps
    → text_lt p.0 q.0 ≡ false
    → NotAfter q (insert_param p ps)
unfolding insert_param
NotAfter-insert_param q p [] h after = after
NotAfter-insert_param q p (x ∷ xs) h after = elim (Bool-cases (text_lt p.0 x.0)) [
  | inl before ↦ rw before after
  | inr behind ↦ rw behind h
]

insert_param-IsSorted : (p : Text × Text) (ps : Params) → IsSorted ps → IsSorted (insert_param p ps)
unfolding insert_param
insert_param-IsSorted p [] h = (tt, tt)
insert_param-IsSorted p (q ∷ qs) h = elim (Bool-cases (text_lt p.0 q.0)) [
  | inl before ↦ rw before (text_lt_asym p.0 q.0 before, h)
  | inr behind ↦ rw behind (NotAfter-insert_param q p qs h.0 behind, insert_param-IsSorted p qs h.1)
]

insert_param-Perm : (p : Text × Text) (ps : Params) → Perm (insert_param p ps) (p ∷ ps)
unfolding insert_param
insert_param-Perm p [] = Perm.refl (p ∷ [])
insert_param-Perm p (q ∷ qs) = elim (Bool-cases (text_lt p.0 q.0)) [
  | inl before ↦ rw before (Perm.refl (p ∷ q ∷ qs))
  | inr behind ↦ rw behind (Perm.trans (Perm.cons q (insert_param-Perm p qs)) (Perm.swap p q qs))
]

sort_params-IsSorted : (ps : Params) → IsSorted (sort_params ps)
unfolding sort_params
sort_params-IsSorted [] = tt
sort_params-IsSorted (p ∷ ps) = insert_param-IsSorted p (sort_params ps) (sort_params-IsSorted ps)

sort_params-Perm : (ps : Params) → Perm (sort_params ps) ps
unfolding sort_params
sort_params-Perm [] = Perm.refl []
sort_params-Perm (p ∷ ps) =
    Perm.trans (insert_param-Perm p (sort_params ps)) (Perm.cons p (sort_params-Perm ps))

-- The sent parameters have the client's time and window, and else what the caller gave.
pub record IsStamped (client : SignedClient) (params sent : Params) : Type 0 where
  pub timestamp : get_param (codes "timestamp") sent ≡ some client.timestamp_ms
  pub window : get_param (codes "recvWindow") sent ≡ some client.recv_window
  pub others :
      (k : Text)
      → text_eq (codes "timestamp") k ≡ false
      → text_eq (codes "recvWindow") k ≡ false
      → text_eq signature_key k ≡ false
      → get_param k sent ≡ get_param k params

module _ (lib : Library) (client : SignedClient) where
  binance_params-IsStamped :
      (signature : Text) (params : Params)
      → IsStamped client params
          (put_param signature_key signature (binance_params lib client params))
  unfolding binance_params
  binance_params-IsStamped signature params =
      let stamped = put_param (codes "timestamp") client.timestamp_ms params in
      let unsigned = put_param (codes "recvWindow") client.recv_window stamped in
      record {
        timestamp =
            get_param-put_param_other (codes "timestamp") signature_key signature unsigned
              (unfold text_eq in refl)
            ∙ get_param-put_param_other (codes "timestamp") (codes "recvWindow") client.recv_window
                stamped (unfold text_eq in refl)
            ∙ get_param-put_param (codes "timestamp") client.timestamp_ms params;
        window =
            get_param-put_param_other (codes "recvWindow") signature_key signature unsigned
              (unfold text_eq in refl)
            ∙ get_param-put_param (codes "recvWindow") client.recv_window stamped;
        others = λ k time window sign.
            get_param-put_param_other k signature_key signature unsigned sign
            ∙ get_param-put_param_other k (codes "recvWindow") client.recv_window stamped window
            ∙ get_param-put_param_other k (codes "timestamp") client.timestamp_ms params time;
      }

  pub binance_request-IsStamped :
      (method : Method) (path : Text) (credentials : Credentials) (params : Params)
      → IsStamped client params
          (prepare_binance_request lib client method path credentials params).params
  unfolding prepare_binance_request
  binance_request-IsStamped method path credentials params = binance_params-IsStamped _ params

  -- A Binance request whose own parameters have no key `signature` is signed as the exchange checks
  -- it: its `signature` is the HMAC of the query of all its other parameters, each once, in the
  -- order of their keys. Among them are the client's timestamp and receive window, and every other
  -- parameter of the caller with its value.
  pub binance_verifies :
      (method : Method) (path : Text) (credentials : Credentials) (params : Params)
      → get_param signature_key params ≡ none
      → let r = prepare_binance_request lib client method path credentials params in
        (sorted : Params) × Perm sorted (without signature_key r.params)
        × IsSorted sorted
        × (get_param signature_key r.params
            ≡ some (lib.hmac_hex credentials.api_secret (lib.urlencode sorted)))
        × IsStamped client params r.params
  unfolding prepare_binance_request binance_params canonical_query
  binance_verifies method path credentials params missing =
      let unsigned = binance_params lib client params in
      let signature = lib.hmac_hex credentials.api_secret (canonical_query lib client unsigned) in
      let stamped = put_param (codes "timestamp") client.timestamp_ms params in
      let still : get_param signature_key unsigned ≡ none =
        get_param-put_param_other signature_key (codes "recvWindow") client.recv_window stamped
          (unfold text_eq in refl)
        ∙ get_param-put_param_other signature_key (codes "timestamp") client.timestamp_ms params
            (unfold text_eq in refl)
        ∙ missing in
      let others : without signature_key (put_param signature_key signature unsigned) ≡ unsigned =
        without-put_param signature_key signature unsigned
        ∙ without_missing signature_key unsigned still in
      (
        sort_params unsigned,
        rw others (sort_params-Perm unsigned),
        sort_params-IsSorted unsigned,
        get_param-put_param signature_key signature unsigned,
        binance_params-IsStamped signature params,
      )

  headers_of : Result ClientError PreparedRequest → Params
  headers_of (ok r) = r.headers
  headers_of (err e) = []

  okx_request_simulated :
      (passphrase : Option Text) (method : Method) (path : Text) (credentials : Credentials)
      (params : Params) (body : Option Params) (r : PreparedRequest)
      → okx_request lib client passphrase method path credentials params body okx_demo_signed ≡ ok r
      → get_param (codes "x-simulated-trading") r.headers ≡ some (codes "1")
  unfolding okx_request headers_of
  okx_request_simulated none method path credentials params body r prepared = cc
  okx_request_simulated (some passphrase) method path credentials params body r prepared =
      rw (← ap headers_of prepared)
        (get_param-put_param (codes "x-simulated-trading") (codes "1") _)

  -- A demo request that the client prepares for OKX, under any method, path and parameters, carries
  -- the header that keeps it off the real market.
  pub okx_demo_simulated :
      (method : Method) (path : Text) (credentials : Credentials) (params : Params)
      (body : Option Params) (r : PreparedRequest)
      → prepare_for lib client okx method path credentials params body okx_demo_signed ≡ ok r
      → get_param (codes "x-simulated-trading") r.headers ≡ some (codes "1")
  unfolding prepare_for
  okx_demo_simulated method path credentials params body r prepared =
      okx_request_simulated credentials.passphrase method path credentials params body r prepared
