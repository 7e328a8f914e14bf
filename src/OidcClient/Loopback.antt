-- ===== src/OidcClient/Loopback.antt =====
-- auth/oidcclient/loopback.go and codeflow.go: the one callback that a login waits for, and the
-- authorization code flow around it.
pub mod Delivery
pub mod Flow
use tokyo3_base.Base.{
  ℕ, Bool, true, false, not, Option, none, some, List, [], ◌∷◌, ◌++◌, Bytes, bytes_eq, text, Result,
  ok, err, and_then, or_err, if◌then◌else◌,
}
use tokyo3_base.Base.Dict
use tokyo3_base.SealedCookie.{is_empty}
use tokyo3_base.UrlQuery
use tokyo3_base.UrlQuery.{Values, UrlText}
use tokyo3_base.OidcClient.Endpoints.{
  Web, Endpoints, Tokens, Error, convention_endpoints, discover_endpoints, post_token_at,
  require_secure_endpoint,
}

-- The errors of a login; `server_error` has the code and the description of the redirect.
pub data LoginError : Type 0 where
  server_error : Bytes → Bytes → LoginError
  no_code server_stopped timed_out cancelled bad_endpoint : LoginError
  insecure : Error → LoginError
  exchange : Error → LoginError

-- What the handler makes of a request; `ignored` is `ErrCallbackIgnored`.
pub data Handled : Type 0 where
  ignored : Handled
  decided : Result LoginError Bytes → Handled

-- `LoopbackCallback`; `results` is the channel, which has room for one.
pub record Callback : Type 0 where
  pub done : Bool
  pub results : List (Result LoginError Bytes)

abbrev pub opened : Callback
opened = record { done = false; results = [] }

unfoldable pub serve_handled : Callback → Handled → Callback
serve_handled lc ignored = lc
serve_handled lc (decided r) = record { done = true; results = lc.results ++ (r ∷ []) }

-- Whether the request was served, and the state after it. An outcome that is decided is not handled again.
unfoldable pub serve : Callback → Handled → Bool × Callback
serve lc h = if lc.done then (false, lc) else (true, serve_handled lc h)

unfoldable pub finish : Callback → Result LoginError Bytes → Bool × Callback
finish lc r =
    if lc.done
    then (false, lc)
    else (true, record { done = true; results = lc.results ++ (r ∷ []) })

-- `q.Get(key)`.
first_of : Option (List Bytes) → Bytes
first_of none = []
first_of (some []) = []
first_of (some (v ∷ vs)) = v

unfoldable pub query_get : Bytes → Values → Bytes
unfolding first_of
query_get key q = first_of (Dict.get key q)

-- The handler of `RunCodeFlow`, for the state of this login.
unfoldable pub handle_redirect : Bytes → Values → Handled
handle_redirect state q =
    if not (bytes_eq (query_get (text "state") q) state)
    then ignored
    else if not (is_empty (query_get (text "error") q))
    then decided
        (err (server_error (query_get (text "error") q) (query_get (text "error_description") q)))
    else if is_empty (query_get (text "code") q)
    then decided (err no_code)
    else decided (ok (query_get (text "code") q))

-- What happens while a login waits, in order.
pub data Event : Type 0 where
  request : Values → Event
  stopped timeout cancel : Event

-- `Wait`: a result, once there is one, or the end of the wait; none while the events go on.
received : List (Result LoginError Bytes) → Option (Result LoginError Bytes)
received [] = none
received (r ∷ rs) = some r

unfoldable pub step : Bytes → Callback → Event → Callback
step state lc (request q) = (serve lc (handle_redirect state q)).1
step state lc stopped = (finish lc (err server_stopped)).1
step state lc timeout = lc
step state lc cancel = lc

unfoldable pub gives_up : Event → Option (Result LoginError Bytes)
gives_up timeout = some (err timed_out)
gives_up cancel = some (err cancelled)
gives_up _ = none

unfoldable pub wait : Bytes → Callback → List Event → Option (Result LoginError Bytes)
unfolding received
wait state lc [] = received lc.results
wait state lc (e ∷ es) =
    let rest = wait state (step state lc e) es in
    elim (received lc.results) [
      | some r ↦ some r
      | none ↦ elim (gives_up e) [ some r ↦ some r | none ↦ rest ]
    ]

unfoldable pub authorize_params : Bytes → Bytes → Bytes → Bytes → Values
authorize_params client_id redirect_uri state challenge =
    UrlQuery.set (text "code_challenge_method") (text "S256") (
      UrlQuery.set (text "code_challenge") challenge (
        UrlQuery.set (text "state") state (
          UrlQuery.set (text "scope") (text "openid email profile offline_access") (
            UrlQuery.set (text "redirect_uri") redirect_uri (
              UrlQuery.set (text "client_id") client_id
                (UrlQuery.set (text "response_type") (text "code") []))))))

unfoldable pub build_authorize_url_at :
    UrlText → Bytes → Bytes → Bytes → Bytes → Bytes → Option Bytes
build_authorize_url_at u endpoint client_id redirect_uri state challenge =
    UrlQuery.merge u endpoint (authorize_params client_id redirect_uri state challenge)

unfoldable pub build_authorize_url : UrlText → Bytes → Bytes → Bytes → Bytes → Bytes → Bytes
build_authorize_url u issuer client_id redirect_uri state challenge =
    elim (build_authorize_url_at u (convention_endpoints issuer).authorization client_id
      redirect_uri state challenge) [ none ↦ [] | some url ↦ url ]

module _ (w : Web) where
  unfoldable pub exchange_code_at : ℕ → Bytes → Bytes → Bytes → Bytes → Bytes → Result Error Tokens
  exchange_code_at now endpoint client_id redirect_uri code verifier =
      post_token_at w now endpoint (
        UrlQuery.set (text "code_verifier") verifier (
          UrlQuery.set (text "redirect_uri") redirect_uri (
            UrlQuery.set (text "code") code (
              UrlQuery.set (text "client_id") client_id
                (UrlQuery.set (text "grant_type") (text "authorization_code") [])))))

-- What a login has drawn and bound before it opens the browser, and the challenge of its verifier.
pub record Login : Type 0 where
  pub verifier : Bytes
  pub challenge : Bytes
  pub state : Bytes
  pub redirect_uri : Bytes

map_exchange : Result Error Tokens → Result LoginError Tokens
map_exchange (ok t) = ok t
map_exchange (err e) = err (exchange e)

module _ (w : Web) (u : UrlText) (login : Login) (client_id : Bytes) where
  exchanged : ℕ → Bytes → Result LoginError Bytes → Result LoginError Tokens
  unfolding map_exchange
  exchanged now token_url (err e) = err e
  exchanged now token_url (ok code) =
      map_exchange
        (exchange_code_at w now token_url client_id login.redirect_uri code login.verifier)

  waited : ℕ → Bytes → Option (Result LoginError Bytes) → Option (Result LoginError Tokens)
  unfolding exchanged
  waited now token_url none = none
  waited now token_url (some r) = some (exchanged now token_url r)

  checked : ℕ → Bytes → List Event → Result Error (Unit {0}) → Option (Result LoginError Tokens)
  unfolding waited
  checked now token_url events (err e) = some (err (insecure e))
  checked now token_url events (ok secure) = waited now token_url (wait login.state opened events)

  built : ℕ → Bytes → List Event → Option Bytes → Option (Result LoginError Tokens)
  unfolding checked
  built now token_url events none = some (err bad_endpoint)
  built now token_url events (some auth_url) =
      checked now token_url events (require_secure_endpoint w auth_url)

  -- `RunCodeFlow`, with the clock at the exchange; none while it still waits.
  unfoldable pub run_code_flow : ℕ → Bytes → List Event → Option (Result LoginError Tokens)
  unfolding built
  run_code_flow now issuer events =
      let ep = discover_endpoints w issuer in
      built now ep.token events (
        build_authorize_url_at u ep.authorization client_id login.redirect_uri login.state
          login.challenge)
