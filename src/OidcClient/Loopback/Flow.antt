-- ===== src/OidcClient/Loopback/Flow.antt =====
-- The authorization code flow of auth/oidcclient/codeflow.go.
use tokyo3_base.Base.{ℕ, ◌≡◌, refl, ap, Option, none, some, List, Bytes, Result, ok, err, arith}
use tokyo3_base.UrlQuery.{UrlText}
use tokyo3_base.OidcClient.Endpoints.{
  Web, Tokens, Error, discover_endpoints, require_secure_endpoint,
}
use tokyo3_base.OidcClient.Loopback.{
  LoginError, opened, Event, wait, Login, build_authorize_url_at, exchange_code_at, map_exchange,
  exchanged, waited, checked, built, run_code_flow,
}
use tokyo3_base.OidcClient.Loopback.Delivery.{Redirect, code_redirect}

map_exchange_inv : (r : Result Error Tokens) (t : Tokens) → map_exchange r ≡ ok t → r ≡ ok t
unfolding map_exchange
map_exchange_inv (ok x) t h = ground (arith, h)
map_exchange_inv (err e) t h = absurd (ground (arith, h))

module _ (w : Web) (u : UrlText) (login : Login) (client_id : Bytes) where
  -- What a login that gives tokens went through.
  pub record Completed (now : ℕ) (issuer : Bytes) (events : List Event) (t : Tokens) : Type 0 where
    pub code : Bytes
    pub auth_url : Bytes
    pub url :
        build_authorize_url_at u
          (discover_endpoints w issuer).authorization
          client_id
          login.redirect_uri
          login.state
          login.challenge
        ≡ some auth_url
    pub secure : require_secure_endpoint w auth_url ≡ ok tt
    pub redirect : Redirect login.state code events
    pub tokens :
        exchange_code_at w now
          (discover_endpoints w issuer).token
          client_id
          login.redirect_uri
          code
          login.verifier
        ≡ ok t

  exchanged_inv :
      (now : ℕ) (url : Bytes) (r : Result LoginError Bytes) (t : Tokens)
      → exchanged w u login client_id now url r ≡ ok t
      → (code : Bytes) × (r ≡ ok code)
        × (exchange_code_at w now url client_id login.redirect_uri code login.verifier ≡ ok t)
  unfolding exchanged
  exchanged_inv now url (err e) t h = absurd (ground (arith, h))
  exchanged_inv now url (ok code) t h = (
    code,
    refl,
    map_exchange_inv (exchange_code_at w now url client_id login.redirect_uri code login.verifier) t
        h,
  )

  waited_inv :
      (now : ℕ) (url : Bytes) (o : Option (Result LoginError Bytes)) (t : Tokens)
      → waited w u login client_id now url o ≡ some (ok t)
      → (code : Bytes) × (o ≡ some (ok code))
        × (exchange_code_at w now url client_id login.redirect_uri code login.verifier ≡ ok t)
  unfolding waited
  waited_inv now url none t h = absurd (ground (arith, h))
  waited_inv now url (some r) t h =
      let (code, given, tokens) = exchanged_inv now url r t (ground (arith, h)) in
      (code, ap some given, tokens)

  checked_inv :
      (now : ℕ) (url : Bytes) (events : List Event) (r : Result Error (Unit {0})) (t : Tokens)
      → checked w u login client_id now url events r ≡ some (ok t)
      → (r ≡ ok tt)
        × (code : Bytes) × (wait login.state opened events ≡ some (ok code))
        × (exchange_code_at w now url client_id login.redirect_uri code login.verifier ≡ ok t)
  unfolding checked
  checked_inv now url events (err e) t h = absurd (ground (arith, h))
  checked_inv now url events (ok secure) t h =
      let (code, given, tokens) = waited_inv now url (wait login.state opened events) t h in
      (refl, code, given, tokens)

  built_inv :
      (now : ℕ) (issuer : Bytes) (events : List Event) (o : Option Bytes) (t : Tokens)
      → build_authorize_url_at u
          (discover_endpoints w issuer).authorization
          client_id
          login.redirect_uri
          login.state
          login.challenge
        ≡ o
      → built w u login client_id now (discover_endpoints w issuer).token events o ≡ some (ok t)
      → Completed now issuer events t
  unfolding built
  built_inv now issuer events none t e h = absurd (ground (arith, h))
  built_inv now issuer events (some auth_url) t e h =
      let (secure, code, given, tokens) =
        checked_inv now (discover_endpoints w issuer).token events
          (require_secure_endpoint w auth_url) t h in
      record {
        code = code;
        auth_url = auth_url;
        url = e;
        secure = secure;
        redirect = code_redirect login.state code events given;
        tokens = tokens;
      }

  -- A login by the code flow that gives tokens has sent the user to an authorization URL that is https or on
  -- the loopback, has skipped every request without its state and taken the first one with it, which reports
  -- no error and carries a code, and has exchanged that code, with its own verifier, at the token endpoint.
  pub run_code_flow-Completed :
      (now : ℕ) (issuer : Bytes) (events : List Event) (t : Tokens)
      → run_code_flow w u login client_id now issuer events ≡ some (ok t)
      → Completed now issuer events t
  unfolding run_code_flow
  run_code_flow-Completed now issuer events t h =
      built_inv now issuer events
        (build_authorize_url_at u (discover_endpoints w issuer).authorization client_id
          login.redirect_uri login.state login.challenge)
        t refl h
