-- ===== src/Tests/LoginRuns.antt =====
-- The theorems of the login flow of package oidc at concrete inputs.
use tokyo3_base.Base.{
  ℕ, zero, suc, ◌+◌, ◌≤◌, ◌<◌, ◌≡◌, refl, true, false, Option, none, some, List, [], ◌∷◌, arith,
  Bytes, bytes_eq, has_prefix, contains_byte, contains_bytes, text, take, drop, All, if◌then◌else◌,
}
use tokyo3_base.Base.Int.{pos}
use tokyo3_base.Base.Dict
use tokyo3_base.Std.Base64
use tokyo3_base.Std.Path
use tokyo3_base.Std.Split.{split_on, join_with}
use tokyo3_base.ClientIp.{has_trusted_proxies}
use tokyo3_base.Http.{Request, SetCookie, is_valid_cookie}
use tokyo3_base.Crypto.Entropy.{Entropy, random_bytes}
use tokyo3_base.Crypto.Seal.{seal_aad, open_aad}
use tokyo3_base.Csrf
use tokyo3_base.SealedCookie
use tokyo3_base.SealedCookie.{Cookie}
use tokyo3_base.Session.Config.{Manager, is_exempt}
use tokyo3_base.Session.Manager.{Url, Reply, new_session, issue_session, safe_return_to, is_under}
use tokyo3_base.Oidc.Verifier.{Claims}
use tokyo3_base.UrlQuery
use tokyo3_base.UrlQuery.{UrlText, Values}
use tokyo3_base.Oidc.Login.{
  AuthenticatorConfig, TokenVerifier, Authenticator, Flow, unreported, new_authenticator,
  pending_flows, match_flow, consume_flow, live_at, endpoint, trim_slashes, match_from, without,
  with_defaults,
}
use tokyo3_base.Oidc.Login.Begin.{
  rand_b64, begin, store_flow, authorize_params, authorize_url, newest,
}
use tokyo3_base.Oidc.Login.Begin.Started.{IsBegun}
use tokyo3_base.Oidc.Login.Callback.{
  nth, callback, refusal, authenticate, token_form, accepted, complete, filled, enriched,
}
use tokyo3_base.Oidc.Login.Callback.Soundness.{IsStarted, IsShown, IsIssued, callback_sound}
use tokyo3_base.Oidc.Login.Callback.Refusals.{callback_answers}
use tokyo3_base.Oidc.Login.Callback.Once.{callback_once}
use tokyo3_base.Oidc.Login.Callback.Cookies.{left_by, times}
use tokyo3_base.Oidc.Login.Trip.{manager_issuer, login_returns}
use tokyo3_base.Tests.Instances.{
  digits, value_of, to_bytes, from_bytes, opened, tagged, tagged-IsCorrect, tagged-EmitsBytes,
  plain_text,
}
use tokyo3_base.Tests.Sessions.{frame, framed, print_session}
use tokyo3_base.Tests.Logins.{counted, counted-IsLossless, print_flows, read_set}

abbrev bytes_from : ℕ → ℕ → Bytes
bytes_from zero b = []
bytes_from (suc n) b = b ∷ bytes_from n (b + 1)

abbrev source : Bytes
source = bytes_from 200 1

source-bytes : All (λ x. x < 256) source
source-bytes = from 200 1 (omega arith)
  where
    from : (n b : ℕ) → n + b ≤ 256 → All (λ x. x < 256) (bytes_from n b)
    from zero b h = tt
    from (suc n) b h = (omega arith, from n (b + 1) (omega arith))

abbrev manager : Manager
manager = record {
  cfg = record {
    required_group = [];
    session_key = bytes_from 32 100;
    session_ttl = pos 1000;
    cookie_prefix = text "app";
    login_path = text "/auth/login";
    logout_path = text "/auth/logout";
    exempt_paths = text "/auth/callback" ∷ [];
    base_path = text "/base";
    idle_timeout = pos 100;
    trusted_origins = none;
    trusted_proxies = [];
    is_revoked = none;
  };
  ttl = 1000;
  cookie = record {
    key = bytes_from 32 100;
    name = text "app_session";
    path = text "/base";
    proxies = none;
  };
  exempt = text "/auth/login" ∷ text "/auth/logout" ∷ text "/auth/callback" ∷ [];
  origin_check = none;
}

abbrev parse_url : Bytes → Option Url
parse_url p = some (record { is_absolute = false; host = []; path = p })

-- The identity provider's claims have the nonce that the source makes.
abbrev claims : Claims
claims = record {
  subject = text "u1";
  email = text "u1@h";
  email_verified = true;
  name = [];
  groups = [];
  nonce = Base64.encode (take 24 (drop 24 source));
  issuer = [];
  auth_time = 0;
  session_id = [];
}

abbrev provider : TokenVerifier
provider = record { verify = λ token. some claims; endpoints = unreported }

abbrev settings : AuthenticatorConfig
settings = record {
  issuer = text "https://id/";
  client_id = text "app";
  client_secret = [];
  redirect_url = text "https://h/auth/callback";
  verifier = some provider;
  scopes = text "openid";
  callback_path = text "/auth/callback";
  flow_cookie = record {
    key = bytes_from 32 100;
    name = text "app_flow";
    path = text "/base";
    proxies = none;
  };
  enrich_session = none;
  require_verified_email = true;
}

abbrev login : Authenticator
login = record {
  cfg = settings;
  verifier = provider;
  sess = manager_issuer tagged framed plain_text parse_url manager;
}

-- The query is the one value that is asked for, and the code is always there.
abbrev query : Bytes → Bytes → Bytes
query raw name =
    if bytes_eq name (text "error")
    then []
    else if bytes_eq name (text "code")
    then text "c"
    else raw

abbrev post_token : Bytes → Values → Option Bytes
post_token url form = some (text "token")

abbrev urls : UrlText
urls = record { parse = λ b. some (record { rest = b; query = [] }); print = λ p. p.rest }

abbrev digest : Bytes → Bytes
digest b = take 4 b

abbrev asking : Bytes → Dict.Dict Bytes → Request
asking raw_query cookies = record {
  method = text "GET";
  path = text "/auth/login";
  raw_query = raw_query;
  host = text "h";
  tls = true;
  headers = [];
  cookies = cookies;
  source = record { remote_addr = 4 ∷ 100 ∷ []; forwarded_for = [] };
}

abbrev starting : Request
starting = asking (text "/base/x") []

abbrev state : Bytes
state = Base64.encode (take 24 source)

abbrev started : Flow
started = record {
  state = state;
  nonce = Base64.encode (take 24 (drop 24 source));
  verifier = Base64.encode (take 32 (drop 48 source));
  return_to = text "/base/x";
  extra = [];
  exp = 600;
}

abbrev sealed_flows : Bytes
sealed_flows =
    value_of []
      (SealedCookie.seal tagged counted settings.flow_cookie (record { flows = started ∷ [] })
        (drop 80 source)).0

abbrev flow_value : SetCookie
flow_value = record {
  name = text "app_flow";
  value = sealed_flows;
  path = text "/base";
  http_only = true;
  secure = true;
  same_site_lax = true;
  expires = some (5 + 600_000_000_000);
  max_age = pos 600;
}

abbrev returning : Request
returning = asking state ((text "app_flow", sealed_flows) ∷ [])

-- The callback of the same browser, with another source of random bytes.
abbrev landed : Reply × Entropy
landed = elim (callback query post_token tagged counted plain_text login returning 10 source) [
  | none ↦ (refusal [] 0, [])
  | some p ↦ p
]

callback_sound_example :
    (flow : Flow) × (shown : Claims) × (i : ℕ) × (q : List SetCookie × Entropy) × IsStarted query
      post_token tagged counted plain_text login returning 10 flow
    × IsShown query post_token login returning flow shown
    × (match_flow (pending_flows tagged counted login returning 10) state ≡ some i)
    × (nth i (pending_flows tagged counted login returning 10) ≡ some flow)
    × (consume_flow tagged counted plain_text login returning
          (pending_flows tagged counted login returning 10)
          (some i)
          10
          source
        ≡ q)
    × IsIssued login returning 10 flow shown q.0 q.1 landed
unfolding begin random_bytes store_flow SealedCookie.set counted seal_aad Base64.encode tagged
    to_bytes pending_flows SealedCookie.read Dict.get manager_issuer safe_return_to has_prefix
    bytes_eq contains_byte Dict.put authorize_params authorize_url newest rand_b64 endpoint live_at
    trim_slashes SealedCookie.aad SealedCookie.is_https SealedCookie.seal SealedCookie.seal_value
    is_under Path.clean join_with split_on from_bytes opened print_flows digits frame UrlQuery.copy
    UrlQuery.merge has_trusted_proxies open_aad Base64.decode read_set callback match_flow
    match_from consume_flow without nth authenticate token_form accepted complete filled enriched
    new_session Csrf.new_secret issue_session framed print_session
callback_sound_example =
    callback_sound query post_token tagged counted plain_text login returning 10 source landed
      (text "/base/x") refl refl refl

login_returns_example :
    (flow : Flow) × (shown : Claims) × IsBegun tagged counted plain_text urls digest query login
      starting [] 5
      (text "https://id/authorize")
      flow
    × IsShown query post_token login returning flow shown
    × (text "/base/x" ≡ login.sess.safe_return_to (query (text "/base/x") (text "return_to")))
unfolding begin random_bytes store_flow SealedCookie.set counted seal_aad Base64.encode tagged
    to_bytes pending_flows SealedCookie.read Dict.get manager_issuer safe_return_to has_prefix
    bytes_eq contains_byte Dict.put authorize_params authorize_url newest rand_b64 endpoint live_at
    trim_slashes SealedCookie.aad SealedCookie.is_https SealedCookie.seal SealedCookie.seal_value
    is_under Path.clean join_with split_on from_bytes opened print_flows digits frame UrlQuery.copy
    UrlQuery.merge has_trusted_proxies open_aad Base64.decode read_set callback match_flow
    match_from consume_flow without nth authenticate token_form accepted complete filled enriched
    new_session Csrf.new_secret issue_session framed print_session
login_returns_example =
    login_returns tagged counted plain_text urls digest query post_token login starting returning []
      5 10 source source (text "https://id/authorize") (flow_value ∷ []) (drop 92 source) landed
      (text "/base/x") tagged-IsCorrect tagged-EmitsBytes counted-IsLossless source-bytes refl refl
      refl (omega arith) refl refl refl

callback_answers_example :
    (p : Reply × Entropy) × (callback query post_token tagged counted plain_text login starting 0
        source
      ≡ some p)
unfolding new_authenticator SealedCookie.validate with_defaults manager_issuer is_exempt
    contains_bytes bytes_eq is_valid_cookie contains_byte
callback_answers_example =
    callback_answers query post_token tagged counted plain_text settings (some login.sess) login
      starting 0 source refl

-- Another state than that of the login that is pending.
abbrev forging : Request
forging = record returning { raw_query = text "guess" }

-- The first callback succeeded, and the login is no longer in the cookie, which it deleted.
callback_once_example :
    (cookies : List SetCookie) × (callback query post_token tagged counted plain_text login
        (asking state [])
        20
        source
      ≡ some (refusal cookies 400, source))
unfolding begin random_bytes store_flow SealedCookie.set counted seal_aad Base64.encode tagged
    to_bytes pending_flows SealedCookie.read Dict.get manager_issuer safe_return_to has_prefix
    bytes_eq contains_byte Dict.put authorize_params authorize_url newest rand_b64 endpoint live_at
    trim_slashes SealedCookie.aad SealedCookie.is_https SealedCookie.seal SealedCookie.seal_value
    is_under Path.clean join_with split_on from_bytes opened print_flows digits frame UrlQuery.copy
    UrlQuery.merge has_trusted_proxies open_aad Base64.decode read_set callback match_flow
    match_from consume_flow without nth authenticate token_form accepted complete filled enriched
    new_session Csrf.new_secret issue_session framed print_session SealedCookie.clear left_by times
callback_once_example =
    callback_once tagged counted plain_text query post_token login returning (asking state []) 10 20
      source source 0 started landed tagged-IsCorrect tagged-EmitsBytes counted-IsLossless
      source-bytes (tt, tt) refl refl refl refl (omega arith) refl refl
