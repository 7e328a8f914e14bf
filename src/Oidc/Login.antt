-- ===== src/Oidc/Login.antt =====
-- oidc/login.go: the set-up of an Authenticator, and the pending logins that its flow cookie carries.
-- Begin starts a login, and Callback completes one. The session issuer and the identity provider are
-- records of what the code calls. A type assertion on the issuer is a field that may be missing.
pub mod Begin
pub mod Callback
pub mod Matching
pub mod Trip
use tokyo3_base.Base.{
  ℕ, ◌+◌, ◌*◌, ◌/◌, ◌≡◌, Bool, true, false, not, ◌&&◌, Option, none, some, List, [], ◌∷◌, ◌++◌,
  Bytes, bytes_eq, text, Result, ok, err, length, take, drop, ltb, ◌==◌, if◌then◌else◌,
}
use tokyo3_base.ClientIp.{AddrText}
use tokyo3_base.Crypto.Cipher.{Cipher}
use tokyo3_base.Crypto.Entropy.{Entropy}
use tokyo3_base.Http.{Request, SetCookie}
use tokyo3_base.Oidc.Verifier.{Claims}
use tokyo3_base.SealedCookie
use tokyo3_base.SealedCookie.{Cookie, Codec, is_empty}
use tokyo3_base.Session.Config.{Session}
use tokyo3_base.Session.Manager.{Verdict}

abbrev pub second : ℕ
second = 1_000_000_000

abbrev pub flow_ttl : ℕ
flow_ttl = 10 * 60 * second

abbrev pub max_pending_flows : ℕ
max_pending_flows = 3

abbrev pub default_scopes : Bytes
default_scopes = text "openid email profile groups"

abbrev pub default_callback_path : Bytes
default_callback_path = text "/auth/callback"

pub record Endpoint : Type 0 where
  pub auth_url : Bytes
  pub token_url : Bytes

-- Which of the two Endpoint methods a verifier has, with the answer of it.
pub data EndpointSource : Type 0 where
  deferred : Option Endpoint → EndpointSource
  discovered : Endpoint → EndpointSource
  unreported : EndpointSource

pub record TokenVerifier : Type 0 where
  pub verify : Bytes → Option Claims
  pub endpoints : EndpointSource

pub record CompletedFlow : Type 0 where
  pub return_to : Bytes
  pub extra : Bytes

-- `NewSession` and `IssueSession`; an error is a number.
pub record DefaultCompleter : Type 0 where
  pub new_session : ℕ → Entropy → Result ℕ Session × Entropy
  pub issue_session : Request → Session → ℕ → Entropy → Result ℕ SetCookie × Entropy

-- `CompleteLogin` writes cookies and an answer, or fails.
abbrev pub CompletionOverride : Type 0
CompletionOverride = Request → Claims → CompletedFlow → List SetCookie × Result ℕ Verdict

pub record SessionIssuer : Type 0 where
  pub safe_return_to : Bytes → Bytes
  pub is_exempt : Bytes → Bool
  pub completer : Option DefaultCompleter
  pub completion_override : Option CompletionOverride

pub record AuthenticatorConfig : Type 0 where
  pub issuer : Bytes
  pub client_id : Bytes
  pub client_secret : Bytes
  pub redirect_url : Bytes
  pub verifier : Option TokenVerifier
  pub scopes : Bytes
  pub callback_path : Bytes
  pub flow_cookie : Cookie
  pub enrich_session : Option (Claims → Session → Result ℕ Session)
  pub require_verified_email : Bool

pub data ConfigError : Type 0 where
  no_issuer no_client_id no_redirect_url no_verifier no_session_issuer no_flow_cookie : ConfigError
  not_exempt no_completer : ConfigError
  flow_cookie : SealedCookie.Error → ConfigError

-- `cfg` has the defaults filled in; `verifier` and `sess` are its checked members.
pub record Authenticator : Type 0 where
  pub cfg : AuthenticatorConfig
  pub verifier : TokenVerifier
  pub sess : SessionIssuer

abbrev or_default : Bytes → Bytes → Bytes
or_default [] d = d
or_default (b ∷ bs) d = b ∷ bs

unfoldable pub with_defaults : AuthenticatorConfig → AuthenticatorConfig
with_defaults cfg = record cfg {
  scopes = or_default cfg.scopes default_scopes;
  callback_path = or_default cfg.callback_path default_callback_path;
}

can_complete : SessionIssuer → Bool
can_complete s = elim s.completion_override [
  | some o ↦ true
  | none ↦ elim s.completer [ some d ↦ true | none ↦ false ]
]

checked_cookie :
    AuthenticatorConfig
    → TokenVerifier
    → SessionIssuer
    → Result SealedCookie.Error (Unit {0})
    → Result ConfigError Authenticator
unfolding with_defaults can_complete
checked_cookie cfg v s (err e) = err (flow_cookie e)
checked_cookie cfg v s (ok u) =
    if not (s.is_exempt (with_defaults cfg).callback_path)
    then err not_exempt
    else if not (can_complete s)
    then err no_completer
    else ok (record { cfg = with_defaults cfg; verifier = v; sess = s })

checked_members :
    AuthenticatorConfig
    → Option TokenVerifier
    → Option SessionIssuer
    → Result ConfigError Authenticator
unfolding checked_cookie
checked_members cfg none s = err no_verifier
checked_members cfg (some v) none = err no_session_issuer
checked_members cfg (some v) (some s) =
    if length cfg.flow_cookie.key == 0
    then err no_flow_cookie
    else checked_cookie cfg v s (SealedCookie.validate cfg.flow_cookie)

-- A missing issuer is a nil interface, or one that holds a nil pointer.
unfoldable pub new_authenticator :
    AuthenticatorConfig → Option SessionIssuer → Result ConfigError Authenticator
unfolding checked_members
new_authenticator cfg sess =
    if is_empty cfg.issuer
    then err no_issuer
    else if is_empty cfg.client_id
    then err no_client_id
    else if is_empty cfg.redirect_url
    then err no_redirect_url
    else checked_members cfg cfg.verifier sess

-- `exp` is in seconds.
pub record Flow : Type 0 where
  pub state : Bytes
  pub nonce : Bytes
  pub verifier : Bytes
  pub return_to : Bytes
  pub extra : Bytes
  pub exp : ℕ

pub record FlowSet : Type 0 where
  pub flows : List Flow

unfoldable pub live_at : ℕ → List Flow → List Flow
live_at now [] = []
live_at now (f ∷ fs) =
    let rest = live_at now fs in if ltb (now / second) f.exp then f ∷ rest else rest

-- The loop of `matchFlow`, at index i.
unfoldable pub match_from : Bytes → ℕ → Option ℕ → List Flow → Option ℕ
match_from state i found [] = found
match_from state i found (f ∷ fs) =
    match_from state (i + 1)
      (if not (is_empty f.state) && bytes_eq state f.state then some i else found) fs

-- No index is -1.
unfoldable pub match_flow : List Flow → Bytes → Option ℕ
match_flow flows state = match_from state 0 none flows

-- `flows[:i]` followed by `flows[i+1:]`.
unfoldable pub without : ℕ → List Flow → List Flow
without i flows = take i flows ++ drop (i + 1) flows

module _ (cipher : Cipher) (j : Codec FlowSet) where
  live_flows : ℕ → Result SealedCookie.Error FlowSet → List Flow
  live_flows now (err e) = []
  live_flows now (ok set) = live_at now set.flows

  unfoldable pub pending_flows : Authenticator → Request → ℕ → List Flow
  unfolding live_flows
  pending_flows a r now = live_flows now (SealedCookie.read cipher j a.cfg.flow_cookie r)

  module _ (t : AddrText) where
    set_or_clear :
        Authenticator
        → Request
        → Result SealedCookie.Error SetCookie × Entropy
        → List SetCookie × Entropy
    set_or_clear a r (ok ck, e) = (ck ∷ [], e)
    set_or_clear a r (err x, e) = (SealedCookie.clear t a.cfg.flow_cookie r ∷ [], e)

    keep_flows : Authenticator → Request → ℕ → Entropy → List Flow → List SetCookie × Entropy
    unfolding set_or_clear
    keep_flows a r now e [] = (SealedCookie.clear t a.cfg.flow_cookie r ∷ [], e)
    keep_flows a r now e (f ∷ fs) =
        set_or_clear a r (
          SealedCookie.set cipher j t a.cfg.flow_cookie r (record { flows = f ∷ fs }) flow_ttl now
            e)

    unfoldable pub consume_flow :
        Authenticator → Request → List Flow → Option ℕ → ℕ → Entropy → List SetCookie × Entropy
    unfolding keep_flows
    consume_flow a r flows none now e = ([], e)
    consume_flow a r flows (some i) now e = keep_flows a r now e (without i flows)

unfoldable pub trim_slashes : Bytes → Bytes
trim_slashes [] = []
trim_slashes (c ∷ s) =
    let rest = trim_slashes s in if (c == b'/') && is_empty rest then [] else c ∷ rest

conventional : Bytes → Endpoint
conventional issuer = record {
  auth_url = issuer ++ text "/authorize";
  token_url = issuer ++ text "/token";
}

endpoint_from : Bytes → EndpointSource → Option Endpoint
unfolding conventional trim_slashes
endpoint_from issuer (deferred o) = o
endpoint_from issuer (discovered ep) = some ep
endpoint_from issuer unreported = some (conventional (trim_slashes issuer))

unfoldable pub endpoint : Authenticator → Option Endpoint
unfolding endpoint_from
endpoint a = endpoint_from a.cfg.issuer a.verifier.endpoints
