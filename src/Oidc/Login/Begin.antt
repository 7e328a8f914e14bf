-- ===== src/Oidc/Login/Begin.antt =====
-- oidc/login.go: Begin, LoginHandler and authorizeURL.
pub mod Started
use tokyo3_base.Base.{
  ℕ, ◌+◌, ◌-◌, ◌/◌, ◌≡◌, Bool, true, false, Option, none, some, List, [], ◌∷◌, ◌++◌, Bytes, text,
  Result, ok, err, and_then, map_err, or_err, length, drop, ltb, ◌==◌, if◌then◌else◌,
}
use tokyo3_base.Std.Base64
use tokyo3_base.ClientIp.{AddrText}
use tokyo3_base.Crypto.Cipher.{Cipher}
use tokyo3_base.Crypto.Entropy
use tokyo3_base.Crypto.Entropy.{Entropy, random_bytes}
use tokyo3_base.Http.{Request, SetCookie}
use tokyo3_base.SealedCookie
use tokyo3_base.SealedCookie.{Codec}
use tokyo3_base.Session.Manager.{Verdict, redirect, failed, Reply}
use tokyo3_base.UrlQuery
use tokyo3_base.UrlQuery.{UrlText, Values}
use tokyo3_base.Oidc.Login.{
  Authenticator, Flow, FlowSet, Endpoint, second, flow_ttl, max_pending_flows, pending_flows,
  endpoint,
}

pub data BeginError : Type 0 where
  no_entropy no_endpoint bad_authorize_url : BeginError
  not_sealed : SealedCookie.Error → BeginError

encoded : Result Entropy.Error Bytes × Entropy → Result Entropy.Error Bytes × Entropy
encoded (r, e) = (and_then r (λ b. ok (Base64.encode b)), e)

-- `randB64`.
unfoldable pub rand_b64 : ℕ → Entropy → Result Entropy.Error Bytes × Entropy
unfolding encoded
rand_b64 n e = encoded (random_bytes n e)

-- The newest of the flows.
unfoldable pub newest : List Flow → List Flow
newest flows =
    if ltb max_pending_flows (length flows)
    then drop (length flows - max_pending_flows) flows
    else flows

unfoldable pub authorize_params : Authenticator → Bytes → Bytes → Bytes → Values
authorize_params a state nonce challenge =
    UrlQuery.set (text "code_challenge_method") (text "S256") (
      UrlQuery.set (text "code_challenge") challenge (
        UrlQuery.set (text "nonce") nonce (
          UrlQuery.set (text "state") state (
            UrlQuery.set (text "scope") a.cfg.scopes (
              UrlQuery.set (text "redirect_uri") a.cfg.redirect_url (
                UrlQuery.set (text "client_id") a.cfg.client_id
                  (UrlQuery.set (text "response_type") (text "code") [])))))))

module _ (u : UrlText) where
  unfoldable pub authorize_url : Authenticator → Endpoint → Bytes → Bytes → Bytes → Option Bytes
  unfolding authorize_params
  authorize_url a ep state nonce challenge =
      UrlQuery.merge u ep.auth_url (authorize_params a state nonce challenge)

module _ (cipher : Cipher) (j : Codec FlowSet) (t : AddrText) where
  -- The flow alone, where it does not fit beside the others.
  alone :
      Authenticator
      → Request
      → ℕ
      → Flow
      → Bool
      → Result SealedCookie.Error SetCookie × Entropy
      → Result SealedCookie.Error SetCookie × Entropy
  alone a r now flow only (ok ck, e) = (ok ck, e)
  alone a r now flow only (err x, e) =
      if only
      then (err x, e)
      else SealedCookie.set cipher j t a.cfg.flow_cookie r (record { flows = flow ∷ [] }) flow_ttl
          now e

  -- The cookie that carries a new flow and the newest of the pending ones.
  unfoldable pub store_flow :
      Authenticator → Request → ℕ → Flow → Entropy → Result SealedCookie.Error SetCookie × Entropy
  unfolding alone newest
  store_flow a r now flow e =
      let flows = newest (pending_flows cipher j a r now ++ (flow ∷ [])) in
      alone a r now flow (length flows == 1)
        (SealedCookie.set cipher j t a.cfg.flow_cookie r (record { flows = flows }) flow_ttl now e)

  module _ (u : UrlText) (sha256 : Bytes → Bytes) (query : Bytes → Bytes → Bytes) where
    new_flow : Authenticator → Request → Bytes → ℕ → Bytes → Bytes → Bytes → Flow
    new_flow a r extra now state nonce verifier = record {
      state = state;
      nonce = nonce;
      verifier = verifier;
      return_to = a.sess.safe_return_to (query r.raw_query (text "return_to"));
      extra = extra;
      exp = (now + flow_ttl) / second;
    }

    located : Authenticator → Flow → Option Endpoint → Result BeginError Bytes
    located a flow none = err no_endpoint
    located a flow (some ep) =
        or_err (authorize_url u a ep flow.state flow.nonce (Base64.encode (sha256 flow.verifier)))
          bad_authorize_url

    stored :
        Authenticator
        → Flow
        → Result SealedCookie.Error SetCookie × Entropy
        → Result BeginError Bytes × List SetCookie × Entropy
    unfolding located
    stored a flow (err x, e) = (err (not_sealed x), [], e)
    stored a flow (ok ck, e) = (located a flow (endpoint a), ck ∷ [], e)

    with_entropy :
        Authenticator
        → Request
        → Bytes
        → ℕ
        → Result Entropy.Error Bytes
        → Result Entropy.Error Bytes
        → Result Entropy.Error Bytes
        → Entropy
        → Result BeginError Bytes × List SetCookie × Entropy
    unfolding stored new_flow
    with_entropy a r extra now (ok state) (ok nonce) (ok verifier) e =
        let flow = new_flow a r extra now state nonce verifier in
        stored a flow (store_flow a r now flow e)
    with_entropy a r extra now (err x) nonce verifier e = (err no_entropy, [], e)
    with_entropy a r extra now (ok state) (err x) verifier e = (err no_entropy, [], e)
    with_entropy a r extra now (ok state) (ok nonce) (err x) e = (err no_entropy, [], e)

    -- All three texts are drawn before any of the errors is looked at.
    unfoldable pub begin :
        Authenticator
        → Request
        → Bytes
        → ℕ
        → Entropy
        → Result BeginError Bytes × List SetCookie × Entropy
    unfolding with_entropy rand_b64
    begin a r extra now e =
        let (state, e₁) = rand_b64 24 e in
        let (nonce, e₂) = rand_b64 24 e₁ in
        let (verifier, e₃) = rand_b64 32 e₂ in with_entropy a r extra now state nonce verifier e₃

    login_verdict : Result BeginError Bytes → Verdict
    login_verdict (ok url) = redirect url
    login_verdict (err x) = failed 500

    unfoldable pub login_handler : Authenticator → Request → ℕ → Entropy → Reply × Entropy
    unfolding begin login_verdict
    login_handler a r now e =
        let (result, cookies, e') = begin a r [] now e in
        (record { cookies = cookies; verdict = login_verdict result }, e')
