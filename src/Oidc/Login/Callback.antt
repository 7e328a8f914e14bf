-- ===== src/Oidc/Login/Callback.antt =====
-- oidc/login.go: CallbackHandler. The query parser and the POST to the token endpoint, which gives the
-- ID token, are parameters. A missing result is a panic.
pub mod Soundness
pub mod Refusals
pub mod Cookies
pub mod Once
use tokyo3_base.Base.{
  ℕ, ◌≡◌, Bool, true, false, not, ◌&&◌, Option, none, some, List, [], ◌∷◌, ◌++◌, Bytes, bytes_eq,
  text, Result, ok, err, and_then, or_err, drop, if◌then◌else◌,
}
use tokyo3_base.ClientIp.{AddrText}
use tokyo3_base.Crypto.Cipher.{Cipher}
use tokyo3_base.Crypto.Entropy.{Entropy}
use tokyo3_base.Http.{Request, SetCookie}
use tokyo3_base.Oidc.Verifier.{Claims}
use tokyo3_base.SealedCookie
use tokyo3_base.SealedCookie.{Codec, is_empty}
use tokyo3_base.Session.Config.{Session}
use tokyo3_base.Session.Manager.{Verdict, redirect, failed, Reply, reply}
use tokyo3_base.UrlQuery
use tokyo3_base.UrlQuery.{Values}
use tokyo3_base.Oidc.Login.{
  Authenticator, Flow, FlowSet, Endpoint, CompletionOverride, DefaultCompleter, pending_flows,
  match_flow, consume_flow, endpoint,
}

-- `flows[i]`.
unfoldable pub nth : ℕ → List Flow → Option Flow
nth i [] = none
nth ℕ.zero (f ∷ fs) = some f
nth (ℕ.suc i) (f ∷ fs) = nth i fs

unfoldable pub token_form : Authenticator → Flow → Bytes → Values
token_form a flow code =
    let form = UrlQuery.set (text "client_id") a.cfg.client_id (
      UrlQuery.set (text "redirect_uri") a.cfg.redirect_url (
        UrlQuery.set (text "code") code
          (UrlQuery.set (text "grant_type") (text "authorization_code") []))) in
    UrlQuery.set (text "code_verifier") flow.verifier (
      if is_empty a.cfg.client_secret
      then form
      else UrlQuery.set (text "client_secret") a.cfg.client_secret form)

-- The claims that may log in to a flow, or the status of the refusal.
unfoldable pub accepted : Authenticator → Flow → Claims → Result ℕ Claims
accepted a flow claims =
    if not (bytes_eq claims.nonce flow.nonce)
    then err 400
    else if is_empty claims.subject
    then err 401
    else if a.cfg.require_verified_email && not claims.email_verified
    then err 401
    else ok claims

unfoldable pub filled : Claims → Session → Session
filled claims sess = record sess {
  subject = claims.subject;
  email = claims.email;
  name = claims.name;
  groups = claims.groups;
  sid = claims.session_id;
}

unfoldable pub enriched : Authenticator → Claims → Session → Result ℕ Session
enriched a claims sess = elim a.cfg.enrich_session [ none ↦ ok sess | some f ↦ f claims sess ]

abbrev pub refusal : List SetCookie → ℕ → Reply
refusal cookies status = record { cookies = cookies; verdict = failed status }

overridden : List SetCookie → List SetCookie × Result ℕ Verdict → Reply
overridden cookies (more, ok v) = record { cookies = cookies ++ more; verdict = v }
overridden cookies (more, err x) = record { cookies = cookies ++ more; verdict = failed 500 }

issued : List SetCookie → Flow → Result ℕ SetCookie × Entropy → Reply × Entropy
issued cookies flow (ok ck, e) =
    (record { cookies = cookies ++ (ck ∷ []); verdict = redirect flow.return_to }, e)
issued cookies flow (err x, e) = (refusal cookies 500, e)

sealed_session :
    DefaultCompleter
    → Request
    → Flow
    → ℕ
    → List SetCookie
    → Entropy
    → Result ℕ Session
    → Reply × Entropy
unfolding issued
sealed_session d r flow now cookies e (err x) = (refusal cookies 500, e)
sealed_session d r flow now cookies e (ok sess) = issued cookies flow (d.issue_session r sess now e)

minted :
    Authenticator
    → DefaultCompleter
    → Request
    → Flow
    → Claims
    → ℕ
    → List SetCookie
    → Result ℕ Session × Entropy
    → Reply × Entropy
unfolding sealed_session filled enriched
minted a d r flow claims now cookies (err x, e) = (refusal cookies 500, e)
minted a d r flow claims now cookies (ok sess, e) =
    sealed_session d r flow now cookies e (enriched a claims (filled claims sess))

by_default :
    Authenticator
    → Option DefaultCompleter
    → Request
    → Flow
    → Claims
    → ℕ
    → List SetCookie
    → Entropy
    → Option (Reply × Entropy)
unfolding minted
by_default a none r flow claims now cookies e = none
by_default a (some d) r flow claims now cookies e =
    some (minted a d r flow claims now cookies (d.new_session now e))

completed_by :
    Authenticator
    → Option CompletionOverride
    → Request
    → Flow
    → Claims
    → ℕ
    → List SetCookie
    → Entropy
    → Option (Reply × Entropy)
unfolding overridden by_default
completed_by a (some f) r flow claims now cookies e =
    some (
      overridden cookies (f r claims (record { return_to = flow.return_to; extra = flow.extra })),
      e,
    )
completed_by a none r flow claims now cookies e =
    by_default a a.sess.completer r flow claims now cookies e

-- The login itself, once its token was accepted.
unfoldable pub complete :
    Authenticator
    → Request
    → Flow
    → Claims
    → ℕ
    → List SetCookie
    → Entropy
    → Option (Reply × Entropy)
unfolding completed_by
complete a r flow claims now cookies e =
    completed_by a a.sess.completion_override r flow claims now cookies e

concluded :
    Authenticator
    → Request
    → Flow
    → ℕ
    → List SetCookie × Entropy
    → Result ℕ Claims
    → Option (Reply × Entropy)
unfolding complete
concluded a r flow now (cookies, e) (err status) = some (refusal cookies status, e)
concluded a r flow now (cookies, e) (ok claims) = complete a r flow claims now cookies e

module _ (query : Bytes → Bytes → Bytes) (post_token : Bytes → Values → Option Bytes) where
  exchanged : Authenticator → Flow → Bytes → Result ℕ Claims
  unfolding token_form accepted
  exchanged a flow code = and_then (or_err (endpoint a) 502) λ ep.
      and_then (or_err (post_token ep.token_url (token_form a flow code)) 502)
        λ id_token. and_then (or_err (a.verifier.verify id_token) 401) (accepted a flow)

  -- What a matched callback shows: the claims of its token, or the status of the refusal.
  unfoldable pub authenticate : Authenticator → Request → Flow → Result ℕ Claims
  unfolding exchanged
  authenticate a r flow =
      let code = query r.raw_query (text "code") in
      if not (is_empty (query r.raw_query (text "error")))
      then err 401
      else if is_empty code
      then err 400
      else exchanged a flow code

  module _ (cipher : Cipher) (j : Codec FlowSet) (t : AddrText) where
    answer :
        Authenticator
        → Request
        → ℕ
        → Entropy
        → List Flow
        → Option ℕ
        → Option Flow
        → Option (Reply × Entropy)
    unfolding concluded authenticate
    answer a r now e flows idx none = none
    answer a r now e flows idx (some flow) =
        concluded a r flow now (consume_flow cipher j t a r flows idx now e) (authenticate a r flow)

    matched :
        Authenticator → Request → ℕ → Entropy → List Flow → Option ℕ → Option (Reply × Entropy)
    unfolding answer nth
    matched a r now e flows none = some (reply (failed 400), e)
    matched a r now e flows (some i) = answer a r now e flows (some i) (nth i flows)

    with_flows : Authenticator → Request → ℕ → Entropy → List Flow → Option (Reply × Entropy)
    unfolding matched
    with_flows a r now e [] = some (refusal (SealedCookie.clear t a.cfg.flow_cookie r ∷ []) 400, e)
    with_flows a r now e (f ∷ fs) =
        matched a r now e (f ∷ fs) (match_flow (f ∷ fs) (query r.raw_query (text "state")))

    unfoldable pub callback : Authenticator → Request → ℕ → Entropy → Option (Reply × Entropy)
    unfolding with_flows
    callback a r now e = with_flows a r now e (pending_flows cipher j a r now)
