-- ===== src/Oidc/Login/Callback/Soundness.antt =====
-- Who is logged in by the callback of oidc/login.go, and as whom.
use tokyo3_base.Base.{
  ℕ, ◌≡◌, refl, ap, ◌∙◌, true, false, Option, none, some, List, [], ◌∷◌, ◌++◌, arith, Bytes,
  bytes_eq_iff, text, Result, ok, err, and_then, or_err, Bool-cases, inl, inr, ◌⊎◌,
}
use tokyo3_base.ClientIp.{AddrText}
use tokyo3_base.Crypto.Cipher.{Cipher}
use tokyo3_base.Crypto.Entropy.{Entropy}
use tokyo3_base.Http.{Request, SetCookie}
use tokyo3_base.Oidc.Verifier.{Claims}
use tokyo3_base.SealedCookie
use tokyo3_base.SealedCookie.{Codec, is_empty}
use tokyo3_base.Session.Config.{Session}
use tokyo3_base.Session.Manager.{redirect, Reply}
use tokyo3_base.UrlQuery.{Values}
use tokyo3_base.Oidc.Login.{
  Authenticator, Flow, FlowSet, Endpoint, DefaultCompleter, pending_flows, match_flow, consume_flow,
  endpoint,
}
use tokyo3_base.Oidc.Login.Callback.{
  nth, token_form, accepted, filled, enriched, refusal, issued, sealed_session, minted, by_default,
  completed_by, complete, concluded, exchanged, authenticate, answer, matched, with_flows, callback,
}
use tokyo3_base.Oidc.Login.Matching.{match_flow_cases, IsPending, pending_flows-nth}

accepted_inv :
    (a : Authenticator) (flow : Flow) (claims c : Claims)
    → accepted a flow claims ≡ ok c
    → (claims ≡ c)
      × (claims.nonce ≡ flow.nonce)
      × (is_empty claims.subject ≡ false)
      × (a.cfg.require_verified_email ≡ true → claims.email_verified ≡ true)
unfolding accepted
accepted_inv a flow claims c h = (
  ground (arith, h),
  ground (arith, h, bytes_eq_iff claims.nonce flow.nonce),
  ground (arith, h),
  λ v. ground (arith, h, v),
)

or_err_inv {ℓ} : {A : Type ℓ} (o : Option A) (n : ℕ) (a : A) → or_err o n ≡ ok a → o ≡ some a
or_err_inv none n a h = absurd (ground arith)
or_err_inv (some b) n a h = ground arith

and_then_inv {ℓ κ} :
    {A : Type ℓ} {B : Type κ} (x : Result ℕ A) (f : A → Result ℕ B) (b : B)
    → and_then x f ≡ ok b
    → (a : A) × (x ≡ ok a) × (f a ≡ ok b)
and_then_inv (ok a) f b h = (a, refl, h)
and_then_inv (err n) f b h = absurd (ground arith)

-- The session that the issuer made is filled from the claims, enriched and sealed into a cookie, and the
-- browser is sent back to where the login began.
abbrev pub IsIssued :
    Authenticator
    → Request
    → ℕ
    → Flow
    → Claims
    → List SetCookie
    → Entropy
    → Reply × Entropy
    → Type 0
IsIssued a r now flow claims cookies e p =
    (d : DefaultCompleter) × (base : Session) × (e₁ : Entropy) × (sess : Session) × (ck : SetCookie)
    × (a.sess.completer ≡ some d)
    × (d.new_session now e ≡ (ok base, e₁))
    × (enriched a claims (filled claims base) ≡ ok sess)
    × (d.issue_session r sess now e₁ ≡ (ok ck, p.1))
    × (p.0.cookies ≡ cookies ++ (ck ∷ []))
    × (p.0.verdict ≡ redirect flow.return_to)

issued_inv :
    (cookies : List SetCookie) (flow : Flow) (x : Result ℕ SetCookie × Entropy) (loc : Bytes)
    → (issued cookies flow x).0.verdict ≡ redirect loc
    → (ck : SetCookie) × (x ≡ (ok ck, (issued cookies flow x).1))
      × ((issued cookies flow x).0.cookies ≡ cookies ++ (ck ∷ []))
      × ((issued cookies flow x).0.verdict ≡ redirect flow.return_to)
unfolding issued
issued_inv cookies flow (ok ck, e) loc h = (ck, refl, refl, refl)
issued_inv cookies flow (err x, e) loc h = absurd (ground arith)

sealed_session_inv :
    (d : DefaultCompleter) (r : Request) (flow : Flow) (now : ℕ) (cookies : List SetCookie)
    (e : Entropy) (x : Result ℕ Session) (loc : Bytes)
    → (sealed_session d r flow now cookies e x).0.verdict ≡ redirect loc
    → (sess : Session) × (ck : SetCookie) × (x ≡ ok sess)
      × (d.issue_session r sess now e ≡ (ok ck, (sealed_session d r flow now cookies e x).1))
      × ((sealed_session d r flow now cookies e x).0.cookies ≡ cookies ++ (ck ∷ []))
      × ((sealed_session d r flow now cookies e x).0.verdict ≡ redirect flow.return_to)
unfolding sealed_session
sealed_session_inv d r flow now cookies e (err x) loc h = absurd (ground arith)
sealed_session_inv d r flow now cookies e (ok sess) loc h =
    let (ck, made, all, to) = issued_inv cookies flow (d.issue_session r sess now e) loc h in
    (sess, ck, refl, made, all, to)

minted_inv :
    (a : Authenticator) (d : DefaultCompleter) (r : Request) (flow : Flow) (claims : Claims)
    (now : ℕ) (cookies : List SetCookie) (e : Entropy) (loc : Bytes)
    (x : Result ℕ Session × Entropy)
    → a.sess.completer ≡ some d
    → d.new_session now e ≡ x
    → (minted a d r flow claims now cookies x).0.verdict ≡ redirect loc
    → IsIssued a r now flow claims cookies e (minted a d r flow claims now cookies x)
unfolding minted
minted_inv a d r flow claims now cookies e loc (err x, e₁) has new h = absurd (ground arith)
minted_inv a d r flow claims now cookies e loc (ok base, e₁) has new h =
    let (sess, ck, rich, made, all, to) =
      sealed_session_inv d r flow now cookies e₁ (enriched a claims (filled claims base)) loc h in
    (d, base, e₁, sess, ck, has, new, rich, made, all, to)

by_default_inv :
    (a : Authenticator) (o : Option DefaultCompleter) (r : Request) (flow : Flow) (claims : Claims)
    (now : ℕ) (cookies : List SetCookie) (e : Entropy) (loc : Bytes) (p : Reply × Entropy)
    → a.sess.completer ≡ o
    → by_default a o r flow claims now cookies e ≡ some p
    → p.0.verdict ≡ redirect loc
    → IsIssued a r now flow claims cookies e p
unfolding by_default
by_default_inv a none r flow claims now cookies e loc p has h to = absurd (ground arith)
by_default_inv a (some d) r flow claims now cookies e loc p has h to =
    let same : minted a d r flow claims now cookies (d.new_session now e) ≡ p = ground (arith, h) in
    rw (← same)
      (minted_inv a d r flow claims now cookies e loc (d.new_session now e) has refl (rw same to))

concluded_inv :
    (a : Authenticator) (r : Request) (flow : Flow) (now : ℕ) (q : List SetCookie × Entropy)
    (x : Result ℕ Claims) (loc : Bytes) (p : Reply × Entropy)
    → a.sess.completion_override ≡ none
    → concluded a r flow now q x ≡ some p
    → p.0.verdict ≡ redirect loc
    → (claims : Claims) × (x ≡ ok claims) × IsIssued a r now flow claims q.0 q.1 p
unfolding concluded complete
concluded_inv a r flow now (cookies, e) (err n) loc p alone h to = absurd (ground arith)
concluded_inv a r flow now (cookies, e) (ok claims) loc p alone h to = (
  claims,
  refl,
  by_default_inv a a.sess.completer r flow claims now cookies e loc p refl
      (rw (alone, completed_by) at h) to,
)

module _ (query : Bytes → Bytes → Bytes) (post_token : Bytes → Values → Option Bytes) where
  -- The request carries an authorization code and no error; the code, with the verifier of the flow,
  -- bought a token at the token endpoint; and the claims are the verified ones of this token, with the
  -- nonce of the flow, a subject, and a verified email where one is asked for.
  abbrev pub IsShown : Authenticator → Request → Flow → Claims → Type 0
  IsShown a r flow claims =
      (ep : Endpoint) × (id_token : Bytes) × (is_empty (query r.raw_query (text "error")) ≡ true)
      × (is_empty (query r.raw_query (text "code")) ≡ false)
      × (endpoint a ≡ some ep)
      × (post_token ep.token_url (token_form a flow (query r.raw_query (text "code")))
          ≡ some id_token)
      × (a.verifier.verify id_token ≡ some claims)
      × (claims.nonce ≡ flow.nonce)
      × (is_empty claims.subject ≡ false)
      × (a.cfg.require_verified_email ≡ true → claims.email_verified ≡ true)

  authenticate_inv :
      (a : Authenticator) (r : Request) (flow : Flow) (claims : Claims)
      → authenticate query post_token a r flow ≡ ok claims
      → IsShown a r flow claims
  unfolding authenticate exchanged
  authenticate_inv a r flow claims h =
      elim (Bool-cases (is_empty (query r.raw_query (text "error")))) [
        | inr failure ↦ absurd (ground (arith, rw failure at h))
        | inl clean ↦ elim (Bool-cases (is_empty (query r.raw_query (text "code")))) [
          | inl missing ↦ absurd (ground (arith, rw (clean, missing) at h))
          | inr code ↦
              let (ep, at, h₁) = and_then_inv _ _ _ (rw (clean, code) at h) in
              let (id_token, bought, h₂) = and_then_inv _ _ _ h₁ in
              let (c, shown, h₃) = and_then_inv _ _ _ h₂ in
              let (same, nonce, subject, email) = accepted_inv a flow c claims h₃ in
              (
                ep,
                id_token,
                clean,
                code,
                or_err_inv _ 502 ep at,
                or_err_inv _ 502 id_token bought,
                or_err_inv _ 401 c shown ∙ ap some same,
                rw (← same) nonce,
                rw (← same) subject,
                rw (← same) email,
              )
        ]
      ]

  module _ (cipher : Cipher) (j : Codec FlowSet) (t : AddrText) where
    -- A login that is pending in the browser, with the state of the request, which is not empty.
    abbrev pub IsStarted : Authenticator → Request → ℕ → Flow → Type 0
    IsStarted a r now flow =
        IsPending cipher j a r now flow
        × (flow.state ≡ query r.raw_query (text "state"))
        × (is_empty flow.state ≡ false)

    with_flows_cases :
        (a : Authenticator) (r : Request) (now : ℕ) (e : Entropy) (flows : List Flow)
        → ((cookies : List SetCookie) × (with_flows query post_token cipher j t a r now e flows
              ≡ some (refusal cookies 400, e)))
          ⊎ ((i : ℕ) × (flow : Flow) × (match_flow flows (query r.raw_query (text "state"))
                ≡ some i)
              × (nth i flows ≡ some flow)
              × (flow.state ≡ query r.raw_query (text "state"))
              × (is_empty (query r.raw_query (text "state")) ≡ false)
              × (with_flows query post_token cipher j t a r now e flows
                  ≡ concluded a r flow now
                      (consume_flow cipher j t a r flows (some i) now e)
                      (authenticate query post_token a r flow)))
    unfolding with_flows matched answer
    with_flows_cases a r now e [] = inl (SealedCookie.clear t a.cfg.flow_cookie r ∷ [], refl)
    with_flows_cases a r now e (f ∷ fs) =
        elim (match_flow_cases (query r.raw_query (text "state")) (f ∷ fs)) [
          | inl (none_found, _) ↦ inl ([], rw none_found refl)
          | inr (i, found, (flow, at, same, full)) ↦
              inr (i, flow, found, at, same, full, rw (found, at) refl)
        ]

    -- With an issuer that has no completion of its own: a callback that sends the browser on completes a
    -- login that this browser began. There is a pending login in its flow cookie, before its deadline,
    -- with the state of the request, which is not empty. The authorization code of the request and the
    -- verifier of that login bought a token, whose verified claims have the nonce of that login, a
    -- subject, and a verified email where the configuration asks for one. The session sealed is the
    -- issuer's new session, filled from these claims and enriched; that pending login is consumed; and
    -- the browser is sent to where that login began.
    pub callback_sound :
        (a : Authenticator) (r : Request) (now : ℕ) (e : Entropy) (p : Reply × Entropy)
        (loc : Bytes)
        → a.sess.completion_override ≡ none
        → callback query post_token cipher j t a r now e ≡ some p
        → p.0.verdict ≡ redirect loc
        → (flow : Flow) × (claims : Claims) × (i : ℕ) × (q : List SetCookie × Entropy) × IsStarted a
            r now flow
          × IsShown a r flow claims
          × (match_flow (pending_flows cipher j a r now) (query r.raw_query (text "state"))
              ≡ some i)
          × (nth i (pending_flows cipher j a r now) ≡ some flow)
          × (consume_flow cipher j t a r (pending_flows cipher j a r now) (some i) now e ≡ q)
          × IsIssued a r now flow claims q.0 q.1 p
    unfolding callback
    callback_sound a r now e p loc alone h to =
        elim (with_flows_cases a r now e (pending_flows cipher j a r now)) [
          | inl (cookies, refused) ↦ absurd (ground (arith, refused, h, to))
          | inr (i, flow, found, at, same, full, is) ↦
              let (claims, shown, done) =
                concluded_inv a r flow now _ (authenticate query post_token a r flow) loc p alone
                  (rw is at h) to in
              (
                flow,
                claims,
                i,
                _,
                (pending_flows-nth cipher j a r now i flow at, same, rw same full),
                authenticate_inv a r flow claims shown,
                found,
                at,
                refl,
                done,
              )
        ]
