-- ===== src/Oidc/Login/Trip.antt =====
-- A login of oidc/login.go from its beginning to its end, also where a session.Manager is the issuer.
use tokyo3_base.Base.{
  ℕ, ◌+◌, ◌/◌, ◌<◌, ◌≡◌, ap, ◌∙◌, Option, none, some, List, arith, Bytes, text, All, Result, ok,
  map_err, subst,
}
use tokyo3_base.ClientIp.{AddrText}
use tokyo3_base.Crypto.Cipher.{Cipher, IsCorrect, EmitsBytes}
use tokyo3_base.Crypto.Entropy.{Entropy}
use tokyo3_base.Http.{Request, SetCookie}
use tokyo3_base.Oidc.Verifier.{Claims}
use tokyo3_base.SealedCookie.{Codec, IsLossless}
use tokyo3_base.Session.Config.{Session, Manager, is_exempt}
use tokyo3_base.Session.Manager.{
  Error, Url, redirect, Reply, safe_return_to, new_session, issue_session,
}
use tokyo3_base.UrlQuery.{UrlText, Values}
use tokyo3_base.Oidc.Login.{Authenticator, Flow, FlowSet, SessionIssuer, second, flow_ttl}
use tokyo3_base.Oidc.Login.Begin.{rand_b64, begin}
use tokyo3_base.Oidc.Login.Begin.Started.{IsBegun, begin_started}
use tokyo3_base.Oidc.Login.Callback.{callback}
use tokyo3_base.Oidc.Login.Callback.Soundness.{IsShown, callback_sound}
use tokyo3_base.Oidc.Login.Matching.{Carries}

numbered : {A : Type 0} → Result Error A × Entropy → Result ℕ A × Entropy
numbered (r, e) = (map_err (λ x. 0) r, e)

-- A session.Manager as the issuer of sessions.
unfoldable pub manager_issuer :
    Cipher → Codec Session → AddrText → (Bytes → Option Url) → Manager → SessionIssuer
unfolding numbered
manager_issuer cipher j t parse_url m = record {
  safe_return_to = safe_return_to parse_url m;
  is_exempt = is_exempt m;
  completer = some (record {
    new_session = λ now e. numbered (new_session m now e);
    issue_session = λ r sess now e. numbered (issue_session cipher j t m r sess now e);
  });
  completion_override = none;
}

module _ (cipher : Cipher) (j : Codec FlowSet) (t : AddrText) (u : UrlText) (sha256 : Bytes → Bytes)
    (query : Bytes → Bytes → Bytes) (post_token : Bytes → Values → Option Bytes) where
  -- With a correct cipher that gives bytes, a lossless encoding and random bytes, and an issuer that has
  -- no completion of its own: Begin gave an authorize URL, and within ten minutes the same browser comes
  -- to the callback with the state of this login. If the callback sends it on, then to what the issuer
  -- made of the path that was asked for when the login began; and the token that it was logged in by was
  -- bought with the verifier whose challenge that URL has, and has the nonce that that URL has.
  pub login_returns :
      (a : Authenticator) (r r' : Request) (extra : Bytes) (now now' : ℕ) (e e₂ : Entropy)
      (url : Bytes) (cookies : List SetCookie) (e₁ : Entropy) (p : Reply × Entropy) (loc : Bytes)
      → IsCorrect cipher
      → EmitsBytes cipher
      → IsLossless j
      → All (λ b. b < 256) e
      → a.sess.completion_override ≡ none
      → begin cipher j t u sha256 query a r extra now e ≡ (ok url, cookies, e₁)
      → Carries a cookies r'
      → now' / second < (now + flow_ttl) / second
      → (rand_b64 24 e).0 ≡ ok (query r'.raw_query (text "state"))
      → callback query post_token cipher j t a r' now' e₂ ≡ some p
      → p.0.verdict ≡ redirect loc
      → (flow : Flow) × (claims : Claims) × IsBegun cipher j t u sha256 query a r extra now url flow
        × IsShown query post_token a r' flow claims
        × (loc ≡ a.sess.safe_return_to (query r.raw_query (text "return_to")))
  login_returns a r r' extra now now' e e₂ url cookies e₁ p loc ic em lo he alone h carried live
        drawn back to =
      let (flow, i, state, begun, found, at, _) =
        begin_started cipher j t u sha256 query a r r' extra now now' e url cookies e₁ ic em lo he h
          carried live in
      let (flow', claims, i', _, _, shown, found', at', _, issued) =
        callback_sound query post_token cipher j t a r' now' e₂ p loc alone back to in
      let same : flow.state ≡ query r'.raw_query (text "state") = ground (arith, state, drawn) in
      let here : i ≡ i' = ground (arith, rw same at found, found') in
      let is : flow' ≡ flow = ground (arith, rw here at at, at') in
      let (_, _, _, _, _, _, _, _, _, _, sent) = issued in
      let (_, _, _, way, _, _) = begun in
      let home_again : loc ≡ flow'.return_to = ground (arith, to, sent) in
      (
        flow,
        claims,
        begun,
        subst (λ f. IsShown query post_token a r' f claims) is shown,
        home_again ∙ ap (λ x. x.return_to) is ∙ way,
      )
