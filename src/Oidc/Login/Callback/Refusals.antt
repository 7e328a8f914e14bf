-- ===== src/Oidc/Login/Callback/Refusals.antt =====
-- When the callback of oidc/login.go refuses, and that it always answers.
use tokyo3_base.Base.{
  ℕ, ◌≡◌, refl, ap, true, Option, none, some, List, [], ◌∷◌, arith, Bytes, text, Result, ok, err,
  Option-cases, inl, inr,
}
use tokyo3_base.ClientIp.{AddrText}
use tokyo3_base.Crypto.Cipher.{Cipher}
use tokyo3_base.Crypto.Entropy.{Entropy}
use tokyo3_base.Http.{Request, SetCookie}
use tokyo3_base.Oidc.Verifier.{Claims}
use tokyo3_base.SealedCookie
use tokyo3_base.SealedCookie.{Codec, IsLossless, is_empty}
use tokyo3_base.Session.Manager.{Reply}
use tokyo3_base.UrlQuery.{Values}
use tokyo3_base.Oidc.Login.{
  AuthenticatorConfig, SessionIssuer, TokenVerifier, Authenticator, Flow, FlowSet, pending_flows,
  consume_flow, new_authenticator, checked_members, checked_cookie, can_complete, with_defaults,
}
use tokyo3_base.Oidc.Login.Callback.{
  refusal, complete, completed_by, by_default, concluded, authenticate, matched, answer, with_flows,
  callback,
}
use tokyo3_base.Oidc.Login.Matching.{Misses, match_flow_cases, match_flow-none}

checked_cookie_inv :
    (cfg : AuthenticatorConfig) (v : TokenVerifier) (s : SessionIssuer)
    (x : Result SealedCookie.Error (Unit {0})) (a : Authenticator)
    → checked_cookie cfg v s x ≡ ok a
    → (can_complete s ≡ true)
      × (s.is_exempt (with_defaults cfg).callback_path ≡ true)
      × (◌≡◌ {A = Authenticator} (record { cfg = with_defaults cfg; verifier = v; sess = s }) a)
unfolding checked_cookie
checked_cookie_inv cfg v s (err x) a h = absurd (ground arith)
checked_cookie_inv cfg v s (ok u) a h = (ground (arith, h), ground (arith, h), ground (arith, h))

checked_members_inv :
    (cfg : AuthenticatorConfig) (v : Option TokenVerifier) (s : Option SessionIssuer)
    (a : Authenticator)
    → checked_members cfg v s ≡ ok a
    → can_complete a.sess ≡ true
unfolding checked_members
checked_members_inv cfg none s a h = absurd (ground arith)
checked_members_inv cfg (some v) none a h = absurd (ground arith)
checked_members_inv cfg (some v) (some s) a h =
    let (can, _, is) =
      checked_cookie_inv cfg v s (SealedCookie.validate cfg.flow_cookie) a (ground (arith, h)) in
    rw (← ap (λ x. x.sess) is) can

new_authenticator-can_complete :
    (cfg : AuthenticatorConfig) (s : Option SessionIssuer) (a : Authenticator)
    → new_authenticator cfg s ≡ ok a
    → can_complete a.sess ≡ true
unfolding new_authenticator
new_authenticator-can_complete cfg s a h =
    checked_members_inv cfg cfg.verifier s a (ground (arith, h))

complete_answers :
    (a : Authenticator) (r : Request) (flow : Flow) (claims : Claims) (now : ℕ)
    (cookies : List SetCookie) (e : Entropy)
    → can_complete a.sess ≡ true
    → (p : Reply × Entropy) × (complete a r flow claims now cookies e ≡ some p)
unfolding complete can_complete
complete_answers a r flow claims now cookies e can =
    elim (Option-cases a.sess.completion_override) [
      | inr (f, o) ↦ rw (o, completed_by) (_, refl)
      | inl o ↦ elim (Option-cases a.sess.completer) [
        | inr (d, c) ↦ rw (o, completed_by, c, by_default) (_, refl)
        | inl c ↦ absurd (ground (arith, can, o, c))
      ]
    ]

concluded_answers :
    (a : Authenticator) (r : Request) (flow : Flow) (now : ℕ) (q : List SetCookie × Entropy)
    (x : Result ℕ Claims)
    → can_complete a.sess ≡ true
    → (p : Reply × Entropy) × (concluded a r flow now q x ≡ some p)
unfolding concluded
concluded_answers a r flow now (cookies, e) (err n) can = (_, refl)
concluded_answers a r flow now (cookies, e) (ok claims) can =
    complete_answers a r flow claims now cookies e can

module _ (query : Bytes → Bytes → Bytes) (post_token : Bytes → Values → Option Bytes)
    (cipher : Cipher) (j : Codec FlowSet) (t : AddrText) where
  with_flows_answers :
      (a : Authenticator) (r : Request) (now : ℕ) (e : Entropy) (flows : List Flow)
      → can_complete a.sess ≡ true
      → (p : Reply × Entropy) × (with_flows query post_token cipher j t a r now e flows ≡ some p)
  unfolding with_flows matched answer
  with_flows_answers a r now e [] can = (_, refl)
  with_flows_answers a r now e (f ∷ fs) can =
      elim (match_flow_cases (query r.raw_query (text "state")) (f ∷ fs)) [
        | inl (none_found, _) ↦ rw none_found (_, refl)
        | inr (i, found, (flow, at, same, full)) ↦
            rw (found, at)
              (concluded_answers a r flow now (consume_flow cipher j t a r (f ∷ fs) (some i) now e)
                (authenticate query post_token a r flow) can)
      ]

  -- The callback of an Authenticator that NewAuthenticator made answers every request: neither the index
  -- of the flow nor the assertion that the issuer can complete a login panics.
  pub callback_answers :
      (cfg : AuthenticatorConfig) (s : Option SessionIssuer) (a : Authenticator) (r : Request)
      (now : ℕ) (e : Entropy)
      → new_authenticator cfg s ≡ ok a
      → (p : Reply × Entropy) × (callback query post_token cipher j t a r now e ≡ some p)
  unfolding callback
  callback_answers cfg s a r now e made =
      with_flows_answers a r now e (pending_flows cipher j a r now)
        (new_authenticator-can_complete cfg s a made)

  -- The flow cookie is only cleared where no login is pending.
  abbrev pub cleared : Authenticator → Request → List Flow → List SetCookie
  cleared a r [] = SealedCookie.clear t a.cfg.flow_cookie r ∷ []
  cleared a r (f ∷ fs) = []

  with_flows_forged :
      (a : Authenticator) (r : Request) (now : ℕ) (e : Entropy) (flows : List Flow)
      → Misses (query r.raw_query (text "state")) flows
      → with_flows query post_token cipher j t a r now e flows
        ≡ some (refusal (cleared a r flows) 400, e)
  unfolding with_flows matched
  with_flows_forged a r now e [] m = refl
  with_flows_forged a r now e (f ∷ fs) m =
      rw (match_flow-none (query r.raw_query (text "state")) (f ∷ fs) m) refl

  -- A callback whose state is that of no pending login is refused with 400, whatever else it carries, and
  -- draws no randomness; the cookie with the pending logins is left as it is where there are any.
  pub callback_forged :
      (a : Authenticator) (r : Request) (now : ℕ) (e : Entropy)
      → Misses (query r.raw_query (text "state")) (pending_flows cipher j a r now)
      → callback query post_token cipher j t a r now e
        ≡ some (refusal (cleared a r (pending_flows cipher j a r now)) 400, e)
  unfolding callback
  callback_forged a r now e = with_flows_forged a r now e (pending_flows cipher j a r now)
