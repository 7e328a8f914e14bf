-- ===== src/Oidc/Login/Callback/Cookies.antt =====
-- The cookies of an answer of CallbackHandler in oidc/login.go.
use tokyo3_base.Base.{
  ℕ, ◌+◌, ◌≤◌, ◌≡◌, refl, ap, ◌∙◌, true, false, Option, none, some, List, [], ◌∷◌, ◌++◌, arith,
  Bytes, bytes_eq, bytes_eq_refl, text, Result, ok, err, Bool-cases, inl, inr, if◌then◌else◌,
}
use tokyo3_base.ClientIp.{AddrText}
use tokyo3_base.Crypto.Cipher.{Cipher}
use tokyo3_base.Crypto.Entropy.{Entropy}
use tokyo3_base.Http.{Request, SetCookie}
use tokyo3_base.Oidc.Verifier.{Claims}
use tokyo3_base.SealedCookie
use tokyo3_base.SealedCookie.{Codec, is_empty}
use tokyo3_base.SealedCookie.RoundTrip.{set-name}
use tokyo3_base.Session.Config.{Session}
use tokyo3_base.Session.Manager.{Verdict, Reply}
use tokyo3_base.UrlQuery.{Values}
use tokyo3_base.Oidc.Login.{
  Authenticator, Flow, FlowSet, DefaultCompleter, CompletionOverride, pending_flows, match_flow,
  consume_flow, keep_flows, set_or_clear, without, flow_ttl,
}
use tokyo3_base.Oidc.Login.Callback.{
  nth, enriched, filled, refusal, overridden, issued, sealed_session, minted, by_default,
  completed_by, complete, concluded, authenticate, answer, matched, with_flows, callback,
}
use tokyo3_base.Oidc.Login.Matching.{kept_value, match_flow_complete}

-- What a browser sends by a name after an answer that sets cookies, where it sent something before.
unfoldable pub left_by : Bytes → Option Bytes → List SetCookie → Option Bytes
left_by name before [] = before
left_by name before (ck ∷ cks) =
    left_by name (if bytes_eq ck.name name then kept_value ck else before) cks

-- How many of the cookies have the name.
unfoldable pub times : Bytes → List SetCookie → ℕ
times name [] = 0
times name (ck ∷ cks) =
    let rest = times name cks in if bytes_eq ck.name name then rest + 1 else rest

left_by-none :
    (name : Bytes) (before : Option Bytes) (cks : List SetCookie)
    → times name cks ≡ 0
    → left_by name before cks ≡ before
unfolding left_by times
left_by-none name before [] h = refl
left_by-none name before (ck ∷ cks) h = elim (Bool-cases (bytes_eq ck.name name)) [
  | inl same ↦ absurd (ground (arith, h, same))
  | inr other ↦ rw other (left_by-none name before cks (ground (arith, h, other)))
]

-- The first cookie of the name is what is left of it, if there is no other.
pub left_by-first :
    (name : Bytes) (before : Option Bytes) (ck : SetCookie) (cks : List SetCookie)
    → ck.name ≡ name
    → times name (ck ∷ cks) ≤ 1
    → left_by name before (ck ∷ cks) ≡ kept_value ck
unfolding left_by times
left_by-first name before ck cks named once =
    let same : bytes_eq ck.name name ≡ true = rw named (bytes_eq_refl name) in
    rw same (left_by-none name (kept_value ck) cks (ground (arith, once, same)))

-- The answer begins with some cookies.
abbrev pub StartsWith : List SetCookie → Reply × Entropy → Type 0
StartsWith cookies p = (more : List SetCookie) × (p.0.cookies ≡ cookies ++ more)

++-nil : (xs : List SetCookie) → xs ≡ xs ++ []
++-nil [] = refl
++-nil (x ∷ xs) = ap (λ ys. x ∷ ys) (++-nil xs)

issued_cookies :
    (cookies : List SetCookie) (flow : Flow) (x : Result ℕ SetCookie × Entropy)
    → StartsWith cookies (issued cookies flow x)
unfolding issued
issued_cookies cookies flow (ok ck, e) = (ck ∷ [], refl)
issued_cookies cookies flow (err x, e) = ([], ++-nil cookies)

sealed_session_cookies :
    (d : DefaultCompleter) (r : Request) (flow : Flow) (now : ℕ) (cookies : List SetCookie)
    (e : Entropy) (x : Result ℕ Session)
    → StartsWith cookies (sealed_session d r flow now cookies e x)
unfolding sealed_session
sealed_session_cookies d r flow now cookies e (err x) = ([], ++-nil cookies)
sealed_session_cookies d r flow now cookies e (ok sess) =
    issued_cookies cookies flow (d.issue_session r sess now e)

minted_cookies :
    (a : Authenticator) (d : DefaultCompleter) (r : Request) (flow : Flow) (claims : Claims)
    (now : ℕ) (cookies : List SetCookie) (x : Result ℕ Session × Entropy)
    → StartsWith cookies (minted a d r flow claims now cookies x)
unfolding minted
minted_cookies a d r flow claims now cookies (err x, e) = ([], ++-nil cookies)
minted_cookies a d r flow claims now cookies (ok sess, e) =
    sealed_session_cookies d r flow now cookies e (enriched a claims (filled claims sess))

overridden_cookies :
    (cookies : List SetCookie) (x : List SetCookie × Result ℕ Verdict)
    → (more : List SetCookie) × ((overridden cookies x).cookies ≡ cookies ++ more)
unfolding overridden
overridden_cookies cookies (more, ok v) = (more, refl)
overridden_cookies cookies (more, err x) = (more, refl)

by_default_cookies :
    (a : Authenticator) (o : Option DefaultCompleter) (r : Request) (flow : Flow) (claims : Claims)
    (now : ℕ) (cookies : List SetCookie) (e : Entropy) (p : Reply × Entropy)
    → by_default a o r flow claims now cookies e ≡ some p
    → StartsWith cookies p
unfolding by_default
by_default_cookies a none r flow claims now cookies e p h = absurd (ground (arith, h))
by_default_cookies a (some d) r flow claims now cookies e p h =
    let same : minted a d r flow claims now cookies (d.new_session now e) ≡ p = ground (arith, h) in
    rw (← same) (minted_cookies a d r flow claims now cookies (d.new_session now e))

completed_by_cookies :
    (a : Authenticator) (o : Option CompletionOverride) (r : Request) (flow : Flow)
    (claims : Claims) (now : ℕ) (cookies : List SetCookie) (e : Entropy) (p : Reply × Entropy)
    → completed_by a o r flow claims now cookies e ≡ some p
    → StartsWith cookies p
unfolding completed_by
completed_by_cookies a none r flow claims now cookies e p h =
    by_default_cookies a a.sess.completer r flow claims now cookies e p h
completed_by_cookies a (some f) r flow claims now cookies e p h =
    let made = f r claims (record { return_to = flow.return_to; extra = flow.extra }) in
    let same : (overridden cookies made, e) ≡ p = ground (arith, h) in
    rw (← same) (overridden_cookies cookies made)

concluded_cookies :
    (a : Authenticator) (r : Request) (flow : Flow) (now : ℕ) (q : List SetCookie × Entropy)
    (x : Result ℕ Claims) (p : Reply × Entropy)
    → concluded a r flow now q x ≡ some p
    → StartsWith q.0 p
unfolding concluded complete
concluded_cookies a r flow now (cookies, e) (err n) p h =
    let same : (refusal cookies n, e) ≡ p = ground (arith, h) in rw (← same) ([], ++-nil cookies)
concluded_cookies a r flow now (cookies, e) (ok claims) p h =
    completed_by_cookies a a.sess.completion_override r flow claims now cookies e p h

-- One cookie, of a name.
abbrev pub IsOne : Bytes → List SetCookie → Type 0
IsOne name cks = (ck : SetCookie) × (cks ≡ ck ∷ []) × (ck.name ≡ name)

module _ (cipher : Cipher) (j : Codec FlowSet) (t : AddrText) where
  set_or_clear-IsOne :
      (a : Authenticator) (r : Request) (x : Result SealedCookie.Error SetCookie × Entropy)
      → ((ck : SetCookie) → x.0 ≡ ok ck → ck.name ≡ a.cfg.flow_cookie.name)
      → IsOne a.cfg.flow_cookie.name (set_or_clear cipher j t a r x).0
  unfolding set_or_clear SealedCookie.clear
  set_or_clear-IsOne a r (ok ck, e) h = (ck, refl, h ck refl)
  set_or_clear-IsOne a r (err x, e) h = (_, refl, refl)

  keep_flows-IsOne :
      (a : Authenticator) (r : Request) (now : ℕ) (e : Entropy) (flows : List Flow)
      → IsOne a.cfg.flow_cookie.name (keep_flows cipher j t a r now e flows).0
  unfolding keep_flows SealedCookie.clear
  keep_flows-IsOne a r now e [] = (_, refl, refl)
  keep_flows-IsOne a r now e (f ∷ fs) =
      let made =
        SealedCookie.set cipher j t a.cfg.flow_cookie r (record { flows = f ∷ fs }) flow_ttl now
          e in
      set_or_clear-IsOne a r made (λ ck h.
        set-name cipher j t a.cfg.flow_cookie r (record { flows = f ∷ fs }) flow_ttl now e ck made.1
          (ap (λ x. (x, made.1)) h))

  module _ (query : Bytes → Bytes → Bytes) (post_token : Bytes → Values → Option Bytes) where
    with_flows_matched :
        (a : Authenticator) (r : Request) (now : ℕ) (e : Entropy) (flows : List Flow) (k i : ℕ)
        (flow f : Flow) (p : Reply × Entropy)
        → nth i flows ≡ some f
        → match_flow flows (query r.raw_query (text "state")) ≡ some k
        → nth k flows ≡ some flow
        → with_flows query post_token cipher j t a r now e flows ≡ some p
        → StartsWith (consume_flow cipher j t a r flows (some k) now e).0 p
    unfolding with_flows matched answer nth
    with_flows_matched a r now e [] k i flow f p there found at h = absurd (ground (arith, there))
    with_flows_matched a r now e (g ∷ gs) k i flow f p there found at h =
        concluded_cookies a r flow now (consume_flow cipher j t a r (g ∷ gs) (some k) now e)
          (authenticate query post_token a r flow) p (rw (found, at) at h)

    -- A callback whose state is that of a pending login consumes a pending login with that state: its answer
    -- begins with the one cookie that is left of the flow cookie.
    pub callback_consumes :
        (a : Authenticator) (r : Request) (now : ℕ) (e : Entropy) (i : ℕ) (flow : Flow)
        (p : Reply × Entropy)
        → nth i (pending_flows cipher j a r now) ≡ some flow
        → is_empty flow.state ≡ false
        → query r.raw_query (text "state") ≡ flow.state
        → callback query post_token cipher j t a r now e ≡ some p
        → (k : ℕ) × (other : Flow) × (ck : SetCookie) × (more : List SetCookie) × (nth k
              (pending_flows cipher j a r now)
            ≡ some other)
          × (other.state ≡ flow.state)
          × ((consume_flow cipher j t a r (pending_flows cipher j a r now) (some k) now e).0
              ≡ ck ∷ [])
          × (ck.name ≡ a.cfg.flow_cookie.name)
          × (p.0.cookies ≡ ck ∷ more)
    unfolding callback consume_flow
    callback_consumes a r now e i flow p at full state h =
        let flows = pending_flows cipher j a r now in
        let (k, found, (other, there, same, _)) = match_flow_complete flows i flow at full in
        let (ck, one, named) = keep_flows-IsOne a r now e (without k flows) in
        let (more, starts) =
          with_flows_matched a r now e flows k i other flow p at
            (ap (match_flow flows) state ∙ found) there h in
        (k, other, ck, more, there, same, one, named, starts ∙ ap (λ cks. cks ++ more) one)
