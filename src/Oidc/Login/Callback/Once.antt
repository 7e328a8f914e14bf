-- ===== src/Oidc/Login/Callback/Once.antt =====
-- The callback of oidc/login.go consumes the login that it matches.
use tokyo3_base.Base.{
  ap, ℕ, ◌≤◌, zero, suc, ◌+◌, ◌/◌, ◌<◌, ◌≡◌, ◌≢◌, refl, sym, ◌∙◌, false, Option, none, some, List,
  [], ◌∷◌, arith, Bytes, bytes_eq, bytes_eq_iff, text, All, Result, ok, err, ltb, Bool-cases, inl,
  inr,
}
use tokyo3_base.Base.Dict
use tokyo3_base.ClientIp.{AddrText}
use tokyo3_base.Crypto.Cipher.{Cipher, IsCorrect, EmitsBytes}
use tokyo3_base.Crypto.Entropy.{Entropy}
use tokyo3_base.Http.{Request, SetCookie}
use tokyo3_base.SealedCookie
use tokyo3_base.SealedCookie.{Codec, IsLossless, is_empty}
use tokyo3_base.SealedCookie.RoundTrip.{read-set, set-max_age}
use tokyo3_base.Session.Manager.{Reply}
use tokyo3_base.UrlQuery.{Values}
use tokyo3_base.Oidc.Login.{
  Authenticator, Flow, FlowSet, pending_flows, live_flows, live_at, second, consume_flow,
  keep_flows, set_or_clear, without, flow_ttl,
}
use tokyo3_base.Oidc.Login.Callback.{nth, refusal, callback}
use tokyo3_base.Oidc.Login.Callback.Cookies.{left_by, left_by-first, times, callback_consumes}
use tokyo3_base.Oidc.Login.Callback.Refusals.{callback_forged}
use tokyo3_base.Oidc.Login.Matching.{Misses, hits, Carries, kept_value}

-- The states are all different.
abbrev pub Distinct : List Flow → Type 0
Distinct [] = Unit
Distinct (f ∷ fs) = All (λ (g : Flow). g.state ≢ f.state) fs × Distinct fs

All-nth :
    (P : Flow → Type 0) (flows : List Flow) (i : ℕ) (f : Flow)
    → All P flows
    → nth i flows ≡ some f
    → P f
unfolding nth
All-nth P [] i f all h = absurd (ground arith)
All-nth P (g ∷ gs) zero f all h = let e : g ≡ f = ground (arith, h) in rw (← e) all.0
All-nth P (g ∷ gs) (suc i) f all h = All-nth P gs i f all.1 h

without-suc : (i : ℕ) (g : Flow) (gs : List Flow) → without (suc i) (g ∷ gs) ≡ g ∷ without i gs
unfolding without
without-suc i g gs = let e : suc i + 1 ≡ suc (i + 1) = omega arith in rw e refl

without-zero : (g : Flow) (gs : List Flow) → without zero (g ∷ gs) ≡ gs
unfolding without
without-zero g gs = refl

Distinct-without :
    (flows : List Flow) (i : ℕ) (f : Flow)
    → Distinct flows
    → nth i flows ≡ some f
    → All (λ (g : Flow). g.state ≢ f.state) (without i flows)
unfolding nth
Distinct-without [] i f d h = absurd (ground arith)
Distinct-without (g ∷ gs) zero f d h =
    let e : g ≡ f = ground (arith, h) in rw (without-zero g gs, ← e) d.0
Distinct-without (g ∷ gs) (suc i) f d h = rw (without-suc i g gs) (
  λ same. All-nth (λ (x : Flow). x.state ≢ g.state) gs i f d.0 h (sym same),
  Distinct-without gs i f d.1 h,
)

Misses-live :
    (state : Bytes) (now : ℕ) (flows : List Flow)
    → All (λ (g : Flow). g.state ≢ state) flows
    → Misses state (live_at now flows)
unfolding live_at
Misses-live state now [] all = tt
Misses-live state now (g ∷ gs) all = elim (Bool-cases (ltb (now / second) g.exp)) [
  | inl live ↦ rw live (other (all.0), Misses-live state now gs all.1)
  | inr dead ↦ rw dead (Misses-live state now gs all.1)
]
  where
    other : g.state ≢ state → hits state g ≡ false
    other ne = elim (Bool-cases (bytes_eq state g.state)) [
      | inl same ↦ absurd (ne (sym ((bytes_eq_iff state g.state).0 same)))
      | inr differ ↦ ground (arith, differ)
    ]

module _ (cipher : Cipher) (j : Codec FlowSet) (t : AddrText) where
  cleared_pending :
      (a : Authenticator) (r' : Request) (now : ℕ)
      → Dict.get a.cfg.flow_cookie.name r'.cookies ≡ none
      → pending_flows cipher j a r' now ≡ []
  unfolding pending_flows SealedCookie.read
  cleared_pending a r' now gone = rw (gone, live_flows) refl

  set_pending :
      (a : Authenticator) (r r' : Request) (now now' : ℕ) (e : Entropy) (rest : List Flow)
      (x : Result SealedCookie.Error SetCookie × Entropy) (state : Bytes)
      → IsCorrect cipher
      → EmitsBytes cipher
      → IsLossless j
      → All (λ b. b < 256) e
      → All (λ (g : Flow). g.state ≢ state) rest
      → SealedCookie.set cipher j t a.cfg.flow_cookie r (record { flows = rest }) flow_ttl now e ≡ x
      → Carries a (set_or_clear cipher j t a r x).0 r'
      → Misses state (pending_flows cipher j a r' now')
  unfolding set_or_clear pending_flows SealedCookie.clear
  set_pending a r r' now now' e rest (ok ck, e') state ic em lo he others is carried =
      let sent : Dict.get a.cfg.flow_cookie.name r'.cookies ≡ some ck.value =
        carried ∙ rw (set-max_age cipher j t a.cfg.flow_cookie r _ flow_ttl now e ck e' is) refl in
      let (reads, _, _, _, _) =
        read-set cipher j t a.cfg.flow_cookie r r' (record { flows = rest }) flow_ttl now e ck e' ic
          em lo he is sent in
      rw (pending_flows, reads, live_flows) (Misses-live state now' rest others)
  set_pending a r r' now now' e rest (err x, e') state ic em lo he others is carried =
      rw (cleared_pending a r' now' (carried ∙ refl)) tt

  keep_pending :
      (a : Authenticator) (r r' : Request) (now now' : ℕ) (e : Entropy) (rest : List Flow)
      (state : Bytes)
      → IsCorrect cipher
      → EmitsBytes cipher
      → IsLossless j
      → All (λ b. b < 256) e
      → All (λ (g : Flow). g.state ≢ state) rest
      → Carries a (keep_flows cipher j t a r now e rest).0 r'
      → Misses state (pending_flows cipher j a r' now')
  unfolding keep_flows SealedCookie.clear
  keep_pending a r r' now now' e [] state ic em lo he others carried =
      rw (cleared_pending a r' now' (carried ∙ refl)) tt
  keep_pending a r r' now now' e (f ∷ fs) state ic em lo he others carried =
      set_pending a r r' now now' e (f ∷ fs) _ state ic em lo he others refl carried

  -- With a correct cipher that gives bytes, a lossless encoding and random bytes: when the pending logins
  -- of a request have different states and its state found one of them, the browser is left with a flow
  -- cookie, or without one, so that no later request finds a login by that state.
  pub consumed-Misses :
      (a : Authenticator) (r r' : Request) (now now' : ℕ) (e : Entropy) (i : ℕ) (flow : Flow)
      → IsCorrect cipher
      → EmitsBytes cipher
      → IsLossless j
      → All (λ b. b < 256) e
      → Distinct (pending_flows cipher j a r now)
      → nth i (pending_flows cipher j a r now) ≡ some flow
      → Carries a (consume_flow cipher j t a r (pending_flows cipher j a r now) (some i) now e).0 r'
      → Misses flow.state (pending_flows cipher j a r' now')
  unfolding consume_flow
  consumed-Misses a r r' now now' e i flow ic em lo he distinct at carried =
      keep_pending a r r' now now' e (without i (pending_flows cipher j a r now)) flow.state ic em
        lo he (Distinct-without (pending_flows cipher j a r now) i flow distinct at) carried

  module _ (query : Bytes → Bytes → Bytes) (post_token : Bytes → Values → Option Bytes) where
    -- With a correct cipher that gives bytes, a lossless encoding and random bytes: once a callback was
    -- answered whose state is that of one of the pending logins of a browser, all of whose states differ,
    -- and whose answer sets no second cookie by the name of the flow cookie, a later callback with that
    -- state is refused with 400 where it carries what the first answer left of the flow cookie. So an
    -- authorization response is good for one callback, whether this one succeeded or not.
    pub callback_once :
        (a : Authenticator) (r r' : Request) (now now' : ℕ) (e e' : Entropy) (i : ℕ) (flow : Flow)
        (p : Reply × Entropy)
        → IsCorrect cipher
        → EmitsBytes cipher
        → IsLossless j
        → All (λ b. b < 256) e
        → Distinct (pending_flows cipher j a r now)
        → nth i (pending_flows cipher j a r now) ≡ some flow
        → is_empty flow.state ≡ false
        → query r.raw_query (text "state") ≡ flow.state
        → callback query post_token cipher j t a r now e ≡ some p
        → times a.cfg.flow_cookie.name p.0.cookies ≤ 1
        → query r'.raw_query (text "state") ≡ flow.state
        → Dict.get a.cfg.flow_cookie.name r'.cookies
          ≡ left_by a.cfg.flow_cookie.name (Dict.get a.cfg.flow_cookie.name r.cookies) p.0.cookies
        → (cookies : List SetCookie) × (callback query post_token cipher j t a r' now' e'
            ≡ some (refusal cookies 400, e'))
    callback_once a r r' now now' e e' i flow p ic em lo he distinct at full asked first once again
          carried =
        let (k, other, ck, more, there, same, one, named, all) =
          callback_consumes cipher j t query post_token a r now e i flow p at full asked first in
        let left : Dict.get a.cfg.flow_cookie.name r'.cookies ≡ kept_value ck =
          carried
          ∙ ap (left_by a.cfg.flow_cookie.name (Dict.get a.cfg.flow_cookie.name r.cookies)) all
          ∙ left_by-first a.cfg.flow_cookie.name (Dict.get a.cfg.flow_cookie.name r.cookies) ck more
              named (rw all at once) in
        let carries : Carries a
            (consume_flow cipher j t a r (pending_flows cipher j a r now) (some k) now e).0 r' =
          rw one left in
        (
          _,
          callback_forged query post_token cipher j t a r' now' e' (
              rw (again, ← same)
                (consumed-Misses a r r' now now' e k other ic em lo he distinct there carries)),
        )
