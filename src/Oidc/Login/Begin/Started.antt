-- ===== src/Oidc/Login/Begin/Started.antt =====
-- A login that oidc/login.go began is pending until its deadline, and its state finds it.
use tokyo3_base.Base.{
  ℕ, zero, suc, ◌+◌, ◌-◌, ◌/◌, ◌≤◌, ◌<◌, ◌≡◌, refl, ap, ◌∙◌, Bool, true, false, Option, none, some,
  List, [], ◌∷◌, ◌++◌, arith, Bytes, text, All, All-drop, Result, ok, err, or_err, take, drop,
  length, length-drop, ltb→lt, leb, leb→le, length-append, length-take, ltb, Bool-cases, inl, inr,
}
use tokyo3_base.Base.Dict
use tokyo3_base.Std.Base64
use tokyo3_base.ClientIp.{AddrText}
use tokyo3_base.Crypto.Cipher.{Cipher, IsCorrect, EmitsBytes}
use tokyo3_base.Crypto.Entropy
use tokyo3_base.Crypto.Entropy.{Entropy, random_bytes}
use tokyo3_base.Http.{Request, SetCookie}
use tokyo3_base.SealedCookie
use tokyo3_base.SealedCookie.{Codec, IsLossless, is_empty}
use tokyo3_base.SealedCookie.RoundTrip.{read-set, set-max_age, set-entropy}
use tokyo3_base.UrlQuery.{UrlText}
use tokyo3_base.Oidc.Login.{
  Authenticator, Flow, FlowSet, Endpoint, second, flow_ttl, max_pending_flows, pending_flows,
  live_flows, live_at, match_flow, endpoint,
}
use tokyo3_base.Oidc.Login.Begin.{
  bad_authorize_url, encoded, rand_b64, newest, authorize_url, alone, store_flow, new_flow, located,
  stored, with_entropy, begin,
}
use tokyo3_base.Oidc.Login.Callback.{nth}
use tokyo3_base.Oidc.Login.Matching.{
  Carries, match_flow-last, nth-last, live_at-last, length-live_at-le,
}

drop-append_le : (n : ℕ) (xs ys : List Flow) → n ≤ length xs → drop n (xs ++ ys) ≡ drop n xs ++ ys
drop-append_le zero xs ys h = refl
drop-append_le (suc n) [] ys h = absurd (omega arith)
drop-append_le (suc n) (x ∷ xs) ys h = drop-append_le n xs ys (omega arith)

-- At most three flows are kept, and the new one is the last of them.
newest-last :
    (flows : List Flow) (f : Flow)
    → (older : List Flow) × (newest (flows ++ (f ∷ [])) ≡ older ++ (f ∷ []))
      × (length older < max_pending_flows)
unfolding newest
newest-last flows f = elim (Bool-cases (ltb max_pending_flows (length (flows ++ (f ∷ []))))) [
  | inl large ↦ (
    drop (length (flows ++ (f ∷ [])) - max_pending_flows) flows,
    rw large (
        drop-append_le _ flows (f ∷ [])
          (omega (arith, length-append flows (f ∷ []), ltb→lt _ _ large))),
    omega (
      arith,
      length-append flows (f ∷ []),
      length-drop (length (flows ++ (f ∷ [])) - 3) flows,
      ltb→lt _ _ large,
    ),
  )
  | inr small ↦ (flows, rw small refl, ground (arith, length-append flows (f ∷ []), small))
]

rand_b64_bytes : (n : ℕ) (e : Entropy) → All (λ b. b < 256) e → All (λ b. b < 256) (rand_b64 n e).1
unfolding rand_b64 encoded random_bytes
rand_b64_bytes n e h = elim (Bool-cases (leb n (length e))) [
  | inl enough ↦ rw enough (All-drop (λ b. b < 256) n e h)
  | inr dry ↦ rw dry tt
]

encode_full : (bs : Bytes) → length bs ≡ 24 → is_empty (Base64.encode bs) ≡ false
encode_full bs h = full (Base64.encode bs) (ground (arith, Base64.length-encode bs, h))
  where
    full : (s : Bytes) → 0 < length s → is_empty s ≡ false
    full [] p = absurd (omega arith)
    full (c ∷ s) p = refl

rand_b64_full : (e : Entropy) (s : Bytes) → (rand_b64 24 e).0 ≡ ok s → is_empty s ≡ false
unfolding rand_b64 encoded random_bytes
rand_b64_full e s h = elim (Bool-cases (leb 24 (length e))) [
  | inl enough ↦
      let made : Base64.encode (take 24 e) ≡ s = ground (arith, rw enough at h) in
      rw (← made)
        (encode_full (take 24 e) (omega (arith, length-take 24 e, leb→le 24 (length e) enough)))
  | inr dry ↦ absurd (ground (arith, rw dry at h))
]

module _ (cipher : Cipher) (j : Codec FlowSet) (t : AddrText) where
  -- The flows sealed, the given one last.
  IsStored : Authenticator → Request → ℕ → Flow → SetCookie → Entropy → Type 0
  IsStored a r now flow ck e' =
      (older : List Flow) × (e : Entropy) × (length older < max_pending_flows)
      × All (λ b. b < 256) e
      × (SealedCookie.set cipher j t a.cfg.flow_cookie r (record { flows = older ++ (flow ∷ []) })
            flow_ttl now e
          ≡ (ok ck, e'))

  alone_inv :
      (a : Authenticator) (r : Request) (now : ℕ) (flow : Flow) (only : Bool) (older : List Flow)
      (e : Entropy) (x : Result SealedCookie.Error SetCookie × Entropy) (ck : SetCookie)
      (e' : Entropy)
      → length older < max_pending_flows
      → All (λ b. b < 256) e
      → All (λ b. b < 256) x.1
      → SealedCookie.set cipher j t a.cfg.flow_cookie r
          (record { flows = older ++ (flow ∷ []) })
          flow_ttl
          now
          e
        ≡ x
      → alone cipher j t a r now flow only x ≡ (ok ck, e')
      → IsStored a r now flow ck e'
  unfolding alone IsStored
  alone_inv a r now flow only older e (ok c, d) ck e' few he hx is h = (older, e, few, he, is ∙ h)
  alone_inv a r now flow true older e (err x, d) ck e' few he hx is h = absurd (ground (arith, h))
  alone_inv a r now flow false older e (err x, d) ck e' few he hx is h = ([], d, omega arith, hx, h)

  store_flow_inv :
      (a : Authenticator) (r : Request) (now : ℕ) (flow : Flow) (e : Entropy) (ck : SetCookie)
      (e' : Entropy)
      → All (λ b. b < 256) e
      → store_flow cipher j t a r now flow e ≡ (ok ck, e')
      → IsStored a r now flow ck e'
  unfolding store_flow
  store_flow_inv a r now flow e ck e' he h =
      let (older, is, few) = newest-last (pending_flows cipher j a r now) flow in
      alone_inv a r now flow _ older e _ ck e' few he
        (set-entropy cipher j t a.cfg.flow_cookie r _ flow_ttl now e he) refl (rw is at h)

  -- A request that carries the cookie finds the flow by its state until the deadline.
  stored_found :
      (a : Authenticator) (r r' : Request) (now now' : ℕ) (flow : Flow) (ck : SetCookie)
      (e' : Entropy)
      → IsCorrect cipher
      → EmitsBytes cipher
      → IsLossless j
      → IsStored a r now flow ck e'
      → is_empty flow.state ≡ false
      → now' / second < flow.exp
      → Carries a (ck ∷ []) r'
      → (i : ℕ) × (match_flow (pending_flows cipher j a r' now') flow.state ≡ some i)
        × (nth i (pending_flows cipher j a r' now') ≡ some flow)
        × (length (pending_flows cipher j a r' now') ≤ max_pending_flows)
  unfolding IsStored pending_flows
  stored_found a r r' now now' flow ck e' ic em lo (older, e, few, he, is) full live carried =
      let sent : Dict.get a.cfg.flow_cookie.name r'.cookies ≡ some ck.value =
        carried ∙ rw (set-max_age cipher j t a.cfg.flow_cookie r _ flow_ttl now e ck e' is) refl in
      let (reads, _, _, _, _) =
        read-set cipher j t a.cfg.flow_cookie r r' _ flow_ttl now e ck e' ic em lo he is sent in
      rw (reads, live_flows, live_at-last now' flow older live)
        (
          length (live_at now' older),
          match_flow-last flow (live_at now' older) full,
          nth-last flow (live_at now' older),
          omega
              (arith, length-append (live_at now' older) (flow ∷ []), length-live_at-le now' older),
        )

  module _ (u : UrlText) (sha256 : Bytes → Bytes) (query : Bytes → Bytes → Bytes) where
    -- The flow that Begin makes, and the authorize URL that speaks of it.
    abbrev pub IsBegun : Authenticator → Request → Bytes → ℕ → Bytes → Flow → Type 0
    IsBegun a r extra now url flow =
        (ep : Endpoint) × (endpoint a ≡ some ep)
        × (authorize_url u a ep flow.state flow.nonce (Base64.encode (sha256 flow.verifier))
            ≡ some url)
        × (flow.return_to ≡ a.sess.safe_return_to (query r.raw_query (text "return_to")))
        × (flow.extra ≡ extra)
        × (flow.exp ≡ (now + flow_ttl) / second)

    located_inv :
        (a : Authenticator) (flow : Flow) (o : Option Endpoint) (url : Bytes)
        → located cipher j t u sha256 query a flow o ≡ ok url
        → (ep : Endpoint) × (o ≡ some ep)
          × (authorize_url u a ep flow.state flow.nonce (Base64.encode (sha256 flow.verifier))
              ≡ some url)
    unfolding located
    located_inv a flow none url h = absurd (ground (arith, h))
    located_inv a flow (some ep) url h = (ep, refl, as_some _ h)
      where
        as_some : (o : Option Bytes) → or_err o bad_authorize_url ≡ ok url → o ≡ some url
        as_some none q = absurd (ground (arith, q))
        as_some (some b) q = ground (arith, q)

    stored_inv :
        (a : Authenticator) (flow : Flow) (x : Result SealedCookie.Error SetCookie × Entropy)
        (url : Bytes) (cookies : List SetCookie) (e' : Entropy)
        → stored cipher j t u sha256 query a flow x ≡ (ok url, cookies, e')
        → (ck : SetCookie) × (x ≡ (ok ck, e'))
          × (cookies ≡ ck ∷ [])
          × (located cipher j t u sha256 query a flow (endpoint a) ≡ ok url)
    unfolding stored
    stored_inv a flow (ok ck, e) url cookies e' h =
        (ck, ground (arith, h), ground (arith, h), ap (λ p. p.0) h)
    stored_inv a flow (err x, e) url cookies e' h = absurd (ground (arith, h))

    with_entropy_inv :
        (a : Authenticator) (r : Request) (extra : Bytes) (now : ℕ)
        (state nonce verifier : Result Entropy.Error Bytes) (e : Entropy) (url : Bytes)
        (cookies : List SetCookie) (e' : Entropy)
        → All (λ b. b < 256) e
        → with_entropy cipher j t u sha256 query a r extra now state nonce verifier e
          ≡ (ok url, cookies, e')
        → (flow : Flow) × (ck : SetCookie) × (state ≡ ok flow.state)
          × (cookies ≡ ck ∷ [])
          × IsBegun a r extra now url flow
          × IsStored a r now flow ck e'
    unfolding with_entropy new_flow
    with_entropy_inv a r extra now (err x) nonce verifier e url cookies e' he h =
        absurd (ground (arith, h))
    with_entropy_inv a r extra now (ok state) (err x) verifier e url cookies e' he h =
        absurd (ground (arith, h))
    with_entropy_inv a r extra now (ok state) (ok nonce) (err x) e url cookies e' he h =
        absurd (ground (arith, h))
    with_entropy_inv a r extra now (ok state) (ok nonce) (ok verifier) e url cookies e' he h =
        let flow = new_flow cipher j t u sha256 query a r extra now state nonce verifier in
        let (ck, made, all, at) =
          stored_inv a flow (store_flow cipher j t a r now flow e) url cookies e' h in
        let (ep, has, is) = located_inv a flow (endpoint a) url at in
        (
          flow,
          ck,
          refl,
          all,
          (ep, has, is, refl, refl, refl),
          store_flow_inv a r now flow e ck e' he made,
        )

    -- With a correct cipher that gives bytes, a lossless encoding and random bytes: when Begin gives an
    -- authorize URL, it speaks of the state, which is the first text drawn, the nonce and the challenge
    -- of a login whose way back is what the issuer makes of the path asked for; and a later request of a browser that was left with
    -- the flow cookie finds exactly this login by this state, up to ten minutes later, among at most
    -- three pending ones.
    pub begin_started :
        (a : Authenticator) (r r' : Request) (extra : Bytes) (now now' : ℕ) (e : Entropy)
        (url : Bytes) (cookies : List SetCookie) (e' : Entropy)
        → IsCorrect cipher
        → EmitsBytes cipher
        → IsLossless j
        → All (λ b. b < 256) e
        → begin cipher j t u sha256 query a r extra now e ≡ (ok url, cookies, e')
        → Carries a cookies r'
        → now' / second < (now + flow_ttl) / second
        → (flow : Flow) × (i : ℕ) × ((rand_b64 24 e).0 ≡ ok flow.state)
          × IsBegun a r extra now url flow
          × (match_flow (pending_flows cipher j a r' now') flow.state ≡ some i)
          × (nth i (pending_flows cipher j a r' now') ≡ some flow)
          × (length (pending_flows cipher j a r' now') ≤ max_pending_flows)
    unfolding begin
    begin_started a r r' extra now now' e url cookies e' ic em lo he h carried live =
        let e₁ = (rand_b64 24 e).1 in
        let e₂ = (rand_b64 24 e₁).1 in
        let (flow, ck, state, all, begun, stored) =
          with_entropy_inv a r extra now (rand_b64 24 e).0 (rand_b64 24 e₁).0 (rand_b64 32 e₂).0
            (rand_b64 32 e₂).1 url cookies e'
            (rand_b64_bytes 32 e₂ (rand_b64_bytes 24 e₁ (rand_b64_bytes 24 e he))) h in
        let (ep, has, is, to, ex, deadline) = begun in
        let (i, found, at, few) =
          stored_found a r r' now now' flow ck e' ic em lo stored (rand_b64_full e flow.state state)
            (rw deadline live) (rw all at carried) in
        (flow, i, state, (ep, has, is, to, ex, deadline), found, at, few)
