-- ===== src/ClientIp/Vouching.antt =====
-- Whose forwarded headers clientip/clientip.go lets its callers believe.
use tokyo3_base.Base.{
  ◌≡◌, refl, ap, ◌∙◌, true, not, ◌||◌, Option, none, some, List, [], ◌∷◌, arith, Bool-cases, ◌⊎◌,
  inl, inr,
}
use tokyo3_base.ClientIp.{
  Network, AddrText, Request, Extractor, is_nil, host_only, canonical, is_trusted,
  has_trusted_proxies, is_trusted_peer,
}

-- No proxy is configured.
abbrev pub NoProxies : Option Extractor → Type 0
NoProxies o = (o ≡ none) ⊎ ((x : Extractor) × (o ≡ some x) × (x.trusted ≡ []))

-- The peer may say how a request came in: no proxy is configured, or the peer is one of them.
abbrev pub Vouches : AddrText → Option Extractor → Request → Type 0
Vouches t o r =
    NoProxies o
    ⊎ ((x : Extractor) × (o ≡ some x)
        × (is_trusted t x (canonical t (host_only t r.remote_addr)) ≡ true))

is_nil_inv : (xs : List Network) → is_nil xs ≡ true → xs ≡ []
unfolding is_nil
is_nil_inv [] h = refl
is_nil_inv (n ∷ ns) h = absurd (ground (arith, h))

module _ (t : AddrText) (r : Request) where
  pub vouched :
      (o : Option Extractor)
      → (not (has_trusted_proxies t o) || is_trusted_peer t o r) ≡ true
      → Vouches t o r
  unfolding has_trusted_proxies is_trusted_peer
  vouched none h = inl (inl refl)
  vouched (some x) h = elim (Bool-cases (is_nil x.trusted)) [
    | inl empty ↦ inl (inr (x, refl, is_nil_inv x.trusted empty))
    | inr full ↦ inr (x, refl, ground (arith, h, full))
  ]

  pub vouches :
      (o : Option Extractor)
      → Vouches t o r
      → (not (has_trusted_proxies t o) || is_trusted_peer t o r) ≡ true
  unfolding has_trusted_proxies is_trusted_peer is_nil
  vouches none v = refl
  vouches (some x) (inl (inl h)) = absurd (ground (arith, h))
  vouches (some x) (inl (inr (y, same, empty))) =
      let e : x ≡ y = ground (arith, same) in
      rw (ap (λ (z : Extractor). is_nil z.trusted) e ∙ ap is_nil empty) refl
  vouches (some x) (inr (y, same, trusted)) =
      let e : x ≡ y = ground (arith, same) in
      let mine : is_trusted t x (canonical t (host_only t r.remote_addr)) ≡ true = rw e trusted in
      elim (Bool-cases (is_nil x.trusted)) [
        | inl empty ↦ rw empty refl
        | inr full ↦ rw (full, mine) refl
      ]
