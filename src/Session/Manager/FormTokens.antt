-- ===== src/Session/Manager/FormTokens.antt =====
-- The form tokens that session/session.go mints for a session, and which it accepts.
use tokyo3_base.Base.{
  ℕ, ◌<◌, ◌≡◌, refl, ap, false, Option, none, some, arith, Bytes, bytes_eq, Result, ok, err,
  map_err, Bool-cases, inl, inr, All,
}
use tokyo3_base.ClientIp.{AddrText}
use tokyo3_base.Crypto.Cipher.{Cipher}
use tokyo3_base.Crypto.Entropy.{Entropy}
use tokyo3_base.Csrf
use tokyo3_base.Csrf.{IsMac}
use tokyo3_base.Csrf.Tokens.{validate-token}
use tokyo3_base.Http.{Request}
use tokyo3_base.SealedCookie.{Codec, is_empty}
use tokyo3_base.Session.Config.{Session, Manager}
use tokyo3_base.Session.Manager.{
  Error, no_token, valid_for, read_session, token_for, csrf_token, validate_csrf,
}

module _ (cipher : Cipher) (j : Codec Session) (t : AddrText) (hmac : Bytes → Bytes → Bytes)
    (mac : IsMac hmac) where
  token_for_inv :
      (scope : Bytes) (e : Entropy) (o : Option Session) (wire : Bytes) (e' : Entropy)
      → token_for cipher j t hmac scope e o ≡ (ok wire, e')
      → (s : Session) × (o ≡ some s)
        × (is_empty s.csrf_secret ≡ false)
        × (Csrf.token hmac s.csrf_secret scope e ≡ (ok wire, e'))
  unfolding token_for
  token_for_inv scope e none wire e' h = absurd (ground arith)
  token_for_inv scope e (some s) wire e' h = elim (Bool-cases (is_empty s.csrf_secret)) [
    | inl missing ↦ absurd (ground (arith, missing))
    | inr full ↦ (s, refl, full, minted (Csrf.token hmac s.csrf_secret scope e) (rw full at h))
  ]
    where
      minted :
          (p : Result Csrf.Error Bytes × Entropy)
          → ◌≡◌ {A = Result Error Bytes × Entropy} (map_err no_token p.0, p.1) (ok wire, e')
          → p ≡ (ok wire, e')
      minted (ok w, d) q = ground arith
      minted (err x, d) q = absurd (ground arith)

  -- With a MAC of 32 bytes and random bytes: a token minted for a scope from a request's session,
  -- and presented at any time by a request with a session that has the same secret, validates
  -- exactly for the scopes with the same MAC.
  pub validate_csrf-csrf_token :
      (m : Manager) (r r' : Request) (scope scope' : Bytes) (now now' : ℕ) (e : Entropy)
      (s s' : Session) (wire : Bytes) (e' : Entropy)
      → All (λ b. b < 256) e
      → read_session cipher j t m r now ≡ some s
      → csrf_token cipher j t hmac m r scope now e ≡ (ok wire, e')
      → read_session cipher j t m r' now' ≡ some s'
      → s'.csrf_secret ≡ s.csrf_secret
      → validate_csrf cipher j t hmac m r' wire scope' now'
        ≡ bytes_eq (hmac s.csrf_secret scope') (hmac s.csrf_secret scope)
  unfolding csrf_token validate_csrf
  validate_csrf-csrf_token m r r' scope scope' now now' e s s' wire e' bytes found h later secret =
      let (s0, same, full, minted) =
        token_for_inv scope e (read_session cipher j t m r now) wire e' h in
      let is_s : s0 ≡ s = ground (arith, same, found) in
      let minted' : Csrf.token hmac s.csrf_secret scope e ≡ (ok wire, e') = rw (← is_s) minted in
      rw
        (
          later,
          valid_for,
          secret,
          validate-token hmac mac s.csrf_secret scope s.csrf_secret scope' e wire e' bytes minted',
        )
        (ground (arith, full, ap (λ x. x.csrf_secret) is_s))
