-- ===== src/SealedCookie/RoundTrip.antt =====
-- What sealedcookie/sealedcookie.go sets, and what it reads.
use tokyo3_base.Base.{
  ℕ, ◌≤◌, ◌<◌, ◌≡◌, ◌≢◌, refl, ap, sym, ◌∙◌, ◌↔◌, ◌⊎◌, bytes_eq, bytes_eq_iff, text, true, false,
  some, arith, Bytes, Result, ok, err, and_then, length, take, leb, ◌==◌, All, All-drop, All-append,
  All-take, Option-cases, Bool-cases, inl, inr, ltb,
}
use tokyo3_base.Base.Int.{is_negative}
use tokyo3_base.Base.Dict
use tokyo3_base.Std.Base64
use tokyo3_base.ClientIp.{AddrText}
use tokyo3_base.ClientIp.Vouching.{Vouches, vouched, vouches}
use tokyo3_base.Crypto.Cipher.{Cipher, IsCorrect, Authenticates, EmitsBytes}
use tokyo3_base.Crypto.Entropy
use tokyo3_base.Crypto.Entropy.{Entropy, random_bytes, within, decrypt, unauthentic}
use tokyo3_base.Crypto.RoundTrip.{seal_aad_inv, open_aad-seal_aad, open_aad-seal_aad_ne}
use tokyo3_base.Crypto.Seal.{seal_aad, nonce_size, key_size, new_gcm}
use tokyo3_base.Http.{Request, header, SetCookie}
use tokyo3_base.SealedCookie.{
  Cookie, Codec, IsLossless, Error, crypto, max_value_len, aad, is_https, sealed_text, seal_bytes,
  seal, open_cookie, read, cookie_of, set,
}

module _ (cipher : Cipher) {V : Type 0} (j : Codec V) where
  sealed_text_inv :
      (r : Result Entropy.Error Bytes × Entropy) (s : Bytes) (e' : Entropy)
      → sealed_text cipher j r ≡ (ok s, e')
      → (ct : Bytes) × (r ≡ (ok ct, e')) × (s ≡ Base64.encode ct)
  unfolding sealed_text
  sealed_text_inv (ok ct, e) s e' h = (ct, ground arith, ground arith)
  sealed_text_inv (err x, e) s e' h = absurd (ground arith)

  -- The parts of a sealed text.
  seal_inv :
      (c : Cookie) (v : V) (e : Entropy) (s : Bytes) (e' : Entropy)
      → seal cipher j c v e ≡ (ok s, e')
      → (b : Bytes) × (ct : Bytes) × (j.marshal v ≡ some b)
        × (seal_aad cipher c.key b (aad c) e ≡ (ok ct, e'))
        × (s ≡ Base64.encode ct)
  unfolding seal
  seal_inv c v e s e' h = elim (Option-cases (j.marshal v)) [
    | inl n ↦ absurd (ground (arith, n))
    | inr (b, m) ↦
        let (ct, sealed, enc) =
          sealed_text_inv (seal_aad cipher c.key b (aad c) e) s e' (rw (m, seal_bytes) at h) in
        (b, ct, m, sealed, enc)
  ]

  ciphertext_bytes :
      (key plaintext bound : Bytes) (e : Entropy) (ct : Bytes) (e' : Entropy)
      → EmitsBytes cipher
      → All (λ b. b < 256) e
      → seal_aad cipher key plaintext bound e ≡ (ok ct, e')
      → All (λ b. b < 256) ct
  ciphertext_bytes key plaintext bound e ct e' emits he h =
      let (_, _, shape) = seal_aad_inv cipher key plaintext bound e h in
      rw shape (
        All-append (λ b. b < 256) (take nonce_size e) _ (All-take _ nonce_size e he)
          (emits.bytes key (take nonce_size e) plaintext bound))

  open_cookie-seal :
      (c : Cookie) (v : V) (e : Entropy) (s : Bytes) (e' : Entropy)
      → IsCorrect cipher
      → EmitsBytes cipher
      → IsLossless j
      → All (λ b. b < 256) e
      → seal cipher j c v e ≡ (ok s, e')
      → open_cookie cipher j c s ≡ ok v
  unfolding open_cookie
  open_cookie-seal c v e s e' correct emits lossless he h =
      let (b, ct, m, sealed, enc) = seal_inv c v e s e' h in
      rw
        (
          enc,
          Base64.decode-encode ct (ciphertext_bytes c.key b (aad c) e ct e' emits he sealed),
          open_aad-seal_aad cipher c.key b (aad c) e ct e' correct sealed,
          lossless.unmarshal-marshal v b m,
        )
        refl

  -- With a cipher that authenticates and gives bytes, and random bytes, a value that was sealed for
  -- one cookie does not open as another cookie with the same key and another name.
  pub open_cookie-seal_ne :
      (c d : Cookie) (v : V) (e : Entropy) (s : Bytes) (e' : Entropy)
      → Authenticates cipher
      → EmitsBytes cipher
      → All (λ b. b < 256) e
      → c.key ≡ d.key
      → c.name ≢ d.name
      → seal cipher j c v e ≡ (ok s, e')
      → open_cookie cipher j d s ≡ err (crypto (within decrypt unauthentic))
  unfolding open_cookie
  open_cookie-seal_ne c d v e s e' auth emits he key name h =
      let (b, ct, m, sealed, enc) = seal_inv c v e s e' h in
      rw
        (
          enc,
          Base64.decode-encode ct (ciphertext_bytes c.key b (aad c) e ct e' emits he sealed),
          ← key,
          open_aad-seal_aad_ne cipher c.key b (aad c) (aad d) e ct e' auth
              (λ same. name (aad-injective c d same)) sealed,
        )
        refl
    where
      aad-injective : (c d : Cookie) → aad c ≡ aad d → c.name ≡ d.name
      aad-injective c d same = ground (arith, same)

  sealed_text_rest : (r : Result Entropy.Error Bytes × Entropy) → (sealed_text cipher j r).1 ≡ r.1
  unfolding sealed_text
  sealed_text_rest (r, e) = refl

  seal_aad_bytes :
      (key plaintext bound : Bytes) (e : Entropy)
      → All (λ b. b < 256) e
      → All (λ b. b < 256) (seal_aad cipher key plaintext bound e).1
  unfolding seal_aad new_gcm random_bytes
  seal_aad_bytes key plaintext bound e h = elim (Bool-cases (length key == key_size)) [
    | inr bad ↦ rw bad h
    | inl good ↦ elim (Bool-cases (leb nonce_size (length e))) [
      | inl enough ↦ rw (good, enough) (All-drop (λ b. b < 256) nonce_size e h)
      | inr dry ↦ rw (good, dry) tt
    ]
  ]

  module _ (t : AddrText) where
    -- What is left of random bytes are random bytes.
    pub set-entropy :
        (c : Cookie) (r : Request) (v : V) (ttl now : ℕ) (e : Entropy)
        → All (λ b. b < 256) e
        → All (λ b. b < 256) (set cipher j t c r v ttl now e).1
    unfolding set seal
    set-entropy c r v ttl now e h = elim (Option-cases (j.marshal v)) [
      | inl n ↦ rw (n, seal_bytes) h
      | inr (b, m) ↦ rw (m, seal_bytes, sealed_text_rest) (seal_aad_bytes c.key b (aad c) e h)
    ]

    cookie_of_inv :
        (c : Cookie) (r : Request) (ttl now : ℕ) (s : Bytes) (ck : SetCookie)
        → cookie_of cipher j t c r ttl now s ≡ ok ck
        → (ck.value ≡ s)
          × (length s ≤ max_value_len)
          × (ck.name ≡ c.name)
          × (ck.http_only ≡ true)
          × (ck.secure ≡ is_https t c r)
    unfolding cookie_of
    cookie_of_inv c r ttl now s ck h = elim (Bool-cases (ltb max_value_len (length s))) [
      | inl large ↦ absurd (cc (rw large at h))
      | inr small ↦
          let made = rw small at h in
          (
            ground (arith, made),
            ground arith,
            ground (arith, made),
            ground (arith, made),
            ground (arith, made),
          )
    ]

    set_step :
        (c : Cookie) (r : Request) (ttl now : ℕ) (ck : SetCookie) (e' : Entropy)
        (p : Result Error Bytes × Entropy)
        → ◌≡◌ {A = Result Error SetCookie × Entropy}
            (and_then p.0 (cookie_of cipher j t c r ttl now), p.1)
            (ok ck, e')
        → (s : Bytes) × (p ≡ (ok s, e')) × (cookie_of cipher j t c r ttl now s ≡ ok ck)
    set_step c r ttl now ck e' (ok s, e) h = (s, ground arith, ap (λ x. x.0) h)
    set_step c r ttl now ck e' (err x, e) h = absurd (ground arith)

    set_inv :
        (c : Cookie) (r : Request) (v : V) (ttl now : ℕ) (e : Entropy) (ck : SetCookie)
        (e' : Entropy)
        → set cipher j t c r v ttl now e ≡ (ok ck, e')
        → (s : Bytes) × (seal cipher j c v e ≡ (ok s, e'))
          × (ck.value ≡ s)
          × (length s ≤ max_value_len)
          × (ck.name ≡ c.name)
          × (ck.http_only ≡ true)
          × (ck.secure ≡ is_https t c r)
    unfolding set
    set_inv c r v ttl now e ck e' h =
        let (s, sealed, made) = set_step c r ttl now ck e' (seal cipher j c v e) h in
        let (value, size, name, http_only, secure) = cookie_of_inv c r ttl now s ck made in
        (s, sealed, value, size, name, http_only, secure)

    pub set-name :
        (c : Cookie) (r : Request) (v : V) (ttl now : ℕ) (e : Entropy) (ck : SetCookie)
        (e' : Entropy)
        → set cipher j t c r v ttl now e ≡ (ok ck, e')
        → ck.name ≡ c.name
    set-name c r v ttl now e ck e' h =
        let (_, _, _, _, name, _, _) = set_inv c r v ttl now e ck e' h in name

    -- A cookie that was set is not one to delete.
    pub set-max_age :
        (c : Cookie) (r : Request) (v : V) (ttl now : ℕ) (e : Entropy) (ck : SetCookie)
        (e' : Entropy)
        → set cipher j t c r v ttl now e ≡ (ok ck, e')
        → is_negative ck.max_age ≡ false
    unfolding set
    set-max_age c r v ttl now e ck e' h =
        let (s, _, made) = set_step c r ttl now ck e' (seal cipher j c v e) h in kept s made
      where
        kept :
            (s : Bytes)
            → cookie_of cipher j t c r ttl now s ≡ ok ck
            → is_negative ck.max_age ≡ false
        kept s made = elim (Bool-cases (ltb max_value_len (length s))) [
          | inl large ↦ absurd (cc (rw (cookie_of, large) at made))
          | inr small ↦ ground (arith, rw (cookie_of, small) at made)
        ]

    -- The request came over TLS, or it says that it did, and there is someone who may vouch for it.
    abbrev pub IsOverTls : Cookie → Request → Type 0
    IsOverTls c r =
        (r.tls ≡ true)
        ⊎ ((header (text "X-Forwarded-Proto") r ≡ text "https") × Vouches t c.proxies r.source)

    is_https_inv : (c : Cookie) (r : Request) → is_https t c r ≡ true → IsOverTls c r
    unfolding is_https
    is_https_inv c r h = elim (Bool-cases r.tls) [
      | inl tls ↦ inl tls
      | inr plain ↦
          elim (Bool-cases (bytes_eq (header (text "X-Forwarded-Proto") r) (text "https"))) [
            | inr other ↦ absurd (ground (arith, h, plain, other))
            | inl says ↦ inr (
              (bytes_eq_iff (header (text "X-Forwarded-Proto") r) (text "https")).0 says,
              vouched t r.source c.proxies (ground (arith, h, plain, says)),
            )
          ]
    ]

    is_https-IsOverTls : (c : Cookie) (r : Request) → IsOverTls c r → is_https t c r ≡ true
    unfolding is_https
    is_https-IsOverTls c r (inl tls) = ground (arith, tls)
    is_https-IsOverTls c r (inr (says, who)) =
        let same = (bytes_eq_iff (header (text "X-Forwarded-Proto") r) (text "https")).1 says in
        let peer = vouches t r.source c.proxies who in ground (arith, same, peer)

    -- With a correct cipher that gives bytes, a lossless encoding and random bytes: a cookie that
    -- was set is within the size that browsers accept and hidden from scripts; it is secure exactly where
    -- the request came over TLS, or its X-Forwarded-Proto says https and no proxies are configured or the
    -- peer is one of them; and a later request that carries its value reads the value that was set.
    pub read-set :
        (c : Cookie) (r r' : Request) (v : V) (ttl now : ℕ) (e : Entropy) (ck : SetCookie)
        (e' : Entropy)
        → IsCorrect cipher
        → EmitsBytes cipher
        → IsLossless j
        → All (λ b. b < 256) e
        → set cipher j t c r v ttl now e ≡ (ok ck, e')
        → Dict.get c.name r'.cookies ≡ some ck.value
        → (read cipher j c r' ≡ ok v)
          × (ck.name ≡ c.name)
          × (length ck.value ≤ max_value_len)
          × (ck.http_only ≡ true)
          × ((ck.secure ≡ true) ↔ IsOverTls c r)
    unfolding read
    read-set c r r' v ttl now e ck e' correct emits lossless he h carried =
        let (s, sealed, value, size, name, http_only, secure) = set_inv c r v ttl now e ck e' h in
        (
          rw (carried, value) (open_cookie-seal c v e s e' correct emits lossless he sealed),
          name,
          rw value size,
          http_only,
          (λ h. is_https_inv c r (sym secure ∙ h), λ h. secure ∙ is_https-IsOverTls c r h),
        )
