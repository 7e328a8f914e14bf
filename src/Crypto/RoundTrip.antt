-- ===== src/Crypto/RoundTrip.antt =====
-- Sealing and opening, for the functions of crypto/crypto.go and crypto/keyprovider.go.
use tokyo3_base.Base.{
  ◌≤◌, ◌<◌, ◌≡◌, ◌≢◌, ◌∙◌, [], ◌++◌, arith, Bytes, ok, err, length, take, drop, All, All-take,
  length-append, length-take, take-append_of_length, drop-append_of_length, map_err, or_err,
}
use tokyo3_base.Std.Hex
use tokyo3_base.Crypto.Cipher.{Cipher, IsCorrect, Authenticates}
use tokyo3_base.Crypto.Entropy.{
  lift, in_stage, in_stage_inv, bind_inv, seal_value, generate_dek, wrap_dek, unwrap_dek,
  rewrap_dek, Entropy, unauthentic, within, decrypt, random_bytes, random_bytes_enough,
}
use tokyo3_base.Crypto.Seal.{key_size, nonce_size, parse_kek, generate_kek, seal_aad, open_aad}
use tokyo3_base.Crypto.Envelope.{
  KeyProvider, IsFaithful, local_key_provider, encrypt_envelope_aad, decrypt_envelope_aad, rewrap,
}

-- Given 32 random bytes, a key encryption key is generated; it is 64 hexadecimal digits, and parses
-- back to the bytes.
pub parse_kek-generate_kek :
    (e : Entropy)
    → All (λ b. b < 256) e
    → 32 ≤ length e
    → (s : Bytes) × (generate_kek e ≡ (ok s, drop 32 e))
      × (length s ≡ 64)
      × (parse_kek s ≡ ok (take 32 e))
unfolding generate_kek parse_kek
parse_kek-generate_kek e b h = (
  Hex.encode (take 32 e),
  rw (random_bytes_enough 32 e h),
  omega (arith, Hex.length-encode (take 32 e), length-take 32 e),
  rw (Hex.decode-encode (take 32 e) (All-take _ 32 e b)) (ground (arith, length-take 32 e)),
)

-- Whatever parses as a key encryption key has 32 bytes, each below 256.
pub parse_kek_bytes : (s k : Bytes) → parse_kek s ≡ ok k → (length k ≡ 32) × All (λ b. b < 256) k
unfolding parse_kek
parse_kek_bytes s k h = (ground arith, Hex.decode_bytes s k (ground arith))

module _ (c : Cipher) where
  pub seal_aad_lem :
      (key plaintext aad : Bytes) (e : Entropy)
      → length key ≡ key_size
      → nonce_size ≤ length e
      → seal_aad c key plaintext aad e ≡ (
        ok (take nonce_size e ++ c.seal key (take nonce_size e) plaintext aad),
        drop nonce_size e,
      )
  unfolding seal_aad
  seal_aad_lem key plaintext aad e hk he = ground (arith, random_bytes_enough nonce_size e he)

  pub seal_aad_inv :
      (key plaintext aad : Bytes) (e : Entropy) {ct : Bytes} {e' : Entropy}
      → seal_aad c key plaintext aad e ≡ (ok ct, e')
      → (length key ≡ key_size)
        × (nonce_size ≤ length e)
        × (ct ≡ take nonce_size e ++ c.seal key (take nonce_size e) plaintext aad)
  unfolding seal_aad random_bytes
  seal_aad_inv key plaintext aad e h = (ground arith, ground arith, ground arith)

  open_aad-append :
      (key nonce x aad : Bytes)
      → length key ≡ key_size
      → length nonce ≡ nonce_size
      → open_aad c key (nonce ++ x) aad
        ≡ map_err (within decrypt) (or_err (c.unseal key nonce x aad) unauthentic)
  unfolding open_aad
  open_aad-append key nonce x aad hk hn = ground (
    arith,
    length-append nonce x,
    take-append_of_length nonce_size nonce x hn,
    drop-append_of_length nonce_size nonce x hn,
  )

  -- With a correct cipher, what `SealAAD` returned opens to the plaintext under the same key and
  -- additional data.
  pub open_aad-seal_aad :
      (key plaintext aad : Bytes) (e : Entropy) (ct : Bytes) (e' : Entropy)
      → IsCorrect c
      → seal_aad c key plaintext aad e ≡ (ok ct, e')
      → open_aad c key ct aad ≡ ok plaintext
  open_aad-seal_aad key plaintext aad e ct e' correct sealed =
      let (hk, he, hct) = seal_aad_inv key plaintext aad e sealed in
      let n = take nonce_size e in
      rw (
        hct,
        open_aad-append key n (c.seal key n plaintext aad) aad hk
            (omega (arith, length-take nonce_size e)),
        correct.unseal-seal key n plaintext aad,
      )

  -- With a cipher that authenticates, what `SealAAD` returned is refused under other additional
  -- data.
  pub open_aad-seal_aad_ne :
      (key plaintext aad aad' : Bytes) (e : Entropy) (ct : Bytes) (e' : Entropy)
      → Authenticates c
      → aad ≢ aad'
      → seal_aad c key plaintext aad e ≡ (ok ct, e')
      → open_aad c key ct aad' ≡ err (within decrypt unauthentic)
  open_aad-seal_aad_ne key plaintext aad aad' e ct e' auth ne sealed =
      let (hk, he, hct) = seal_aad_inv key plaintext aad e sealed in
      let n = take nonce_size e in
      rw (
        hct,
        open_aad-append key n (c.seal key n plaintext aad) aad' hk
            (omega (arith, length-take nonce_size e)),
        auth.unseal_ne key n plaintext aad aad' ne,
      )

  -- A local provider unwraps what it wrapped.
  pub local_key_provider-IsFaithful :
      (master_key : Bytes) → IsCorrect c → IsFaithful (local_key_provider c master_key)
  unfolding local_key_provider
  local_key_provider-IsFaithful master_key correct = record {
    unwrap-wrap = λ dek wrapped e e' h. open_aad-seal_aad master_key dek [] e wrapped e' correct h;
  }

  -- The parts of a successful encryption.
  encrypt_envelope_aad_inv :
      (kp : KeyProvider) (plaintext aad : Bytes) (e : Entropy) {v w : Bytes} {e' : Entropy}
      → encrypt_envelope_aad c kp plaintext aad e ≡ (ok (v, w), e')
      → (dek : Bytes) × (e₁ : Entropy) × (e₂ : Entropy) × (seal_aad c dek plaintext aad e₁
          ≡ (ok v, e₂))
        × (kp.wrap dek e₂ ≡ (ok w, e'))
  unfolding encrypt_envelope_aad
  encrypt_envelope_aad_inv kp plaintext aad e h =
      let (dek, e₁, _, h₁) = bind_inv (in_stage generate_dek (random_bytes 32)) _ e h in
      let (v', e₂, hv, h₂) =
        bind_inv (in_stage seal_value (seal_aad c dek plaintext aad)) _ e₁ h₁ in
      let (w', e₃, hw, h₃) = bind_inv (in_stage wrap_dek (kp.wrap dek)) _ e₂ h₂ in
      (
        dek,
        e₁,
        e₂,
        in_stage_inv seal_value (seal_aad c dek plaintext aad) e₁ hv ∙ ground arith,
        in_stage_inv wrap_dek (kp.wrap dek) e₂ hw ∙ ground arith,
      )

  -- With a correct cipher and faithful providers, a value that was encrypted under one provider,
  -- and its key rewrapped for another, decrypts to itself under either.
  pub decrypt-rewrap-encrypt :
      (old_kp new_kp : KeyProvider) (plaintext aad : Bytes) (e e₁ e₂ e₃ : Entropy) (v w w' : Bytes)
      → IsCorrect c
      → IsFaithful old_kp
      → IsFaithful new_kp
      → encrypt_envelope_aad c old_kp plaintext aad e ≡ (ok (v, w), e₁)
      → rewrap old_kp new_kp w e₂ ≡ (ok w', e₃)
      → (decrypt_envelope_aad c old_kp w v aad ≡ ok plaintext)
        × (decrypt_envelope_aad c new_kp w' v aad ≡ ok plaintext)
  unfolding decrypt_envelope_aad rewrap
  decrypt-rewrap-encrypt old_kp new_kp plaintext aad e e₁ e₂ e₃ v w w' correct f g enc rew =
      let (dek, a, b, sealed, wrapped) = encrypt_envelope_aad_inv old_kp plaintext aad e enc in
      let u = f.unwrap-wrap dek w b e₁ wrapped in
      let o = open_aad-seal_aad dek plaintext aad a v b correct sealed in
      let (dek', _, h₁, h₂) = bind_inv (in_stage unwrap_dek (lift (old_kp.unwrap w))) _ e₂ rew in
      let same : dek ≡ dek' = ground (arith, u) in
      let rewrapped = in_stage_inv rewrap_dek (new_kp.wrap dek') _ h₂ in
      (rw (u, o), rw (g.unwrap-wrap dek' w' _ e₃ rewrapped, ← same, o))
