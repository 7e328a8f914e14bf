-- ===== src/Crypto/Envelope.antt =====
-- crypto/keyprovider.go, and the envelope functions of crypto/crypto.go: `EncryptEnvelopeAAD`,
-- `DecryptEnvelopeAAD`, `EncryptEnvelope`, `DecryptEnvelope`, `Rewrap`.
use tokyo3_base.Base.{◌≡◌, [], Bytes, Result, ok, and_then, map_err}
use tokyo3_base.Crypto.Cipher.{Cipher}
use tokyo3_base.Crypto.Entropy.{
  Rand, Entropy, Error, within, generate_dek, seal_value, wrap_dek, unwrap_dek, decrypt_value,
  rewrap_dek, pure, lift, in_stage, ◌>>=◌, random_bytes,
}
use tokyo3_base.Crypto.Seal.{seal_aad, seal, open_aad, open_sealed}

-- The interface: wrapping may use randomness, and either call may fail.
pub record KeyProvider : Type 0 where
  pub wrap : Bytes → Rand Bytes
  pub unwrap : Bytes → Result Error Bytes

-- What a caller relies on: a wrapped key unwraps to itself.
pub record IsFaithful (kp : KeyProvider) : Type 0 where
  pub unwrap-wrap :
      (dek wrapped : Bytes) (e e' : Entropy)
      → kp.wrap dek e ≡ (ok wrapped, e')
      → kp.unwrap wrapped ≡ ok dek

module _ (c : Cipher) where
  unfoldable pub local_key_provider : Bytes → KeyProvider
  unfolding seal open_sealed
  local_key_provider master_key = record {
    wrap = seal c master_key;
    unwrap = open_sealed c master_key;
  }

  unfoldable pub encrypt_envelope_aad : KeyProvider → Bytes → Bytes → Rand (Bytes × Bytes)
  encrypt_envelope_aad kp plaintext aad = do
    dek ← in_stage generate_dek (random_bytes 32)
    encrypted_value ← in_stage seal_value (seal_aad c dek plaintext aad)
    wrapped_dek ← in_stage wrap_dek (kp.wrap dek)
    pure (encrypted_value, wrapped_dek)

  unfoldable pub encrypt_envelope : KeyProvider → Bytes → Rand (Bytes × Bytes)
  unfolding encrypt_envelope_aad
  encrypt_envelope kp plaintext = encrypt_envelope_aad kp plaintext []

  unfoldable pub decrypt_envelope_aad : KeyProvider → Bytes → Bytes → Bytes → Result Error Bytes
  decrypt_envelope_aad kp wrapped_dek encrypted_value aad =
      and_then (map_err (within unwrap_dek) (kp.unwrap wrapped_dek))
        λ dek. map_err (within decrypt_value) (open_aad c dek encrypted_value aad)

  unfoldable pub decrypt_envelope : KeyProvider → Bytes → Bytes → Result Error Bytes
  unfolding decrypt_envelope_aad
  decrypt_envelope kp wrapped_dek encrypted_value =
      decrypt_envelope_aad kp wrapped_dek encrypted_value []

unfoldable pub rewrap : KeyProvider → KeyProvider → Bytes → Rand Bytes
rewrap old_kp new_kp wrapped_dek = do
  dek ← in_stage unwrap_dek (lift (old_kp.unwrap wrapped_dek))
  in_stage rewrap_dek (new_kp.wrap dek)
