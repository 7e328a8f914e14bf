-- ===== src/Crypto/Seal.antt =====
-- crypto/crypto.go: `ParseKEK`, `GenerateKEK`, `Seal`, `SealAAD`, `Open`, `OpenAAD`, `newGCM`.
use tokyo3_base.Base.{
  ℕ, [], ◌++◌, Bytes, Result, ok, err, and_then, or_err, map_err, length, take, drop, ltb, ◌==◌,
  if◌then◌else◌,
}
use tokyo3_base.Std.Hex
use tokyo3_base.Crypto.Cipher.{Cipher}
use tokyo3_base.Crypto.Entropy.{
  Rand, Error, invalid_encoding, key_length, too_short, unauthentic, within, generate_nonce,
  decrypt, pure, lift, in_stage, ◌>>=◌, random_bytes,
}

abbrev pub key_size : ℕ
key_size = 32

abbrev pub nonce_size : ℕ
nonce_size = 12

unfoldable pub parse_kek : Bytes → Result Error Bytes
parse_kek hex_key =
    and_then (or_err (Hex.decode hex_key) invalid_encoding)
      λ b. if length b == 32 then ok b else err (key_length (length b))

unfoldable pub generate_kek : Rand Bytes
generate_kek = do b ← random_bytes 32; pure (Hex.encode b)

-- The AEAD of a key is the key itself, once its length is right.
unfoldable pub new_gcm : Bytes → Result Error Bytes
new_gcm key = if length key == key_size then ok key else err (key_length (length key))

module _ (c : Cipher) where
  unfoldable pub seal_aad : Bytes → Bytes → Bytes → Rand Bytes
  unfolding new_gcm
  seal_aad key plaintext aad = do
    gcm ← lift (new_gcm key)
    nonce ← in_stage generate_nonce (random_bytes nonce_size)
    pure (nonce ++ c.seal gcm nonce plaintext aad)

  unfoldable pub seal : Bytes → Bytes → Rand Bytes
  unfolding seal_aad
  seal key plaintext = seal_aad key plaintext []

  unfoldable pub open_aad : Bytes → Bytes → Bytes → Result Error Bytes
  unfolding new_gcm
  open_aad key ciphertext aad = and_then (new_gcm key) λ gcm.
      if ltb (length ciphertext) nonce_size
      then err too_short
      else map_err (within decrypt) (
          or_err (c.unseal gcm (take nonce_size ciphertext) (drop nonce_size ciphertext) aad)
            unauthentic)

  unfoldable pub open_sealed : Bytes → Bytes → Result Error Bytes
  unfolding open_aad
  open_sealed key ciphertext = open_aad key ciphertext []
