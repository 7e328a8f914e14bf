-- ===== src/Crypto/Cipher.antt =====
-- AES-256-GCM as the program sees it (crypto/aes and crypto/cipher), behind an interface: the
-- algorithm is a parameter of the model, and the laws are what a theorem may assume of it.
use tokyo3_base.Base.{◌≡◌, ◌≢◌, ◌<◌, Option, none, some, Bytes, All}

-- Arguments: key, nonce, plaintext or ciphertext, additional data.
pub record Cipher : Type 0 where
  pub seal : Bytes → Bytes → Bytes → Bytes → Bytes
  pub unseal : Bytes → Bytes → Bytes → Bytes → Option Bytes

pub record IsCorrect (c : Cipher) : Type 0 where
  pub unseal-seal :
      (key nonce plaintext aad : Bytes)
      → c.unseal key nonce (c.seal key nonce plaintext aad) aad ≡ some plaintext

-- What comes out are bytes.
pub record EmitsBytes (c : Cipher) : Type 0 where
  pub bytes :
      (key nonce plaintext aad : Bytes) → All (λ b. b < 256) (c.seal key nonce plaintext aad)

-- The ideal reading of "authenticated": other additional data never opens.
pub record Authenticates (c : Cipher) : Type 0 where
  pub unseal_ne :
      (key nonce plaintext aad aad' : Bytes)
      → aad ≢ aad'
      → c.unseal key nonce (c.seal key nonce plaintext aad) aad' ≡ none
