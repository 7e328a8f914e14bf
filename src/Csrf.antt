-- ===== src/Csrf.antt =====
-- csrf/csrf.go: minting and validating anti-CSRF tokens. HMAC-SHA256 is a parameter.
pub mod Tokens
use tokyo3_base.Base.{
  ℕ, ◌+◌, ◌*◌, ◌≡◌, ◌<◌, Bool, true, false, ◌||◌, Option, none, some, List, [], ◌∷◌, ◌++◌, Bytes,
  bytes_eq, Result, ok, err, and_then, map_err, length, take, drop, All, ◌==◌, if◌then◌else◌,
}
use tokyo3_base.Std.Base64
use tokyo3_base.Std.Xor.{xor_bytes}
use tokyo3_base.Crypto.Entropy.{Entropy, random_bytes}
use tokyo3_base.Crypto.Entropy

-- The crypto errors come wrapped, as "csrf: secret" and "csrf: pad".
pub data Error : Type 0 where
  empty_secret : Error
  no_secret no_pad : Entropy.Error → Error

abbrev pub sha256_size : ℕ
sha256_size = 32

-- What is documented of HMAC-SHA256: 32 bytes come out.
pub record IsMac (hmac : Bytes → Bytes → Bytes) : Type 0 where
  pub length_lem : (key message : Bytes) → length (hmac key message) ≡ sha256_size
  pub bytes : (key message : Bytes) → All (λ b. b < 256) (hmac key message)

abbrev pub is_empty : Bytes → Bool
is_empty [] = true
is_empty (b ∷ bs) = false

unfoldable pub new_secret : Entropy → Result Error Bytes × Entropy
new_secret e =
    let (b, e') = random_bytes 32 e in
    (and_then (map_err no_secret b) (λ b. ok (Base64.encode b)), e')

unfoldable pub mask : Bytes → Entropy → Result Error Bytes × Entropy
mask real e =
    let (r, e') = random_bytes (length real) e in
    (and_then (map_err no_pad r) (λ pad. ok (Base64.encode (pad ++ xor_bytes real pad))), e')

unfold_wire : ℕ → Option Bytes → Option Bytes
unfold_wire want_len none = none
unfold_wire want_len (some raw) =
    if length raw == 2 * want_len
    then some (xor_bytes (take want_len raw) (drop want_len raw))
    else none

-- `none` is the error "malformed token".
unfoldable pub unmask : Bytes → ℕ → Option Bytes
unfolding unfold_wire
unmask token want_len = unfold_wire want_len (Base64.decode token)

module _ (hmac : Bytes → Bytes → Bytes) where
  unfoldable pub derive : Bytes → Bytes → Bytes
  derive secret scope = hmac secret scope

  unfoldable pub token : Bytes → Bytes → Entropy → Result Error Bytes × Entropy
  unfolding derive mask
  token secret scope e =
      if is_empty secret then (err empty_secret, e) else mask (derive secret scope) e

  matches : Bytes → Option Bytes → Bool
  matches want none = false
  matches want (some real) = bytes_eq want real

  -- `hmac.Equal` compares the bytes, in constant time.
  unfoldable pub validate : Bytes → Bytes → Bytes → Bool
  unfolding derive matches
  validate secret wire scope =
      if is_empty secret || is_empty wire
      then false
      else matches (derive secret scope) (unmask wire sha256_size)
