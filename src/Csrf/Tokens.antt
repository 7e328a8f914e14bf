-- ===== src/Csrf/Tokens.antt =====
-- What csrf/csrf.go mints and accepts.
use tokyo3_base.Base.{
  ◌≤◌, ◌<◌, ◌≡◌, refl, ap, ◌∙◌, sym, subst, not, ◌&&◌, false, some, [], ◌∷◌, ◌++◌, arith, Bytes,
  bytes_eq, ok, length, take, drop, All, All-append, All-take, length-append, length-take,
  take-append_of_length, drop-append_of_length,
}
use tokyo3_base.Std.Base64
use tokyo3_base.Std.Xor.{xor_bytes, xor_bytes_cancel, length-xor_bytes, xor_bytes-bytes}
use tokyo3_base.Crypto.Entropy.{Entropy, random_bytes, random_bytes_enough}
use tokyo3_base.Csrf.{IsMac, is_empty, mask, unmask, token, validate}

-- A masked value: the pad that the source gave, and the value under the pad.
pub mask_inv :
    (real : Bytes) (e : Entropy) (wire : Bytes) (e' : Entropy)
    → mask real e ≡ (ok wire, e')
    → (length real ≤ length e)
      × (wire ≡ Base64.encode (take (length real) e ++ xor_bytes real (take (length real) e)))
unfolding mask random_bytes
mask_inv real e wire e' h = (ground arith, ground arith)

unmask-encode :
    (real pad : Bytes)
    → length real ≡ length pad
    → All (λ b. b < 256) real
    → All (λ b. b < 256) pad
    → unmask (Base64.encode (pad ++ xor_bytes real pad)) (length real) ≡ some real
unfolding unmask
unmask-encode real pad same hr hp =
    let hidden = xor_bytes real pad in
    let hidden_length = length-xor_bytes real pad same in
    let both = All-append (λ b. b < 256) pad hidden hp (xor_bytes-bytes real pad hr hp) in
    rw (Base64.decode-encode (pad ++ hidden) both, unmask)
      (ground (
        arith,
        length-append pad hidden,
        hidden_length,
        take-append_of_length (length real) pad hidden (sym same),
        drop-append_of_length (length real) pad hidden (sym same),
        xor_bytes_cancel real pad same hr hp,
      ))

is_empty-length : (bs : Bytes) → 0 < length bs → is_empty bs ≡ false
is_empty-length [] h = absurd (omega arith)
is_empty-length (b ∷ bs) h = refl

module _ (hmac : Bytes → Bytes → Bytes) (mac : IsMac hmac) where
  token_inv :
      (secret scope : Bytes) (e : Entropy) (wire : Bytes) (e' : Entropy)
      → token hmac secret scope e ≡ (ok wire, e')
      → (32 ≤ length e)
        × (wire ≡ Base64.encode (take 32 e ++ xor_bytes (hmac secret scope) (take 32 e)))
  unfolding token
  token_inv secret scope e wire e' h =
      ground (arith, mask_inv (hmac secret scope) e wire e', mac.length_lem secret scope)

  wire-is_empty :
      (real pad : Bytes)
      → length pad ≡ 32
      → is_empty (Base64.encode (pad ++ xor_bytes real pad)) ≡ false
  wire-is_empty real pad h = is_empty-length _ (
      omega (
        arith,
        Base64.length-encode (pad ++ xor_bytes real pad),
        length-append pad (xor_bytes real pad),
      ))

  abbrev plain : Bytes → Bytes → Entropy → Bytes
  plain secret scope e = take 32 e ++ xor_bytes (hmac secret scope) (take 32 e)

  plain-bytes :
      (secret scope : Bytes) (e : Entropy)
      → All (λ b. b < 256) e
      → All (λ b. b < 256) (plain secret scope e)
  plain-bytes secret scope e h =
      All-append (λ b. b < 256) (take 32 e) _ (All-take _ 32 e h)
        (xor_bytes-bytes (hmac secret scope) (take 32 e) (mac.bytes secret scope)
          (All-take _ 32 e h))

  -- With a MAC of 32 bytes and random bytes, a minted token validates under a secret and a scope
  -- exactly when these have the MAC of the secret and the scope that it was minted for, and the
  -- secret is not empty.
  pub validate-token :
      (secret scope secret' scope' : Bytes) (e : Entropy) (wire : Bytes) (e' : Entropy)
      → All (λ b. b < 256) e
      → token hmac secret scope e ≡ (ok wire, e')
      → validate hmac secret' wire scope'
        ≡ (not (is_empty secret') && bytes_eq (hmac secret' scope') (hmac secret scope))
  unfolding validate
  validate-token secret scope secret' scope' e wire e' he h =
      let (room, w) = token_inv secret scope e wire e' h in
      let pad = take 32 e in
      let real = hmac secret scope in
      let pad_length : length pad ≡ 32 = omega (arith, length-take 32 e) in
      let real_length = mac.length_lem secret scope in
      let opened : unmask (Base64.encode (pad ++ xor_bytes real pad)) 32 ≡ some real =
        subst (λ n. unmask (Base64.encode (pad ++ xor_bytes real pad)) n ≡ some real) real_length
          (unmask-encode real pad (omega arith) (mac.bytes secret scope) (All-take _ 32 e he)) in
      rw (w, wire-is_empty real pad pad_length, opened, validate) (ground arith)

  -- With a MAC of 32 bytes, a secret and 32 random bytes, a token is minted, of 86 characters.
  pub token_total :
      (secret scope : Bytes) (e : Entropy)
      → is_empty secret ≡ false
      → 32 ≤ length e
      → (wire : Bytes) × (token hmac secret scope e ≡ (ok wire, drop 32 e)) × (length wire ≡ 86)
  unfolding token mask
  token_total secret scope e ne room =
      let pad = take 32 e in
      let real = hmac secret scope in
      let pad_length : length pad ≡ 32 = omega (arith, length-take 32 e) in
      let same : length real ≡ length pad = omega (arith, mac.length_lem secret scope) in
      (
        Base64.encode (pad ++ xor_bytes real pad),
        ground (arith, mac.length_lem secret scope, random_bytes_enough 32 e room),
        omega (
          arith,
          Base64.length-encode (pad ++ xor_bytes real pad),
          length-append pad (xor_bytes real pad),
          length-xor_bytes real pad same,
        ),
      )

  -- With a MAC of 32 bytes and random bytes, tokens with the same wire bytes were masked with the
  -- same pad: a fresh pad gives fresh bytes, whatever the secrets and scopes.
  pub token_fresh :
      (secret scope secret' scope' : Bytes) (e d : Entropy) (wire : Bytes) (e' d' : Entropy)
      → All (λ b. b < 256) e
      → All (λ b. b < 256) d
      → token hmac secret scope e ≡ (ok wire, e')
      → token hmac secret' scope' d ≡ (ok wire, d')
      → take 32 e ≡ take 32 d
  token_fresh secret scope secret' scope' e d wire e' d' he hd h k =
      let (re, we) = token_inv secret scope e wire e' h in
      let (rd, wd) = token_inv secret' scope' d wire d' k in
      let x = plain secret scope e in
      let y = plain secret' scope' d in
      let same : some x ≡ some y =
        sym (Base64.decode-encode x (plain-bytes secret scope e he))
        ∙ ap Base64.decode (sym we ∙ wd)
        ∙ Base64.decode-encode y (plain-bytes secret' scope' d hd) in
      let same_plain : x ≡ y = ground (arith, same) in
      sym (take-append_of_length 32 (take 32 e) _ (omega (arith, length-take 32 e)))
      ∙ ap (take 32) same_plain
      ∙ take-append_of_length 32 (take 32 d) _ (omega (arith, length-take 32 d))
