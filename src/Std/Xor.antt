-- ===== src/Std/Xor.antt =====
-- crypto/subtle: `XORBytes`.
use Prim.Native.Nat.{bit_xor}
use tokyo3_base.Base.{
  ℕ, zero, suc, ◌<◌, ◌≡◌, refl, Bool, true, ◌&&◌, [], ◌∷◌, arith, Bytes, All, length, ltb, ◌==◌,
}

-- The shorter argument bounds the result.
unfoldable pub xor_bytes : Bytes → Bytes → Bytes
xor_bytes [] ys = []
xor_bytes (x ∷ xs) [] = []
xor_bytes (x ∷ xs) (y ∷ ys) = bit_xor x y ∷ xor_bytes xs ys

-- Whether a test passes on every number below `bound`.
every : (ℕ → Bool) → ℕ → Bool
every test zero = true
every test (suc bound) = every test bound && test bound

every-at : (test : ℕ → Bool) (bound i : ℕ) → i < bound → every test bound ≡ true → test i ≡ true
unfolding every
every-at test zero i below passed = absurd (omega arith)
every-at test (suc bound) i below passed = ground (arith, every-at test bound i)

-- Both facts about a pair of bytes, by going through all of them.
byte_laws : ℕ → ℕ → Bool
byte_laws x y = (bit_xor y (bit_xor x y) == x) && ltb (bit_xor x y) 256

xor_table : every (λ x. every (byte_laws x) 256) 256 ≡ true
unfolding every byte_laws
xor_table = refl

byte_laws_hold : (x y : ℕ) → x < 256 → y < 256 → byte_laws x y ≡ true
byte_laws_hold x y hx hy =
    every-at (byte_laws x) 256 y hy (every-at (λ x. every (byte_laws x) 256) 256 x hx xor_table)

xor_cancel : (x y : ℕ) → x < 256 → y < 256 → bit_xor y (bit_xor x y) ≡ x
unfolding byte_laws
xor_cancel x y hx hy = ground (arith, byte_laws_hold x y hx hy)

xor_byte : (x y : ℕ) → x < 256 → y < 256 → bit_xor x y < 256
unfolding byte_laws
xor_byte x y hx hy = ground (arith, byte_laws_hold x y hx hy)

-- A pad goes away when it is applied again.
pub xor_bytes_cancel :
    (real pad : Bytes)
    → length real ≡ length pad
    → All (λ b. b < 256) real
    → All (λ b. b < 256) pad
    → xor_bytes pad (xor_bytes real pad) ≡ real
unfolding xor_bytes
xor_bytes_cancel [] [] e h k = refl
xor_bytes_cancel [] (y ∷ ys) e h k = absurd (omega arith)
xor_bytes_cancel (x ∷ xs) [] e h k = absurd (omega arith)
xor_bytes_cancel (x ∷ xs) (y ∷ ys) e h k =
    cc (xor_cancel x y h.0 k.0, xor_bytes_cancel xs ys (omega arith) h.1 k.1)

pub length-xor_bytes :
    (xs ys : Bytes) → length xs ≡ length ys → length (xor_bytes xs ys) ≡ length ys
unfolding xor_bytes
length-xor_bytes [] [] e = refl
length-xor_bytes [] (y ∷ ys) e = absurd (omega arith)
length-xor_bytes (x ∷ xs) [] e = absurd (omega arith)
length-xor_bytes (x ∷ xs) (y ∷ ys) e = omega (arith, length-xor_bytes xs ys (omega arith))

pub xor_bytes-bytes :
    (xs ys : Bytes)
    → All (λ b. b < 256) xs
    → All (λ b. b < 256) ys
    → All (λ b. b < 256) (xor_bytes xs ys)
unfolding xor_bytes
xor_bytes-bytes [] ys h k = tt
xor_bytes-bytes (x ∷ xs) [] h k = tt
xor_bytes-bytes (x ∷ xs) (y ∷ ys) h k = (xor_byte x y h.0 k.0, xor_bytes-bytes xs ys h.1 k.1)
