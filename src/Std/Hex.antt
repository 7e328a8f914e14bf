-- ===== src/Std/Hex.antt =====
-- encoding/hex: `EncodeToString` and `DecodeString`.
use tokyo3_base.Base.{
  ℕ, ◌+◌, ◌-◌, ◌*◌, ◌/◌, ◌%◌, ◌<◌, ◌≡◌, refl, ap, ◌&&◌, Option, none, some, [], ◌∷◌, arith, subst,
  Bytes, All, length, ltb, leb, if◌then◌else◌,
}

digit : ℕ → ℕ
digit n = if ltb n 10 then 48 + n else 87 + n

value : ℕ → Option ℕ
value c =
    if leb 48 c && leb c 57
    then some (c - 48)
    else if leb 97 c && leb c 102
    then some (c - 87)
    else if leb 65 c && leb c 70
    then some (c - 55)
    else none

unfoldable pub encode : Bytes → Bytes
unfolding digit
encode [] = []
encode (b ∷ bs) = digit (b / 16) ∷ digit (b % 16) ∷ encode bs

join : Option ℕ → Option ℕ → Option Bytes → Option Bytes
join (some h) (some l) (some bs) = some ((h * 16 + l) ∷ bs)
join _ _ _ = none

-- An odd length and a byte that is no hexadecimal digit are errors.
unfoldable pub decode : Bytes → Option Bytes
unfolding value join
decode [] = some []
decode (_ ∷ []) = none
decode (h ∷ l ∷ r) = join (value h) (value l) (decode r)

value-digit : (n : ℕ) → n < 16 → value (digit n) ≡ some n
unfolding value digit
value-digit n h = ground arith

pub decode-encode : (bs : Bytes) → All (λ b. b < 256) bs → decode (encode bs) ≡ some bs
unfolding decode encode
decode-encode [] h = refl
decode-encode (b ∷ bs) h =
    unfold join in
    rw
      (value-digit (b / 16) (omega arith), value-digit (b % 16) (omega arith), decode-encode bs h.1)
      (ap (λ x. some (x ∷ bs)) (omega arith))

pub length-encode : (bs : Bytes) → length (encode bs) ≡ length bs * 2
unfolding encode
length-encode [] = omega arith
length-encode (b ∷ bs) = omega (arith, length-encode bs)

value-lt : (c : ℕ) {n : ℕ} → value c ≡ some n → n < 16
unfolding value
value-lt c h = ground arith

join_inv :
    (h l : Option ℕ) (r : Option Bytes) {bs : Bytes}
    → join h l r ≡ some bs
    → (x : ℕ) × (y : ℕ) × (zs : Bytes) × (h ≡ some x)
      × (l ≡ some y)
      × (r ≡ some zs)
      × (bs ≡ (x * 16 + y) ∷ zs)
unfolding join
join_inv (some x) (some y) (some zs) e = (x, y, zs, refl, refl, refl, ground arith)
join_inv none l r e = cc
join_inv (some x) none r e = cc
join_inv (some x) (some y) none e = cc

-- Whatever decodes is made of bytes.
pub decode_bytes : (s : Bytes) (bs : Bytes) → decode s ≡ some bs → All (λ b. b < 256) bs
unfolding decode
decode_bytes [] bs e = let p : [] ≡ bs = ground arith in subst (All (λ b. b < 256)) p tt
decode_bytes (c ∷ []) bs e = cc
decode_bytes (c ∷ d ∷ s) bs e =
    let (x, y, zs, hx, hy, hz, hb) = join_inv (value c) (value d) (decode s) e in
    let lx : x < 16 = value-lt c hx in
    let ly : y < 16 = value-lt d hy in rw hb (omega arith, decode_bytes s zs hz)
