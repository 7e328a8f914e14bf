-- ===== src/Std/Base64.antt =====
-- encoding/base64: `RawURLEncoding`, whose decoder skips line breaks and refuses padding.
use tokyo3_base.Base.{
  ℕ, ◌+◌, ◌-◌, ◌*◌, ◌/◌, ◌%◌, ◌<◌, ◌≡◌, refl, ap, Bool, false, ◌&&◌, ◌||◌, Option, none, some, [],
  ◌∷◌, arith, Bytes, All, length, ltb, leb, ◌==◌, if◌then◌else◌,
}
use mathlib.Core.Path.{ap₂}

digit : ℕ → ℕ
digit n =
    if ltb n 26
    then 65 + n
    else if ltb n 52
    then 71 + n
    else if ltb n 62
    then n - 4
    else if n == 62
    then b'-'
    else b'_'

value : ℕ → Option ℕ
value c =
    if leb 65 c && leb c 90
    then some (c - 65)
    else if leb 97 c && leb c 122
    then some (c - 71)
    else if leb 48 c && leb c 57
    then some (c + 4)
    else if c == b'-'
    then some 62
    else if c == b'_'
    then some 63
    else none

unfoldable pub encode : Bytes → Bytes
unfolding digit
encode [] = []
encode (a ∷ []) = digit (a / 4) ∷ digit (a % 4 * 16) ∷ []
encode (a ∷ b ∷ []) = digit (a / 4) ∷ digit (a % 4 * 16 + b / 16) ∷ digit (b % 16 * 4) ∷ []
encode (a ∷ b ∷ c ∷ r) =
    digit (a / 4)
    ∷ digit (a % 4 * 16 + b / 16)
    ∷ digit (b % 16 * 4 + c / 64)
    ∷ digit (c % 64)
    ∷ encode r

two : Option ℕ → Option ℕ → Option Bytes
two (some w) (some x) = some ((w * 4 + x / 16) ∷ [])
two _ _ = none

three : Option ℕ → Option ℕ → Option ℕ → Option Bytes
three (some w) (some x) (some y) = some ((w * 4 + x / 16) ∷ (x % 16 * 16 + y / 4) ∷ [])
three _ _ _ = none

four : Option ℕ → Option ℕ → Option ℕ → Option ℕ → Option Bytes → Option Bytes
four (some w) (some x) (some y) (some z) (some r) =
    some ((w * 4 + x / 16) ∷ (x % 16 * 16 + y / 4) ∷ (y % 4 * 64 + z) ∷ r)
four _ _ _ _ _ = none

decode_quanta : Bytes → Option Bytes
unfolding value two three four
decode_quanta [] = some []
decode_quanta (_ ∷ []) = none
decode_quanta (w ∷ x ∷ []) = two (value w) (value x)
decode_quanta (w ∷ x ∷ y ∷ []) = three (value w) (value x) (value y)
decode_quanta (w ∷ x ∷ y ∷ z ∷ r) = four (value w) (value x) (value y) (value z) (decode_quanta r)

is_line_break : ℕ → Bool
is_line_break c = (c == 10) || (c == 13)

strip_line_breaks : Bytes → Bytes
unfolding is_line_break
strip_line_breaks [] = []
strip_line_breaks (c ∷ s) =
    let rest = strip_line_breaks s in if is_line_break c then rest else c ∷ rest

unfoldable pub decode : Bytes → Option Bytes
unfolding decode_quanta strip_line_breaks
decode s = decode_quanta (strip_line_breaks s)

value-digit : (n : ℕ) → n < 64 → value (digit n) ≡ some n
unfolding value digit
value-digit n h = ground arith

is_line_break-digit : (n : ℕ) → n < 64 → is_line_break (digit n) ≡ false
unfolding is_line_break digit
is_line_break-digit n h = ground arith

abbrev IsBytes : Bytes → Type 0
IsBytes = All (λ b. b < 256)

strip-digit :
    (n : ℕ) (s : Bytes) → n < 64 → strip_line_breaks (digit n ∷ s) ≡ digit n ∷ strip_line_breaks s
unfolding strip_line_breaks
strip-digit n s h = unfold is_line_break in ground (arith, is_line_break-digit n h)

strip-encode : (bs : Bytes) → IsBytes bs → strip_line_breaks (encode bs) ≡ encode bs
unfolding encode
strip-encode [] h = unfold strip_line_breaks in refl
strip-encode (a ∷ []) h =
    rw (strip-digit (a / 4) _ (omega arith), strip-digit (a % 4 * 16) _ (omega arith))
      (unfold strip_line_breaks in refl)
strip-encode (a ∷ b ∷ []) h =
    rw
      (
        strip-digit (a / 4) _ (omega arith),
        strip-digit (a % 4 * 16 + b / 16) _ (omega arith),
        strip-digit (b % 16 * 4) _ (omega arith),
      )
      (unfold strip_line_breaks in refl)
strip-encode (a ∷ b ∷ c ∷ r) h =
    rw
      (
        strip-digit (a / 4) _ (omega arith),
        strip-digit (a % 4 * 16 + b / 16) _ (omega arith),
        strip-digit (b % 16 * 4 + c / 64) _ (omega arith),
        strip-digit (c % 64) _ (omega arith),
        strip-encode r h.1.1.1,
      )
      refl

decode_quanta-encode : (bs : Bytes) → IsBytes bs → decode_quanta (encode bs) ≡ some bs
unfolding decode_quanta encode
decode_quanta-encode [] h = refl
decode_quanta-encode (a ∷ []) h =
    unfold two in
    rw (value-digit (a / 4) (omega arith), value-digit (a % 4 * 16) (omega arith))
      (ap (λ x. some (x ∷ [])) (omega arith))
decode_quanta-encode (a ∷ b ∷ []) h =
    unfold three in
    rw
      (
        value-digit (a / 4) (omega arith),
        value-digit (a % 4 * 16 + b / 16) (omega arith),
        value-digit (b % 16 * 4) (omega arith),
      )
      (ap₂ (λ x y. some (x ∷ y ∷ [])) (omega arith) (omega arith))
decode_quanta-encode (a ∷ b ∷ c ∷ r) h =
    unfold four in
    rw
      (
        value-digit (a / 4) (omega arith),
        value-digit (a % 4 * 16 + b / 16) (omega arith),
        value-digit (b % 16 * 4 + c / 64) (omega arith),
        value-digit (c % 64) (omega arith),
        decode_quanta-encode r h.1.1.1,
      )
      (ap₂ (λ x y. some (x ∷ y)) (omega arith) (ap₂ (λ x y. x ∷ y ∷ r) (omega arith) (omega arith)))

pub decode-encode : (bs : Bytes) → IsBytes bs → decode (encode bs) ≡ some bs
unfolding decode
decode-encode bs h = rw (strip-encode bs h) (decode_quanta-encode bs h)

pub length-encode : (bs : Bytes) → length (encode bs) ≡ (length bs * 4 + 2) / 3
unfolding encode
length-encode [] = omega arith
length-encode (a ∷ []) = omega arith
length-encode (a ∷ b ∷ []) = omega arith
length-encode (a ∷ b ∷ c ∷ r) = omega (arith, length-encode r)
