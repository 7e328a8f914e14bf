-- ===== src/Base/Strings.antt =====
-- Go's `string` and `[]byte`: lists of bytes, with the functions of package strings that the
-- program calls.
use Prim.Native.Nat.{ℕ}
use Prim.Native.Char.{code}
use Prim.Native.String.{String}
use mathlib.Core.Path.{◌≡◌, refl}
use mathlib.Core.Logic.{◌≢◌, ◌↔◌}
use mathlib.Core.Bool.{Bool, true, false, ◌&&◌, ◌||◌}
use mathlib.Core.List.{List, [], ◌∷◌, ◌++◌, reverse, reverse-append, reverse-reverse}
use native.Mathlib.Omega.{arith}
use tokyo3_base.Base.Tests.{◌==◌, if◌then◌else◌}

abbrev pub Bytes : Type 0
Bytes = List ℕ

-- A literal, by the code points of its (ASCII) characters.
abbrev pub text : String → Bytes
text String.[] = []
text (String.◌∷◌ c s) = code c ∷ text s

unfoldable pub bytes_eq : Bytes → Bytes → Bool
bytes_eq [] [] = true
bytes_eq (x ∷ xs) (y ∷ ys) = (x == y) && bytes_eq xs ys
bytes_eq _ _ = false

pub bytes_eq_iff : (a b : Bytes) → (bytes_eq a b ≡ true) ↔ (a ≡ b)
unfolding bytes_eq
bytes_eq_iff [] [] = ground arith
bytes_eq_iff [] (y ∷ b) = ground arith
bytes_eq_iff (x ∷ a) [] = ground arith
bytes_eq_iff (x ∷ a) (y ∷ b) = ground (arith, bytes_eq_iff a b)

pub bytes_eq_refl : (a : Bytes) → bytes_eq a a ≡ true
bytes_eq_refl a = (bytes_eq_iff a a).1 refl

pub bytes_eq_ne : (a b : Bytes) → a ≢ b → bytes_eq a b ≡ false
bytes_eq_ne a b h = ground (arith, bytes_eq_iff a b)

-- strings.HasPrefix(s, p).
unfoldable pub has_prefix : Bytes → Bytes → Bool
has_prefix s [] = true
has_prefix [] (y ∷ p) = false
has_prefix (x ∷ s) (y ∷ p) = (x == y) && has_prefix s p

pub has_prefix-append : (p s : Bytes) → has_prefix (p ++ s) p ≡ true
unfolding has_prefix
has_prefix-append [] s = refl
has_prefix-append (x ∷ p) s = ground (arith, has_prefix-append p s)

pub has_prefix_inv : (s p : Bytes) → has_prefix s p ≡ true → (r : Bytes) × (s ≡ p ++ r)
unfolding has_prefix
has_prefix_inv s [] h = (s, refl)
has_prefix_inv [] (y ∷ p) h = absurd (ground arith)
has_prefix_inv (x ∷ s) (y ∷ p) h =
    let (r, e) = has_prefix_inv s p (ground arith) in (r, ground (arith, e))

-- strings.TrimPrefix(s, p).
unfoldable pub trim_prefix : Bytes → Bytes → Bytes
trim_prefix s [] = s
trim_prefix [] (y ∷ p) = []
trim_prefix (x ∷ s) (y ∷ p) = if (x == y) && has_prefix s p then trim_prefix s p else x ∷ s

-- strings.HasSuffix(s, p) and strings.TrimSuffix(s, p).
unfoldable pub has_suffix : Bytes → Bytes → Bool
unfolding has_prefix
has_suffix s p = has_prefix (reverse s) (reverse p)

unfoldable pub trim_suffix : Bytes → Bytes → Bytes
unfolding trim_prefix has_prefix
trim_suffix s p = reverse (trim_prefix (reverse s) (reverse p))

trim_prefix-append : (p s : Bytes) → trim_prefix (p ++ s) p ≡ s
unfolding trim_prefix
trim_prefix-append [] s = refl
trim_prefix-append (x ∷ p) s = ground (arith, has_prefix-append p s, trim_prefix-append p s)

pub trim_suffix-append : (s p : Bytes) → trim_suffix (s ++ p) p ≡ s
trim_suffix-append s p =
    unfold trim_suffix in
    rw (reverse-append s p, trim_prefix-append (reverse p) (reverse s)) (reverse-reverse s)

-- slices.Contains over strings, and strings.ContainsRune for an ASCII byte.
unfoldable pub contains_bytes : List Bytes → Bytes → Bool
contains_bytes [] a = false
contains_bytes (x ∷ xs) a = bytes_eq x a || contains_bytes xs a

unfoldable pub contains_byte : Bytes → ℕ → Bool
contains_byte [] c = false
contains_byte (x ∷ xs) c = (x == c) || contains_byte xs c
