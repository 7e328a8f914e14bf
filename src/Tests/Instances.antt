-- ===== src/Tests/Instances.antt =====
-- Small functions that stand in for the parameters of the model, with the laws that theorems assume
-- of them. They are chosen to be easy to compute with, and are not secure.
use tokyo3_base.Base.{
  ℕ, zero, suc, ◌+◌, ◌-◌, ◌*◌, ◌%◌, ◌≤◌, ◌<◌, ◌≡◌, refl, sym, ◌&&◌, Option, none, some, List, [],
  Result, ok, err, ◌∷◌, ◌++◌, arith, Bytes, bytes_eq, bytes_eq_refl, bytes_eq_ne, length, take,
  drop, take-append_of_length, drop-append_of_length, All, ltb, ◌==◌, Bool-cases, inl, inr,
  if◌then◌else◌,
}
use tokyo3_base.ClientIp.{Addr, v4, v6, AddrText, IsTextual}
use tokyo3_base.Crypto.Cipher.{Cipher, IsCorrect, EmitsBytes, Authenticates}
use tokyo3_base.Csrf.{IsMac}
use tokyo3_base.SealedCookie.{Codec, IsLossless}

-- Numbers as bytes: 255 stands for 255 and more to come.
unfoldable pub digits : ℕ → ℕ → Bytes → Bytes
digits zero n rest = n ∷ rest
digits (suc fuel) n rest =
    let more = digits fuel (n - 255) rest in if ltb n 255 then n ∷ rest else 255 ∷ more

unfoldable pub to_bytes : List ℕ → Bytes
unfolding digits
to_bytes [] = []
to_bytes (n ∷ ns) = digits n n (to_bytes ns)

unfoldable pub from_bytes : ℕ → Bytes → List ℕ
from_bytes acc [] = []
from_bytes acc (b ∷ bs) =
    if b == 255 then from_bytes (acc + 255) bs else (acc + b) ∷ from_bytes 0 bs

from_bytes-digits :
    (fuel n acc : ℕ) (rest : Bytes)
    → n ≤ fuel
    → from_bytes acc (digits fuel n rest) ≡ (acc + n) ∷ from_bytes 0 rest
unfolding from_bytes digits
from_bytes-digits zero n acc rest h = ground arith
from_bytes-digits (suc fuel) n acc rest h =
    ground (arith, from_bytes-digits fuel (n - 255) (acc + 255) rest)

from_bytes-to_bytes : (ns : List ℕ) → from_bytes 0 (to_bytes ns) ≡ ns
unfolding to_bytes
from_bytes-to_bytes [] = unfold from_bytes in refl
from_bytes-to_bytes (n ∷ ns) =
    ground (arith, from_bytes-digits n n 0 (to_bytes ns), from_bytes-to_bytes ns)

digits-bytes :
    (fuel n : ℕ) (rest : Bytes)
    → n ≤ fuel
    → All (λ b. b < 256) rest
    → All (λ b. b < 256) (digits fuel n rest)
unfolding digits
digits-bytes zero n rest h bytes = (omega arith, bytes)
digits-bytes (suc fuel) n rest h bytes = elim (Bool-cases (ltb n 255)) [
  | inl small ↦ rw small (ground (arith, small), bytes)
  | inr large ↦ rw large (omega arith, digits-bytes fuel (n - 255) rest (ground arith) bytes)
]

to_bytes-bytes : (ns : List ℕ) → All (λ b. b < 256) (to_bytes ns)
unfolding to_bytes
to_bytes-bytes [] = tt
to_bytes-bytes (n ∷ ns) = digits-bytes n n (to_bytes ns) (omega arith) (to_bytes-bytes ns)

-- A cipher that writes the additional data in front of the plaintext.
unfoldable pub opened : Bytes → List ℕ → Option Bytes
opened aad [] = none
opened aad (n ∷ rest) =
    if (n == length aad) && bytes_eq (take n rest) aad then some (drop n rest) else none

unfoldable pub tagged : Cipher
unfolding opened
tagged = record {
  seal = λ key nonce plaintext aad. to_bytes (length aad ∷ (aad ++ plaintext));
  unseal = λ key nonce ciphertext aad. opened aad (from_bytes 0 ciphertext);
}

opened-append :
    (aad aad' plaintext : Bytes)
    → opened aad' (length aad ∷ (aad ++ plaintext))
      ≡ (if (length aad == length aad') && bytes_eq aad aad' then some plaintext else none)
unfolding opened
opened-append aad aad' plaintext =
    rw
      (
        take-append_of_length (length aad) aad plaintext refl,
        drop-append_of_length (length aad) aad plaintext refl,
      )
      refl

pub tagged-IsCorrect : IsCorrect tagged
unfolding tagged
tagged-IsCorrect = record {
  unseal-seal = λ key nonce plaintext aad.
      rw
        (
          from_bytes-to_bytes (length aad ∷ (aad ++ plaintext)),
          opened-append aad aad plaintext,
          bytes_eq_refl aad,
        )
        (ground arith);
}

pub tagged-EmitsBytes : EmitsBytes tagged
unfolding tagged
tagged-EmitsBytes = record {
  bytes = λ key nonce plaintext aad. to_bytes-bytes (length aad ∷ (aad ++ plaintext));
}

pub tagged-Authenticates : Authenticates tagged
unfolding tagged
tagged-Authenticates = record {
  unseal_ne = λ key nonce plaintext aad aad' ne.
      rw
        (
          from_bytes-to_bytes (length aad ∷ (aad ++ plaintext)),
          opened-append aad aad' plaintext,
          bytes_eq_ne aad aad' ne,
        )
        (ground arith);
}

-- A digest of 32 bytes, of the lengths.
abbrev pub zeros : ℕ → Bytes
zeros zero = []
zeros (suc n) = 0 ∷ zeros n

zeros-bytes : (n : ℕ) → All (λ b. b < 256) (zeros n)
zeros-bytes zero = tt
zeros-bytes (suc n) = (omega arith, zeros-bytes n)

unfoldable pub length_mac : Bytes → Bytes → Bytes
length_mac key message = (length key * 7 + length message) % 256 ∷ zeros 31

pub length_mac-IsMac : IsMac length_mac
unfolding length_mac
length_mac-IsMac = record {
  length_lem = λ key message. refl;
  bytes = λ key message. (omega arith, zeros-bytes 31);
}

-- Addresses as texts of their numbers.
unfoldable pub read_addr : Bytes → Option Addr
read_addr (kind ∷ a ∷ []) = if kind == 4 then some (v4 a) else none
read_addr (kind ∷ hi ∷ lo ∷ zone) = if kind == 6 then some (v6 hi lo zone) else none
read_addr text = none

unfoldable pub print_addr : Addr → Bytes
print_addr (v4 a) = 4 ∷ a ∷ []
print_addr (v6 hi lo zone) = 6 ∷ hi ∷ lo ∷ zone

unfoldable pub plain_text : AddrText
unfolding read_addr print_addr
plain_text = record {
  parse_ip = read_addr;
  parse_addr = read_addr;
  to_text = print_addr;
  prefix_64_to_text = λ hi. 64 ∷ hi ∷ [];
  split_host = λ remote_addr. none;
}

read_addr-print_addr : (a : Addr) → read_addr (print_addr a) ≡ some a
unfolding read_addr print_addr
read_addr-print_addr (v4 a) = refl
read_addr-print_addr (v6 hi lo zone) = refl

pub plain_text-IsTextual : IsTextual plain_text
unfolding plain_text
plain_text-IsTextual = record { parse_addr-to_text = read_addr-print_addr }

-- A payload that is bytes already.
abbrev pub raw : Codec Bytes
raw = record { marshal = λ v. some v; unmarshal = λ b. some b }

pub raw-IsLossless : IsLossless raw
raw-IsLossless = record { unmarshal-marshal = λ v b h. sym h }

-- The value of a call that succeeded.
abbrev pub value_of {ℓ κ} : {E : Type ℓ} {A : Type κ} → A → Result E A → A
value_of d (ok a) = a
value_of d (err e) = d
