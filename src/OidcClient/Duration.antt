-- ===== src/OidcClient/Duration.antt =====
-- Go's `time.Duration` as a 64-bit word in two's complement, and times moved by one.
use tokyo3_base.Base.{ℕ, ◌+◌, ◌-◌, ◌*◌, ◌%◌, Bool, leb, if◌then◌else◌}
use tokyo3_base.Base.Int.{ℤ, pos, negsuc}

abbrev pub word : ℕ
word = 18446744073709551616

abbrev pub half_word : ℕ
half_word = 9223372036854775808

abbrev pub second : ℕ
second = 1_000_000_000

unfoldable pub to_word : ℤ → ℕ
to_word (pos n) = n % word
to_word (negsuc n) = word - 1 - n % word

-- `time.Duration(n) * time.Second`, which wraps around.
unfoldable pub seconds : ℤ → ℕ
unfolding to_word
seconds n = (to_word n * second) % word

abbrev pub is_negative : ℕ → Bool
is_negative d = leb half_word d

-- `now.Add(d)`.
unfoldable pub add : ℕ → ℕ → ℕ
add now d = if is_negative d then now + d - word else now + d
