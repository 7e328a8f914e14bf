-- ===== src/Crypto/Cache.antt =====
-- crypto/cache.go: `KeyProviderCache`. The clock readings are arguments; the root provider and
-- SHA-256 are parameters. The mutex makes each of `lookup`, `store` and `Invalidate` one step.
pub mod FlightKey
mod Entries
pub mod Direct
pub mod Revocation
use tokyo3_base.Base.{
  ℕ, ◌+◌, ◌/◌, ◌%◌, ◌^◌, ◌≡◌, Bool, true, ◌&&◌, Option, none, some, List, [], ◌∷◌, ◌++◌, Bytes,
  bytes_eq, Result, ok, err, map_err, ltb, ◌==◌, if◌then◌else◌,
}
use tokyo3_base.Base.Int.{ℤ, pos_part, is_nonpositive}
use tokyo3_base.Base.Dict
use tokyo3_base.Base.Dict.{Dict}
use tokyo3_base.Crypto.Entropy.{Error, provider, within, unwrap_key}

pub record Entry : Type 0 where
  pub key : Bytes
  pub digest : Bytes
  pub expires_at : ℕ

pub record Cache : Type 0 where
  pub entries : Dict Entry
  pub ttl : ℤ
  pub generation : ℕ

unfoldable pub new_key_provider_cache : ℤ → Cache
new_key_provider_cache ttl = record { entries = Dict.empty; ttl = ttl; generation = 0 }

-- `e, ok := c.entries[keyID]; ok && e.wrappedDigest == digest && time.Now().Before(e.expiresAt)`.
answer : Bytes → ℕ → Option Entry → Option Bytes
answer digest now none = none
answer digest now (some e) =
    if bytes_eq e.digest digest && ltb now e.expires_at then some e.key else none

unfoldable pub lookup : Bytes → Bytes → ℕ → Cache → Option Bytes
unfolding answer
lookup key_id digest now c = answer digest now (Dict.get key_id c.entries)

unfoldable pub store : Bytes → Bytes → ℕ → Bytes → ℕ → Cache → Cache
store key_id digest gen key now c =
    if gen == c.generation
    then record c {
      entries =
          if is_nonpositive c.ttl
          then kept
          else Dict.put key_id
              (record { key = key; digest = digest; expires_at = now + pos_part c.ttl }) kept;
    }
    else c
  where
    kept : Dict Entry
    kept = Dict.keep (λ e. ltb now e.expires_at) c.entries

unfoldable pub invalidate : Bytes → Cache → Cache
invalidate key_id c = record c {
  generation = (c.generation + 1) % 2 ^ 64;
  entries = Dict.remove key_id c.entries;
}

-- A big-endian 64-bit number, as `binary.BigEndian.AppendUint64` writes it.
abbrev pub big_endian_64 : ℕ → Bytes
big_endian_64 g =
    g / 2 ^ 56 % 256
    ∷ g / 2 ^ 48 % 256
    ∷ g / 2 ^ 40 % 256
    ∷ g / 2 ^ 32 % 256
    ∷ g / 2 ^ 24 % 256
    ∷ g / 2 ^ 16 % 256
    ∷ g / 2 ^ 8 % 256
    ∷ g % 256
    ∷ []

unfoldable pub flight_key : Bytes → ℕ → Bytes → Bytes
flight_key key_id gen digest = key_id ++ (0 ∷ (big_endian_64 gen ++ digest))

-- A call of the root provider returns, or panics with some value.
pub data Call : Type 0 where
  returned : Result Error Bytes → Call
  panicked : ℕ → Call

unfoldable pub unwrap : Call → Result Error Bytes
unwrap (returned r) = r
unwrap (panicked v) = err (provider v)

-- The root itself, or a local provider with the unwrapped key.
pub data Provider : Type 0 where
  root : Provider
  local : Bytes → Provider

to_provider : Result Error Bytes × Cache → Result Error Provider × Cache
to_provider (ok key, c) = (ok (local key), c)
to_provider (err e, c) = (err e, c)

module _ (sha256 : Bytes → Bytes) (root_unwrap : Bytes → Call) where
  finish_flight : Bytes → Bytes → ℕ → ℕ → Cache → Result Error Bytes → Result Error Bytes × Cache
  finish_flight key_id digest gen now c (ok key) = (ok key, store key_id digest gen key now c)
  finish_flight key_id digest gen now c (err e) = (err (within unwrap_key e), c)

  -- The function that a flight runs: look again, unwrap, store.
  unfoldable pub fly : Bytes → Bytes → ℕ → ℕ → ℕ → Cache → Result Error Bytes × Cache
  unfolding finish_flight
  fly key_id wrapped gen again now c = elim (lookup key_id (sha256 wrapped) again c) [
    | some key ↦ (ok key, c)
    | none ↦ finish_flight key_id (sha256 wrapped) gen now c (unwrap (root_unwrap wrapped))
  ]

  -- `ForKey` with the cache to itself; `start`, `again` and `now` are its three clock readings.
  unfoldable pub for_key : Bytes → Option Bytes → ℕ → ℕ → ℕ → Cache → Result Error Provider × Cache
  unfolding fly to_provider
  for_key key_id none start again now c = (ok root, c)
  for_key key_id (some wrapped) start again now c = elim (lookup key_id (sha256 wrapped) start c) [
    | some key ↦ (ok (local key), c)
    | none ↦ to_provider (fly key_id wrapped c.generation again now c)
  ]
