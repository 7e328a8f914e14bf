-- ===== src/Crypto/Cache/Entries.antt =====
-- Where the entries of crypto/cache.go come from.
use tokyo3_base.Base.{ℕ, ◌+◌, ◌^◌, ◌<◌, ◌≡◌, ◌⊎◌, none, some, arith, Bytes, bytes_eq_iff, ltb}
use tokyo3_base.Base.Int.{pos_part}
use tokyo3_base.Base.Dict
use tokyo3_base.Base.Dict.{get-put, get-keep, get-remove, Dict}
use tokyo3_base.Crypto.Cache.{Cache, Entry, store, invalidate}

abbrev pub new_entry : Bytes → Bytes → ℕ → Cache → Entry
new_entry digest key now c = record {
  key = key;
  digest = digest;
  expires_at = now + pos_part c.ttl;
}

-- After a store an entry is an old one that has not expired, or the new one under the current
-- generation.
pub store_inv :
    (key_id digest : Bytes) (gen : ℕ) (key : Bytes) (now : ℕ) (c : Cache) (j : Bytes) (e : Entry)
    → Dict.get j (store key_id digest gen key now c).entries ≡ some e
    → (Dict.get j c.entries ≡ some e)
      ⊎ ((j ≡ key_id) × (gen ≡ c.generation) × (e ≡ new_entry digest key now c))
unfolding store
store_inv key_id digest gen key now c j e h =
    let kept = Dict.keep (λ (e : Entry). ltb now e.expires_at) c.entries in
    ground (
      arith,
      get-put j key_id (new_entry digest key now c) kept,
      get-keep j (λ e. ltb now e.expires_at) c.entries,
      bytes_eq_iff key_id j,
    )

pub generation-store :
    (key_id digest : Bytes) (gen : ℕ) (key : Bytes) (now : ℕ) (c : Cache)
    → (store key_id digest gen key now c).generation ≡ c.generation
unfolding store
generation-store key_id digest gen key now c = ground arith

pub generation-invalidate :
    (key_id : Bytes) (c : Cache)
    → c.generation + 1 < 2 ^ 64
    → (invalidate key_id c).generation ≡ c.generation + 1
unfolding invalidate
generation-invalidate key_id c h = omega arith

pub invalidate_inv :
    (key_id : Bytes) (c : Cache) (j : Bytes) (e : Entry)
    → Dict.get j (invalidate key_id c).entries ≡ some e
    → Dict.get j c.entries ≡ some e
unfolding invalidate
invalidate_inv key_id c j e h = ground (arith, get-remove j key_id c.entries)

pub get-invalidate_self :
    (key_id : Bytes) (c : Cache) → Dict.get key_id (invalidate key_id c).entries ≡ none
unfolding invalidate
get-invalidate_self key_id c = Dict.get-remove_self key_id c.entries

-- An entry that a store of the current generation leaves behind has not expired.
pub store_live :
    (key_id digest : Bytes) (key : Bytes) (now : ℕ) (c : Cache) (j : Bytes) (e : Entry)
    → Dict.get j (store key_id digest c.generation key now c).entries ≡ some e
    → now < e.expires_at
unfolding store
store_live key_id digest key now c j e h =
    let kept = Dict.keep (λ (e : Entry). ltb now e.expires_at) c.entries in
    ground (
      arith,
      get-put j key_id (new_entry digest key now c) kept,
      get-keep j (λ e. ltb now e.expires_at) c.entries,
      bytes_eq_iff key_id j,
    )
