-- ===== src/Crypto/Cache/Direct.antt =====
-- The answers of `ForKey` of crypto/cache.go, beside those of the root provider.
use tokyo3_base.Base.{
  ℕ, ◌≡◌, refl, ap, Option, none, some, arith, Bytes, bytes_eq_iff, Result, ok, err, map_err,
  Option-cases, inl, inr, Result-cases,
}
use tokyo3_base.Base.Dict
use tokyo3_base.Base.Dict.{Dict, get-put, get-keep, keep_value}
use tokyo3_base.Crypto.Entropy.{Error, within, unwrap_key}
use tokyo3_base.Crypto.Cache.Entries.{store_inv}
use tokyo3_base.Crypto.Cache.{
  to_provider, Cache, Entry, lookup, answer, store, Call, unwrap, Provider, local, fly, for_key,
}

-- The answer without a cache.
abbrev pub direct : Result Error Bytes → Result Error Provider
direct (ok key) = ok (local key)
direct (err e) = err (within unwrap_key e)

-- `Seen` are the materials that callers present.
module _ (sha256 : Bytes → Bytes) (root_unwrap : Bytes → Call) (Seen : Bytes → Type 0) where
  -- An entry holds the key that the root unwraps from material with the entry's digest.
  pub record IsUnwrapped (e : Entry) : Type 0 where
    pub material : Bytes
    pub seen : Seen material
    pub same_digest : e.digest ≡ sha256 material
    pub unwrapped : unwrap (root_unwrap material) ≡ ok e.key

  pub record IsSound (c : Cache) : Type 0 where
    pub at_key : (k : Bytes) (e : Entry) → Dict.get k c.entries ≡ some e → IsUnwrapped e

  answer_inv :
      (digest : Bytes) (now : ℕ) (o : Option Entry) (key : Bytes)
      → answer digest now o ≡ some key
      → (e : Entry) × (o ≡ some e) × (e.digest ≡ digest) × (e.key ≡ key)
  unfolding answer
  answer_inv digest now none key h = cc
  answer_inv digest now (some e) key h =
      (e, refl, ground (arith, bytes_eq_iff e.digest digest), ground arith)

  lookup-IsSound :
      (key_id wrapped key : Bytes) (now : ℕ) (c : Cache)
      → ((x : Bytes) → Seen x → sha256 x ≡ sha256 wrapped → x ≡ wrapped)
      → IsSound c
      → lookup key_id (sha256 wrapped) now c ≡ some key
      → unwrap (root_unwrap wrapped) ≡ ok key
  unfolding lookup
  lookup-IsSound key_id wrapped key now c distinct sound h =
      let (e, found, dig, k) = answer_inv (sha256 wrapped) now (Dict.get key_id c.entries) key h in
      let u = sound.at_key key_id e found in
      let same : u.material ≡ wrapped =
        distinct u.material u.seen (ground (arith, u.same_digest)) in
      ground (arith, u.unwrapped, same)

  store-IsSound :
      (key_id wrapped key : Bytes) (gen now : ℕ) (c : Cache)
      → Seen wrapped
      → unwrap (root_unwrap wrapped) ≡ ok key
      → IsSound c
      → IsSound (store key_id (sha256 wrapped) gen key now c)
  unfolding store
  store-IsSound key_id wrapped key gen now c presented u sound = record {
    at_key = λ j e h. elim (store_inv key_id (sha256 wrapped) gen key now c j e h) [
      | inl old ↦ sound.at_key j e old
      | inr (_, _, new) ↦ record {
        material = wrapped;
        seen = presented;
        same_digest = ap (λ x. x.digest) new;
        unwrapped = rw new u;
      }
    ];
  }

  fly-direct :
      (key_id wrapped : Bytes) (gen again now : ℕ) (c : Cache)
      → Seen wrapped
      → ((x : Bytes) → Seen x → sha256 x ≡ sha256 wrapped → x ≡ wrapped)
      → IsSound c
      → ((fly sha256 root_unwrap key_id wrapped gen again now c).0
          ≡ map_err (within unwrap_key) (unwrap (root_unwrap wrapped)))
        × IsSound (fly sha256 root_unwrap key_id wrapped gen again now c).1
  unfolding fly unwrap
  fly-direct key_id wrapped gen again now c presented distinct sound =
      elim (Option-cases (lookup key_id (sha256 wrapped) again c)) [
        | inr (key, hit) ↦
            rw (hit, fly)
              (rw (lookup-IsSound key_id wrapped key again c distinct sound hit) refl, sound)
        | inl miss ↦ elim (Result-cases (unwrap (root_unwrap wrapped))) [
          | inl (key, u) ↦
              rw (miss, u, fly) (refl, store-IsSound key_id wrapped key gen now c presented u sound)
          | inr (e, u) ↦ rw (miss, u, fly) (refl, sound)
        ]
      ]

  to_provider-direct :
      (r : Result Error Bytes) (f : Result Error Bytes × Cache)
      → (f.0 ≡ map_err (within unwrap_key) r) × IsSound f.1
      → ((to_provider f).0 ≡ direct r) × IsSound (to_provider f).1
  unfolding to_provider
  to_provider-direct (ok key) (r, c) (e, s) = rw (e, to_provider) (refl, s)
  to_provider-direct (err x) (r, c) (e, s) = rw (e, to_provider) (refl, s)

  -- What the cache answers to a caller is what the root unwraps from the caller's own material, on
  -- a hit, on a hit after queueing and on a miss, and the cache stays sound. No other material
  -- that callers present has the SHA-256 digest of this one.
  pub for_key-direct :
      (key_id wrapped : Bytes) (start again now : ℕ) (c : Cache)
      → Seen wrapped
      → ((x : Bytes) → Seen x → sha256 x ≡ sha256 wrapped → x ≡ wrapped)
      → IsSound c
      → ((for_key sha256 root_unwrap key_id (some wrapped) start again now c).0
          ≡ direct (unwrap (root_unwrap wrapped)))
        × IsSound (for_key sha256 root_unwrap key_id (some wrapped) start again now c).1
  unfolding for_key
  for_key-direct key_id wrapped start again now c presented distinct sound =
      elim (Option-cases (lookup key_id (sha256 wrapped) start c)) [
        | inr (key, hit) ↦
            rw (hit, for_key)
              (rw (lookup-IsSound key_id wrapped key start c distinct sound hit) refl, sound)
        | inl miss ↦
            rw (miss, for_key)
              (to_provider-direct _ _
                (fly-direct key_id wrapped c.generation again now c presented distinct sound))
      ]
