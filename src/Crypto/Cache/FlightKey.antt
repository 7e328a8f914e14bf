-- ===== src/Crypto/Cache/FlightKey.antt =====
-- The name under which concurrent misses of crypto/cache.go share one unwrap.
use tokyo3_base.Base.{
  ℕ, ◌^◌, ◌<◌, ◌≡◌, refl, ap, [], ◌∷◌, ◌++◌, arith, Bytes, length, length-append,
}
use tokyo3_base.Crypto.Cache.{flight_key, big_endian_64}

big_endian_64-injective :
    (g h : ℕ) → g < 2 ^ 64 → h < 2 ^ 64 → big_endian_64 g ≡ big_endian_64 h → g ≡ h
big_endian_64-injective g h p q e = ground arith

-- Lists with suffixes of one length split in one way.
split_suffix :
    (xs ys us vs : Bytes) → length us ≡ length vs → xs ++ us ≡ ys ++ vs → (xs ≡ ys) × (us ≡ vs)
split_suffix [] [] us vs h e = (refl, e)
split_suffix [] (y ∷ ys) us vs h e = absurd (omega (arith, ap length e, length-append (y ∷ ys) vs))
split_suffix (x ∷ xs) [] us vs h e = absurd (omega (arith, ap length e, length-append (x ∷ xs) us))
split_suffix (x ∷ xs) (y ∷ ys) us vs h e =
    let (p, q) = split_suffix xs ys us vs h (ground arith) in (ground (arith, p), q)

-- Two callers share a flight only for one key id, one generation and one digest, whatever bytes
-- the key ids hold, for digests of one length and 64-bit generations.
pub flight_key-injective :
    (k k' : Bytes) (g g' : ℕ) (d d' : Bytes)
    → g < 2 ^ 64
    → g' < 2 ^ 64
    → length d ≡ length d'
    → flight_key k g d ≡ flight_key k' g' d'
    → (k ≡ k') × (g ≡ g') × (d ≡ d')
unfolding flight_key
flight_key-injective k k' g g' d d' p p' h e =
    let us : Bytes = 0 ∷ (big_endian_64 g ++ d) in
    let vs : Bytes = 0 ∷ (big_endian_64 g' ++ d') in
    let (same_id, tails) = split_suffix k k' us vs (omega (arith, h)) e in
    (same_id, ground (arith, tails), ground (arith, tails))
