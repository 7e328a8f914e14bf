-- ===== src/Tests/CryptoRuns.antt =====
-- The theorems of packages crypto, csrf and sealedcookie at concrete inputs.
use tokyo3_base.Base.{
  ◌↔◌, ℕ, zero, suc, ◌+◌, ◌<◌, ◌≤◌, ◌≡◌, ◌≢◌, refl, true, none, some, [], ◌∷◌, arith, Bytes,
  bytes_eq, text, ok, err, length, drop, All,
}
use tokyo3_base.Base.Int.{pos}
use tokyo3_base.Base.Dict
use tokyo3_base.Http.{Request, SetCookie}
use tokyo3_base.Crypto.Entropy.{random_bytes, within, decrypt, unauthentic}
use tokyo3_base.Std.Base64
use tokyo3_base.Crypto.Seal.{seal_aad}
use tokyo3_base.Crypto.Envelope.{
  KeyProvider, local_key_provider, encrypt_envelope_aad, decrypt_envelope_aad, rewrap,
}
use tokyo3_base.Crypto.RoundTrip.{local_key_provider-IsFaithful, decrypt-rewrap-encrypt}
use tokyo3_base.Crypto.Cache
use tokyo3_base.Crypto.Cache.{
  Cache, Call, returned, new_key_provider_cache, invalidate, flight_key, for_key, unwrap,
}
use tokyo3_base.Crypto.Cache.Direct.{for_key-direct, IsSound, direct}
use tokyo3_base.Crypto.Cache.Revocation.{System, begin, land, here, next, IsFresh, invalidate_lasts}
use tokyo3_base.Csrf
use tokyo3_base.SealedCookie
use tokyo3_base.SealedCookie.{Cookie}
use tokyo3_base.SealedCookie.RoundTrip.{IsOverTls, open_cookie-seal_ne, read-set}
use tokyo3_base.Tests.Instances.{
  value_of, to_bytes, from_bytes, opened, tagged, tagged-IsCorrect, tagged-EmitsBytes,
  tagged-Authenticates, length_mac, plain_text, raw, raw-IsLossless,
}

-- A source of random bytes that counts.
abbrev counting : ℕ → ℕ → Bytes
counting zero b = []
counting (suc n) b = b ∷ counting n (b + 1)

abbrev source : Bytes
source = counting 100 1

counting-bytes : (n b : ℕ) → n + b ≤ 256 → All (λ x. x < 256) (counting n b)
counting-bytes zero b h = tt
counting-bytes (suc n) b h = (omega arith, counting-bytes n (b + 1) (omega arith))

abbrev key : Bytes
key = counting 32 100

abbrev other_key : Bytes
other_key = counting 32 150

abbrev old_provider : KeyProvider
old_provider = local_key_provider tagged key

abbrev new_provider : KeyProvider
new_provider = local_key_provider tagged other_key

abbrev envelope : Bytes × Bytes
envelope =
    value_of ([], []) (encrypt_envelope_aad tagged old_provider (text "v") (text "a") source).0

abbrev rewrapped : Bytes
rewrapped = value_of [] (rewrap old_provider new_provider envelope.1 source).0

decrypt-rewrap-encrypt_example :
    (decrypt_envelope_aad tagged old_provider envelope.1 envelope.0 (text "a") ≡ ok (text "v"))
    × (decrypt_envelope_aad tagged new_provider rewrapped envelope.0 (text "a") ≡ ok (text "v"))
unfolding encrypt_envelope_aad rewrap local_key_provider random_bytes tagged to_bytes from_bytes
    opened bytes_eq
decrypt-rewrap-encrypt_example =
    decrypt-rewrap-encrypt tagged old_provider new_provider (text "v") (text "a") source
      (drop 56 source) source (drop 12 source) envelope.0 envelope.1 rewrapped tagged-IsCorrect
      (local_key_provider-IsFaithful tagged key tagged-IsCorrect)
      (local_key_provider-IsFaithful tagged other_key tagged-IsCorrect) refl refl

-- A root that unwraps every material to itself, and a digest that is the material.
abbrev root_unwrap : Bytes → Call
root_unwrap wrapped = returned (ok wrapped)

abbrev digest : Bytes → Bytes
digest b = b

abbrev empty_cache : Cache
empty_cache = new_key_provider_cache (pos 1000)

-- Callers present the one material.
abbrev Presented : Bytes → Type 0
Presented wrapped = wrapped ≡ key

empty_cache-IsSound : IsSound digest root_unwrap Presented empty_cache
unfolding new_key_provider_cache Dict.get
empty_cache-IsSound = record { at_key = λ k e h. absurd (ground (arith, h)) }

for_key-direct_example :
    ((for_key digest root_unwrap (text "k1") (some key) 5 5 5 empty_cache).0
      ≡ direct (unwrap (root_unwrap key)))
    × IsSound digest root_unwrap Presented
        (for_key digest root_unwrap (text "k1") (some key) 5 5 5 empty_cache).1
for_key-direct_example =
    for_key-direct digest root_unwrap Presented (text "k1") key 5 5 5 empty_cache refl
      (λ x seen same. seen) empty_cache-IsSound

-- Material that callers use from the invalidation on.
abbrev Rotated : Bytes → Type 0
Rotated wrapped = wrapped ≡ other_key

abbrev Any : Bytes → Bytes → Type 0
Any key_id wrapped = Unit

-- One flight with old material is under way when `k1` is invalidated; it lands afterwards, and then a
-- caller with new material flies.
abbrev before_it : System
before_it = record {
  cache = empty_cache;
  flights = record { key_id = text "k1"; wrapped = key; gen = 0 } ∷ [];
}

abbrev invalidated : System
invalidated = record before_it { cache = invalidate (text "k1") empty_cache }

abbrev late : System
late = record {
  cache = Cache.store (text "k1") key 0 key 7 (invalidate (text "k1") empty_cache);
  flights = [];
}

abbrev flying : System
flying = record late {
  flights = record { key_id = text "k1"; wrapped = other_key; gen = late.cache.generation } ∷ [];
}

abbrev landed : System
landed = record {
  cache = Cache.store (text "k1") other_key late.cache.generation other_key 8 late.cache;
  flights = [];
}

abbrev rotated_entry : Cache.Entry
rotated_entry = record { key = other_key; digest = other_key; expires_at = 1008 }

invalidate_lasts_example : IsFresh digest root_unwrap (text "k1") Rotated rotated_entry
unfolding new_key_provider_cache invalidate Cache.store unwrap Dict.get Dict.put Dict.keep
    Dict.remove bytes_eq
invalidate_lasts_example =
    invalidate_lasts digest root_unwrap (text "k1") Rotated {Before = Any} (pos 1000) before_it
      landed rotated_entry (next here (begin _ (text "k1") key tt)) (omega arith)
      (next
        (next (next here (land invalidated [] [] _ key 7 refl refl))
          (begin late (text "k1") other_key (λ h. refl)))
        (land flying [] [] _ other_key 8 refl refl))
      refl

abbrev wire : Bytes
wire = value_of [] (Csrf.token length_mac (text "secret") (text "delete") source).0

abbrev cookie_a : Cookie
cookie_a = record { key = key; name = text "app_a"; path = text "/"; proxies = none }

abbrev cookie_b : Cookie
cookie_b = record cookie_a { name = text "app_b" }

abbrev request : Request
request = record {
  method = text "GET";
  path = text "/";
  raw_query = [];
  host = text "h";
  tls = true;
  headers = [];
  cookies = [];
  source = record { remote_addr = 4 ∷ 100 ∷ []; forwarded_for = [] };
}

other_name : cookie_a.name ≢ cookie_b.name
other_name h = ground (arith, h)

open_cookie-seal_ne_example :
    SealedCookie.open_cookie tagged raw cookie_b
      (value_of [] (SealedCookie.seal tagged raw cookie_a (text "v") source).0)
    ≡ err (SealedCookie.crypto (within decrypt unauthentic))
unfolding SealedCookie.seal seal_aad random_bytes
open_cookie-seal_ne_example =
    open_cookie-seal_ne tagged raw cookie_a cookie_b (text "v") source
      (value_of [] (SealedCookie.seal tagged raw cookie_a (text "v") source).0) (drop 12 source)
      tagged-Authenticates tagged-EmitsBytes (counting-bytes 100 1 (omega arith)) refl other_name
      refl

abbrev set_one : SetCookie
set_one = record {
  name = cookie_a.name;
  value = value_of [] (SealedCookie.seal tagged raw cookie_a (text "v") source).0;
  path = text "/";
  http_only = true;
  secure = true;
  same_site_lax = true;
  expires = some 1_000_000_005;
  max_age = pos 1;
}

read-set_example :
    (SealedCookie.read tagged raw cookie_a
        (record request { cookies = (cookie_a.name, set_one.value) ∷ [] })
      ≡ ok (text "v"))
    × (set_one.name ≡ cookie_a.name)
    × (length set_one.value ≤ SealedCookie.max_value_len)
    × (set_one.http_only ≡ true)
    × ((set_one.secure ≡ true) ↔ IsOverTls tagged raw plain_text cookie_a request)
unfolding SealedCookie.set SealedCookie.seal seal_aad random_bytes SealedCookie.is_https
    Base64.encode tagged to_bytes Dict.get bytes_eq
read-set_example =
    read-set tagged raw plain_text cookie_a request
      (record request { cookies = (cookie_a.name, set_one.value) ∷ [] }) (text "v") 1_000_000_000 5
      source set_one (drop 12 source) tagged-IsCorrect tagged-EmitsBytes raw-IsLossless
      (counting-bytes 100 1 (omega arith)) refl refl
