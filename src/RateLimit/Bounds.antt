-- ===== src/RateLimit/Bounds.antt =====
-- The memory of the limiter of ratelimit/ratelimit.go.
use tokyo3_base.Base.{
  ℕ, ◌+◌, ◌≤◌, ◌<◌, ◌≡◌, refl, ◌∙◌, Bool, true, false, ◌⊎◌, inl, inr, Option, none, some, List, [],
  ◌∷◌, arith, Bytes, bytes_eq, subst, not, contains_bytes, Bool-cases, Option-cases, leb,
}
use tokyo3_base.Base.Dict
use tokyo3_base.Base.Dict.{
  Dict, size-put-le, size-put_of_get, size-keep-le, size-keep_lt, get-put, get-put_self, get-keep,
}
use tokyo3_base.ClientIp
use tokyo3_base.ClientIp.{AddrText, Request}
use tokyo3_base.RateLimit.{
  Bucket, Limiter, Config, TokenBucket, max_buckets, overflow_key, is_live, new, sweep_locked, warn,
  warn_at, warn_tracked, warn_due, admit, allow_tracked, allow, throttle, limit, middleware,
}

module _ {L : Type 0} where
  Tracks : Dict (Bucket L) → Type 0
  Tracks m = (b : Bucket L) × (Dict.get overflow_key m ≡ some b)

  -- At most `max_buckets` entries, or one more if the overflow bucket is among them.
  abbrev pub IsBounded : Dict (Bucket L) → Type 0
  IsBounded m =
      (Dict.size m ≤ max_buckets)
      ⊎ ((Dict.size m ≤ max_buckets + 1) × ((b : Bucket L) × (Dict.get overflow_key m ≡ some b)))

  put-IsBounded_tracked :
      (key : Bytes) (v w : Bucket L) (m : Dict (Bucket L))
      → Dict.get key m ≡ some w
      → IsBounded m
      → IsBounded (Dict.put key v m)
  put-IsBounded_tracked key v w m e (inl h) = inl (omega (arith, size-put_of_get key v w m e))
  put-IsBounded_tracked key v w m e (inr (h, (b, o))) =
      inr (omega (arith, size-put_of_get key v w m e), overflow (bytes_eq key overflow_key) refl)
    where
      overflow :
          (c : Bool)
          → bytes_eq key overflow_key ≡ c
          → (b : Bucket L) × (Dict.get overflow_key (Dict.put key v m) ≡ some b)
      overflow true p = (v, get-put overflow_key key v m ∙ rw p refl)
      overflow false p = (b, get-put overflow_key key v m ∙ rw p o)

  put-IsBounded_room :
      (key : Bytes) (v : Bucket L) (m : Dict (Bucket L))
      → Dict.size m < max_buckets
      → IsBounded (Dict.put key v m)
  put-IsBounded_room key v m h = inl (omega (arith, size-put-le key v m))

  put-IsBounded_overflow :
      (v : Bucket L) (m : Dict (Bucket L)) → IsBounded m → IsBounded (Dict.put overflow_key v m)
  put-IsBounded_overflow v m (inl h) =
      inr (omega (arith, size-put-le overflow_key v m), (v, get-put_self overflow_key v m))
  put-IsBounded_overflow v m (inr (h, (b, o))) =
      inr (omega (arith, size-put_of_get overflow_key v b m o), (v, get-put_self overflow_key v m))

  keep-IsBounded :
      (p : Bucket L → Bool) (m : Dict (Bucket L)) → IsBounded m → IsBounded (Dict.keep p m)
  keep-IsBounded p m (inl h) = inl (omega (arith, size-keep-le p m))
  keep-IsBounded p m (inr (h, (b, o))) = elim (Bool-cases (p b)) [
    | inl stays ↦
        inr (omega (arith, size-keep-le p m), (b, get-keep overflow_key p m ∙ rw o (rw stays refl)))
    | inr goes ↦ inl (omega (arith, size-keep_lt overflow_key b p m o goes))
  ]

  sweep-IsBounded :
      (now : ℕ) (l : Limiter L) → IsBounded l.buckets → IsBounded (sweep_locked now l).buckets
  unfolding sweep_locked
  sweep-IsBounded now l h = ground (arith, keep-IsBounded (is_live now) l.buckets h)

  warn_at-IsBounded :
      (key : Bytes) (now : ℕ) (l : Limiter L)
      → IsBounded l.buckets
      → IsBounded (warn_at key now l (Dict.get key l.buckets)).1.buckets
  unfolding warn_at
  warn_at-IsBounded key now l h = elim (Option-cases (Dict.get key l.buckets)) [
    | inl e ↦ rw (e, warn_at) h
    | inr (b, e) ↦ rw (e, warn_at) (put-IsBounded_tracked key (warn b now).1 b l.buckets e h)
  ]

  warn_due-IsBounded :
      (key : Bytes) (now : ℕ) (l : Limiter L)
      → IsBounded l.buckets
      → IsBounded (warn_due key now l).1.buckets
  unfolding warn_due
  warn_due-IsBounded key now l h = elim (Option-cases (Dict.get key l.buckets)) [
    | inl e ↦ rw (e, warn_tracked) (warn_at-IsBounded overflow_key now l h)
    | inr (b, e) ↦ rw (e, warn_tracked) (put-IsBounded_tracked key (warn b now).1 b l.buckets e h)
  ]

-- One request: its path, what the key is read from, and the time at which it arrives.
pub record Call : Type 0 where
  pub path : Bytes
  pub request : Request
  pub now : ℕ

abbrev IsWithin : {L : Type 0} → Option (Limiter L) → Type 0
IsWithin none = Unit
IsWithin (some l) = IsBounded l.buckets

module _ {L : Type 0} (tb : TokenBucket L) where
  admit-IsBounded :
      (key : Bytes) (now : ℕ) (l : Limiter L)
      → IsBounded l.buckets
      → IsBounded (admit tb key now l).1.buckets
  unfolding admit
  admit-IsBounded key now l h = elim (Bool-cases (leb max_buckets (Dict.size l.buckets))) [
    | inl full ↦ rw (full, admit) (put-IsBounded_overflow _ l.buckets h)
    | inr room ↦ rw (room, admit) (put-IsBounded_room key _ l.buckets (ground arith))
  ]

  allow-IsBounded :
      (key : Bytes) (now : ℕ) (l : Limiter L)
      → IsBounded l.buckets
      → IsBounded (allow tb key now l).1.buckets
  unfolding allow
  allow-IsBounded key now l h = elim (Option-cases (Dict.get key l.buckets)) [
    | inl e ↦
        rw (e, allow_tracked)
          (admit-IsBounded key now (sweep_locked now l) (sweep-IsBounded now l h))
    | inr (b, e) ↦ rw (e, allow_tracked) (put-IsBounded_tracked key _ b l.buckets e h)
  ]

  limit-IsBounded :
      (key : Bytes) (now : ℕ) (a : Bool × Limiter L)
      → IsBounded a.1.buckets
      → IsBounded (limit tb key now a).1.buckets
  unfolding limit throttle
  limit-IsBounded key now (true, l) h = h
  limit-IsBounded key now (false, l) h = warn_due-IsBounded key now l h

  module _ (t : AddrText) (exempt : List Bytes) where
    unfoldable pub serve_all : List Call → Option (Limiter L) → Option (Limiter L)
    serve_all [] l = l
    serve_all (c ∷ calls) l = serve_all calls (middleware tb t exempt c.path c.request c.now l).1

    middleware-IsWithin :
        (path : Bytes) (r : Request) (now : ℕ) (o : Option (Limiter L))
        → IsWithin o
        → IsWithin (middleware tb t exempt path r now o).1
    unfolding middleware
    middleware-IsWithin path r now none h = tt
    middleware-IsWithin path r now (some l) h = elim (Bool-cases (contains_bytes exempt path)) [
      | inl skip ↦ rw skip h
      | inr counted ↦
          rw counted (limit-IsBounded (key_of r l) now _ (allow-IsBounded (key_of r l) now l h))
    ]
      where
        key_of : Request → Limiter L → Bytes
        key_of r l = ClientIp.network t (ClientIp.from_request t l.client_ip r)

    serve_all-IsWithin :
        (calls : List Call) (o : Option (Limiter L)) → IsWithin o → IsWithin (serve_all calls o)
    unfolding serve_all
    serve_all-IsWithin [] o h = h
    serve_all-IsWithin (c ∷ calls) o h =
        serve_all-IsWithin calls (middleware tb t exempt c.path c.request c.now o).1
          (middleware-IsWithin c.path c.request c.now o h)

    new-IsWithin : (cfg : Config) → IsWithin (new {L = L} cfg)
    unfolding new
    new-IsWithin cfg = elim (Bool-cases (not cfg.rps.positive)) [
      | inl off ↦ rw off tt
      | inr on ↦ rw on (inl (omega arith))
    ]

    size_of_within : (l : Limiter L) → IsBounded l.buckets → Dict.size l.buckets ≤ 100_001
    size_of_within l (inl h) = omega arith
    size_of_within l (inr (h, _)) = h

    -- However many requests a new limiter serves, from whatever sources and at whatever times, it
    -- holds at most 100,001 buckets.
    pub buckets_bounded :
        (cfg : Config) (calls : List Call) (l : Limiter L)
        → serve_all calls (new cfg) ≡ some l
        → Dict.size l.buckets ≤ 100_001
    buckets_bounded cfg calls l served =
        size_of_within l
          (subst IsWithin served (serve_all-IsWithin calls (new cfg) (new-IsWithin cfg)))
