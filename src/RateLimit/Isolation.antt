-- ===== src/RateLimit/Isolation.antt =====
-- What one source can do to the others in ratelimit/ratelimit.go.
use tokyo3_base.Base.{
  ℕ, ◌+◌, ◌≤◌, ◌≡◌, ◌≢◌, refl, ◌∙◌, sym, Bool, true, false, inl, inr, none, some, List, arith,
  Bytes, bytes_eq_ne, contains_bytes, Bool-cases, Option-cases, leb, le→leb,
}
use tokyo3_base.Base.Dict
use tokyo3_base.Base.Dict.{Dict, get-put, get-keep}
use tokyo3_base.ClientIp
use tokyo3_base.ClientIp.{AddrText, Request}
use tokyo3_base.RateLimit.{
  Bucket, Limiter, TokenBucket, max_buckets, overflow_key, idle_ttl, is_live, sweep_locked, warn,
  warn_at, warn_tracked, warn_due, admit, allow_tracked, allow, throttle, limit, middleware,
}

module _ {L : Type 0} (j : Bytes) (b : Bucket L) where
  -- The limiter holds the bucket `b` for `j`.
  abbrev Holds : Limiter L → Type 0
  Holds l = Dict.get j l.buckets ≡ some b

  Holds-put :
      (key : Bytes) (v : Bucket L) (l : Limiter L)
      → j ≢ key
      → Holds l
      → Holds (record l { buckets = Dict.put key v l.buckets })
  Holds-put key v l ne h = get-put j key v l.buckets ∙ rw (bytes_eq_ne key j (λ e. ne (sym e))) h

  Holds-sweep :
      (now : ℕ) (l : Limiter L) → now ≤ b.seen + idle_ttl → Holds l → Holds (sweep_locked now l)
  unfolding sweep_locked
  Holds-sweep now l live h =
      ground (arith, get-keep j (is_live now) l.buckets, le→leb now (b.seen + idle_ttl))

  module _ (other : j ≢ overflow_key) where
    Holds-warn_at :
        (key : Bytes) (now : ℕ) (l : Limiter L)
        → j ≢ key
        → Holds l
        → Holds (warn_at key now l (Dict.get key l.buckets)).1
    unfolding warn_at
    Holds-warn_at key now l ne h = elim (Option-cases (Dict.get key l.buckets)) [
      | inl e ↦ rw (e, warn_at) h
      | inr (c, e) ↦ rw (e, warn_at) (Holds-put key (warn c now).1 l ne h)
    ]

    Holds-warn_due :
        (key : Bytes) (now : ℕ) (l : Limiter L) → j ≢ key → Holds l → Holds (warn_due key now l).1
    unfolding warn_due
    Holds-warn_due key now l ne h = elim (Option-cases (Dict.get key l.buckets)) [
      | inl e ↦ rw (e, warn_tracked) (Holds-warn_at overflow_key now l other h)
      | inr (c, e) ↦ rw (e, warn_tracked) (Holds-put key (warn c now).1 l ne h)
    ]

    module _ (tb : TokenBucket L) where
      Holds-admit :
          (key : Bytes) (now : ℕ) (l : Limiter L) → j ≢ key → Holds l → Holds (admit tb key now l).1
      unfolding admit
      Holds-admit key now l ne h = elim (Bool-cases (leb max_buckets (Dict.size l.buckets))) [
        | inl full ↦ rw (full, admit) (Holds-put overflow_key _ l other h)
        | inr room ↦ rw (room, admit) (Holds-put key _ l ne h)
      ]

      Holds-allow :
          (key : Bytes) (now : ℕ) (l : Limiter L)
          → j ≢ key
          → now ≤ b.seen + idle_ttl
          → Holds l
          → Holds (allow tb key now l).1
      unfolding allow
      Holds-allow key now l ne live h = elim (Option-cases (Dict.get key l.buckets)) [
        | inl e ↦
            rw (e, allow_tracked)
              (Holds-admit key now (sweep_locked now l) ne (Holds-sweep now l live h))
        | inr (c, e) ↦ rw (e, allow_tracked) (Holds-put key _ l ne h)
      ]

      Holds-limit :
          (key : Bytes) (now : ℕ) (a : Bool × Limiter L)
          → j ≢ key
          → Holds a.1
          → Holds (limit tb key now a).1
      unfolding limit throttle
      Holds-limit key now (true, l) ne h = h
      Holds-limit key now (false, l) ne h = Holds-warn_due key now l ne h

      -- A request, admitted or throttled, leaves the bucket of every other source as it was: its
      -- tokens, its times and its counts, as long as that source has been seen within the idle
      -- time. The shared overflow bucket is the one exception.
      pub middleware_isolated :
          (t : AddrText) (exempt : List Bytes) (path : Bytes) (r : Request) (now : ℕ)
          (l : Limiter L)
          → j ≢ ClientIp.network t (ClientIp.from_request t l.client_ip r)
          → now ≤ b.seen + idle_ttl
          → Dict.get j l.buckets ≡ some b
          → (l' : Limiter L) × ((middleware tb t exempt path r now (some l)).1 ≡ some l')
            × (Dict.get j l'.buckets ≡ some b)
      unfolding middleware
      middleware_isolated t exempt path r now l ne live h =
          elim (Bool-cases (contains_bytes exempt path)) [
            | inl skip ↦ rw skip (l, refl, h)
            | inr counted ↦
                let key = ClientIp.network t (ClientIp.from_request t l.client_ip r) in
                let a = allow tb key now l in
                rw counted (
                  (limit tb key now a).1,
                  refl,
                  Holds-limit key now a ne (Holds-allow key now l ne live h),
                )
          ]

module _ {L : Type 0} (tb : TokenBucket L) where
  -- When the map is full, all sources that are not tracked are one: whichever of them comes, the
  -- decision and the state afterwards are the same.
  pub allow_full :
      (key key' : Bytes) (now : ℕ) (l : Limiter L)
      → Dict.get key l.buckets ≡ none
      → Dict.get key' l.buckets ≡ none
      → max_buckets ≤ Dict.size (sweep_locked now l).buckets
      → allow tb key now l ≡ allow tb key' now l
  unfolding allow admit
  allow_full key key' now l e e' full =
      rw (e, e', allow_tracked, le→leb max_buckets (Dict.size (sweep_locked now l).buckets) full)
        refl
