-- ===== src/RateLimit.antt =====
-- ratelimit/ratelimit.go: the per-source token-bucket limiter. A token bucket of package
-- golang.org/x/time/rate is a parameter, and the clock reading is an argument. The float64 rate
-- enters as what the code reads of it: its sign and the rounded-up reciprocal. Times are
-- nanoseconds since year 1, and 0 is the zero Time.
pub mod Bounds
pub mod Isolation
pub mod Warnings
use tokyo3_base.Base.{
  ℕ, ◌+◌, ◌*◌, ◌≡◌, Bool, true, false, not, ◌&&◌, Option, none, some, List, Bytes, text,
  contains_bytes, ltb, leb, ◌==◌, max, if◌then◌else◌,
}
use tokyo3_base.Base.Int.{ℤ, pos_part, is_nonpositive}
use tokyo3_base.Base.Dict
use tokyo3_base.Base.Dict.{Dict}
use tokyo3_base.ClientIp
use tokyo3_base.ClientIp.{AddrText, Extractor, Network, Request}

abbrev pub second : ℕ
second = 1_000_000_000

abbrev pub idle_ttl : ℕ
idle_ttl = 15 * 60 * second

abbrev pub sweep_interval : ℕ
sweep_interval = 5 * 60 * second

abbrev pub max_buckets : ℕ
max_buckets = 100_000

abbrev pub overflow_key : Bytes
overflow_key = text "overflow"

abbrev pub warn_interval : ℕ
warn_interval = 60 * second

pub record Rate : Type 0 where
  pub positive : Bool
  pub ceil_reciprocal : ℕ

pub record Config : Type 0 where
  pub rps : Rate
  pub burst : ℤ
  pub trusted_proxies : List Network

-- One source's token bucket with the time at which it was last seen.
pub record Bucket (L : Type 0) : Type 0 where
  pub lim : L
  pub seen : ℕ
  pub last_warn : ℕ
  pub suppressed : ℕ

pub record Limiter (L : Type 0) : Type 0 where
  pub rps : Rate
  pub burst : ℕ
  pub client_ip : Extractor
  pub buckets : Dict (Bucket L)
  pub last_sweep : ℕ

-- `rate.NewLimiter` and `Limiter.AllowN(now, 1)`.
pub record TokenBucket (L : Type 0) : Type 0 where
  pub new_limiter : Rate → ℕ → L
  pub allow_one : ℕ → L → Bool × L

-- What `Middleware` does with a request; `log` is the number of suppressed lines, if one is due.
pub data Outcome : Type 0 where
  next : Outcome
  throttled : (retry_after : ℕ) → (log : Option ℕ) → Outcome

module _ {L : Type 0} where
  -- `none` is the nil Limiter, which limits nothing.
  unfoldable pub new : Config → Option (Limiter L)
  new cfg =
      if not cfg.rps.positive
      then none
      else some (record {
        rps = cfg.rps;
        burst = if is_nonpositive cfg.burst then 1 else pos_part cfg.burst;
        client_ip = record { trusted = cfg.trusted_proxies };
        buckets = Dict.empty;
        last_sweep = 0;
      })

  -- `now.Sub(b.seen) > idleTTL`, negated.
  abbrev pub is_live : ℕ → Bucket L → Bool
  is_live now b = leb now (b.seen + idle_ttl)

  unfoldable pub sweep_locked : ℕ → Limiter L → Limiter L
  sweep_locked now l =
      if not (l.last_sweep == 0) && ltb now (l.last_sweep + sweep_interval)
      then l
      else record l { last_sweep = now; buckets = Dict.keep (is_live now) l.buckets }

  unfoldable pub retry_after : Limiter L → ℕ
  retry_after l = max l.rps.ceil_reciprocal 1

  -- One throttled request seen by its bucket: whether a line is due, how many were suppressed
  -- before it, and the bucket after.
  unfoldable pub warn : Bucket L → ℕ → Option ℕ × Bucket L
  warn b now =
      if not (b.last_warn == 0) && ltb now (b.last_warn + warn_interval)
      then (none, record b { suppressed = b.suppressed + 1 })
      else (some b.suppressed, record b { last_warn = now; suppressed = 0 })

  warn_at : Bytes → ℕ → Limiter L → Option (Bucket L) → Option ℕ × Limiter L
  unfolding warn
  warn_at key now l none = (some 0, l)
  warn_at key now l (some b) =
      let (due, b') = warn b now in (due, record l { buckets = Dict.put key b' l.buckets })

  warn_tracked : Bytes → ℕ → Limiter L → Option (Bucket L) → Option ℕ × Limiter L
  unfolding warn_at
  warn_tracked key now l (some b) = warn_at key now l (some b)
  warn_tracked key now l none = warn_at overflow_key now l (Dict.get overflow_key l.buckets)

  unfoldable pub warn_due : Bytes → ℕ → Limiter L → Option ℕ × Limiter L
  unfolding warn_tracked
  warn_due key now l = warn_tracked key now l (Dict.get key l.buckets)

module _ {L : Type 0} (tb : TokenBucket L) where
  fresh : Limiter L → Bucket L
  fresh l = record { lim = tb.new_limiter l.rps l.burst; seen = 0; last_warn = 0; suppressed = 0 }

  -- The bucket is seen now, and gives one token if it has one.
  spend : Bytes → ℕ → Limiter L → Bucket L → Bool × Limiter L
  spend key now l b =
      let (allowed, lim) = tb.allow_one now b.lim in
      (allowed, record l { buckets = Dict.put key (record b { seen = now; lim = lim }) l.buckets })

  or_fresh : Limiter L → Option (Bucket L) → Bucket L
  unfolding fresh
  or_fresh l none = fresh l
  or_fresh l (some b) = b

  -- A key that is not tracked gets a bucket of its own while there is room.
  admit : Bytes → ℕ → Limiter L → Bool × Limiter L
  unfolding spend or_fresh
  admit key now l =
      if leb max_buckets (Dict.size l.buckets)
      then spend overflow_key now l (or_fresh l (Dict.get overflow_key l.buckets))
      else spend key now l (fresh l)

  allow_tracked : Bytes → ℕ → Limiter L → Option (Bucket L) → Bool × Limiter L
  unfolding admit
  allow_tracked key now l (some b) = spend key now l b
  allow_tracked key now l none = admit key now (sweep_locked now l)

  unfoldable pub allow : Bytes → ℕ → Limiter L → Bool × Limiter L
  unfolding allow_tracked
  allow key now l = allow_tracked key now l (Dict.get key l.buckets)

  throttle : Bytes → ℕ → Limiter L → Outcome × Limiter L
  throttle key now l = let (log, l') = warn_due key now l in (throttled (retry_after l') log, l')

  limit : Bytes → ℕ → Bool × Limiter L → Outcome × Limiter L
  unfolding throttle
  limit key now (true, l) = (next, l)
  limit key now (false, l) = throttle key now l

  module _ (t : AddrText) where
    unfoldable pub middleware :
        List Bytes → Bytes → Request → ℕ → Option (Limiter L) → Outcome × Option (Limiter L)
    unfolding limit
    middleware exempt path r now none = (next, none)
    middleware exempt path r now (some l) =
        let key = ClientIp.network t (ClientIp.from_request t l.client_ip r) in
        let (out, l') = limit key now (allow key now l) in
        if contains_bytes exempt path then (next, some l) else (out, some l')
