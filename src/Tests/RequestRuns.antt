-- ===== src/Tests/RequestRuns.antt =====
-- The theorems of packages clientip and ratelimit at concrete inputs.
use tokyo3_base.Base.{
  inl, ℕ, ◌≤◌, ◌≡◌, ◌≢◌, refl, true, false, some, [], ◌∷◌, ◌++◌, arith, Bytes, bytes_eq, text, ltb,
  if◌then◌else◌, contains_bytes, ◌-◌,
}
use tokyo3_base.Base.Int.{pos}
use tokyo3_base.Base.Dict
use tokyo3_base.Std.Split.{split_on, join_with, trim_space}
use tokyo3_base.ClientIp
use tokyo3_base.ClientIp.{Extractor, net4, v4, v6, from_request, canonical, network, is_trusted}
use tokyo3_base.ClientIp.Forwarded.{from_request_forwarded}
use tokyo3_base.RateLimit
use tokyo3_base.RateLimit.{Bucket, Limiter, TokenBucket, middleware}
use tokyo3_base.RateLimit.Bounds.{Call, serve_all, buckets_bounded}
use tokyo3_base.RateLimit.Isolation.{middleware_isolated}
use tokyo3_base.Tests.Instances.{plain_text, read_addr, print_addr}

-- Hosts 100 to 103 are the proxies.
abbrev proxies : Extractor
proxies = record { trusted = net4 100 30 ∷ [] }

abbrev host : ℕ → Bytes
host a = 4 ∷ a ∷ []

-- A client at 200 wrote nothing into the header; the proxies appended it and one another.
abbrev forwarded : ClientIp.Request
forwarded = record { remote_addr = host 101; forwarded_for = (host 200 ++ b',' ∷ host 102) ∷ [] }

from_request_forwarded_example :
    from_request plain_text proxies forwarded ≡ canonical plain_text (trim_space (host 200))
unfolding is_trusted plain_text read_addr print_addr trim_space join_with split_on canonical
    ClientIp.host_only ClientIp.contains
from_request_forwarded_example =
    from_request_forwarded plain_text proxies forwarded (host 200 ++ b',' ∷ host 102) (host 200)
      (host 102 ∷ []) (v4 200) refl (inl (refl, λ h. absurd (ground (arith, h)))) refl (refl, tt)
      refl refl

abbrev direct : ClientIp.Request
direct = record forwarded { remote_addr = host 200 }

-- A bucket of tokens that are never filled up.
abbrev tokens : TokenBucket ℕ
tokens = record {
  new_limiter = λ rate burst. burst;
  allow_one = λ now n. if ltb 0 n then (true, n - 1) else (false, 0);
}

abbrev config : RateLimit.Config
config = record {
  rps = record { positive = true; ceil_reciprocal = 1 };
  burst = pos 2;
  trusted_proxies = net4 100 30 ∷ [];
}

abbrev call : ℕ → ℕ → Call
call a now = record {
  path = text "/api";
  request = record { remote_addr = host a; forwarded_for = [] };
  now = now;
}

abbrev limiter : Limiter ℕ
limiter = record {
  rps = config.rps;
  burst = 2;
  client_ip = proxies;
  buckets =
      (host 200, record { lim = 0; seen = 12; last_warn = 0; suppressed = 0 })
      ∷ (host 201, record { lim = 1; seen = 11; last_warn = 0; suppressed = 0 })
      ∷ [];
  last_sweep = 10;
}

buckets_bounded_example : Dict.size limiter.buckets ≤ 100_001
unfolding serve_all RateLimit.new middleware RateLimit.allow plain_text network from_request
    canonical ClientIp.host_only is_trusted ClientIp.contains read_addr print_addr contains_bytes
    bytes_eq Dict.get Dict.put Dict.keep RateLimit.sweep_locked
buckets_bounded_example =
    buckets_bounded tokens plain_text [] config (call 200 10 ∷ call 201 11 ∷ call 200 12 ∷ [])
      limiter refl

not_200 : host 201 ≢ host 200
not_200 h = ground (arith, h)

not_overflow : host 201 ≢ RateLimit.overflow_key
not_overflow h = ground (arith, h)

middleware_isolated_example :
    (l' : Limiter ℕ) × ((middleware tokens plain_text []
        (text "/api")
        (call 200 13).request
        13
        (some limiter)).1
      ≡ some l')
    × (Dict.get (host 201) l'.buckets
        ≡ some (record { lim = 1; seen = 11; last_warn = 0; suppressed = 0 }))
unfolding RateLimit.new middleware RateLimit.allow plain_text network from_request canonical
    ClientIp.host_only is_trusted ClientIp.contains read_addr print_addr bytes_eq Dict.get
middleware_isolated_example =
    middleware_isolated (host 201) (record { lim = 1; seen = 11; last_warn = 0; suppressed = 0 })
      not_overflow tokens plain_text [] (text "/api") (call 200 13).request 13 limiter not_200
      (omega arith) refl
