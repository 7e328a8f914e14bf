-- ===== src/Api/BearerToken.antt =====
-- api/bearer_token.go: `BearerTokenManager`. The mutex makes each part of `GetToken` one step, and the
-- three clock readings of its first part are taken as one. The refresher is a parameter: a refresh
-- ends with what it returned.
pub mod Refresh
use tokyo3_base.Base.{
  ℕ, ◌+◌, ◌-◌, ◌*◌, ◌/◌, ◌≡◌, Bool, true, false, not, ◌&&◌, ◌||◌, Option, none, some, List, [], ◌∷◌,
  Bytes, Result, ok, err, ltb, leb, ◌==◌, min, max, if◌then◌else◌,
}
use tokyo3_base.SealedCookie.{is_empty}

abbrev pub min_refresh_retry : ℕ
min_refresh_retry = 1_000_000_000

abbrev pub max_refresh_retry : ℕ
max_refresh_retry = 30 * 1_000_000_000

-- The signed offset to the expiry: that much before it, or after it.
pub data Buffer : Type 0 where
  early late : ℕ → Buffer

-- How a refresh fails: the refresher's own error, or an empty token.
pub data Failure : Type 0 where
  refresh_failed : ℕ → Failure
  empty_token : Failure

pub data Error : Type 0 where
  no_refresher : Error
  failed : Failure → Error
  backing_off : Option Failure → Error

-- A lifetime of 0 is unknown, or not positive.
pub record TokenManager : Type 0 where
  pub token : Bytes
  pub expires_at : ℕ
  pub has_refresher : Bool
  pub inflight : Bool
  pub next_attempt : ℕ
  pub lifetime : ℕ
  pub last_err : Option Failure

-- What a call of `GetToken` does at first: it answers, it waits for the refresh under way, or it
-- starts one.
pub data Decision : Type 0 where
  serves : Bytes → Decision
  refuses : Error → Decision
  joins leads : Decision

clamped : ℕ → ℕ → ℕ
clamped buffer lifetime = if ltb 0 lifetime then min buffer (lifetime / 2) else buffer

unfoldable pub is_fresh : Buffer → ℕ → TokenManager → Bool
unfolding clamped
is_fresh (early buffer) now tm = ltb (now + clamped buffer tm.lifetime) tm.expires_at
is_fresh (late buffer) now tm = ltb now (tm.expires_at + buffer)

-- Not expired, though a refresh may be due.
abbrev pub is_usable : ℕ → TokenManager → Bool
is_usable now tm = not (is_empty tm.token) && ltb now tm.expires_at

unfoldable pub get_token : Buffer → ℕ → TokenManager → Decision × TokenManager
unfolding is_fresh
get_token buffer now tm =
    if is_fresh buffer now tm
    then (serves tm.token, tm)
    else if tm.inflight
    then (if is_usable now tm then serves tm.token else joins, tm)
    else if not tm.has_refresher
    then (if is_usable now tm then serves tm.token else refuses no_refresher, tm)
    else if ltb now tm.next_attempt
    then (if is_usable now tm then serves tm.token else refuses (backing_off tm.last_err), tm)
    else (leads, record tm { inflight = true })

failed_at : ℕ → Failure → TokenManager → TokenManager
failed_at now e tm = record tm {
  inflight = false;
  last_err = some e;
  next_attempt = now + min (max ((tm.expires_at - now) / 2) min_refresh_retry) max_refresh_retry;
}

-- The outcome of a refresh, stored at `now`.
unfoldable pub run_refresh : Result ℕ (Bytes × ℕ) → ℕ → TokenManager → TokenManager
unfolding failed_at
run_refresh (err e) now tm = failed_at now (refresh_failed e) tm
run_refresh (ok (token, expires_at)) now tm =
    if is_empty token then failed_at now empty_token tm else record tm {
      token = token;
      expires_at = expires_at;
      inflight = false;
      next_attempt = 0;
      lifetime = expires_at - now;
      last_err = none;
    }

-- Where the refresh that a caller waited for has ended with `failure`: what the caller gets at `now`,
-- who found the token `stale` with its expiry when it came.
unfoldable pub after_wait : Option Failure → Bytes → ℕ → ℕ → TokenManager → Result Error Bytes
after_wait none stale stale_expiry now tm = ok tm.token
after_wait (some e) stale stale_expiry now tm =
    if not (is_empty stale) && ltb now stale_expiry then ok stale else err (failed e)
