-- ===== src/Journal/Limits.antt =====
-- journal/sse/limits.go: the caps on concurrent event streams. The mutex makes `acquire` and each
-- release one step; a release function is a slot that remembers whether it has run.
pub mod Accounting
use tokyo3_base.Base.{
  ℕ, zero, suc, ◌+◌, ◌-◌, ◌*◌, ◌/◌, ◌≡◌, Bool, true, false, not, ◌&&◌, ◌||◌, Option, none, some,
  List, [], ◌∷◌, ◌++◌, Bytes, Result, ok, err, ltb, leb, max, if◌then◌else◌,
}
use tokyo3_base.Base.Int.{ℤ, pos_part, is_negative, is_nonpositive}
use tokyo3_base.Base.Dict
use tokyo3_base.Base.Dict.{Dict}

abbrev pub default_retry_after : ℕ
default_retry_after = 10_000_000_000

pub record LimitsConfig : Type 0 where
  pub max_streams : ℤ
  pub max_per_client : ℤ
  pub has_client_key : Bool
  pub retry_after : ℤ

pub data ConfigError : Type 0 where
  negative_limit no_client_key : ConfigError

-- Caps of 0 mean unlimited.
pub record Limits : Type 0 where
  pub max_streams : ℕ
  pub max_per_client : ℕ
  pub retry_after : ℕ
  pub total : ℕ
  pub per_client : Dict ℕ

unfoldable pub new_limits : LimitsConfig → Result ConfigError Limits
new_limits cfg =
    if is_negative cfg.max_streams || is_negative cfg.max_per_client
    then err negative_limit
    else if not (is_nonpositive cfg.max_per_client) && not cfg.has_client_key
    then err no_client_key
    else ok (record {
      max_streams = pos_part cfg.max_streams;
      max_per_client = pos_part cfg.max_per_client;
      retry_after =
          if is_nonpositive cfg.retry_after then default_retry_after else pos_part cfg.retry_after;
      total = 0;
      per_client = Dict.empty;
    })

pub data Scope : Type 0 where
  global client : Scope

-- A missing key reads as 0.
abbrev pub or_zero : Option ℕ → ℕ
or_zero none = 0
or_zero (some n) = n

abbrev pub streams_of : Bytes → Limits → ℕ
streams_of key l = or_zero (Dict.get key l.per_client)

-- `key` is what `ClientKey` returns.
unfoldable pub acquire : Bytes → Limits → Result Scope Limits
acquire key l =
    if ltb 0 l.max_streams && leb l.max_streams l.total
    then err global
    else if ltb 0 l.max_per_client && leb l.max_per_client (streams_of key l)
    then err client
    else ok (record l {
      total = l.total + 1;
      per_client =
          if ltb 0 l.max_per_client
          then Dict.put key (streams_of key l + 1) l.per_client
          else l.per_client;
    })

-- The body of a release: an entry that falls to 0 is deleted.
unfoldable pub give_back : Bytes → Limits → Limits
give_back key l = record l {
  total = l.total - 1;
  per_client =
      if ltb 0 l.max_per_client
      then (if leb (streams_of key l) 1
          then Dict.remove key l.per_client
          else Dict.put key (streams_of key l - 1) l.per_client)
      else l.per_client;
}

-- A stream that was let in, and whether its release function has yet to run.
pub record Slot : Type 0 where
  pub key : Bytes
  pub live : Bool

pub record System : Type 0 where
  pub limits : Limits
  pub slots : List Slot

-- `Retry-After` of `reject`: the seconds, rounded half up, and at least 1.
unfoldable pub retry_seconds : Limits → ℕ
retry_seconds l = max ((l.retry_after + 500_000_000) / 1_000_000_000) 1

enter : System → Bytes → Result Scope Limits → System
enter s key (err scope) = s
enter s key (ok l) = record { limits = l; slots = record { key = key; live = true } ∷ s.slots }

-- Run the release function of the i-th stream; `once.Do` makes a second run do nothing.
release_at : ℕ → List Slot → Limits → List Slot × Limits
release_at i [] l = ([], l)
release_at zero (s ∷ slots) l =
    if s.live then (record s { live = false } ∷ slots, give_back s.key l) else (s ∷ slots, l)
release_at (suc i) (s ∷ slots) l = let (rest, l') = release_at i slots l in (s ∷ rest, l')

pub data Request : Type 0 where
  open_stream : (key : Bytes) → Request
  release : (index : ℕ) → Request

unfoldable pub step : System → Request → System
unfolding enter acquire release_at give_back
step s (open_stream key) = enter s key (acquire key s.limits)
step s (release i) =
    let (slots, l) = release_at i s.slots s.limits in record { limits = l; slots = slots }

unfoldable pub run : System → List Request → System
unfolding step
run s [] = s
run s (r ∷ rs) = run (step s r) rs
