-- ===== src/OidcClient/Login.antt =====
-- auth/oidcclient/login.go: a login by either flow, and what it writes to the cache.
pub mod Fresh
use tokyo3_base.Base.{
  ℕ, Bool, true, false, not, ◌||◌, Option, none, some, List, Bytes, Result, ok, err, if◌then◌else◌,
}
use tokyo3_base.SealedCookie.{is_empty}
use tokyo3_base.UrlQuery.{UrlText}
use tokyo3_base.OidcClient.Endpoints.{Web, Tokens}
use tokyo3_base.OidcClient.Cache.{Config, CachedTokens, Stored, stored, Disk}
use tokyo3_base.OidcClient.Device.{
  Authorization, ErrorResponse, Round, DeviceError, run_device_flow,
}
use tokyo3_base.OidcClient.Loopback
use tokyo3_base.OidcClient.Loopback.{LoginError, Event, run_code_flow}

-- A call of `Login`: the flow that its options choose, what is outside of it, and whether the lock is got and
-- each file can be written.
pub record Attempt : Type 0 where
  pub device : Bool
  pub web : Web
  pub urls : UrlText
  pub drawn : Loopback.Login
  pub events : List Event
  pub decode_authorization : Bytes → Option Authorization
  pub decode_error : Bytes → ErrorResponse
  pub fuel : ℕ
  pub rounds : ℕ → Round
  pub now : ℕ
  pub locks : Bool
  pub saves_tokens : Bool
  pub saves_config : Bool

pub data Failure : Type 0 where
  no_config no_lock no_save : Failure
  device_failed : DeviceError → Failure
  code_failed : LoginError → Failure

of_device : Option (Result DeviceError Tokens) → Option (Result Failure Tokens)
of_device none = none
of_device (some (ok t)) = some (ok t)
of_device (some (err e)) = some (err (device_failed e))

of_code : Option (Result LoginError Tokens) → Option (Result Failure Tokens)
of_code none = none
of_code (some (ok t)) = some (ok t)
of_code (some (err e)) = some (err (code_failed e))

-- The flow; none while it still waits.
unfoldable pub run_flow : Attempt → Config → Option (Result Failure Tokens)
unfolding of_device of_code
run_flow a cfg =
    if a.device
    then of_device (
        run_device_flow a.web a.decode_authorization a.decode_error a.fuel a.rounds a.now cfg.issuer
          cfg.client_id)
    else of_code (run_code_flow a.web a.urls a.drawn cfg.client_id a.now cfg.issuer a.events)

-- The tokens are written before config.json.
write_cache : Attempt → Config → Disk → Tokens → Result Failure Tokens × Disk
write_cache a cfg d t =
    let bound : Stored CachedTokens = stored (record { tokens = t; config = some cfg }) in
    if not a.locks
    then (err no_lock, d)
    else if not a.saves_tokens
    then (err no_save, d)
    else if not a.saves_config
    then (err no_save, record d { tokens = bound })
    else (ok t, record { config = stored cfg; tokens = bound })

concluded :
    Attempt → Config → Disk → Option (Result Failure Tokens) → Option (Result Failure Tokens × Disk)
unfolding write_cache
concluded a cfg d none = none
concluded a cfg d (some (err e)) = some (err e, d)
concluded a cfg d (some (ok t)) = some (write_cache a cfg d t)

-- `Login`, with the cache before and after; none while the flow still waits.
unfoldable pub login : Attempt → Config → Disk → Option (Result Failure Tokens × Disk)
unfolding concluded
login a cfg d =
    if is_empty cfg.issuer || is_empty cfg.client_id
    then some (err no_config, d)
    else concluded a cfg d (run_flow a cfg)
