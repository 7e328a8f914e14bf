-- ===== src/OidcClient/Device.antt =====
-- auth/oidcclient/deviceflow.go: the device authorization grant and its polling loop.
pub mod Ends
pub mod Approval
use tokyo3_base.Base.{
  ℕ, zero, suc, ◌+◌, ◌*◌, ◌%◌, Bool, true, false, not, Option, none, some, Bytes, bytes_eq, text,
  Result, ok, err, and_then, or_err, [], ltb, ◌==◌, if◌then◌else◌,
}
use tokyo3_base.Base.Int.{ℤ, pos, negsuc}
use tokyo3_base.Std.Split.{trim_space}
use tokyo3_base.UrlQuery
use tokyo3_base.UrlQuery.{Values}
use tokyo3_base.OidcClient.Duration.{word, second, seconds, is_negative, add}
use tokyo3_base.OidcClient.Endpoints.{
  Web, Endpoints, Tokens, Error, bad_response, error_body_text, parse_tokens, post_form,
  discover_endpoints,
}

-- The answer to the device authorization request, less what is only printed.
pub record Authorization : Type 0 where
  pub device_code : Bytes
  pub expires_in : ℤ
  pub interval : ℤ

pub record ErrorResponse : Type 0 where
  pub error : Bytes
  pub description : Bytes

-- What is outside in one round: whether the context ends before the sleep does, by how much the sleep and the
-- poll overrun the interval, and how the servers answer then.
pub record Round : Type 0 where
  pub cancelled : Bool
  pub overrun : ℕ
  pub post : Bytes → Values → Option (ℕ × Bytes)

pub data DeviceError : Type 0 where
  authorization token_poll bad_tokens : Error → DeviceError
  authorization_status : ℕ → Bytes → DeviceError
  bad_authorization expired denied cancelled : DeviceError
  refused : Bytes → Bytes → DeviceError

unfoldable pub or_default : ℕ → ℤ → ℤ
or_default d (pos zero) = pos d
or_default d (pos (suc n)) = pos (suc n)
or_default d (negsuc n) = pos d

-- A timer on a negative duration fires at once.
unfoldable pub slept : ℕ → ℕ
slept interval = if is_negative interval then zero else interval

-- What the loop does next: give a result, or poll again after an interval.
pub data Next : Type 0 where
  give : Result DeviceError Tokens → Next
  again : ℕ → Next

unfoldable pub map_err : Result Error Tokens → Result DeviceError Tokens
map_err (ok t) = ok t
map_err (err e) = err (bad_tokens e)

unfoldable pub slower : ℕ → ℕ
slower interval = (interval + 5 * second) % word

module _ (w : Web) (decode_authorization : Bytes → Option Authorization)
    (decode_error : Bytes → ErrorResponse) where
  on_error : ℕ → ErrorResponse → Next
  on_error interval e =
      if bytes_eq e.error (text "authorization_pending")
      then again interval
      else if bytes_eq e.error (text "slow_down")
      then again (slower interval)
      else if bytes_eq e.error (text "access_denied")
      then give (err denied)
      else if bytes_eq e.error (text "expired_token")
      then give (err expired)
      else give (err (refused e.error (trim_space e.description)))

  on_reply : ℕ → ℕ → Result Error (ℕ × Bytes) → Next
  unfolding on_error
  on_reply now interval (err e) = give (err (token_poll e))
  on_reply now interval (ok (code, body)) =
      if code == 200
      then give (map_err (and_then (or_err (w.decode_tokens body) bad_response) (parse_tokens now)))
      else on_error interval (decode_error body)

  -- One poll; the network as it is in that round.
  unfoldable pub poll_once : Round → Bytes → Values → ℕ → ℕ → Next
  unfolding on_reply
  poll_once r token_url form now interval =
      on_reply now interval (post_form (record w { post = r.post }) token_url form)

  -- `fuel` rounds of the loop, from round `i` on; none if it has not ended by then.
  unfoldable pub poll :
      ℕ → (ℕ → Round) → Bytes → Values → ℕ → ℕ → ℕ → ℕ → Option (Result DeviceError Tokens)
  poll zero rounds token_url form deadline i now interval = none
  poll (suc fuel) rounds token_url form deadline i now interval =
      let later = now + slept interval + (rounds i).overrun in
      if ltb deadline now
      then some (err expired)
      else if (rounds i).cancelled
      then some (err cancelled)
      else elim (poll_once (rounds i) token_url form later interval) [
        | give r ↦ some r
        | again next ↦ poll fuel rounds token_url form deadline (i + 1) later next
      ]

  poll_form : Bytes → Bytes → Values
  poll_form client_id device_code = UrlQuery.set (text "client_id") client_id (
      UrlQuery.set (text "device_code") device_code
        (UrlQuery.set (text "grant_type") (text "urn:ietf:params:oauth:grant-type:device_code") []))

  authorized : Result Error (ℕ × Bytes) → Result DeviceError Authorization
  authorized (err e) = err (authorization e)
  authorized (ok (code, body)) =
      if not (code == 200)
      then err (authorization_status code (error_body_text body))
      else or_err (decode_authorization body) bad_authorization

  wait_for :
      ℕ → (ℕ → Round) → Bytes → Bytes → ℕ → Authorization → Option (Result DeviceError Tokens)
  unfolding poll_form
  wait_for fuel rounds token_url client_id now a =
      poll fuel rounds token_url (poll_form client_id a.device_code)
        (add now (seconds (or_default 900 a.expires_in))) 0 now (seconds (or_default 5 a.interval))

  request_authorization : Bytes → Bytes → Result DeviceError Authorization
  unfolding authorized
  request_authorization url client_id = authorized (
      post_form w url (
        UrlQuery.set (text "scope") (text "openid email profile offline_access")
          (UrlQuery.set (text "client_id") client_id [])))

  from_authorization :
      ℕ
      → (ℕ → Round)
      → Bytes
      → Bytes
      → ℕ
      → Result DeviceError Authorization
      → Option (Result DeviceError Tokens)
  unfolding wait_for
  from_authorization fuel rounds token_url client_id now (err e) = some (err e)
  from_authorization fuel rounds token_url client_id now (ok a) =
      wait_for fuel rounds token_url client_id now a

  -- `RunDeviceFlow`, with the clock at the answer to the first request.
  unfoldable pub run_device_flow :
      ℕ → (ℕ → Round) → ℕ → Bytes → Bytes → Option (Result DeviceError Tokens)
  unfolding request_authorization from_authorization
  run_device_flow fuel rounds now issuer client_id =
      let ep = discover_endpoints w issuer in
      from_authorization fuel rounds ep.token client_id now
        (request_authorization ep.device_authorization client_id)
