-- ===== src/Tests/DeviceRuns.antt =====
-- The theorems of the device and the code flow of package auth/oidcclient at concrete inputs.
use tokyo3_base.Base.{
  ℕ, ◌+◌, ◌*◌, ◌≡◌, ◌≢◌, refl, false, Option, some, [], ◌∷◌, arith, Bytes, bytes_eq, text, ok, ◌==◌,
  if◌then◌else◌, Bool, err, ◌⊎◌, true,
}
use tokyo3_base.Base.Int.{pos}
use tokyo3_base.Base.Dict
use tokyo3_base.UrlQuery
use tokyo3_base.UrlQuery.{Values, UrlText}
use tokyo3_base.OidcClient.Duration.{second}
use tokyo3_base.OidcClient.Duration.{add}
use tokyo3_base.OidcClient.Endpoints.{
  Tokens, trim_slashes, convention_endpoints, parse_tokens, is_ok, require_secure_endpoint,
  post_form, post_token_at, discover_endpoints,
}
use tokyo3_base.OidcClient.Device.{
  Authorization, ErrorResponse, Round, slept, poll_once, poll, map_err, run_device_flow,
}
use tokyo3_base.OidcClient.Device.Ends.{IsGiven, IsAtMost, IsBounded, run_device_flow-IsGiven}
use tokyo3_base.OidcClient.Loopback.{
  request, Login, query_get, handle_redirect, serve, serve_handled, step, gives_up, wait,
  build_authorize_url_at, exchange_code_at, run_code_flow,
}
use tokyo3_base.OidcClient.Loopback.Flow.{Completed, run_code_flow-Completed}
use tokyo3_base.OidcClient.Cache.{
  CachedTokens, missing, stored, Disk, Call, mismatch, same_config, is_fresh, quiet,
  ensure_fresh_tokens,
}
use tokyo3_base.OidcClient.Login.{Attempt, no_save, run_flow, login}
use tokyo3_base.OidcClient.Login.Fresh.{FailedHalfway, ensure_fresh_tokens-login, login_failed}
use tokyo3_base.Tests.ClientRuns.{site, got, config, call_at}

-- A server that leaves both times to their defaults, and users who approve in the second round or never.
abbrev decode_authorization : Bytes → Option Authorization
decode_authorization body =
    some (record { device_code = body; expires_in = pos 0; interval = pos 0 })

abbrev pending : Bytes → ErrorResponse
pending body = record { error = text "authorization_pending"; description = [] }

abbrev never : ℕ → Round
never i = record { cancelled = false; overrun = 0; post = λ url form. some (400, []) }

abbrev second_round : ℕ → Round
second_round i = record {
  cancelled = false;
  overrun = 0;
  post = λ url form. some (if i == 1 then 200 else 400, []);
}

bounded : IsBounded site decode_authorization pending 900
unfolding IsAtMost
bounded body a h =
    let e : record { device_code = body; expires_in = pos 0; interval = pos 0 } ≡ a =
      ground (arith, h) in
    rw (← e) (omega arith, omega arith)

run_device_flow-IsGiven_example :
    IsGiven
      (run_device_flow site decode_authorization pending (900 + 2) never 0 (text "i") (text "c"))
run_device_flow-IsGiven_example =
    run_device_flow-IsGiven site decode_authorization pending 900 never 0 (text "i") (text "c")
      (omega arith) (omega arith) bounded

abbrev approved_tokens : Tokens
approved_tokens = record got { expiration = 3602 * second }

approved_run :
    poll site decode_authorization pending 3 second_round (text "t") [] (900 * second) 0 0 second
    ≡ some (ok approved_tokens)
unfolding poll poll_once post_form require_secure_endpoint slept parse_tokens map_err bytes_eq
approved_run = refl

abbrev stray : Values
stray = UrlQuery.set (text "state") (text "x") []

abbrev redirect : Values
redirect = UrlQuery.set (text "state") (text "s") (UrlQuery.set (text "code") (text "k") [])

stray_state : query_get (text "state") stray ≡ text "x"
unfolding query_get bytes_eq Dict.get Dict.put
stray_state = refl

is_stray : query_get (text "state") stray ≢ text "s"
is_stray h = ground (arith, h, stray_state)

same_state : query_get (text "state") redirect ≡ text "s"
unfolding query_get bytes_eq Dict.get Dict.put
same_state = refl

abbrev urls : UrlText
urls = record { parse = λ s. some (record { rest = s; query = [] }); print = λ p. p.rest }

abbrev the_login : Login
the_login = record {
  verifier = text "v";
  challenge = text "h";
  state = text "s";
  redirect_uri = text "u";
}

abbrev login_tokens : Tokens
login_tokens = record got { expiration = 3601 * second }

completed_run :
    run_code_flow site urls the_login
      (text "c")
      second
      (text "i")
      (request stray ∷ request redirect ∷ [])
    ≡ some (ok login_tokens)
unfolding run_code_flow discover_endpoints convention_endpoints trim_slashes is_ok
    require_secure_endpoint build_authorize_url_at UrlQuery.merge wait step serve serve_handled
    gives_up handle_redirect query_get bytes_eq exchange_code_at post_token_at post_form
    parse_tokens Dict.get Dict.put
completed_run = refl

run_code_flow-Completed_example :
    Completed site urls the_login
      (text "c")
      second
      (text "i")
      (request stray ∷ request redirect ∷ [])
      login_tokens
run_code_flow-Completed_example =
    run_code_flow-Completed site urls the_login (text "c") second (text "i")
      (request stray ∷ request redirect ∷ []) login_tokens completed_run

abbrev attempt : Bool → Attempt
attempt saves_config = record {
  device = false;
  web = site;
  urls = urls;
  drawn = the_login;
  events = request stray ∷ request redirect ∷ [];
  decode_authorization = decode_authorization;
  decode_error = pending;
  fuel = 0;
  rounds = never;
  now = second;
  locks = true;
  saves_tokens = true;
  saves_config = saves_config;
}

abbrev bound_tokens : CachedTokens
bound_tokens = record { tokens = login_tokens; config = some config }

abbrev empty_disk : Disk
empty_disk = record { config = missing; tokens = missing }

login_run :
    login (attempt true) config empty_disk
    ≡ some (ok login_tokens, record { config = stored config; tokens = stored bound_tokens })
unfolding login run_flow run_code_flow discover_endpoints convention_endpoints trim_slashes is_ok
    require_secure_endpoint build_authorize_url_at UrlQuery.merge wait step serve serve_handled
    gives_up handle_redirect query_get bytes_eq exchange_code_at post_token_at post_form
    parse_tokens Dict.get Dict.put
login_run = refl

failed_run :
    login (attempt false) config empty_disk
    ≡ some (err no_save, record { config = missing; tokens = stored bound_tokens })
unfolding login run_flow run_code_flow discover_endpoints convention_endpoints trim_slashes is_ok
    require_secure_endpoint build_authorize_url_at UrlQuery.merge wait step serve serve_handled
    gives_up handle_redirect query_get bytes_eq exchange_code_at post_token_at post_form
    parse_tokens Dict.get Dict.put
failed_run = refl

ensure_fresh_tokens-login_example :
    ensure_fresh_tokens
      (call_at 2)
      (record { config = stored config; tokens = stored bound_tokens })
      empty_disk
    ≡ quiet empty_disk (ok login_tokens)
unfolding is_fresh add
ensure_fresh_tokens-login_example =
    ensure_fresh_tokens-login (attempt true) config empty_disk
      (record { config = stored config; tokens = stored bound_tokens }) empty_disk login_tokens
      (call_at 2) login_run refl refl

abbrev other_call : Call
other_call = record (call_at 2) { config = record { issuer = text "j"; client_id = text "c" } }

abbrev half_written : Disk
half_written = record { config = missing; tokens = stored bound_tokens }

login_failed_example :
    (half_written ≡ empty_disk)
    ⊎ (FailedHalfway (attempt false) config empty_disk half_written no_save
        × (ensure_fresh_tokens other_call half_written empty_disk
            ≡ quiet empty_disk (err mismatch)))
unfolding same_config bytes_eq
login_failed_example =
    login_failed (attempt false) config empty_disk half_written empty_disk no_save other_call
      failed_run refl
