-- ===== src/OidcClient/Device/Ends.antt =====
-- The end of the polling loop of auth/oidcclient/deviceflow.go.
use tokyo3_base.Base.{
  ℕ, zero, suc, ◌+◌, ◌*◌, ◌<◌, ◌≤◌, ◌≡◌, refl, Option, some, Bytes, text, [], Result, ok, err,
  arith, Bool-cases, inl, inr, ◌⊎◌, ltb, ◌==◌,
}
use tokyo3_base.Base.Int.{ℤ, pos, negsuc}
use tokyo3_base.UrlQuery
use tokyo3_base.UrlQuery.{Values}
use tokyo3_base.OidcClient.Duration.{half_word, second, to_word, seconds, add}
use tokyo3_base.OidcClient.Endpoints.{Web, Tokens, Error, post_form, discover_endpoints}
use tokyo3_base.OidcClient.Device.{
  Authorization, ErrorResponse, Round, DeviceError, or_default, expired, cancelled, slept, Next,
  give, again, slower, on_error, on_reply, poll_once, poll, authorized, request_authorization,
  wait_for, from_authorization, run_device_flow,
}

-- The loop's answer is there.
abbrev pub IsGiven : Option (Result DeviceError Tokens) → Type 0
IsGiven o = (r : Result DeviceError Tokens) × (o ≡ some r)

pub Next-cases :
    (n : Next) → ((r : Result DeviceError Tokens) × (n ≡ give r)) ⊎ ((d : ℕ) × (n ≡ again d))
Next-cases (give r) = inl (r, refl)
Next-cases (again d) = inr (d, refl)

slept_same : (d : ℕ) → d < half_word → slept d ≡ d
unfolding slept
slept_same d h = ground (arith, h)

module _ (w : Web) (decode_authorization : Bytes → Option Authorization)
    (decode_error : Bytes → ErrorResponse) where
  on_error_next :
      (interval d : ℕ) (e : ErrorResponse)
      → on_error w decode_authorization decode_error interval e ≡ again d
      → (d ≡ interval) ⊎ (d ≡ slower interval)
  unfolding on_error
  on_error_next interval d e h = ground (arith, h)

  on_reply_next :
      (now interval d : ℕ) (r : Result Error (ℕ × Bytes))
      → on_reply w decode_authorization decode_error now interval r ≡ again d
      → (d ≡ interval) ⊎ (d ≡ slower interval)
  unfolding on_reply
  on_reply_next now interval d (err e) h = absurd (ground (arith, h))
  on_reply_next now interval d (ok (code, body)) h = elim (Bool-cases (code == 200)) [
    | inl good ↦ absurd (ground (arith, h, good))
    | inr bad ↦ on_error_next interval d (decode_error body) (ground (arith, h, bad))
  ]

  next_interval :
      (r : Round) (url : Bytes) (form : Values) (now interval d : ℕ)
      → poll_once w decode_authorization decode_error r url form now interval ≡ again d
      → interval + 5 * second < half_word
      → (interval ≤ d) × (d ≤ interval + 5 * second)
  unfolding poll_once slower
  next_interval r url form now interval d h small =
      elim (on_reply_next now interval d (post_form (record w { post = r.post }) url form) h) [
        | inl same ↦ (omega (arith, same), omega (arith, same))
        | inr more ↦ (ground (arith, more, small), ground (arith, more, small))
      ]

  poll_step :
      (fuel : ℕ) (rounds : ℕ → Round) (url : Bytes) (form : Values) (deadline i now interval : ℕ)
      → ((d : ℕ)
          → poll_once w decode_authorization decode_error
              (rounds i)
              url
              form
              (now + slept interval + (rounds i).overrun)
              interval
            ≡ again d
          → now ≤ deadline
          → IsGiven (
              poll w decode_authorization decode_error fuel rounds url form deadline
                (i + 1)
                (now + slept interval + (rounds i).overrun)
                d))
      → IsGiven (
          poll w decode_authorization decode_error
            (suc fuel)
            rounds
            url
            form
            deadline
            i
            now
            interval)
  unfolding poll
  poll_step fuel rounds url form deadline i now interval next =
      let later = now + slept interval + (rounds i).overrun in
      elim (Bool-cases (ltb deadline now)) [
        | inl late ↦ rw late (err expired, refl)
        | inr early ↦ rw early (elim (Bool-cases (rounds i).cancelled) [
          | inl stopped ↦ simp stopped (err cancelled, refl)
          | inr waiting ↦
              simp waiting
                (elim (Next-cases (
                  poll_once w decode_authorization decode_error (rounds i) url form later
                    interval)) [
                      | inl (r, given) ↦ rw given (r, refl)
                      | inr (d, more) ↦ rw more (next d more (ground (arith, early)))
                    ])
        ])
      ]

  -- Where each interval is at least `least` and none overflows, enough rounds end the loop.
  poll-IsGiven :
      (least fuel : ℕ) (rounds : ℕ → Round) (url : Bytes) (form : Values)
      (deadline i now interval : ℕ)
      → least ≤ interval
      → interval + 5 * second * fuel < half_word
      → deadline < now + fuel * least
      → IsGiven (
          poll w decode_authorization decode_error
            (suc fuel)
            rounds
            url
            form
            deadline
            i
            now
            interval)
  poll-IsGiven least zero rounds url form deadline i now interval low high late =
      poll_step zero rounds url form deadline i now interval
        (λ d more early. absurd (ground (arith, late, early)))
  poll-IsGiven least (suc fuel) rounds url form deadline i now interval low high late =
      poll_step (suc fuel) rounds url form deadline i now interval (λ d more early.
        let later = now + slept interval + (rounds i).overrun in
        let bound = next_interval (rounds i) url form later interval d more (omega (arith, high)) in
        let slept_all : slept interval ≡ interval = slept_same interval (omega (arith, high)) in
        poll-IsGiven least fuel rounds url form deadline (i + 1) later d
          (omega (arith, low, bound.0)) (omega (arith, high, bound.1))
          (omega (arith, late, low, slept_all)))

-- A number of seconds that is defaulted, or is at most `limit`.
unfoldable pub IsAtMost : ℕ → ℤ → Type 0
IsAtMost limit (pos n) = n ≤ limit
IsAtMost limit (negsuc n) = Unit

or_default-pos :
    (d limit : ℕ) (n : ℤ)
    → 1 ≤ d
    → d ≤ limit
    → IsAtMost limit n
    → (k : ℕ) × (or_default d n ≡ pos k) × (1 ≤ k) × (k ≤ limit)
unfolding or_default IsAtMost
or_default-pos d limit (pos zero) low high h = (d, refl, low, high)
or_default-pos d limit (pos (suc n)) low high h = (suc n, refl, omega arith, h)
or_default-pos d limit (negsuc n) low high h = (d, refl, low, high)

abbrev pub max_seconds : ℕ
max_seconds = 1_000_000_000

seconds_small : (k : ℕ) → k ≤ max_seconds → seconds (pos k) ≡ k * second
unfolding seconds to_word
seconds_small k h = omega (arith, h)

add_small : (now k : ℕ) → k ≤ max_seconds → add now (k * second) ≡ now + k * second
unfolding add
add_small now k h = ground (arith, h)

module _ (w : Web) (decode_authorization : Bytes → Option Authorization)
    (decode_error : Bytes → ErrorResponse) where
  -- The authorizations of a server that asks for at most `limit` seconds, of polling and between polls.
  abbrev pub IsBounded : ℕ → Type 0
  IsBounded limit =
      (body : Bytes) (a : Authorization)
      → decode_authorization body ≡ some a
      → IsAtMost limit a.expires_in × IsAtMost limit a.interval

  wait_for-IsGiven :
      (limit : ℕ) (rounds : ℕ → Round) (url client_id : Bytes) (now : ℕ) (a : Authorization)
      → 900 ≤ limit
      → limit ≤ max_seconds
      → IsAtMost limit a.expires_in × IsAtMost limit a.interval
      → IsGiven
          (wait_for w decode_authorization decode_error (limit + 2) rounds url client_id now a)
  unfolding wait_for
  wait_for-IsGiven limit rounds url client_id now a low high h =
      let (e, expires, e_low, e_high) =
        or_default-pos 900 limit a.expires_in (omega arith) low h.0 in
      let (k, every, k_low, k_high) =
        or_default-pos 5 limit a.interval (omega arith) (omega (arith, low)) h.1 in
      let e_seconds = seconds_small e (omega (arith, e_high, high)) in
      let k_seconds = seconds_small k (omega (arith, k_high, high)) in
      let deadline = add_small now e (omega (arith, e_high, high)) in
      let rounds_left : limit + 2 ≡ suc (limit + 1) = omega arith in
      rw (rounds_left, expires, every, e_seconds, k_seconds, deadline)
        (poll-IsGiven w decode_authorization decode_error second (limit + 1) rounds url _
          (now + e * second) 0 now (k * second) (omega (arith, k_low)) (omega (arith, k_high, high))
          (omega (arith, e_high)))

  bounded_inv :
      (limit : ℕ) (r : Result Error (ℕ × Bytes)) (a : Authorization)
      → IsBounded limit
      → authorized w decode_authorization decode_error r ≡ ok a
      → IsAtMost limit a.expires_in × IsAtMost limit a.interval
  unfolding authorized
  bounded_inv limit (err e) a bounded h = absurd (ground (arith, h))
  bounded_inv limit (ok (code, body)) a bounded h = bounded body a (ground (arith, h))

  bounded_request :
      (limit : ℕ) (url client_id : Bytes) (a : Authorization)
      → IsBounded limit
      → request_authorization w decode_authorization decode_error url client_id ≡ ok a
      → IsAtMost limit a.expires_in × IsAtMost limit a.interval
  unfolding request_authorization
  bounded_request limit url client_id a bounded h =
      bounded_inv limit
        (post_form w url (
          UrlQuery.set (text "scope") (text "openid email profile offline_access")
            (UrlQuery.set (text "client_id") client_id [])))
        a bounded h

  from_authorization-IsGiven :
      (limit : ℕ) (rounds : ℕ → Round) (url client_id : Bytes) (now : ℕ)
      (r : Result DeviceError Authorization)
      → 900 ≤ limit
      → limit ≤ max_seconds
      → ((a : Authorization) → r ≡ ok a → IsAtMost limit a.expires_in × IsAtMost limit a.interval)
      → IsGiven (
          from_authorization w decode_authorization decode_error
            (limit + 2)
            rounds
            url
            client_id
            now
            r)
  unfolding from_authorization
  from_authorization-IsGiven limit rounds url client_id now (err e) low high h = (err e, refl)
  from_authorization-IsGiven limit rounds url client_id now (ok a) low high h =
      wait_for-IsGiven limit rounds url client_id now a low high (h a refl)

  -- Whatever the servers answer in each round and however long it takes, a device login ends: for a server
  -- that asks for at most `limit` seconds (from the default 900 up to a thousand million), `limit + 2` rounds
  -- give a result, be it tokens or an error.
  pub run_device_flow-IsGiven :
      (limit : ℕ) (rounds : ℕ → Round) (now : ℕ) (issuer client_id : Bytes)
      → 900 ≤ limit
      → limit ≤ max_seconds
      → IsBounded limit
      → IsGiven (
          run_device_flow w decode_authorization decode_error
            (limit + 2)
            rounds
            now
            issuer
            client_id)
  unfolding run_device_flow
  run_device_flow-IsGiven limit rounds now issuer client_id low high bounded =
      let ep = discover_endpoints w issuer in
      from_authorization-IsGiven limit rounds ep.token client_id now
        (request_authorization w decode_authorization decode_error ep.device_authorization
          client_id)
        low high (λ a good. bounded_request limit ep.device_authorization client_id a bounded good)
