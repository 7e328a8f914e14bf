-- ===== src/OidcClient/Device/Approval.antt =====
-- Which poll gives the tokens of a device login, in auth/oidcclient/deviceflow.go.
use tokyo3_base.Base.{
  ℕ, zero, suc, ◌+◌, ◌≤◌, ◌≡◌, refl, false, Option, none, some, Bytes, Result, ok, err, and_then,
  or_err, arith, Bool-cases, inl, inr, ltb, ◌==◌,
}
use tokyo3_base.UrlQuery.{Values}
use tokyo3_base.OidcClient.Endpoints.{Web, Tokens, Error, bad_response, post_form, parse_tokens}
use tokyo3_base.OidcClient.Device.{
  Authorization, ErrorResponse, Round, slept, give, map_err, on_error, on_reply, poll_once, poll,
}
use tokyo3_base.OidcClient.Device.Ends.{Next-cases}

module _ (w : Web) (decode_authorization : Bytes → Option Authorization)
    (decode_error : Bytes → ErrorResponse) where
  -- The round whose poll is answered with tokens; it starts before the deadline.
  pub record Approved (rounds : ℕ → Round) (url : Bytes) (form : Values) (deadline i : ℕ)
      (t : Tokens) : Type 0 where
    pub round : ℕ
    pub started : ℕ
    pub answered : ℕ
    pub body : Bytes
    pub from : i ≤ round
    pub in_time : started ≤ deadline
    pub not_cancelled : (rounds round).cancelled ≡ false
    pub reply : post_form (record w { post = (rounds round).post }) url form ≡ ok (200, body)
    pub tokens :
        and_then (or_err (w.decode_tokens body) bad_response) (parse_tokens answered) ≡ ok t

  map_err_inv : (r : Result Error Tokens) (t : Tokens) → map_err r ≡ ok t → r ≡ ok t
  unfolding map_err
  map_err_inv (ok x) t h = ground (arith, h)
  map_err_inv (err e) t h = absurd (ground (arith, h))

  on_error_gives :
      (interval : ℕ) (e : ErrorResponse) (t : Tokens)
      → on_error w decode_authorization decode_error interval e ≡ give (ok t)
      → ⊥
  unfolding on_error
  on_error_gives interval e t h = ground (arith, h)

  on_reply_gives :
      (now interval : ℕ) (r : Result Error (ℕ × Bytes)) (t : Tokens)
      → on_reply w decode_authorization decode_error now interval r ≡ give (ok t)
      → (body : Bytes) × (r ≡ ok (200, body))
        × (and_then (or_err (w.decode_tokens body) bad_response) (parse_tokens now) ≡ ok t)
  unfolding on_reply
  on_reply_gives now interval (err e) t h = absurd (ground (arith, h))
  on_reply_gives now interval (ok (code, body)) t h = elim (Bool-cases (code == 200)) [
    | inr bad ↦ absurd (on_error_gives interval (decode_error body) t (ground (arith, h, bad)))
    | inl good ↦
        let same : code ≡ 200 = ground (arith, good) in
        (body, rw same refl, map_err_inv _ t (ground (arith, h, good)))
  ]

  poll_once_gives :
      (r : Round) (url : Bytes) (form : Values) (now interval : ℕ) (t : Tokens)
      → poll_once w decode_authorization decode_error r url form now interval ≡ give (ok t)
      → (body : Bytes) × (post_form (record w { post = r.post }) url form ≡ ok (200, body))
        × (and_then (or_err (w.decode_tokens body) bad_response) (parse_tokens now) ≡ ok t)
  unfolding poll_once
  poll_once_gives r url form now interval t h =
      on_reply_gives now interval (post_form (record w { post = r.post }) url form) t h

  earlier :
      (rounds : ℕ → Round) (url : Bytes) (form : Values) (deadline i : ℕ) (t : Tokens)
      → Approved rounds url form deadline (i + 1) t
      → Approved rounds url form deadline i t
  earlier rounds url form deadline i t a = record {
    round = a.round;
    started = a.started;
    answered = a.answered;
    body = a.body;
    from = omega (arith, a.from);
    in_time = a.in_time;
    not_cancelled = a.not_cancelled;
    reply = a.reply;
    tokens = a.tokens;
  }

  poll_step_gives :
      (fuel : ℕ) (rounds : ℕ → Round) (url : Bytes) (form : Values) (deadline i now interval : ℕ)
      (t : Tokens)
      → ((d : ℕ)
          → poll w decode_authorization decode_error fuel rounds url form deadline
              (i + 1)
              (now + slept interval + (rounds i).overrun)
              d
            ≡ some (ok t)
          → Approved rounds url form deadline (i + 1) t)
      → poll w decode_authorization decode_error (suc fuel) rounds url form deadline i now interval
        ≡ some (ok t)
      → Approved rounds url form deadline i t
  unfolding poll
  poll_step_gives fuel rounds url form deadline i now interval t next =
      let later = now + slept interval + (rounds i).overrun in
      elim (Bool-cases (ltb deadline now)) [
        | inl late ↦ rw late (λ h. absurd (ground (arith, h)))
        | inr early ↦ rw early (elim (Bool-cases (rounds i).cancelled) [
          | inl stopped ↦ simp stopped (λ h. absurd (ground (arith, h)))
          | inr waiting ↦
              simp waiting
                (elim (Next-cases (
                  poll_once w decode_authorization decode_error (rounds i) url form later
                    interval)) [
                      | inr (d, more) ↦
                          rw more (λ h. earlier rounds url form deadline i t (next d h))
                      | inl (r, given) ↦ rw given (λ h.
                          let tokens : r ≡ ok t = ground (arith, h) in
                          let (body, reply, parsed) =
                            poll_once_gives (rounds i) url form later interval t
                              (rw (given, tokens) refl) in
                          record {
                            round = i;
                            started = now;
                            answered = later;
                            body = body;
                            from = omega arith;
                            in_time = ground (arith, early);
                            not_cancelled = waiting;
                            reply = reply;
                            tokens = parsed;
                          })
                    ])
        ])
      ]

  no_rounds :
      (rounds : ℕ → Round) (url : Bytes) (form : Values) (deadline i now interval : ℕ)
      → poll w decode_authorization decode_error zero rounds url form deadline i now interval ≡ none
  unfolding poll
  no_rounds rounds url form deadline i now interval = refl

  -- The polling loop gives tokens only from a poll of a round that began by the deadline and was not
  -- cancelled: its answer has status 200, and the tokens are those in its body.
  pub poll-Approved :
      (fuel : ℕ) (rounds : ℕ → Round) (url : Bytes) (form : Values) (deadline i now interval : ℕ)
      (t : Tokens)
      → poll w decode_authorization decode_error fuel rounds url form deadline i now interval
        ≡ some (ok t)
      → Approved rounds url form deadline i t
  poll-Approved zero rounds url form deadline i now interval t h =
      absurd (ground (arith, h, no_rounds rounds url form deadline i now interval))
  poll-Approved (suc fuel) rounds url form deadline i now interval t h =
      poll_step_gives fuel rounds url form deadline i now interval t
        (λ d more.
          poll-Approved fuel rounds url form deadline (i + 1)
            (now + slept interval + (rounds i).overrun) d t more)
        h
