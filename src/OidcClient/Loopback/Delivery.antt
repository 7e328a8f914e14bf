-- ===== src/OidcClient/Loopback/Delivery.antt =====
-- Which callback ends a login of auth/oidcclient/loopback.go and codeflow.go.
use tokyo3_base.Base.{
  ◌≡◌, ◌≢◌, refl, ap, sym, ◌∙◌, true, not, none, some, List, [], ◌∷◌, ◌++◌, Bytes, bytes_eq,
  bytes_eq_iff, bytes_eq_ne, text, Result, ok, err, arith, All, Bool-cases, inl, inr, if◌then◌else◌,
}
use tokyo3_base.SealedCookie.{is_empty}
use tokyo3_base.UrlQuery.{Values}
use tokyo3_base.OidcClient.Cache.Names.{is_empty-true, is_empty-false}
use tokyo3_base.OidcClient.Loopback.{
  LoginError, server_error, no_code, server_stopped, timed_out, cancelled, decided, opened,
  serve_handled, serve, finish, query_get, handle_redirect, Event, request, stopped, timeout,
  cancel, received, step, gives_up, wait,
}

-- A request that does not carry the state of the login.
abbrev pub IsStray : Bytes → Event → Type 0
IsStray state (request q) = query_get (text "state") q ≢ state
IsStray state stopped = ⊥
IsStray state timeout = ⊥
IsStray state cancel = ⊥

stray_step : (state : Bytes) (e : Event) → IsStray state e → step state opened e ≡ opened
unfolding step serve serve_handled handle_redirect
stray_step state (request q) h =
    let other = bytes_eq_ne (query_get (text "state") q) state h in rw other refl
stray_step state stopped h = absurd h
stray_step state timeout h = absurd h
stray_step state cancel h = absurd h

wait_stray :
    (state : Bytes) (e : Event) (es : List Event)
    → IsStray state e
    → wait state opened (e ∷ es) ≡ wait state opened es
unfolding wait received gives_up
wait_stray state (request q) es h = ap (λ lc. wait state lc es) (stray_step state (request q) h)
wait_stray state stopped es h = absurd h
wait_stray state timeout es h = absurd h
wait_stray state cancel es h = absurd h

-- However many requests without the login's state arrive first, the wait goes on as if they had not come.
pub wait_strays :
    (state : Bytes) (strays events : List Event)
    → All (IsStray state) strays
    → wait state opened (strays ++ events) ≡ wait state opened events
wait_strays state [] events h = refl
wait_strays state (e ∷ es) events h =
    wait_stray state e (es ++ events) h.0 ∙ wait_strays state es events h.1

-- The redirect that gave a code: the first request with the login's state.
pub record Redirect (state : Bytes) (code : Bytes) (events : List Event) : Type 0 where
  pub strays : List Event
  pub query : Values
  pub rest : List Event
  pub split : events ≡ strays ++ (request query ∷ rest)
  pub all_strays : All (IsStray state) strays
  pub same_state : query_get (text "state") query ≡ state
  pub no_error : query_get (text "error") query ≡ []
  pub carries : query_get (text "code") query ≡ code
  pub present : code ≢ []

ended_stays :
    (state : Bytes) (r : Result LoginError Bytes) (es : List Event)
    → wait state (record { done = true; results = r ∷ [] }) es ≡ some r
unfolding wait received
ended_stays state r [] = refl
ended_stays state r (e ∷ es) = refl

redirect_wait :
    (state : Bytes) (q : Values) (es : List Event) (r : Result LoginError Bytes)
    → handle_redirect state q ≡ decided r
    → wait state opened (request q ∷ es) ≡ some r
unfolding wait received step serve serve_handled gives_up
redirect_wait state q es r h = rw h (ended_stays state r es)

stopped_wait :
    (state : Bytes) (es : List Event) → wait state opened (stopped ∷ es) ≡ some (err server_stopped)
unfolding wait received step finish gives_up
stopped_wait state es = ended_stays state (err server_stopped) es

timeout_wait :
    (state : Bytes) (es : List Event) → wait state opened (timeout ∷ es) ≡ some (err timed_out)
unfolding wait received gives_up
timeout_wait state es = refl

cancel_wait :
    (state : Bytes) (es : List Event) → wait state opened (cancel ∷ es) ≡ some (err cancelled)
unfolding wait received gives_up
cancel_wait state es = refl

-- What the handler makes of a request that carries the state.
unfoldable pub outcome : Values → Result LoginError Bytes
outcome q =
    if not (is_empty (query_get (text "error") q))
    then err (server_error (query_get (text "error") q) (query_get (text "error_description") q))
    else if is_empty (query_get (text "code") q)
    then err no_code
    else ok (query_get (text "code") q)

handle_redirect-outcome :
    (state : Bytes) (q : Values)
    → query_get (text "state") q ≡ state
    → handle_redirect state q ≡ decided (outcome q)
unfolding handle_redirect outcome
handle_redirect-outcome state q h =
    let same = (bytes_eq_iff (query_get (text "state") q) state).1 h in ground (arith, same)

-- The first request that carries the state decides the login.
pub wait_redirect :
    (state : Bytes) (q : Values) (strays events : List Event)
    → All (IsStray state) strays
    → query_get (text "state") q ≡ state
    → wait state opened (strays ++ (request q ∷ events)) ≡ some (outcome q)
wait_redirect state q strays events h same =
    wait_strays state strays (request q ∷ events) h
    ∙ redirect_wait state q events (outcome q) (handle_redirect-outcome state q same)

nothing_waits : (state : Bytes) → wait state opened [] ≡ none
unfolding wait received
nothing_waits state = refl

outcome_inv :
    (q : Values) (code : Bytes)
    → outcome q ≡ ok code
    → (query_get (text "error") q ≡ []) × (query_get (text "code") q ≡ code) × (code ≢ [])
unfolding outcome
outcome_inv q code h = elim (Bool-cases (is_empty (query_get (text "error") q))) [
  | inr failed ↦ absurd (ground (arith, h, failed))
  | inl fine ↦ elim (Bool-cases (is_empty (query_get (text "code") q))) [
    | inl absent ↦ absurd (ground (arith, h, fine, absent))
    | inr present ↦
        let same : query_get (text "code") q ≡ code = ground (arith, h, fine, present) in
        (
          is_empty-true (query_get (text "error") q) fine,
          same,
          λ e. is_empty-false (query_get (text "code") q) present (same ∙ e),
        )
  ]
]

-- The redirect where it is the first event, and where another request is.
here :
    (state code : Bytes) (q : Values) (es : List Event)
    → query_get (text "state") q ≡ state
    → outcome q ≡ ok code
    → Redirect state code (request q ∷ es)
here state code q es same h =
    let facts = outcome_inv q code h in
    record {
      strays = [];
      query = q;
      rest = es;
      split = refl;
      all_strays = tt;
      same_state = same;
      no_error = facts.0;
      carries = facts.1;
      present = facts.2;
    }

later :
    (state code : Bytes) (e : Event) (es : List Event)
    → IsStray state e
    → Redirect state code es
    → Redirect state code (e ∷ es)
later state code e es h r = record {
  strays = e ∷ r.strays;
  query = r.query;
  rest = r.rest;
  split = ap (λ (xs : List Event). e ∷ xs) r.split;
  all_strays = (h, r.all_strays);
  same_state = r.same_state;
  no_error = r.no_error;
  carries = r.carries;
  present = r.present;
}

pub code_redirect :
    (state code : Bytes) (events : List Event)
    → wait state opened events ≡ some (ok code)
    → Redirect state code events
code_redirect state code [] h = absurd (ground (arith, h, nothing_waits state))
code_redirect state code (stopped ∷ es) h = absurd (ground (arith, h, stopped_wait state es))
code_redirect state code (timeout ∷ es) h = absurd (ground (arith, h, timeout_wait state es))
code_redirect state code (cancel ∷ es) h = absurd (ground (arith, h, cancel_wait state es))
code_redirect state code (request q ∷ es) h =
    elim (Bool-cases (bytes_eq (query_get (text "state") q) state)) [
      | inl same ↦
          let equal : query_get (text "state") q ≡ state =
            (bytes_eq_iff (query_get (text "state") q) state).0 same in
          here state code q es equal (ground (arith, wait_redirect state q [] es tt equal, h))
      | inr other ↦
          let differs : IsStray state (request q) = λ e.
            absurd (ground (arith, other, (bytes_eq_iff (query_get (text "state") q) state).1 e)) in
          later state code (request q) es differs
            (code_redirect state code es (sym (wait_stray state (request q) es differs) ∙ h))
    ]
