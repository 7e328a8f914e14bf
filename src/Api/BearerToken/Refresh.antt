-- ===== src/Api/BearerToken/Refresh.antt =====
-- Which tokens api/bearer_token.go serves, and how often it refreshes them.
use tokyo3_base.Base.{
  ℕ, ◌+◌, ◌-◌, ◌≤◌, ◌<◌, ◌≡◌, ◌≢◌, ◌⊎◌, refl, sym, ap, ◌∙◌, true, false, List, [], ◌∷◌, arith,
  Bytes, Result, ok, err, ltb, Bool-cases, inl, inr, if◌then◌else◌,
}
use tokyo3_base.Api.BearerToken.{
  Buffer, early, TokenManager, Decision, serves, refuses, no_refresher, backing_off, joins, leads,
  min_refresh_retry, max_refresh_retry, clamped, is_fresh, is_usable, get_token, failed_at,
  run_refresh,
}

-- A call starts a refresh where none is under way, or it changes nothing.
get_token_cases :
    (buffer : Buffer) (now : ℕ) (tm : TokenManager)
    → ((tm.inflight ≡ false) × (get_token buffer now tm ≡ (leads, record tm { inflight = true })))
      ⊎ ((d : Decision) × (d ≢ leads) × (get_token buffer now tm ≡ (d, tm)))
unfolding get_token
get_token_cases buffer now tm = elim (Bool-cases (is_fresh buffer now tm)) [
  | inl fresh ↦ inr (serves tm.token, (λ h. ground (arith, h)), rw fresh refl)
  | inr stale ↦ elim (Bool-cases tm.inflight) [
    | inl busy ↦ inr (
      if is_usable now tm then serves tm.token else joins,
      (λ h. ground (arith, h)),
      rw (stale, busy) refl,
    )
    | inr idle ↦ elim (Bool-cases tm.has_refresher) [
      | inr lone ↦ inr (
        if is_usable now tm then serves tm.token else refuses no_refresher,
        (λ h. ground (arith, h)),
        rw (stale, idle, lone) refl,
      )
      | inl able ↦ elim (Bool-cases (ltb now tm.next_attempt)) [
        | inl waits ↦ inr (
          if is_usable now tm then serves tm.token else refuses (backing_off tm.last_err),
          (λ h. ground (arith, h)),
          rw (stale, idle, able, waits) refl,
        )
        | inr due ↦ inl (idle, rw (stale, idle, able, due) refl)
      ]
    ]
  ]
]

-- With a buffer that refreshes early, a token that is served at once is the one that is held, and has
-- not expired.
pub get_token_live :
    (buffer now : ℕ) (tm tm' : TokenManager) (token : Bytes)
    → get_token (early buffer) now tm ≡ (serves token, tm')
    → (token ≡ tm.token) × (now < tm.expires_at) × (tm' ≡ tm)
unfolding get_token clamped
get_token_live buffer now tm tm' token h = (
  ground (arith, h),
  ground (arith, h),
  elim (get_token_cases (early buffer) now tm) [
    | inl (idle, e) ↦ absurd (ground (arith, e, h))
    | inr (d, other, e) ↦ ap (λ p. p.1) (sym h ∙ e)
  ],
)

-- After a failed refresh the refresher is left alone for at least a second, and after half a minute a
-- call that finds the token stale refreshes again.
pub get_token-run_refresh :
    (buffer : Buffer) (e done soon later : ℕ) (tm : TokenManager)
    → tm.has_refresher ≡ true
    → soon < done + min_refresh_retry
    → done + max_refresh_retry ≤ later
    → is_fresh buffer later tm ≡ false
    → ((get_token buffer soon (run_refresh (err e) done tm)).0 ≢ leads)
      × ((get_token buffer later (run_refresh (err e) done tm)).0 ≡ leads)
unfolding get_token run_refresh failed_at
get_token-run_refresh buffer e done soon later tm r close far stale =
    (λ h. ground (arith, h), ground arith)

-- What goroutines do: a call comes, or a refresh under way ends.
pub data Event : Type 0 where
  calls : Buffer → ℕ → Event
  ends : Result ℕ (Bytes × ℕ) → ℕ → Event

-- The manager and the number of refreshes under way.
pub record System : Type 0 where
  pub manager : TokenManager
  pub refreshing : ℕ

started : Decision × TokenManager → ℕ → System
started (leads, tm) n = record { manager = tm; refreshing = n + 1 }
started (serves t, tm) n = record { manager = tm; refreshing = n }
started (refuses e, tm) n = record { manager = tm; refreshing = n }
started (joins, tm) n = record { manager = tm; refreshing = n }

step : Event → System → System
unfolding started
step (calls buffer now) s = started (get_token buffer now s.manager) s.refreshing
step (ends result now) s =
    if ltb 0 s.refreshing
    then record { manager = run_refresh result now s.manager; refreshing = s.refreshing - 1 }
    else s

unfoldable pub run : List Event → System → System
unfolding step
run [] s = s
run (ev ∷ es) s = run es (step ev s)

-- One refresh is under way where the manager says so, and none elsewhere.
abbrev pub IsSingle : System → Type 0
IsSingle s = s.refreshing ≡ (if s.manager.inflight then 1 else 0)

started-IsSingle :
    (d : Decision) (tm : TokenManager) (n : ℕ)
    → d ≢ leads
    → started (d, tm) n ≡ record { manager = tm; refreshing = n }
unfolding started
started-IsSingle leads tm n h = absurd (h refl)
started-IsSingle (serves t) tm n h = refl
started-IsSingle (refuses e) tm n h = refl
started-IsSingle joins tm n h = refl

call-IsSingle :
    (buffer : Buffer) (now : ℕ) (s : System) → IsSingle s → IsSingle (step (calls buffer now) s)
unfolding step started
call-IsSingle buffer now s h = elim (get_token_cases buffer now s.manager) [
  | inl (idle, e) ↦ rw e (ground (arith, h, idle))
  | inr (d, other, e) ↦ rw (e, started-IsSingle d s.manager s.refreshing other) h
]

end-inflight :
    (result : Result ℕ (Bytes × ℕ)) (now : ℕ) (tm : TokenManager)
    → (run_refresh result now tm).inflight ≡ false
unfolding run_refresh failed_at
end-inflight (err e) now tm = refl
end-inflight (ok (token, expires_at)) now tm = ground arith

end-IsSingle :
    (result : Result ℕ (Bytes × ℕ)) (now : ℕ) (s : System)
    → IsSingle s
    → IsSingle (step (ends result now) s)
unfolding step
end-IsSingle result now s h = elim (Bool-cases (ltb 0 s.refreshing)) [
  | inr none_runs ↦ rw none_runs h
  | inl runs ↦ rw (runs, end-inflight result now s.manager) (ground (arith, h))
]

-- However calls and the ends of refreshes follow one another, at most one refresh is under way, and
-- the manager knows it.
pub run-IsSingle :
    (es : List Event) (s : System) → IsSingle s → IsSingle (run es s) × ((run es s).refreshing ≤ 1)
unfolding run
run-IsSingle [] s h = (h, ground (arith, h))
run-IsSingle (calls buffer now ∷ es) s h =
    run-IsSingle es (step (calls buffer now) s) (call-IsSingle buffer now s h)
run-IsSingle (ends result now ∷ es) s h =
    run-IsSingle es (step (ends result now) s) (end-IsSingle result now s h)
