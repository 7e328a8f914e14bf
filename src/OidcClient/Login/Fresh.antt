-- ===== src/OidcClient/Login/Fresh.antt =====
-- The cache after a login of auth/oidcclient/login.go.
use tokyo3_base.Base.{
  ◌≡◌, ◌∙◌, refl, ap, true, false, ◌||◌, Option, none, some, bytes_eq_refl, Result, ok, err, arith,
  Bool-cases, inl, inr, ◌⊎◌,
}
use tokyo3_base.SealedCookie.{is_empty}
use tokyo3_base.OidcClient.Endpoints.{Tokens}
use tokyo3_base.OidcClient.Cache.{
  Config, CachedTokens, stored, Disk, Call, is_fresh, same_config, load_matching_tokens, mismatch,
  ensure_fresh_tokens, quiet,
}
use tokyo3_base.OidcClient.Cache.Steps.{
  ensure_fresh_tokens_first, ensure_fresh_tokens_refused, load_matching_tokens_bound,
}
use tokyo3_base.OidcClient.Login.{
  Attempt, Failure, no_save, run_flow, write_cache, concluded, login,
}

written :
    (a : Attempt) (cfg : Config) (d after : Disk) (t u : Tokens)
    → write_cache a cfg d t ≡ (ok u, after)
    → (t ≡ u)
      × (after ≡ record {
        config = stored cfg;
        tokens = stored (record { tokens = u; config = some cfg });
      })
unfolding write_cache
written a cfg d after t u h = (ground (arith, h), ground (arith, h))

unwritten :
    (a : Attempt) (cfg : Config) (d after : Disk) (t : Tokens) (e : Failure)
    → write_cache a cfg d t ≡ (err e, after)
    → (after ≡ d)
      ⊎ ((after ≡ record d { tokens = stored (record { tokens = t; config = some cfg }) })
          × (e ≡ no_save)
          × (a.saves_tokens ≡ true)
          × (a.saves_config ≡ false))
unfolding write_cache
unwritten a cfg d after t e h = elim (Bool-cases a.locks) [
  | inr busy ↦ inl (ground (arith, h, busy))
  | inl locked ↦ elim (Bool-cases a.saves_tokens) [
    | inr full ↦ inl (ground (arith, h, locked, full))
    | inl saved ↦ elim (Bool-cases a.saves_config) [
      | inr half ↦ inr (
        ground (arith, h, locked, saved, half),
        ground (arith, h, locked, saved, half),
        saved,
        half,
      )
      | inl all ↦ absurd (ground (arith, h, locked, saved, all))
    ]
  ]
]

concluded_ok :
    (a : Attempt) (cfg : Config) (d after : Disk) (u : Tokens) (o : Option (Result Failure Tokens))
    → concluded a cfg d o ≡ some (ok u, after)
    → (o ≡ some (ok u))
      × (after ≡ record {
        config = stored cfg;
        tokens = stored (record { tokens = u; config = some cfg });
      })
unfolding concluded
concluded_ok a cfg d after u none h = absurd (ground (arith, h))
concluded_ok a cfg d after u (some (err e)) h = absurd (ground (arith, h))
concluded_ok a cfg d after u (some (ok t)) h =
    let (same, left) = written a cfg d after t u (ground (arith, h)) in
    (ap (λ x. some (ok x)) same, left)

login_ok :
    (a : Attempt) (cfg : Config) (d after : Disk) (u : Tokens)
    → login a cfg d ≡ some (ok u, after)
    → after
      ≡ record { config = stored cfg; tokens = stored (record { tokens = u; config = some cfg }) }
unfolding login
login_ok a cfg d after u h = elim (Bool-cases (is_empty cfg.issuer || is_empty cfg.client_id)) [
  | inl missing_one ↦ absurd (ground (arith, h, missing_one))
  | inr there ↦ (concluded_ok a cfg d after u (run_flow a cfg) (ground (arith, h, there))).1
]

same_config_refl : (c : Config) → same_config c c ≡ true
unfolding same_config
same_config_refl c = rw (bytes_eq_refl c.issuer, bytes_eq_refl c.client_id) refl

-- After a login that gave tokens, a call for the same configuration gives these tokens while they are fresh,
-- and sends nothing.
pub ensure_fresh_tokens-login :
    (a : Attempt) (cfg : Config) (d after later : Disk) (t : Tokens) (c : Call)
    → login a cfg d ≡ some (ok t, after)
    → c.config ≡ cfg
    → is_fresh c.first_now c.access_skew t ≡ true
    → ensure_fresh_tokens c after later ≡ quiet later (ok t)
ensure_fresh_tokens-login a cfg d after later t c h same fresh =
    let left = login_ok a cfg d after t h in
    let cached : CachedTokens = record { tokens = t; config = some cfg } in
    let loaded : load_matching_tokens c.config after ≡ ok cached =
      load_matching_tokens_bound after cached cfg c.config (ap (λ (x : Disk). x.tokens) left) refl
      ∙ rw (same, same_config_refl cfg) refl in
    ensure_fresh_tokens_first c after later cached loaded fresh

-- A login whose flow gave tokens, that were written, and that failed at config.json.
pub record FailedHalfway (a : Attempt) (cfg : Config) (d after : Disk) (e : Failure) : Type 0 where
  pub tokens : Tokens
  pub flow : run_flow a cfg ≡ some (ok tokens)
  pub written : after ≡ record d { tokens = stored (record { tokens = tokens; config = some cfg }) }
  pub no_config_saved : a.saves_config ≡ false
  pub tokens_saved : a.saves_tokens ≡ true
  pub error : e ≡ no_save

concluded_failed :
    (a : Attempt) (cfg : Config) (d after : Disk) (e : Failure) (o : Option (Result Failure Tokens))
    → run_flow a cfg ≡ o
    → concluded a cfg d o ≡ some (err e, after)
    → (after ≡ d) ⊎ FailedHalfway a cfg d after e
unfolding concluded
concluded_failed a cfg d after e none is h = absurd (ground (arith, h))
concluded_failed a cfg d after e (some (err f)) is h = inl (ground (arith, h))
concluded_failed a cfg d after e (some (ok t)) is h =
    elim (unwritten a cfg d after t e (ground (arith, h))) [
      | inl same ↦ inl same
      | inr (left, error, saved, half) ↦ inr (record {
        tokens = t;
        flow = is;
        written = left;
        no_config_saved = half;
        tokens_saved = saved;
        error = error;
      })
    ]

login_left :
    (a : Attempt) (cfg : Config) (d after : Disk) (e : Failure)
    → login a cfg d ≡ some (err e, after)
    → (after ≡ d) ⊎ FailedHalfway a cfg d after e
unfolding login
login_left a cfg d after e h = elim (Bool-cases (is_empty cfg.issuer || is_empty cfg.client_id)) [
  | inl missing_one ↦ inl (ground (arith, h, missing_one))
  | inr there ↦ concluded_failed a cfg d after e (run_flow a cfg) refl (ground (arith, h, there))
]

-- After a login that failed, the cache is as it was, or its flow gave tokens and it failed only as it wrote
-- config.json, once the tokens were written. So a flow that fails leaves the cache as it was. Where it failed
-- so late, a call for any other configuration, whatever config.json names, gives an error and sends nothing.
pub login_failed :
    (a : Attempt) (cfg : Config) (d after later : Disk) (e : Failure) (c : Call)
    → login a cfg d ≡ some (err e, after)
    → same_config cfg c.config ≡ false
    → (after ≡ d)
      ⊎ (FailedHalfway a cfg d after e
          × (ensure_fresh_tokens c after later ≡ quiet later (err mismatch)))
login_failed a cfg d after later e c h other = elim (login_left a cfg d after e h) [
  | inl same ↦ inl same
  | inr half ↦
      let cached : CachedTokens = record { tokens = half.tokens; config = some cfg } in
      inr (
        half,
        ensure_fresh_tokens_refused c after later mismatch (
            load_matching_tokens_bound after cached cfg c.config
              (ap (λ (x : Disk). x.tokens) half.written) refl
            ∙ rw other refl),
      )
]
