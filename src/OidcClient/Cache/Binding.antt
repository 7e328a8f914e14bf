-- ===== src/OidcClient/Cache/Binding.antt =====
-- Whose credentials `EnsureFreshTokens` of auth/oidcclient/client.go uses.
use tokyo3_base.Base.{
  ◌≡◌, refl, ap, true, false, Option, none, some, Bytes, bytes_eq_iff, Result, ok, err, and_then,
  arith, inl, inr, ◌⊎◌,
}
use tokyo3_base.OidcClient.Endpoints.{Tokens, Error, refresh}
use tokyo3_base.OidcClient.Cache.{
  Config, CachedTokens, Stored, missing, damaged, stored, Disk, CacheError, same_config,
  load_config, load_cached_tokens, names, check_bound, load_matching_tokens, Call, Outcome,
  is_fresh, save_refreshed, ensure_fresh_tokens,
}
use tokyo3_base.OidcClient.Cache.Steps.{ensure_elim, loaded_tokens, check_bound_inv}

-- The cache belongs to an issuer and client.
abbrev pub BelongsTo : Config → Disk → CachedTokens → Type 0
BelongsTo cfg d cached =
    (cached.config ≡ some cfg) ⊎ ((cached.config ≡ none) × (load_config d.config ≡ ok cfg))

same_config_inv : (a b : Config) → same_config a b ≡ true → a ≡ b
unfolding same_config
same_config_inv a b h =
    let issuer : a.issuer ≡ b.issuer = (bytes_eq_iff a.issuer b.issuer).0 (ground (arith, h)) in
    let client : a.client_id ≡ b.client_id =
      (bytes_eq_iff a.client_id b.client_id).0 (ground (arith, h)) in
    cc (issuer, client)

check_bound-BelongsTo :
    (cfg : Config) (saved : Result CacheError Config) (t cached : CachedTokens) (o : Option Config)
    → check_bound cfg saved t o ≡ ok cached
    → (o ≡ some cfg) ⊎ ((o ≡ none) × (saved ≡ ok cfg))
unfolding check_bound names
check_bound-BelongsTo cfg saved t cached (some b) h =
    inl (ap some (same_config_inv b cfg (ground (arith, h))))
check_bound-BelongsTo cfg (ok b) t cached none h =
    inr (refl, ap ok (same_config_inv b cfg (ground (arith, h))))
check_bound-BelongsTo cfg (err e) t cached none h = absurd (ground (arith, h))

load_BelongsTo :
    (cfg : Config) (d : Disk) (s : Stored CachedTokens) (cached : CachedTokens)
    → and_then (load_cached_tokens s) (λ t. check_bound cfg (load_config d.config) t t.config)
      ≡ ok cached
    → BelongsTo cfg d cached
unfolding load_cached_tokens
load_BelongsTo cfg d missing cached h = absurd (ground (arith, h))
load_BelongsTo cfg d damaged cached h = absurd (ground (arith, h))
load_BelongsTo cfg d (stored t) cached h =
    let same : t ≡ cached = check_bound_inv cfg (load_config d.config) t cached t.config h in
    rw (← same) (check_bound-BelongsTo cfg (load_config d.config) t cached t.config h)

-- What a call found under the lock when it sent a refresh token, and what it did with it.
pub record Exchange (c : Call) (d : Disk) (o : Outcome) (r : Bytes) : Type 0 where
  pub cached : CachedTokens
  pub on_disk : d.tokens ≡ stored cached
  pub theirs : BelongsTo c.config d cached
  pub sent : r ≡ cached.tokens.refresh_token
  pub stale : is_fresh c.now c.access_skew cached.tokens ≡ false
  pub answer : o.request ≡ some (r, refresh c.web c.now c.config.issuer c.config.client_id r)

saved_request :
    (c : Call) (d : Disk) (old : Tokens) (answer : Result Error Tokens)
    → (save_refreshed c d old answer).request ≡ some (old.refresh_token, answer)
unfolding save_refreshed
saved_request c d old (err e) = refl
saved_request c d old (ok t) = ground arith

-- A refresh token that a call sends is the one in the cache under the lock, it goes to the call's issuer in
-- the name of its client, and the cache is bound to these two, or, if it was never bound, config.json names
-- them. At that time the cached access token is not fresh.
pub ensure_fresh_tokens_sends :
    (c : Call) (first d : Disk) (r : Bytes) (a : Result Error Tokens)
    → (ensure_fresh_tokens c first d).request ≡ some (r, a)
    → Exchange c d (ensure_fresh_tokens c first d) r
unfolding load_matching_tokens
ensure_fresh_tokens_sends c first d r a =
    ensure_elim (λ (o : Outcome). o.request ≡ some (r, a) → Exchange c d o r) c d first
      (λ result h. absurd (ground (arith, h)))
      (λ cached refreshes h.
        let sent : r ≡ cached.tokens.refresh_token = ground (
          arith,
          h,
          saved_request c d cached.tokens
              (refresh c.web c.now c.config.issuer c.config.client_id cached.tokens.refresh_token),
        ) in
        record {
          cached = cached;
          on_disk = loaded_tokens c.config d d.tokens cached refreshes.loaded;
          theirs = load_BelongsTo c.config d d.tokens cached refreshes.loaded;
          sent = sent;
          stale = refreshes.stale;
          answer = rw sent (saved_request c d cached.tokens _);
        })

saved_tokens :
    (c : Call) (d : Disk) (old t : Tokens) (answer : Result Error Tokens)
    → (save_refreshed c d old answer).result ≡ ok t
    → (save_refreshed c d old answer).disk.tokens
      ≡ stored (record { tokens = t; config = some c.config })
unfolding save_refreshed
saved_tokens c d old t (err e) h = absurd (ground (arith, h))
saved_tokens c d old t (ok fresh) h = ground (arith, h)

refreshed_tokens :
    (c : Call) (first d : Disk) (r : Bytes) (a : Result Error Tokens) (t : Tokens)
    → (ensure_fresh_tokens c first d).request ≡ some (r, a)
    → (ensure_fresh_tokens c first d).result ≡ ok t
    → (ensure_fresh_tokens c first d).disk.tokens
      ≡ stored (record { tokens = t; config = some c.config })
refreshed_tokens c first d r a t =
    ensure_elim
      (λ (o : Outcome).
        o.request ≡ some (r, a)
        → o.result ≡ ok t
        → o.disk.tokens ≡ stored (record { tokens = t; config = some c.config }))
      c d first (λ result h. absurd (ground (arith, h)))
      (λ cached refreshes h done. saved_tokens c d cached.tokens t _ done)

-- After a call that refreshed and gave tokens, the next one to get the lock sends nothing while these tokens
-- are fresh for it, whatever it read before.
pub ensure_fresh_tokens_waits :
    (c next : Call) (first old d : Disk) (r : Bytes) (a : Result Error Tokens) (t : Tokens)
    → (ensure_fresh_tokens c first d).request ≡ some (r, a)
    → (ensure_fresh_tokens c first d).result ≡ ok t
    → is_fresh next.now next.access_skew t ≡ true
    → (ensure_fresh_tokens next old (ensure_fresh_tokens c first d).disk).request ≡ none
unfolding load_matching_tokens
ensure_fresh_tokens_waits c next first old d r a t sent done fresh =
    let after = (ensure_fresh_tokens c first d).disk in
    ensure_elim (λ (o : Outcome). o.request ≡ none) next after old (λ result. refl)
      (λ cached refreshes.
        let found = loaded_tokens next.config after after.tokens cached refreshes.loaded in
        let same : cached.tokens ≡ t =
          ground (arith, found, refreshed_tokens c first d r a t sent done) in
        let stale : is_fresh next.now next.access_skew t ≡ false = rw (← same) refreshes.stale in
        absurd (ground (arith, stale, fresh)))
