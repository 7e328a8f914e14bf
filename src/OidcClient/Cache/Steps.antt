-- ===== src/OidcClient/Cache/Steps.antt =====
-- The cases of `EnsureFreshTokens` of auth/oidcclient/client.go.
use tokyo3_base.Base.{
  ◌≡◌, refl, ap, true, false, if◌then◌else◌, Option, none, some, Result, ok, err, and_then, arith,
  Bool-cases, inl, inr,
}
use tokyo3_base.SealedCookie.{is_empty}
use tokyo3_base.OidcClient.Endpoints.{Tokens, refresh}
use tokyo3_base.OidcClient.Cache.{
  Config, CachedTokens, Stored, missing, damaged, stored, Disk, CacheError, mismatch, same_config,
  load_config, load_cached_tokens, names, check_bound, load_matching_tokens, Call, Outcome,
  is_fresh, save_refreshed, quiet, refresh_locked, after_first_read, ensure_fresh_tokens,
}

-- What a call that refreshes does, for the tokens it found under the lock.
abbrev pub refreshed : Call → Disk → CachedTokens → Outcome
refreshed c d cached =
    save_refreshed c d cached.tokens
      (refresh c.web c.now c.config.issuer c.config.client_id cached.tokens.refresh_token)

-- When a call refreshes.
pub record Refreshes (c : Call) (d : Disk) (cached : CachedTokens) : Type 0 where
  pub loaded : load_matching_tokens c.config d ≡ ok cached
  pub stale : is_fresh c.now c.access_skew cached.tokens ≡ false
  pub present : is_empty cached.tokens.refresh_token ≡ false

module _ (P : Outcome → Type 0) (c : Call) (d : Disk) where
  locked_elim :
      (r : Result CacheError CachedTokens)
      → load_matching_tokens c.config d ≡ r
      → ((r : Result CacheError Tokens) → P (quiet d r))
      → ((cached : CachedTokens) → Refreshes c d cached → P (refreshed c d cached))
      → P (refresh_locked c d r)
  unfolding refresh_locked
  locked_elim (err e) h q s = q _
  locked_elim (ok cached) h q s = elim (Bool-cases (is_fresh c.now c.access_skew cached.tokens)) [
    | inl fresh ↦ rw fresh (q _)
    | inr stale ↦ rw stale (elim (Bool-cases (is_empty cached.tokens.refresh_token)) [
      | inl absent ↦ rw absent (q _)
      | inr present ↦
          rw present (s cached (record { loaded = h; stale = stale; present = present }))
    ])
  ]

  first_elim :
      (r : Result CacheError CachedTokens)
      → ((r : Result CacheError Tokens) → P (quiet d r))
      → ((cached : CachedTokens) → Refreshes c d cached → P (refreshed c d cached))
      → P (after_first_read c d r)
  unfolding after_first_read
  first_elim (err e) q s = q _
  first_elim (ok cached) q s =
      elim (Bool-cases (is_fresh c.first_now c.access_skew cached.tokens)) [
        | inl fresh ↦ rw fresh (q _)
        | inr stale ↦ rw stale (elim (Bool-cases c.locks) [
          | inr busy ↦ simp busy (q _)
          | inl locked ↦ simp locked (locked_elim (load_matching_tokens c.config d) refl q s)
        ])
      ]

  pub ensure_elim :
      (first : Disk)
      → ((r : Result CacheError Tokens) → P (quiet d r))
      → ((cached : CachedTokens) → Refreshes c d cached → P (refreshed c d cached))
      → P (ensure_fresh_tokens c first d)
  unfolding ensure_fresh_tokens
  ensure_elim first q s = first_elim (load_matching_tokens c.config first) q s

pub check_bound_inv :
    (c : Config) (saved : Result CacheError Config) (t cached : CachedTokens) (o : Option Config)
    → check_bound c saved t o ≡ ok cached
    → t ≡ cached
unfolding check_bound names
check_bound_inv c saved t cached (some b) h = ground (arith, h)
check_bound_inv c saved t cached none h = ground (arith, h)

pub loaded_tokens :
    (c : Config) (d : Disk) (s : Stored CachedTokens) (cached : CachedTokens)
    → and_then (load_cached_tokens s) (λ t. check_bound c (load_config d.config) t t.config)
      ≡ ok cached
    → s ≡ stored cached
unfolding load_cached_tokens
loaded_tokens c d missing cached h = absurd (ground (arith, h))
loaded_tokens c d damaged cached h = absurd (ground (arith, h))
loaded_tokens c d (stored t) cached h =
    ap stored (check_bound_inv c (load_config d.config) t cached t.config h)

pub ensure_fresh_tokens_first :
    (c : Call) (first d : Disk) (cached : CachedTokens)
    → load_matching_tokens c.config first ≡ ok cached
    → is_fresh c.first_now c.access_skew cached.tokens ≡ true
    → ensure_fresh_tokens c first d ≡ quiet d (ok cached.tokens)
unfolding ensure_fresh_tokens after_first_read
ensure_fresh_tokens_first c first d cached h fresh = simp (h, fresh) refl

pub ensure_fresh_tokens_refused :
    (c : Call) (first d : Disk) (e : CacheError)
    → load_matching_tokens c.config first ≡ err e
    → ensure_fresh_tokens c first d ≡ quiet d (err e)
unfolding ensure_fresh_tokens after_first_read
ensure_fresh_tokens_refused c first d e h = simp h refl

pub load_matching_tokens_bound :
    (d : Disk) (t : CachedTokens) (c cfg : Config)
    → d.tokens ≡ stored t
    → t.config ≡ some c
    → load_matching_tokens cfg d ≡ (if same_config c cfg then ok t else err mismatch)
unfolding load_matching_tokens load_cached_tokens check_bound
load_matching_tokens_bound d t c cfg h bound = simp (h, bound) refl
