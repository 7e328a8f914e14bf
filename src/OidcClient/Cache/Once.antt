-- ===== src/OidcClient/Cache/Once.antt =====
-- The rotation of the refresh token that the helpers share in auth/oidcclient/client.go.
use tokyo3_base.Base.{
  ◌≡◌, Bool, true, false, not, ◌&&◌, ◌||◌, Option, none, some, List, [], ◌∷◌, ◌++◌, Bytes, bytes_eq,
  Result, ok, err, arith,
}
use tokyo3_base.SealedCookie.{is_empty}
use tokyo3_base.OidcClient.Endpoints.{Tokens, Error}
use tokyo3_base.OidcClient.Cache.{
  Config, CachedTokens, Stored, missing, damaged, stored, Disk, load_matching_tokens, Call, Outcome,
  or_keep, keep_missing, save_refreshed, ensure_fresh_tokens,
}
use tokyo3_base.OidcClient.Cache.Steps.{Refreshes, ensure_elim, loaded_tokens}

-- The refresh token that a request has used up.
unfoldable pub spent : Option (Bytes × Result Error Tokens) → List Bytes
spent none = []
spent (some (r, err e)) = []
spent (some (r, ok t)) = r ∷ []

unfoldable pub was_used : Bytes → List Bytes → Bool
was_used r [] = false
was_used r (u ∷ us) = bytes_eq u r || was_used r us

-- The answer of an issuer that rotates refresh tokens, given the ones used so far.
unfoldable pub rotates : List Bytes → Option (Bytes × Result Error Tokens) → Bool
rotates used none = true
rotates used (some (r, err e)) = true
rotates used (some (r, ok t)) =
    not (is_empty t.refresh_token) && not (was_used t.refresh_token (r ∷ used))

-- The cache and the refresh tokens used up, after calls, logins and logouts in any order.
pub data Reachable : Disk → List Bytes → Type 0 where
  start : {config : Stored Config} → Reachable (record { config = config; tokens = missing }) []
  login :
      {d : Disk} {used : List Bytes} (t : CachedTokens)
      → Reachable d used
      → was_used t.tokens.refresh_token used ≡ false
      → Reachable (record d { tokens = stored t }) used
  logout :
      {d : Disk} {used : List Bytes}
      → Reachable d used
      → Reachable (record d { tokens = missing }) used
  ensured :
      {d : Disk} {used : List Bytes} (c : Call) (first : Disk)
      → Reachable d used
      → c.saves ≡ true
      → rotates used (ensure_fresh_tokens c first d).request ≡ true
      → Reachable
          (ensure_fresh_tokens c first d).disk
          (spent (ensure_fresh_tokens c first d).request ++ used)

-- The cached refresh token has not been used up.
unfoldable IsUnused : List Bytes → Stored CachedTokens → Type 0
IsUnused used missing = Unit
IsUnused used damaged = Unit
IsUnused used (stored t) = was_used t.tokens.refresh_token used ≡ false

was_used-stored :
    (used : List Bytes) (s : Stored CachedTokens) (t : CachedTokens)
    → IsUnused used s
    → s ≡ stored t
    → was_used t.tokens.refresh_token used ≡ false
unfolding IsUnused
was_used-stored used missing t h e = absurd (ground (arith, e))
was_used-stored used damaged t h e = absurd (ground (arith, e))
was_used-stored used (stored u) t h e = let same : u ≡ t = ground (arith, e) in rw (← same) h

-- The token that a call sends is the one of the cache it found under the lock.
Refreshes-unused :
    (c : Call) (d : Disk) (used : List Bytes) (cached : CachedTokens)
    → IsUnused used d.tokens
    → Refreshes c d cached
    → was_used cached.tokens.refresh_token used ≡ false
unfolding load_matching_tokens
Refreshes-unused c d used cached h r =
    was_used-stored used d.tokens cached h (loaded_tokens c.config d d.tokens cached r.loaded)

saved-IsUnused :
    (c : Call) (d : Disk) (used : List Bytes) (old : Tokens) (answer : Result Error Tokens)
    → IsUnused used d.tokens
    → c.saves ≡ true
    → rotates used (save_refreshed c d old answer).request ≡ true
    → IsUnused
        (spent (save_refreshed c d old answer).request ++ used)
        (save_refreshed c d old answer).disk.tokens
unfolding save_refreshed keep_missing or_keep spent rotates IsUnused
saved-IsUnused c d used old (err e) h saves rotated = h
saved-IsUnused c d used old (ok t) h saves rotated = ground (arith, saves, rotated)

saved_used :
    (c : Call) (d : Disk) (used : List Bytes) (old : Tokens) (answer : Result Error Tokens)
    (r : Bytes) (a : Result Error Tokens)
    → was_used old.refresh_token used ≡ false
    → (save_refreshed c d old answer).request ≡ some (r, a)
    → was_used r used ≡ false
unfolding save_refreshed
saved_used c d used old (err e) r a h sent =
    let same : old.refresh_token ≡ r = ground (arith, sent) in rw (← same) h
saved_used c d used old (ok t) r a h sent =
    let same : old.refresh_token ≡ r = ground (arith, sent) in rw (← same) h

ensured-IsUnused :
    (c : Call) (first d : Disk) (used : List Bytes)
    → IsUnused used d.tokens
    → c.saves ≡ true
    → rotates used (ensure_fresh_tokens c first d).request ≡ true
    → IsUnused
        (spent (ensure_fresh_tokens c first d).request ++ used)
        (ensure_fresh_tokens c first d).disk.tokens
unfolding spent
ensured-IsUnused c first d used h saves rotated =
    ensure_elim
      (λ (o : Outcome).
        rotates used o.request ≡ true → IsUnused (spent o.request ++ used) o.disk.tokens)
      c d first (λ r rotated. h)
      (λ cached refreshes rotated. saved-IsUnused c d used _ _ h saves rotated) rotated

Reachable-IsUnused : {d : Disk} {used : List Bytes} → Reachable d used → IsUnused used d.tokens
unfolding IsUnused
Reachable-IsUnused start = tt
Reachable-IsUnused (login t reach unused) = unused
Reachable-IsUnused (logout reach) = tt
Reachable-IsUnused (ensured {d} {used} c first reach saves rotated) =
    ensured-IsUnused c first d used (Reachable-IsUnused reach) saves rotated

-- With an issuer that rotates refresh tokens, and while the file can be written after a refresh, whatever the
-- helpers' calls, logins and logouts, and however old the cache is that a call read before it got the lock:
-- a refresh token that was accepted once is not sent again.
pub refresh_once :
    {d : Disk} {used : List Bytes} (c : Call) (first : Disk) (r : Bytes) (a : Result Error Tokens)
    → Reachable d used
    → (ensure_fresh_tokens c first d).request ≡ some (r, a)
    → was_used r used ≡ false
refresh_once {d} {used} c first r a reach sent =
    ensure_elim (λ (o : Outcome). o.request ≡ some (r, a) → was_used r used ≡ false) c d first
      (λ result h. absurd (ground (arith, h)))
      (λ cached refreshes h.
        saved_used c d used cached.tokens _ r a
          (Refreshes-unused c d used cached (Reachable-IsUnused reach) refreshes) h)
      sent
