-- ===== src/Oidc/Logout.antt =====
-- oidc/backchannel_logout.go: the handler of logout notifications, and the cache of token ids that
-- keeps a notification from being replayed.
pub mod Replay
pub mod Delivery
pub mod Once
use tokyo3_base.Base.{
  ℕ, ◌+◌, ◌*◌, ◌≡◌, Bool, true, false, not, ◌&&◌, ◌||◌, Option, none, some, List, [], ◌∷◌, Bytes,
  bytes_eq, text, ltb, leb, ◌==◌, if◌then◌else◌,
}
use tokyo3_base.Base.Int.{ℤ, pos_part}
use tokyo3_base.Base.Dict
use tokyo3_base.Base.Dict.{Dict}
use tokyo3_base.Oidc.Verifier.{LogoutClaims, logout_token_max_age, logout_token_skew}
use tokyo3_base.SealedCookie.{is_empty}

-- How long a token is accepted.
abbrev pub min_window : ℕ
min_window = logout_token_max_age + logout_token_skew

abbrev pub sweep_interval : ℕ
sweep_interval = 60 * 1_000_000_000

pub record Entry : Type 0 where
  pub at : ℕ
  pub pending : Bool

pub record JtiCache : Type 0 where
  pub seen : Dict Entry
  pub window : ℕ
  pub last_sweep : ℕ

-- ReplayWindow, raised to the least window that covers a token.
unfoldable pub new_cache : ℤ → JtiCache
new_cache replay_window = record {
  seen = [];
  window = if ltb (pos_part replay_window) min_window then min_window else pos_part replay_window;
  last_sweep = 0;
}

-- `entry.pending || !entry.at.Before(cutoff)`.
abbrev pub is_fresh : ℕ → ℕ → Entry → Bool
is_fresh window now entry = entry.pending || not (ltb (entry.at + window) now)

unfoldable pub sweep : ℕ → JtiCache → JtiCache
sweep now c =
    if (c.last_sweep == 0) || leb (c.last_sweep + sweep_interval) now
    then record c { seen = Dict.keep (is_fresh c.window now) c.seen; last_sweep = now }
    else c

is_dup : ℕ → ℕ → Option Entry → Bool
is_dup window now none = false
is_dup window now (some entry) = is_fresh window now entry

reserve : Bytes → ℕ → JtiCache → Bool × JtiCache
unfolding is_dup
reserve jti now c =
    if is_dup c.window now (Dict.get jti c.seen)
    then (false, c)
    else (true, record c { seen = Dict.put jti (record { at = now; pending = true }) c.seen })

unfoldable pub accept : Bytes → ℕ → JtiCache → Bool × JtiCache
unfolding sweep reserve
accept jti now c = reserve jti now (sweep now c)

unfoldable pub finish : Bytes → Bool → ℕ → JtiCache → JtiCache
finish jti success now c = record c {
  seen =
      if success
      then Dict.put jti (record { at = now; pending = false }) c.seen
      else Dict.remove jti c.seen;
}

-- `form` is what parsing the form finds: nothing where the body cannot be parsed, and the empty text
-- where there is no token.
pub record LogoutRequest : Type 0 where
  pub method : Bytes
  pub form : Option Bytes

pub data Scope : Type 0 where
  session user : Scope

-- What the handler calls to revoke, over the state `W` of what they revoke. RevokeUser
-- says how many it revoked and whom, or that it does not know the user.
pub record Revoker (W : Type 0) : Type 0 where
  pub revoke_session : Bytes → W → Option ℕ × W
  pub revoke_user : Bytes → Bytes → W → Option (Option (ℕ × Bytes)) × W
  pub on_revoked : Option (LogoutClaims → Scope → Bytes → ℕ → W → Bool × W)

module _ {W : Type 0} (verify : ℕ → Bytes → Option LogoutClaims) (rv : Revoker W) where
  audited : Scope → Bytes → ℕ → LogoutClaims → W → Bool × W
  audited scope identity n claims w = elim rv.on_revoked [
    | none ↦ (true, w)
    | some hook ↦ hook claims scope identity n w
  ]

  session_revoked : LogoutClaims → Option ℕ × W → Bool × W
  unfolding audited
  session_revoked claims (none, w) = (false, w)
  session_revoked claims (some n, w) = audited session [] n claims w

  user_revoked : LogoutClaims → Option (Option (ℕ × Bytes)) × W → Bool × W
  unfolding audited
  user_revoked claims (none, w) = (false, w)
  user_revoked claims (some none, w) = audited user [] 0 claims w
  user_revoked claims (some (some (n, identity)), w) = audited user identity n claims w

  -- The work of an accepted notification, and whether it succeeded.
  unfoldable pub revoke : LogoutClaims → W → Bool × W
  unfolding session_revoked user_revoked
  revoke claims w =
      if not (is_empty claims.session_id)
      then session_revoked claims (rv.revoke_session claims.session_id w)
      else user_revoked claims (rv.revoke_user claims.issuer claims.subject w)

  -- The status of the answer, with the cache and the state after the request; the work ends at
  -- `done`.
  completed : LogoutClaims → ℕ → JtiCache → Bool × W → ℕ × JtiCache × W
  completed claims done c (success, w) =
      (if success then 200 else 500, finish claims.jti success done c, w)

  accepted : LogoutClaims → ℕ → W → Bool × JtiCache → ℕ × JtiCache × W
  unfolding completed revoke
  accepted claims done w (false, c) = (400, c, w)
  accepted claims done w (true, c) = completed claims done c (revoke claims w)

  verified : ℕ → ℕ → JtiCache → W → Option LogoutClaims → ℕ × JtiCache × W
  unfolding accepted
  verified now done c w none = (400, c, w)
  verified now done c w (some claims) = accepted claims done w (accept claims.jti now c)

  parsed : ℕ → ℕ → ℕ → JtiCache → W → Option Bytes → ℕ × JtiCache × W
  unfolding verified
  parsed checked now done c w none = (400, c, w)
  parsed checked now done c w (some raw) =
      if is_empty raw then (400, c, w) else verified now done c w (verify checked raw)

  -- The token is verified at `checked`, and its id accepted at `now`.
  unfoldable pub serve_http : LogoutRequest → ℕ → ℕ → ℕ → JtiCache → W → ℕ × JtiCache × W
  unfolding parsed
  serve_http r checked now done c w =
      if not (bytes_eq r.method (text "POST"))
      then (405, c, w)
      else parsed checked now done c w r.form
