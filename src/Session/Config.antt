-- ===== src/Session/Config.antt =====
-- session/session.go: `Session`, `Config`, `New` and the small accessors of a Manager.
pub mod Defaults
use tokyo3_base.Base.{
  ℕ, ◌*◌, Bool, not, ◌&&◌, Option, none, some, List, [], ◌∷◌, ◌++◌, Bytes, text, has_prefix,
  trim_suffix, contains_bytes, Result, ok, err, length, ◌==◌, if◌then◌else◌,
}
use tokyo3_base.Base.Int.{ℤ, pos_part, is_nonpositive}
use tokyo3_base.ClientIp.{Network}
use tokyo3_base.SealedCookie
use tokyo3_base.SealedCookie.{Cookie, is_empty}

abbrev pub session_key_size : ℕ
session_key_size = 32

abbrev pub default_session_ttl : ℕ
default_session_ttl = 8 * 3600 * 1_000_000_000

abbrev pub default_login_path : Bytes
default_login_path = text "/auth/login"

abbrev pub default_logout_path : Bytes
default_logout_path = text "/auth/logout"

pub record Session : Type 0 where
  pub subject : Bytes
  pub email : Bytes
  pub name : Bytes
  pub groups : List Bytes
  pub sid : Bytes
  pub expiry : ℕ
  pub absolute_expiry : ℕ
  pub csrf_secret : Bytes
  pub extra : Bytes

-- The answer of `IsRevoked`.
pub data Revocation : Type 0 where
  live revoked check_failed : Revocation

pub record Config : Type 0 where
  pub required_group : Bytes
  pub session_key : Bytes
  pub session_ttl : ℤ
  pub cookie_prefix : Bytes
  pub login_path : Bytes
  pub logout_path : Bytes
  pub exempt_paths : List Bytes
  pub base_path : Bytes
  pub idle_timeout : ℤ
  pub trusted_origins : Option (List Bytes)
  pub trusted_proxies : List Network
  pub is_revoked : Option (Session → Revocation)

pub data ConfigError : Type 0 where
  no_key no_prefix relative_base : ConfigError
  key_size : ℕ → ConfigError
  cookie : SealedCookie.Error → ConfigError
  bad_origin : Bytes → ConfigError

-- `cfg` is the normalised configuration; `ttl` is its lifetime, which is positive there.
pub record Manager : Type 0 where
  pub cfg : Config
  pub ttl : ℕ
  pub cookie : Cookie
  pub exempt : List Bytes
  pub origin_check : Option (List Bytes)

abbrev or_default : Bytes → Bytes → Bytes
or_default [] d = d
or_default (b ∷ bs) d = b ∷ bs

unfoldable pub cookie_path : Config → Bytes
cookie_path cfg = if is_empty cfg.base_path then text "/" else cfg.base_path

-- The defaults, and BasePath without its trailing slash.
unfoldable pub normalise : Config → Config
normalise cfg = record cfg {
  login_path = or_default cfg.login_path default_login_path;
  logout_path = or_default cfg.logout_path default_logout_path;
  base_path = trim_suffix cfg.base_path (text "/");
}

-- A cookie with the key, the path and the proxies of the session cookie.
unfoldable pub cookie_named : Config → Bytes → Cookie
unfolding cookie_path
cookie_named cfg suffix = record {
  key = cfg.session_key;
  name = cfg.cookie_prefix ++ (b'_' ∷ suffix);
  path = cookie_path cfg;
  proxies = some (record { trusted = cfg.trusted_proxies });
}

unfoldable pub sibling_cookie : Manager → Bytes → Cookie
unfolding cookie_named
sibling_cookie m suffix = cookie_named m.cfg suffix

unfoldable pub is_exempt : Manager → Bytes → Bool
is_exempt m path = contains_bytes m.exempt path

module _ (valid_origin : Bytes → Bool) where
  -- The first origin that `AddTrustedOrigin` refuses.
  bad_of : List Bytes → Option Bytes
  bad_of [] = none
  bad_of (o ∷ os) = if valid_origin o then bad_of os else some o

  check_origins : Config → Manager → Option (List Bytes) → Result ConfigError Manager
  unfolding bad_of
  check_origins cfg m none = ok m
  check_origins cfg m (some origins) = elim (bad_of origins) [
    | none ↦ ok (record m { origin_check = some origins })
    | some o ↦ err (bad_origin o)
  ]

  assemble : Config → Manager
  unfolding cookie_named
  assemble cfg = record {
    cfg = cfg;
    ttl = if is_nonpositive cfg.session_ttl then default_session_ttl else pos_part cfg.session_ttl;
    cookie = cookie_named cfg (text "session");
    exempt = cfg.login_path ∷ cfg.logout_path ∷ cfg.exempt_paths;
    origin_check = none;
  }

  validated : Config → Result SealedCookie.Error (Unit {0}) → Result ConfigError Manager
  unfolding check_origins assemble
  validated cfg (err e) = err (cookie e)
  validated cfg (ok u) = check_origins cfg (assemble cfg) cfg.trusted_origins

  new_normalised : Config → Result ConfigError Manager
  unfolding validated assemble
  new_normalised cfg =
      if not (is_empty cfg.base_path) && not (has_prefix cfg.base_path (text "/"))
      then err relative_base
      else validated cfg (SealedCookie.validate (assemble cfg).cookie)

  unfoldable pub new : Config → Result ConfigError Manager
  unfolding new_normalised normalise
  new cfg =
      if length cfg.session_key == 0
      then err no_key
      else if not (length cfg.session_key == session_key_size)
      then err (key_size (length cfg.session_key))
      else if is_empty cfg.cookie_prefix
      then err no_prefix
      else new_normalised (normalise cfg)
