-- ===== src/Session/Manager/Redirect.antt =====
-- Where session/session.go sends a browser back to after a login.
use tokyo3_base.Base.{◌≡◌, true, false, Option, some, ◌++◌, Bytes, text, has_prefix, contains_byte}
use tokyo3_base.Std.Path
use tokyo3_base.SealedCookie.{is_empty}
use tokyo3_base.Session.Config.{Manager}
use tokyo3_base.Session.Manager.{Url, is_under}

-- A path on this host: a browser reads "//" as the start of another host's name.
abbrev pub IsLocal : Bytes → Type 0
IsLocal p = (has_prefix p (text "/") ≡ true) × (has_prefix p (text "//") ≡ false)

module _ (parse_url : Bytes → Option Url) (m : Manager) where
  abbrev pub home : Bytes
  home = m.cfg.base_path ++ text "/"

  -- The path asked for, as it may be followed.
  abbrev pub IsWithin : Bytes → Type 0
  IsWithin p =
      (u : Url) × (parse_url p ≡ some u)
      × (u.is_absolute ≡ false)
      × (is_empty u.host ≡ true)
      × (contains_byte u.path 92 ≡ false)
      × (is_under parse_url (Path.clean m.cfg.base_path) (Path.clean u.path) ≡ true)
