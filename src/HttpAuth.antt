-- ===== src/HttpAuth.antt =====
-- httpauth/httpauth.go: the HTTP Basic gate. SHA-256 is a parameter, and `credentials` is what
-- `Request.BasicAuth` finds.
pub mod Admission
use tokyo3_base.Base.{
  Bool, true, false, not, ◌&&◌, ◌||◌, Option, none, some, List, Bytes, bytes_eq, text,
  contains_bytes, if◌then◌else◌,
}
use tokyo3_base.SealedCookie.{is_empty}

pub record BasicAuthConfig : Type 0 where
  pub username : Bytes
  pub password : Bytes
  pub realm : Bytes

-- The handler behind the gate; 503; or 401 with a challenge for the realm.
pub data Outcome : Type 0 where
  next misconfigured : Outcome
  challenged : Bytes → Outcome

unfoldable pub is_enabled : BasicAuthConfig → Bool
is_enabled c = not (is_empty c.username) && not (is_empty c.password)

-- Whether `Validate` returns no error.
unfoldable pub validates : BasicAuthConfig → Bool
validates c = if is_empty c.username then is_empty c.password else not (is_empty c.password)

realm_of : BasicAuthConfig → Bytes
realm_of c = if is_empty c.realm then text "restricted" else c.realm

module _ (sha256 : Bytes → Bytes) where
  -- `subtle.ConstantTimeCompare` of the digests, of both parts.
  matches : BasicAuthConfig → Option (Bytes × Bytes) → Bool
  matches c none = false
  matches c (some (user, pass)) =
      bytes_eq (sha256 user) (sha256 c.username) && bytes_eq (sha256 pass) (sha256 c.password)

  unfoldable pub basic_auth :
      BasicAuthConfig → List Bytes → Bytes → Option (Bytes × Bytes) → Outcome
  unfolding matches realm_of is_enabled validates
  basic_auth c exempt path credentials =
      if not (validates c)
      then (if contains_bytes exempt path then next else misconfigured)
      else if not (is_enabled c)
      then next
      else if contains_bytes exempt path
      then next
      else if matches c credentials
      then next
      else challenged (realm_of c)
