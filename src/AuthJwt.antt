-- ===== src/AuthJwt.antt =====
-- auth/jwt/signer.go and logout_token.go: the ID tokens and logout tokens that a signer mints. The RS256
-- signature over the JSON of the claims is a parameter, and so is the random UUID.
pub mod Accepted
use tokyo3_base.Base.{
  ℕ, zero, suc, ◌+◌, ◌-◌, ◌*◌, ◌/◌, Bool, true, false, Option, none, some, List, [], Bytes, text,
  ltb, ◌==◌, if◌then◌else◌,
}
use tokyo3_base.Base.Int.{ℤ, pos, negsuc}
use tokyo3_base.SealedCookie.{is_empty}
use tokyo3_base.Oidc.Verifier.{
  Token, Date, no_date, date, Event, no_event, object_event, Events, no_events, events, Loose,
  loose_other,
}

abbrev pub second : ℕ
second = 1_000_000_000

-- Seconds from year 1 to 1970.
abbrev pub epoch : ℕ
epoch = 62135596800

abbrev pub default_id_token_ttl : ℕ
default_id_token_ttl = 3600 * second

abbrev pub default_acr_mfa : Bytes
default_acr_mfa = text "urn:mace:incommon:iap:silver"

abbrev pub logout_token_ttl : ℕ
logout_token_ttl = 2 * 60 * second

-- The part of the configuration that these tokens use; a duration is an integer where its sign is tested.
pub record Config : Type 0 where
  pub id_token_ttl : ℤ
  pub acr_mfa : Bytes

pub record Signer : Type 0 where
  pub kid : Bytes
  pub issuer : Bytes
  pub id_token_ttl : ℕ
  pub acr_mfa : Bytes

unfoldable pub positive_or : ℕ → ℤ → ℕ
positive_or d (pos zero) = d
positive_or d (pos (suc n)) = suc n
positive_or d (negsuc n) = d

unfoldable pub new : Bytes → Bytes → Config → Signer
new kid issuer cfg = record {
  kid = kid;
  issuer = issuer;
  id_token_ttl = positive_or default_id_token_ttl cfg.id_token_ttl;
  acr_mfa = if is_empty cfg.acr_mfa then default_acr_mfa else cfg.acr_mfa;
}

-- `NewNumericDate`: whole seconds.
unfoldable pub numeric_date : ℕ → ℕ
numeric_date t = t / second * second

-- `t.Unix()`, in seconds.
unfoldable pub unix : ℕ → ℤ
unix t =
    if ltb (t / second) epoch then negsuc (epoch - t / second - 1) else pos (t / second - epoch)

unfoldable pub unix_or_zero : ℕ → ℤ
unix_or_zero t = if t == 0 then pos 0 else unix t

pub record IdClaims : Type 0 where
  pub issuer : Bytes
  pub subject : Bytes
  pub audience : Bytes
  pub expires_at : ℕ
  pub issued_at : ℕ
  pub id : Bytes
  pub nonce : Bytes
  pub auth_time : ℤ
  pub acr : Bytes
  pub amr : List Bytes
  pub sid : Bytes
  pub email : Bytes
  pub name : Bytes
  pub preferred_username : Bytes
  pub groups : List Bytes

-- `events` has one member, an empty object.
pub record LogoutClaims : Type 0 where
  pub issuer : Bytes
  pub subject : Bytes
  pub audience : Bytes
  pub issued_at : ℕ
  pub expires_at : ℕ
  pub id : Bytes
  pub sid : Bytes

-- The arguments of `MintIDToken`, less the scopes, which it ignores.
pub record Identity : Type 0 where
  pub user_id : Bytes
  pub client_id : Bytes
  pub email : Bytes
  pub name : Bytes
  pub nonce : Bytes
  pub mfa_verified : Bool
  pub amr : List Bytes
  pub auth_time : ℕ
  pub sid : Bytes
  pub groups : List Bytes

unfoldable pub id_claims : Signer → Identity → ℕ → Bytes → IdClaims
id_claims s a now uuid = record {
  issuer = s.issuer;
  subject = a.user_id;
  audience = a.client_id;
  expires_at = numeric_date (now + s.id_token_ttl);
  issued_at = numeric_date now;
  id = uuid;
  nonce = a.nonce;
  auth_time = unix_or_zero a.auth_time;
  acr = if a.mfa_verified then s.acr_mfa else [];
  amr = a.amr;
  sid = a.sid;
  email = a.email;
  name = a.name;
  preferred_username = a.email;
  groups = a.groups;
}

unfoldable pub logout_claims : Signer → Bytes → Bytes → Bytes → Bytes → ℕ → Bytes → LogoutClaims
logout_claims s audience sub sid jti now uuid = record {
  issuer = s.issuer;
  subject = sub;
  audience = audience;
  issued_at = numeric_date now;
  expires_at = numeric_date (now + logout_token_ttl);
  id = if is_empty jti then uuid else jti;
  sid = sid;
}

-- A member that is empty is left out.
unfoldable pub or_absent : Bytes → Option Bytes
or_absent s = if is_empty s then none else some s

-- The time that a reader makes of a number of seconds, 0 for one that is not positive.
unfoldable pub time_of : ℤ → ℕ
time_of (pos zero) = 0
time_of (pos (suc n)) = (epoch + suc n) * second
time_of (negsuc n) = 0

-- What a verifier reads in the JSON of the claims.
unfoldable pub id_token : IdClaims → Token
id_token c = record {
  issuer = c.issuer;
  subject = c.subject;
  sid = c.sid;
  email = c.email;
  email_verified = loose_other;
  name = c.name;
  groups = c.groups;
  nonce = or_absent c.nonce;
  auth_time = time_of c.auth_time;
  jti = c.id;
  iat = some c.issued_at;
  exp = date c.expires_at;
  nbf = no_date;
  events = no_events;
}

unfoldable pub logout_token : LogoutClaims → Token
logout_token c = record {
  issuer = c.issuer;
  subject = c.subject;
  sid = c.sid;
  email = [];
  email_verified = loose_other;
  name = [];
  groups = [];
  nonce = none;
  auth_time = 0;
  jti = c.id;
  iat = some c.issued_at;
  exp = date c.expires_at;
  nbf = no_date;
  events = events (object_event 0);
}

-- `SignedString`, for a key id and claims.
pub record Signing : Type 0 where
  pub sign_id : Bytes → IdClaims → Option Bytes
  pub sign_logout : Bytes → LogoutClaims → Option Bytes

module _ (signing : Signing) where
  unfoldable pub mint_id_token : Signer → Identity → ℕ → Bytes → Option Bytes
  mint_id_token s a now uuid = signing.sign_id s.kid (id_claims s a now uuid)

  unfoldable pub mint_logout_token :
      Signer → Bytes → Bytes → Bytes → Bytes → ℕ → Bytes → Option Bytes
  mint_logout_token s audience sub sid jti now uuid =
      signing.sign_logout s.kid (logout_claims s audience sub sid jti now uuid)
