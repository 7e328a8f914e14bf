-- ===== src/Oidc/Verifier.antt =====
-- oidc/oidc.go: what the verifier demands of ID tokens and of logout tokens, once package go-oidc has
-- checked signature, issuer and audience, which is a parameter. The JSON of the claims is read as the
-- shapes that the code tells apart. A date before year 1, and an `auth_time` that is not positive, is
-- the number 0.
pub mod Demands
pub mod Admits
use tokyo3_base.Base.{
  ℕ, ◌+◌, ◌*◌, ◌≡◌, Bool, true, false, not, ◌&&◌, ◌||◌, Option, none, some, List, [], ◌∷◌, Bytes,
  bytes_eq, text, Result, ok, err, and_then, or_err, ltb, leb, ◌==◌, if◌then◌else◌,
}
use tokyo3_base.SealedCookie.{is_empty}

abbrev pub logout_token_max_age : ℕ
logout_token_max_age = 5 * 60 * 1_000_000_000

abbrev pub logout_token_skew : ℕ
logout_token_skew = 30 * 1_000_000_000

-- A numeric date: absent, not a number, or a time.
pub data Date : Type 0 where
  no_date bad_date : Date
  date : ℕ → Date

-- The member that marks a logout token: missing, null, no object, or an object of some size.
pub data Event : Type 0 where
  no_event null_event other_event : Event
  object_event : ℕ → Event

-- The `events` claim: absent or null, no object, or an object that may have the member.
pub data Events : Type 0 where
  no_events other_events : Events
  events : Event → Events

-- `email_verified`: a Boolean, a string, or anything else.
pub data Loose : Type 0 where
  loose_bool : Bool → Loose
  loose_string : Bytes → Loose
  loose_other : Loose

-- A token whose signature, issuer and audience are right.
pub record Token : Type 0 where
  pub issuer : Bytes
  pub subject : Bytes
  pub sid : Bytes
  pub email : Bytes
  pub email_verified : Loose
  pub name : Bytes
  pub groups : List Bytes
  pub nonce : Option Bytes
  pub auth_time : ℕ
  pub jti : Bytes
  pub iat : Option ℕ
  pub exp : Date
  pub nbf : Date
  pub events : Events

pub record LogoutClaims : Type 0 where
  pub issuer : Bytes
  pub subject : Bytes
  pub session_id : Bytes
  pub jti : Bytes
  pub issued_at : ℕ
  pub expires_at : ℕ

pub record Claims : Type 0 where
  pub subject : Bytes
  pub email : Bytes
  pub email_verified : Bool
  pub name : Bytes
  pub groups : List Bytes
  pub nonce : Bytes
  pub issuer : Bytes
  pub auth_time : ℕ
  pub session_id : Bytes

pub data Error : Type 0 where
  unverified empty_token is_logout_token bad_claims has_nonce no_iat bad_iat bad_exp bad_nbf : Error
  missing_event bad_event no_subject no_jti : Error

is_recent : ℕ → ℕ → Bool
is_recent now issued =
    leb issued (now + logout_token_skew) && leb now (issued + logout_token_max_age)

-- `!expiresAt.After(now.Add(-logoutTokenSkew))`, negated.
is_unexpired : ℕ → Date → Bool
is_unexpired now no_date = true
is_unexpired now bad_date = false
is_unexpired now (date t) = ltb now (t + logout_token_skew)

has_begun : ℕ → Date → Bool
has_begun now no_date = true
has_begun now bad_date = false
has_begun now (date t) = leb t (now + logout_token_skew)

-- A missing `exp` gives the zero Time.
expiry_of : Date → ℕ
expiry_of (date t) = t
expiry_of no_date = 0
expiry_of bad_date = 0

-- Claims of another shape do not decode at all.
event_of : Events → Result Error Event
event_of no_events = ok no_event
event_of other_events = err bad_claims
event_of (events other_event) = err bad_claims
event_of (events no_event) = ok no_event
event_of (events null_event) = ok null_event
event_of (events (object_event n)) = ok (object_event n)

checked_event : Event → Result Error (Unit {0})
checked_event no_event = err missing_event
checked_event null_event = err bad_event
checked_event other_event = err bad_event
checked_event (object_event n) = if n == 0 then ok tt else err bad_event

named : Token → ℕ → Result Error LogoutClaims
unfolding expiry_of
named tok issued =
    if is_empty tok.subject && is_empty tok.sid
    then err no_subject
    else if is_empty tok.jti
    then err no_jti
    else ok (record {
      issuer = tok.issuer;
      subject = tok.subject;
      session_id = tok.sid;
      jti = tok.jti;
      issued_at = issued;
      expires_at = expiry_of tok.exp;
    })

dated : ℕ → Token → Event → ℕ → Result Error LogoutClaims
unfolding is_recent is_unexpired has_begun checked_event named
dated now tok event issued =
    if not (is_recent now issued)
    then err bad_iat
    else if not (is_unexpired now tok.exp)
    then err bad_exp
    else if not (has_begun now tok.nbf)
    then err bad_nbf
    else and_then (checked_event event) (λ u. named tok issued)

issued : ℕ → Token → Event → Option ℕ → Result Error LogoutClaims
unfolding dated
issued now tok event none = err no_iat
issued now tok event (some t) = dated now tok event t

bodied : ℕ → Token → Option Bytes → Event → Result Error LogoutClaims
unfolding issued
bodied now tok (some n) event = err has_nonce
bodied now tok none event = issued now tok event tok.iat

-- `VerifyLogoutToken` from the decoded claims on.
unfoldable pub verify_logout_claims : ℕ → Token → Result Error LogoutClaims
unfolding bodied event_of
verify_logout_claims now tok = and_then (event_of tok.events) (bodied now tok tok.nonce)

unfoldable pub has_logout_event : Events → Bool
has_logout_event no_events = false
has_logout_event other_events = false
has_logout_event (events no_event) = false
has_logout_event (events null_event) = true
has_logout_event (events other_event) = true
has_logout_event (events (object_event n)) = true

or_empty : Option Bytes → Bytes
or_empty none = []
or_empty (some n) = n

-- `strings.EqualFold` with "true", on ASCII text.
lower : ℕ → ℕ
lower c = if leb b'A' c && leb c b'Z' then c + 32 else c

lowered : Bytes → Bytes
unfolding lower
lowered [] = []
lowered (c ∷ s) = lower c ∷ lowered s

parse_loose_bool : Loose → Bool
unfolding lowered
parse_loose_bool (loose_bool b) = b
parse_loose_bool (loose_string s) = bytes_eq (lowered s) (text "true")
parse_loose_bool loose_other = false

-- `Verify` from the decoded claims on.
unfoldable pub verify_claims : Token → Result Error Claims
unfolding has_logout_event parse_loose_bool or_empty
verify_claims tok =
    if has_logout_event tok.events
    then err is_logout_token
    else ok (record {
      subject = tok.subject;
      email = tok.email;
      email_verified = parse_loose_bool tok.email_verified;
      name = tok.name;
      groups = tok.groups;
      nonce = or_empty tok.nonce;
      issuer = tok.issuer;
      auth_time = tok.auth_time;
      session_id = tok.sid;
    })

-- The verifier of package go-oidc for ID tokens, which checks their expiry too.
module _ (check : Bytes → Option Token) where
  unfoldable pub verify : Bytes → Result Error Claims
  unfolding verify_claims
  verify raw =
      if is_empty raw
      then err empty_token
      else and_then (or_err (check raw) unverified) verify_claims

-- The one for logout tokens.
module _ (check_logout : Bytes → Option Token) where
  unfoldable pub verify_logout_token : ℕ → Bytes → Result Error LogoutClaims
  unfolding verify_logout_claims
  verify_logout_token now raw =
      and_then (or_err (check_logout raw) unverified) (verify_logout_claims now)
