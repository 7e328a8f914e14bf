-- ===== src/OidcClient/Endpoints.antt =====
-- auth/oidcclient/discovery.go, and the token exchange of client.go: which endpoints get credentials, and
-- what a token response gives.
pub mod Secure
use tokyo3_base.Base.{
  ℕ, ◌+◌, ◌*◌, ◌≡◌, Bool, true, false, not, ◌&&◌, ◌||◌, Option, none, some, List, [], ◌∷◌, ◌++◌,
  Bytes, bytes_eq, text, Result, ok, err, and_then, or_err, length, take, ltb, ◌==◌, if◌then◌else◌,
}
use tokyo3_base.Base.Int.{ℤ}
use tokyo3_base.Std.Split.{trim_space}
use tokyo3_base.SealedCookie.{is_empty}
use tokyo3_base.UrlQuery
use tokyo3_base.UrlQuery.{Values}
use tokyo3_base.OidcClient.Duration.{second, seconds, add}

-- What is read of a parsed URL: `host` is the host without its port.
pub record Url : Type 0 where
  pub scheme : Bytes
  pub host : Bytes

pub record Endpoints : Type 0 where
  pub authorization : Bytes
  pub token : Bytes
  pub device_authorization : Bytes

-- A discovery document; a missing member is empty.
pub record Document : Type 0 where
  pub issuer : Bytes
  pub endpoints : Endpoints

pub record RawTokens : Type 0 where
  pub access_token : Bytes
  pub refresh_token : Bytes
  pub id_token : Bytes
  pub expires_in : Option ℤ

pub record Tokens : Type 0 where
  pub access_token : Bytes
  pub refresh_token : Bytes
  pub id_token : Bytes
  pub expiration : ℕ

-- `post` and `get` give a status and a body, the latter from the discovery client.
pub record Web : Type 0 where
  pub parse_url : Bytes → Option Url
  pub is_loopback : Bytes → Bool
  pub post : Bytes → Values → Option (ℕ × Bytes)
  pub get : Bytes → Option (ℕ × Bytes)
  pub decode_document : Bytes → Option Document
  pub decode_tokens : Bytes → Option RawTokens

pub data Error : Type 0 where
  invalid_endpoint insecure_endpoint no_response bad_response no_access_token : Error
  status : ℕ → Bytes → Error

abbrev pub max_error_body : ℕ
max_error_body = 512

abbrev pub default_token_ttl : ℕ
default_token_ttl = 3600 * second

unfoldable pub trim_slashes : Bytes → Bytes
trim_slashes [] = []
trim_slashes (c ∷ s) =
    let rest = trim_slashes s in if (c == b'/') && is_empty rest then [] else c ∷ rest

unfoldable pub convention_endpoints : Bytes → Endpoints
unfolding trim_slashes
convention_endpoints issuer = record {
  authorization = trim_slashes issuer ++ text "/authorize";
  token = trim_slashes issuer ++ text "/token";
  device_authorization = trim_slashes issuer ++ text "/device_authorization";
}

-- The body trimmed, and cut to the cap; the ellipsis is three bytes.
unfoldable pub error_body_text : Bytes → Bytes
error_body_text body =
    let msg = trim_space body in
    if ltb max_error_body (length msg)
    then take max_error_body msg ++ (0xe2 ∷ 0x80 ∷ 0xa6 ∷ [])
    else msg

unfoldable pub parse_tokens : ℕ → RawTokens → Result Error Tokens
parse_tokens now raw =
    if is_empty raw.access_token
    then err no_access_token
    else ok (record {
      access_token = raw.access_token;
      refresh_token = raw.refresh_token;
      id_token = raw.id_token;
      expiration = elim raw.expires_in [
        | none ↦ now + default_token_ttl
        | some n ↦ add now (seconds n)
      ];
    })

unfoldable pub is_ok : Result Error (Unit {0}) → Bool
is_ok (ok u) = true
is_ok (err e) = false

module _ (w : Web) where
  secure_url : Option Url → Result Error (Unit {0})
  secure_url none = err invalid_endpoint
  secure_url (some u) =
      if bytes_eq u.scheme (text "https")
      then ok tt
      else if bytes_eq u.scheme (text "http")
          && (bytes_eq u.host (text "localhost") || w.is_loopback u.host)
      then ok tt
      else err insecure_endpoint

  unfoldable pub require_secure_endpoint : Bytes → Result Error (Unit {0})
  unfolding secure_url
  require_secure_endpoint raw = secure_url (w.parse_url raw)

  -- A response is cut to 64 KiB.
  unfoldable pub post_form : Bytes → Values → Result Error (ℕ × Bytes)
  post_form endpoint form =
      and_then (require_secure_endpoint endpoint) (λ u. or_err (w.post endpoint form) no_response)

  token_response : ℕ → ℕ → Bytes → Result Error Tokens
  token_response now code body =
      if not (code == 200)
      then err (status code (error_body_text body))
      else and_then (or_err (w.decode_tokens body) bad_response) (parse_tokens now)

  unfoldable pub post_token_at : ℕ → Bytes → Values → Result Error Tokens
  unfolding token_response
  post_token_at now url form = and_then (post_form url form) (λ p. token_response now p.0 p.1)

  unfoldable pub post_token : ℕ → Bytes → Values → Result Error Tokens
  post_token now issuer form = post_token_at now (trim_slashes issuer ++ text "/token") form

  -- An endpoint of the document, where it is there and secure.
  chosen : Bytes → Bytes → Bytes
  unfolding is_ok
  chosen fallback found =
      if not (is_empty found) && is_ok (require_secure_endpoint found) then found else fallback

  from_document : Bytes → Option Document → Endpoints
  unfolding chosen
  from_document issuer none = convention_endpoints issuer
  from_document issuer (some d) =
      if not (bytes_eq (trim_slashes d.issuer) (trim_slashes issuer))
      then convention_endpoints issuer
      else record {
        authorization =
            chosen (convention_endpoints issuer).authorization d.endpoints.authorization;
        token = chosen (convention_endpoints issuer).token d.endpoints.token;
        device_authorization =
            chosen (convention_endpoints issuer).device_authorization
              d.endpoints.device_authorization;
      }

  document_of : Option (ℕ × Bytes) → Option Document
  document_of none = none
  document_of (some (code, body)) = if not (code == 200) then none else w.decode_document body

  unfoldable pub discover_endpoints : Bytes → Endpoints
  unfolding from_document document_of is_ok
  discover_endpoints issuer =
      if not (is_ok (require_secure_endpoint issuer))
      then convention_endpoints issuer
      else from_document issuer
          (document_of (w.get (trim_slashes issuer ++ text "/.well-known/openid-configuration")))

  -- `Refresh`.
  unfoldable pub refresh : ℕ → Bytes → Bytes → Bytes → Result Error Tokens
  refresh now issuer client_id refresh_token = post_token_at now (discover_endpoints issuer).token (
      UrlQuery.set (text "refresh_token") refresh_token (
        UrlQuery.set (text "client_id") client_id
          (UrlQuery.set (text "grant_type") (text "refresh_token") [])))
