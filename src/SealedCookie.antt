-- ===== src/SealedCookie.antt =====
-- sealedcookie/sealedcookie.go: one sealed cookie. AES-256-GCM and the JSON encoding of the payload
-- are parameters, and the clock reading is an argument. A time to live that is not positive is 0.
pub mod RoundTrip
use tokyo3_base.Base.{
  ℕ, ◌+◌, ◌/◌, ◌≡◌, Bool, true, false, not, ◌&&◌, ◌||◌, Option, none, some, List, [], ◌∷◌, ◌++◌,
  Bytes, bytes_eq, text, Result, ok, err, and_then, or_err, map_err, length, ltb, ◌==◌,
  if◌then◌else◌,
}
use tokyo3_base.Base.Int.{ℤ, pos, negsuc}
use tokyo3_base.Base.Dict
use tokyo3_base.Std.Base64
use tokyo3_base.ClientIp
use tokyo3_base.ClientIp.{AddrText, Extractor}
use tokyo3_base.Crypto.Cipher.{Cipher}
use tokyo3_base.Crypto.Entropy
use tokyo3_base.Crypto.Entropy.{Entropy}
use tokyo3_base.Crypto.Seal.{seal_aad, open_aad, key_size}
use tokyo3_base.Http.{Request, header, SetCookie, is_valid_cookie}

abbrev pub max_value_len : ℕ
max_value_len = 3800

pub data Error : Type 0 where
  marshal_failed unmarshal_failed bad_base64 no_cookie no_name bad_cookie : Error
  too_large key_length : ℕ → Error
  crypto : Entropy.Error → Error

pub record Cookie : Type 0 where
  pub key : Bytes
  pub name : Bytes
  pub path : Bytes
  pub proxies : Option Extractor

-- `json.Marshal` and `json.Unmarshal` for the type of the payload.
pub record Codec (V : Type 0) : Type 0 where
  pub marshal : V → Option Bytes
  pub unmarshal : Bytes → Option V

pub record IsLossless {V : Type 0} (j : Codec V) : Type 0 where
  pub unmarshal-marshal : (v : V) (b : Bytes) → j.marshal v ≡ some b → j.unmarshal b ≡ some v

abbrev pub is_empty : Bytes → Bool
is_empty [] = true
is_empty (b ∷ bs) = false

unfoldable pub validate : Cookie → Result Error (Unit {0})
validate c =
    if not (length c.key == key_size)
    then err (key_length (length c.key))
    else if is_empty c.name
    then err no_name
    else if is_valid_cookie c.name c.path
    then ok tt
    else err bad_cookie

unfoldable pub aad : Cookie → Bytes
aad c = text "sealedcookie:" ++ c.name

module _ (t : AddrText) where
  -- Whether the request came over TLS, directly or as a proxy says that may vouch for it.
  unfoldable pub is_https : Cookie → Request → Bool
  is_https c r =
      if r.tls
      then true
      else if not (bytes_eq (header (text "X-Forwarded-Proto") r) (text "https"))
      then false
      else not (ClientIp.has_trusted_proxies t c.proxies)
        || ClientIp.is_trusted_peer t c.proxies r.source

  unfoldable pub clear : Cookie → Request → SetCookie
  unfolding is_https
  clear c r = record {
    name = c.name;
    value = [];
    path = c.path;
    http_only = true;
    secure = is_https c r;
    same_site_lax = true;
    expires = none;
    max_age = negsuc 0;
  }

module _ (cipher : Cipher) {V : Type 0} (j : Codec V) where
  sealed_text : Result Entropy.Error Bytes × Entropy → Result Error Bytes × Entropy
  sealed_text (r, e) = (and_then (map_err crypto r) (λ sealed. ok (Base64.encode sealed)), e)

  seal_bytes : Bytes → Option Bytes → Bytes → Entropy → Result Error Bytes × Entropy
  unfolding sealed_text
  seal_bytes key none bound e = (err marshal_failed, e)
  seal_bytes key (some b) bound e = sealed_text (seal_aad cipher key b bound e)

  unfoldable pub seal_value : Bytes → V → Bytes → Entropy → Result Error Bytes × Entropy
  unfolding seal_bytes
  seal_value key v bound e = seal_bytes key (j.marshal v) bound e

  unfoldable pub open_value : Bytes → Bytes → Bytes → Result Error V
  open_value key val bound = and_then (or_err (Base64.decode val) bad_base64) λ raw.
      and_then (map_err crypto (open_aad cipher key raw bound))
        λ pt. or_err (j.unmarshal pt) unmarshal_failed

  -- The methods `Seal`, `Open` and `Read` of a cookie.
  unfoldable pub seal : Cookie → V → Entropy → Result Error Bytes × Entropy
  unfolding seal_value aad
  seal c v e = seal_value c.key v (aad c) e

  unfoldable pub open_cookie : Cookie → Bytes → Result Error V
  unfolding open_value aad
  open_cookie c val = open_value c.key val (aad c)

  unfoldable pub read : Cookie → Request → Result Error V
  unfolding open_cookie
  read c r = and_then (or_err (Dict.get c.name r.cookies) no_cookie) (open_cookie c)

  module _ (t : AddrText) where
    cookie_of : Cookie → Request → ℕ → ℕ → Bytes → Result Error SetCookie
    unfolding is_https
    cookie_of c r ttl now sealed =
        if ltb max_value_len (length sealed)
        then err (too_large (length sealed))
        else ok (record {
          name = c.name;
          value = sealed;
          path = c.path;
          http_only = true;
          secure = is_https t c r;
          same_site_lax = true;
          expires = if ltb 0 ttl then some (now + ttl) else none;
          max_age = pos (ttl / 1_000_000_000);
        })

    -- `Set` gives the cookie that goes into the response.
    unfoldable pub set : Cookie → Request → V → ℕ → ℕ → Entropy → Result Error SetCookie × Entropy
    unfolding seal cookie_of
    set c r v ttl now e =
        let (sealed, e') = seal c v e in (and_then sealed (cookie_of c r ttl now), e')
