-- ===== src/Http.antt =====
-- What the program uses of package net/http: requests as the values that handlers read, cookies as
-- the attributes that handlers set, and `Cookie.Valid`.
use tokyo3_base.Base.{
  ℕ, Bool, true, false, ◌&&◌, ◌||◌, Option, none, some, [], ◌∷◌, Bytes, contains_byte, leb, text,
}
use tokyo3_base.Base.Int.{ℤ}
use tokyo3_base.Base.Dict
use tokyo3_base.Base.Dict.{Dict}
use tokyo3_base.ClientIp

-- `headers` holds what `Header.Get` finds under a name, and `cookies` what `r.Cookie` finds.
pub record Request : Type 0 where
  pub method : Bytes
  pub path : Bytes
  pub raw_query : Bytes
  pub host : Bytes
  pub tls : Bool
  pub headers : Dict Bytes
  pub cookies : Dict Bytes
  pub source : ClientIp.Request

abbrev pub or_empty : Option Bytes → Bytes
or_empty none = []
or_empty (some v) = v

-- An absent header reads as the empty text.
abbrev pub header : Bytes → Request → Bytes
header name r = or_empty (Dict.get name r.headers)

pub record SetCookie : Type 0 where
  pub name : Bytes
  pub value : Bytes
  pub path : Bytes
  pub http_only : Bool
  pub secure : Bool
  pub same_site_lax : Bool
  pub expires : Option ℕ
  pub max_age : ℤ

is_token_byte : ℕ → Bool
is_token_byte c =
    (leb b'a' c && leb c b'z')
    || (leb b'A' c && leb c b'Z')
    || (leb b'0' c && leb c b'9')
    || contains_byte (text "!#$%&'*+-.^_`|~") c

all_bytes : (ℕ → Bool) → Bytes → Bool
all_bytes p [] = true
all_bytes p (c ∷ s) = p c && all_bytes p s

-- A token is a text of token bytes that is not empty.
is_token : Bytes → Bool
unfolding is_token_byte all_bytes
is_token [] = false
is_token (c ∷ s) = all_bytes is_token_byte (c ∷ s)

is_path_byte : ℕ → Bool
is_path_byte c = leb 0x20 c && leb c 0x7e && (leb c 58 || leb 60 c)

-- `(&http.Cookie{Name: name, Value: "x", Path: path}).Valid()`.
unfoldable pub is_valid_cookie : Bytes → Bytes → Bool
unfolding is_token is_path_byte
is_valid_cookie name path = is_token name && all_bytes is_path_byte path
