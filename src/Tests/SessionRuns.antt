-- ===== src/Tests/SessionRuns.antt =====
-- The theorems of package session at concrete inputs.
use tokyo3_base.Base.{
  has_prefix, ℕ, zero, suc, ◌+◌, ◌<◌, ◌≤◌, ◌≡◌, refl, true, false, Option, none, some, [], ◌∷◌,
  arith, Bytes, bytes_eq, contains_bytes, text, has_prefix, ok, take, drop, All,
}
use tokyo3_base.Base.Int.{pos}
use tokyo3_base.Base.Dict
use tokyo3_base.Std.Base64
use tokyo3_base.Http.{Request}
use tokyo3_base.Crypto.Entropy.{random_bytes}
use tokyo3_base.Crypto.Seal.{seal_aad, open_aad}
use tokyo3_base.Csrf
use tokyo3_base.SealedCookie
use tokyo3_base.SealedCookie.{is_empty}
use tokyo3_base.Session.Config.{Config, Session, Manager, live, is_exempt}
use tokyo3_base.Session.Manager.{
  Url, served, read_session, maybe_extend_idle, new_session, extended, csrf_token, validate_csrf,
}
use tokyo3_base.Session.Manager.Expiry.{issued, filled, session_lifetime, with_expiry}
use tokyo3_base.Session.Manager.FormTokens.{validate_csrf-csrf_token}
use tokyo3_base.Session.Gate.{gate, answer}
use tokyo3_base.Session.Gate.Access.{gate_sound, gate_complete, in_group, same_origin}
use tokyo3_base.Tests.Instances.{
  value_of, to_bytes, from_bytes, opened, tagged, length_mac, length_mac-IsMac, plain_text,
}
use tokyo3_base.Tests.Sessions.{framed, print_session, read_fields}

abbrev bytes_from : ℕ → ℕ → Bytes
bytes_from zero b = []
bytes_from (suc n) b = b ∷ bytes_from n (b + 1)

abbrev source : Bytes
source = bytes_from 80 1

bytes_from-bytes : (n b : ℕ) → n + b ≤ 256 → All (λ x. x < 256) (bytes_from n b)
bytes_from-bytes zero b h = tt
bytes_from-bytes (suc n) b h = (omega arith, bytes_from-bytes n (b + 1) (omega arith))

abbrev manager : Manager
manager = record {
  cfg = record {
    required_group = text "ops";
    session_key = bytes_from 32 100;
    session_ttl = pos 1000;
    cookie_prefix = text "app";
    login_path = text "/auth/login";
    logout_path = text "/auth/logout";
    exempt_paths = [];
    base_path = text "/base";
    idle_timeout = pos 100;
    trusted_origins = none;
    trusted_proxies = [];
    is_revoked = none;
  };
  ttl = 1000;
  cookie = record {
    key = bytes_from 32 100;
    name = text "app_session";
    path = text "/base";
    proxies = none;
  };
  exempt = text "/auth/login" ∷ text "/auth/logout" ∷ [];
  origin_check = none;
}

-- The configuration as a caller gives it, with the defaults left out.
abbrev given : Config
given = record manager.cfg { login_path = []; logout_path = []; base_path = text "/base/" }

abbrev session : Session
session = record {
  subject = text "u1";
  email = [];
  name = [];
  groups = text "ops" ∷ [];
  sid = [];
  expiry = 110;
  absolute_expiry = 1010;
  csrf_secret = text "secret";
  extra = [];
}

abbrev carrying : Session → Request
carrying s = record {
  method = text "GET";
  path = text "/reports";
  raw_query = [];
  host = text "h";
  tls = true;
  headers = [];
  cookies =
      (text "app_session", value_of [] (SealedCookie.seal tagged framed manager.cookie s source).0)
      ∷ [];
  source = record { remote_addr = 4 ∷ 100 ∷ []; forwarded_for = [] };
}

abbrev parse_url : Bytes → Option Url
parse_url p = some (record { is_absolute = false; host = []; path = p })

abbrev new_one : Session
new_one = record {
  subject = [];
  email = [];
  name = [];
  groups = [];
  sid = [];
  expiry = 110;
  absolute_expiry = 1010;
  csrf_secret = Base64.encode (take 32 source);
  extra = [];
}

-- A login at 10, a user filled in, and a visit at 100 that prolongs the session to 200.
abbrev visited_one : Session
visited_one =
    (maybe_extend_idle tagged framed plain_text manager (carrying session) session 100 source).0

session_lifetime_example :
    read_session tagged framed plain_text manager (carrying session) 1011 ≡ none
unfolding new_session Csrf.new_secret random_bytes SealedCookie.read SealedCookie.seal seal_aad
    open_aad tagged to_bytes from_bytes opened framed print_session read_fields Base64.encode
    Base64.decode Dict.get bytes_eq
session_lifetime_example =
    session_lifetime tagged framed plain_text manager 10 session (carrying session) 1011
      (omega arith) (filled new_one (issued source (drop 32 source) refl) refl refl) refl
      (omega arith)

gate_complete_example :
    (s' : Session) × ((gate tagged framed plain_text parse_url manager
        (carrying session)
        100
        source).0.verdict
      ≡ served (some s'))
    × (s' ≡ with_expiry session s'.expiry)
    × (110 ≤ s'.expiry)
unfolding read_session SealedCookie.read SealedCookie.seal seal_aad open_aad random_bytes tagged
    to_bytes from_bytes opened framed print_session read_fields Base64.encode Base64.decode Dict.get
    bytes_eq is_exempt contains_bytes
gate_complete_example =
    gate_complete tagged framed plain_text parse_url manager (carrying session) 100 source session
      refl refl refl refl refl

gate_sound_example :
    (s : Session) × (SealedCookie.read tagged framed manager.cookie (carrying session) ≡ ok s)
    × (100 ≤ s.expiry)
    × (answer tagged framed plain_text parse_url manager s ≡ live)
    × (in_group manager s ≡ true)
    × (same_origin tagged framed plain_text parse_url manager (carrying session) ≡ true)
    × (is_exempt manager (text "/reports") ≡ false)
    × (with_expiry session 200 ≡ with_expiry s 200)
unfolding gate maybe_extend_idle read_session extended SealedCookie.read SealedCookie.seal
    SealedCookie.set SealedCookie.is_https seal_aad open_aad random_bytes tagged to_bytes from_bytes
    opened framed print_session read_fields Base64.encode Base64.decode Dict.get bytes_eq is_exempt
    contains_bytes
gate_sound_example =
    gate_sound tagged framed plain_text parse_url manager (carrying session) 100 source
      (with_expiry session 200) refl

abbrev wire : Bytes
wire =
    value_of []
      (csrf_token tagged framed plain_text length_mac manager (carrying session) (text "f") 100
        source).0

validate_csrf-csrf_token_example :
    validate_csrf tagged framed plain_text length_mac manager (carrying session) wire (text "f") 105
    ≡ bytes_eq (length_mac (text "secret") (text "f")) (length_mac (text "secret") (text "f"))
unfolding csrf_token Csrf.token Csrf.mask length_mac read_session SealedCookie.read
    SealedCookie.seal seal_aad open_aad random_bytes tagged to_bytes from_bytes opened framed
    print_session read_fields Base64.encode Base64.decode Dict.get bytes_eq
validate_csrf-csrf_token_example =
    validate_csrf-csrf_token tagged framed plain_text length_mac length_mac-IsMac manager
      (carrying session) (carrying session) (text "f") (text "f") 100 105 source session session
      wire (drop 32 source) (bytes_from-bytes 80 1 (omega arith)) refl refl refl refl
